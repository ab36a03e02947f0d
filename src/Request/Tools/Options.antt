-- ===== src/Request/Tools/Options.antt =====
-- What the checks on `stop` and `stream_options` (src/request.rs) leave true.
use nano_llm.Common.{
  ℕ, ◌+◌, ◌≤◌, Text, lit, Bool, true, not, ◌&&◌, ◌≡◌, ◌∙◌, ap, some, List, [], ◌∷◌, length, leb,
  leb→le, is_empty, All, arith,
}
use nano_llm.Json.{JsonValue, Fields, values, field}
use nano_llm.Request.Outcome.{
  Gives, Gives-ok, Gives-validation, Gives-bind, Gives-ensure, Gives-unwrap, Gives-mono, Gives-test,
}
use nano_llm.Request.Shape.{object, string, boolean, closed}
use nano_llm.Request.Shape.Checked.{
  IsObject, object-Gives, string-Gives, boolean-Gives, closed-Gives,
}
use nano_llm.Request.Tools.{
  validate_stop_string, stops_from, validate_stop, validate_stream_options,
}

abbrev pub IsStop : Text → Type 0
IsStop text = (1 ≤ length text) × (length text ≤ 256)

abbrev pub IsStopString : JsonValue → Type 0
IsStopString v = (text : Text) × (v ≡ JsonValue.string text) × IsStop text

abbrev pub AreStops : JsonValue → Type 0
AreStops (JsonValue.string text) = IsStop text
AreStops (JsonValue.array items) = (length (values items) ≤ 4) × All IsStopString (values items)
AreStops _ = ⊥

IsStop-bounds : (text : Text) → (not (is_empty text) && leb (length text) 256) ≡ true → IsStop text
IsStop-bounds [] h = cc
IsStop-bounds (b ∷ text) h = (omega arith, leb→le _ 256 (ground arith))

validate_stop_string-Gives :
    (text path : Text) → Gives (validate_stop_string text path) (λ _. IsStop text)
unfolding validate_stop_string
validate_stop_string-Gives text path =
    Gives-mono (λ _ h. IsStop-bounds text h)
      (Gives-test (not (is_empty text) && leb (length text) 256) _ _)

stops_from-Gives :
    (n : ℕ) (vs : List JsonValue) → Gives (stops_from n vs) (λ _. All IsStopString vs)
unfolding stops_from
stops_from-Gives n [] = Gives-ok tt tt
stops_from-Gives n (v ∷ vs) = Gives-bind (string v _ _) _ (string-Gives v _ _) λ text is_text.
    Gives-bind (validate_stop_string text _) _ (validate_stop_string-Gives text _)
      λ _ h. Gives-mono (λ _ hs. ((text, is_text, h), hs)) (stops_from-Gives (n + 1) vs)

pub validate_stop-Gives : (v : JsonValue) → Gives (validate_stop v) (λ _. AreStops v)
unfolding validate_stop
validate_stop-Gives (JsonValue.string text) = validate_stop_string-Gives text _
validate_stop-Gives (JsonValue.array items) =
    Gives-ensure (leb (length (values items)) 4) _ _ _
      λ few. Gives-mono (λ _ h. (leb→le _ 4 few, h)) (stops_from-Gives 0 (values items))
validate_stop-Gives JsonValue.null = Gives-validation _ _
validate_stop-Gives (JsonValue.bool b) = Gives-validation _ _
validate_stop-Gives (JsonValue.number t) = Gives-validation _ _
validate_stop-Gives (JsonValue.object ms) = Gives-validation _ _

abbrev pub IsOptions : JsonValue → Type 0
IsOptions v =
    (fs : Fields) × (b : Bool) × IsObject v fs
    × (field fs (lit "include_usage") ≡ some (JsonValue.bool b))

pub validate_stream_options-Gives :
    (v : JsonValue) → Gives (validate_stream_options v) (λ _. IsOptions v)
unfolding validate_stream_options
validate_stream_options-Gives v = Gives-bind (object v _ _) _ (object-Gives v _ _) λ fs o.
    Gives-bind (closed fs _ _ _ _) _ (closed-Gives fs _ (lit "include_usage" ∷ []) _ _) λ _ c.
      Gives-unwrap (field fs (lit "include_usage")) _ c.1.0 λ u found.
        Gives-bind (boolean u _ _) _ (boolean-Gives u _ _)
          λ b is_bool. Gives-ok tt (fs, b, o, found ∙ ap some is_bool)
