-- ===== src/OpenAiCompatible/Native/Invalid.antt =====
-- The errors of parsing what the upstream sends (src/openai_compatible.rs).
use nano_llm.Common.{
  ap, ◌⊎◌, inl, inr, subst, ℕ, Text, lit, text_eq, Bool, true, false, not, ◌≡◌, refl, Option, none,
  some, List, [], ◌∷◌, any, is_empty, Result, ok, err, ok_or, ensure, ◌>>=◌,
}
use nano_llm.Json.{JsonValue, Fields, fields_of, values, field}
use nano_llm.Request.Canonical.{fractional_byte, parse_unsigned}
use nano_llm.Request.Outcome.{Fault}
use nano_llm.Request.Parse.Strings.{Stop, fault, out_of_fuel}
use nano_llm.Request.Parse.{decode_json_object}
use nano_llm.Config.{ProviderKind}
use nano_llm.Response.{to_u64}
use nano_llm.OpenAiCompatible.Native.{
  Trouble, panicked, bad, native_error, Native, required, object, array, string, unsigned,
  optional_string, expect_word, content_of, each, calls_of, parse_tool_call, finish_of,
  parse_choice, native_object, parse_response,
}

-- Whatever trouble there is, it is the bad response.
abbrev pub Only : {A : Type 0} → Native A → Type 0
Only m = (e : Trouble) → m ≡ err e → e ≡ bad

Only-ok : {A : Type 0} (a : A) → Only (ok a)
Only-ok a e h = cc h

Only-invalid : {A : Type 0} → Only {A = A} (err bad)
Only-invalid e h = cc h

Only-bind :
    {A B : Type 0} (m : Native A) (f : A → Native B)
    → Only m
    → ((a : A) → Only (f a))
    → Only (m >>= f)
Only-bind (ok a) f h k = k a
Only-bind (err x) f h k = λ e p. let q = h x refl in cc (p, q)

Only-ensure : (t : Bool) → Only (ensure t bad)
Only-ensure true = Only-ok tt
Only-ensure false = Only-invalid

Only-ok_or : {A : Type 0} (o : Option A) → Only (ok_or o bad)
Only-ok_or none = Only-invalid
Only-ok_or (some a) = Only-ok a

required-Only : (fields : Fields) (name : Text) → Only (required fields name)
unfolding required
required-Only fields name = Only-ok_or (field fields name)

object-Only : (v : JsonValue) → Only (object v)
unfolding object
object-Only (JsonValue.object members) = Only-ok (fields_of members)
object-Only _ = Only-invalid

array-Only : (v : JsonValue) → Only (array v)
unfolding array
array-Only (JsonValue.array items) = Only-ok (values items)
array-Only _ = Only-invalid

string-Only : (v : JsonValue) → Only (string v)
unfolding string
string-Only (JsonValue.string text) = Only-ok text
string-Only _ = Only-invalid

unsigned-Only : (v : JsonValue) → Only (unsigned v)
unfolding unsigned
unsigned-Only (JsonValue.number text) =
    Only-bind (ensure (not (any fractional_byte text)) bad) _
      (Only-ensure (not (any fractional_byte text)))
      λ whole. Only-ok_or (to_u64 (parse_unsigned text))
unsigned-Only _ = Only-invalid

optional_string-Only : (o : Option JsonValue) → Only (optional_string o)
unfolding optional_string
optional_string-Only none = Only-ok none
optional_string-Only (some (JsonValue.string text)) = Only-ok (some text)
optional_string-Only (some _) = Only-invalid

content_of-Only : (o : Option JsonValue) → Only (content_of o)
unfolding content_of optional_string
content_of-Only none = Only-ok none
content_of-Only (some JsonValue.null) = Only-ok none
content_of-Only (some (JsonValue.string text)) = Only-ok (some text)
content_of-Only (some _) = Only-invalid

expect_word-Only : (word : Text) (o : Option JsonValue) → Only (expect_word word o)
unfolding expect_word
expect_word-Only word (some (JsonValue.string text)) = Only-ensure (text_eq text word)
expect_word-Only word none = Only-invalid
expect_word-Only word (some _) = Only-invalid

each-Only :
    {A : Type 0} (parse : JsonValue → Native A)
    → ((v : JsonValue) → Only (parse v))
    → (items : List JsonValue) → Only (each parse items)
unfolding each
each-Only parse h [] = Only-ok []
each-Only parse h (v ∷ items) = Only-bind (parse v) _ (h v) λ parsed.
    Only-bind (each parse items) _ (each-Only parse h items) λ rest. Only-ok (parsed ∷ rest)

calls_of-Only :
    {A : Type 0} (parse : JsonValue → Native A)
    → ((v : JsonValue) → Only (parse v))
    → (o : Option JsonValue) → Only (calls_of parse o)
unfolding calls_of
calls_of-Only parse h none = Only-ok []
calls_of-Only parse h (some value) = Only-bind (array value) _ (array-Only value) λ calls.
    Only-bind (ensure (not (is_empty calls)) bad) _ (Only-ensure (not (is_empty calls)))
      λ some_call. each-Only parse h calls

parse_tool_call-Only : (v : JsonValue) → Only (parse_tool_call v)
unfolding parse_tool_call
parse_tool_call-Only v = Only-bind (object v) _ (object-Only v) λ call.
    Only-bind (optional_string (field call (lit "id"))) _ (optional_string-Only _) λ id.
      Only-bind (expect_word (lit "function") (field call (lit "type"))) _ (expect_word-Only _ _)
        λ kind. Only-bind (required call (lit "function")) _ (required-Only call _) λ member.
          Only-bind (object member) _ (object-Only member) λ function.
            Only-bind (required function (lit "name")) _ (required-Only function _) λ named.
              Only-bind (string named) _ (string-Only named) λ name.
                Only-bind (required function (lit "arguments")) _ (required-Only function _)
                  λ given. Only-bind (string given) _ (string-Only given) λ arguments. Only-ok _

finish_of-Only : (provider : ProviderKind) (v : JsonValue) → Only (finish_of provider v)
unfolding finish_of
finish_of-Only provider (JsonValue.string reason) = Only-ok _
finish_of-Only provider JsonValue.null = Only-ok _
finish_of-Only provider _ = Only-invalid

parse_choice-Only : (provider : ProviderKind) (v : JsonValue) → Only (parse_choice provider v)
unfolding parse_choice
parse_choice-Only provider v = Only-bind (object v) _ (object-Only v) λ choice.
    Only-bind (required choice (lit "index")) _ (required-Only choice _) λ place.
      Only-bind (unsigned place) _ (unsigned-Only place) λ index.
        Only-bind (required choice (lit "message")) _ (required-Only choice _) λ said.
          Only-bind (object said) _ (object-Only said) λ message.
            Only-bind (expect_word (lit "assistant") (field message (lit "role"))) _
              (expect_word-Only _ _)
              λ role.
                Only-bind (content_of (field message (lit "content"))) _ (content_of-Only _)
                  λ content.
                    Only-bind (calls_of parse_tool_call (field message (lit "tool_calls"))) _
                      (calls_of-Only parse_tool_call parse_tool_call-Only _)
                      λ calls.
                        Only-bind (required choice (lit "finish_reason")) _ (required-Only choice _)
                          λ reason.
                            Only-bind (finish_of provider reason) _ (finish_of-Only provider reason)
                              λ finish. Only-ok _

-- The trouble is the invalid response, or a panic of the JSON parser on these bytes.
abbrev pub Broken : ℕ → Text → Trouble → Type 0
Broken fuel bytes e =
    (e ≡ bad) ⊎ ((e ≡ panicked) × (decode_json_object fuel bytes ≡ err (fault Fault.panic)))

native_error-Broken :
    (fuel : ℕ) (bytes : Text) (stop : Stop)
    → decode_json_object fuel bytes ≡ err stop
    → Broken fuel bytes (native_error stop)
unfolding native_error
native_error-Broken fuel bytes (fault Fault.panic) h = inr (refl, h)
native_error-Broken fuel bytes (fault (Fault.refused error)) h = inl refl
native_error-Broken fuel bytes out_of_fuel h = inl refl

replaced-Broken :
    (fuel : ℕ) (bytes : Text) (r : Result Stop Fields) (e : Trouble)
    → decode_json_object fuel bytes ≡ r
    → elim r [ ok fields ↦ ok fields | err x ↦ err (native_error x) ] ≡ err e
    → Broken fuel bytes e
replaced-Broken fuel bytes (ok fields) e same h = absurd (cc h)
replaced-Broken fuel bytes (err stop) e same h =
    subst (Broken fuel bytes) (cc h) (native_error-Broken fuel bytes stop same)

native_object-Broken :
    (fuel : ℕ) (bytes : Text) (e : Trouble) → native_object fuel bytes ≡ err e → Broken fuel bytes e
unfolding native_object
native_object-Broken fuel bytes e h =
    replaced-Broken fuel bytes (decode_json_object fuel bytes) e refl h

after-Broken :
    {A B : Type 0} (fuel : ℕ) (bytes : Text) (m : Native A) (f : A → Native B)
    → ((e : Trouble) → m ≡ err e → Broken fuel bytes e)
    → ((a : A) → Only (f a))
    → (e : Trouble) → (m >>= f) ≡ err e
    → Broken fuel bytes e
after-Broken fuel bytes (ok a) f h k e p = inl (k a e p)
after-Broken fuel bytes (err x) f h k e p = h e (ap err (cc p))

pub parse_response-Broken :
    (fuel : ℕ) (provider : ProviderKind) (bytes : Text) (e : Trouble)
    → parse_response fuel provider bytes ≡ err e
    → Broken fuel bytes e
unfolding parse_response
parse_response-Broken fuel provider bytes =
    after-Broken fuel bytes (native_object fuel bytes) _ (native_object-Broken fuel bytes) λ root.
      Only-bind (required root (lit "choices")) _ (required-Only root _) λ member.
        Only-bind (array member) _ (array-Only member) λ choices.
          Only-bind (each (parse_choice provider) choices) _
            (each-Only (parse_choice provider) (parse_choice-Only provider) choices)
            λ native_choices. Only-ok _
