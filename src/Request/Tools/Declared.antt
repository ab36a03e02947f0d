-- ===== src/Request/Tools/Declared.antt =====
-- What the checks on tools, tool choices, stop sequences and stream options (src/request.rs) leave
-- true.
use nano_llm.Common.{
  ℕ, ◌+◌, Text, lit, contains, true, not, ◌&&◌, ◌≡◌, refl, sym, ap, ◌∙◌, ◌⊎◌, inl, inr, Option,
  none, some, List, [], ◌∷◌, ◌++◌, map, is_empty, All, All-append, Distinct, Distinct-append, Fresh,
  contains-Fresh, text_eq, arith,
}
use nano_llm.Json.{JsonValue, Fields, fields_of, field}
use nano_llm.Request.Outcome.{
  Gives, Gives-ok, Gives-bind, Gives-ensure, Gives-unwrap, Gives-mono, Gives-test,
}
use nano_llm.Request.Shape.{object, array, string, closed}
use nano_llm.Request.Shape.Checked.{
  IsObject, IsArray, HasText, object-Gives, array-Gives, string-Gives, closed-Gives,
}
use nano_llm.Request.Conversation.{text_of}
use nano_llm.Request.Tools.{
  type_and_function, valid_tool_name, optional_string, optional_object, validate_tool_function,
  function_kind, validate_tool, tools_from, validate_tools, choice_function, named_choice,
  choice_words, validate_tool_choice,
}

pub text_of-field :
    (fields : Fields) (key : Text) {v : JsonValue} {text : Text}
    → field fields key ≡ some v
    → v ≡ JsonValue.string text
    → text_of (field fields key) ≡ text
text_of-field fields key found is_text = rw found (rw is_text refl)

pub function_kind-Gives : (v : JsonValue) (p q : Text) → Gives (function_kind v p q) (λ _. Unit)
unfolding function_kind
function_kind-Gives v p q =
    Gives-bind (string v p q) _ (string-Gives v p q)
      (λ kind _. Gives-mono (λ _ _. tt) (Gives-test (text_eq kind (lit "function")) _ _))

-- The name of a tool, read without any check.
abbrev pub name_in : Option JsonValue → Text
name_in (some (JsonValue.object function)) = text_of (field (fields_of function) (lit "name"))
name_in _ = []

abbrev pub tool_name : JsonValue → Text
tool_name (JsonValue.object tool) = name_in (field (fields_of tool) (lit "function"))
tool_name _ = []

abbrev NewName : List Text → Text → Type 0
NewName names name = (valid_tool_name name ≡ true) × Fresh name names

optional_string-Gives :
    (o : Option JsonValue) (p q : Text) → Gives (optional_string o p q) (λ _. Unit)
unfolding optional_string
optional_string-Gives none p q = Gives-ok tt tt
optional_string-Gives (some v) p q =
    Gives-bind (string v p q) _ (string-Gives v p q) λ _ _. Gives-ok tt tt

optional_object-Gives :
    (o : Option JsonValue) (p q : Text) → Gives (optional_object o p q) (λ _. Unit)
unfolding optional_object
optional_object-Gives none p q = Gives-ok tt tt
optional_object-Gives (some v) p q =
    Gives-bind (object v p q) _ (object-Gives v p q) λ _ _. Gives-ok tt tt

name_in-object :
    (v : JsonValue) (fs : Fields) (name : Text)
    → IsObject v fs
    → text_of (field fs (lit "name")) ≡ name
    → name ≡ name_in (some v)
name_in-object v fs name (ms, is_object, e) t =
    rw is_object (sym t ∙ ap (λ f. text_of (field f (lit "name"))) e)

validate_tool_function-Gives :
    (names : List Text) (v : JsonValue) (path : Text)
    → Gives
        (validate_tool_function names v path)
        (λ name. (name ≡ name_in (some v)) × NewName names name)
unfolding validate_tool_function
validate_tool_function-Gives names v path =
    Gives-bind (object v (lit "tools") path) _ (object-Gives v _ path) λ fs o.
      Gives-bind (closed fs _ _ (lit "tools") path) _ (closed-Gives fs _ (lit "name" ∷ []) _ path)
        λ _ c. Gives-unwrap (field fs (lit "name")) _ c.1.0 λ n found.
          Gives-bind (string n (lit "tools") _) _ (string-Gives n _ _) λ name is_text.
            Gives-ensure (valid_tool_name name && not (contains names name)) _ _ _ λ new.
              Gives-bind (optional_string (field fs (lit "description")) _ _) _
                (optional_string-Gives _ _ _)
                λ _ _.
                  Gives-bind (optional_object (field fs (lit "parameters")) _ _) _
                    (optional_object-Gives _ _ _)
                    λ _ _. Gives-ok name (
                      name_in-object v fs name o (text_of-field fs _ found is_text),
                      (ground arith, contains-Fresh names name (ground arith)),
                    )

tool_name-object :
    (v f : JsonValue) (fs : Fields)
    → IsObject v fs
    → field fs (lit "function") ≡ some f
    → name_in (some f) ≡ tool_name v
tool_name-object v f fs (ms, is_object, e) found =
    rw is_object (sym (ap name_in found) ∙ ap (λ t. name_in (field t (lit "function"))) e)

validate_tool-Gives :
    (names : List Text) (v : JsonValue) (path : Text)
    → Gives (validate_tool names v path) (λ name. (name ≡ tool_name v) × NewName names name)
unfolding validate_tool
validate_tool-Gives names v path =
    Gives-bind (object v (lit "tools") path) _ (object-Gives v _ path) λ fs o.
      Gives-bind (closed fs type_and_function type_and_function (lit "tools") path) _
        (closed-Gives fs _ _ _ path)
        λ _ c. Gives-unwrap (field fs (lit "type")) _ c.1.0 λ k _.
          Gives-bind (function_kind k (lit "tools") _) _ (function_kind-Gives k _ _) λ _ _.
            Gives-unwrap (field fs (lit "function")) _ c.1.1.0 λ f found.
              Gives-mono (λ name (is_name, new). (is_name ∙ tool_name-object v f fs o found, new))
                (validate_tool_function-Gives names f _)

append_assoc :
    (xs : List Text) (y : Text) (zs : List Text) → (xs ++ (y ∷ [])) ++ zs ≡ xs ++ (y ∷ zs)
append_assoc [] y zs = refl
append_assoc (x ∷ xs) y zs = ap (λ l. x ∷ l) (append_assoc xs y zs)

append_nil : (xs : List Text) → xs ++ [] ≡ xs
append_nil [] = refl
append_nil (x ∷ xs) = ap (λ l. x ∷ l) (append_nil xs)

-- Distinct valid names.
abbrev pub AreNames : List Text → Type 0
AreNames names = Distinct names × All (λ n. valid_tool_name n ≡ true) names

tools_from-Gives :
    (n : ℕ) (names : List Text) (vs : List JsonValue)
    → AreNames names
    → Gives (tools_from n names vs) (λ all. (all ≡ names ++ map tool_name vs) × AreNames all)
unfolding tools_from
tools_from-Gives n names [] h = Gives-ok names (sym (append_nil names), h)
tools_from-Gives n names (v ∷ vs) (distinct, valid) =
    Gives-bind (validate_tool names v _) _ (validate_tool-Gives names v _)
      λ name (is_name, (valid_name, fresh)).
        Gives-mono
          (λ all (e, h).
            (e ∙ append_assoc names name _ ∙ ap (λ t. names ++ (t ∷ map tool_name vs)) is_name, h))
          (tools_from-Gives (n + 1) (names ++ (name ∷ [])) vs (
            Distinct-append names name distinct fresh,
            All-append (λ t. valid_tool_name t ≡ true) names (name ∷ []) valid (valid_name, tt),
          ))

-- The names that a `tools` member declares.
pub validate_tools-Gives :
    (v : JsonValue)
    → Gives (validate_tools v) (λ names.
      (tools : List JsonValue) × IsArray v tools
      × (not (is_empty tools) ≡ true)
      × (names ≡ map tool_name tools)
      × AreNames names)
unfolding validate_tools
validate_tools-Gives v =
    Gives-bind (array v (lit "tools") (lit "tools")) _ (array-Gives v _ _) λ tools is_array.
      Gives-ensure (not (is_empty tools)) _ _ _ λ some_tools.
        Gives-mono (λ names (e, h). (tools, is_array, some_tools, e, h))
          (tools_from-Gives 0 [] tools (tt, tt))

-- A word, or the name of a declared function where canonical_tool_choice reads it.
abbrev pub IsNamed : List Text → JsonValue → Type 0
IsNamed names v =
    (fs : Fields) × (f : JsonValue) × (gs : Fields) × (name : Text) × IsObject v fs
    × (field fs (lit "function") ≡ some f)
    × IsObject f gs
    × HasText gs (lit "name") name
    × (contains names name ≡ true)

abbrev pub IsWord : JsonValue → Type 0
IsWord v = (word : Text) × (v ≡ JsonValue.string word) × (contains choice_words word ≡ true)

choice_function-Gives :
    (v : JsonValue) (names : List Text)
    → Gives (choice_function v names) (λ _.
      (gs : Fields) × (name : Text) × IsObject v gs
      × HasText gs (lit "name") name
      × (contains names name ≡ true))
unfolding choice_function
choice_function-Gives v names = Gives-bind (object v _ _) _ (object-Gives v _ _) λ gs o.
    Gives-bind (closed gs _ _ _ _) _ (closed-Gives gs _ (lit "name" ∷ []) _ _) λ _ c.
      Gives-unwrap (field gs (lit "name")) _ c.1.0 λ n found.
        Gives-bind (string n _ _) _ (string-Gives n _ _) λ name is_text.
          Gives-mono (λ _ h. (gs, name, o, found ∙ ap some is_text, h))
            (Gives-test (contains names name) _ _)

named_choice-Gives :
    (v : JsonValue) (names : List Text) → Gives (named_choice v names) (λ _. IsNamed names v)
unfolding named_choice
named_choice-Gives v names = Gives-bind (object v _ _) _ (object-Gives v _ _) λ fs o.
    Gives-bind (closed fs _ _ _ _) _ (closed-Gives fs _ type_and_function _ _) λ _ c.
      Gives-unwrap (field fs (lit "type")) _ c.1.0 λ k _.
        Gives-bind (function_kind k _ _) _ (function_kind-Gives k _ _) λ _ _.
          Gives-unwrap (field fs (lit "function")) _ c.1.1.0 λ f found.
            Gives-mono (λ _ (gs, name, o', t, h). (fs, f, gs, name, o, found, o', t, h))
              (choice_function-Gives f names)

abbrev pub IsChoice : List Text → JsonValue → Type 0
IsChoice names v = IsWord v ⊎ IsNamed names v

named : (v : JsonValue) (names : List Text) → Gives (named_choice v names) (λ _. IsChoice names v)
named v names = Gives-mono (λ _ h. inr h) (named_choice-Gives v names)

pub validate_tool_choice-Gives :
    (v : JsonValue) (names : List Text)
    → Gives (validate_tool_choice v names) (λ _. IsChoice names v)
unfolding validate_tool_choice
validate_tool_choice-Gives (JsonValue.string word) names =
    Gives-mono (λ _ h. inl (word, refl, h)) (Gives-test (contains choice_words word) _ _)
validate_tool_choice-Gives JsonValue.null names = named JsonValue.null names
validate_tool_choice-Gives (JsonValue.bool b) names = named (JsonValue.bool b) names
validate_tool_choice-Gives (JsonValue.number t) names = named (JsonValue.number t) names
validate_tool_choice-Gives (JsonValue.array vs) names = named (JsonValue.array vs) names
validate_tool_choice-Gives (JsonValue.object ms) names = named (JsonValue.object ms) names
