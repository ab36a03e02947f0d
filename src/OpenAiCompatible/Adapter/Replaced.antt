-- ===== src/OpenAiCompatible/Adapter/Replaced.antt =====
-- The members that src/openai_compatible.rs replaces in a request, and its messages.
use nano_llm.Common.{
  Text, lit, text_eq, text_eq_iff, text_eq-false, is_utf8, Distinct, Fresh, Bool, true, false, ◌≡◌,
  ◌≢◌, refl, sym, ◌∙◌, subst, inl, inr, Option, none, some, List, [], ◌∷◌, Bool-cases,
  if◌then◌else◌,
}
use nano_llm.Json.{JsonValue, Fields, of_values, of_fields, field}
use nano_llm.Request.Parse.{keys}
use nano_llm.OpenAiCompatible.Encode.{replace_field}
use nano_llm.OpenAiCompatible.Encode.Elements.{IsJson, AreJson, HoldJson, values_back}
use nano_llm.OpenAiCompatible.Adapter.{
  or_empty, after_leading, system_message, combined, messages_of,
}

once :
    (t : Bool) (x y z : Option JsonValue)
    → (if t then x else z) ≡ (if t then x else if t then y else z)
once true x y z = refl
once false x y z = refl

swapped :
    (s t : Bool) (x y z : Option JsonValue)
    → (s ≡ true → t ≡ false)
    → (if s then x else if t then y else z) ≡ (if t then y else if s then x else z)
swapped true t x y z h = rw (h refl) refl
swapped false true x y z h = refl
swapped false false x y z h = refl

-- The replaced member has the value, and no other member changes.
pub field-replace_field :
    (fields : Fields) (n : Text) (v : JsonValue) (name : Text)
    → field (replace_field fields n v) name ≡ (if text_eq n name then some v else field fields name)
unfolding field replace_field
field-replace_field [] n v name = refl
field-replace_field ((key, old) ∷ fields) n v name = elim (Bool-cases (text_eq key n)) [
  | inl e ↦
      let same : key ≡ n = (text_eq_iff key n).0 e in
      rw e (rw same (once (text_eq n name) (some v) (some old) (field fields name)))
  | inr e ↦ rw e (
      rw (field-replace_field fields n v name) (
        swapped (text_eq key name) (text_eq n name) (some old) (some v) (field fields name) λ p.
          text_eq-false n name
            λ q. absurd (cc (e, (text_eq_iff key n).1 ((text_eq_iff key name).0 p ∙ sym q)))))
]

Fresh-replace_field :
    (fields : Fields) (n : Text) (v : JsonValue) (x : Text)
    → n ≢ x
    → Fresh x (keys fields)
    → Fresh x (keys (replace_field fields n v))
unfolding replace_field
Fresh-replace_field [] n v x other h = (other, tt)
Fresh-replace_field ((key, old) ∷ fields) n v x other h = elim (Bool-cases (text_eq key n)) [
  | inl e ↦ rw e h
  | inr e ↦ rw e (h.0, Fresh-replace_field fields n v x other h.1)
]

pub Distinct-replace_field :
    (fields : Fields) (n : Text) (v : JsonValue)
    → Distinct (keys fields)
    → Distinct (keys (replace_field fields n v))
unfolding replace_field
Distinct-replace_field [] n v d = (tt, tt)
Distinct-replace_field ((key, old) ∷ fields) n v d = elim (Bool-cases (text_eq key n)) [
  | inl e ↦ rw e d
  | inr e ↦ rw e (
    Fresh-replace_field fields n v key (λ p. absurd (cc (e, (text_eq_iff key n).1 (sym p)))) d.0,
    Distinct-replace_field fields n v d.1,
  )
]

pub HoldJson-replace_field :
    (fields : Fields) (n : Text) (v : JsonValue)
    → is_utf8 n ≡ true
    → IsJson v
    → HoldJson (of_fields fields)
    → HoldJson (of_fields (replace_field fields n v))
unfolding replace_field HoldJson
HoldJson-replace_field [] n v u j h = (u, j, tt)
HoldJson-replace_field ((key, old) ∷ fields) n v u j h = elim (Bool-cases (text_eq key n)) [
  | inl e ↦ rw e (h.0, j, h.2)
  | inr e ↦ rw e (h.0, h.1, HoldJson-replace_field fields n v u j h.2)
]

some_injective : {A : Type 0} {x y : A} → ◌≡◌ {A = Option A} (some x) (some y) → x ≡ y
some_injective h = cc h

kept :
    (t : Bool) (x y : List JsonValue)
    → AreJson (of_values x)
    → AreJson (of_values y)
    → AreJson (of_values (if t then x else y))
kept true x y h k = h
kept false x y h k = k

system_message-IsJson : (text : Text) → is_utf8 text ≡ true → IsJson (system_message text)
unfolding system_message IsJson HoldJson is_utf8 lit
system_message-IsJson text u = (((λ e. cc e, tt), (tt, tt)), (refl, refl, (refl, u, tt)))

-- A member of an object of JSON values is one.
field-IsJson :
    (fields : Fields) (name : Text) (v : JsonValue)
    → HoldJson (of_fields fields)
    → field fields name ≡ some v
    → IsJson v
unfolding field HoldJson
field-IsJson [] name v h e = cc e
field-IsJson ((key, w) ∷ fields) name v h e = elim (Bool-cases (text_eq key name)) [
  | inl t ↦
      let found : ◌≡◌ {A = Option JsonValue} (some w) (some v) = rw t at e in
      subst IsJson (some_injective found) h.1
  | inr t ↦ field-IsJson fields name v h.2 (rw t at e)
]

AreJson-after_leading :
    (messages : List JsonValue)
    → AreJson (of_values messages)
    → AreJson (of_values (after_leading messages))
unfolding after_leading AreJson
AreJson-after_leading [] h = tt
AreJson-after_leading (m ∷ messages) h =
    kept _ (after_leading messages) (m ∷ messages) (AreJson-after_leading messages h.1) h

pub AreJson-combined :
    (instruction : Option Text) (messages : List JsonValue)
    → is_utf8 (or_empty instruction) ≡ true
    → AreJson (of_values messages)
    → AreJson (of_values (combined instruction messages))
unfolding combined AreJson
AreJson-combined instruction [] u h = tt
AreJson-combined instruction (m ∷ messages) u h =
    kept _ (system_message (or_empty instruction) ∷ after_leading (m ∷ messages)) (m ∷ messages)
      (system_message-IsJson (or_empty instruction) u, AreJson-after_leading (m ∷ messages) h) h

pub AreJson-messages_of :
    (fields : Fields) (o : Option JsonValue)
    → HoldJson (of_fields fields)
    → field fields (lit "messages") ≡ o
    → AreJson (of_values (messages_of o))
unfolding messages_of AreJson IsJson
AreJson-messages_of fields (some (JsonValue.array items)) h e =
    subst AreJson (sym (values_back items))
      (field-IsJson fields (lit "messages") (JsonValue.array items) h e)
AreJson-messages_of fields none h e = tt
AreJson-messages_of fields (some _) h e = tt
