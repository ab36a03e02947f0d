-- ===== src/Request/Shape/Checked.antt =====
-- What the checks on shapes (src/request.rs) leave true.
use nano_llm.Common.{
  Text, true, ◌≡◌, refl, inl, inr, some, List, [], ◌∷◌, All, is_some, contains, Option-cases, arith,
}
use nano_llm.Json.{JsonValue, Fields, Members, Values, fields_of, values, field}
use nano_llm.Request.Outcome.{
  Gives, Gives-ok, Gives-validation, Gives-bind, Gives-ensure, Gives-mono,
}
use nano_llm.Request.Shape.{object, array, string, boolean, number, known, present, closed}

abbrev pub IsObject : JsonValue → Fields → Type 0
IsObject value fields = (ms : Members) × (value ≡ JsonValue.object ms) × (fields ≡ fields_of ms)

abbrev pub IsArray : JsonValue → List JsonValue → Type 0
IsArray value items = (vs : Values) × (value ≡ JsonValue.array vs) × (items ≡ values vs)

abbrev pub Has : Fields → Text → Type 0
Has fields key = (v : JsonValue) × (field fields key ≡ some v)

abbrev pub HasText : Fields → Text → Text → Type 0
HasText fields key text = field fields key ≡ some (JsonValue.string text)

pub object-Gives : (v : JsonValue) (p q : Text) → Gives (object v p q) (IsObject v)
unfolding object
object-Gives JsonValue.null p q = Gives-validation _ _
object-Gives (JsonValue.bool x) p q = Gives-validation _ _
object-Gives (JsonValue.number x) p q = Gives-validation _ _
object-Gives (JsonValue.string x) p q = Gives-validation _ _
object-Gives (JsonValue.array x) p q = Gives-validation _ _
object-Gives (JsonValue.object x) p q = Gives-ok _ (x, refl, refl)

pub array-Gives : (v : JsonValue) (p q : Text) → Gives (array v p q) (IsArray v)
unfolding array
array-Gives JsonValue.null p q = Gives-validation _ _
array-Gives (JsonValue.bool x) p q = Gives-validation _ _
array-Gives (JsonValue.number x) p q = Gives-validation _ _
array-Gives (JsonValue.string x) p q = Gives-validation _ _
array-Gives (JsonValue.array x) p q = Gives-ok _ (x, refl, refl)
array-Gives (JsonValue.object x) p q = Gives-validation _ _

pub string-Gives :
    (v : JsonValue) (p q : Text) → Gives (string v p q) (λ text. v ≡ JsonValue.string text)
unfolding string
string-Gives JsonValue.null p q = Gives-validation _ _
string-Gives (JsonValue.bool x) p q = Gives-validation _ _
string-Gives (JsonValue.number x) p q = Gives-validation _ _
string-Gives (JsonValue.string x) p q = Gives-ok _ refl
string-Gives (JsonValue.array x) p q = Gives-validation _ _
string-Gives (JsonValue.object x) p q = Gives-validation _ _

pub boolean-Gives : (v : JsonValue) (p q : Text) → Gives (boolean v p q) (λ b. v ≡ JsonValue.bool b)
unfolding boolean
boolean-Gives JsonValue.null p q = Gives-validation _ _
boolean-Gives (JsonValue.bool x) p q = Gives-ok _ refl
boolean-Gives (JsonValue.number x) p q = Gives-validation _ _
boolean-Gives (JsonValue.string x) p q = Gives-validation _ _
boolean-Gives (JsonValue.array x) p q = Gives-validation _ _
boolean-Gives (JsonValue.object x) p q = Gives-validation _ _

pub number-Gives :
    (v : JsonValue) (p q : Text)
    → Gives (number v p q) (λ _. (text : Text) × (v ≡ JsonValue.number text))
unfolding number
number-Gives JsonValue.null p q = Gives-validation _ _
number-Gives (JsonValue.bool x) p q = Gives-validation _ _
number-Gives (JsonValue.number x) p q = Gives-ok _ (x, refl)
number-Gives (JsonValue.string x) p q = Gives-validation _ _
number-Gives (JsonValue.array x) p q = Gives-validation _ _
number-Gives (JsonValue.object x) p q = Gives-validation _ _

abbrev pub Allowed : List Text → Fields → Type 0
Allowed allowed fields = All (λ m. contains allowed m.0 ≡ true) fields

known-Gives :
    (fields : Fields) (allowed : List Text) (p q : Text)
    → Gives (known fields allowed p q) (λ _. Allowed allowed fields)
unfolding known
known-Gives [] allowed p q = Gives-ok _ tt
known-Gives (m ∷ fields) allowed p q =
    Gives-ensure (contains allowed m.0) _ _ _
      (λ h. Gives-mono (λ _ k. (h, k)) (known-Gives fields allowed p q))

has : (fields : Fields) (key : Text) → is_some (field fields key) ≡ true → Has fields key
has fields key h = elim (Option-cases (field fields key)) [
  | inl e ↦ absurd (ground (arith, e))
  | inr found ↦ found
]

present-Gives :
    (fields : Fields) (required : List Text) (p q : Text)
    → Gives (present fields required p q) (λ _. All (Has fields) required)
unfolding present
present-Gives fields [] p q = Gives-ok _ tt
present-Gives fields (key ∷ required) p q =
    Gives-ensure (is_some (field fields key)) _ _ _
      (λ h. Gives-mono (λ _ k. (has fields key h, k)) (present-Gives fields required p q))

pub closed-Gives :
    (fields : Fields) (allowed required : List Text) (p q : Text)
    → Gives
        (closed fields allowed required p q)
        (λ _. Allowed allowed fields × All (Has fields) required)
unfolding closed
closed-Gives fields allowed required p q =
    Gives-bind (known fields allowed p q) _ (known-Gives fields allowed p q)
      (λ _ a. Gives-mono (λ _ h. (a, h)) (present-Gives fields required p q))
