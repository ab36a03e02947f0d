-- ===== src/Json.antt =====
-- The JSON values of src/request.rs. Objects keep their members in order, duplicates included.
use nano_llm.Common.{Text, text_eq, Bool, Option, none, some, List, [], ◌∷◌, if◌then◌else◌}

mutual
  pub data JsonValue : Type 0 where
    null : JsonValue
    bool : Bool → JsonValue
    number : Text → JsonValue
    string : Text → JsonValue
    array : Values → JsonValue
    object : Members → JsonValue

  -- Vec<JsonValue>
  pub data Values : Type 0 where
    nil : Values
    cons : JsonValue → Values → Values

  -- Vec<(String, JsonValue)>
  pub data Members : Type 0 where
    end : Members
    member : Text → JsonValue → Members → Members

abbrev pub Fields : Type 0
Fields = List (Text × JsonValue)

abbrev pub values : Values → List JsonValue
values nil = []
values (cons v vs) = v ∷ values vs

abbrev pub fields_of : Members → Fields
fields_of end = []
fields_of (member k v ms) = (k, v) ∷ fields_of ms

abbrev pub of_values : List JsonValue → Values
of_values [] = nil
of_values (v ∷ vs) = cons v (of_values vs)

abbrev pub of_fields : Fields → Members
of_fields [] = end
of_fields ((k, v) ∷ fs) = member k v (of_fields fs)

-- The first member of that name.
unfoldable pub field : Fields → Text → Option JsonValue
field [] name = none
field ((key, value) ∷ fields) name = if text_eq key name then some value else field fields name
