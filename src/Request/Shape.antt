-- ===== src/Request/Shape.antt =====
-- The checks on the shape of JSON values that src/request.rs builds its validation from, with the
-- paths that its messages name.
pub mod Checked
use nano_llm.Common.{
  ℕ, Text, lit, text_eq, decimal, contains, Bool, true, false, Option, none, some, List, [], ◌∷◌,
  ◌++◌, if◌then◌else◌, is_some, is_empty, Result, ok, err, ensure, ◌>>=◌, ◌>>◌,
}
use nano_llm.Json.{JsonValue, Fields, fields_of, values, field}
use nano_llm.Request.Outcome.{Fault, validation}

unfoldable pub path_member : Text → Text → Text
path_member path member = if is_empty path then member else path ++ lit "." ++ member

unfoldable pub path_index : Text → ℕ → Text
path_index path index = path ++ lit "[" ++ decimal index ++ lit "]"

-- format!("'{path}…")
unfoldable pub quoted : Text → Text → Text
quoted path rest = lit "'" ++ path ++ lit "'" ++ rest

unfoldable pub object : JsonValue → Text → Text → Result Fault Fields
object (JsonValue.object members) param path = ok (fields_of members)
object _ param path = err (validation param (quoted path (lit " must be an object")))

unfoldable pub array : JsonValue → Text → Text → Result Fault (List JsonValue)
array (JsonValue.array items) param path = ok (values items)
array _ param path = err (validation param (quoted path (lit " must be an array")))

-- `string` and the `let JsonValue::String(text) = value else { unreachable!() }` after it.
unfoldable pub string : JsonValue → Text → Text → Result Fault Text
string (JsonValue.string text) param path = ok text
string _ param path = err (validation param (quoted path (lit " must be a string")))

unfoldable pub boolean : JsonValue → Text → Text → Result Fault Bool
boolean (JsonValue.bool b) param path = ok b
boolean _ param path = err (validation param (quoted path (lit " must be a boolean")))

unfoldable pub number : JsonValue → Text → Text → Result Fault (Unit {0})
number (JsonValue.number text) param path = ok tt
number _ param path = err (validation param (quoted path (lit " must be a number")))

-- Every member is an allowed one.
unfoldable pub known : Fields → List Text → Text → Text → Result Fault (Unit {0})
known [] allowed param path = ok tt
known ((key, value) ∷ fields) allowed param path = do
  ensure (contains allowed key)
      (validation param (lit "unknown member '" ++ key ++ lit "' at '" ++ path ++ lit "'"))
  known fields allowed param path

-- Every required member is there.
unfoldable pub present : Fields → List Text → Text → Text → Result Fault (Unit {0})
present fields [] param path = ok tt
present fields (key ∷ required) param path = do
  ensure (is_some (field fields key))
      (validation param (lit "missing required member '" ++ key ++ lit "' at '" ++ path ++ lit "'"))
  present fields required param path

unfoldable pub closed : Fields → List Text → List Text → Text → Text → Result Fault (Unit {0})
unfolding known present
closed fields allowed required param path = do
  known fields allowed param path
  present fields required param path
