-- ===== src/Server/Http.antt =====
-- What src/server.rs asks of a request before its body is read, and its own error answers.
pub mod Bearer
use nano_llm.Common.{
  ℕ, zero, suc, ◌+◌, ◌<◌, max, Text, lit, text_eq, is_utf8, decimal, Bool, true, false, not, ◌&&◌,
  ◌||◌, Option, none, some, List, [], ◌∷◌, ◌++◌, map, all, length, get_elem?, leb, ltb, ◌==◌,
  if◌then◌else◌, is_empty,
}
use Prim.Native.Nat.{bit_xor, bit_or}
use nano_llm.Common.Scan.{split_at_first, split}
use nano_llm.Server.Serialize.{escaped}
use nano_llm.Server.Sse.{HttpResponse}

pub record HttpRequest : Type 0 where
  pub method : Text
  pub path : Text
  pub headers : List (Text × Text)
  pub body : Text
  pub body_chunks : Option (List (ℕ × Text))

unfoldable pub to_lower : ℕ → ℕ
to_lower b = if leb b'A' b && leb b b'Z' then b + 32 else b

-- [u8]::eq_ignore_ascii_case
unfoldable pub eq_ignore_ascii_case : Text → Text → Bool
unfolding to_lower
eq_ignore_ascii_case a b = text_eq (map to_lower a) (map to_lower b)

unfoldable pub values_named : List (Text × Text) → Text → List Text
unfolding eq_ignore_ascii_case
values_named [] name = []
values_named ((n, v) ∷ headers) name =
    if eq_ignore_ascii_case n name then v ∷ values_named headers name else values_named headers name

unfoldable pub headers_named : HttpRequest → Text → List Text
unfolding values_named
headers_named request name = values_named request.headers name

-- `*bytes.get(index).unwrap_or(&0)`
abbrev pub byte_at : Text → ℕ → ℕ
byte_at [] index = 0
byte_at (b ∷ bs) zero = b
byte_at (b ∷ bs) (suc index) = byte_at bs index

-- The loop of constant_time_eq over `count` more positions.
unfoldable pub differences : (count index : ℕ) → Text → Text → (difference : ℕ) → ℕ
differences zero index left right difference = difference
differences (suc count) index left right difference =
    differences count (index + 1) left right
      (bit_or difference (bit_xor (byte_at left index) (byte_at right index)))

unfoldable pub constant_time_eq : Text → Text → Bool
unfolding differences
constant_time_eq left right =
    differences (max (length left) (length right)) 0 left right
      (bit_xor (length left) (length right))
    == 0

unfoldable pub bearer_parts : Option (Text × Text) → Text → Bool
unfolding eq_ignore_ascii_case constant_time_eq
bearer_parts none expected = false
bearer_parts (some (scheme, token)) expected =
    if eq_ignore_ascii_case scheme (lit "Bearer") then constant_time_eq token expected else false

unfoldable pub exact_bearer_matches : Text → Text → Bool
unfolding bearer_parts split_at_first
exact_bearer_matches value expected = bearer_parts (split_at_first b' ' value) expected

unfoldable pub only_matches : List Text → Text → Bool
unfolding exact_bearer_matches
only_matches (value ∷ []) key = exact_bearer_matches value key
only_matches _ key = false

unfoldable pub is_authenticated : (no_auth : Bool) → (master_key : Option Text) → HttpRequest → Bool
unfolding headers_named only_matches
is_authenticated true master_key request = true
is_authenticated false none request = false
is_authenticated false (some key) request =
    only_matches (headers_named request (lit "authorization")) key

blank : ℕ → Bool
blank b = b == b' ' || b == 9

trim_start : Text → Text
unfolding blank
trim_start [] = []
trim_start (b ∷ bs) = if blank b then trim_start bs else b ∷ bs

trim_end : Text → Text
unfolding blank
trim_end [] = []
trim_end (b ∷ bs) = let rest = trim_end bs in if blank b && is_empty rest then [] else b ∷ rest

-- trim_matches([' ', '\t'])
trim : Text → Text
unfolding trim_start trim_end
trim text = trim_end (trim_start text)

charset_utf8 : List Text → Bool
unfolding trim eq_ignore_ascii_case
charset_utf8 (name ∷ value ∷ []) =
    eq_ignore_ascii_case (trim name) (lit "charset")
    && eq_ignore_ascii_case (trim value) (lit "utf-8")
charset_utf8 _ = false

media_parts : List Text → Bool
unfolding trim eq_ignore_ascii_case charset_utf8 split
media_parts [] = false
media_parts (media_type ∷ []) = eq_ignore_ascii_case (trim media_type) (lit "application/json")
media_parts (media_type ∷ parameter ∷ []) =
    eq_ignore_ascii_case (trim media_type) (lit "application/json")
    && charset_utf8 (split b'=' (trim parameter))
media_parts (_ ∷ _ ∷ _ ∷ _) = false

unfoldable pub valid_json_media_type : Text → Bool
unfolding media_parts split
valid_json_media_type value = is_utf8 value && media_parts (split b';' value)

only_json : List Text → Bool
unfolding valid_json_media_type
only_json (value ∷ []) = valid_json_media_type value
only_json _ = false

unfoldable pub valid_json_content_type : HttpRequest → Bool
unfolding headers_named only_json
valid_json_content_type request = only_json (headers_named request (lit "content-type"))

printable : ℕ → Bool
printable b = leb 33 b && leb b 126

-- A request's own identifier, or the generated one.
own_id : List Text → Text → Text
unfolding printable
own_id (value ∷ []) generated =
    if leb 1 (length value) && leb (length value) 128 && all printable value
    then value
    else generated
own_id _ generated = generated

unfoldable pub select_request_id : HttpRequest → (generated_uuid_v4 : Text) → Text
unfolding headers_named own_id
select_request_id request generated_uuid_v4 =
    own_id (headers_named request (lit "x-request-id")) generated_uuid_v4
