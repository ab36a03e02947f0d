-- ===== src/Config/ApiBase.antt =====
-- The base URL of a target (src/config/validate.rs, validate_and_normalize_api_base).
pub mod Https
use nano_llm.Common.{
  ℕ, ◌+◌, ◌-◌, ◌*◌, Text, lit, Bool, true, false, not, ◌&&◌, ◌||◌, Option, none, some, List, [],
  ◌∷◌, any, all, is_empty, is_some, leb, ◌==◌, if◌then◌else◌, Result, ok, err, ensure, ok_or, ◌>>=◌,
  ◌>>◌,
}
use nano_llm.Common.Scan.{
  split_at_first, split, strip_prefix, trim_end_matches, has_byte, has_whitespace, is_ascii_digit,
  is_ascii_hexdigit, is_ascii_control,
}
use nano_llm.Config.{ProviderKind, is_branded}
use nano_llm.Config.Error.{ConfigErrorKind, ConfigError, unplaced}
use nano_llm.Config.Ipv6.{is_ipv6}

-- Each `%` stands before two hexadecimal digits.
unfoldable pub has_valid_percent_escapes : Text → Bool
unfolding is_ascii_hexdigit
has_valid_percent_escapes [] = true
has_valid_percent_escapes (a ∷ []) = not (a == b'%')
has_valid_percent_escapes (a ∷ b ∷ []) = not (a == b'%' || b == b'%')
has_valid_percent_escapes (a ∷ b ∷ c ∷ bytes) =
    let escaped = has_valid_percent_escapes bytes in
    let plain = has_valid_percent_escapes (b ∷ c ∷ bytes) in
    if a == b'%' then is_ascii_hexdigit b && is_ascii_hexdigit c && escaped else plain

digits_value : ℕ → Text → ℕ
digits_value value [] = value
digits_value value (b ∷ bs) = digits_value (value * 10 + (b - b'0')) bs

-- A port: digits of a number below 2^16.
unfoldable pub valid_port : Option Text → Bool
unfolding digits_value is_ascii_digit
valid_port none = true
valid_port (some port) =
    not (is_empty port) && all is_ascii_digit port && leb (digits_value 0 port) 65535

quoting : ℕ → Bool
quoting b =
    b == b'"'
    || b == b'<'
    || b == b'>'
    || b == b'^'
    || b == b'`'
    || b == b'{'
    || b == b'}'
    || b == b'|'

unfoldable pub valid_host : Text → Bool
unfolding quoting
valid_host host =
    not (is_empty host || has_whitespace host || any (λ b. is_ascii_control b || quoting b) host)

-- What follows the brackets: nothing, or a colon and the port.
after_brackets : Text → Option (Option Text)
after_brackets [] = some none
after_brackets (b ∷ port) = if b == b':' then some (some port) else none

literal_authority : Option (Text × Text) → Bool
unfolding after_brackets valid_host valid_port
literal_authority none = false
literal_authority (some (host, remainder)) = is_ipv6 host && elim (after_brackets remainder) [
  | none ↦ false
  | some port ↦ valid_host host && valid_port port
]

named_authority : List Text → Bool
unfolding valid_host valid_port
named_authority (host ∷ []) =
    not (is_empty host || any (λ b. b == b'[' || b == b']' || b == b'\\') host) && valid_host host
named_authority (host ∷ port ∷ []) =
    not (is_empty host || any (λ b. b == b'[' || b == b']' || b == b'\\') host)
    && valid_host host
    && valid_port (some port)
named_authority _ = false

unfoldable pub is_valid_url_authority : Text → Bool
unfolding literal_authority named_authority
is_valid_url_authority [] = named_authority (split b':' [])
is_valid_url_authority (b ∷ authority) =
    if b == b'['
    then literal_authority (split_at_first b']' authority)
    else named_authority (split b':' (b ∷ authority))

invalid_base : Text → Text → ConfigError
invalid_base path reason = unplaced (ConfigErrorKind.invalid_api_base path reason)

-- Whether the scheme is https, and what follows it.
unfoldable pub scheme_of : Text → Option (Bool × Text)
scheme_of base = elim (strip_prefix (lit "https://") base) [
  | some rest ↦ some (true, rest)
  | none ↦ elim (strip_prefix (lit "http://") base) [ some rest ↦ some (false, rest) | none ↦ none ]
]

-- The authority and the path.
unfoldable pub parts_of : Text → Text × Text
parts_of rest = elim (split_at_first b'/' rest) [ some parts ↦ parts | none ↦ (rest, []) ]

unfoldable pub validate_and_normalize_api_base :
    (base : Text) → ProviderKind → (has_api_key : Bool) → (path : Text) → Result ConfigError Text
unfolding scheme_of parts_of invalid_base
validate_and_normalize_api_base base provider has_api_key path = do
  ensure (not (has_whitespace base || any is_ascii_control base))
      (invalid_base path (lit "api_base must not contain whitespace or control characters"))
  (is_https, rest) ←
      ok_or (scheme_of base)
        (invalid_base path (lit "api_base must be an absolute http or https URL"))
  ensure (not (is_branded provider && not is_https))
      (invalid_base path (lit "branded provider requires https api_base"))
  ensure (not (has_api_key && not is_https))
      (invalid_base path (lit "target with api_key requires https api_base"))
  ensure (not (has_byte b'#' base))
      (invalid_base path (lit "api_base must not contain a fragment ('#')"))
  ensure (not (has_byte b'?' base))
      (invalid_base path (lit "api_base must not contain a query string ('?')"))
  let (host_port, path_part) = parts_of rest
  ensure (not (has_byte b'@' host_port))
      (invalid_base path (lit "api_base must not contain userinfo ('@')"))
  ensure (not (is_empty host_port)) (invalid_base path (lit "api_base must contain a host"))
  ensure (is_valid_url_authority host_port)
      (invalid_base path (lit "api_base contains an invalid host or port"))
  ensure (not (has_byte b'\\' path_part || not (has_valid_percent_escapes path_part)))
      (invalid_base path (lit "api_base contains an invalid path"))
  ok (trim_end_matches b'/' base)
