-- ===== src/Config/Secrets.antt =====
-- References to secrets and their resolution (src/config/secrets.rs). The environment answers
-- get_utf8_var: nothing, a value, or one that is no UTF-8.
pub mod Resolved
use nano_llm.Common.{
  Text, lit, Bool, true, false, not, ◌&&◌, ◌||◌, Option, none, some, [], ◌∷◌, any, all, is_empty,
  ltb, ◌==◌, Result, ok, err, ensure, ok_or, ◌>>=◌, ◌>>◌,
}
use nano_llm.Common.Scan.{
  strip_prefix, is_ascii_alphabetic, is_ascii_alphanumeric, is_ascii_control,
}
use nano_llm.Config.{SecretString}
use nano_llm.Config.Error.{ConfigErrorKind, ConfigError, unplaced}

pub data EnvLookupError : Type 0 where
  not_utf8 : EnvLookupError

pub record EnvProvider : Type 0 where
  pub get_utf8_var : Text → Result EnvLookupError (Option Text)

name_byte : Bool → Text → Bool
unfolding is_ascii_alphabetic is_ascii_alphanumeric
name_byte first [] = not first
name_byte true (b ∷ bs) = (is_ascii_alphabetic b || b == b'_') && name_byte false bs
name_byte false (b ∷ bs) = (is_ascii_alphanumeric b || b == b'_') && name_byte false bs

-- [A-Za-z_][A-Za-z0-9_]*
unfoldable pub is_valid_environment_name : Text → Bool
unfolding name_byte
is_valid_environment_name name = name_byte true name

bad_reference : Text → Text → ConfigError
bad_reference path reason = unplaced (ConfigErrorKind.invalid_secret_reference path reason)

bad_value : Text → Text → Text → ConfigError
bad_value path var_name reason =
    unplaced (ConfigErrorKind.invalid_secret_value path var_name reason)

-- `env.get_utf8_var(var_name).map_err(…)?.ok_or_else(…)?`
looked_up : Text → Text → Result EnvLookupError (Option Text) → Result ConfigError Text
unfolding bad_value
looked_up path var_name (err not_utf8) =
    err (bad_value path var_name (lit "resolved secret value is not valid UTF-8"))
looked_up path var_name (ok none) = err (unplaced (ConfigErrorKind.missing_env_var path var_name))
looked_up path var_name (ok (some secret_val)) = ok secret_val

-- str::is_ascii
abbrev pub is_ascii : Text → Bool
is_ascii text = all (λ b. ltb b 128) text

unfoldable pub resolve_secret :
    (raw_reference path : Text) (is_http_header_transport : Bool) (env : EnvProvider)
    → Result ConfigError SecretString
unfolding is_valid_environment_name bad_reference bad_value looked_up
resolve_secret raw_reference path is_http_header_transport env = do
  var_name ← ok_or (strip_prefix (lit "os.environ/") raw_reference) (
      bad_reference path
        (lit "inline secret literals are prohibited; must use 'os.environ/VAR_NAME'"))
  ensure (is_valid_environment_name var_name)
      (bad_reference path (lit "environment variable name must match [A-Za-z_][A-Za-z0-9_]*"))
  secret_val ← looked_up path var_name (env.get_utf8_var var_name)
  ensure (not (is_empty secret_val))
      (bad_value path var_name (lit "resolved secret value must not be empty"))
  ensure (not (any is_ascii_control secret_val))
      (bad_value path var_name (lit "resolved secret value contains ASCII control characters"))
  ensure (not (is_http_header_transport && not (is_ascii secret_val))) (
      bad_value path var_name (
        lit
          "resolved secret value cannot be encoded in HTTP header credential transport (contains non-ASCII characters)"))
  ok (record { secret = secret_val })
