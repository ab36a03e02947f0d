-- ===== src/Config/Names.antt =====
-- Public model names and target models (src/config/validate.rs).
pub mod Valid
use nano_llm.Common.{
  ℕ, Text, lit, text_eq, Bool, true, false, not, ◌&&◌, ◌||◌, Option, none, some, [], ◌∷◌, ◌++◌, any,
  all, length, is_empty, leb, ltb, ◌==◌, if◌then◌else◌, Result, ok, err, ensure, ok_or, ◌>>=◌, ◌>>◌,
}
use nano_llm.Common.Scan.{split_at_first, is_ascii_alphanumeric, is_ascii_control}
use nano_llm.Config.{ProviderKind}
use nano_llm.Config.Error.{ConfigErrorKind, ConfigError, unplaced}

-- On what is not empty: the callers return before they take the first character of nothing.
unfoldable pub starts_alphanumeric : Text → Bool
unfolding is_ascii_alphanumeric
starts_alphanumeric [] = false
starts_alphanumeric (b ∷ bs) = is_ascii_alphanumeric b

unfoldable pub suffix_byte : ℕ → Bool
unfolding is_ascii_alphanumeric
suffix_byte b = is_ascii_alphanumeric b || b == b'.' || b == b'_' || b == b'-'

unfoldable pub name_byte : ℕ → Bool
unfolding is_ascii_alphanumeric
name_byte b =
    is_ascii_alphanumeric b || b == b'.' || b == b'_' || b == b':' || b == b'/' || b == b'-'

bad_name : Text → Text → Text → ConfigError
bad_name path name reason = unplaced (ConfigErrorKind.invalid_model_name path name reason)

unfoldable pub validate_model_name : (name path : Text) → Result ConfigError (Unit {0})
unfolding starts_alphanumeric name_byte bad_name
validate_model_name name path = do
  ensure (not (is_empty name || ltb 128 (length name)))
      (bad_name path name (lit "model_name length must be between 1 and 128 characters"))
  ensure (starts_alphanumeric name)
      (bad_name path name (lit "model_name must start with an ASCII alphanumeric character"))
  ensure (all name_byte name)
      (bad_name path name (lit "model_name must contain only [A-Za-z0-9._:/-]"))
  ok tt

unfoldable pub provider_of : Text → Option ProviderKind
provider_of prefix =
    if text_eq prefix (lit "openai")
    then some ProviderKind.openai
    else if text_eq prefix (lit "mistral")
    then some ProviderKind.mistral
    else if text_eq prefix (lit "deepseek")
    then some ProviderKind.deepseek
    else if text_eq prefix (lit "openai_compatible")
    then some ProviderKind.openai_compatible
    else if text_eq prefix (lit "anthropic")
    then some ProviderKind.anthropic
    else if text_eq prefix (lit "gemini")
    then some ProviderKind.gemini
    else none

abbrev pub is_gemini : ProviderKind → Bool
is_gemini ProviderKind.gemini = true
is_gemini _ = false

bad_model : Text → Text → Text → ConfigError
bad_model path model reason = unplaced (ConfigErrorKind.invalid_target_model path model reason)

-- [A-Za-z0-9][A-Za-z0-9._-]{0,127}
unfoldable pub gemini_suffix : Text → Bool
unfolding starts_alphanumeric suffix_byte
gemini_suffix suffix =
    leb (length suffix) 128 && starts_alphanumeric suffix && all suffix_byte suffix

unfoldable pub validate_target_model :
    (model path : Text) → Result ConfigError (ProviderKind × Text)
unfolding provider_of gemini_suffix bad_model
validate_target_model model path = do
  (prefix, suffix) ←
      ok_or (split_at_first b'/' model)
        (bad_model path model (lit "model must be in the format '<provider>/<model_suffix>'"))
  provider ←
      ok_or (provider_of prefix)
        (bad_model path model (lit "unknown provider prefix '" ++ prefix ++ lit "'"))
  ensure (not (is_empty suffix)) (bad_model path model (lit "model suffix must not be empty"))
  ensure (leb (length suffix) 256)
      (bad_model path model (lit "model suffix exceeds maximum length of 256 bytes"))
  ensure (not (any is_ascii_control suffix))
      (bad_model path model (lit "model suffix contains ASCII control characters"))
  ensure (not (is_gemini provider && not (gemini_suffix suffix)))
      (bad_model path model (lit "Gemini model suffix must match [A-Za-z0-9][A-Za-z0-9._-]{0,127}"))
  ok (provider, suffix)
