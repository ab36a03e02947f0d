-- ===== src/Config/Error.antt =====
-- Errors of the configuration (src/config/error.rs) and their display.
use nano_llm.Common.{ℕ, Text, lit, decimal, Option, none, some, [], ◌++◌, if◌then◌else◌, is_empty}

pub record ConfigLocation : Type 0 where
  pub line : ℕ
  pub column : ℕ

pub data ConfigErrorKind : Type 0 where
  empty_document multiple_documents prohibited_anchor prohibited_alias : ConfigErrorKind
  prohibited_merge_key : ConfigErrorKind
  prohibited_tag : (tag : Text) → ConfigErrorKind
  non_string_key : (found : Text) → ConfigErrorKind
  duplicate_key : (path : Text) → ConfigErrorKind
  unknown_key : (path key : Text) → ConfigErrorKind
  invalid_type : (path expected found : Text) → ConfigErrorKind
  missing_field : (path field : Text) → ConfigErrorKind
  syntax_error : (message : Text) → ConfigErrorKind
  empty_model_list : (path : Text) → ConfigErrorKind
  invalid_model_name : (path model_name reason : Text) → ConfigErrorKind
  invalid_target_model : (path model reason : Text) → ConfigErrorKind
  missing_api_key : (path provider : Text) → ConfigErrorKind
  missing_api_base : (path provider : Text) → ConfigErrorKind
  invalid_api_base : (path reason : Text) → ConfigErrorKind
  invalid_timeout : (path reason : Text) → ConfigErrorKind
  invalid_max_in_flight : (path reason : Text) → ConfigErrorKind
  invalid_secret_reference : (path reason : Text) → ConfigErrorKind
  missing_env_var : (path var_name : Text) → ConfigErrorKind
  invalid_secret_value : (path var_name reason : Text) → ConfigErrorKind
  missing_general_settings : (path : Text) → ConfigErrorKind
  missing_master_key : (path : Text) → ConfigErrorKind

pub record ConfigError : Type 0 where
  pub kind : ConfigErrorKind
  pub location : Option ConfigLocation

-- ConfigError::new(kind, None)
abbrev pub unplaced : ConfigErrorKind → ConfigError
unplaced kind = record { kind = kind; location = none }

loc_suffix : Option ConfigLocation → Text
loc_suffix none = []
loc_suffix (some loc) = lit " at line " ++ decimal loc.line ++ lit ", column " ++ decimal loc.column

message : ConfigErrorKind → Text
message empty_document = lit "configuration must contain exactly one YAML document (input is empty)"
message multiple_documents = lit "multiple YAML documents are prohibited"
message prohibited_anchor = lit "YAML anchors ('&...') are prohibited"
message prohibited_alias = lit "YAML aliases ('*...') are prohibited"
message prohibited_merge_key = lit "YAML merge keys ('<<') are prohibited"
message (prohibited_tag tag) = lit "YAML tags ('" ++ tag ++ lit "') are prohibited"
message (non_string_key found) = lit "non-string mapping key (" ++ found ++ lit ") is prohibited"
message (duplicate_key path) = lit "duplicate key '" ++ path ++ lit "'"
message (unknown_key path key) =
    if is_empty path
    then lit "unknown top-level key '" ++ key ++ lit "'"
    else lit "unknown key '" ++ key ++ lit "' at '" ++ path ++ lit "'"
message (invalid_type path expected found) =
    if is_empty path
    then lit "expected " ++ expected ++ lit ", found " ++ found
    else lit "expected " ++ expected ++ lit " at '" ++ path ++ lit "', found " ++ found
message (missing_field path field) =
    if is_empty path
    then lit "missing required field '" ++ field ++ lit "'"
    else lit "missing required field '" ++ field ++ lit "' at '" ++ path ++ lit "'"
message (syntax_error text) = lit "YAML syntax error: " ++ text
message (empty_model_list path) = path ++ lit " must contain at least one entry"
message (invalid_model_name path model_name reason) =
    lit "invalid model_name '" ++ model_name ++ lit "' at '" ++ path ++ lit "': " ++ reason
message (invalid_target_model path model reason) =
    lit "invalid model '" ++ model ++ lit "' at '" ++ path ++ lit "': " ++ reason
message (missing_api_key path provider) =
    lit "provider '" ++ provider ++ lit "' at '" ++ path ++ lit "' requires an api_key"
message (missing_api_base path provider) =
    lit "provider '" ++ provider ++ lit "' at '" ++ path ++ lit "' requires an api_base"
message (invalid_api_base path reason) = lit "invalid api_base at '" ++ path ++ lit "': " ++ reason
message (invalid_timeout path reason) = lit "invalid timeout at '" ++ path ++ lit "': " ++ reason
message (invalid_max_in_flight path reason) =
    lit "invalid max_in_flight at '" ++ path ++ lit "': " ++ reason
message (invalid_secret_reference path reason) =
    lit "invalid secret reference at '" ++ path ++ lit "': " ++ reason
message (missing_env_var path var_name) =
    lit "missing environment variable '" ++ var_name ++ lit "' referenced at '" ++ path ++ lit "'"
message (invalid_secret_value path var_name reason) =
    lit "invalid secret for environment variable '"
    ++ var_name
    ++ lit "' at '"
    ++ path
    ++ lit "': "
    ++ reason
message (missing_general_settings path) =
    lit "general_settings is required during authenticated operation at '" ++ path ++ lit "'"
message (missing_master_key path) =
    lit "master_key is required during authenticated operation at '" ++ path ++ lit "'"

-- Display::fmt
unfoldable pub display : ConfigError → Text
unfolding message loc_suffix
display error = message error.kind ++ loc_suffix error.location
