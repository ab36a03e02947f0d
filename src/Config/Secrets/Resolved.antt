-- ===== src/Config/Secrets/Resolved.antt =====
-- What a resolved secret looks like (src/config/secrets.rs).
use nano_llm.Common.{
  Text, Bool, true, false, not, ◌&&◌, ◌≡◌, refl, ◌⊎◌, Option, some, none, any, lit, length, ◌<◌,
  is_empty, Result, ok, err, Accepts, implied, refuted, Accepts-ok, Accepts-bind, Accepts-ensure,
  Accepts-ok_or, accepts, rejects,
}
use nano_llm.Common.Scan.{is_ascii_control, strip_prefix}
use nano_llm.Config.{SecretString}
use nano_llm.Config.Names.Valid.{filled}
use nano_llm.Config.Secrets.{
  EnvLookupError, EnvProvider, is_valid_environment_name, looked_up, is_ascii, resolve_secret,
}

-- The secret is what the environment has under a well-formed name, and can be sent: it is not
-- empty, has no control character, and is ASCII where it goes into a header.
pub record IsSecret (raw_reference : Text) (header : Bool) (env : EnvProvider) (key : SecretString)
    : Type 0 where
  pub var_name : Text
  pub reference : strip_prefix (lit "os.environ/") raw_reference ≡ some var_name
  pub named : is_valid_environment_name var_name ≡ true
  pub found : env.get_utf8_var var_name ≡ ok (some key.secret)
  pub nonempty : 0 < length key.secret
  pub printable : any is_ascii_control key.secret ≡ false
  pub sendable : (header ≡ false) ⊎ (is_ascii key.secret ≡ true)

looked_up-found :
    (path var_name : Text) (r : Result EnvLookupError (Option Text))
    → Accepts (looked_up path var_name r) (λ value. r ≡ ok (some value))
unfolding looked_up
looked_up-found path var_name (err EnvLookupError.not_utf8) = rejects _ refl
looked_up-found path var_name (ok none) = rejects _ refl
looked_up-found path var_name (ok (some value)) = accepts value refl refl

pub resolve_secret-IsSecret :
    (raw_reference path : Text) (header : Bool) (env : EnvProvider)
    → Accepts (resolve_secret raw_reference path header env) (IsSecret raw_reference header env)
unfolding resolve_secret
resolve_secret-IsSecret raw_reference path header env =
    Accepts-ok_or (strip_prefix (lit "os.environ/") raw_reference) _ _ λ var_name s.
      Accepts-ensure (is_valid_environment_name var_name) _ _ λ named.
        Accepts-bind (looked_up path var_name (env.get_utf8_var var_name)) _
          (looked_up-found path var_name (env.get_utf8_var var_name))
          λ value found. Accepts-ensure (not (is_empty value)) _ _ λ some_bytes.
            Accepts-ensure (not (any is_ascii_control value)) _ _ λ printable.
              Accepts-ensure (not (header && not (is_ascii value))) _ _ λ sendable.
                Accepts-ok (record { secret = value })
                  (record {
                    var_name = var_name;
                    reference = s;
                    named = named;
                    found = found;
                    nonempty = filled value some_bytes;
                    printable = refuted _ printable;
                    sendable = implied _ _ sendable;
                  })
