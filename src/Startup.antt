-- ===== src/Startup.antt =====
-- config.py: the secrets and the check of the settings at the start. A file of settings is its lines.
pub mod Production
use nf_safety_hub.Prelude.{
  ℕ, Bool, true, false, not, ◌&&◌, ◌||◌, Option, none, some, List, [], ◌∷◌, ◌++◌, reverse,
  if◌then◌else◌, is_empty, length, ltb, eqb,
}
use nf_safety_hub.Prelude.Text.{Text, str, ◌==◌, starts_with, strip, lower, partition}

pub record Settings : Type 0 where
  pub environment : Text
  pub upstream_url : Text
  pub admin_password : Text
  pub data_encryption_key_env : Text
  pub allow_empty_api_keys_passthrough : Bool
  pub key_provider_type : Text
  pub key_provider_base_url : Text
  pub key_provider_username : Text
  pub key_provider_password_env : Text
  pub key_provider_auth_version : Text

-- the variables of the environment, empty where there is none, and the files that exist, in order
pub record Environment : Type 0 where
  pub variable : Text → Text
  pub files : List (List Text)

-- `normalize_environment`, which the settings' environment has passed
unfoldable pub normalize_environment : Text → Text
normalize_environment value = strip (lower value)

-- `Settings.is_production`
unfoldable pub is_production : Settings → Bool
is_production s = s.environment == str "production"

abbrev lstrip_char : ℕ → Text → Text
lstrip_char d [] = []
lstrip_char d (c ∷ cs) = let rest = lstrip_char d cs in if eqb c d then rest else c ∷ cs

-- `text.strip(char)`
unfoldable pub strip_char : ℕ → Text → Text
strip_char d text = reverse (lstrip_char d (reverse (lstrip_char d text)))

-- the value of a line of a file, if the line sets this variable
unfoldable pub line_value : Text → Text → Option Text
unfolding strip_char
line_value env_name line =
    let stripped = strip line in
    let p = partition 61 stripped in
    if is_empty stripped || (starts_with stripped (str "#") || not p.separated)
    then none
    else if strip p.before == env_name
    then some (strip_char 39 (strip_char 34 (strip p.after)))
    else none

abbrev or_later : Option Text → Option Text → Option Text
or_later (some v) later = some v
or_later none later = later

unfoldable pub find_line : Text → List Text → Option Text
unfolding line_value
find_line env_name [] = none
find_line env_name (l ∷ ls) = or_later (line_value env_name l) (find_line env_name ls)

unfoldable pub find_file : Text → List (List Text) → Option Text
unfolding find_line
find_file env_name [] = none
find_file env_name (f ∷ fs) = or_later (find_line env_name f) (find_file env_name fs)

abbrev or_nothing : Option Text → Text
or_nothing none = []
or_nothing (some v) = v

-- `Settings.get_secret`
unfoldable pub get_secret : Environment → Text → Text
unfolding find_file
get_secret e env_name =
    let value = e.variable env_name in
    if is_empty value then or_nothing (find_file env_name e.files) else value

abbrev pub name_if : Bool → Text → List Text
name_if true name = name ∷ []
name_if false name = []

-- the settings of the key provider that are missing
unfoldable pub missing_of_provider : Environment → Settings → List Text
unfolding get_secret
missing_of_provider e s =
    name_if (is_empty s.key_provider_base_url) (str "KEY_PROVIDER_BASE_URL")
    ++ (name_if (is_empty s.key_provider_username) (str "KEY_PROVIDER_USERNAME")
        ++ (name_if (is_empty (get_secret e s.key_provider_password_env))
              s.key_provider_password_env
            ++ name_if (is_empty s.key_provider_auth_version) (str "KEY_PROVIDER_AUTH_VERSION")))

-- `missing`
unfoldable pub missing_settings : Environment → Settings → List Text
unfolding missing_of_provider get_secret
missing_settings e s =
    name_if (is_empty s.upstream_url) (str "UPSTREAM_URL")
    ++ (name_if (ltb (length s.admin_password) 12) (str "ADMIN_PASSWORD")
        ++ (name_if (is_empty (get_secret e s.data_encryption_key_env)) s.data_encryption_key_env
            ++ (name_if s.allow_empty_api_keys_passthrough
                  (str "ALLOW_EMPTY_API_KEYS_PASSTHROUGH=false")
                ++ (if s.key_provider_type == str "oneapi_nanfu_yxai"
                    then missing_of_provider e s
                    else []))))

-- `validate_startup_settings`: what it raises with, if it raises
unfoldable pub validate_startup_settings : Environment → Settings → Option (List Text)
unfolding missing_settings is_production
validate_startup_settings e s =
    let missing = missing_settings e s in
    if not (is_production s) then none else if is_empty missing then none else some missing
