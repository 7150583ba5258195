-- ===== src/Middleware/Auth.antt =====
-- middleware/auth.py: who may use the administration. HMAC, base64, `int` and the tables of
-- `ipaddress` are a record of functions; texts are those that UTF-8 encodes. Time is in seconds.
pub mod Sessions
pub mod RoundTrip
pub mod Access
use nf_safety_hub.Prelude.{
  ℕ, ◌+◌, Bool, true, false, not, ◌&&◌, ◌||◌, Option, none, some, List, [], ◌∷◌, ◌++◌,
  if◌then◌else◌, is_empty, all, ltb,
}
use nf_safety_hub.Prelude.Text.{
  Text, str, ◌==◌, is_one_of, starts_with, lower, strip, partition, Split,
}
use nf_safety_hub.Prelude.Text.Decimal.{decimal}
use nf_safety_hub.Prelude.Int.{ℤ, pos, negsuc}

-- What a call comes to: a value, an HTTPException of status 401 or 403, or another exception.
pub data Result (A : Type 0) : Type 0 where
  returned : A → Result A
  unauthorized : Result A
  forbidden : Result A
  raised : Result A

module _ {A B : Type 0} where
  abbrev pub and_then : Result A → (A → Result B) → Result B
  and_then (returned a) f = f a
  and_then unauthorized f = unauthorized
  and_then forbidden f = forbidden
  and_then raised f = raised

pub record Settings : Type 0 where
  pub app_name : Text
  pub admin_username : Text
  pub admin_password : Text
  pub admin_ip_whitelist : List Text

pub record HttpBasicCredentials : Type 0 where
  pub username : Text
  pub password : Text

-- A cookie or header that is missing is empty, and so is the host of an unknown client.
pub record Request : Type 0 where
  pub path : Text
  pub client_host : Text
  pub session_cookie : Text
  pub authorization : Text

pub record Toolbox : Type 0 where
  -- the hex digest under a secret
  pub hmac_sha256 : Text → Text → Text
  -- base64 and UTF-8, `none` where either raises
  pub b64decode : Text → Option Text
  pub parse_int : Text → Option ℤ
  pub is_ip_address : Text → Bool
  -- `address in ip_network(item, strict=False)`, `none` where it raises ValueError
  pub in_network : (address item : Text) → Option Bool

abbrev pub admin_session_max_age : ℕ
admin_session_max_age = 28800

abbrev pub is_ascii : Text → Bool
is_ascii = all (λ c. ltb c 128)

-- `secrets.compare_digest`, which raises TypeError on texts that are not ASCII
unfoldable pub compare_digest : Text → Text → Result Bool
compare_digest s t = if is_ascii s && is_ascii t then returned (s == t) else raised

-- `validate_admin_login`
unfoldable pub validate_admin_login : Text → Text → Settings → Result Bool
unfolding compare_digest
validate_admin_login username password settings =
    if is_empty settings.admin_password
    then returned false
    else and_then (compare_digest username settings.admin_username) (λ username_valid.
      and_then (compare_digest password settings.admin_password)
        (λ password_valid. returned (username_valid && password_valid)))

abbrev second_part : Text → Split → Text × (Text × Text)
second_part username p = if p.separated then (username, (p.before, p.after)) else ([], ([], []))

abbrev first_part : Split → Text × (Text × Text)
first_part p = if p.separated then second_part p.before (partition 58 p.after) else ([], ([], []))

-- `_split_session_cookie`: `split(":", 2)` into three parts
unfoldable pub split_session_cookie : Text → Text × (Text × Text)
split_session_cookie cookie_value = first_part (partition 58 cookie_value)

-- a payload, or a cookie: two texts with a colon between
abbrev pub with_colon : Text → Text → Text
with_colon s t = s ++ 58 ∷ t

-- the answers of `AdminStaticAuthMiddleware.dispatch`; a redirection is to the login with `next`
pub data Answer : Type 0 where
  passed_on : Answer
  redirected : (next : Text) → Answer
  refused : Answer
  failed : Answer

module _ (tools : Toolbox) (settings : Settings) where
  -- `_session_signature`
  unfoldable pub session_signature : Text → Text
  session_signature payload =
      tools.hmac_sha256
        (if is_empty settings.admin_password then settings.app_name else settings.admin_password)
        payload

  -- `create_admin_session_cookie`
  unfoldable pub create_admin_session_cookie : Text → ℕ → Text
  unfolding session_signature
  create_admin_session_cookie admin_user now =
      let payload = with_colon admin_user (decimal now) in
      with_colon payload (session_signature payload)

  abbrev is_over : ℕ → ℤ → Bool
  is_over now (pos issued_at) = ltb (issued_at + admin_session_max_age) now
  is_over now (negsuc n) = ltb admin_session_max_age (now + n + 1)

  abbrev user_at : ℕ → Text → Option ℤ → Result Text
  user_at now username none = returned []
  user_at now username (some issued_at) =
      if is_over now issued_at
      then returned []
      else and_then (compare_digest username settings.admin_username)
          (λ same. returned (if same then username else []))

  abbrev user_of_parts : ℕ → Text × (Text × Text) → Result Text
  user_of_parts now (username, (issued_at, signature)) =
      if is_empty username || (is_empty issued_at || is_empty signature)
      then returned []
      else and_then (compare_digest signature (session_signature (with_colon username issued_at)))
          (λ same. if same then user_at now username (tools.parse_int issued_at) else returned [])

  -- `_admin_user_from_session_cookie`
  unfoldable pub admin_user_from_session_cookie : ℕ → Text → Result Text
  unfolding split_session_cookie session_signature compare_digest
  admin_user_from_session_cookie now cookie_value =
      if is_empty cookie_value
      then returned []
      else user_of_parts now (split_session_cookie cookie_value)

  abbrev credentials_in : Option Text → Option HttpBasicCredentials
  credentials_in none = none
  credentials_in (some decoded) =
      let p = partition 58 decoded in
      if p.separated then some (record { username = p.before; password = p.after }) else none

  -- `_credentials_from_authorization`
  unfoldable pub credentials_from_authorization : Text → Option HttpBasicCredentials
  credentials_from_authorization authorization =
      let p = partition 32 authorization in
      if is_empty p.before || (is_empty p.after || not (lower p.before == str "basic"))
      then none
      else credentials_in (tools.b64decode p.after)

  -- `_validate_admin_credentials`, with the name that its callers go on with
  unfoldable pub validate_admin_credentials : Option HttpBasicCredentials → Result Text
  unfolding validate_admin_login
  validate_admin_credentials none = unauthorized
  validate_admin_credentials (some c) =
      and_then (validate_admin_login c.username c.password settings)
        (λ valid. if valid then returned c.username else unauthorized)

  abbrev or_authorization : Request → Text → Result Text
  or_authorization request session_user =
      if is_empty session_user
      then validate_admin_credentials (credentials_from_authorization request.authorization)
      else returned session_user

  -- `_authenticated_admin_user`
  unfoldable pub authenticated_admin_user : ℕ → Request → Option HttpBasicCredentials → Result Text
  unfolding admin_user_from_session_cookie credentials_from_authorization validate_admin_credentials
  authenticated_admin_user now request (some credentials) =
      validate_admin_credentials (some credentials)
  authenticated_admin_user now request none =
      and_then (admin_user_from_session_cookie now request.session_cookie)
        (or_authorization request)

  abbrev is_in : Option Bool → Bool
  is_in none = false
  is_in (some b) = b

  -- `_ip_allowed`
  unfoldable pub ip_allowed : Text → List Text → Result Bool
  unfolding compare_digest
  ip_allowed client_host [] = returned false
  ip_allowed client_host (item ∷ rest) =
      let later = ip_allowed client_host rest in
      and_then (compare_digest client_host item) (λ same.
        if same
        then returned true
        else if tools.is_ip_address client_host && is_in (tools.in_network client_host item)
        then returned true
        else later)

  -- `_validate_admin_ip`
  unfoldable pub validate_admin_ip : Request → Result Unit
  unfolding ip_allowed
  validate_admin_ip request =
      if is_empty settings.admin_ip_whitelist
      then returned tt
      else if is_empty request.client_host
      then forbidden
      else and_then (ip_allowed request.client_host settings.admin_ip_whitelist)
          (λ allowed. if allowed then returned tt else forbidden)

  -- `require_admin_access`: the name of the administrator, none on a public path
  unfoldable pub require_admin_access :
      ℕ → Request → Option HttpBasicCredentials → Result (Option Text)
  unfolding validate_admin_ip authenticated_admin_user
  require_admin_access now request credentials =
      if is_one_of request.path (str "/admin/api/login" ∷ str "/admin/api/logout" ∷ [])
      then returned none
      else and_then (validate_admin_ip request) (λ _.
        and_then (authenticated_admin_user now request credentials) (λ user. returned (some user)))

  abbrev answer_of : Text → Result Text → Answer
  answer_of path (returned user) = passed_on
  answer_of path unauthorized = redirected path
  answer_of path forbidden = refused
  answer_of path raised = failed

  -- the condition under which `dispatch` does not guard a path
  unfoldable pub is_unguarded : Text → Bool
  is_unguarded path =
      not (starts_with path (str "/admin"))
      || (starts_with path (str "/admin/api")
          || is_one_of path
              (str "/admin/login.html" ∷ str "/admin/css/style.css" ∷ str "/admin/js/app.js" ∷ []))

  -- `AdminStaticAuthMiddleware.dispatch`; `next` is before its quoting
  unfoldable pub dispatch : ℕ → Request → Answer
  unfolding validate_admin_ip authenticated_admin_user is_unguarded
  dispatch now request =
      if is_unguarded request.path
      then passed_on
      else answer_of request.path
          (and_then (validate_admin_ip request) (λ _. authenticated_admin_user now request none))
