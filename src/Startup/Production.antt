-- ===== src/Startup/Production.antt =====
-- config.py: with which settings the program starts in production.
use nf_safety_hub.Prelude.{
  ◌≤◌, Bool, true, false, not, ◌&&◌, none, some, List, [], ◌∷◌, ◌++◌, if◌then◌else◌, is_empty,
  length, ltb, ◌≡◌, ◌↔◌, ◌⊎◌, refl, sym, ◌∙◌, arith, inl, inr, Bool-cases,
}
use nf_safety_hub.Prelude.Text.{Text, str, ◌==◌}
use nf_safety_hub.Startup.{
  Settings, Environment, is_production, get_secret, name_if, missing_of_provider, missing_settings,
  validate_startup_settings,
}

is_empty-append : (xs ys : List Text) → is_empty (xs ++ ys) ≡ (is_empty xs && is_empty ys)
is_empty-append [] ys = refl
is_empty-append (x ∷ xs) ys = refl

is_empty-name_if : (b : Bool) (name : Text) → is_empty (name_if b name) ≡ not b
is_empty-name_if true name = refl
is_empty-name_if false name = refl

-- What the provider of keys needs.
pub record IsProviderReady (e : Environment) (s : Settings) : Type 0 where
  pub has_url : is_empty s.key_provider_base_url ≡ false
  pub has_user : is_empty s.key_provider_username ≡ false
  pub has_password : is_empty (get_secret e s.key_provider_password_env) ≡ false
  pub has_version : is_empty s.key_provider_auth_version ≡ false

-- What a start in production needs.
pub record IsReady (e : Environment) (s : Settings) : Type 0 where
  pub has_upstream : is_empty s.upstream_url ≡ false
  pub has_long_password : 12 ≤ length s.admin_password
  pub has_key : is_empty (get_secret e s.data_encryption_key_env) ≡ false
  pub needs_keys : s.allow_empty_api_keys_passthrough ≡ false
  pub has_provider :
      ((s.key_provider_type == str "oneapi_nanfu_yxai") ≡ false) ⊎ IsProviderReady e s

four_of :
    (a b c d : Bool)
    → (not a && (not b && (not c && not d))) ≡ true
    → (a ≡ false) × ((b ≡ false) × ((c ≡ false) × (d ≡ false)))
four_of a b c d h = (ground arith, (ground arith, (ground arith, ground arith)))

provider_tests :
    (e : Environment) (s : Settings)
    → is_empty (missing_of_provider e s) ≡ (
        not (is_empty s.key_provider_base_url)
        && (not (is_empty s.key_provider_username)
            && (not (is_empty (get_secret e s.key_provider_password_env))
                && not (is_empty s.key_provider_auth_version))))
unfolding missing_of_provider
provider_tests e s = simp (is_empty-append, is_empty-name_if) refl

provider_lem :
    (e : Environment) (s : Settings)
    → (is_empty (missing_of_provider e s) ≡ true) ↔ IsProviderReady e s
provider_lem e s = (
  (λ h.
      let (a, (b, (c, d))) = four_of _ _ _ _ (sym (provider_tests e s) ∙ h) in
      record { has_url = a; has_user = b; has_password = c; has_version = d }),
  λ r. provider_tests e s ∙ rw (r.has_url, r.has_user, r.has_password, r.has_version) refl,
)

abbrev provider_part : Environment → Settings → List Text
provider_part e s =
    if s.key_provider_type == str "oneapi_nanfu_yxai" then missing_of_provider e s else []

provider_part_lem :
    (e : Environment) (s : Settings)
    → (is_empty (provider_part e s) ≡ true)
      ↔ (((s.key_provider_type == str "oneapi_nanfu_yxai") ≡ false) ⊎ IsProviderReady e s)
provider_part_lem e s = elim (Bool-cases (s.key_provider_type == str "oneapi_nanfu_yxai")) [
  | inr f ↦ (λ h. inl f, λ h. rw f refl)
  | inl t ↦ (
    (λ h. inr ((provider_lem e s).0 (rw t at h))),
    λ h. elim h [ inl f ↦ absurd (cc) | inr r ↦ rw t ((provider_lem e s).1 r) ],
  )
]

tests :
    (e : Environment) (s : Settings)
    → is_empty (missing_settings e s) ≡ (
        not (is_empty s.upstream_url)
        && (not (ltb (length s.admin_password) 12)
            && (not (is_empty (get_secret e s.data_encryption_key_env))
                && (not s.allow_empty_api_keys_passthrough && is_empty (provider_part e s)))))
unfolding missing_settings
tests e s = simp (is_empty-append, is_empty-name_if) refl

five_of :
    (a b c d e : Bool)
    → (not a && (not b && (not c && (not d && e)))) ≡ true
    → (a ≡ false) × ((b ≡ false) × ((c ≡ false) × ((d ≡ false) × (e ≡ true))))
five_of a b c d e h = (ground arith, (ground arith, (ground arith, (ground arith, ground arith))))

all_five :
    (a b c d e : Bool)
    → a ≡ false
    → b ≡ false
    → c ≡ false
    → d ≡ false
    → e ≡ true
    → (not a && (not b && (not c && (not d && e)))) ≡ true
all_five a b c d e ha hb hc hd he = rw (ha, hb, hc, hd, he) refl

ready_lem :
    (e : Environment) (s : Settings) → (is_empty (missing_settings e s) ≡ true) ↔ IsReady e s
ready_lem e s = (
  (λ h.
      let (a, (b, (c, (d, p)))) =
        five_of _ (ltb (length s.admin_password) 12) _ _ _ (sym (tests e s) ∙ h) in
      record {
        has_upstream = a;
        has_long_password = ground (arith, b);
        has_key = c;
        needs_keys = d;
        has_provider = (provider_part_lem e s).0 p;
      }),
  λ r.
      let long : ltb (length s.admin_password) 12 ≡ false = ground (arith, r.has_long_password) in
      let provided : is_empty (provider_part e s) ≡ true =
        (provider_part_lem e s).1 r.has_provider in
      tests e s ∙ all_five _ _ _ _ _ r.has_upstream long r.has_key r.needs_keys provided,
)

-- The check of the settings passes exactly if the program is not in production, or has an upstream, an administrator's
-- password of twelve characters, a key for its data, no requests without API keys, and what the
-- provider of keys needs, where it is the one that needs something.
pub validate_startup_settings_iff :
    (e : Environment) (s : Settings)
    → (validate_startup_settings e s ≡ none) ↔ ((is_production s ≡ false) ⊎ IsReady e s)
unfolding validate_startup_settings
validate_startup_settings_iff e s = elim (Bool-cases (is_production s)) [
  | inr f ↦ (λ h. inl f, λ h. rw f refl)
  | inl t ↦ elim (Bool-cases (is_empty (missing_settings e s))) [
    | inl m ↦ (λ h. inr ((ready_lem e s).0 m), λ h. rw (t, m) refl)
    | inr m ↦ (
      (λ h. let k : some (missing_settings e s) ≡ none = rw (t, m) at h in absurd (cc)),
      λ h. elim h [ inl f ↦ absurd (cc) | inr r ↦ absurd (cc ((ready_lem e s).1 r, m)) ],
    )
  ]
]
