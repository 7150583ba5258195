-- ===== src/Middleware/Auth/RoundTrip.antt =====
-- middleware/auth.py: the cookie that a login sets, and how it is read back.
use nf_safety_hub.Prelude.{
  ℕ, ◌+◌, ◌≤◌, true, false, some, [], ◌∷◌, ◌++◌, append_assoc, if◌then◌else◌, is_empty, All,
  All-map_impl, ltb, eqb, ◌≡◌, refl, ap, arith,
}
use nf_safety_hub.Prelude.Text.{Text, eq_refl, partition}
use nf_safety_hub.Prelude.Text.Decimal.{decimal, IsDigit, decimal-IsDigit, decimal-is_not_empty}
use nf_safety_hub.Prelude.Int.{pos}
use nf_safety_hub.Middleware.Auth.{
  returned, Settings, Toolbox, admin_session_max_age, is_ascii, compare_digest,
  split_session_cookie, with_colon, session_signature, create_admin_session_cookie,
  admin_user_from_session_cookie,
}

abbrev pub AreOther : ℕ → Text → Type 0
AreOther c text = All (λ d. eqb d c ≡ false) text

partition-append :
    (c : ℕ) (s t : Text)
    → AreOther c s
    → partition c (s ++ c ∷ t) ≡ record { before = s; separated = true; after = t }
unfolding partition
partition-append c [] t h = ground arith
partition-append c (d ∷ ds) t h = rw (h.0, partition-append c ds t h.1) refl

digits-AreOther : (n : ℕ) → AreOther 58 (decimal n)
digits-AreOther n =
    All-map_impl IsDigit (λ d. eqb d 58 ≡ false) (decimal n) (λ d h. ground arith)
      (decimal-IsDigit n)

compare_digest-same : (s : Text) → is_ascii s ≡ true → compare_digest s s ≡ returned true
unfolding compare_digest
compare_digest-same s h = rw (h, eq_refl s) refl

with_colon-is_not_empty : (s t : Text) → is_empty (with_colon s t) ≡ false
with_colon-is_not_empty [] t = refl
with_colon-is_not_empty (c ∷ cs) t = refl

module _ (tools : Toolbox) (settings : Settings) where
  split-create :
      (user : Text) (issued_at : ℕ)
      → AreOther 58 user
      → split_session_cookie (create_admin_session_cookie tools settings user issued_at) ≡ (
        user,
        (decimal issued_at, session_signature tools settings (with_colon user (decimal issued_at))),
      )
  unfolding split_session_cookie create_admin_session_cookie
  split-create user issued_at h =
      let signature = session_signature tools settings (with_colon user (decimal issued_at)) in
      rw
        (
          append_assoc user (58 ∷ decimal issued_at) (58 ∷ signature),
          partition-append 58 user (decimal issued_at ++ 58 ∷ signature) h,
          partition-append 58 (decimal issued_at) signature (digits-AreOther issued_at),
        )
        refl

  create-is_not_empty :
      (user : Text) (issued_at : ℕ)
      → is_empty (create_admin_session_cookie tools settings user issued_at) ≡ false
  unfolding create_admin_session_cookie
  create-is_not_empty user issued_at =
      with_colon-is_not_empty (with_colon user (decimal issued_at)) _

  -- The cookie that is made for the administrator is accepted for eight hours, if the name is ASCII,
  -- not empty and without a colon, digests are ASCII and not empty, and `int` reads what `str` wrote of the time.
  pub created-accepted :
      (issued_at now : ℕ)
      → is_empty settings.admin_username ≡ false
      → is_ascii settings.admin_username ≡ true
      → AreOther 58 settings.admin_username
      → ((secret payload : Text)
          → (is_empty (tools.hmac_sha256 secret payload) ≡ false)
            × (is_ascii (tools.hmac_sha256 secret payload) ≡ true))
      → tools.parse_int (decimal issued_at) ≡ some (pos issued_at)
      → now ≤ issued_at + admin_session_max_age
      → admin_user_from_session_cookie tools settings now
          (create_admin_session_cookie tools settings settings.admin_username issued_at)
        ≡ returned settings.admin_username
  unfolding admin_user_from_session_cookie session_signature
  created-accepted issued_at now named ascii plain digests reads current =
      let (signed, signature_ascii) =
        digests
          (if is_empty settings.admin_password then settings.app_name else settings.admin_password)
          (with_colon settings.admin_username (decimal issued_at)) in
      let fresh : ltb (issued_at + admin_session_max_age) now ≡ false = ground arith in
      rw
        (
          split-create settings.admin_username issued_at plain,
          named,
          decimal-is_not_empty issued_at,
          signed,
          compare_digest-same _ signature_ascii,
          reads,
          compare_digest-same settings.admin_username ascii,
          fresh,
        )
        (ap (λ b. if b then returned [] else returned settings.admin_username)
          (create-is_not_empty settings.admin_username issued_at))
