-- ===== src/Middleware/Auth/Sessions.antt =====
-- middleware/auth.py: which session cookies are accepted.
use nf_safety_hub.Prelude.{
  ℕ, ◌+◌, ◌≤◌, Bool, true, false, ◌&&◌, ◌||◌, Option, none, some, [], ◌∷◌, ◌++◌, if◌then◌else◌,
  is_empty, eqb, eqb_iff, ◌≡◌, refl, sym, subst, ap, ◌∙◌, arith, Bool-cases, inl, inr,
}
use nf_safety_hub.Prelude.Text.{Text, ◌==◌, eq→path, partition}
use nf_safety_hub.Prelude.Int.{ℤ, pos, negsuc}
use nf_safety_hub.Middleware.Auth.{
  Result, returned, unauthorized, forbidden, raised, and_then, Settings, Toolbox,
  admin_session_max_age, is_ascii, compare_digest, split_session_cookie, with_colon,
  session_signature, admin_user_from_session_cookie, is_over, user_at, user_of_parts, first_part,
}

partition-separated :
    (c : ℕ) (text : Text)
    → (partition c text).separated ≡ true
    → text ≡ (partition c text).before ++ c ∷ (partition c text).after
unfolding partition
partition-separated c [] h = cc
partition-separated c (d ∷ ds) h = elim (Bool-cases (eqb d c)) [
  | inl e ↦ rw e (ap (λ x. x ∷ ds) ((eqb_iff d c).0 e))
  | inr e ↦ rw e (ap (λ t. d ∷ t) (partition-separated c ds (rw e at h)))
]

pub compare_digest-true : (s t : Text) (b : Bool) → compare_digest s t ≡ returned b → (s == t) ≡ b
unfolding compare_digest
compare_digest-true s t b h = elim (Bool-cases (is_ascii s && is_ascii t)) [
  | inl e ↦ let k : returned (s == t) ≡ returned b = rw e at h in cc
  | inr e ↦ let k : raised ≡ returned b = rw e at h in absurd (cc)
]

module _ {A B : Type 0} where
  pub and_then-returned :
      (r : Result A) (f : A → Result B) (b : B)
      → and_then r f ≡ returned b
      → (a : A) × ((r ≡ returned a) × (f a ≡ returned b))
  and_then-returned (returned a) f b h = (a, (refl, h))
  and_then-returned unauthorized f b h = absurd (cc)
  and_then-returned forbidden f b h = absurd (cc)
  and_then-returned raised f b h = absurd (cc)

no_user : (user : Text) → is_empty user ≡ false → returned [] ≡ returned user → ⊥
no_user [] ne h = absurd (cc)
no_user (c ∷ cs) ne h = absurd (cc)

chosen_user :
    (same : Bool) (username user : Text)
    → is_empty user ≡ false
    → returned (if same then username else []) ≡ returned user
    → (same ≡ true) × (user ≡ username)
chosen_user true username user ne h = (refl, cc)
chosen_user false username user ne h = absurd (no_user user ne h)

-- A session ends eight hours after it was issued; a cookie may hold a negative time.
abbrev pub IsCurrent : ℕ → ℤ → Type 0
IsCurrent now (pos issued_at) = now ≤ issued_at + admin_session_max_age
IsCurrent now (negsuc n) = now + n + 1 ≤ admin_session_max_age

not_over-IsCurrent :
    (tools : Toolbox) (settings : Settings) (now : ℕ) (t : ℤ)
    → is_over tools settings now t ≡ false
    → IsCurrent now t
not_over-IsCurrent tools settings now (pos n) h = ground arith
not_over-IsCurrent tools settings now (negsuc n) h = ground arith

module _ (tools : Toolbox) (settings : Settings) where
  -- The cookie names the administrator and a time that is not too long ago, under the signature of both.
  pub record Session (now : ℕ) (cookie user : Text) : Type 0 where
    pub issued_at : Text
    pub time : ℤ
    pub is_admin : user ≡ settings.admin_username
    pub is_signed :
        cookie
        ≡ with_colon user
            (with_colon issued_at (session_signature tools settings (with_colon user issued_at)))
    pub is_time : tools.parse_int issued_at ≡ some time
    pub is_current : IsCurrent now time

  user_at_lem :
      (now : ℕ) (username user : Text) (o : Option ℤ)
      → is_empty user ≡ false
      → user_at tools settings now username o ≡ returned user
      → (t : ℤ) × ((o ≡ some t)
          × (IsCurrent now t × ((user ≡ username) × (user ≡ settings.admin_username))))
  user_at_lem now username user none ne h = absurd (no_user user ne h)
  user_at_lem now username user (some t) ne h = elim (Bool-cases (is_over tools settings now t)) [
    | inl e ↦ absurd (no_user user ne (rw e at h))
    | inr e ↦
        let (same, (compared, chosen)) =
          and_then-returned (compare_digest username settings.admin_username) _ user (rw e at h) in
        let (is_same, chosen_one) = chosen_user same username user ne chosen in
        (
          t,
          (
            refl,
            (
              not_over-IsCurrent tools settings now t e,
              (
                chosen_one,
                chosen_one
                    ∙ eq→path username settings.admin_username (
                        compare_digest-true username settings.admin_username same compared
                        ∙ is_same),
              ),
            ),
          ),
        )
  ]

  user_of_parts-Session :
      (now : ℕ) (username issued_at signature user : Text)
      → is_empty user ≡ false
      → user_of_parts tools settings now (username, (issued_at, signature)) ≡ returned user
      → Session now (with_colon username (with_colon issued_at signature)) user
  user_of_parts-Session now username issued_at signature user ne h =
      elim (Bool-cases (is_empty username || (is_empty issued_at || is_empty signature))) [
        | inl e ↦ absurd (no_user user ne (rw e at h))
        | inr e ↦
            let (same, (compared, chosen)) =
              and_then-returned
                (compare_digest signature
                  (session_signature tools settings (with_colon username issued_at)))
                _ user (rw e at h) in
            elim (Bool-cases same) [
              | inr f ↦ absurd (no_user user ne (rw f at chosen))
              | inl f ↦
                  let (t, (parsed, (current, (named, admin)))) =
                    user_at_lem now username user (tools.parse_int issued_at) ne (rw f at chosen) in
                  record {
                    issued_at = issued_at;
                    time = t;
                    is_admin = admin;
                    is_signed = rw named (
                        ap (λ s. with_colon username (with_colon issued_at s))
                          (eq→path signature _
                            (compare_digest-true signature _ same compared ∙ f)));
                    is_time = parsed;
                    is_current = current;
                  }
            ]
      ]

  first_part-Session :
      (now : ℕ) (cookie user : Text)
      → is_empty user ≡ false
      → user_of_parts tools settings now (first_part (partition 58 cookie)) ≡ returned user
      → Session now cookie user
  first_part-Session now cookie user ne h = elim (Bool-cases (partition 58 cookie).separated) [
    | inr e ↦ absurd (no_user user ne (rw e at h))
    | inl e ↦ elim (Bool-cases (partition 58 (partition 58 cookie).after).separated) [
      | inr f ↦ absurd (no_user user ne (rw (e, f) at h))
      | inl f ↦
          subst (λ t. Session now t user)
            (sym (
              partition-separated 58 cookie e
              ∙ ap (λ t. (partition 58 cookie).before ++ 58 ∷ t)
                  (partition-separated 58 (partition 58 cookie).after f)))
            (user_of_parts-Session now _ _ _ user ne (rw (e, f) at h))
    ]
  ]

  -- A cookie makes its bearer a user only if the user is the administrator, and the cookie is
  -- the name and a time, at most eight hours ago, under their signature.
  pub admin_user_from_session_cookie-Session :
      (now : ℕ) (cookie user : Text)
      → is_empty user ≡ false
      → admin_user_from_session_cookie tools settings now cookie ≡ returned user
      → Session now cookie user
  unfolding admin_user_from_session_cookie split_session_cookie
  admin_user_from_session_cookie-Session now cookie user ne h =
      elim (Bool-cases (is_empty cookie)) [
        | inl e ↦ absurd (no_user user ne (rw e at h))
        | inr e ↦ first_part-Session now cookie user ne (rw e at h)
      ]
