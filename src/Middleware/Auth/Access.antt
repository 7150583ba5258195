-- ===== src/Middleware/Auth/Access.antt =====
-- middleware/auth.py: what stands between a request and the administration.
use nf_safety_hub.Prelude.{
  ℕ, Bool, true, false, ◌&&◌, &&-eq-true_iff, Option, none, some, List, [], ◌∷◌, is_empty, In, here,
  there, ◌≡◌, refl, ap, ◌∙◌, ◌⊎◌, inl, inr, Bool-cases,
}
use nf_safety_hub.Prelude.Text.{Text, eq→path}
use nf_safety_hub.Middleware.Auth.{
  Result, returned, unauthorized, forbidden, raised, Settings, HttpBasicCredentials, Request,
  Toolbox, compare_digest, validate_admin_login, admin_user_from_session_cookie,
  credentials_from_authorization, validate_admin_credentials, authenticated_admin_user,
  or_authorization, ip_allowed, validate_admin_ip, is_in, passed_on, answer_of, is_unguarded,
  dispatch,
}
use nf_safety_hub.Middleware.Auth.Sessions.{
  compare_digest-true, and_then-returned, Session, admin_user_from_session_cookie-Session,
}

nothing : (items : List Text) → is_empty items ≡ true → items ≡ []
nothing [] e = refl
nothing (i ∷ is) e = absurd (cc)

module _ (tools : Toolbox) (settings : Settings) where
  -- The client is on the whitelist, as it is written or in a network of it.
  pub record Listed (host : Text) (whitelist : List Text) : Type 0 where
    pub item : Text
    pub is_listed : In item whitelist
    pub is_met : (host ≡ item) ⊎ (tools.in_network host item ≡ some true)

  in_some : (o : Option Bool) → is_in tools settings o ≡ true → o ≡ some true
  in_some none h = absurd (cc)
  in_some (some b) h = cc

  Listed-later :
      {host item : Text} {rest : List Text} → Listed host rest → Listed host (item ∷ rest)
  Listed-later l = record { item = l.item; is_listed = there l.is_listed; is_met = l.is_met }

  ip_allowed-Listed :
      (host : Text) (whitelist : List Text)
      → ip_allowed tools settings host whitelist ≡ returned true
      → Listed host whitelist
  unfolding ip_allowed
  ip_allowed-Listed host [] h = absurd (cc)
  ip_allowed-Listed host (item ∷ rest) h =
      let (same, (compared, chosen)) = and_then-returned (compare_digest host item) _ true h in
      elim (Bool-cases same) [
        | inl e ↦ record {
          item = item;
          is_listed = here;
          is_met = inl (eq→path host item (compare_digest-true host item same compared ∙ e));
        }
        | inr e ↦
            elim (Bool-cases
              (tools.is_ip_address host && is_in tools settings (tools.in_network host item))) [
                | inl f ↦ record {
                  item = item;
                  is_listed = here;
                  is_met = inr (in_some _ ((&&-eq-true_iff _ _).0 f).1);
                }
                | inr f ↦ Listed-later (ip_allowed-Listed host rest (rw (e, f) at chosen))
              ]
      ]

  -- The credentials of the administrator, whose password is not empty.
  abbrev pub AreAdmins : HttpBasicCredentials → Type 0
  AreAdmins c =
      (c.username ≡ settings.admin_username)
      × ((c.password ≡ settings.admin_password) × (is_empty settings.admin_password ≡ false))

  login-AreAdmins :
      (c : HttpBasicCredentials)
      → validate_admin_login c.username c.password settings ≡ returned true
      → AreAdmins c
  unfolding validate_admin_login
  login-AreAdmins c h = elim (Bool-cases (is_empty settings.admin_password)) [
    | inl e ↦ let k : returned false ≡ returned true = rw e at h in absurd (cc)
    | inr e ↦
        let (a, (p, rest)) =
          and_then-returned (compare_digest c.username settings.admin_username) _ true
            (rw e at h) in
        let (b, (q, last)) =
          and_then-returned (compare_digest c.password settings.admin_password) _ true rest in
        let both =
          (&&-eq-true_iff a b).0 (let k : returned (a && b) ≡ returned true = last in cc) in
        (
          eq→path c.username settings.admin_username (compare_digest-true _ _ a p ∙ both.0),
          (eq→path c.password settings.admin_password (compare_digest-true _ _ b q ∙ both.1), e),
        )
  ]

  -- The user, if one is named, holds a session, or the administrator's credentials by the header.
  pub data Admitted (now : ℕ) (request : Request) : Type 0 where
    by_session :
        (user : Text)
        → Session tools settings now request.session_cookie user
        → Admitted now request
    by_password :
        (c : HttpBasicCredentials)
        → credentials_from_authorization tools settings request.authorization ≡ some c
        → AreAdmins c
        → Admitted now request

  credentials-Admitted :
      (now : ℕ) (request : Request) (user : Text) (o : Option HttpBasicCredentials)
      → credentials_from_authorization tools settings request.authorization ≡ o
      → validate_admin_credentials tools settings o ≡ returned user
      → Admitted now request
  unfolding validate_admin_credentials
  credentials-Admitted now request user none e h = absurd (cc)
  credentials-Admitted now request user (some c) e h =
      let (valid, (checked, chosen)) =
        and_then-returned (validate_admin_login c.username c.password settings) _ user h in
      elim (Bool-cases valid) [
        | inl f ↦ by_password c e (login-AreAdmins c (checked ∙ ap returned f))
        | inr f ↦ let k : unauthorized ≡ returned user = rw f at chosen in absurd (cc)
      ]

  authenticated-Admitted :
      (now : ℕ) (request : Request) (user : Text)
      → authenticated_admin_user tools settings now request none ≡ returned user
      → Admitted now request
  unfolding authenticated_admin_user
  authenticated-Admitted now request user h =
      let (session_user, (found, chosen)) =
        and_then-returned (admin_user_from_session_cookie tools settings now request.session_cookie)
          (or_authorization tools settings request) user h in
      elim (Bool-cases (is_empty session_user)) [
        | inr e ↦ by_session session_user (
            admin_user_from_session_cookie-Session tools settings now request.session_cookie
              session_user e found)
        | inl e ↦ credentials-Admitted now request user _ refl (rw e at chosen)
      ]

  ip-Listed :
      (request : Request) (u : Unit {0})
      → validate_admin_ip tools settings request ≡ returned u
      → (settings.admin_ip_whitelist ≡ []) ⊎ Listed request.client_host settings.admin_ip_whitelist
  unfolding validate_admin_ip
  ip-Listed request u h = elim (Bool-cases (is_empty settings.admin_ip_whitelist)) [
    | inl e ↦ inl (nothing settings.admin_ip_whitelist e)
    | inr e ↦ elim (Bool-cases (is_empty request.client_host)) [
      | inl f ↦ let k : forbidden ≡ returned u = rw (e, f) at h in absurd (cc)
      | inr f ↦
          let (allowed, (found, chosen)) =
            and_then-returned
              (ip_allowed tools settings request.client_host settings.admin_ip_whitelist) _ u
              (rw (e, f) at h) in
          elim (Bool-cases allowed) [
            | inl g ↦ inr (
                ip_allowed-Listed request.client_host settings.admin_ip_whitelist
                  (found ∙ ap returned g))
            | inr g ↦ let k : forbidden ≡ returned u = rw g at chosen in absurd (cc)
          ]
    ]
  ]

  answer_of-passed :
      (path : Text) (r : Result Text)
      → answer_of tools settings path r ≡ passed_on
      → (user : Text) × (r ≡ returned user)
  answer_of-passed path (returned user) h = (user, refl)
  answer_of-passed path unauthorized h = absurd (cc)
  answer_of-passed path forbidden h = absurd (cc)
  answer_of-passed path raised h = absurd (cc)

  -- A request for a guarded page goes through only if its client is on the whitelist, where there is one,
  -- and it bears an accepted session or the administrator's name and password, which is not empty.
  pub dispatch-Admitted :
      (now : ℕ) (request : Request)
      → is_unguarded tools settings request.path ≡ false
      → dispatch tools settings now request ≡ passed_on
      → ((settings.admin_ip_whitelist ≡ [])
          ⊎ Listed request.client_host settings.admin_ip_whitelist)
        × Admitted now request
  unfolding dispatch
  dispatch-Admitted now request guarded h =
      let (user, granted) = answer_of-passed request.path _ (rw guarded at h) in
      let (u, (ip, admitted)) =
        and_then-returned (validate_admin_ip tools settings request) _ user granted in
      (ip-Listed request u ip, authenticated-Admitted now request user admitted)
