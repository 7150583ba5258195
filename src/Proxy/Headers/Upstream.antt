-- ===== src/Proxy/Headers/Upstream.antt =====
-- What `build_upstream_headers` of proxy/header_policy.py sends upstream.
use nf_safety_hub.Prelude.{
  false, not, ◌&&◌, Option, none, some, [], ◌∷◌, ◌++◌, if◌then◌else◌, is_some, All, ◌≡◌, ◌≢◌, refl,
  ap, ◌∙◌, arith, Bool-cases, inl, inr, or-eq-false_iff,
}
use nf_safety_hub.Prelude.Text.{Text, str, ◌==◌, eq_iff, eq_refl, is_one_of, starts_with, lower}
use nf_safety_hub.Prelude.Dict.{Dict, assign, lookup, lookup-assign, All-assign}
use nf_safety_hub.Proxy.Headers.{
  Headers, should_strip, skips, copy_headers, set_authorization, set_request_id,
  build_upstream_headers,
}

-- A header that may be sent upstream: none of the stripped ones, and, where the gateway has a key of
-- its own, no credential but that key.
abbrev pub Allowed : Option Text → Text × Text → Type 0
Allowed key h =
    (should_strip [] (lower h.0) ≡ false)
    × ((k : Text) → key ≡ some k → lower h.0 ≡ str "authorization" → h.1 ≡ str "Bearer " ++ k)

authorization_allowed : should_strip [] (lower (str "Authorization")) ≡ false
unfolding should_strip lower str is_one_of ◌==◌ starts_with
authorization_allowed = refl

request_id_allowed : should_strip [] (lower (str "X-Request-ID")) ≡ false
unfolding should_strip lower str is_one_of ◌==◌ starts_with
request_id_allowed = refl

request_id_ne_authorization : (lower (str "X-Request-ID") == str "authorization") ≡ false
unfolding lower str ◌==◌
request_id_ne_authorization = refl

module _ (key : Option Text) where
  copied-Allowed : (name value : Text) → skips [] key name ≡ false → Allowed key (name, value)
  unfolding skips
  copied-Allowed name value h =
      let (kept, other) =
        (or-eq-false_iff (should_strip [] (lower name))
            (is_some key && lower name == str "authorization")).0
          h in
      (kept, λ k e p. absurd (ground (arith, eq_iff (lower name) (str "authorization"))))

  copy_headers-Allowed :
      (headers : Headers) (acc : Dict Text)
      → All (Allowed key) acc
      → All (Allowed key) (copy_headers [] key headers acc)
  unfolding copy_headers
  copy_headers-Allowed [] acc h = h
  copy_headers-Allowed ((name, value) ∷ rest) acc h = elim (Bool-cases (skips [] key name)) [
    | inl e ↦ rw e (copy_headers-Allowed rest acc h)
    | inr e ↦ rw e (
        copy_headers-Allowed rest (assign name value acc)
          (All-assign (Allowed key) name value acc (copied-Allowed name value e) h))
  ]

  set_request_id-Allowed :
      (request_id : Option Text) (d : Dict Text)
      → All (Allowed key) d
      → All (Allowed key) (set_request_id request_id d)
  unfolding set_request_id
  set_request_id-Allowed none d h = h
  set_request_id-Allowed (some []) d h = h
  set_request_id-Allowed (some (c ∷ cs)) d h =
      All-assign (Allowed key) (str "X-Request-ID") (c ∷ cs) d
        (
          request_id_allowed,
          λ k e p. absurd (
              ground (
                arith,
                eq_iff (lower (str "X-Request-ID")) (str "authorization"),
                request_id_ne_authorization,
              )),
        )
        h

set_authorization-Allowed :
    (key : Option Text) (d : Dict Text)
    → All (Allowed key) d
    → All (Allowed key) (set_authorization key d)
unfolding set_authorization
set_authorization-Allowed none d h = h
set_authorization-Allowed (some key) d h =
    All-assign (Allowed (some key)) (str "Authorization") (str "Bearer " ++ key) d
      (authorization_allowed, λ k e p. ap (λ x. str "Bearer " ++ x) (ground arith)) h

-- Whatever headers a client sends, no header that is sent upstream is a hop-by-hop, blocked or
-- internal one; and if the gateway has an upstream key, each Authorization header, however it is
-- spelled, is that key's.
pub build_upstream_headers-Allowed :
    (headers : Headers) (request_id key : Option Text)
    → All (Allowed key) (build_upstream_headers headers request_id key)
unfolding build_upstream_headers
build_upstream_headers-Allowed headers request_id key =
    set_request_id-Allowed key request_id (set_authorization key (copy_headers [] key headers [])) (
      set_authorization-Allowed key (copy_headers [] key headers [])
        (copy_headers-Allowed key headers [] tt))

-- The value that the last header of this exact name has, if it has one and is not skipped.
abbrev pub last_kept : Option Text → Text → Headers → Option Text → Option Text
last_kept key j [] found = found
last_kept key j ((name, value) ∷ rest) found =
    last_kept key j rest (if not (skips [] key name) && name == j then some value else found)

lookup-copy_headers :
    (key : Option Text) (j : Text) (headers : Headers) (acc : Dict Text)
    → lookup j (copy_headers [] key headers acc) ≡ last_kept key j headers (lookup j acc)
unfolding copy_headers
lookup-copy_headers key j [] acc = refl
lookup-copy_headers key j ((name, value) ∷ rest) acc =
    lookup-copy_headers key j rest (if skips [] key name then acc else assign name value acc)
    ∙ ap (last_kept key j rest) (ground (arith, lookup-assign name j value acc))

lookup-set_request_id :
    (request_id : Option Text) (j : Text) (d : Dict Text)
    → j ≢ str "X-Request-ID"
    → lookup j (set_request_id request_id d) ≡ lookup j d
unfolding set_request_id
lookup-set_request_id none j d ne = refl
lookup-set_request_id (some []) j d ne = refl
lookup-set_request_id (some (c ∷ cs)) j d ne =
    ground (arith, lookup-assign (str "X-Request-ID") j (c ∷ cs) d, eq_iff (str "X-Request-ID") j)

lookup-set_authorization :
    (key : Option Text) (j : Text) (d : Dict Text)
    → j ≢ str "Authorization"
    → lookup j (set_authorization key d) ≡ lookup j d
unfolding set_authorization
lookup-set_authorization none j d ne = refl
lookup-set_authorization (some key) j d ne = ground (
  arith,
  lookup-assign (str "Authorization") j (str "Bearer " ++ key) d,
  eq_iff (str "Authorization") j,
)

names_differ : (str "Authorization" == str "X-Request-ID") ≡ false
unfolding str ◌==◌
names_differ = refl

-- A header under any other name than the two that the gateway writes is passed on unchanged: the
-- value sent upstream is that of the last header of this name, unless the policy skips it.
pub lookup-build_upstream_headers :
    (headers : Headers) (request_id key : Option Text) (j : Text)
    → j ≢ str "Authorization"
    → j ≢ str "X-Request-ID"
    → lookup j (build_upstream_headers headers request_id key) ≡ last_kept key j headers none
unfolding build_upstream_headers lookup
lookup-build_upstream_headers headers request_id key j other_key other_id =
    lookup-set_request_id request_id j (set_authorization key (copy_headers [] key headers []))
      other_id
    ∙ lookup-set_authorization key j (copy_headers [] key headers []) other_key
    ∙ lookup-copy_headers key j headers []

-- With an upstream key the Authorization header that is sent is exactly that key as a bearer token.
pub authorization-build_upstream_headers :
    (headers : Headers) (request_id : Option Text) (key : Text)
    → lookup (str "Authorization") (build_upstream_headers headers request_id (some key))
      ≡ some (str "Bearer " ++ key)
unfolding build_upstream_headers
authorization-build_upstream_headers headers request_id key =
    lookup-set_request_id request_id (str "Authorization")
      (set_authorization (some key) (copy_headers [] (some key) headers []))
      (λ e. cc ((eq_iff (str "Authorization") (str "X-Request-ID")).1 e, names_differ))
    ∙ unfold set_authorization in rw lookup-assign (rw (eq_refl (str "Authorization")) refl)
