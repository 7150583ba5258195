-- ===== src/Governance/Identity.antt =====
-- middleware/identity.py: `ApiKeyIdentityMiddleware`, which lets a request pass with its identity or
-- answers 401. The clock and the setting are arguments.
use nf_safety_hub.Prelude.{
  ℕ, ◌+◌, Bool, true, false, not, ◌||◌, Option, none, some, List, [], ◌∷◌, if◌then◌else◌, is_empty,
  eqb, ltb, length, ◌<◌, ◌≡◌, refl, ap, ◌∙◌, arith, Bool-cases, ◌⊎◌, inl, inr, In, here, there,
  subst,
}
use nf_safety_hub.Prelude.Text.{Text, str, ◌==◌, eq_iff, starts_with, lower, strip, partition}
use nf_safety_hub.Proxy.Relay.{RequestIdentity}
use nf_safety_hub.Governance.ApiKeys.{
  ApiKeyRecord, Service, find_by_hash, is_record_active, hash_api_key, decrypt,
}

-- the cached number of keys, with the time until which it holds
pub record CountCache : Type 0 where
  pub seconds : ℕ
  pub until : ℕ
  pub value : Option ℕ

-- The request is answered 401, passed on with an identity or without one, or fails where the key of
-- its record cannot be decrypted.
pub data Verdict : Type 0 where
  unauthorized : (detail : Text) → Verdict
  passes : RequestIdentity → Verdict
  not_limited : Verdict
  undecryptable : Verdict

unfoldable pub no_identity : RequestIdentity
no_identity = record { api_key_id = []; user_id = []; upstream_api_key = []; key_prefix = [] }

abbrev cached_or_count : CountCache → ℕ → ℕ → Option ℕ → ℕ × CountCache
cached_or_count c now count none = (count, record c { value = some count; until = now + c.seconds })
cached_or_count c now count (some n) =
    if ltb now c.until
    then (n, c)
    else (count, record c { value = some count; until = now + c.seconds })

-- `_api_key_count`, `count` being what `service.count()` would return
unfoldable pub api_key_count : CountCache → ℕ → ℕ → ℕ × CountCache
api_key_count c now count =
    if eqb c.seconds 0 then (count, c) else cached_or_count c now count c.value

-- `_extract_bearer_key`
unfoldable pub extract_bearer_key : Text → Text
extract_bearer_key value =
    let p = partition 32 value in
    if is_empty value
    then []
    else if not (lower p.before == str "bearer") || is_empty (strip p.after)
    then []
    else strip p.after

module _ (s : Service) where
  abbrev with_key : ApiKeyRecord → Option Text → Verdict
  with_key r none = undecryptable
  with_key r (some key) = passes (record {
    api_key_id = r.id;
    user_id = r.owner_user_id;
    upstream_api_key = key;
    key_prefix = r.key_prefix;
  })

  -- `_build_identity`
  unfoldable pub build_identity : ApiKeyRecord → Verdict
  build_identity r =
      with_key r
        (if is_empty r.upstream_key_encrypted then some [] else decrypt s r.upstream_key_encrypted)

  abbrev identify : ℕ → Option ApiKeyRecord → Verdict
  identify now none = unauthorized (str "invalid api key")
  identify now (some r) =
      if is_record_active r now then build_identity r else unauthorized (str "invalid api key")

  -- `dispatch`, with the number of keys that `_api_key_count` returned
  unfoldable pub dispatch : List ApiKeyRecord → ℕ → Bool → ℕ → (path authorization : Text) → Verdict
  unfolding build_identity extract_bearer_key
  dispatch rows count allow_empty now path authorization =
      let raw_key = extract_bearer_key authorization in
      if not (starts_with path (str "/v1/"))
      then not_limited
      else if eqb count 0
      then (if allow_empty then passes no_identity else unauthorized (str "api key is required"))
      else if is_empty raw_key
      then unauthorized (str "missing api key")
      else identify now (find_by_hash (hash_api_key s raw_key) rows)

  -- What an authenticated request shows: a bearer token that is not empty, and the record of its hash,
  -- which is there, active and not over.
  pub record IsAuthentic (rows : List ApiKeyRecord) (now : ℕ) (authorization : Text)
      (i : RequestIdentity) : Type 0 where
    pub has_token : is_empty (extract_bearer_key authorization) ≡ false
    pub row : ApiKeyRecord
    pub stored : In row rows
    pub secret : row.key_hash ≡ hash_api_key s (extract_bearer_key authorization)
    pub active : is_record_active row now ≡ true
    pub identified : i.api_key_id ≡ row.id
    pub owner : i.user_id ≡ row.owner_user_id

  find_by_hash-In :
      (h : Text) (rows : List ApiKeyRecord) (r : ApiKeyRecord)
      → find_by_hash h rows ≡ some r
      → In r rows × (r.key_hash ≡ h)
  unfolding find_by_hash
  find_by_hash-In h [] r e = absurd (cc e)
  find_by_hash-In h (x ∷ xs) r e = elim (Bool-cases (x.key_hash == h)) [
    | inl q ↦
        let same : x ≡ r = ground (arith, q, e) in
        (
          subst (λ z. In z (x ∷ xs)) same here,
          subst (λ z. z.key_hash ≡ h) same ((eq_iff x.key_hash h).0 q),
        )
    | inr q ↦ let (i, p) = find_by_hash-In h xs r (rw q at e) in (there i, p)
  ]

  with_key-passes :
      (r : ApiKeyRecord) (key : Option Text) (i : RequestIdentity)
      → with_key r key ≡ passes i
      → (i.api_key_id ≡ r.id) × (i.user_id ≡ r.owner_user_id)
  with_key-passes r none i p = absurd (cc p)
  with_key-passes r (some key) i p = ground (arith, p)

  identify-IsAuthentic :
      (rows : List ApiKeyRecord) (now : ℕ) (authorization : Text) (i : RequestIdentity)
      (o : Option ApiKeyRecord)
      → is_empty (extract_bearer_key authorization) ≡ false
      → find_by_hash (hash_api_key s (extract_bearer_key authorization)) rows ≡ o
      → identify now o ≡ passes i
      → IsAuthentic rows now authorization i
  identify-IsAuthentic rows now authorization i none t e p = absurd (cc p)
  identify-IsAuthentic rows now authorization i (some r) t e p =
      elim (Bool-cases (is_record_active r now)) [
        | inl a ↦
            let found : In r rows
                × (r.key_hash ≡ hash_api_key s (extract_bearer_key authorization)) =
              find_by_hash-In (hash_api_key s (extract_bearer_key authorization)) rows r e in
            let shown : (i.api_key_id ≡ r.id) × (i.user_id ≡ r.owner_user_id) =
              unfold build_identity in with_key-passes r _ i (rw a at p) in
            record {
              has_token = t;
              row = r;
              stored = found.0;
              secret = found.1;
              active = a;
              identified = shown.0;
              owner = shown.1;
            }
        | inr a ↦ absurd (ground (arith, a, p))
      ]

  pub dispatch-IsAuthentic :
      (rows : List ApiKeyRecord) (count : ℕ) (allow_empty : Bool) (now : ℕ)
      (path authorization : Text) (i : RequestIdentity)
      → starts_with path (str "/v1/") ≡ true
      → eqb count 0 ≡ false
      → dispatch rows count allow_empty now path authorization ≡ passes i
      → IsAuthentic rows now authorization i
  unfolding dispatch
  dispatch-IsAuthentic rows count allow_empty now path authorization i v1 keys p =
      elim (Bool-cases (is_empty (extract_bearer_key authorization))) [
        | inl none_ ↦ absurd (ground (arith, v1, keys, none_, p))
        | inr key ↦
            identify-IsAuthentic rows now authorization i _ key refl (rw (v1, keys, key) at p)
      ]

  -- No key was there to count, or the number that was kept of an earlier count was 0 and still held.
  abbrev pub CountedNone : List ApiKeyRecord → CountCache → ℕ → Type 0
  CountedNone counted cache moment =
      (length counted ≡ 0) ⊎ ((cache.value ≡ some 0) × (moment < cache.until))

  api_key_count-CountedNone :
      (counted : List ApiKeyRecord) (cache : CountCache) (moment : ℕ)
      → eqb (api_key_count cache moment (length counted)).0 0 ≡ true
      → CountedNone counted cache moment
  unfolding api_key_count
  api_key_count-CountedNone counted cache moment h = elim (Bool-cases (eqb cache.seconds 0)) [
    | inl e ↦ inl (ground (arith, e, h))
    | inr e ↦ on_value cache.value refl e
  ]
    where
      on_value :
          (o : Option ℕ)
          → cache.value ≡ o
          → eqb cache.seconds 0 ≡ false
          → CountedNone counted cache moment
      on_value none v e = inl (ground (arith, v, e, h))
      on_value (some n) v e = elim (Bool-cases (ltb moment cache.until)) [
        | inl l ↦
            let zero_ : n ≡ 0 = ground (arith, v, e, l, h) in
            inr (v ∙ ap some zero_, ground (arith, l))
        | inr l ↦ inl (ground (arith, v, e, l, h))
      ]

  -- A request under /v1/ passes only with a bearer token that is not empty and hashes to a stored record
  -- which is active and has not expired, and then as the owner of that record; or, where the setting
  -- lets requests pass without keys, with no identity, if there was no key when they were counted or
  -- the kept count of an earlier request was 0 and still held.
  pub serve-IsAuthentic :
      (counted rows : List ApiKeyRecord) (cache : CountCache) (moment : ℕ) (allow_empty : Bool)
      (now : ℕ) (path authorization : Text) (i : RequestIdentity)
      → starts_with path (str "/v1/") ≡ true
      → dispatch rows
          (api_key_count cache moment (length counted)).0
          allow_empty
          now
          path
          authorization
        ≡ passes i
      → IsAuthentic rows now authorization i
        ⊎ ((allow_empty ≡ true) × ((i ≡ no_identity) × CountedNone counted cache moment))
  serve-IsAuthentic counted rows cache moment allow_empty now path authorization i v1 p =
      elim (Bool-cases (eqb (api_key_count cache moment (length counted)).0 0)) [
        | inr keys ↦
            inl (dispatch-IsAuthentic rows _ allow_empty now path authorization i v1 keys p)
        | inl empty ↦ elim (Bool-cases allow_empty) [
          | inl a ↦
              let passed : i ≡ no_identity = unfold dispatch in ground (arith, v1, empty, a, p) in
              inr (a, (passed, api_key_count-CountedNone counted cache moment empty))
          | inr a ↦ absurd (unfold dispatch in ground (arith, v1, empty, a, p))
        ]
      ]
