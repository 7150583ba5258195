-- ===== src/Governance/ApiKeys/Operations/Creation.antt =====
-- governance/api_keys.py: a creation leaves every revoked key revoked.
use nf_safety_hub.Prelude.{
  Bool, true, not, Option, none, some, [], ◌∷◌, ◌++◌, if◌then◌else◌, is_empty, is_some, All, ◌≡◌,
  ◌≢◌, Bool-cases, Option-cases, inl, inr,
}
use nf_safety_hub.Prelude.Text.{Text, str, ◌==◌, strip}
use nf_safety_hub.Governance.ApiKeys.{
  ApiKeyRecord, ApiKeyCreate, ApiKeyCreateResult, UpstreamKeyInfo, KeyProvider, Service, Draws,
  Store, Result, returned, missing, failed, find_by_id, find_by_hash, is_valid_key,
  build_api_key_record, actual_key, insert,
}
use nf_safety_hub.Governance.ApiKeys.Operations.{
  created, create_with, create_record, rollback, create_upstream, create_provided,
  create_with_provider, create,
}

-- The record, if it is the one of this id, is revoked.
abbrev pub StaysRevoked : Text → ApiKeyRecord → Type 0
StaysRevoked id r = r.id ≡ id → r.status ≡ str "revoked"

-- No row of this id is anything but revoked.
abbrev pub IsRevoked : Text → Store → Type 0
IsRevoked id st = All (StaysRevoked id) st.rows

module _ (s : Service) (id : Text) where
  insert-IsRevoked :
      (st : Store) (r : ApiKeyRecord) (key : Text) (reveal : Bool)
      → r.id ≢ id
      → IsRevoked id st
      → IsRevoked id (created s st r key reveal (insert s r st.rows)).0
  unfolding insert
  insert-IsRevoked st r key reveal ne h =
      elim (Bool-cases (is_some (find_by_hash r.key_hash st.rows))) [
        | inl e ↦ rw e h
        | inr e ↦ elim (Bool-cases (is_some (find_by_id r.id st.rows))) [
          | inl f ↦ rw (e, f) h
          | inr f ↦ rw (e, f) ((λ q. absurd (ne q)), h)
        ]
      ]

  created-IsRevoked :
      (st : Store) (payload : ApiKeyCreate) (upstream_key : Text) (key_id : Option Text)
      (reveal : Bool) (d : Draws) (o : Option Text)
      → str "ak_" ++ d.uuid ≢ id
      → IsRevoked id st
      → IsRevoked id (create_with s st payload upstream_key key_id reveal d o).0
  created-IsRevoked st payload upstream_key key_id reveal d none ne h = h
  created-IsRevoked st payload upstream_key key_id reveal d (some key) ne h =
      insert-IsRevoked st (build_api_key_record s payload upstream_key key key_id d) key reveal
        (unfold build_api_key_record in ne) h

  create_record-IsRevoked :
      (st : Store) (payload : ApiKeyCreate) (upstream_key : Text) (key key_id : Option Text)
      (reveal : Bool) (d : Draws)
      → str "ak_" ++ d.uuid ≢ id
      → IsRevoked id st
      → IsRevoked id (create_record s st payload upstream_key key key_id reveal d).0
  unfolding create_record
  create_record-IsRevoked st payload upstream_key key key_id reveal d ne h =
      created-IsRevoked st payload upstream_key key_id reveal d (actual_key s key d st.rows) ne h

  rollback-IsRevoked :
      (key_id : Text) (st : Store) (r : Result ApiKeyCreateResult)
      → IsRevoked id st
      → IsRevoked id (rollback s key_id (st, r)).0
  rollback-IsRevoked key_id st (returned r) h = h
  rollback-IsRevoked key_id st missing h = h
  rollback-IsRevoked [] st (failed m) h = h
  rollback-IsRevoked (c ∷ cs) st (failed m) h = h

  create_upstream-IsRevoked :
      (st : Store) (payload : ApiKeyCreate) (p : KeyProvider) (d : Draws) (key_id secret : Text)
      → str "ak_" ++ d.uuid ≢ id
      → IsRevoked id st
      → IsRevoked id (create_upstream s st payload p d key_id secret).0
  create_upstream-IsRevoked st payload p d key_id secret ne h =
      elim (Bool-cases (is_valid_key secret)) [
        | inl e ↦ rw e (
            rollback-IsRevoked key_id _ _ (
              create_record-IsRevoked st _ secret
                (if payload.reuse_upstream_key then some secret else none) (some key_id) true d ne
                h))
        | inr e ↦ rw e h
      ]

  create_provided-IsRevoked :
      (st : Store) (payload : ApiKeyCreate) (p : KeyProvider) (d : Draws)
      (o : Option UpstreamKeyInfo)
      → str "ak_" ++ d.uuid ≢ id
      → IsRevoked id st
      → IsRevoked id (create_provided s st payload p d o).0
  create_provided-IsRevoked st payload p d none ne h = h
  create_provided-IsRevoked st payload p d (some info) ne h = elim (Option-cases info.key_secret) [
    | inl e ↦ rw e h
    | inr (secret, e) ↦ elim (Bool-cases (is_empty secret)) [
      | inl f ↦ rw (e, f) h
      | inr f ↦ rw (e, f) (create_upstream-IsRevoked st payload p d info.key_id secret ne h)
    ]
  ]

  create_with_provider-IsRevoked :
      (st : Store) (payload : ApiKeyCreate) (d : Draws) (o : Option KeyProvider)
      → str "ak_" ++ d.uuid ≢ id
      → IsRevoked id st
      → IsRevoked id (create_with_provider s st payload d o).0
  create_with_provider-IsRevoked st payload d none ne h = h
  create_with_provider-IsRevoked st payload d (some p) ne h =
      create_provided-IsRevoked st payload p d _ ne h

  pub create-IsRevoked :
      (st : Store) (payload : ApiKeyCreate) (d : Draws)
      → str "ak_" ++ d.uuid ≢ id
      → IsRevoked id st
      → IsRevoked id (create s st payload d).0
  unfolding create
  create-IsRevoked st payload d ne h = elim (Bool-cases (payload.create_mode == str "provider")) [
    | inl e ↦ rw e (create_with_provider-IsRevoked st payload d s.key_provider ne h)
    | inr e ↦ elim (Bool-cases (is_valid_key (strip payload.upstream_key))) [
      | inl f ↦
          rw (e, f)
            (create_record-IsRevoked st payload _ _ none (not payload.reuse_upstream_key) d ne h)
      | inr f ↦ rw (e, f) h
    ]
  ]
