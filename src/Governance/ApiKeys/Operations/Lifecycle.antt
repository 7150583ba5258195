-- ===== src/Governance/ApiKeys/Operations/Lifecycle.antt =====
-- governance/api_keys.py: a key that is revoked stays revoked, whatever the service does afterwards.
use nf_safety_hub.Prelude.{
  ℕ, Bool, Option, none, some, List, [], ◌∷◌, ◌++◌, filter, is_empty, All, ◌≢◌, refl, Bool-cases,
  inl, inr,
}
use nf_safety_hub.Prelude.Text.{Text, str, ◌==◌, strip}
use nf_safety_hub.Governance.ApiKeys.{
  ApiKeyRecord, ApiKeyCreate, KeyProvider, Service, Draws, Store, find_by_id, is_valid_key,
  update_row,
}
use nf_safety_hub.Governance.ApiKeys.Operations.{
  Field, set_field, set_fields, mark_revoked, update_found, update, delete_found, delete_revoked,
  create, upstream_key_of, revoke_row, revoke_found, revoke_if, revoke, set_upstream_key,
  replace_found, replace_upstream_key, replace_one, find_for_bulk_replace, bulk_replace,
}
use nf_safety_hub.Governance.ApiKeys.Operations.Creation.{StaysRevoked, IsRevoked, create-IsRevoked}

-- A call of the service.
pub data Operation : Type 0 where
  creates : ApiKeyCreate → Draws → Operation
  revokes : (id : Text) (now : ℕ) → Operation
  deletes : (id : Text) → Operation
  updates : (id : Text) → List Field → Operation
  replaces : (id key : Text) → Operation
  bulk_replaces : List (Text × Text) → Operation

-- The id that a creation draws is another one.
abbrev pub Avoids : Text → Operation → Type 0
Avoids id (creates payload d) = str "ak_" ++ d.uuid ≢ id
Avoids id _ = Unit

All-map_if :
    (id key : Text) (f : ApiKeyRecord → ApiKeyRecord) (rows : List ApiKeyRecord)
    → ((r : ApiKeyRecord) → StaysRevoked id r → StaysRevoked id (f r))
    → All (StaysRevoked id) rows
    → All (StaysRevoked id) (update_row key f rows)
unfolding update_row
All-map_if id key f [] keeps h = tt
All-map_if id key f (r ∷ rows) keeps h = elim (Bool-cases (r.id == key)) [
  | inl e ↦ rw e (keeps r h.0, All-map_if id key f rows keeps h.1)
  | inr e ↦ rw e (h.0, All-map_if id key f rows keeps h.1)
]

All-remove :
    (id : Text) (test : ApiKeyRecord → Bool) (rows : List ApiKeyRecord)
    → All (StaysRevoked id) rows
    → All (StaysRevoked id) (filter test rows)
All-remove id test [] h = tt
All-remove id test (r ∷ rows) h = elim (Bool-cases (test r)) [
  | inl e ↦ rw e (h.0, All-remove id test rows h.1)
  | inr e ↦ rw e (All-remove id test rows h.1)
]

set_field-Keeps :
    (id : Text) (f : Field) (r : ApiKeyRecord) → StaysRevoked id r → StaysRevoked id (set_field f r)
unfolding set_field
set_field-Keeps id (Field.name v) r h = h
set_field-Keeps id (Field.owner_user_id v) r h = h
set_field-Keeps id (Field.owner_department v) r h = h
set_field-Keeps id (Field.cost_center v) r h = h
set_field-Keeps id (Field.expires_at v) r h = h
set_field-Keeps id Field.not_allowed r h = h

set_fields-Keeps :
    (id : Text) (fs : List Field) (r : ApiKeyRecord)
    → StaysRevoked id r
    → StaysRevoked id (set_fields fs r)
unfolding set_fields
set_fields-Keeps id [] r h = h
set_fields-Keeps id (f ∷ fs) r h = set_fields-Keeps id fs (set_field f r) (set_field-Keeps id f r h)

update_found-IsRevoked :
    (id : Text) (st : Store) (key : Text) (fs : List Field) (o : Option ApiKeyRecord)
    → IsRevoked id st
    → IsRevoked id (update_found st key fs o).0
update_found-IsRevoked id st key fs none h = h
update_found-IsRevoked id st key fs (some r) h =
    All-map_if id key (set_fields fs) st.rows (set_fields-Keeps id fs) h

delete_found-IsRevoked :
    (id : Text) (st : Store) (key : Text) (o : Option ApiKeyRecord)
    → IsRevoked id st
    → IsRevoked id (delete_found st key o).0
delete_found-IsRevoked id st key none h = h
delete_found-IsRevoked id st key (some r) h = elim (Bool-cases (r.status == str "revoked")) [
  | inl e ↦ rw e (All-remove id _ st.rows h)
  | inr e ↦ rw e h
]

-- the state of the service after a call
unfoldable pub perform : Service → Store → Operation → Store
perform s st (creates payload d) = (create s st payload d).0
perform s st (revokes key now) = (revoke s st key now).0
perform s st (deletes key) = (delete_revoked st key).0
perform s st (updates key fields) = (update st key fields).0
perform s st (replaces key new) = (replace_upstream_key s st key new).0
perform s st (bulk_replaces rows) = bulk_replace s st rows

module _ (s : Service) (id : Text) where
  revoke_row-IsRevoked :
      (st : Store) (key : Text) (r : ApiKeyRecord) (now : ℕ)
      → IsRevoked id st
      → IsRevoked id (revoke_row s st key r now).0
  revoke_row-IsRevoked st key r now h =
      All-map_if id key (mark_revoked now) st.rows (λ r k. unfold mark_revoked in λ e. refl) h

  revoke_found-IsRevoked :
      (p : Option KeyProvider) (st : Store) (key : Text) (r : ApiKeyRecord) (now : ℕ)
      → IsRevoked id st
      → IsRevoked id (revoke_found s p st key r now).0
  revoke_found-IsRevoked none st key r now h = revoke_row-IsRevoked st key r now h
  revoke_found-IsRevoked (some p) st key r now h =
      elim (Bool-cases (is_empty (upstream_key_of s p r))) [
        | inl e ↦ rw e (revoke_row-IsRevoked st key r now h)
        | inr e ↦ elim (Bool-cases (p.revoke_key (upstream_key_of s p r))) [
          | inl f ↦
              rw (e, f)
                (revoke_row-IsRevoked
                  (record st { revoked_upstream = upstream_key_of s p r ∷ st.revoked_upstream }) key
                  r now h)
          | inr f ↦ rw (e, f) h
        ]
      ]

  revoke_if-IsRevoked :
      (st : Store) (key : Text) (now : ℕ) (o : Option ApiKeyRecord)
      → IsRevoked id st
      → IsRevoked id (revoke_if s st key now o).0
  revoke_if-IsRevoked st key now none h = h
  revoke_if-IsRevoked st key now (some r) h = revoke_found-IsRevoked s.key_provider st key r now h

  replace_found-IsRevoked :
      (st : Store) (key raw : Text) (o : Option ApiKeyRecord)
      → IsRevoked id st
      → IsRevoked id (replace_found s st key raw o).0
  replace_found-IsRevoked st key raw none h = h
  replace_found-IsRevoked st key raw (some r) h =
      All-map_if id key (set_upstream_key s raw) st.rows (λ r k. unfold set_upstream_key in k) h

  replace-IsRevoked :
      (st : Store) (key raw : Text)
      → IsRevoked id st
      → IsRevoked id (replace_upstream_key s st key raw).0
  unfolding replace_upstream_key
  replace-IsRevoked st key raw h = elim (Bool-cases (is_valid_key (strip raw))) [
    | inl e ↦ rw e (replace_found-IsRevoked st key (strip raw) (find_by_id key st.rows) h)
    | inr e ↦ rw e h
  ]

  replace_one-IsRevoked :
      (st : Store) (key : Text) (o : Option ApiKeyRecord)
      → IsRevoked id st
      → IsRevoked id (replace_one s st key o)
  replace_one-IsRevoked st key none h = h
  replace_one-IsRevoked st key (some r) h = replace-IsRevoked st r.id key h

  bulk-IsRevoked :
      (st : Store) (rows : List (Text × Text))
      → IsRevoked id st
      → IsRevoked id (bulk_replace s st rows)
  unfolding bulk_replace
  bulk-IsRevoked st [] h = h
  bulk-IsRevoked st ((identifier, key) ∷ rows) h =
      bulk-IsRevoked (replace_one s st key (find_for_bulk_replace s st.rows identifier)) rows
        (replace_one-IsRevoked st key (find_for_bulk_replace s st.rows identifier) h)

  pub perform-IsRevoked :
      (st : Store) (op : Operation)
      → Avoids id op
      → IsRevoked id st
      → IsRevoked id (perform s st op)
  unfolding perform
  perform-IsRevoked st (creates payload d) ne h = create-IsRevoked s id st payload d ne h
  perform-IsRevoked st (revokes key now) ne h =
      unfold revoke in revoke_if-IsRevoked st key now (find_by_id key st.rows) h
  perform-IsRevoked st (deletes key) ne h =
      unfold delete_revoked in delete_found-IsRevoked id st key (find_by_id key st.rows) h
  perform-IsRevoked st (updates key fields) ne h =
      unfold update in update_found-IsRevoked id st key fields (find_by_id key st.rows) h
  perform-IsRevoked st (replaces key new) ne h = replace-IsRevoked st key new h
  perform-IsRevoked st (bulk_replaces rows) ne h = bulk-IsRevoked st rows h
