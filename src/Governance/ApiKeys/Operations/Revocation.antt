-- ===== src/Governance/ApiKeys/Operations/Revocation.antt =====
-- governance/api_keys.py with middleware/identity.py: what a revocation means for later requests.
use nf_safety_hub.Prelude.{
  ℕ, Bool, true, false, Option, none, some, List, [], ◌∷◌, is_empty, eqb, All, In, here, there, ◌≡◌,
  ◌≢◌, refl, sym, ◌∙◌, arith, Bool-cases, inl, inr,
}
use nf_safety_hub.Prelude.Text.{Text, str, ◌==◌, eq_iff, starts_with}
use nf_safety_hub.Proxy.Relay.{RequestIdentity}
use nf_safety_hub.Governance.ApiKeys.{
  ApiKeyRecord, KeyProvider, Service, Store, returned, find_by_id, update_row, is_record_active,
}
use nf_safety_hub.Governance.ApiKeys.Operations.{
  mark_revoked, upstream_key_of, revoke_found, revoke_if, revoke,
}
use nf_safety_hub.Governance.ApiKeys.Operations.Creation.{StaysRevoked, IsRevoked}
use nf_safety_hub.Governance.ApiKeys.Operations.Lifecycle.{
  Operation, perform, Avoids, perform-IsRevoked,
}
use nf_safety_hub.Governance.Identity.{passes, dispatch, IsAuthentic, dispatch-IsAuthentic}

unfoldable pub perform_all : Service → Store → List Operation → Store
perform_all s st [] = st
perform_all s st (op ∷ ops) = perform_all s (perform s st op) ops

abbrev pub AllAvoid : Text → List Operation → Type 0
AllAvoid id [] = Unit
AllAvoid id (op ∷ ops) = Avoids id op × AllAvoid id ops

perform_all-IsRevoked :
    (s : Service) (id : Text) (st : Store) (ops : List Operation)
    → AllAvoid id ops
    → IsRevoked id st
    → IsRevoked id (perform_all s st ops)
unfolding perform_all
perform_all-IsRevoked s id st [] a h = h
perform_all-IsRevoked s id st (op ∷ ops) a h =
    perform_all-IsRevoked s id (perform s st op) ops a.1 (perform-IsRevoked s id st op a.0 h)

marked-IsRevoked :
    (id : Text) (now : ℕ) (rows : List ApiKeyRecord)
    → All (StaysRevoked id) (update_row id (mark_revoked now) rows)
unfolding update_row mark_revoked
marked-IsRevoked id now [] = tt
marked-IsRevoked id now (r ∷ rows) = elim (Bool-cases (r.id == id)) [
  | inl e ↦ rw e ((λ q. refl), marked-IsRevoked id now rows)
  | inr e ↦
      rw e ((λ q. absurd (ground (arith, e, q, eq_iff r.id id))), marked-IsRevoked id now rows)
]

revoke_found-Marks :
    (s : Service) (p : Option KeyProvider) (st : Store) (id : Text) (r row : ApiKeyRecord) (now : ℕ)
    → (revoke_found s p st id r now).1 ≡ returned row
    → IsRevoked id (revoke_found s p st id r now).0
revoke_found-Marks s none st id r row now e = marked-IsRevoked id now st.rows
revoke_found-Marks s (some p) st id r row now e =
    elim (Bool-cases (is_empty (upstream_key_of s p r))) [
      | inl a ↦ rw a (marked-IsRevoked id now st.rows)
      | inr a ↦ elim (Bool-cases (p.revoke_key (upstream_key_of s p r))) [
        | inl b ↦ rw (a, b) (marked-IsRevoked id now st.rows)
        | inr b ↦ absurd (ground (arith, a, b, e))
      ]
    ]

revoke_if-Marks :
    (s : Service) (st : Store) (id : Text) (row : ApiKeyRecord) (now : ℕ) (o : Option ApiKeyRecord)
    → (revoke_if s st id now o).1 ≡ returned row
    → IsRevoked id (revoke_if s st id now o).0
revoke_if-Marks s st id row now none e = absurd (cc e)
revoke_if-Marks s st id row now (some r) e = revoke_found-Marks s s.key_provider st id r row now e

All-In : {A : Type 0} (P : A → Type 0) (a : A) (xs : List A) → In a xs → All P xs → P a
All-In P a [] i h = elim i [ ]
All-In P a (x ∷ xs) here h = h.0
All-In P a (x ∷ xs) (there i) h = All-In P a xs i h.1

revoked_not_active :
    (r : ApiKeyRecord) (now : ℕ) → r.status ≡ str "revoked" → is_record_active r now ≡ false
unfolding is_record_active str ◌==◌
revoked_not_active r now e = rw e refl

-- Once the revocation of a key has returned, no request under /v1/ is ever let pass as that key
-- again while there are keys, whatever calls of the service come in between, as long as none draws the id of that key
-- for a new one.
pub revoke-IsFinal :
    (s : Service) (st : Store) (id : Text) (row : ApiKeyRecord) (revoked_at : ℕ)
    (ops : List Operation) (count : ℕ) (allow_empty : Bool) (now : ℕ) (path authorization : Text)
    (i : RequestIdentity)
    → (revoke s st id revoked_at).1 ≡ returned row
    → AllAvoid id ops
    → starts_with path (str "/v1/") ≡ true
    → eqb count 0 ≡ false
    → dispatch s
        (perform_all s (revoke s st id revoked_at).0 ops).rows
        count
        allow_empty
        now
        path
        authorization
      ≡ passes i
    → i.api_key_id ≢ id
revoke-IsFinal s st id row revoked_at ops count allow_empty now path authorization i e a v1 keys p
      q =
    let marked : IsRevoked id (revoke s st id revoked_at).0 =
      unfold revoke in revoke_if-Marks s st id row revoked_at (find_by_id id st.rows) e in
    let authentic : IsAuthentic s (perform_all s (revoke s st id revoked_at).0 ops).rows now
        authorization i =
      dispatch-IsAuthentic s _ count allow_empty now path authorization i v1 keys p in
    let status : authentic.row.status ≡ str "revoked" =
      All-In (StaysRevoked id) authentic.row _ authentic.stored
        (perform_all-IsRevoked s id _ ops a marked) (sym authentic.identified ∙ q) in
    cc (authentic.active, revoked_not_active authentic.row now status)
