-- ===== src/Storage/Training/Cleanup/Exact.antt =====
-- storage/training.py: which conversations a clean-up deletes.
use nf_safety_hub.Prelude.{
  ℕ, ◌≤◌, Bool, true, false, not, ◌&&◌, List, [], any, eqb, In, In-filter, In-filter_inverse, ◌≡◌,
  refl, ◌↔◌,
}
use nf_safety_hub.Prelude.Int.{ℤ}
use nf_safety_hub.Storage.Query.{count, delete_ids}
use nf_safety_hub.Storage.Query.Sorted.{delete_ids-keeps, delete_ids-clears}
use nf_safety_hub.Storage.Training.Reader.{StoredConversation, is_row_covered, is_row_expired}
use nf_safety_hub.Storage.Training.Cleanup.{
  safe_limit, select_covered, select_expired, covered_ids, expired_ids, cleanup,
}

abbrev pub HasDistinctIds : List StoredConversation → Type 0
HasDistinctIds table = (a b : StoredConversation) → In a table → In b table → a.id ≡ b.id → a ≡ b

delete_none :
    (a : StoredConversation) (rows : List StoredConversation)
    → In a rows
    → In a (delete_ids (λ b. b.id) [] rows)
unfolding delete_ids
delete_none a rows i = In-filter (λ b. not (any (eqb b.id) [])) rows i refl

module _ (table : List StoredConversation) (distinct : HasDistinctIds table) where
  covered_ids-keeps :
      (include : Bool) (limit : ℕ) (rows : List StoredConversation) (a : StoredConversation)
      → In a table
      → (include && is_row_covered a) ≡ false
      → In a rows
      → In a (delete_ids (λ b. b.id) (covered_ids include limit table) rows)
  unfolding covered_ids select_covered
  covered_ids-keeps false limit rows a i h j = delete_none a rows j
  covered_ids-keeps true limit rows a i h j =
      delete_ids-keeps (λ b. b.id) _ _ limit table rows a distinct i h j

  expired_ids-keeps :
      (include : Bool) (now limit : ℕ) (rows : List StoredConversation) (a : StoredConversation)
      → In a table
      → (include && is_row_expired now a) ≡ false
      → In a rows
      → In a (delete_ids (λ b. b.id) (expired_ids include now limit table) rows)
  unfolding expired_ids select_expired
  expired_ids-keeps false now limit rows a i h j = delete_none a rows j
  expired_ids-keeps true now limit rows a i h j =
      delete_ids-keeps (λ b. b.id) _ _ limit table rows a distinct i h j

  cleanup-keeps :
      (include_covered include_expired : Bool) (now : ℕ) (limit : ℤ) (a : StoredConversation)
      → In a table
      → (include_covered && is_row_covered a) ≡ false
      → (include_expired && is_row_expired now a) ≡ false
      → In a (cleanup include_covered include_expired now limit table).0
  unfolding cleanup
  cleanup-keeps include_covered include_expired now limit a i c e =
      expired_ids-keeps include_expired now (safe_limit limit) _ a i e
        (covered_ids-keeps include_covered (safe_limit limit) table a i c i)

  -- A clean-up of both kinds, if neither kind has more rows than its limit, leaves of a table with
  -- distinct ids just the conversations that are neither covered nor expired.
  pub cleanup_lem :
      (now : ℕ) (limit : ℤ) (a : StoredConversation)
      → In a table
      → count is_row_covered table ≤ safe_limit limit
      → count (is_row_expired now) table ≤ safe_limit limit
      → In a (cleanup true true now limit table).0
        ↔ ((is_row_covered a ≡ false) × (is_row_expired now a ≡ false))
  unfolding cleanup covered_ids expired_ids select_covered select_expired
  cleanup_lem now limit a i few_covered few_expired = (
    (λ j. (
      delete_ids-clears (λ b. b.id) _ _ (safe_limit limit) table table a few_covered i
          (unfold delete_ids in In-filter_inverse a _ _ j),
      delete_ids-clears (λ b. b.id) _ _ (safe_limit limit) table _ a few_expired i j,
    )),
    λ h. cleanup-keeps true true now limit a i h.0 h.1,
  )
