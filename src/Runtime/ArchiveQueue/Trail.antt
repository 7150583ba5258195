-- ===== src/Runtime/ArchiveQueue/Trail.antt =====
-- runtime/archive_queue.py: the audit trail, what it keeps in order and what a failing writer loses.
use nf_safety_hub.Prelude.{
  ℕ, true, false, not, ◌&&◌, ◌||◌, List, [], ◌∷◌, ◌++◌, if◌then◌else◌, leb, length, is_empty, ◌≡◌,
  refl, arith, Bool-cases, inl, inr, append-nil, append_assoc, ap, sym, ◌∙◌,
}
use nf_safety_hub.Runtime.ArchiveQueue.{
  Item, archive, audit, ArchiveQueue, Outcomes, Operation, put, collect, store, new, enqueue,
  collect_first, next_batch, archives_of, audits_of, store_audits, store_batch, run_round, perform,
  perform_all,
}

-- The writers that run in this round return.
abbrev pub IsReliable : {A B : Type 0} → Operation A B → Type 0
IsReliable (put item) = Unit
IsReliable collect = Unit
IsReliable (store o) =
    (o.capture_enabled && not o.archives_written ≡ false) × (o.audits_written ≡ true)

abbrev pub AllReliable : {A B : Type 0} → List (Operation A B) → Type 0
AllReliable [] = Unit
AllReliable (op ∷ ops) = IsReliable op × AllReliable ops

append-regroup :
    {B : Type 0} (us bs cs ds es : List B)
    → (us ++ (bs ++ (cs ++ ds))) ++ es ≡ (us ++ (bs ++ cs)) ++ (ds ++ es)
append-regroup us bs cs ds es = simp append_assoc

module _ {A B : Type 0} where
  -- The items that `enqueue` took, in their order.
  abbrev pub accepted : ArchiveQueue A B → List (Operation A B) → List (Item A B)
  accepted q [] = []
  accepted q (put item ∷ ops) =
      let rest = accepted (perform q (put item)) ops in
      if (enqueue q item).1 then item ∷ rest else rest
  accepted q (collect ∷ ops) = accepted (perform q collect) ops
  accepted q (store o ∷ ops) = accepted (perform q (store o)) ops

  -- The audits that are stored, in the batch or in the queue, in this order.
  abbrev pub trail : ArchiveQueue A B → List B
  trail q = q.stored_audits ++ (audits_of q.batch ++ audits_of q.queue)

  audits_of-append : (xs ys : List (Item A B)) → audits_of (xs ++ ys) ≡ audits_of xs ++ audits_of ys
  audits_of-append [] ys = refl
  audits_of-append (archive a ∷ xs) ys = audits_of-append xs ys
  audits_of-append (audit b ∷ xs) ys = ap (λ bs. b ∷ bs) (audits_of-append xs ys)

  audits_of-cons :
      (item : Item A B) (items : List (Item A B))
      → audits_of (item ∷ items) ≡ audits_of (item ∷ []) ++ audits_of items
  audits_of-cons (archive a) items = refl
  audits_of-cons (audit b) items = refl

  trail-collect_first :
      (items : List (Item A B)) (q : ArchiveQueue A B)
      → q.queue ≡ items
      → trail (collect_first items q) ≡ trail q
  trail-collect_first [] q e = refl
  trail-collect_first (item ∷ items) q e =
      rw (e, audits_of-append, audits_of-cons item items, append_assoc) refl

  trail-next_batch : (q : ArchiveQueue A B) → trail (next_batch q) ≡ trail q
  unfolding next_batch
  trail-next_batch q = elim (Bool-cases (leb q.batch_size (length q.batch))) [
    | inl e ↦ rw e refl
    | inr e ↦ rw e (trail-collect_first q.queue q refl)
  ]

  trail-store_audits :
      (o : Outcomes) (audits : List B) (q : ArchiveQueue A B)
      → o.audits_written ≡ true
      → trail (store_audits o audits q)
        ≡ (q.stored_audits ++ audits) ++ (audits_of q.batch ++ audits_of q.queue)
  unfolding store_audits
  trail-store_audits o [] q e = rw append-nil refl
  trail-store_audits o (b ∷ audits) q e = rw e refl

  trail-store_batch :
      (o : Outcomes) (batch : List (Item A B)) (q : ArchiveQueue A B)
      → (o.capture_enabled && not o.archives_written ≡ false)
      → o.audits_written ≡ true
      → trail (store_batch o batch q)
        ≡ (q.stored_audits ++ audits_of batch) ++ (audits_of q.batch ++ audits_of q.queue)
  unfolding store_batch
  trail-store_batch o batch q r w =
      elim (Bool-cases (is_empty (archives_of batch) || not o.capture_enabled)) [
        | inl e ↦ rw e (trail-store_audits o (audits_of batch) q w)
        | inr e ↦ elim (Bool-cases o.archives_written) [
          | inl a ↦ rw (e, a) (trail-store_audits o (audits_of batch) _ w)
          | inr a ↦ ground (arith, e, a, r)
        ]
      ]

  trail-run_round :
      (o : Outcomes) (q : ArchiveQueue A B)
      → (o.capture_enabled && not o.archives_written ≡ false)
      → o.audits_written ≡ true
      → trail (run_round o q) ≡ trail q
  unfolding run_round
  trail-run_round o q r w =
      trail-store_batch o q.batch (record q { batch = [] }) r w
      ∙ append_assoc q.stored_audits (audits_of q.batch) (audits_of q.queue)

  -- an accepted item is at the end of the trail, and a refused one leaves it as it was
  trail-enqueue :
      (q : ArchiveQueue A B) (item : Item A B) (later : List (Item A B))
      → trail (enqueue q item).0 ++ audits_of later
        ≡ trail q ++ audits_of (if (enqueue q item).1 then item ∷ later else later)
  unfolding enqueue
  trail-enqueue q item later = elim (Bool-cases (leb q.max_size (length q.queue))) [
    | inl e ↦ rw e refl
    | inr e ↦ rw e (
        rw (audits_of-append q.queue (item ∷ []), audits_of-cons item later)
          (append-regroup q.stored_audits (audits_of q.batch) (audits_of q.queue)
            (audits_of (item ∷ [])) (audits_of later)))
  ]

  trail-perform_all :
      (q : ArchiveQueue A B) (ops : List (Operation A B))
      → AllReliable ops
      → trail (perform_all q ops) ≡ trail q ++ audits_of (accepted q ops)
  unfolding perform_all
  trail-perform_all q [] h = sym (append-nil (trail q))
  trail-perform_all q (put item ∷ ops) h =
      trail-perform_all (perform q (put item)) ops h.1
      ∙ (unfold perform in trail-enqueue q item (accepted (perform q (put item)) ops))
  trail-perform_all q (collect ∷ ops) h =
      trail-perform_all (perform q collect) ops h.1
      ∙ ap (λ bs. bs ++ audits_of (accepted (perform q collect) ops))
          (unfold perform in trail-next_batch q)
  trail-perform_all q (store o ∷ ops) h =
      trail-perform_all (perform q (store o)) ops h.1
      ∙ ap (λ bs. bs ++ audits_of (accepted (perform q (store o)) ops))
          (unfold perform in trail-run_round o q h.0.0 h.0.1)

  -- While every writer that a round runs returns, no accepted audit is lost or overtaken: what is
  -- stored, then what the batch and the queue hold, are the audits that `enqueue` took, in its order.
  pub trail_lem :
      (max_size batch_size : ℕ) (ops : List (Operation A B))
      → AllReliable ops
      → trail (perform_all (new max_size batch_size) ops)
        ≡ audits_of (accepted (new max_size batch_size) ops)
  trail_lem max_size batch_size ops h =
      trail-perform_all (new max_size batch_size) ops h ∙ (unfold new in refl)
