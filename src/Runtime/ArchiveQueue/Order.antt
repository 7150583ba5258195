-- ===== src/Runtime/ArchiveQueue/Order.antt =====
-- runtime/archive_queue.py: the bounds of the queue, the order of what it stores, and what a failing
-- writer loses.
use nf_safety_hub.Prelude.{
  max, ℕ, suc, ◌+◌, ◌≤◌, ◌<◌, not, ◌||◌, List, [], ◌∷◌, ◌++◌, leb, length, is_empty, ◌≡◌, refl,
  arith, Bool-cases, inl, inr, length-append,
}
use nf_safety_hub.Runtime.ArchiveQueue.{
  Item, ArchiveQueue, Outcomes, Operation, put, collect, store, new, enqueue, collect_first,
  next_batch, archives_of, audits_of, store_audits, store_batch, run_round, perform, perform_all,
}

length-snoc : {C : Type 0} (xs : List C) (x : C) → length (xs ++ x ∷ []) ≡ suc (length xs)
length-snoc xs x = omega (arith, length-append xs (x ∷ []))

module _ {A B : Type 0} where
  abbrev pub IsBounded : ArchiveQueue A B → Type 0
  IsBounded q =
      (length q.queue ≤ q.max_size)
      × (length q.batch ≤ q.batch_size)
      × (q.processed ≡ length q.stored_archives + length q.stored_audits)

  enqueue-IsBounded :
      (q : ArchiveQueue A B) (item : Item A B) → IsBounded q → IsBounded (enqueue q item).0
  unfolding enqueue
  enqueue-IsBounded q item (a, b, c) = elim (Bool-cases (leb q.max_size (length q.queue))) [
    | inl e ↦ rw e (a, b, c)
    | inr e ↦ rw e (ground (arith, length-snoc q.queue item), b, c)
  ]

  collect_first-IsBounded :
      (items : List (Item A B)) (q : ArchiveQueue A B)
      → length items ≤ q.max_size
      → length q.batch < q.batch_size
      → q.processed ≡ length q.stored_archives + length q.stored_audits
      → IsBounded q
      → IsBounded (collect_first items q)
  collect_first-IsBounded [] q a b c h = h
  collect_first-IsBounded (item ∷ items) q a b c h =
      (omega (arith, a), omega (arith, b, length-snoc q.batch item), c)

  next_batch-IsBounded : (q : ArchiveQueue A B) → IsBounded q → IsBounded (next_batch q)
  unfolding next_batch
  next_batch-IsBounded q (a, b, c) = elim (Bool-cases (leb q.batch_size (length q.batch))) [
    | inl e ↦ rw e (a, b, c)
    | inr e ↦ rw e (collect_first-IsBounded q.queue q a (ground arith) c (a, b, c))
  ]

  store_audits-IsBounded :
      (o : Outcomes) (audits : List B) (q : ArchiveQueue A B)
      → IsBounded q
      → IsBounded (store_audits o audits q)
  unfolding store_audits
  store_audits-IsBounded o audits q (a, b, c) =
      elim (Bool-cases (is_empty audits || not o.audits_written)) [
        | inl e ↦ rw e (a, b, c)
        | inr e ↦ rw e (a, b, omega (arith, c, length-append q.stored_audits audits))
      ]

  store_batch-IsBounded :
      (o : Outcomes) (batch : List (Item A B)) (q : ArchiveQueue A B)
      → IsBounded q
      → IsBounded (store_batch o batch q)
  unfolding store_batch
  store_batch-IsBounded o batch q (a, b, c) =
      elim (Bool-cases (is_empty (archives_of batch) || not o.capture_enabled)) [
        | inl e ↦ rw e (store_audits-IsBounded o (audits_of batch) q (a, b, c))
        | inr e ↦ elim (Bool-cases o.archives_written) [
          | inl w ↦
              rw (e, w)
                (store_audits-IsBounded o (audits_of batch) _
                  (a, b, omega (arith, c, length-append q.stored_archives (archives_of batch))))
          | inr w ↦ rw (e, w) (a, b, c)
        ]
      ]

  perform-IsBounded :
      (q : ArchiveQueue A B) (op : Operation A B) → IsBounded q → IsBounded (perform q op)
  unfolding perform
  perform-IsBounded q (put item) h = enqueue-IsBounded q item h
  perform-IsBounded q collect h = next_batch-IsBounded q h
  perform-IsBounded q (store o) (a, b, c) =
      unfold run_round in store_batch-IsBounded o q.batch _ (a, omega arith, c)

  perform_all-Keeps :
      (q : ArchiveQueue A B) (ops : List (Operation A B))
      → IsBounded q
      → IsBounded (perform_all q ops)
  unfolding perform_all
  perform_all-Keeps q [] h = h
  perform_all-Keeps q (op ∷ ops) h = perform_all-Keeps (perform q op) ops (perform-IsBounded q op h)

  abbrev HasSizes : ℕ → ℕ → ArchiveQueue A B → Type 0
  HasSizes m b q = (q.max_size ≡ m) × (q.batch_size ≡ b)

  perform-HasSizes :
      (m b : ℕ) (q : ArchiveQueue A B) (op : Operation A B)
      → HasSizes m b q
      → HasSizes m b (perform q op)
  unfolding perform enqueue next_batch run_round store_batch store_audits
  perform-HasSizes m b q (put item) h = ground (arith, h)
  perform-HasSizes m b q collect h = elim (Bool-cases (leb q.batch_size (length q.batch))) [
    | inl e ↦ rw e h
    | inr e ↦ rw e (collected q.queue)
  ]
    where
      collected : (items : List (Item A B)) → HasSizes m b (collect_first items q)
      collected [] = h
      collected (item ∷ items) = h
  perform-HasSizes m b q (store o) h = ground (arith, h)

  perform_all-HasSizes :
      (m b : ℕ) (q : ArchiveQueue A B) (ops : List (Operation A B))
      → HasSizes m b q
      → HasSizes m b (perform_all q ops)
  unfolding perform_all
  perform_all-HasSizes m b q [] h = h
  perform_all-HasSizes m b q (op ∷ ops) h =
      perform_all-HasSizes m b (perform q op) ops (perform-HasSizes m b q op h)

  -- After any operations on a new queue, the queue holds at most its configured number of items and
  -- the batch of the worker at most the configured batch size, each of them one at least, and the
  -- processed items are counted: as many as the writers have stored.
  pub perform_all-IsBounded :
      (max_size batch_size : ℕ) (ops : List (Operation A B))
      → let q : ArchiveQueue A B = perform_all (new max_size batch_size) ops in
        (length q.queue ≤ max 1 max_size)
        × (length q.batch ≤ max 1 batch_size)
        × (q.processed ≡ length q.stored_archives + length q.stored_audits)
  perform_all-IsBounded max_size batch_size ops =
      let (a, b, c) : IsBounded (perform_all (new max_size batch_size) ops) =
        perform_all-Keeps (new max_size batch_size) ops
          (unfold new in (omega arith, omega arith, refl)) in
      let (m, n) : HasSizes (max 1 max_size) (max 1 batch_size)
          (perform_all (new max_size batch_size) ops) =
        perform_all-HasSizes (max 1 max_size) (max 1 batch_size) (new max_size batch_size) ops
          (unfold new in (refl, refl)) in
      (rw m at a, rw n at b, c)
