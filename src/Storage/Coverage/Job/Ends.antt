-- ===== src/Storage/Coverage/Job/Ends.antt =====
-- storage/data_governance.py: the end of the coverage job, and the records it processes until then.
use nf_safety_hub.Prelude.{
  ℕ, zero, suc, ◌+◌, ◌-◌, ◌≤◌, ◌<◌, true, false, ◌&&◌, Option, none, some, List, [], ◌∷◌, filter,
  length, length-take, ltb, leb, ◌≡◌, refl, ap, arith, Bool-cases, inl, inr, ◌⊎◌,
}
use nf_safety_hub.Prelude.Text.{Text}
use nf_safety_hub.Json.{Value}
use nf_safety_hub.Storage.Coverage.{Conversation}
use nf_safety_hub.Storage.Coverage.Job.{
  CoverageAnalysisConfig, Status, stopped, completed, is_active, DataGovernanceJob, Fault, no_fault,
  on_read, on_mark, on_commit, Surroundings, FinalWrite, written, row_missing, write_raises,
  write_end, Progress, next_conversations, analyze, final_status, loop, execute_coverage_job, Ended,
  end_round, read_round, arrived, batch_limit, run_body, is_on_read, finish, finish_if,
}

-- The status of a job that has ended, or none where the task was cancelled in some round.
abbrev pub HasEnded : Surroundings → Option Status → Type 0
HasEnded s none = (round : ℕ) × (s.is_cancelled round ≡ true)
HasEnded s (some status) = is_active status ≡ false

-- The row of the job holds the counts and this status.
pub record IsStored (p : Progress) (status : Status) : Type 0 where
  pub processed_count : p.job.processed_count ≡ p.processed
  pub marked_count : p.job.marked_count ≡ p.marked
  pub cursor_value : p.job.cursor_value ≡ p.cursor
  pub has_status : p.job.status ≡ status

-- How the function is left. It returns the status of a job that has ended, which the row holds too
-- unless it is gone; or it raises, since the last write did or the task was cancelled, and it has
-- left the status in the row as it was.
pub data Left (s : Surroundings) (before : Status) (p : Progress) : Option Status → Type 0 where
  returned :
      (status : Status)
      → is_active status ≡ false
      → (s.final_write ≡ row_missing) ⊎ IsStored p status
      → Left s before p (some status)
  raised :
      (s.final_write ≡ write_raises) ⊎ ((round : ℕ) × (s.is_cancelled round ≡ true))
      → p.job.status ≡ before
      → Left s before p none

module _ (loads : Text → Option Value) (config : CoverageAnalysisConfig) (s : Surroundings)
    (before : Status) where
  -- The loop ends within the limit of records, and the status in the row is as before.
  abbrev EndsWithin : Option (Ended loads config s) → Type 0
  EndsWithin o =
      (e : Ended loads config s) × ((o ≡ some e)
        × ((e.0.processed ≤ config.max_records) × ((e.0.job.status ≡ before) × HasEnded s e.1)))

  final_status-HasEnded :
      (status : Status) (p : Progress)
      → is_active status ≡ false
      → is_active (final_status loads config s status p) ≡ false
  unfolding final_status
  final_status-HasEnded status p h = elim (Bool-cases (leb config.max_records p.processed)) [
    | inl e ↦ rw e refl
    | inr e ↦ elim (Bool-cases (leb config.max_seconds s.elapsed_at_end)) [
      | inl f ↦ rw (e, f) refl
      | inr f ↦ rw (e, f) h
    ]
  ]

  length-next :
      (table : List Conversation) (cursor limit : ℕ)
      → length (next_conversations table cursor limit) ≤ limit
  unfolding next_conversations
  length-next table cursor limit = omega (arith, length-take limit (filter _ table))

  analyze-EndsWithin :
      (fault : Fault) (more : Progress → Option (Ended loads config s)) (p : Progress)
      (cs : List Conversation)
      → p.processed + length cs ≤ config.max_records
      → p.job.status ≡ before
      → ((q : Progress)
          → q.processed ≡ p.processed + length cs
          → q.job.status ≡ before
          → EndsWithin (more q))
      → EndsWithin (end_round loads config s more (analyze loads config s fault p cs))
  unfolding analyze
  analyze-EndsWithin no_fault more p cs h b next = next _ refl b
  analyze-EndsWithin on_read more p cs h b next = (_, (refl, (omega arith, (b, refl))))
  analyze-EndsWithin on_mark more p cs h b next = (_, (refl, (h, (b, refl))))
  analyze-EndsWithin on_commit more p cs h b next = (_, (refl, (h, (b, refl))))

  read_round-EndsWithin :
      (round : ℕ) (more : Progress → Option (Ended loads config s)) (p : Progress)
      (cs : List Conversation)
      → p.processed + length cs ≤ config.max_records
      → p.job.status ≡ before
      → ((q : Progress)
          → p.processed < q.processed
          → q.processed ≤ config.max_records
          → q.job.status ≡ before
          → EndsWithin (more q))
      → EndsWithin (read_round loads config s round more p cs)
  read_round-EndsWithin round more p [] h b next =
      (_, (refl, (omega arith, (b, final_status-HasEnded completed p refl))))
  read_round-EndsWithin round more p (c ∷ cs) h b next =
      analyze-EndsWithin (s.fault round) more p (c ∷ cs) h b
        (λ q e kept. next q (omega (arith, e)) (omega (arith, e, h)) kept)

  run_body-EndsWithin :
      (round : ℕ) (more : Progress → Option (Ended loads config s)) (p : Progress)
      → p.processed < config.max_records
      → p.job.status ≡ before
      → ((q : Progress)
          → p.processed < q.processed
          → q.processed ≤ config.max_records
          → q.job.status ≡ before
          → EndsWithin (more q))
      → EndsWithin (run_body loads config s round more p)
  run_body-EndsWithin round more p h b next = elim (Bool-cases (s.is_cancelled round)) [
    | inl c ↦ rw c (_, (refl, (omega arith, (b, (round, c)))))
    | inr c ↦ elim (Bool-cases (s.is_stopping round)) [
      | inl e ↦ rw (c, e) (_, (refl, (omega arith, (b, final_status-HasEnded stopped p refl))))
      | inr e ↦ elim (Bool-cases (is_on_read loads config s (s.fault round))) [
        | inl f ↦ rw (c, e, f) (_, (refl, (omega arith, (b, refl))))
        | inr f ↦
            rw (c, e, f)
              (read_round-EndsWithin round more p _
                (omega
                  (arith, length-next p.table p.cursor (batch_limit loads config s p.processed)))
                b next)
      ]
    ]
  ]

  loop-EndsWithin :
      (fuel round : ℕ) (p : Progress)
      → p.processed ≤ config.max_records
      → p.job.status ≡ before
      → config.max_records - p.processed < fuel
      → EndsWithin (loop loads config s fuel round p)
  unfolding loop
  loop-EndsWithin zero round p h b enough = absurd (omega arith)
  loop-EndsWithin (suc fuel) round p h b enough =
      elim (Bool-cases
        (ltb p.processed config.max_records && ltb (s.elapsed round) config.max_seconds)) [
          | inr e ↦ rw e (_, (refl, (h, (b, final_status-HasEnded completed p refl))))
          | inl e ↦ rw e (
              run_body-EndsWithin round (loop loads config s fuel (suc round))
                (arrived loads config s round p) (ground arith) b
                (λ q more bound kept. loop-EndsWithin fuel (suc round) q bound kept (omega arith)))
        ]

module _ (loads : Text → Option Value) (config : CoverageAnalysisConfig) (s : Surroundings) where
  abbrev LeftWithin : Status → Ended loads config s → Type 0
  LeftWithin before e = (e.0.processed ≤ config.max_records) × Left s before e.0 e.1

  write_end-Left :
      (before status : Status) (w : FinalWrite) (p : Progress)
      → s.final_write ≡ w
      → p.processed ≤ config.max_records
      → p.job.status ≡ before
      → is_active status ≡ false
      → LeftWithin before (write_end loads config s w p status)
  write_end-Left before status written p e h b a = (
    h,
    returned status a (
        inr (record {
          processed_count = refl;
          marked_count = refl;
          cursor_value = refl;
          has_status = refl;
        })),
  )
  write_end-Left before status row_missing p e h b a = (h, returned status a (inl e))
  write_end-Left before status write_raises p e h b a = (h, raised (inl e) b)

  finish-Left :
      (before : Status) (p : Progress) (r : Option Status)
      → p.processed ≤ config.max_records
      → p.job.status ≡ before
      → HasEnded s r
      → LeftWithin before (finish loads config s (p, r))
  finish-Left before p none h b c = (h, raised (inr c) b)
  finish-Left before p (some status) h b a = write_end-Left before status s.final_write p refl h b a

  -- The job comes to an end whatever it meets, after at most as many records as it may process.
  -- It returns the status of a job that has ended, and then its row, unless it is gone, holds this status
  -- and the counts; or it raises, since its last write raised or the task was cancelled, and then it
  -- has left the status in its row as it was.
  pub execute_coverage_job-Ends :
      (job : DataGovernanceJob) (table : List Conversation)
      → (p : Progress) × ((r : Option Status) × ((execute_coverage_job loads config s job table
              ≡ some (p, r))
            × ((p.processed ≤ config.max_records) × Left s job.status p r)))
  unfolding execute_coverage_job
  execute_coverage_job-Ends job table =
      let ((p, r), (e, (h, (b, ended)))) =
        loop-EndsWithin loads config s job.status (suc config.max_records) 0
          (record { table = table; processed = 0; marked = 0; cursor = 0; job = job }) (omega arith)
          refl (omega arith) in
      let left = finish loads config s (p, r) in
      (left.0, (left.1, (ap (finish_if loads config s) e, finish-Left job.status p r h b ended)))
