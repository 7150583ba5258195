-- ===== src/Reports/Generation/Invariant.antt =====
-- runtime/reports.py: the reports that are marked as running, and the generations under way.
use nf_safety_hub.Prelude.{
  ℕ, Bool, false, not, Option, none, some, List, [], ◌∷◌, filter, find, eqb, eqb_iff, All,
  All-append, All-map_impl, All-filter_impl, In, here, there, In-filter, ◌≡◌, refl, sym, subst,
  arith, ◌⊎◌, inl, inr, Bool-cases,
}
use nf_safety_hub.Prelude.Text.{Text}
use nf_safety_hub.Reports.{
  GeneratedReport, ReportPeriod, Request, is_running, is_of, mark_running, change, mark_found,
  create_or_mark_running, mark_succeeded, mark_failed, cleanup_expired,
}
use nf_safety_hub.Reports.Generation.{
  Generation, World, Built, files, error, interrupted, lose, lock_name, is_locked, started, begin,
  is_same, mark, complete, clean, Step, begins, completes, cleans, Reach, stays, next,
}

-- The report is not running, or a generation under way is to mark it, or one left it unmarked.
abbrev pub IsAttended : List Generation → List ℕ → GeneratedReport → Type 0
IsAttended gs lost r =
    (is_running r.status ≡ false)
    ⊎ (((g : Generation) × (In g gs × (g.report_id ≡ r.id))) ⊎ In r.id lost)

abbrev pub HoldDistinct : List Generation → Type 0
HoldDistinct [] = Unit
HoldDistinct (g ∷ gs) = (is_locked g.lock gs ≡ false) × HoldDistinct gs

-- Each running report is attended to or lost, and no two generations hold one lock.
abbrev pub IsAttendedWorld : World → Type 0
IsAttendedWorld w = All (IsAttended w.generations w.lost) w.table × HoldDistinct w.generations

All-change :
    (P Q : GeneratedReport → Type 0) (id : ℕ) (f : GeneratedReport → GeneratedReport)
    (table : List GeneratedReport)
    → ((r : GeneratedReport) → P r → r.id ≡ id → Q (f r))
    → ((r : GeneratedReport) → P r → eqb r.id id ≡ false → Q r)
    → All P table
    → All Q (change id f table)
All-change P Q id f [] on_it on_others h = tt
All-change P Q id f (r ∷ rs) on_it on_others h = elim (Bool-cases (eqb r.id id)) [
  | inl e ↦ rw e (on_it r h.0 ((eqb_iff r.id id).0 e), All-change P Q id f rs on_it on_others h.1)
  | inr e ↦ rw e (on_others r h.0 e, All-change P Q id f rs on_it on_others h.1)
]

IsAttended-later :
    (g : Generation) (gs : List Generation) (lost : List ℕ) (r : GeneratedReport)
    → IsAttended gs lost r
    → IsAttended (g ∷ gs) lost r
IsAttended-later g gs lost r (inl e) = inl e
IsAttended-later g gs lost r (inr (inl (h, (i, e)))) = inr (inl (h, (there i, e)))
IsAttended-later g gs lost r (inr (inr i)) = inr (inr i)

started-IsAttendedWorld :
    (w : World) (lock : Text) (q : Request) (expires_at : ℕ) (p : ReportPeriod)
    (o : Option GeneratedReport)
    → is_locked lock w.generations ≡ false
    → IsAttendedWorld w
    → IsAttendedWorld (started w lock (mark_found q expires_at w.next_id p w.table o))
unfolding mark_running
started-IsAttendedWorld w lock q expires_at p none free (attended, distinct) = (
  All-append _ w.table _
      (All-map_impl _ _ w.table (IsAttended-later _ w.generations w.lost) attended)
      (inr (inl (_, (here, refl))), tt),
  (free, distinct),
)
started-IsAttendedWorld w lock q expires_at p (some r) free (attended, distinct) =
    elim (Bool-cases (is_running r.status)) [
      | inl e ↦ rw e (attended, distinct)
      | inr e ↦ rw e (
        All-change _ _ r.id _ w.table (λ s a same. inr (inl (_, (here, sym same))))
            (λ s a other. IsAttended-later _ w.generations w.lost s a) attended,
        (free, distinct),
      )
    ]

begin-IsAttendedWorld :
    (retention_days now : ℕ) (q : Request) (p : ReportPeriod) (w : World)
    → IsAttendedWorld w
    → IsAttendedWorld (begin retention_days now q p w)
unfolding begin create_or_mark_running
begin-IsAttendedWorld retention_days now q p w h =
    elim (Bool-cases (is_locked (lock_name p) w.generations)) [
      | inl e ↦ rw e h
      | inr e ↦ rw e (started-IsAttendedWorld w (lock_name p) q _ p (find (is_of p) w.table) e h)
    ]

IsAttended-other :
    (g : Generation) (gs : List Generation) (lost : List ℕ) (r : GeneratedReport)
    → IsAttended gs lost r
    → eqb r.id g.report_id ≡ false
    → IsAttended (filter (λ h. not (is_same h g)) gs) lost r
IsAttended-other g gs lost r (inl e) other = inl e
IsAttended-other g gs lost r (inr (inr i)) other = inr (inr i)
IsAttended-other g gs lost r (inr (inl (h, (i, e)))) other =
    inr (inl (h, (In-filter (λ k. not (is_same k g)) gs i (ground (arith, e, other)), e)))

-- A report that its generation leaves unmarked is lost, and the others are attended to as before.
IsAttended-lost :
    (g : Generation) (gs : List Generation) (lost : List ℕ) (r : GeneratedReport)
    → IsAttended gs lost r
    → IsAttended (filter (λ h. not (is_same h g)) gs) (g.report_id ∷ lost) r
IsAttended-lost g gs lost r a = elim (Bool-cases (eqb r.id g.report_id)) [
  | inl e ↦
      let same : g.report_id ≡ r.id = sym ((eqb_iff r.id g.report_id).0 e) in
      inr (inr (subst (λ i. In i (g.report_id ∷ lost)) same here))
  | inr e ↦ elim (IsAttended-other g gs lost r a e) [
    | inl q ↦ inl q
    | inr (inl q) ↦ inr (inl q)
    | inr (inr i) ↦ inr (inr (there i))
  ]
]

mark-Attended :
    (g : Generation) (built : Built) (gs : List Generation) (lost : List ℕ)
    (table : List GeneratedReport)
    → All (IsAttended gs lost) table
    → All
        (IsAttended (filter (λ h. not (is_same h g)) gs) (lose g.report_id built lost))
        (mark g.report_id built table)
unfolding mark_succeeded mark_failed
mark-Attended g (files path) gs lost table h =
    All-change _ _ g.report_id _ table (λ r a same. inl refl)
      (λ r a other. IsAttended-other g gs lost r a other) h
mark-Attended g (error message) gs lost table h =
    All-change _ _ g.report_id _ table (λ r a same. inl refl)
      (λ r a other. IsAttended-other g gs lost r a other) h
mark-Attended g interrupted gs lost table h = All-map_impl _ _ table (IsAttended-lost g gs lost) h

unlocked-filter :
    (lock : Text) (p : Generation → Bool) (gs : List Generation)
    → is_locked lock gs ≡ false
    → is_locked lock (filter p gs) ≡ false
unlocked-filter lock p [] h = refl
unlocked-filter lock p (g ∷ gs) h = ground (arith, unlocked-filter lock p gs)

filter-HoldDistinct :
    (p : Generation → Bool) (gs : List Generation) → HoldDistinct gs → HoldDistinct (filter p gs)
filter-HoldDistinct p [] h = tt
filter-HoldDistinct p (g ∷ gs) h = elim (Bool-cases (p g)) [
  | inl e ↦ rw e (unlocked-filter g.lock p gs h.0, filter-HoldDistinct p gs h.1)
  | inr e ↦ rw e (filter-HoldDistinct p gs h.1)
]

Step-IsAttendedWorld : (w v : World) → Step w v → IsAttendedWorld w → IsAttendedWorld v
unfolding complete clean cleanup_expired
Step-IsAttendedWorld w v (begins retention_days now q p w') h =
    begin-IsAttendedWorld retention_days now q p w h
Step-IsAttendedWorld w v (completes g built w' i) h = (
  mark-Attended g built w.generations w.lost w.table h.0,
  filter-HoldDistinct _ w.generations h.1,
)
Step-IsAttendedWorld w v (cleans now w') h = (All-filter_impl _ _ _ w.table (λ r a t. a) h.0, h.1)

-- Whatever generations of any workers begin and end, and whatever clean-ups come between, each report
-- that is marked as running has a generation under way that is to mark it, or was left unmarked by
-- one that was cancelled or whose failure could not be stored; and no two generations hold one lock,
-- if so it was at the start.
pub Reach-IsAttendedWorld :
    (start w : World) → Reach start w → IsAttendedWorld start → IsAttendedWorld w
Reach-IsAttendedWorld start w stays h = h
Reach-IsAttendedWorld start v (next {w = w} reach step) h =
    Step-IsAttendedWorld w v step (Reach-IsAttendedWorld start w reach h)
