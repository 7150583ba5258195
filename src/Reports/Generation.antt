-- ===== src/Reports/Generation.antt =====
-- runtime/reports.py: `ReportService.generate` of several workers, as steps: a generation takes its
-- file lock and marks its report, and later, when its files are written or not, marks it again and
-- releases the lock. A clean-up may come between. No worker dies in a generation, but a task may be
-- cancelled, or the failure of a report may be one that cannot be stored either.
pub mod Invariant
use nf_safety_hub.Prelude.{
  ℕ, suc, ◌+◌, Bool, true, false, not, ◌&&◌, ◌||◌, Option, none, some, List, [], ◌∷◌, ◌++◌, filter,
  any, In, if◌then◌else◌, eqb, is_empty, ◌≡◌,
}
use nf_safety_hub.Prelude.Text.{Text, str, ◌==◌}
use nf_safety_hub.Reports.{
  GeneratedReport, ReportPeriod, Request, create_or_mark_running, mark_succeeded, mark_failed,
  cleanup_expired,
}

-- A generation under way: the name of the lock it holds and the id of its report.
pub record Generation : Type 0 where
  pub lock : Text
  pub report_id : ℕ

pub record World : Type 0 where
  pub table : List GeneratedReport
  pub next_id : ℕ
  pub generations : List Generation
  -- the ids of the reports whose generation ended without a mark
  pub lost : List ℕ

-- What the building of a report comes to: the path of its file, an error that is stored, or an
-- exception that leaves the report unmarked: a cancellation, which `except Exception` does not catch,
-- or one of `mark_failed` itself.
pub data Built : Type 0 where
  files : Text → Built
  error : Text → Built
  interrupted : Built

-- the name of the lock of a period
unfoldable pub lock_name : ReportPeriod → Text
lock_name p = str "generate_" ++ (p.report_type ++ (str "_" ++ p.label))

abbrev pub is_locked : Text → List Generation → Bool
is_locked lock generations = any (λ g. g.lock == lock) generations

abbrev pub started : World → Text → Option (List GeneratedReport × ℕ) → World
started w lock none = w
started w lock (some (table, id)) = record w {
  table = table;
  next_id = w.next_id + 1;
  generations = record { lock = lock; report_id = id } ∷ w.generations;
}

-- `generate`, to where it builds the report; nothing changes where it raises
unfoldable pub begin : (retention_days now : ℕ) → Request → ReportPeriod → World → World
unfolding create_or_mark_running lock_name
begin retention_days now q p w =
    if is_locked (lock_name p) w.generations
    then w
    else started w (lock_name p) (create_or_mark_running retention_days now q w.next_id p w.table)

abbrev pub is_same : Generation → Generation → Bool
is_same g h = g.lock == h.lock && eqb g.report_id h.report_id

abbrev pub mark : ℕ → Built → List GeneratedReport → List GeneratedReport
mark id (files path) table = mark_succeeded id path table
mark id (error message) table = mark_failed id message table
mark id interrupted table = table

abbrev pub lose : ℕ → Built → List ℕ → List ℕ
lose id (files path) lost = lost
lose id (error message) lost = lost
lose id interrupted lost = id ∷ lost

-- `generate`, from where the report is built
unfoldable pub complete : Generation → Built → World → World
unfolding mark_succeeded mark_failed
complete g built w = record w {
  table = mark g.report_id built w.table;
  generations = filter (λ h. not (is_same h g)) w.generations;
  lost = lose g.report_id built w.lost;
}

-- `cleanup_expired`, without the files
unfoldable pub clean : ℕ → World → World
unfolding cleanup_expired
clean now w = record w { table = (cleanup_expired now w.table).0 }

pub data Step : World → World → Type 0 where
  begins :
      (retention_days now : ℕ) (q : Request) (p : ReportPeriod) (w : World)
      → Step w (begin retention_days now q p w)
  completes :
      (g : Generation) (built : Built) (w : World)
      → In g w.generations
      → Step w (complete g built w)
  cleans : (now : ℕ) (w : World) → Step w (clean now w)

pub data Reach (start : World) : World → Type 0 where
  stays : Reach start start
  next : {w v : World} → Reach start w → Step w v → Reach start v
