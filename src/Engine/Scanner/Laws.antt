-- ===== src/Engine/Scanner/Laws.antt =====
-- `ScannerOrchestrator.scan` of engine/scanner.py, against a description of its runs.
use nf_safety_hub.Prelude.{
  Bool, true, false, Option, none, some, List, [], ◌∷◌, ◌++◌, append-nil, append_assoc, any,
  any-append, All, In, here, there, ◌≡◌, refl, sym, ap, subst, ◌∙◌, arith, ◌⊎◌, inl, inr,
  Bool-cases, ◌↔◌,
}
use nf_safety_hub.Prelude.Text.{Text}
use nf_safety_hub.Engine.Results.{ScannerResult, AggregatedScanResult, blocked, any_blocked}
use nf_safety_hub.Engine.Scanner.{Scanner, ScannerOrchestrator, scan_all, scan}

-- How a loop over the scanners comes to its results: which scanners fail, block or let it go on.
pub data Run (fail_open : Bool) (text : Text) : List Scanner → List ScannerResult → Type 0 where
  done : Run fail_open text [] []
  failed :
      {s : Scanner} {ss : List Scanner} {rs : List ScannerResult}
      → fail_open ≡ true
      → s.scan text ≡ none
      → Run fail_open text ss rs
      → Run fail_open text (s ∷ ss) rs
  stopped :
      {s : Scanner} {ss : List Scanner} {rs : List ScannerResult}
      → s.scan text ≡ some rs
      → any blocked rs ≡ true
      → Run fail_open text (s ∷ ss) rs
  went_on :
      {s : Scanner} {ss : List Scanner} {all : List ScannerResult} (results rs : List ScannerResult)
      → s.scan text ≡ some results
      → any blocked results ≡ false
      → Run fail_open text ss rs
      → all ≡ results ++ rs
      → Run fail_open text (s ∷ ss) all

module _ (fail_open : Bool) (text : Text) where
  scan_all-Run :
      (acc rs : List ScannerResult) (ss : List Scanner)
      → scan_all fail_open text acc ss ≡ some rs
      → (new : List ScannerResult) × (rs ≡ acc ++ new) × Run fail_open text ss new
  unfolding scan_all
  scan_all-Run acc rs [] e = ([], ground (arith, append-nil acc), done)
  scan_all-Run acc rs (s ∷ ss) e =
      go (s.scan text) refl (Bool-cases fail_open) (scan_all-Run acc rs ss)
        (λ results. scan_all-Run (acc ++ results) rs ss)
    where
      go :
          (o : Option (List ScannerResult))
          → s.scan text ≡ o
          → (fail_open ≡ true) ⊎ (fail_open ≡ false)
          → (scan_all fail_open text acc ss ≡ some rs
              → (new : List ScannerResult) × (rs ≡ acc ++ new) × Run fail_open text ss new)
          → ((results : List ScannerResult)
              → scan_all fail_open text (acc ++ results) ss ≡ some rs
              → (new : List ScannerResult) × (rs ≡ (acc ++ results) ++ new)
                × Run fail_open text ss new)
          → (new : List ScannerResult) × (rs ≡ acc ++ new) × Run fail_open text (s ∷ ss) new
      go none q (inl open_) skip next =
          let (new, same, run) = skip (ground arith) in (new, same, failed open_ q run)
      go none q (inr closed) skip next = absurd (ground arith)
      go (some results) q mode skip next = elim (Bool-cases (any blocked results)) [
        | inl stop ↦ (results, ground arith, stopped q stop)
        | inr more ↦
            let (new, same, run) = next results (ground arith) in
            (
              results ++ new,
              same ∙ append_assoc acc results new,
              went_on results new q more run refl,
            )
      ]

  Run-scan_all :
      (acc new : List ScannerResult) (ss : List Scanner)
      → Run fail_open text ss new
      → scan_all fail_open text acc ss ≡ some (acc ++ new)
  unfolding scan_all
  Run-scan_all acc new [] done = ap some (sym (append-nil acc))
  Run-scan_all acc new (s ∷ ss) (failed open_ q run) =
      rw (q, scan_all) (rw open_ (Run-scan_all acc new ss run))
  Run-scan_all acc new (s ∷ ss) (stopped q stop) = rw (q, scan_all) (rw stop refl)
  Run-scan_all acc new (s ∷ ss) (went_on results rs q more run same) =
      rw (q, scan_all)
        (rw more (
          Run-scan_all (acc ++ results) rs ss run
          ∙ ap some (append_assoc acc results rs ∙ ap (λ t. acc ++ t) (sym same))))

  Run-blocked :
      (ss : List Scanner) (rs results : List ScannerResult) (s : Scanner)
      → Run fail_open text ss rs
      → In s ss
      → s.scan text ≡ some results
      → any blocked results ≡ true
      → any blocked rs ≡ true
  Run-blocked [] rs results t run i e stop = elim i [ ]
  Run-blocked (s ∷ ss) rs results t (failed open_ q run) here e stop = cc
  Run-blocked (s ∷ ss) rs results t (failed open_ q run) (there i) e stop =
      Run-blocked ss rs results t run i e stop
  Run-blocked (s ∷ ss) rs results t (stopped q stop) i e stop' = stop
  Run-blocked (s ∷ ss) all results t (went_on results' rs q more run same) here e stop =
      absurd (ground arith)
  Run-blocked (s ∷ ss) all results t (went_on results' rs q more run same) (there i) e stop =
      rw same (
        rw (any-append blocked results' rs)
          (ground (arith, Run-blocked ss rs results t run i e stop)))

  -- The scanner ran, and none of its results blocks.
  abbrev pub Cleared : Scanner → Type 0
  Cleared s =
      (results : List ScannerResult) × (s.scan text ≡ some results) × (any blocked results ≡ false)

  Run-Cleared :
      (ss : List Scanner) (rs : List ScannerResult)
      → fail_open ≡ false
      → Run fail_open text ss rs
      → any blocked rs ≡ false
      → All Cleared ss
  Run-Cleared [] rs closed run h = tt
  Run-Cleared (s ∷ ss) rs closed (failed open_ q run) h = absurd (cc)
  Run-Cleared (s ∷ ss) rs closed (stopped q stop) h = absurd (cc)
  Run-Cleared (s ∷ ss) all closed (went_on results rs q more run same) h = (
    (results, q, more),
    Run-Cleared ss rs closed run
        (ground (arith, ap (any blocked) same, any-append blocked results rs)),
  )

-- A scan returns exactly what some run over the registered scanners, in their order, collects from
-- the normalised text: it goes on past results that do not block, stops at the first that do, and
-- passes over a scanner that raises only in fail-open mode.
pub scan_iff :
    (o : ScannerOrchestrator) (text : Text) (a : AggregatedScanResult)
    → (scan o text ≡ some a) ↔ (
        (a.normalized_text ≡ o.normalize text)
        × Run o.fail_open (o.normalize text) o.scanners a.results)
unfolding scan
scan_iff o text a = (
  λ e. go (scan_all o.fail_open (o.normalize text) [] o.scanners) refl e,
  λ h.
      rw (Run-scan_all o.fail_open (o.normalize text) [] a.results o.scanners h.1, scan) (cc (h.0)),
)
  where
    go :
        (r : Option (List ScannerResult))
        → scan_all o.fail_open (o.normalize text) [] o.scanners ≡ r
        → scan o text ≡ some a
        → (a.normalized_text ≡ o.normalize text)
          × Run o.fail_open (o.normalize text) o.scanners a.results
    go none q e = absurd (ground arith)
    go (some rs) q e =
        let (new, same, run) = scan_all-Run o.fail_open (o.normalize text) [] rs o.scanners q in
        (ground arith, subst (Run o.fail_open (o.normalize text) o.scanners) (ground arith) run)

-- A blocking result is never lost: if some registered scanner blocks the normalised text, a scan
-- that returns is blocked, whichever scanners fail or come before it.
pub scan-blocked :
    (o : ScannerOrchestrator) (text : Text) (s : Scanner) (results : List ScannerResult)
    (a : AggregatedScanResult)
    → In s o.scanners
    → s.scan (o.normalize text) ≡ some results
    → any blocked results ≡ true
    → scan o text ≡ some a
    → any_blocked a ≡ true
unfolding any_blocked
scan-blocked o text s results a i q stop e =
    Run-blocked o.fail_open (o.normalize text) o.scanners a.results results s
      ((scan_iff o text a).0 e).1 i q stop

-- Without fail-open a scan that returns and is not blocked has run every registered scanner, and
-- none of them blocks the normalised text.
pub scan-Cleared :
    (o : ScannerOrchestrator) (text : Text) (a : AggregatedScanResult)
    → o.fail_open ≡ false
    → scan o text ≡ some a
    → any_blocked a ≡ false
    → All (Cleared o.fail_open (o.normalize text)) o.scanners
unfolding any_blocked
scan-Cleared o text a closed e clear =
    Run-Cleared o.fail_open (o.normalize text) o.scanners a.results closed
      ((scan_iff o text a).0 e).1 clear
