-- ===== src/Engine/Scanner.antt =====
-- engine/base.py and engine/scanner.py: the scanner interface and `ScannerOrchestrator`.
-- A scan that raises is `none`; an orchestrator's scan that raises `ScannerUnavailableError` too.
pub mod Laws
use nf_safety_hub.Prelude.{
  Bool, true, false, Option, none, some, List, [], ◌∷◌, ◌++◌, append-nil, append_assoc,
  if◌then◌else◌, any, All, In, here, there, ◌≡◌, ◌≢◌, refl, sym, ap, ◌∙◌, arith, ◌⊎◌, inl, inr,
  Bool-cases, ◌||◌,
}
use nf_safety_hub.Prelude.Text.{Text}
use nf_safety_hub.Engine.Results.{ScannerResult, AggregatedScanResult, blocked, any_blocked}
use nf_safety_hub.Proxy.Desensitize.{Pattern}

-- `BaseScanner`, and `desensitize_patterns` where the scanner has that method.
pub record Scanner : Type 0 where
  pub name : Text
  pub scan : Text → Option (List ScannerResult)
  pub desensitize_patterns : Option (List Pattern)

pub record ScannerOrchestrator : Type 0 where
  pub scanners : List Scanner
  pub normalize : Text → Text
  pub fail_open : Bool

pub register : ScannerOrchestrator → Scanner → ScannerOrchestrator
register o scanner = record o { scanners = o.scanners ++ scanner ∷ [] }

pub register_many : ScannerOrchestrator → List Scanner → ScannerOrchestrator
register_many o [] = o
register_many o (s ∷ ss) = register_many (register o s) ss

-- the loop of `scan`
unfoldable pub scan_all :
    Bool → Text → List ScannerResult → List Scanner → Option (List ScannerResult)
scan_all fail_open text acc [] = some acc
scan_all fail_open text acc (s ∷ ss) = elim (s.scan text) [
  | none ↦ if fail_open then scan_all fail_open text acc ss else none
  | some results ↦
      if any blocked results
      then some (acc ++ results)
      else scan_all fail_open text (acc ++ results) ss
]

abbrev aggregated : Text → Option (List ScannerResult) → Option AggregatedScanResult
aggregated text none = none
aggregated text (some results) = some (record { results = results; normalized_text = text })

-- `ScannerOrchestrator.scan`
unfoldable pub scan : ScannerOrchestrator → Text → Option AggregatedScanResult
unfolding scan_all
scan o text =
    let normalized = o.normalize text in
    aggregated normalized (scan_all o.fail_open normalized [] o.scanners)
