-- ===== src/Prelude/Text/Decimal.antt =====
-- `str(n)` of a natural number.
use Prim.Native.Nat.{ℕ, zero, suc, ◌+◌, ◌/◌, ◌%◌, ◌≤◌, ◌<◌}
use mathlib.Core.Path.{◌≡◌, refl}
use mathlib.Core.Bool.{false}
use mathlib.Core.List.{[], ◌∷◌}
use mathlib.Core.Logic.{inl, inr}
use native.Mathlib.Omega.{arith}
use nf_safety_hub.Prelude.Tests.{ltb, if◌then◌else◌, Bool-cases}
use nf_safety_hub.Prelude.Lists.{All, is_empty}
use nf_safety_hub.Prelude.Text.{Text}

-- The digits of a number before those of `acc`; a number has no more digits than its successor.
unfoldable pub decimal_onto : ℕ → ℕ → Text → Text
decimal_onto zero n acc = acc
decimal_onto (suc fuel) n acc =
    let more = decimal_onto fuel (n / 10) ((48 + n % 10) ∷ acc) in
    if ltb n 10 then (48 + n) ∷ acc else more

unfoldable pub decimal : ℕ → Text
unfolding decimal_onto
decimal n = decimal_onto (suc n) n []

abbrev pub IsDigit : ℕ → Type 0
IsDigit c = (48 ≤ c) × (c < 58)

decimal_onto-IsDigit :
    (fuel n : ℕ) (acc : Text) → All IsDigit acc → All IsDigit (decimal_onto fuel n acc)
unfolding decimal_onto
decimal_onto-IsDigit zero n acc h = h
decimal_onto-IsDigit (suc fuel) n acc h = elim (Bool-cases (ltb n 10)) [
  | inl e ↦ rw e (((omega arith, ground arith)), h)
  | inr e ↦
      rw e
        (decimal_onto-IsDigit fuel (n / 10) ((48 + n % 10) ∷ acc) ((omega arith, omega arith), h))
]

pub decimal-IsDigit : (n : ℕ) → All IsDigit (decimal n)
unfolding decimal
decimal-IsDigit n = decimal_onto-IsDigit (suc n) n [] tt

decimal_onto-is_not_empty :
    (fuel n c : ℕ) (acc : Text) → is_empty (decimal_onto fuel n (c ∷ acc)) ≡ false
unfolding decimal_onto
decimal_onto-is_not_empty zero n c acc = refl
decimal_onto-is_not_empty (suc fuel) n c acc = elim (Bool-cases (ltb n 10)) [
  | inl e ↦ rw e refl
  | inr e ↦ rw e (decimal_onto-is_not_empty fuel (n / 10) (48 + n % 10) (c ∷ acc))
]

pub decimal-is_not_empty : (n : ℕ) → is_empty (decimal n) ≡ false
unfolding decimal decimal_onto
decimal-is_not_empty n = elim (Bool-cases (ltb n 10)) [
  | inl e ↦ rw e refl
  | inr e ↦ rw e (decimal_onto-is_not_empty n (n / 10) (48 + n % 10) [])
]

decimal_runs : decimal 1024 ≡ 49 ∷ 48 ∷ 50 ∷ 52 ∷ []
unfolding decimal
decimal_runs = refl
