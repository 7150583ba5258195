-- ===== src/Prelude/Dict.antt =====
-- Python's `dict` with text keys, in insertion order: an assignment to a key that is present keeps
-- its place, a new key goes to the end.
use mathlib.Core.Path.{◌≡◌, refl, sym, subst}
use mathlib.Core.Logic.{inl, inr}
use mathlib.Core.Bool.{Bool}
use mathlib.Core.List.{List, [], ◌∷◌}
use mathlib.Core.Option.{Option, none, some}
use native.Mathlib.Omega.{arith}
use nf_safety_hub.Prelude.Tests.{if◌then◌else◌, Bool-cases}
use nf_safety_hub.Prelude.Lists.{All, filter}
use nf_safety_hub.Prelude.Text.{Text, ◌==◌, eq_iff}

abbrev pub Dict {ℓ} : Type ℓ → Type ℓ
Dict V = List (Text × V)

module _ {ℓ} {V : Type ℓ} where
  -- `d.get(key)`
  unfoldable pub lookup : Text → Dict V → Option V
  lookup key [] = none
  lookup key ((k, v) ∷ d) = if k == key then some v else lookup key d

  -- `d[key] = value`
  unfoldable pub assign : Text → V → Dict V → Dict V
  assign key v [] = (key, v) ∷ []
  assign key v ((k, w) ∷ d) = if k == key then (k, v) ∷ d else (k, w) ∷ assign key v d

  pub lookup-assign :
      (key j : Text) (v : V) (d : Dict V)
      → lookup j (assign key v d) ≡ (if key == j then some v else lookup j d)
  unfolding lookup assign
  lookup-assign key j v [] = refl
  lookup-assign key j v ((k, w) ∷ d) =
      ground (arith, eq_iff key j, eq_iff k key, eq_iff k j, lookup-assign key j v d)

-- What holds of each entry and of the new one holds of each entry after an assignment.
module _ {ℓ κ} {V : Type ℓ} (P : Text × V → Type κ) where
  pub All-assign : (key : Text) (v : V) (d : Dict V) → P (key, v) → All P d → All P (assign key v d)
  unfolding assign
  All-assign key v [] p h = (p, tt)
  All-assign key v ((k, w) ∷ d) p h = elim (Bool-cases (k == key)) [
    | inl e ↦ rw e (subst (λ x. P (x, v)) (sym ((eq_iff k key).0 e)) p, h.1)
    | inr e ↦ rw e (h.0, All-assign key v d p h.1)
  ]

  pub All-filter_entries : (test : Text × V → Bool) (d : Dict V) → All P d → All P (filter test d)
  All-filter_entries test [] h = tt
  All-filter_entries test (x ∷ d) h = elim (Bool-cases (test x)) [
    | inl e ↦ rw e (h.0, All-filter_entries test d h.1)
    | inr e ↦ rw e (All-filter_entries test d h.1)
  ]
