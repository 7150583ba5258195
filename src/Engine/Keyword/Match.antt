-- ===== src/Engine/Keyword/Match.antt =====
-- What `_match_position` of engine/rules_keyword.py finds.
use nf_safety_hub.Prelude.{
  ℕ, zero, suc, ◌+◌, ◌≤◌, ◌<◌, true, false, Option, none, some, [], ◌∷◌, length, drop, ◌≡◌, ◌≢◌,
  refl, arith, Option-cases, inl, inr, ◌⊎◌,
}
use nf_safety_hub.Prelude.Text.{Text, str, ◌==◌, starts_with}
use nf_safety_hub.Engine.Keyword.{rfind, match_position}

contains_modes :
    ((str "contains" == str "exact") ≡ false) × ((str "contains" == str "prefix") ≡ false)
unfolding str ◌==◌
contains_modes = (refl, refl)

-- The keyword stands in the text at this index, and at no later one.
abbrev pub IsLastAt : Text → Text → ℕ → Type 0
IsLastAt text keyword i =
    (i ≤ length text)
    × (starts_with (drop i text) keyword ≡ true)
    × ((j : ℕ) → i < j → j ≤ length text → starts_with (drop j text) keyword ≡ false)

-- It stands nowhere.
abbrev pub IsAbsent : Text → Text → Type 0
IsAbsent text keyword = (j : ℕ) → j ≤ length text → starts_with (drop j text) keyword ≡ false

rfind-IsAbsent : (text keyword : Text) → rfind text keyword ≡ none → IsAbsent text keyword
unfolding rfind
rfind-IsAbsent [] keyword e zero le = ground arith
rfind-IsAbsent [] keyword e (suc j) le = absurd (omega arith)
rfind-IsAbsent (c ∷ cs) keyword e zero le = ground arith
rfind-IsAbsent (c ∷ cs) keyword e (suc j) le =
    rfind-IsAbsent cs keyword (ground arith) j (omega arith)

rfind-IsLastAt :
    (text keyword : Text) (i : ℕ) → rfind text keyword ≡ some i → IsLastAt text keyword i
unfolding rfind
rfind-IsLastAt [] keyword i e =
    let at : i ≡ 0 = ground arith in
    rw at (omega arith, ground arith, λ j lt le. absurd (omega arith))
rfind-IsLastAt (c ∷ cs) keyword i e = go (rfind cs keyword) refl (rfind-IsLastAt cs keyword)
  where
    go :
        (o : Option ℕ)
        → rfind cs keyword ≡ o
        → ((k : ℕ) → rfind cs keyword ≡ some k → IsLastAt cs keyword k)
        → IsLastAt (c ∷ cs) keyword i
    go (some k) q ih =
        let (le, at, later) = ih k q in
        let same : i ≡ suc k = ground arith in
        rw same (
          omega arith,
          at,
          elim [
            | zero ↦ λ lt bound. absurd (omega arith)
            | suc j ↦ λ lt bound. later j (omega arith) (omega arith)
          ],
        )
    go none q ih =
        let same : i ≡ 0 = ground arith in
        rw same (
          omega arith,
          ground arith,
          elim [
            | zero ↦ λ lt bound. absurd (omega arith)
            | suc j ↦ λ lt bound. rfind-IsAbsent cs keyword q j (omega arith)
          ],
        )

-- In the mode "contains" a keyword that is not empty is found exactly where it last stands in the
-- text, and is not found exactly if it stands nowhere.
pub match_position_contains :
    (text keyword : Text)
    → keyword ≢ []
    → ((match_position text keyword (str "contains") ≡ none) × IsAbsent text keyword)
      ⊎ ((i : ℕ) × (match_position text keyword (str "contains") ≡ some (i, i + length keyword))
          × IsLastAt text keyword i)
unfolding match_position
match_position_contains text [] ne = absurd (ne refl)
match_position_contains text (k ∷ ks) ne = elim (Option-cases (rfind text (k ∷ ks))) [
  | inl e ↦
      inl (rw contains_modes.0 (rw contains_modes.1 (rw e refl)), rfind-IsAbsent text (k ∷ ks) e)
  | inr (i, e) ↦
      inr
        (i, rw contains_modes.0 (rw contains_modes.1 (rw e refl)), rfind-IsLastAt text (k ∷ ks) i e)
]
