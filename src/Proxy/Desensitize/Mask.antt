-- ===== src/Proxy/Desensitize/Mask.antt =====
-- What `_mask_phone_match` and `pattern.sub` of proxy/relay.py show of a text.
use nf_safety_hub.Prelude.{
  ℕ, zero, suc, ◌+◌, ◌-◌, ◌≤◌, Bool, true, false, List, [], ◌∷◌, ◌++◌, append-nil, if◌then◌else◌,
  filter, take, drop, length, replicate, leb, ◌≡◌, refl, arith, Bool-cases, inl, inr, All, All-take,
  All-drop, All-filter, filter-All, filter-append, length-append, length-take, length-drop,
  take-append-drop, drop-drop,
}
use nf_safety_hub.Prelude.Text.{Text}
use nf_safety_hub.Proxy.Desensitize.{Span, mask_phone_match, sub_from}

module _ (digit : ℕ → Bool) where
  abbrev AllDigits : Text → Type 0
  AllDigits t = All (λ c. digit c ≡ true) t

  filter-stars : (n : ℕ) → digit 42 ≡ false → filter digit (replicate n 42) ≡ []
  filter-stars zero h = refl
  filter-stars (suc n) h = rw h (filter-stars n h)

  shown_digits :
      (ds : Text)
      → digit 42 ≡ false
      → AllDigits ds
      → 7 ≤ length ds
      → length (filter digit (take 3 ds ++ (replicate 4 42 ++ drop (length ds - 4) ds))) ≡ 7
  shown_digits ds star h long =
      simp
        (
          filter-append,
          star,
          filter-All digit (take 3 ds) (All-take _ 3 ds h),
          filter-All digit (drop (length ds - 4) ds) (All-drop _ (length ds - 4) ds h),
        )
        (omega (
          arith,
          length-append (take 3 ds) (drop (length ds - 4) ds),
          length-take 3 ds,
          length-drop (length ds - 4) ds,
        ))

  -- A match shows none of its digits if it has at most seven, and exactly seven of them otherwise,
  -- whatever else stands in it, where "*" is no digit.
  pub digits-mask_phone_match :
      (value : Text)
      → digit 42 ≡ false
      → length (filter digit (mask_phone_match digit value))
        ≡ (if leb (length (filter digit value)) 7 then 0 else 7)
  unfolding mask_phone_match
  digits-mask_phone_match value star = elim (Bool-cases (leb (length (filter digit value)) 7)) [
    | inl short ↦ rw short (rw (filter-stars (length value) star) refl)
    | inr long ↦
        rw long (shown_digits (filter digit value) star (All-filter digit value) (ground arith))
  ]

-- A text cut into what a substitution keeps and what it masks.
pub data Piece : Type 0 where
  kept : Text → Piece
  masked : Text → Piece

abbrev pub plain : List Piece → Text
plain [] = []
plain (kept t ∷ ps) = t ++ plain ps
plain (masked t ∷ ps) = t ++ plain ps

abbrev pub shown : (ℕ → Bool) → List Piece → Text
shown digit [] = []
shown digit (kept t ∷ ps) = t ++ shown digit ps
shown digit (masked t ∷ ps) = mask_phone_match digit t ++ shown digit ps

-- The spans are disjoint, in order and begin at `pos` or later.
abbrev pub InOrder : ℕ → List Span → Type 0
InOrder pos [] = Unit
InOrder pos (m ∷ ms) = (pos ≤ m.start) × (m.start ≤ m.stop) × InOrder m.stop ms

pieces : ℕ → Text → List Span → List Piece
pieces pos rest [] = kept rest ∷ []
pieces pos rest (m ∷ ms) =
    kept (take (m.start - pos) rest)
    ∷ masked (take (m.stop - m.start) (drop (m.start - pos) rest))
    ∷ pieces m.stop (drop (m.stop - pos) rest) ms

cut_twice :
    (i j k : ℕ) (xs : Text) → i + j ≡ k → take i xs ++ (take j (drop i xs) ++ drop k xs) ≡ xs
cut_twice i j k xs e =
    rw (← e) (rw (← drop-drop i j xs) (rw (take-append-drop j (drop i xs)) (take-append-drop i xs)))

plain-pieces :
    (pos : ℕ) (rest : Text) (ms : List Span) → InOrder pos ms → plain (pieces pos rest ms) ≡ rest
unfolding pieces
plain-pieces pos rest [] h = append-nil rest
plain-pieces pos rest (m ∷ ms) h =
    rw (plain-pieces m.stop (drop (m.stop - pos) rest) ms h.2)
      (cut_twice (m.start - pos) (m.stop - m.start) (m.stop - pos) rest (omega arith))

shown-pieces :
    (digit : ℕ → Bool) (pos : ℕ) (rest : Text) (ms : List Span)
    → shown digit (pieces pos rest ms) ≡ sub_from digit pos rest ms
unfolding pieces sub_from
shown-pieces digit pos rest [] = append-nil rest
shown-pieces digit pos rest (m ∷ ms) =
    rw (shown-pieces digit m.stop (drop (m.stop - pos) rest) ms) refl

-- A substitution over the spans of the matches, in order and disjoint, cuts the text into pieces
-- of which it keeps some and masks the others: read plainly the pieces are the text, and masked
-- they are the result.
pub sub_from_pieces :
    (digit : ℕ → Bool) (text : Text) (ms : List Span)
    → InOrder 0 ms
    → (ps : List Piece) × (plain ps ≡ text) × (shown digit ps ≡ sub_from digit 0 text ms)
sub_from_pieces digit text ms h =
    (pieces 0 text ms, plain-pieces 0 text ms h, shown-pieces digit 0 text ms)
