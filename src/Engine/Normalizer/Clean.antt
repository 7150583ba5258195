-- ===== src/Engine/Normalizer/Clean.antt =====
-- What the scanners see after `TextNormalizer.normalize` of engine/normalizer.py.
use mathlib.Core.List.{reverse_aux}
use nf_safety_hub.Prelude.{
  ℕ, ◌≤◌, ◌≢◌, ◌⊎◌, Bool, true, false, not, [], ◌∷◌, filter, reverse, is_empty, All, ◌≡◌, refl,
  arith, Bool-cases, inl, inr,
}
use nf_safety_hub.Prelude.Text.{Text, strip, lstrip, is_space}
use nf_safety_hub.Engine.Normalizer.{
  is_zero_width, is_control, collapse_spaces, decode_repeatedly, normalize,
}

-- A code point from U+0020 on that is none of DEL, U+200B, U+200C, U+200D, U+2060 and U+FEFF, and no
-- white space but the blank. The controls from U+0080 to U+009F that are no white space are allowed.
abbrev pub IsClean : ℕ → Type 0
IsClean c =
    (32 ≤ c)
    × (c ≢ 127)
    × (c ≢ 0x200b)
    × (c ≢ 0x200c)
    × (c ≢ 0x200d)
    × (c ≢ 0x2060)
    × (c ≢ 0xfeff)
    × ((is_space c ≡ false) ⊎ (c ≡ 32))

abbrev IsVisible : ℕ → Type 0
IsVisible c = (is_control c ≡ false) × (is_zero_width c ≡ false)

All-not : (p : ℕ → Bool) (text : Text) → All (λ c. p c ≡ false) (filter (λ c. not (p c)) text)
All-not p [] = tt
All-not p (c ∷ cs) = elim (Bool-cases (p c)) [
  | inl e ↦ rw e (All-not p cs)
  | inr e ↦ rw e (e, All-not p cs)
]

All-both :
    (p q : ℕ → Bool) (text : Text)
    → All (λ c. p c ≡ false) text
    → All (λ c. (q c ≡ false) × (p c ≡ false)) (filter (λ c. not (q c)) text)
All-both p q [] h = tt
All-both p q (c ∷ cs) h = elim (Bool-cases (q c)) [
  | inl e ↦ rw e (All-both p q cs h.1)
  | inr e ↦ rw e ((e, h.0), All-both p q cs h.1)
]

space-IsClean : IsClean 32
space-IsClean = (
  omega arith,
  omega arith,
  omega arith,
  omega arith,
  omega arith,
  omega arith,
  omega arith,
  inr refl,
)

visible-IsClean : (c : ℕ) → IsVisible c → is_space c ≡ false → IsClean c
unfolding is_control is_zero_width is_space
visible-IsClean c h e = (
  ground arith,
  ground arith,
  ground arith,
  ground arith,
  ground arith,
  ground arith,
  ground arith,
  inl e,
)

collapse-IsClean :
    (inside : Bool) (text : Text) → All IsVisible text → All IsClean (collapse_spaces inside text)
unfolding collapse_spaces
collapse-IsClean inside [] h = tt
collapse-IsClean inside (c ∷ cs) h = elim (Bool-cases (is_space c)) [
  | inl e ↦ elim (Bool-cases inside) [
    | inl i ↦ rw (e, i) (collapse-IsClean true cs h.1)
    | inr i ↦ rw (e, i) (space-IsClean, collapse-IsClean true cs h.1)
  ]
  | inr e ↦ rw e (visible-IsClean c h.0 e, collapse-IsClean false cs h.1)
]

module _ (P : ℕ → Type 0) where
  lstrip-Keeps : (text : Text) → All P text → All P (lstrip text)
  unfolding lstrip
  lstrip-Keeps [] h = tt
  lstrip-Keeps (c ∷ cs) h = elim (Bool-cases (is_space c)) [
    | inl e ↦ rw e (lstrip-Keeps cs h.1)
    | inr e ↦ rw e h
  ]

  reverse_aux-Keeps : (text acc : Text) → All P text → All P acc → All P (reverse_aux text acc)
  reverse_aux-Keeps [] acc h k = k
  reverse_aux-Keeps (c ∷ cs) acc h k = reverse_aux-Keeps cs (c ∷ acc) h.1 (h.0, k)

  reverse-Keeps : (text : Text) → All P text → All P (reverse text)
  reverse-Keeps text h = reverse_aux-Keeps text [] h tt

  strip-Keeps : (text : Text) → All P text → All P (strip text)
  unfolding strip
  strip-Keeps text h =
      reverse-Keeps (lstrip (reverse (lstrip text)))
        (lstrip-Keeps (reverse (lstrip text)) (reverse-Keeps (lstrip text) (lstrip-Keeps text h)))

-- Whatever the decoding yields, a normalised text has no code point below U+0020, none of DEL, U+200B,
-- U+200C, U+200D, U+2060 and U+FEFF, and no white space but the blank.
pub normalize-IsClean :
    (unquote unescape nfkc : Text → Text) (text : Text)
    → All IsClean (normalize unquote unescape nfkc text)
unfolding normalize
normalize-IsClean unquote unescape nfkc text = elim (Bool-cases (is_empty text)) [
  | inl e ↦ rw e tt
  | inr e ↦ rw e (
      strip-Keeps IsClean _ (
        collapse-IsClean false _ (
          All-both is_zero_width is_control _ (
            All-not is_zero_width
              (nfkc (unescape (decode_repeatedly unquote unescape nfkc text)))))))
]
