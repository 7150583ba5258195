-- ===== src/Storage/Audit/Snippets.antt =====
-- storage/audit.py: the snippets that an audit log keeps of a text.
use nf_safety_hub.Prelude.{
  ℕ, zero, suc, ◌+◌, ◌-◌, ◌≤◌, max, min, true, false, ◌||◌, Option, none, some, [], ◌∷◌, ◌++◌,
  is_empty, take, drop, ltb, leb, length, length-take, take-append-drop, drop-drop, take-nil, ◌≡◌,
  refl, sym, ap, subst, ◌∙◌, arith, Bool-cases, inl, inr,
}
use native.Mathlib.Nat.{sub-zero, zero-sub, suc-sub-suc}
use nf_safety_hub.Prelude.Text.{Text}
use nf_safety_hub.Engine.Results.{ScannerResult}
use nf_safety_hub.Storage.Audit.{
  find_text, bounded_position, slice, window, found_window, context_snippet,
}

-- The text is a part of the other, with what stands before and after it.
abbrev pub IsPart : Text → Text → Type 0
IsPart part text = (before : Text) × ((after : Text) × (text ≡ before ++ (part ++ after)))

slice-IsPart : (text : Text) (start end : ℕ) → IsPart (slice text start end) text
slice-IsPart text start end = (
  take start text,
  (
    drop (end - start) (drop start text),
    sym (
        ap (λ t. take start text ++ t) (take-append-drop (end - start) (drop start text))
        ∙ take-append-drop start text),
  ),
)

length-slice : (text : Text) (start end : ℕ) → length (slice text start end) ≤ end - start
length-slice text start end = omega (arith, length-take (end - start) (drop start text))

take-IsPart : (n : ℕ) (text : Text) → IsPart (take n text) text
take-IsPart n text = ([], (drop n text, sym (take-append-drop n text)))

take-take : (m n : ℕ) (text : Text) → m ≤ n → take m (take n text) ≡ take m text
take-take zero n text h = refl
take-take (suc m) zero text h = absurd (omega arith)
take-take (suc m) (suc n) [] h = refl
take-take (suc m) (suc n) (c ∷ cs) h = ap (λ t. c ∷ t) (take-take m n cs (omega arith))

drop-take : (m n : ℕ) (text : Text) → drop m (take n text) ≡ take (n - m) (drop m text)
drop-take zero n text = simp sub-zero refl
drop-take (suc m) zero [] = sym (take-nil {A = ℕ} (0 - suc m))
drop-take (suc m) zero (c ∷ cs) = simp zero-sub refl
drop-take (suc m) (suc n) [] = sym (take-nil {A = ℕ} (suc n - suc m))
drop-take (suc m) (suc n) (c ∷ cs) = simp suc-sub-suc (drop-take m n cs)

-- a slice within a slice
slice-slice :
    (text : Text) (a b c d : ℕ)
    → a ≤ b
    → c ≤ d
    → b ≤ c
    → slice (slice text a d) (b - a) (c - a) ≡ slice text b c
slice-slice text a b c d ab cd bc = rw (drop-take (b - a) (d - a) (drop a text)) (
    take-take (c - a - (b - a)) (d - a - (b - a)) (drop (b - a) (drop a text)) (omega arith)
    ∙ (ap (λ t. take (c - a - (b - a)) t) (drop-drop a (b - a) text)
        ∙ (ap (λ n. take (c - a - (b - a)) (drop n text)) (omega arith)
            ∙ ap (λ n. take n (drop b text)) (omega arith))))

window-IsPart : (text : Text) (start end : ℕ) → IsPart (window text start end []) text
unfolding window
window-IsPart text start end = slice-IsPart text _ _

length-window :
    (text : Text) (start end : ℕ)
    → start ≤ end
    → length (window text start end []) ≤ end - start + 160
unfolding window
length-window text start end h =
    omega (arith, length-slice text (start - 80) (min (length text) (end + 80)))

window-keeps :
    (text : Text) (start end : ℕ)
    → start ≤ end
    → end ≤ length text
    → IsPart (slice text start end) (window text start end [])
unfolding window
window-keeps text start end h k =
    subst (λ t. IsPart t (window text start end []))
      (slice-slice text (start - 80) start end (min (length text) (end + 80)) (omega arith)
        (omega arith) h)
      (slice-IsPart (slice text (start - 80) (min (length text) (end + 80))) (start - (start - 80))
        (end - (start - 80)))

-- the part of the text that a result is about, if its position lies in the text
abbrev marked_part : Text → ScannerResult → Text
marked_part text result =
    let (start, end) = bounded_position text result.position in slice text start end

-- the longest that a result's mark may be
abbrev mark_length : ScannerResult → ℕ
mark_length result = max (result.position.1 - result.position.0) (length result.matched_text)

-- A snippet is a part of its text, no longer than the mark with 160 characters around it, and
-- holds the part of the text at the result's position.
pub record IsSnippet (text snippet : Text) (result : ScannerResult) : Type 0 where
  pub is_part : IsPart snippet text
  pub is_short : length snippet ≤ mark_length result + 160
  pub has_mark : IsPart (marked_part text result) snippet

bounded_position_lem :
    (text : Text) (position : ℕ × ℕ)
    → let b : ℕ × ℕ = bounded_position text position in
      (b.1 ≤ length text) × (b.1 - b.0 ≤ position.1 - position.0)
unfolding bounded_position
bounded_position_lem text (start, end) =
    elim (Bool-cases (leb end start || leb (length text) start)) [
      | inl e ↦ rw e (omega arith, omega arith)
      | inr e ↦ rw e (omega arith, omega arith)
    ]

nothing-IsPart :
    (text : Text) (start end : ℕ)
    → end ≤ start
    → (snippet : Text) → IsPart (slice text start end) snippet
nothing-IsPart text start end h snippet = (
  [],
  (
    snippet,
    ap (λ n. take n (drop start text) ++ snippet) (let e : 0 ≡ end - start = omega arith in e),
  ),
)

found_window-IsSnippet :
    (text matched : Text) (o : Option ℕ)
    → IsPart (found_window text matched o) text
      × (length (found_window text matched o) ≤ length matched + 160)
found_window-IsSnippet text matched none =
    (take-IsPart 160 text, omega (arith, length-take 160 text))
found_window-IsSnippet text matched (some index) = (
  window-IsPart text index (index + length matched),
  omega (arith, length-window text index (index + length matched) (omega arith)),
)

length-empty : (text : Text) → is_empty text ≡ true → length text ≡ 0
length-empty [] e = refl
length-empty (c ∷ cs) e = absurd (cc)

pub context_snippet-IsSnippet :
    (text : Text) (result : ScannerResult)
    → IsSnippet text (context_snippet text result false) result
unfolding context_snippet
context_snippet-IsSnippet text result =
    let b = bounded_position text result.position in
    let (inside, within) = bounded_position_lem text result.position in
    elim (Bool-cases (is_empty text)) [
      | inl e ↦ rw e (record {
        is_part = ([], (text, refl));
        is_short = omega arith;
        has_mark = nothing-IsPart text b.0 b.1 (omega (arith, length-empty text e, inside)) [];
      })
      | inr e ↦ elim (Bool-cases (ltb b.0 b.1)) [
        | inl f ↦
            rw (e, f)
              (record {
                is_part = window-IsPart text b.0 b.1;
                is_short = omega (arith, length-window text b.0 b.1 (ground arith), within);
                has_mark = window-keeps text b.0 b.1 (ground arith) inside;
              })
        | inr f ↦ elim (Bool-cases (is_empty result.matched_text)) [
          | inl g ↦
              rw (e, f, g)
                (record {
                  is_part = take-IsPart 160 text;
                  is_short = omega (arith, length-take 160 text);
                  has_mark = nothing-IsPart text b.0 b.1 (ground arith) _;
                })
          | inr g ↦
              let (part, short) =
                found_window-IsSnippet text result.matched_text
                  (find_text result.matched_text text) in
              rw (e, f, g)
                (record {
                  is_part = part;
                  is_short = omega (arith, short);
                  has_mark = nothing-IsPart text b.0 b.1 (ground arith) _;
                })
        ]
      ]
    ]
