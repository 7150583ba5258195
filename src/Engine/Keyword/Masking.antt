-- ===== src/Engine/Keyword/Masking.antt =====
-- What `_mask_text` of engine/rules_keyword.py shows of a keyword.
use nf_safety_hub.Prelude.{
  ℕ, suc, ◌≤◌, ◌-◌, [], ◌∷◌, ◌++◌, length, replicate, take, ◌≡◌, refl, ap, arith, length-append,
  length-drop, length-replicate,
}
use nf_safety_hub.Prelude.Text.{Text}
use nf_safety_hub.Engine.Keyword.{mask_text, last}

length-mask_text : (text : Text) → length (mask_text text) ≡ length text
unfolding mask_text
length-mask_text [] = refl
length-mask_text (c ∷ []) = refl
length-mask_text (c ∷ d ∷ []) = refl
length-mask_text (c ∷ d ∷ e ∷ cs) =
    let text = c ∷ d ∷ e ∷ cs in
    omega (
      arith,
      length-append (replicate (length text - 2) 42) (last text),
      length-replicate {0} {A = ℕ} (length text - 2) 42,
      length-drop (length text - 1) text,
    )

-- A masked keyword has the length of the keyword, and shows no more of it than its first character,
-- if there are two or more, and its last, if there are three or more: two keywords of one length
-- that agree there are masked alike.
pub mask_text_lem :
    (s t : Text)
    → length s ≡ length t
    → (2 ≤ length s → take 1 s ≡ take 1 t)
    → (3 ≤ length s → last s ≡ last t)
    → (mask_text s ≡ mask_text t) × (length (mask_text s) ≡ length s)
unfolding mask_text
mask_text_lem s t len first final = (go s t len first final, length-mask_text s)
  where
    go :
        (s t : Text)
        → length s ≡ length t
        → (2 ≤ length s → take 1 s ≡ take 1 t)
        → (3 ≤ length s → last s ≡ last t)
        → mask_text s ≡ mask_text t
    go [] [] len first final = refl
    go (c ∷ []) (c' ∷ []) len first final = refl
    go (c ∷ d ∷ []) (c' ∷ d' ∷ []) len first final = ap (λ h. h ++ 42 ∷ []) (first (omega arith))
    go (c ∷ d ∷ e ∷ cs) (c' ∷ d' ∷ e' ∷ cs') len first final =
        let same : length cs ≡ length cs' = omega arith in
        rw (final (omega arith)) (
          rw same (
            ap
              (λ h.
                h ++ (replicate (suc (suc (suc (length cs'))) - 2) 42 ++ last (c' ∷ d' ∷ e' ∷ cs')))
              (first (omega arith))))
    go _ _ len first final = absurd (omega arith)
