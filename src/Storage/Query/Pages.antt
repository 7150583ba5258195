-- ===== src/Storage/Query/Pages.antt =====
-- The pages of a query, one after the other.
use nf_safety_hub.Prelude.{
  ℕ, zero, suc, ◌+◌, ◌*◌, ◌≤◌, min, Bool, List, [], ◌∷◌, ◌++◌, filter, length, take, drop,
  drop-drop, take-nil, ◌≡◌, refl, sym, ap, ◌∙◌, arith, Bool-cases, inl, inr,
}
use native.Mathlib.Nat.{zero-add, suc-add, zero-mul, suc-mul}
use nf_safety_hub.Prelude.Int.{pos, at_least}
use nf_safety_hub.Storage.Query.{insert_by, sort_by, select_page}

clamped : (limit : ℕ) → 1 ≤ limit → limit ≤ 100 → min (at_least 1 (pos limit)) 100 ≡ limit
unfolding at_least
clamped limit low high = omega arith

clamped_offset : (offset : ℕ) → at_least 0 (pos offset) ≡ offset
unfolding at_least
clamped_offset offset = omega arith

module _ {A : Type 0} where
  length-insert_by :
      (before : A → A → Bool) (a : A) (xs : List A)
      → length (insert_by before a xs) ≡ suc (length xs)
  length-insert_by before a [] = refl
  length-insert_by before a (x ∷ xs) = elim (Bool-cases (before x a)) [
    | inl e ↦ rw e (ap suc (length-insert_by before a xs))
    | inr e ↦ rw e refl
  ]

  pub length-sort_by :
      (before : A → A → Bool) (xs : List A) → length (sort_by before xs) ≡ length xs
  length-sort_by before [] = refl
  length-sort_by before (x ∷ xs) =
      length-insert_by before x (sort_by before xs) ∙ ap suc (length-sort_by before xs)

  pub take-long : (n : ℕ) (xs : List A) → length xs ≤ n → take n xs ≡ xs
  take-long zero [] h = refl
  take-long (suc n) [] h = refl
  take-long zero (x ∷ xs) h = absurd (omega arith)
  take-long (suc n) (x ∷ xs) h = ap (λ t. x ∷ t) (take-long n xs (omega arith))

  take-then : (m n : ℕ) (xs : List A) → take m xs ++ take n (drop m xs) ≡ take (m + n) xs
  take-then zero n xs = simp zero-add refl
  take-then (suc m) n [] = rw (take-nil {A = A} n, take-nil {A = A} (suc m + n)) refl
  take-then (suc m) n (x ∷ xs) = simp suc-add (ap (λ t. x ∷ t) (take-then m n xs))

  -- the items of the pages from an offset on, as many pages as given
  abbrev pub items_from : (A → A → Bool) → (A → Bool) → ℕ → List A → (pages offset : ℕ) → List A
  items_from before p limit table zero offset = []
  items_from before p limit table (suc pages) offset =
      (select_page before p (pos limit) (pos offset) table).items
      ++ items_from before p limit table pages (offset + limit)

  items_from-take :
      (before : A → A → Bool) (p : A → Bool) (limit : ℕ) (table : List A) (pages offset : ℕ)
      → 1 ≤ limit
      → limit ≤ 100
      → items_from before p limit table pages offset
        ≡ take (pages * limit) (drop offset (sort_by before (filter p table)))
  unfolding select_page
  items_from-take before p limit table zero offset low high = simp zero-mul refl
  items_from-take before p limit table (suc pages) offset low high =
      let rows = sort_by before (filter p table) in
      rw
        (
          items_from-take before p limit table pages (offset + limit) low high,
          clamped limit low high,
          clamped_offset offset,
          suc-mul pages limit,
        )
        (ap (λ t. take limit (drop offset rows) ++ take (pages * limit) t)
            (sym (drop-drop offset limit rows))
          ∙ (take-then limit (pages * limit) (drop offset rows)
              ∙ ap (λ n. take n (drop offset rows)) (omega arith)))

  -- With a limit that the readers accept, the pages one after the other hold the whole answer of the
  -- query in its order, once there are enough of them for its total, which is the number of its rows.
  pub items_from_lem :
      (before : A → A → Bool) (p : A → Bool) (limit : ℕ) (table : List A) (pages : ℕ)
      → 1 ≤ limit
      → limit ≤ 100
      → (select_page before p (pos limit) (pos 0) table).total ≤ pages * limit
      → (items_from before p limit table pages 0 ≡ sort_by before (filter p table))
        × (length (sort_by before (filter p table))
            ≡ (select_page before p (pos limit) (pos 0) table).total)
  unfolding select_page
  items_from_lem before p limit table pages low high enough = (
    items_from-take before p limit table pages 0 low high
        ∙ take-long (pages * limit) (sort_by before (filter p table))
            (omega (arith, length-sort_by before (filter p table), enough)),
    length-sort_by before (filter p table),
  )
