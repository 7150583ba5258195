-- ===== src/Storage/Query/Sorted.antt =====
-- The rows of an ordered query, and the rows that a deletion by their ids leaves.
use nf_safety_hub.Prelude.{
  ℕ, ◌≤◌, Bool, true, false, not, List, [], ◌∷◌, filter, map, take, any, eqb, eqb_iff, length, All,
  All-take, All-filter_impl, In, here, there, In-filter, All-lookup, All-filter, ◌≡◌, refl, sym,
  subst, arith, Bool-cases, inl, inr,
}
use nf_safety_hub.Storage.Query.Pages.{take-long, length-sort_by}
use nf_safety_hub.Storage.Query.{insert_by, sort_by, delete_ids}

module _ {A : Type 0} (before : A → A → Bool) where
  All-insert_by :
      (P : A → Type 0) (a : A) (xs : List A) → P a → All P xs → All P (insert_by before a xs)
  All-insert_by P a [] h hs = (h, tt)
  All-insert_by P a (x ∷ xs) h hs = elim (Bool-cases (before x a)) [
    | inl e ↦ rw e (hs.0, All-insert_by P a xs h hs.1)
    | inr e ↦ rw e (h, hs)
  ]

  pub All-sort_by : (P : A → Type 0) (xs : List A) → All P xs → All P (sort_by before xs)
  All-sort_by P [] hs = tt
  All-sort_by P (x ∷ xs) hs = All-insert_by P x (sort_by before xs) hs.0 (All-sort_by P xs hs.1)

  In-insert_by : (a : A) (xs : List A) → In a (insert_by before a xs)
  In-insert_by a [] = here
  In-insert_by a (x ∷ xs) = elim (Bool-cases (before x a)) [
    | inl e ↦ rw e (there (In-insert_by a xs))
    | inr e ↦ rw e here
  ]

  In-insert_by_rest : (a b : A) (xs : List A) → In b xs → In b (insert_by before a xs)
  In-insert_by_rest a b [] i = elim i [ ]
  In-insert_by_rest a b (x ∷ xs) here = elim (Bool-cases (before x a)) [
    | inl e ↦ rw e here
    | inr e ↦ rw e (there here)
  ]
  In-insert_by_rest a b (x ∷ xs) (there i) = elim (Bool-cases (before x a)) [
    | inl e ↦ rw e (there (In-insert_by_rest a b xs i))
    | inr e ↦ rw e (there (there i))
  ]

  pub In-sort_by : (a : A) (xs : List A) → In a xs → In a (sort_by before xs)
  In-sort_by a [] i = elim i [ ]
  In-sort_by a (x ∷ xs) here = In-insert_by a (sort_by before xs)
  In-sort_by a (x ∷ xs) (there i) = In-insert_by_rest x a (sort_by before xs) (In-sort_by a xs i)

module _ {A : Type 0} (id : A → ℕ) where
  pub any-In : (a : A) (xs : List A) → In a xs → any (eqb (id a)) (map id xs) ≡ true
  any-In a [] i = elim i [ ]
  any-In a (x ∷ xs) here = rw ((eqb_iff (id a) (id a)).1 refl) refl
  any-In a (x ∷ xs) (there i) = ground (arith, any-In a xs i)

  -- an id that is listed is that of a row, with what holds of the rows
  pub any-All :
      (P : A → Type 0) (i : ℕ) (xs : List A)
      → All P xs
      → any (eqb i) (map id xs) ≡ true
      → (a : A) × (P a × (i ≡ id a))
  any-All P i [] hs h = absurd (cc)
  any-All P i (x ∷ xs) hs h = elim (Bool-cases (eqb i (id x))) [
    | inl e ↦ (x, (hs.0, (eqb_iff i (id x)).0 e))
    | inr e ↦ any-All P i xs hs.1 (rw e at h)
  ]

  pub All-In : (xs ys : List A) → ((a : A) → In a xs → In a ys) → All (λ a. In a ys) xs
  All-In [] ys sub = tt
  All-In (x ∷ xs) ys sub = (sub x here, All-In xs ys (λ a i. sub a (there i)))

  -- Deleting the selected rows of a filter keeps each row that does not pass it, if ids are distinct.
  pub delete_ids-keeps :
      (before : A → A → Bool) (p : A → Bool) (n : ℕ) (table rows : List A) (a : A)
      → ((b c : A) → In b table → In c table → id b ≡ id c → b ≡ c)
      → In a table
      → p a ≡ false
      → In a rows
      → In a (delete_ids id (map id (take n (sort_by before (filter p table)))) rows)
  unfolding delete_ids
  delete_ids-keeps before p n table rows a distinct i h j =
      In-filter _ rows j
        (elim (Bool-cases (any (eqb (id a)) (map id (take n (sort_by before (filter p table)))))) [
          | inr e ↦ rw e refl
          | inl e ↦
              let (b, ((k, pb), same)) =
                any-All (λ b. In b table × (p b ≡ true)) (id a) _
                  (All-take _ n _ (
                    All-sort_by before _ _ (
                      All-filter_impl (λ b. In b table) _ p table (λ b k pb. (k, pb))
                        (All-In table table (λ b k. k)))))
                  e in
              absurd (cc (distinct a b i k same, h, pb))
        ])

  -- Deleting all the selected rows of a filter leaves none of them.
  pub delete_ids-clears :
      (before : A → A → Bool) (p : A → Bool) (n : ℕ) (table rows : List A) (a : A)
      → length (filter p table) ≤ n
      → In a table
      → In a (delete_ids id (map id (take n (sort_by before (filter p table)))) rows)
      → p a ≡ false
  unfolding delete_ids
  delete_ids-clears before p n table rows a enough i j = elim (Bool-cases (p a)) [
    | inr e ↦ e
    | inl e ↦
        let selected =
          subst (λ t. In a t)
            (sym (
              take-long n (sort_by before (filter p table))
                (omega (arith, length-sort_by before (filter p table), enough))))
            (In-sort_by before a (filter p table) (In-filter p table i e)) in
        absurd (
          cc (
            any-In a (take n (sort_by before (filter p table))) selected,
            All-lookup _ j (
                All-filter
                  (λ b. not (any (eqb (id b)) (map id (take n (sort_by before (filter p table))))))
                  rows),
          ))
  ]
