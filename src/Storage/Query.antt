-- ===== src/Storage/Query.antt =====
-- What the services of storage/ ask of the database: the rows that pass a filter, in an order, a page
-- of them, and their number. A table is a list of rows; rows that the order leaves equal stand as they
-- do in the table.
pub mod Pages
pub mod Sorted
use nf_safety_hub.Prelude.{
  ℕ, ◌+◌, min, Bool, not, List, [], ◌∷◌, if◌then◌else◌, filter, map, length, take, drop, any, eqb,
}
use nf_safety_hub.Prelude.Int.{ℤ, at_least}

module _ {A : Type 0} where
  abbrev pub insert_by : (A → A → Bool) → A → List A → List A
  insert_by before a [] = a ∷ []
  insert_by before a (x ∷ xs) =
      let rest = insert_by before a xs in if before x a then x ∷ rest else a ∷ x ∷ xs

  -- `ORDER BY`
  abbrev pub sort_by : (A → A → Bool) → List A → List A
  sort_by before [] = []
  sort_by before (x ∷ xs) = insert_by before x (sort_by before xs)

  -- `SELECT count(…) WHERE …`
  abbrev pub count : (A → Bool) → List A → ℕ
  count p table = length (filter p table)

  -- `DELETE … WHERE id IN …`
  unfoldable pub delete_ids : (A → ℕ) → List ℕ → List A → List A
  delete_ids id ids table = filter (λ a. not (any (eqb (id a)) ids)) table

pub record Page (A : Type 0) : Type 0 where
  pub items : List A
  pub total : ℕ
  pub limit : ℕ
  pub offset : ℕ

module _ {A : Type 0} where
  -- the page of a query, with what the readers make of its limit and offset
  unfoldable pub select_page : (A → A → Bool) → (A → Bool) → ℤ → ℤ → List A → Page A
  unfolding at_least
  select_page before p limit offset table = record {
    items =
        take (min (at_least 1 limit) 100)
          (drop (at_least 0 offset) (sort_by before (filter p table)));
    total = count p table;
    limit = min (at_least 1 limit) 100;
    offset = at_least 0 offset;
  }
