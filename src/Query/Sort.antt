-- ===== src/Query/Sort.antt =====
-- Sorting by an order that leaves ties alone.
use pageforge.Prelude.{◌≡◌, true, false, List, [], ◌∷◌, All, Bool-cases, inl, inr}
use pageforge.Query.{TableRow, RowLess, insert_row, stable_sort}

-- What `std::stable_sort` asks of its comparison, on the rows that satisfy `P`.
pub record IsWeakOrder (P : TableRow → Type 0) (less : RowLess) : Type 0 where
  pub asymmetric : (a b : TableRow) → P a → P b → less a b ≡ true → less b a ≡ false
  pub transitive :
      (a b c : TableRow) → P a → P b → P c → less a b ≡ false → less b c ≡ false → less a c ≡ false

-- No row is less than one before it.
abbrev pub IsSorted : RowLess → List TableRow → Type 0
IsSorted less [] = Unit
IsSorted less (r ∷ rs) = All (λ later. less later r ≡ false) rs × IsSorted less rs

All-insert_row :
    (P : TableRow → Type 0) (less : RowLess) (r : TableRow) (rs : List TableRow)
    → P r
    → All P rs
    → All P (insert_row less r rs)
unfolding insert_row
All-insert_row P less r [] p h = (p, tt)
All-insert_row P less r (x ∷ xs) p h = elim (Bool-cases (less x r)) [
  | inl yes' ↦ rw yes' (h.0, All-insert_row P less r xs p h.1)
  | inr no' ↦ rw no' (p, h)
]

pub All-stable_sort :
    (P : TableRow → Type 0) (less : RowLess) (rs : List TableRow)
    → All P rs
    → All P (stable_sort less rs)
unfolding stable_sort
All-stable_sort P less [] h = tt
All-stable_sort P less (r ∷ rs) h =
    All-insert_row P less r (stable_sort less rs) h.0 (All-stable_sort P less rs h.1)

module _ (P : TableRow → Type 0) (less : RowLess) (order : IsWeakOrder P less) where
  behind :
      (r x : TableRow) (xs : List TableRow)
      → P r
      → P x
      → All P xs
      → less x r ≡ false
      → All (λ later. less later x ≡ false) xs
      → All (λ later. less later r ≡ false) xs
  behind r x [] pr px ps after h = tt
  behind r x (y ∷ ys) pr px ps after h =
      (order.transitive y x r ps.0 px pr h.0 after, behind r x ys pr px ps.1 after h.1)

  insert_row-IsSorted :
      (r : TableRow) (rs : List TableRow)
      → P r
      → All P rs
      → IsSorted less rs
      → IsSorted less (insert_row less r rs)
  unfolding insert_row
  insert_row-IsSorted r [] pr ps h = (tt, tt)
  insert_row-IsSorted r (x ∷ xs) pr ps h = elim (Bool-cases (less x r)) [
    | inl yes' ↦ rw yes' (
      All-insert_row (λ later. less later x ≡ false) less r xs (order.asymmetric x r ps.0 pr yes')
          h.0,
      insert_row-IsSorted r xs pr ps.1 h.1,
    )
    | inr no' ↦ rw no' ((no', behind r x xs pr ps.0 ps.1 no' h.0), h)
  ]

  -- Rows that are sorted by a weak order come out with no row less than one before it.
  pub stable_sort-IsSorted : (rs : List TableRow) → All P rs → IsSorted less (stable_sort less rs)
  unfolding stable_sort
  stable_sort-IsSorted [] ps = tt
  stable_sort-IsSorted (r ∷ rs) ps =
      insert_row-IsSorted r (stable_sort less rs) ps.0 (All-stable_sort P less rs ps.1)
        (stable_sort-IsSorted rs ps.1)
