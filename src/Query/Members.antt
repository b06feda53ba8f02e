-- ===== src/Query/Members.antt =====
-- The members of the rows that the list functions of the operators give.
use mathlib.Core.List.{Memᴰ}
use mathlib.Core.List.Memᴰ.{head, tail, cases_cons, not-nil}
use pageforge.Prelude.{
  ℕ, ◌≡◌, refl, sym, ap, ◌∙◌, arith, true, List, [], ◌∷◌, length, All, Bool-cases, inl, inr,
}
use pageforge.Query.{TableRow, RowPredicate, RowLess, insert_row, stable_sort, all_width}
use pageforge.Query.Pipeline.{keep}

-- The rows of which every predicate is true.
unfoldable pub keep_all : List RowPredicate → List TableRow → List TableRow
keep_all [] rs = rs
keep_all (p ∷ ps) rs = keep_all ps (keep p rs)

abbrev pub AllTrue : List RowPredicate → TableRow → Type 0
AllTrue ps row = All (λ p. p row ≡ true) ps

pub keep-Memᴰ :
    (p : RowPredicate) (rs : List TableRow) (row : TableRow)
    → Memᴰ row (keep p rs)
    → Memᴰ row rs × (p row ≡ true)
unfolding keep
keep-Memᴰ p [] row m = absurd (not-nil m)
keep-Memᴰ p (r ∷ rs) row m = elim (Bool-cases (p r)) [
  | inr no' ↦ let (there, holds) = keep-Memᴰ p rs row (rw no' at m) in (tail there, holds)
  | inl yes' ↦ elim (cases_cons (rw yes' at m)) [
    | inl here ↦ (head here, ap p here ∙ yes')
    | inr later ↦ let (there, holds) = keep-Memᴰ p rs row later in (tail there, holds)
  ]
]

pub Memᴰ-keep :
    (p : RowPredicate) (rs : List TableRow) (row : TableRow)
    → Memᴰ row rs
    → p row ≡ true
    → Memᴰ row (keep p rs)
unfolding keep
Memᴰ-keep p [] row m holds = m
Memᴰ-keep p (r ∷ rs) row m holds = elim (cases_cons m) [
  | inl here ↦ let is = sym (ap p here) ∙ holds in rw is (head here)
  | inr later ↦ elim (Bool-cases (p r)) [
    | inl yes' ↦ rw yes' (tail (Memᴰ-keep p rs row later holds))
    | inr no' ↦ rw no' (Memᴰ-keep p rs row later holds)
  ]
]

pub keep_all-Memᴰ :
    (ps : List RowPredicate) (rs : List TableRow) (row : TableRow)
    → Memᴰ row (keep_all ps rs)
    → Memᴰ row rs × AllTrue ps row
unfolding keep_all
keep_all-Memᴰ [] rs row m = (m, tt)
keep_all-Memᴰ (p ∷ ps) rs row m =
    let (kept, others) = keep_all-Memᴰ ps (keep p rs) row m in
    let (there, holds) = keep-Memᴰ p rs row kept in (there, (holds, others))

pub Memᴰ-keep_all :
    (ps : List RowPredicate) (rs : List TableRow) (row : TableRow)
    → Memᴰ row rs
    → AllTrue ps row
    → Memᴰ row (keep_all ps rs)
unfolding keep_all
Memᴰ-keep_all [] rs row m holds = m
Memᴰ-keep_all (p ∷ ps) rs row m holds =
    Memᴰ-keep_all ps (keep p rs) row (Memᴰ-keep p rs row m holds.0) holds.1

insert_row-Memᴰ :
    (less : RowLess) (r : TableRow) (rs : List TableRow) (row : TableRow)
    → Memᴰ row (insert_row less r rs)
    → Memᴰ row (r ∷ rs)
unfolding insert_row
insert_row-Memᴰ less r [] row m = m
insert_row-Memᴰ less r (x ∷ xs) row m = elim (Bool-cases (less x r)) [
  | inr no' ↦ rw no' at m
  | inl yes' ↦ elim (cases_cons (rw yes' at m)) [
    | inl here ↦ tail (head here)
    | inr later ↦ elim (cases_cons (insert_row-Memᴰ less r xs row later)) [
      | inl is ↦ head is
      | inr there ↦ tail (tail there)
    ]
  ]
]

Memᴰ-insert_row :
    (less : RowLess) (r : TableRow) (rs : List TableRow) (row : TableRow)
    → Memᴰ row (r ∷ rs)
    → Memᴰ row (insert_row less r rs)
unfolding insert_row
Memᴰ-insert_row less r [] row m = m
Memᴰ-insert_row less r (x ∷ xs) row m = elim (Bool-cases (less x r)) [
  | inr no' ↦ rw no' m
  | inl yes' ↦ rw yes' (elim (cases_cons m) [
    | inl is ↦ tail (Memᴰ-insert_row less r xs row (head is))
    | inr later ↦ elim (cases_cons later) [
      | inl here ↦ head here
      | inr there ↦ tail (Memᴰ-insert_row less r xs row (tail there))
    ]
  ])
]

-- Sorting keeps the members.
pub stable_sort-Memᴰ :
    (less : RowLess) (rs : List TableRow) (row : TableRow)
    → Memᴰ row (stable_sort less rs)
    → Memᴰ row rs
unfolding stable_sort
stable_sort-Memᴰ less [] row m = m
stable_sort-Memᴰ less (r ∷ rs) row m =
    elim (cases_cons (insert_row-Memᴰ less r (stable_sort less rs) row m)) [
      | inl here ↦ head here
      | inr later ↦ tail (stable_sort-Memᴰ less rs row later)
    ]

pub Memᴰ-stable_sort :
    (less : RowLess) (rs : List TableRow) (row : TableRow)
    → Memᴰ row rs
    → Memᴰ row (stable_sort less rs)
unfolding stable_sort
Memᴰ-stable_sort less [] row m = m
Memᴰ-stable_sort less (r ∷ rs) row m = elim (cases_cons m) [
  | inl here ↦ Memᴰ-insert_row less r (stable_sort less rs) row (head here)
  | inr later ↦
      Memᴰ-insert_row less r (stable_sort less rs) row (tail (Memᴰ-stable_sort less rs row later))
]

-- Rows whose members are all of one width have that width.
pub all_width-true :
    (n : ℕ) (rs : List TableRow)
    → ((row : TableRow) → Memᴰ row rs → length row.values ≡ n)
    → all_width n rs ≡ true
unfolding all_width
all_width-true n [] h = refl
all_width-true n (r ∷ rs) h =
    let same = h r (head refl) in
    let rest = all_width-true n rs (λ row m. h row (tail m)) in ground arith

-- Filters that are true of every row change nothing.
pub keep_all-id :
    (ps : List RowPredicate) (rs : List TableRow)
    → ((row : TableRow) → Memᴰ row rs → AllTrue ps row)
    → keep_all ps rs ≡ rs
unfolding keep_all keep
keep_all-id [] rs h = refl
keep_all-id (p ∷ ps) rs h =
    ap (keep_all ps) (keep-id rs (λ row m. (h row m).0)) ∙ keep_all-id ps rs (λ row m. (h row m).1)
  where
    keep-id :
        (rs' : List TableRow) → ((row : TableRow) → Memᴰ row rs' → p row ≡ true) → keep p rs' ≡ rs'
    keep-id [] k = refl
    keep-id (r ∷ rs') k = rw (k r (head refl)) (ap (◌∷◌ r) (keep-id rs' (λ row m. k row (tail m))))
