-- ===== src/Query.antt =====
-- include/pageforge/query.hpp and src/query.cpp: rows pulled through a tree of operators.
-- An operator is a value, and `next` returns it as it is left. A `std::vector` with the position
-- `next_` is the list of the rows behind it. What the cursor of a scan still returns is the list of its
-- rows, with the exception that ends it, if one does.
pub mod Pipeline
pub mod Members
pub mod Sort
use pageforge.Prelude.{
  ℕ, zero, suc, ◌+◌, ◌-◌, Bool, true, false, not, List, [], ◌∷◌, ◌++◌, map, length, get_or, Option,
  none, some, ltb, ◌==◌, if◌then◌else◌, Result, ok, err, Exception, invalid_argument, out_of_range,
  logic_error,
}
use pageforge.RecordStore.{RecordId}
use pageforge.Tuple.{Value, Tuple}

pub record TableRow : Type 0 where
  pub id : RecordId
  pub values : Tuple

abbrev pub RowPredicate : Type 0
RowPredicate = TableRow → Bool

abbrev pub RowLess : Type 0
RowLess = TableRow → TableRow → Bool

-- `sort` holds the rows that were loaded so far, and becomes `sorted` when its input is reset.
pub data RowOperator : Type 0 where
  scan : List TableRow → Option Exception → RowOperator
  rows : List TableRow → RowOperator
  filter : RowOperator → RowPredicate → RowOperator
  project : RowOperator → List ℕ → RowOperator
  sort : RowOperator → RowLess → List TableRow → RowOperator
  sorted : List TableRow → RowOperator
  limit : RowOperator → ℕ → RowOperator

-- `std::stable_sort`: a row goes behind the rows that it is not less than.
unfoldable pub insert_row : RowLess → TableRow → List TableRow → List TableRow
insert_row less r [] = r ∷ []
insert_row less r (x ∷ xs) = if less x r then x ∷ insert_row less r xs else r ∷ x ∷ xs

unfoldable pub stable_sort : RowLess → List TableRow → List TableRow
unfolding insert_row
stable_sort less [] = []
stable_sort less (r ∷ rs) = insert_row less r (stable_sort less rs)

-- `row->values[column]` for each column.
unfoldable pub project_row : List ℕ → TableRow → TableRow
project_row columns row = record row {
  values = map (λ column. get_or row.values column Value.null) columns;
}

abbrev pub Pulled : Type 0
Pulled = Result (Option TableRow) × RowOperator

unfoldable pub pop_rows : (List TableRow → RowOperator) → List TableRow → Pulled
pop_rows back [] = (ok none, back [])
pop_rows back (r ∷ rs) = (ok (some r), back rs)

unfoldable pub next_scan : List TableRow → Option Exception → Pulled
next_scan (r ∷ rs) e = (ok (some r), scan rs e)
next_scan [] none = (ok none, scan [] none)
next_scan [] (some e) = (err e, scan [] (some e))

-- What an operator makes of its input's answer, given its own further rounds.
unfoldable pub next_filter : RowPredicate → Pulled → (RowOperator → Pulled) → Pulled
next_filter p (ok (some r), input) again =
    let rest = again (filter input p) in if p r then (ok (some r), filter input p) else rest
next_filter p (ok none, input) again = (ok none, filter input p)
next_filter p (err e, input) again = (err e, filter input p)

unfoldable pub next_project : List ℕ → Pulled → Pulled
unfolding project_row
next_project columns (ok (some r), input) =
    (ok (some (project_row columns r)), project input columns)
next_project columns (ok none, input) = (ok none, project input columns)
next_project columns (err e, input) = (err e, project input columns)

unfoldable pub next_sort : RowLess → List TableRow → Pulled → (RowOperator → Pulled) → Pulled
unfolding stable_sort
next_sort less loaded (ok (some r), input) again = again (sort input less (loaded ++ r ∷ []))
next_sort less loaded (ok none, input) again = again (sorted (stable_sort less loaded))
next_sort less loaded (err e, input) again = (err e, sort input less loaded)

unfoldable pub next_limit : ℕ → Pulled → Pulled
next_limit remaining (ok (some r), input) = (ok (some r), limit input (remaining - 1))
next_limit remaining (ok none, input) = (ok none, limit input remaining)
next_limit remaining (err e, input) = (err e, limit input remaining)

-- `RowOperator::next` of each class. A round is a call or a turn of a loop; `logic_error` is for no
-- rounds left, and the source has none.
unfoldable pub next : ℕ → RowOperator → Pulled
unfolding pop_rows next_scan next_filter next_project next_sort next_limit
next zero op = (err logic_error, op)
next (suc rounds) (scan rs e) = next_scan rs e
next (suc rounds) (rows rs) = pop_rows rows rs
next (suc rounds) (filter input p) = next_filter p (next rounds input) (λ op. next rounds op)
next (suc rounds) (project input columns) = next_project columns (next rounds input)
next (suc rounds) (sort input less loaded) =
    next_sort less loaded (next rounds input) (λ op. next rounds op)
next (suc rounds) (sorted rs) = pop_rows sorted rs
next (suc rounds) (limit input zero) = (ok none, limit input zero)
next (suc rounds) (limit input (suc remaining)) = next_limit (suc remaining) (next rounds input)

-- The query: its operator and the width of its rows.
pub record Query : Type 0 where
  pub root : RowOperator
  pub column_count : ℕ

unfoldable pub all_width : ℕ → List TableRow → Bool
all_width n [] = true
all_width n (r ∷ rs) = if not (length r.values == n) then false else all_width n rs

unfoldable pub from_cursor : List TableRow → Option Exception → ℕ → Query
from_cursor rs e column_count = record { root = scan rs e; column_count = column_count }

unfoldable pub from_rows : List TableRow → ℕ → Result Query
unfolding all_width
from_rows rs column_count =
    if not (all_width column_count rs)
    then err invalid_argument
    else ok (record { root = rows rs; column_count = column_count })

-- An empty `std::function` is `none`.
unfoldable pub add_filter : Option RowPredicate → Query → Result Query
add_filter none q = err invalid_argument
add_filter (some p) q = ok (record q { root = filter q.root p })

unfoldable pub add_sort : Option RowLess → Query → Result Query
add_sort none q = err invalid_argument
add_sort (some less) q = ok (record q { root = sort q.root less [] })

unfoldable pub all_below : ℕ → List ℕ → Bool
all_below n [] = true
all_below n (c ∷ cs) = if not (ltb c n) then false else all_below n cs

unfoldable pub add_project : List ℕ → Query → Result Query
unfolding all_below
add_project columns q =
    if not (all_below q.column_count columns)
    then err out_of_range
    else ok (record { root = project q.root columns; column_count = length columns })

unfoldable pub add_limit : ℕ → Query → Query
add_limit count q = record q { root = limit q.root count }
