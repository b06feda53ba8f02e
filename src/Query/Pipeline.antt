-- ===== src/Query/Pipeline.antt =====
-- A query returns what the list functions of its operators give.
use mathlib.Core.List.{append_assoc, append-nil}
use pageforge.Prelude.{
  ℕ, zero, suc, ◌+◌, ◌-◌, ◌*◌, ◌≤◌, ◌<◌, ◌≡◌, refl, sym, ap, ◌∙◌, arith, List, [], ◌∷◌, ◌++◌, map,
  length, Option, none, some, if◌then◌else◌, ok, err, Exception, logic_error, Bool-cases, inl, inr,
  length-append,
}
use pageforge.Query.{
  TableRow, RowPredicate, RowLess, RowOperator, scan, rows, filter, project, sort, sorted, limit,
  insert_row, stable_sort, project_row, next, Pulled, next_filter, next_sort, next_project,
  next_limit, next_scan, pop_rows,
}

-- The rows that an operator still returns, and the exception that ends them, if one does.
abbrev pub Rows : Type 0
Rows = List TableRow × Option Exception

unfoldable pub keep : RowPredicate → List TableRow → List TableRow
keep p [] = []
keep p (r ∷ rs) = if p r then r ∷ keep p rs else keep p rs

-- Rows behind those that were loaded: an exception on the way takes them all.
abbrev pub sort_rows : RowLess → List TableRow → Rows → Rows
sort_rows less loaded (rs, none) = (stable_sort less (loaded ++ rs), none)
sort_rows less loaded (rs, some e) = ([], some e)

-- An exception behind the limit is not met.
abbrev pub limit_rows : ℕ → Rows → Rows
limit_rows zero d = ([], none)
limit_rows (suc n) ([], e) = ([], e)
limit_rows (suc n) (r ∷ rs, e) = let d = limit_rows n (rs, e) in (r ∷ d.0, d.1)

sort_rows-cons :
    (less : RowLess) (loaded : List TableRow) (r : TableRow) (d : Rows)
    → sort_rows less loaded (r ∷ d.0, d.1) ≡ sort_rows less (loaded ++ r ∷ []) d
sort_rows-cons less loaded r (rs, none) =
    ap (λ l. (stable_sort less l, none)) (sym (append_assoc loaded (r ∷ []) rs))
sort_rows-cons less loaded r (rs, some e) = refl

unfoldable pub denote : RowOperator → Rows
unfolding keep
denote (scan rs e) = (rs, e)
denote (rows rs) = (rs, none)
denote (filter input p) = let d = denote input in (keep p d.0, d.1)
denote (project input columns) = let d = denote input in (map (project_row columns) d.0, d.1)
denote (sort input less loaded) = sort_rows less loaded (denote input)
denote (sorted rs) = (rs, none)
denote (limit input n) = limit_rows n (denote input)

-- Rounds that are enough for one call of `next`, and for all the calls after it.
unfoldable pub rounds_of : RowOperator → ℕ
rounds_of (scan rs e) = 1 + length rs
rounds_of (rows rs) = 1 + length rs
rounds_of (filter input p) = 1 + rounds_of input
rounds_of (project input columns) = 1 + rounds_of input
rounds_of (sort input less loaded) = 2 * rounds_of input + length loaded + 3
rounds_of (sorted rs) = 1 + length rs
rounds_of (limit input n) = 1 + rounds_of input

-- One answer is the first of the rows that the operator stood for, and leaves the operator of the others.
abbrev Answers : RowOperator → Pulled → Type 0
Answers op (ok (some r), op') =
    (denote op ≡ (r ∷ (denote op').0, (denote op').1)) × (rounds_of op' < rounds_of op)
Answers op (ok none, op') = denote op ≡ ([], none)
Answers op (err e, op') = denote op ≡ ([], some e)

-- An operator that stands for the same rows and needs no more rounds answers for another.
Answers-same :
    (op op' : RowOperator) (a : Pulled)
    → denote op ≡ denote op'
    → rounds_of op' ≤ rounds_of op
    → Answers op' a
    → Answers op a
Answers-same op op' (ok (some r), op'') same fewer (d, less) = (same ∙ d, (omega arith))
Answers-same op op' (ok none, op'') same fewer d = same ∙ d
Answers-same op op' (err e, op'') same fewer d = same ∙ d

filter-Answers :
    (input : RowOperator) (p : RowPredicate) (a : Pulled) (again : RowOperator → Pulled)
    → Answers input a
    → ((op : RowOperator) → rounds_of op < rounds_of (filter input p) → Answers op (again op))
    → Answers (filter input p) (next_filter p a again)
unfolding next_filter denote keep rounds_of
filter-Answers input p (ok (some r), op') again (d, less) more = elim (Bool-cases (p r)) [
  | inl yes' ↦ rw yes' (rw (d, yes'), (omega arith))
  | inr no' ↦ rw no' (
      Answers-same (filter input p) (filter op' p) (again (filter op' p)) (rw (d, no') refl)
        (omega arith) (more (filter op' p) (omega arith)))
]
filter-Answers input p (ok none, op') again d more = rw d
filter-Answers input p (err e, op') again d more = rw d

project-Answers :
    (input : RowOperator) (columns : List ℕ) (a : Pulled)
    → Answers input a
    → Answers (project input columns) (next_project columns a)
unfolding next_project denote rounds_of
project-Answers input columns (ok (some r), op') (d, less) = (rw d, (omega arith))
project-Answers input columns (ok none, op') d = rw d
project-Answers input columns (err e, op') d = rw d

limit-Answers :
    (input : RowOperator) (n : ℕ) (a : Pulled)
    → Answers input a
    → Answers (limit input (suc n)) (next_limit (suc n) a)
unfolding next_limit denote rounds_of
limit-Answers input n (ok (some r), op') (d, less) =
    let fewer : suc n - 1 ≡ n = omega arith in (rw (d, fewer), (omega arith))
limit-Answers input n (ok none, op') d = rw d
limit-Answers input n (err e, op') d = rw d

pop_rows-Answers :
    (rs : List TableRow)
    → Answers (rows rs) (pop_rows rows rs) × Answers (sorted rs) (pop_rows sorted rs)
unfolding pop_rows denote rounds_of
pop_rows-Answers [] = (refl, refl)
pop_rows-Answers (r ∷ rs) = ((refl, (omega arith)), (refl, (omega arith)))

next_scan-Answers :
    (rs : List TableRow) (e : Option Exception) → Answers (scan rs e) (next_scan rs e)
unfolding next_scan denote rounds_of
next_scan-Answers [] none = refl
next_scan-Answers [] (some e) = refl
next_scan-Answers (r ∷ rs) e = (refl, (omega arith))

length-insert_row :
    (less : RowLess) (r : TableRow) (rs : List TableRow)
    → length (insert_row less r rs) ≡ suc (length rs)
unfolding insert_row
length-insert_row less r [] = refl
length-insert_row less r (x ∷ xs) = elim (Bool-cases (less x r)) [
  | inl yes' ↦ rw yes' (ap suc (length-insert_row less r xs))
  | inr no' ↦ rw no'
]

length-stable_sort :
    (less : RowLess) (rs : List TableRow) → length (stable_sort less rs) ≡ length rs
unfolding stable_sort
length-stable_sort less [] = refl
length-stable_sort less (r ∷ rs) =
    length-insert_row less r (stable_sort less rs) ∙ ap suc (length-stable_sort less rs)

sort-Answers :
    (input : RowOperator) (less : RowLess) (loaded : List TableRow) (a : Pulled)
    (again : RowOperator → Pulled)
    → Answers input a
    → ((op : RowOperator)
        → rounds_of op < rounds_of (sort input less loaded)
        → Answers op (again op))
    → Answers (sort input less loaded) (next_sort less loaded a again)
unfolding next_sort denote rounds_of
sort-Answers input less loaded (ok (some r), op') again (d, fewer) more =
    let size = length-append loaded (r ∷ []) in
    Answers-same (sort input less loaded) (sort op' less (loaded ++ r ∷ []))
      (again (sort op' less (loaded ++ r ∷ []))) (rw d (sort_rows-cons less loaded r (denote op')))
      (omega arith) (more (sort op' less (loaded ++ r ∷ [])) (omega arith))
sort-Answers input less loaded (ok none, op') again d more =
    let size = length-stable_sort less loaded in
    Answers-same (sort input less loaded) (sorted (stable_sort less loaded))
      (again (sorted (stable_sort less loaded))) (rw d (rw (append-nil loaded))) (omega arith)
      (more (sorted (stable_sort less loaded)) (omega arith))
sort-Answers input less loaded (err e, op') again d more = rw d

rounds_of-positive : (op : RowOperator) → 0 < rounds_of op
unfolding rounds_of
rounds_of-positive (scan rs e) = omega arith
rounds_of-positive (rows rs) = omega arith
rounds_of-positive (filter input p) = omega arith
rounds_of-positive (project input columns) = omega arith
rounds_of-positive (sort input less loaded) = omega arith
rounds_of-positive (sorted rs) = omega arith
rounds_of-positive (limit input n) = omega arith

next-Answers : (rounds : ℕ) (op : RowOperator) → rounds_of op ≤ rounds → Answers op (next rounds op)
unfolding next rounds_of denote
next-Answers zero op few = let some_round = rounds_of-positive op in absurd (omega arith)
next-Answers (suc n) (scan rs e) few = next_scan-Answers rs e
next-Answers (suc n) (rows rs) few = (pop_rows-Answers rs).0
next-Answers (suc n) (filter input p) few =
    filter-Answers input p (next n input) (λ op. next n op) (next-Answers n input (omega arith))
      (λ op fewer. next-Answers n op (omega arith))
next-Answers (suc n) (project input columns) few =
    project-Answers input columns (next n input) (next-Answers n input (omega arith))
next-Answers (suc n) (sort input less loaded) few =
    sort-Answers input less loaded (next n input) (λ op. next n op)
      (next-Answers n input (omega arith)) (λ op fewer. next-Answers n op (omega arith))
next-Answers (suc n) (sorted rs) few = (pop_rows-Answers rs).1
next-Answers (suc n) (limit input zero) few = refl
next-Answers (suc n) (limit input (suc k)) few =
    limit-Answers input k (next n input) (next-Answers n input (omega arith))

-- The rows of the calls of `next` until the query ends, with the exception that ends it.
collect_row : Pulled → (RowOperator → Rows) → Rows
collect_row (ok (some r), op) rest = let d = rest op in (r ∷ d.0, d.1)
collect_row (ok none, op) rest = ([], none)
collect_row (err e, op) rest = ([], some e)

unfoldable pub collect : ℕ → ℕ → RowOperator → Rows
unfolding collect_row
collect zero rounds op = ([], some logic_error)
collect (suc calls) rounds op = collect_row (next rounds op) (λ op'. collect calls rounds op')

collect_row-denote :
    (op : RowOperator) (a : Pulled) (rest : RowOperator → Rows)
    → Answers op a
    → ((op' : RowOperator) → rounds_of op' < rounds_of op → rest op' ≡ denote op')
    → collect_row a rest ≡ denote op
unfolding collect_row
collect_row-denote op (ok (some r), op') rest (d, fewer) more = rw (d, more op' fewer)
collect_row-denote op (ok none, op') rest d more = sym d
collect_row-denote op (err e, op') rest d more = sym d

-- Calls of `next` until the query ends return the rows that the list functions of its operators
-- give, and its exception, when `rounds_of op` calls and rounds are given.
pub collect-denote :
    (calls rounds : ℕ) (op : RowOperator)
    → rounds_of op ≤ calls
    → rounds_of op ≤ rounds
    → collect calls rounds op ≡ denote op
unfolding collect
collect-denote zero rounds op few enough =
    let some_round = rounds_of-positive op in absurd (omega arith)
collect-denote (suc calls) rounds op few enough =
    collect_row-denote op (next rounds op) (λ op'. collect calls rounds op')
      (next-Answers rounds op enough)
      (λ op' fewer. collect-denote calls rounds op' (omega arith) (omega arith))
