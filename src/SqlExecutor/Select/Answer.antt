-- ===== src/SqlExecutor/Select/Answer.antt =====
-- A plan's query answers with the rows that satisfy its predicates, whatever access it takes.
use mathlib.Core.Path.{subst}
use mathlib.Core.List.{Memᴰ}
use pageforge.Prelude.{
  ℕ, ◌+◌, ◌<◌, ◌≡◌, refl, ap, arith, Bool, true, List, [], ◌∷◌, map, length, Option, none, some,
  All, Bool-cases, inl, inr, ok, Exception, >>=-eq-ok, ok-injective,
}
use pageforge.Bytes.{Bytes}
use pageforge.Tuple.{Column, Schema}
use pageforge.Query.{
  TableRow, RowPredicate, RowLess, RowOperator, Query, project_row, all_below, add_filter, add_sort,
  add_project,
}
use pageforge.Query.Pipeline.{denote}
use pageforge.Query.Members.{keep_all, stable_sort-Memᴰ, Memᴰ-stable_sort}
use pageforge.SqlParser.Ast.{SqlPredicate, SelectPlan}
use pageforge.SqlExecutor.Binding.{equal_name, resolve_loop, resolve_column}
use pageforge.SqlExecutor.Access.{IndexAccess}
use pageforge.SqlExecutor.Access.Rows.{Satisfies}
use pageforge.SqlExecutor.Interface.{Catalog}
use pageforge.SqlExecutor.Select.{
  candidate_limit_of, each, bind_columns, filter_all, sort_if, project_if,
}
use pageforge.SqlExecutor.Select.Source.{Source}

pub filter_all-ok :
    (ps : List RowPredicate) (q : Query)
    → (q' : Query) × (filter_all ps q ≡ ok q')
      × (q'.column_count ≡ q.column_count)
      × (denote q'.root ≡ (keep_all ps (denote q.root).0, (denote q.root).1))
unfolding filter_all add_filter keep_all denote
filter_all-ok [] q = (q, refl, refl, refl)
filter_all-ok (p ∷ ps) q = filter_all-ok ps (record q { root = RowOperator.filter q.root p })

-- The rows of a query, in another order.
pub record Reordered (q q' : Query) : Type 0 where
  pub width : q'.column_count ≡ q.column_count
  pub unbroken : (denote q'.root).1 ≡ none
  pub inside : (row : TableRow) → Memᴰ row (denote q'.root).0 → Memᴰ row (denote q.root).0
  pub complete : (row : TableRow) → Memᴰ row (denote q.root).0 → Memᴰ row (denote q'.root).0

pub sort_if-Reordered :
    (order : Option RowLess) (q : Query)
    → (denote q.root).1 ≡ none
    → (q' : Query) × (sort_if order q ≡ ok q') × Reordered q q'
unfolding sort_if add_sort denote
sort_if-Reordered none q unbroken = (
  q,
  refl,
  record { width = refl; unbroken = unbroken; inside = λ row m. m; complete = λ row m. m },
)
sort_if-Reordered (some less) q unbroken = (
  record q { root = RowOperator.sort q.root less [] },
  refl,
  by_rows (denote q.root).0 (denote q.root).1 refl unbroken,
)
  where
    by_rows :
        (rs : List TableRow) (thrown : Option Exception)
        → denote q.root ≡ (rs, thrown)
        → thrown ≡ none
        → Reordered q (record q { root = RowOperator.sort q.root less [] })
    by_rows rs none e unbroken' = record {
      width = refl;
      unbroken = rw e refl;
      inside = λ row m. rw e (stable_sort-Memᴰ less rs row (rw e at m));
      complete = λ row m. rw e (Memᴰ-stable_sort less rs row (rw e at m));
    }
    by_rows rs (some thrown) e unbroken' = absurd cc

abbrev pub projected : Option (List ℕ) → TableRow → TableRow
projected none row = row
projected (some columns) row = project_row columns row

abbrev pub ProjectionFits : ℕ → Option (List ℕ) → Type 0
ProjectionFits count none = Unit
ProjectionFits count (some columns) = all_below count columns ≡ true

abbrev FoundBelow : Option (ℕ × Column) → ℕ → Type 0
FoundBelow none index = Unit
FoundBelow (some f) index = f.0 < index

resolve_loop-lt :
    (name : Bytes) (columns : Schema) (index : ℕ) (found : Option (ℕ × Column)) (position : ℕ)
    (column : Column)
    → FoundBelow found index
    → resolve_loop (λ c. c.name) name columns index found ≡ ok (position, column)
    → position < index + length columns
unfolding resolve_loop
resolve_loop-lt name [] index none position column h e = absurd cc
resolve_loop-lt name [] index (some f) position column h e =
    let same = ap (λ x. x.0) (ok-injective e) in omega arith
resolve_loop-lt name (c ∷ columns) index none position column h e =
    elim (Bool-cases (equal_name c.name name)) [
      | inl same ↦
          let below =
            resolve_loop-lt name columns (index + 1) (some (index, c)) position column (omega arith)
              (rw same at e) in
          omega arith
      | inr other ↦
          let below =
            resolve_loop-lt name columns (index + 1) none position column tt (rw other at e) in
          omega arith
    ]
resolve_loop-lt name (c ∷ columns) index (some f) position column h e =
    elim (Bool-cases (equal_name c.name name)) [
      | inl same ↦ absurd (let e' = rw same at e in cc)
      | inr other ↦
          let below =
            resolve_loop-lt name columns (index + 1) (some f) position column (omega arith)
              (rw other at e) in
          omega arith
    ]

resolved-all_below :
    (schema : Schema) (names : List Bytes) (found : List (ℕ × Column))
    → each (resolve_column schema) names ≡ ok found
    → all_below (length schema) (map (λ f. f.0) found) ≡ true
unfolding each all_below resolve_column
resolved-all_below schema [] found e = rw (← (ok-injective e)) refl
resolved-all_below schema (name ∷ names) found e =
    let ((position, column), first, rest) =
      >>=-eq-ok (resolve_loop (λ c. c.name) name schema 0 none) _ e in
    let (others, more, done) = >>=-eq-ok (each (resolve_column schema) names) _ rest in
    let below = resolve_loop-lt name schema 0 none position column tt first in
    let later = resolved-all_below schema names others more in
    subst (λ (fs : List (ℕ × Column)). all_below (length schema) (map (λ f. f.0) fs) ≡ true)
      (ok-injective done) (ground arith)

pub bind_columns-ProjectionFits :
    (schema : Schema) (plan : SelectPlan) (output_schema : Schema) (projection : Option (List ℕ))
    → bind_columns schema plan ≡ ok (output_schema, projection)
    → ProjectionFits (length schema) projection
unfolding bind_columns
bind_columns-ProjectionFits schema plan output_schema projection e =
    elim (Bool-cases plan.select_all) [
      | inl all ↦
          subst (ProjectionFits (length schema))
            (ap (λ x. x.1) (ok-injective (rw (all, bind_columns) at e))) tt
      | inr some_columns ↦
          let (found, resolved, done) =
            >>=-eq-ok (each (resolve_column schema) plan.columns) _
              (rw (some_columns, bind_columns) at e) in
          subst (ProjectionFits (length schema)) (ap (λ x. x.1) (ok-injective done))
            (resolved-all_below schema plan.columns found resolved)
    ]

-- The rows of a query, projected.
pub project_if-ok :
    (projection : Option (List ℕ)) (q : Query)
    → ProjectionFits q.column_count projection
    → (q' : Query) × (project_if projection q ≡ ok q')
      × (denote q'.root ≡ (map (projected projection) (denote q.root).0, (denote q.root).1))
unfolding project_if add_project denote
project_if-ok none q fits = (q, refl, ap (λ rs. (rs, (denote q.root).1)) (map_id (denote q.root).0))
  where
    map_id : (rs : List TableRow) → rs ≡ map (λ row. row) rs
    map_id [] = refl
    map_id (r ∷ rs) = ap (◌∷◌ r) (map_id rs)
project_if-ok (some columns) q fits = (
  record { root = RowOperator.project q.root columns; column_count = length columns },
  rw (fits, add_project) refl,
  refl,
)

-- The answer to a plan on a table that holds `table_rows`: the rows that satisfy the predicates, with the
-- columns that the projection keeps.
pub record IsAnswer (schema : Schema) (predicates : List SqlPredicate)
    (projection : Option (List ℕ)) (table_rows : List TableRow) (query : Query) : Type 0 where
  pub unbroken : (denote query.root).1 ≡ none
  pub sound :
      (row' : TableRow)
      → Memᴰ row' (denote query.root).0
      → (row : TableRow) × (row' ≡ projected projection row)
        × Memᴰ row table_rows
        × All (Satisfies schema row) predicates
  pub complete :
      (row : TableRow)
      → Memᴰ row table_rows
      → All (Satisfies schema row) predicates
      → Memᴰ (projected projection row) (denote query.root).0

pub candidate_limit_of-none :
    (plan : SelectPlan) (access : Option IndexAccess) (sorts_rows : Bool)
    → plan.limit ≡ none
    → candidate_limit_of plan access sorts_rows ≡ none
unfolding candidate_limit_of
candidate_limit_of-none plan none sorts_rows unlimited = refl
candidate_limit_of-none plan (some access) sorts_rows unlimited = rw unlimited refl
