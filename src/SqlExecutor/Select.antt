-- ===== src/SqlExecutor/Select.antt =====
-- src/sql_executor.cpp: a plan that is analysed, bound to a query or explained.
pub mod Analysis
pub mod Source
pub mod Stored
pub mod Answer
pub mod Catalogued
pub mod Limited
use pageforge.Prelude.{
  ℕ, zero, suc, ◌+◌, ◌-◌, Bool, true, false, not, ◌&&◌, ◌||◌, List, [], ◌∷◌, map, length, Option,
  none, some, ltb, ◌==◌, if◌then◌else◌, Result, ok, err, Exception, ◌>>=◌, ◌>>◌, throw_if,
  sql_bind_error,
}
use pageforge.Prelude.Int.{ℤ, pos}
use pageforge.Bytes.{Bytes}
use pageforge.Tuple.{Column, Schema}
use pageforge.Query.{
  TableRow, RowPredicate, RowLess, Query, Pulled, from_cursor, from_rows, add_filter, add_sort,
  add_project, add_limit, next,
}
use pageforge.SqlParser.{parse_select, parse_sql_statement}
use pageforge.SqlParser.Ast.{SqlPredicate, SqlOrder, SelectPlan, SqlStatement}
use pageforge.Catalog.{TableDefinition}
use pageforge.SqlExecutor.Binding.{
  equal_name, resolve_table, resolve_column, bind_predicate, bind_order,
}
use pageforge.SqlExecutor.Access.{SelectAccessPath, IndexAccess, choose_index}
use pageforge.SqlExecutor.Interface.{Catalog, TableCursor, TableStore}

pub data IndexScanDirection : Type 0 where
  forward reverse : IndexScanDirection

pub record SelectExplanation : Type 0 where
  pub table : Bytes
  pub access_path : SelectAccessPath
  pub index_name : Option Bytes
  pub lookup_key : Option ℤ
  pub lower_bound : Option ℤ
  pub upper_bound : Option ℤ
  pub index_scan_direction : Option IndexScanDirection
  pub empty_result : Bool
  pub predicate_count : ℕ
  pub residual_predicate_count : ℕ
  pub sorts_rows : Bool
  pub limit : Option ℕ
  pub candidate_limit : Option ℕ

pub record BoundSelect : Type 0 where
  pub query : Query
  pub output_schema : Schema
  pub access_path : SelectAccessPath
  pub index_name : Option Bytes

pub record AnalyzedSelect : Type 0 where
  pub table : TableDefinition
  pub predicates : List RowPredicate
  pub order : Option RowLess
  pub output_schema : Schema
  pub projection : Option (List ℕ)
  pub access : Option IndexAccess
  pub sorts_rows : Bool
  pub reverses_index_order : Bool
  pub candidate_limit : Option ℕ

-- A loop that pushes back what each of its turns gives.
unfoldable pub each {ℓ κ} : {A : Type ℓ} {B : Type κ} → (A → Result B) → List A → Result (List B)
each step [] = ok []
each step (a ∷ items) = do b ← step a; bs ← each step items; ok (b ∷ bs)

unfoldable pub bind_optional_order : Schema → Option SqlOrder → Result (Option RowLess)
bind_optional_order schema none = ok none
bind_optional_order schema (some order) = do less ← bind_order schema order; ok (some less)

-- The output schema and the projection.
unfoldable pub bind_columns : Schema → SelectPlan → Result (Schema × Option (List ℕ))
bind_columns schema plan = if plan.select_all then ok (schema, none) else do
  found ← each (resolve_column schema) plan.columns
  ok (map (λ f. f.1) found, some (map (λ f. f.0) found))

abbrev pub is_empty : {A : Type 0} → List A → Bool
is_empty [] = true
is_empty (x ∷ xs) = false

abbrev pub is_some {ℓ} : {A : Type ℓ} → Option A → Bool
is_some none = false
is_some (some a) = true

-- `access->path`, and `access->empty`, of an access that may be missing.
abbrev pub is_lookup : SelectAccessPath → Bool
is_lookup SelectAccessPath.index_lookup = true
is_lookup path = false

abbrev pub is_range : SelectAccessPath → Bool
is_range SelectAccessPath.index_range = true
is_range path = false

unfoldable pub matching_index_order : Option SqlOrder → Option IndexAccess → Bool
matching_index_order (some order) (some access) =
    equal_name access.column order.column && (is_lookup access.path || is_range access.path)
matching_index_order order access = false

unfoldable pub reverses_order : Option SqlOrder → Option IndexAccess → Bool
reverses_order (some order) (some access) =
    matching_index_order (some order) (some access)
    && (order.descending && (is_range access.path && not access.empty))
reverses_order order access = false

-- Whether the access leaves nothing to sort.
unfoldable pub resets_order : Option SqlOrder → Option IndexAccess → Bool
resets_order (some order) (some access) =
    access.empty || matching_index_order (some order) (some access)
resets_order order access = false

unfoldable pub candidate_limit_of : SelectPlan → Option IndexAccess → Bool → Option ℕ
candidate_limit_of plan none sorts_rows = none
candidate_limit_of plan (some access) sorts_rows = elim plan.limit [
  | none ↦ none
  | some limit ↦
      if ltb 0 limit
        && (not access.empty
            && (not sorts_rows && (access.covered_predicates == length plan.predicates)))
      then some limit
      else none
]

unfoldable pub sorts_rows_of : Option SqlOrder → Option IndexAccess → Bool
sorts_rows_of order access = if resets_order order access then false else is_some order

abbrev pub malformed : SelectPlan → Bool
malformed plan =
    (plan.select_all && not (is_empty plan.columns))
    || (not plan.select_all && is_empty plan.columns)

unfoldable pub analyze_select : Catalog → SelectPlan → Result AnalyzedSelect
analyze_select catalog plan = do
  throw_if (malformed plan) sql_bind_error
  tables ← catalog.list_tables
  table ← resolve_table tables plan.table
  predicates ← each (bind_predicate table.schema) plan.predicates
  order ← bind_optional_order table.schema plan.order
  (output_schema, projection) ← bind_columns table.schema plan
  indexes ← catalog.list_indexes
  access ← choose_index indexes table plan.predicates plan.order
  ok (record {
    table = table;
    predicates = predicates;
    order = if resets_order plan.order access then none else order;
    output_schema = output_schema;
    projection = projection;
    access = access;
    sorts_rows = sorts_rows_of plan.order access;
    reverses_index_order = reverses_order plan.order access;
    candidate_limit = candidate_limit_of plan access (sorts_rows_of plan.order access);
  })

abbrev pub is_zero : Option ℕ → Bool
is_zero none = false
is_zero (some limit) = limit == 0

-- `*access.key`: a lookup always has a key.
abbrev pub key_or_zero : Option ℤ → ℤ
key_or_zero none = pos 0
key_or_zero (some key) = key

-- The query of an access, with `reverses_index_order` and `candidate_limit`.
unfoldable pub query_of_access : TableStore → Schema → Bool → Option ℕ → IndexAccess → Result Query
query_of_access tables schema reverses limit access =
    if access.empty then from_rows [] (length schema) else elim access.path [
      | SelectAccessPath.index_lookup ↦ do
        found ← tables.lookup_index access.name (key_or_zero access.key) limit
        from_rows found (length schema)
      | _ ↦ do
        found ← tables.lookup_index_range access.name access.lower access.upper reverses limit
        from_rows found (length schema)
    ]

-- The query of the access, or of the whole table.
unfoldable pub source_query :
    TableStore → TableDefinition → Bool → Option ℕ → Option IndexAccess → Result Query
source_query tables table reverses limit none = do
  cursor ← tables.cursor table.name
  ok (from_cursor cursor.rows cursor.thrown cursor.column_count)
source_query tables table reverses limit (some access) =
    query_of_access tables table.schema reverses limit access

unfoldable pub make_query : TableStore → SelectPlan → AnalyzedSelect → Result Query
make_query tables plan analyzed =
    if is_zero plan.limit
    then from_rows [] (length analyzed.table.schema)
    else source_query tables analyzed.table analyzed.reverses_index_order analyzed.candidate_limit
        analyzed.access

unfoldable pub filter_all : List RowPredicate → Query → Result Query
filter_all [] query = ok query
filter_all (predicate ∷ predicates) query = do
  filtered ← add_filter (some predicate) query
  filter_all predicates filtered

unfoldable pub sort_if : Option RowLess → Query → Result Query
sort_if none query = ok query
sort_if (some less) query = add_sort (some less) query

unfoldable pub project_if : Option (List ℕ) → Query → Result Query
project_if none query = ok query
project_if (some columns) query = add_project columns query

unfoldable pub limit_if : Option ℕ → Query → Query
limit_if none query = query
limit_if (some limit) query = add_limit limit query

abbrev pub path_of : Option IndexAccess → SelectAccessPath
path_of none = SelectAccessPath.table_scan
path_of (some access) = access.path

abbrev pub name_of : Option IndexAccess → Option Bytes
name_of none = none
name_of (some access) = some access.name

unfoldable pub bind_select : TableStore → Catalog → SelectPlan → Result BoundSelect
bind_select tables catalog plan = do
  analyzed ← analyze_select catalog plan
  source ← make_query tables plan analyzed
  filtered ← filter_all analyzed.predicates source
  ordered ← sort_if analyzed.order filtered
  projected ← project_if analyzed.projection ordered
  ok (record {
    query = limit_if plan.limit projected;
    output_schema = analyzed.output_schema;
    access_path = path_of analyzed.access;
    index_name = name_of analyzed.access;
  })

-- `BoundSelect::next`, with the rounds that `next` has.
unfoldable pub next_row : ℕ → BoundSelect → Pulled
next_row rounds bound = next rounds bound.query.root

abbrev pub explain_access : Option IndexAccess → SelectExplanation → Bool → SelectExplanation
explain_access none explanation reverses = explanation
explain_access (some access) explanation reverses = record explanation {
  index_name = some access.name;
  lookup_key = access.key;
  lower_bound = access.lower;
  upper_bound = access.upper;
  index_scan_direction =
      if is_range access.path && not access.empty
      then some (if reverses then IndexScanDirection.reverse else IndexScanDirection.forward)
      else none;
}

abbrev pub covered_by : Option IndexAccess → ℕ
covered_by none = 0
covered_by (some access) = access.covered_predicates

abbrev pub holds_nothing : Option IndexAccess → Bool
holds_nothing none = false
holds_nothing (some access) = access.empty

-- The subtraction of `std::size_t` is of natural numbers here, which stops at 0.
unfoldable pub explain_select : Catalog → SelectPlan → Result SelectExplanation
explain_select catalog plan = do
  analyzed ← analyze_select catalog plan
  ok (
      explain_access analyzed.access
        (record {
          table = analyzed.table.name;
          access_path = path_of analyzed.access;
          index_name = none;
          lookup_key = none;
          lower_bound = none;
          upper_bound = none;
          index_scan_direction = none;
          empty_result = is_zero plan.limit || holds_nothing analyzed.access;
          predicate_count = length plan.predicates;
          residual_predicate_count = length plan.predicates - covered_by analyzed.access;
          sorts_rows = analyzed.sorts_rows;
          limit = plan.limit;
          candidate_limit = analyzed.candidate_limit;
        })
        analyzed.reverses_index_order)

unfoldable pub execute_select_sql : TableStore → Catalog → Bytes → Result BoundSelect
execute_select_sql tables catalog sql = do plan ← parse_select sql; bind_select tables catalog plan

pub data SqlExecution : Type 0 where
  bound : BoundSelect → SqlExecution
  explained : SelectExplanation → SqlExecution

unfoldable pub execute_statement : TableStore → Catalog → SqlStatement → Result SqlExecution
execute_statement tables catalog (SqlStatement.select plan) = do
  result ← bind_select tables catalog plan
  ok (bound result)
execute_statement tables catalog (SqlStatement.explain plan) = do
  explanation ← explain_select catalog plan
  ok (explained explanation)

unfoldable pub execute_sql : TableStore → Catalog → Bytes → Result SqlExecution
execute_sql tables catalog sql = do
  statement ← parse_sql_statement sql
  execute_statement tables catalog statement
