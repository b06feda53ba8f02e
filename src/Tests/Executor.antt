-- ===== src/Tests/Executor.antt =====
-- SELECT * FROM t WHERE ID >= 3, on a table with an index on `id`.
use pageforge.Prelude.{ℕ, ◌≡◌, refl, arith, true, false, List, [], ◌∷◌, none, some, All, ok}
use pageforge.Prelude.Int.{ℤ, pos}
use pageforge.Bytes.{Bytes}
use pageforge.Tuple.{DataType, Value}
use pageforge.Query.{TableRow, RowLess, stable_sort}
use pageforge.Query.Sort.{IsWeakOrder}
use pageforge.Tuple.Typing.{RowFits}
use pageforge.SqlParser.Ast.{SqlComparison, SqlPredicateKind, SqlPredicate, SqlOrder, SelectPlan}
use pageforge.Catalog.{TableDefinition, IndexDefinition}
use pageforge.SqlParser.Tokens.{ascii_lower, equal_lower}
use pageforge.Bytes.Compare.{eq_bytes}
use pageforge.SqlExecutor.Binding.{
  equal_name, resolve_loop, resolve_column, literal_matches, value_at, compare_by, compare_integer,
  compare_value, bind_comparison, bind_kind, bind_predicate, value_before, bind_order,
}
use pageforge.SqlExecutor.Binding.Order.{bind_order-IsWeakOrder}
use pageforge.SqlExecutor.Binding.Order.Sorted.{IsOrdered, stable_sort-bind_order-IsOrdered}
use pageforge.SqlExecutor.Binding.Resolution.{candidates_named, only, resolve_column-only}
use pageforge.SqlExecutor.Access.{
  SelectAccessPath, IndexAccess, first_index, matching_index, fold, update_or_push, collect_lookup,
  count_lookups, max_element, impossible, bound_of, fresh_range, add_range, collect_range,
  choose_range, choose_counted, choose_index,
}
use pageforge.SqlExecutor.Access.Bounds.{Admits}
use pageforge.SqlExecutor.Access.Rows.{value_of, Satisfies, choose_index-Sound}
use pageforge.SqlExecutor.Access.Limit.{choose_index-Covers}

abbrev id : Bytes
id = 105 ∷ 100 ∷ []

abbrev t : TableDefinition
t = record {
  name = 116 ∷ [];
  schema = record { name = id; type = DataType.integer; nullable = true } ∷ [];
  schema_version = 1;
}

abbrev indexes : List IndexDefinition
indexes =
    record {
      name = 105 ∷ [];
      table = 116 ∷ [];
      column = id;
      header_id = record { page_id = 1; slot_id = 0 };
    }
    ∷ []

-- ID >= 3
abbrev pub at_least_3 : SqlPredicate
at_least_3 = record {
  column = 73 ∷ 68 ∷ [];
  kind = SqlPredicateKind.comparison;
  comparison = SqlComparison.greater_equal;
  literal = Value.integer (pos 3);
}

abbrev from_3 : IndexAccess
from_3 = record {
  path = SelectAccessPath.index_range;
  name = 105 ∷ [];
  column = id;
  key = none;
  lower = some (pos 3);
  upper = none;
  covered_predicates = 1;
  selected_predicates = 1;
  empty = false;
}

abbrev pub table_row : ℕ → TableRow
table_row n = record {
  id = record { page_id = 0; slot_id = n };
  values = Value.integer (pos n) ∷ [];
}

abbrev pub null_row : TableRow
null_row = record { id = record { page_id = 0; slot_id = 0 }; values = Value.null ∷ [] }

chosen : choose_index indexes t (at_least_3 ∷ []) none ≡ ok (some from_3)
unfolding choose_index fold collect_lookup count_lookups choose_counted choose_range collect_range
    matching_index resolve_column resolve_loop equal_name equal_lower ascii_lower first_index
    eq_bytes add_range update_or_push fresh_range bound_of impossible max_element
chosen = refl

satisfied : Satisfies t.schema (table_row 5) at_least_3
unfolding bind_predicate bind_kind bind_comparison resolve_column resolve_loop equal_name
    equal_lower ascii_lower literal_matches compare_value compare_integer compare_by
satisfied = refl

choose_index-Sound_example :
    (n : ℤ) × (value_of t.schema (table_row 5).values id ≡ Value.integer n) × Admits from_3 n
choose_index-Sound_example =
    choose_index-Sound indexes t (at_least_3 ∷ []) none from_3 (table_row 5) (tt, tt)
      ((omega arith, omega arith), tt) (satisfied, tt) chosen

value_there : value_of t.schema (table_row 5).values id ≡ Value.integer (pos 5)
unfolding value_of eq_bytes
value_there = refl

choose_index-Covers_example : All (Satisfies t.schema (table_row 5)) (at_least_3 ∷ [])
choose_index-Covers_example =
    choose_index-Covers indexes t (at_least_3 ∷ []) none from_3 (table_row 5) (pos 5) (tt, tt)
      chosen refl value_there (record { nonempty = refl; key = tt; lower = refl; upper = tt })

abbrev pub plan : SelectPlan
plan = record {
  table = 84 ∷ [];
  select_all = true;
  columns = [];
  predicates = at_least_3 ∷ [];
  order = none;
  limit = none;
}

abbrev pub table_rows : List TableRow
table_rows = table_row 5 ∷ null_row ∷ table_row 2 ∷ []

abbrev by_id : SqlOrder
by_id = record { column = id; descending = true }

abbrev before_id : RowLess
before_id = λ left right. value_before DataType.integer true (value_at left 0) (value_at right 0)

by_id_bound : bind_order t.schema by_id ≡ ok before_id
unfolding bind_order resolve_column resolve_loop equal_name equal_lower ascii_lower
by_id_bound = refl

bind_order-IsWeakOrder_example : IsWeakOrder (λ row. RowFits t.schema row.values) before_id
bind_order-IsWeakOrder_example = bind_order-IsWeakOrder t.schema by_id before_id by_id_bound

id_resolved :
    resolve_column t.schema id
    ≡ ok (0, record { name = id; type = DataType.integer; nullable = true })
unfolding resolve_column resolve_loop equal_name equal_lower ascii_lower
id_resolved = refl

stable_sort-bind_order-IsOrdered_example : IsOrdered true 0 (stable_sort before_id table_rows)
stable_sort-bind_order-IsOrdered_example =
    stable_sort-bind_order-IsOrdered t.schema by_id 0
      (record { name = id; type = DataType.integer; nullable = true }) before_id table_rows
      id_resolved by_id_bound
      (
        ((refl, (omega arith, omega arith)), tt),
        ((refl, tt), (((refl, (omega arith, omega arith)), tt), tt)),
      )

resolve_column-only_example :
    resolve_column t.schema (73 ∷ 68 ∷ [])
    ≡ only (candidates_named (λ c. c.name) (73 ∷ 68 ∷ []) t.schema 0)
resolve_column-only_example = resolve_column-only t.schema (73 ∷ 68 ∷ [])
