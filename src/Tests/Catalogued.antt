-- ===== src/Tests/Catalogued.antt =====
-- SELECT * FROM T WHERE ID >= 3, with the catalog read from its records.
use mathlib.Core.List.{Memᴰ}
use mathlib.Core.List.Memᴰ.{cases_cons, not-nil}
use pageforge.Prelude.{◌≡◌, refl, arith, false, [], ◌∷◌, none, some, inl, inr, ok}
use pageforge.Prelude.Int.{pos}
use pageforge.Bytes.{read_word}
use pageforge.Bytes.Compare.{eq_bytes}
use pageforge.Tuple.{DataType, Value}
use pageforge.Query.{TableRow}
use pageforge.BPlusTree.Node.{has_magic}
use pageforge.SqlParser.Ast.{SqlComparison}
use pageforge.SqlParser.Tokens.{ascii_lower, equal_lower}
use pageforge.Catalog.{identifier_key, read_text, contains}
use pageforge.Catalog.Tables.{decode_type, decode_kind, decode_columns, decode}
use pageforge.Catalog.Indexes.{decode_index, find_key, resolve_index_reference}
use pageforge.Catalog.Store.{
  list_tables_loop, list_tables, record_key, contains_id, list_indexes_loop, list_indexes,
}
use pageforge.SqlExecutor.Binding.{
  equal_name, resolve_loop, resolve_table, resolve_column, literal_matches, value_at, compare_value,
  bind_comparison, bind_kind, bind_predicate,
}
use pageforge.SqlExecutor.Access.{
  SelectAccessPath, IndexAccess, first_index, matching_index, fold, update_or_push, collect_lookup,
  count_lookups, max_element, impossible, bound_of, fresh_range, add_range, collect_range,
  choose_range, choose_counted, choose_index,
}
use pageforge.SqlExecutor.Select.{
  AnalyzedSelect, BoundSelect, each, bind_optional_order, bind_columns, matching_index_order,
  reverses_order, resets_order, candidate_limit_of, sorts_rows_of, analyze_select, bind_select,
}
use pageforge.SqlExecutor.Select.Source.{IsTableRow}
use pageforge.SqlExecutor.Select.Catalogued.{catalog_of}
use pageforge.SqlExecutor.Select.Stored.{store_of, store_of-Serves}
use pageforge.SqlExecutor.Select.Limited.{without_limit, bind_select-limit}
use pageforge.SqlParser.Ast.{SelectPlan}
use pageforge.Query.Pipeline.{denote, limit_rows}
use pageforge.Tests.Definitions.{t, listed_i}
use pageforge.Tests.Stored.{stored, table_rows, database, agrees}
use pageforge.Tests.Executor.{plan}

abbrev from_3 : IndexAccess
from_3 = record {
  path = SelectAccessPath.index_range;
  name = 105 ∷ [];
  column = 73 ∷ 100 ∷ [];
  key = none;
  lower = some (pos 3);
  upper = none;
  covered_predicates = 1;
  selected_predicates = 1;
  empty = false;
}

abbrev analyzed : AnalyzedSelect
analyzed = record {
  table = t;
  predicates =
      (λ row.
        compare_value DataType.integer SqlComparison.greater_equal (Value.integer (pos 3))
          (value_at row 0))
      ∷ [];
  order = none;
  output_schema = t.schema;
  projection = none;
  access = some from_3;
  sorts_rows = false;
  reverses_index_order = false;
  candidate_limit = none;
}

stored_indexes : list_indexes stored ≡ ok (listed_i ∷ [])
unfolding list_indexes list_indexes_loop list_tables list_tables_loop has_magic decode decode_index
    read_text read_word decode_columns decode_kind decode_type contains contains_id record_key
    identifier_key ascii_lower resolve_index_reference find_key eq_bytes
stored_indexes = refl

typed : (row : TableRow) → Memᴰ row table_rows → IsTableRow (listed_i ∷ []) t table_rows row
typed row m = elim (cases_cons m) [
  | inl is ↦ rw is (refl, ((omega arith, omega arith), tt))
  | inr later ↦ elim (cases_cons later) [
    | inl is ↦ rw is (refl, ((omega arith, omega arith), tt))
    | inr last ↦ elim (cases_cons last) [
      | inl is ↦ rw is (refl, ((omega arith, omega arith), tt))
      | inr nowhere ↦ absurd (not-nil nowhere)
    ]
  ]
]

abbrev first_plan : SelectPlan
first_plan = record plan { limit = some 1 }

abbrev first_analyzed : AnalyzedSelect
first_analyzed = record analyzed { candidate_limit = some 1 }

first_analyzes : analyze_select (catalog_of stored) first_plan ≡ ok first_analyzed
unfolding analyze_select choose_index fold collect_lookup count_lookups choose_counted choose_range
    collect_range matching_index resolve_table resolve_column resolve_loop equal_name equal_lower
    ascii_lower first_index eq_bytes add_range update_or_push fresh_range bound_of impossible
    max_element bind_predicate bind_kind bind_comparison literal_matches each bind_optional_order
    bind_columns matching_index_order resets_order reverses_order sorts_rows_of candidate_limit_of
    list_indexes list_indexes_loop list_tables list_tables_loop has_magic decode decode_index
    read_text read_word decode_columns decode_kind decode_type contains contains_id record_key
    identifier_key resolve_index_reference find_key
first_analyzes = refl

bind_select-limit_example :
    (bound : BoundSelect) × (unlimited : BoundSelect) × (bind_select
        (store_of database stored)
        (catalog_of stored)
        first_plan
      ≡ ok bound)
    × (bind_select (store_of database stored) (catalog_of stored) (without_limit first_plan)
        ≡ ok unlimited)
    × (denote bound.query.root ≡ limit_rows 1 (denote unlimited.query.root))
bind_select-limit_example =
    bind_select-limit (store_of database stored) (catalog_of stored) first_plan first_analyzed
      (listed_i ∷ []) table_rows 1 first_analyzes refl stored_indexes (tt, tt)
      (store_of-Serves database stored (listed_i ∷ []) t table_rows agrees) typed
