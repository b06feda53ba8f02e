-- ===== src/SqlExecutor/Interface.antt =====
-- What a query uses of the catalog and of the table store, src/catalog.cpp and src/table_store.cpp. A query
-- changes no record, so an operation is its answer in the state that the database is in.
use pageforge.Prelude.{ℕ, Bool, List, Option, Result, Exception}
use pageforge.Prelude.Int.{ℤ}
use pageforge.Bytes.{Bytes}
use pageforge.Query.{TableRow}
use pageforge.Catalog.{TableDefinition, IndexDefinition}

pub record Catalog : Type 0 where
  pub list_tables : Result (List TableDefinition)
  pub list_indexes : Result (List IndexDefinition)

-- The rows that a cursor returns, the exception that ends it, if one does, and its column count.
pub record TableCursor : Type 0 where
  pub rows : List TableRow
  pub thrown : Option Exception
  pub column_count : ℕ

pub record TableStore : Type 0 where
  pub cursor : Bytes → Result TableCursor
  pub lookup_index : Bytes → ℤ → Option ℕ → Result (List TableRow)
  pub lookup_index_range : Bytes → Option ℤ → Option ℤ → Bool → Option ℕ → Result (List TableRow)
