-- ===== src/SqlExecutor/Select/Catalogued.antt =====
-- The catalog of src/catalog.cpp and the table store of src/table_store.cpp together serve the executor.
use pageforge.Prelude.{List}
use pageforge.Catalog.Store.{Scan, list_tables, list_indexes}
use pageforge.SqlExecutor.Interface.{Catalog}

-- The catalog over the records of a scan.
abbrev pub catalog_of : Scan → Catalog
catalog_of scan = record { list_tables = list_tables scan; list_indexes = list_indexes scan }
