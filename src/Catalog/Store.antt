-- ===== src/Catalog/Store.antt =====
-- src/catalog.cpp: the class Catalog, over what it uses of the record store and of the B+ tree. A scan is the
-- records that a cursor returns and the exception that ends it, if one does.
pub mod Lookup
pub mod Distinct
pub mod Creation
use pageforge.Prelude.{
  ℕ, ◌+◌, ◌*◌, ◌^◌, bit_or, Bool, true, false, not, ◌&&◌, List, [], ◌∷◌, ◌==◌, Option, none, some,
  if◌then◌else◌, Result, ok, err, Exception, ◌>>=◌, ◌>>◌, throw_if, invalid_argument,
  catalog_corruption,
}
use pageforge.Bytes.{Bytes}
use pageforge.Bytes.Compare.{eq_bytes}
use pageforge.RecordStore.{RecordId, Record}
use pageforge.BPlusTree.Node.{has_magic}
use pageforge.Catalog.{TableDefinition, IndexDefinition, identifier_key, contains}
use pageforge.Catalog.Tables.{table_magic, validate_table, encode, decode}
use pageforge.Catalog.Indexes.{
  index_magic, validate_index_identifiers, encode_index, decode_index, find_key, is_integer_column,
  resolve_index_reference,
}

pub record Scan : Type 0 where
  pub records : List Record
  pub thrown : Option Exception

-- What the catalog uses of a record store in a state, and of `BPlusTreeIndex::open`.
pub record RecordStore (State : Type 0) : Type 0 where
  pub scan : State → Scan
  pub insert : Bytes → State → Result RecordId × State
  pub open_index : RecordId → State → Result (Unit {0})

-- The end of a loop over a cursor.
abbrev pub ended {ℓ} : {A : Type ℓ} → Option Exception → A → Result A
ended none a = ok a
ended (some e) a = err e

unfoldable pub list_tables_loop :
    List Bytes → List Record → Option Exception → Result (List TableDefinition)
list_tables_loop names [] thrown = ended thrown []
list_tables_loop names (record' ∷ records) thrown =
    let skipped = list_tables_loop names records thrown in
    if not (has_magic record'.bytes table_magic) then skipped else do
      table ← decode record'.bytes
      throw_if (contains (identifier_key table.name) names) catalog_corruption
      tables ← list_tables_loop (identifier_key table.name ∷ names) records thrown
      ok (table ∷ tables)

unfoldable pub list_tables : Scan → Result (List TableDefinition)
list_tables scan = list_tables_loop [] scan.records scan.thrown

unfoldable pub find_table_loop :
    Bytes
    → List Bytes
    → Option TableDefinition
    → List Record
    → Option Exception
    → Result (Option TableDefinition)
find_table_loop key names found [] thrown = ended thrown found
find_table_loop key names found (record' ∷ records) thrown =
    let skipped = find_table_loop key names found records thrown in
    if not (has_magic record'.bytes table_magic) then skipped else do
      table ← decode record'.bytes
      throw_if (contains (identifier_key table.name) names) catalog_corruption
      find_table_loop key (identifier_key table.name ∷ names)
          (if eq_bytes (identifier_key table.name) key then some table else found) records thrown

unfoldable pub find_table : Bytes → Scan → Result (Option TableDefinition)
find_table name scan = find_table_loop (identifier_key name) [] none scan.records scan.thrown

unfoldable pub record_key : RecordId → ℕ
record_key id = bit_or (id.page_id * 2 ^ 16) id.slot_id

unfoldable pub contains_id : ℕ → List ℕ → Bool
contains_id value [] = false
contains_id value (member ∷ set) =
    let later = contains_id value set in if member == value then true else later

unfoldable pub list_indexes_loop :
    List TableDefinition
    → List Bytes
    → List ℕ
    → List Record
    → Option Exception
    → Result (List IndexDefinition)
list_indexes_loop tables names ids [] thrown = ended thrown []
list_indexes_loop tables names ids (record' ∷ records) thrown =
    let skipped = list_indexes_loop tables names ids records thrown in
    if not (has_magic record'.bytes index_magic) then skipped else do
      decoded ← decode_index record'.bytes
      index ← resolve_index_reference decoded tables
      throw_if (contains (identifier_key index.name) names) catalog_corruption
      throw_if (contains_id (record_key index.header_id) ids) catalog_corruption
      indexes ←
          list_indexes_loop tables (identifier_key index.name ∷ names)
            (record_key index.header_id ∷ ids) records thrown
      ok (index ∷ indexes)

unfoldable pub list_indexes : Scan → Result (List IndexDefinition)
list_indexes scan = do
  tables ← list_tables scan
  list_indexes_loop tables [] [] scan.records scan.thrown

unfoldable pub find_index_loop :
    Bytes
    → List TableDefinition
    → List Bytes
    → List ℕ
    → Option IndexDefinition
    → List Record
    → Option Exception
    → Result (Option IndexDefinition)
find_index_loop key tables names ids found [] thrown = ended thrown found
find_index_loop key tables names ids found (record' ∷ records) thrown =
    let skipped = find_index_loop key tables names ids found records thrown in
    if not (has_magic record'.bytes index_magic) then skipped else do
      decoded ← decode_index record'.bytes
      index ← resolve_index_reference decoded tables
      throw_if (contains (identifier_key index.name) names) catalog_corruption
      throw_if (contains_id (record_key index.header_id) ids) catalog_corruption
      find_index_loop key tables (identifier_key index.name ∷ names)
          (record_key index.header_id ∷ ids)
          (if eq_bytes (identifier_key index.name) key then some index else found) records thrown

unfoldable pub find_index : Bytes → Scan → Result (Option IndexDefinition)
find_index name scan = do
  tables ← list_tables scan
  find_index_loop (identifier_key name) tables [] [] none scan.records scan.thrown

-- The two loops that refuse a definition which is there already.
unfoldable pub refuse_table : Bytes → List TableDefinition → Result (Unit {0})
refuse_table key [] = ok tt
refuse_table key (existing ∷ tables) = do
  throw_if (eq_bytes (identifier_key existing.name) key) invalid_argument
  refuse_table key tables

abbrev pub same_id : RecordId → RecordId → Bool
same_id a b = (a.page_id == b.page_id) && (a.slot_id == b.slot_id)

unfoldable pub refuse_index : Bytes → RecordId → List IndexDefinition → Result (Unit {0})
refuse_index key header_id [] = ok tt
refuse_index key header_id (existing ∷ indexes) = do
  throw_if (eq_bytes (identifier_key existing.name) key) invalid_argument
  throw_if (same_id existing.header_id header_id) invalid_argument
  refuse_index key header_id indexes

abbrev pub or_invalid {ℓ} : {A : Type ℓ} → Option A → Result A
or_invalid none = err invalid_argument
or_invalid (some a) = ok a

-- The bytes that `create_table` inserts, or the exception that it throws before.
unfoldable pub table_bytes : TableDefinition → Scan → Result Bytes
table_bytes table scan = do
  validate_table table
  tables ← list_tables scan
  refuse_table (identifier_key table.name) tables
  encode table

module _ {State : Type 0} (store : RecordStore State) where
  -- The record that was made is inserted; an exception before leaves the store alone.
  abbrev pub insert_made : Result Bytes → State → Result RecordId × State
  insert_made (err e) state = (err e, state)
  insert_made (ok bytes) state = store.insert bytes state

  unfoldable pub create_table : TableDefinition → State → Result RecordId × State
  create_table table state = insert_made (table_bytes table (store.scan state)) state

  unfoldable pub index_bytes : IndexDefinition → State → Result Bytes
  index_bytes index state = do
    validate_index_identifiers index
    indexes ← list_indexes (store.scan state)
    refuse_index (identifier_key index.name) index.header_id indexes
    found ← find_table index.table (store.scan state)
    table ← or_invalid found
    column ← or_invalid (find_key (λ c. c.name) (identifier_key index.column) table.schema)
    throw_if (not (is_integer_column column)) invalid_argument
    store.open_index index.header_id state
    encode_index (record index { table = table.name; column = column.name })

  unfoldable pub register_index : IndexDefinition → State → Result RecordId × State
  register_index index state = insert_made (index_bytes index state) state
