-- ===== src/TableStore/Lookup.antt =====
-- src/table_store.cpp: the rows that an index leads to, over what the table store uses of the catalog, of the
-- record store and of an open tree.
pub mod First
pub mod Reads
use pageforge.Prelude.{
  ℕ, zero, suc, ◌+◌, Bool, true, false, not, ◌&&◌, ◌||◌, List, [], ◌∷◌, ◌++◌, length, take, get_or,
  Option, none, some, ltb, ◌==◌, if◌then◌else◌, Result, ok, err, Exception, ◌>>=◌, ◌>>◌, throw_if,
  out_of_range, invalid_argument, table_corruption, catalog_corruption,
}
use pageforge.Prelude.Int.{ℤ, eq_ℤ}
use pageforge.Bytes.{Bytes}
use pageforge.Bytes.Compare.{eq_bytes}
use pageforge.RecordStore.{RecordId}
use pageforge.BPlusTree.Entry.{IndexEntry}
use pageforge.Tuple.{DataType, Column, Schema, Value, Tuple}
use pageforge.Query.{TableRow}
use pageforge.Catalog.{TableDefinition, IndexDefinition}
use pageforge.TableStore.{RowEnvelope, parse, decode_row}

-- `BPlusTreeIndex::find` and `BPlusTreeIndex::range` of an open tree.
pub record Index : Type 0 where
  pub find : ℤ → Option ℕ → Result (List RecordId)
  pub range : Option ℤ → Option ℤ → Option ℕ → Result (List IndexEntry)

-- The database in one state.
pub record Database : Type 0 where
  pub find_index : Bytes → Result (Option IndexDefinition)
  pub find_table : Bytes → Result (Option TableDefinition)
  pub read : RecordId → Result Bytes
  pub open_index : RecordId → Result Index

-- `catch` of one exception, which becomes a corruption of the table.
abbrev pub corrupt_if_missing : {A : Type 0} → Result A → Result A
corrupt_if_missing (err Exception.out_of_range) = err table_corruption
corrupt_if_missing result = result

abbrev pub corrupt_if_invalid : {A : Type 0} → Result A → Result A
corrupt_if_invalid (err Exception.invalid_argument) = err table_corruption
corrupt_if_invalid result = result

abbrev pub has_key : Value → ℤ → Bool
has_key (Value.integer n) key = eq_ℤ n key
has_key value key = false

unfoldable pub read_index_row : Database → TableDefinition → ℕ → ℤ → RecordId → Result TableRow
read_index_row database table position key id = do
  bytes ← corrupt_if_missing (database.read id)
  envelope ← corrupt_if_invalid (parse bytes)
  throw_if (not (eq_bytes envelope.table_name table.name)) table_corruption
  values ← decode_row table envelope
  throw_if (not (has_key (get_or values position Value.null) key)) table_corruption
  ok (record { id = id; values = values })

-- `std::find_if` by the name, with the position.
unfoldable pub find_column : Bytes → Schema → ℕ → Option (ℕ × Column)
find_column name [] position = none
find_column name (column ∷ columns) position =
    let later = find_column name columns (position + 1) in
    if eq_bytes column.name name then some (position, column) else later

-- The position of the index's column, which is an integer.
abbrev pub integer_position : Option (ℕ × Column) → Result ℕ
integer_position none = err catalog_corruption
integer_position (some (position, column)) = elim column.type [
  | DataType.integer ↦ ok position
  | _ ↦ err catalog_corruption
]

abbrev pub or_missing : {A : Type 0} → Option A → Result A
or_missing none = err out_of_range
or_missing (some a) = ok a

-- The table, the position of the column and the tree of an index.
unfoldable pub open_lookup : Database → Bytes → Result (TableDefinition × ℕ × Index)
open_lookup database index_name = do
  found ← database.find_index index_name
  definition ← or_missing found
  owner ← database.find_table definition.table
  table ← or_missing owner
  position ← integer_position (find_column definition.column table.schema 0)
  index ← database.open_index definition.header_id
  ok (table, position, index)

unfoldable pub read_ids : (RecordId → Result TableRow) → List RecordId → Result (List TableRow)
read_ids read [] = ok []
read_ids read (id ∷ ids) = do row ← read id; rows ← read_ids read ids; ok (row ∷ rows)

unfoldable pub lookup_index : Database → Bytes → ℤ → Option ℕ → Result (List TableRow)
lookup_index database index_name key limit = do
  (table, position, index) ← open_lookup database index_name
  ids ← index.find key limit
  read_ids (read_index_row database table position key) ids

abbrev pub reaches : Option ℕ → ℕ → Bool
reaches none count = false
reaches (some limit) count = count == limit

-- The loops that push a row for each entry, with the number of rows pushed, and stop at the limit.
unfoldable pub read_entries :
    (IndexEntry → Result TableRow) → Option ℕ → ℕ → List IndexEntry → Result (List TableRow)
read_entries read limit count [] = ok []
read_entries read limit count (entry ∷ entries) = do
  row ← read entry
  if reaches limit (count + 1)
      then ok (row ∷ [])
      else (do rows ← read_entries read limit (count + 1) entries; ok (row ∷ rows))

unfoldable pub reverse_onto : List IndexEntry → List IndexEntry → List IndexEntry
reverse_onto [] done = done
reverse_onto (entry ∷ entries) done = reverse_onto entries (entry ∷ done)

-- The entries group by group from the last, each group in its own order: a group of one key is collected on the way back.
unfoldable pub descend : List IndexEntry → List IndexEntry → List IndexEntry
descend group [] = group
descend [] (entry ∷ before) = descend (entry ∷ []) before
descend (first ∷ group) (entry ∷ before) =
    let same = descend (entry ∷ first ∷ group) before in
    let other = descend (entry ∷ []) before in
    if eq_ℤ entry.key first.key then same else (first ∷ group) ++ other

abbrev pub is_positive : Option ℕ → Bool
is_positive none = true
is_positive (some limit) = ltb 0 limit

unfoldable pub lookup_index_range :
    Database → Bytes → Option ℤ → Option ℤ → Bool → Option ℕ → Result (List TableRow)
lookup_index_range database index_name lower upper descending limit = do
  (table, position, index) ← open_lookup database index_name
  entries ← index.range lower upper (if descending && is_positive limit then none else limit)
  let read = λ (entry : IndexEntry). read_index_row database table position entry.key entry.value
  if not descending
      then read_entries read none 0 entries
      else read_entries read limit 0 (descend [] (reverse_onto entries []))
