-- ===== src/Catalog/Indexes.antt =====
-- src/catalog.cpp: the record of an index, "PFX1", and what it refers to.
pub mod RoundTrip
use pageforge.Prelude.{
  ℕ, ◌+◌, Bool, true, false, not, ◌||◌, List, [], ◌∷◌, ◌++◌, length, drop, ltb, ◌==◌, Option, none,
  some, if◌then◌else◌, Result, ok, err, ◌>>=◌, ◌>>◌, throw_if, invalid_argument, catalog_corruption,
}
use pageforge.Bytes.{Bytes, append_u16, append_u32, take_word}
use pageforge.Bytes.Compare.{eq_bytes}
use pageforge.Tuple.{DataType, Column, Schema}
use pageforge.Catalog.{
  TableDefinition, IndexDefinition, format_version, identifier_key, append_text, read_text,
}
use pageforge.Catalog.Tables.{is_empty}

-- "PFX1"
abbrev pub index_magic : Bytes
index_magic = 80 ∷ 70 ∷ 88 ∷ 49 ∷ []

unfoldable pub validate_identifier : Bytes → Result (Unit {0})
validate_identifier value = do
  throw_if (is_empty value) invalid_argument
  throw_if (ltb 65535 (length value)) invalid_argument

unfoldable pub validate_index_identifiers : IndexDefinition → Result (Unit {0})
validate_index_identifiers index = do
  validate_identifier index.name
  validate_identifier index.table
  validate_identifier index.column

unfoldable pub encode_index : IndexDefinition → Result Bytes
encode_index index = do
  validate_index_identifiers index
  let output = append_u16 (append_u16 index_magic format_version) 0
  let output' =
      append_u16 (append_u16 (append_u32 output index.header_id.page_id) index.header_id.slot_id) 0
  named ← append_text output' index.name
  with_table ← append_text named index.table
  append_text with_table index.column

unfoldable pub decode_index : Bytes → Result IndexDefinition
decode_index bytes = do
  (version, rest1) ← take_word catalog_corruption 2 (drop (length index_magic) bytes)
  throw_if (not (version == format_version)) catalog_corruption
  (flags, rest2) ← take_word catalog_corruption 2 rest1
  throw_if (not (flags == 0)) catalog_corruption
  (page_id, rest3) ← take_word catalog_corruption 4 rest2
  (slot_id, rest4) ← take_word catalog_corruption 2 rest3
  (padding, rest5) ← take_word catalog_corruption 2 rest4
  throw_if (not (padding == 0)) catalog_corruption
  (name, rest6) ← read_text rest5
  (table, rest7) ← read_text rest6
  (column, rest8) ← read_text rest7
  throw_if (is_empty name || (is_empty table || is_empty column)) catalog_corruption
  throw_if (not (is_empty rest8)) catalog_corruption
  ok (record {
    name = name;
    table = table;
    column = column;
    header_id = record { page_id = page_id; slot_id = slot_id };
  })

-- `std::find_if` by the key of a name.
unfoldable pub find_key {ℓ} : {A : Type ℓ} → (A → Bytes) → Bytes → List A → Option A
find_key name_of key [] = none
find_key name_of key (a ∷ rest) =
    let later = find_key name_of key rest in
    if eq_bytes (identifier_key (name_of a)) key then some a else later

abbrev pub or_throw {ℓ} : {A : Type ℓ} → Option A → Result A
or_throw none = err catalog_corruption
or_throw (some a) = ok a

abbrev pub is_integer_column : Column → Bool
is_integer_column column = elim column.type [ DataType.integer ↦ true | _ ↦ false ]

unfoldable pub resolve_index_reference :
    IndexDefinition → List TableDefinition → Result IndexDefinition
resolve_index_reference index tables = do
  table ← or_throw (find_key (λ t. t.name) (identifier_key index.table) tables)
  column ← or_throw (find_key (λ c. c.name) (identifier_key index.column) table.schema)
  throw_if (not (is_integer_column column)) catalog_corruption
  ok (record index { table = table.name; column = column.name })
