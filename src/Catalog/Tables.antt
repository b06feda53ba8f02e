-- ===== src/Catalog/Tables.antt =====
-- src/catalog.cpp: the record of a table, "PFC1".
pub mod RoundTrip
use pageforge.Prelude.{
  ℕ, zero, suc, ◌+◌, ◌%◌, ◌/◌, Bool, true, false, not, ◌&&◌, ◌||◌, List, [], ◌∷◌, ◌++◌, length,
  drop, ltb, ◌==◌, if◌then◌else◌, Result, ok, err, Exception, ◌>>=◌, ◌>>◌, throw_if,
  invalid_argument, catalog_corruption, bit_and,
}
use pageforge.Bytes.{Bytes, word_bytes, append_u16, append_u32, take_word, require_bytes}
use pageforge.Tuple.{DataType, Column, Schema}
use pageforge.Catalog.{
  TableDefinition, format_version, identifier_key, append_text, read_text, contains,
}

-- "PFC1"
abbrev pub table_magic : Bytes
table_magic = 80 ∷ 70 ∷ 67 ∷ 49 ∷ []

abbrev pub is_empty {ℓ} : {A : Type ℓ} → List A → Bool
is_empty [] = true
is_empty (x ∷ xs) = false

abbrev pub validate_type : DataType → Result (Unit {0})
validate_type DataType.unknown = err invalid_argument
validate_type type = ok tt

-- The loop of `validate_table`, with the names that it has inserted.
unfoldable pub validate_columns : List Bytes → Schema → Result (Unit {0})
validate_columns names [] = ok tt
validate_columns names (column ∷ columns) = do
  throw_if (is_empty column.name) invalid_argument
  throw_if (ltb 65535 (length column.name)) invalid_argument
  validate_type column.type
  throw_if (contains (identifier_key column.name) names) invalid_argument
  validate_columns (identifier_key column.name ∷ names) columns

unfoldable pub validate_table : TableDefinition → Result (Unit {0})
validate_table table = do
  throw_if (is_empty table.name) invalid_argument
  throw_if (ltb 65535 (length table.name)) invalid_argument
  throw_if (is_empty table.schema) invalid_argument
  throw_if (ltb 65535 (length table.schema)) invalid_argument
  throw_if (table.schema_version == 0) invalid_argument
  validate_columns [] table.schema

abbrev pub encode_type : DataType → Result ℕ
encode_type DataType.integer = ok 1
encode_type DataType.text = ok 2
encode_type DataType.boolean = ok 3
encode_type DataType.unknown = err invalid_argument

unfoldable pub decode_type : ℕ → Result DataType
decode_type byte =
    if byte == 1
    then ok DataType.integer
    else if byte == 2
    then ok DataType.text
    else if byte == 3
    then ok DataType.boolean
    else err catalog_corruption

unfoldable pub encode_columns : Schema → Bytes → Result Bytes
encode_columns [] output = ok output
encode_columns (column ∷ columns) output = do
  named ← append_text output column.name
  type ← encode_type column.type
  encode_columns columns ((named ++ type ∷ []) ++ (if column.nullable then 1 else 0) ∷ [])

unfoldable pub encode : TableDefinition → Result Bytes
encode table = do
  validate_table table
  let output = append_u32 (append_u16 table_magic format_version) table.schema_version
  named ← append_text output table.name
  encode_columns table.schema (append_u16 named (length table.schema))

-- `bytes[offset++]`, behind `require_bytes`.
abbrev pub next_byte : Bytes → ℕ × Bytes
next_byte [] = (0, [])
next_byte (byte ∷ rest) = (byte, rest)

-- One column: its type and its flags behind its name.
unfoldable pub decode_kind : Bytes → Bytes → Result (Column × Bytes)
decode_kind name bytes = do
  require_bytes catalog_corruption bytes 2
  let (tag, rest) = next_byte bytes
  type ← decode_type tag
  let (flags, rest') = next_byte rest
  throw_if (not (flags / 2 == 0)) catalog_corruption
  ok (record { name = name; type = type; nullable = not (flags % 2 == 0) }, rest')

unfoldable pub decode_columns : ℕ → List Bytes → Bytes → Result (Schema × Bytes)
decode_columns zero names bytes = ok ([], bytes)
decode_columns (suc count) names bytes = do
  (name, rest) ← read_text bytes
  throw_if (is_empty name) catalog_corruption
  throw_if (contains (identifier_key name) names) catalog_corruption
  (column, rest') ← decode_kind name rest
  (columns, rest'') ← decode_columns count (identifier_key name ∷ names) rest'
  ok (column ∷ columns, rest'')

unfoldable pub decode : Bytes → Result TableDefinition
decode bytes = do
  (version, rest1) ← take_word catalog_corruption 2 (drop (length table_magic) bytes)
  throw_if (not (version == format_version)) catalog_corruption
  (schema_version, rest2) ← take_word catalog_corruption 4 rest1
  throw_if (schema_version == 0) catalog_corruption
  (name, rest3) ← read_text rest2
  throw_if (is_empty name) catalog_corruption
  (column_count, rest4) ← take_word catalog_corruption 2 rest3
  throw_if (column_count == 0) catalog_corruption
  (schema, rest5) ← decode_columns column_count [] rest4
  throw_if (not (is_empty rest5)) catalog_corruption
  ok (record { name = name; schema = schema; schema_version = schema_version })
