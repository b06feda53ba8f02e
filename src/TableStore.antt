-- ===== src/TableStore.antt =====
-- src/table_store.cpp: the envelope of a table's row, and the comparison of identifiers.
pub mod RoundTrip
pub mod Lookup
pub mod Cursor
use pageforge.Prelude.{
  ℕ, ◌+◌, List, [], ◌∷◌, ◌++◌, Bool, true, false, not, length, drop, ltb, ◌==◌, Result, ok, err,
  Exception, ◌>>=◌, ◌>>◌, throw_if, invalid_argument, table_corruption, tuple_corruption,
  if◌then◌else◌,
}
use pageforge.Bytes.{Bytes, append_u16, append_u32, take_word, take_bytes}
use pageforge.BPlusTree.Node.{has_magic}
use pageforge.Catalog.{TableDefinition}
use pageforge.Tuple.{Schema, Tuple, decode}
use pageforge.SqlParser.Tokens.{equal_lower}

-- "PFR1"
abbrev pub row_magic : Bytes
row_magic = 80 ∷ 70 ∷ 82 ∷ 49 ∷ []

abbrev pub row_version : ℕ
row_version = 1

pub record RowEnvelope : Type 0 where
  pub table_name : Bytes
  pub schema_version : ℕ
  pub tuple_bytes : Bytes

unfoldable pub equal_identifier : Bytes → Bytes → Bool
equal_identifier left right =
    if not (length left == length right) then false else equal_lower left right

unfoldable pub parse : Bytes → Result RowEnvelope
parse bytes = do
  throw_if (not (has_magic bytes row_magic)) invalid_argument
  (version, rest1) ← take_word table_corruption 2 (drop (length row_magic) bytes)
  throw_if (not (version == row_version)) table_corruption
  (schema_version, rest2) ← take_word table_corruption 4 rest1
  throw_if (schema_version == 0) table_corruption
  (name_length, rest3) ← take_word table_corruption 2 rest2
  throw_if (name_length == 0) table_corruption
  (table_name, rest4) ← take_bytes table_corruption name_length rest3
  ok (record { table_name = table_name; schema_version = schema_version; tuple_bytes = rest4 })

unfoldable pub wrap : TableDefinition → Bytes → Result Bytes
wrap table tuple_bytes =
    if ltb 65535 (length table.name)
    then err invalid_argument
    else let output = append_u16 row_magic row_version in
      let output = append_u32 output table.schema_version in
      let output = append_u16 output (length table.name) in
      ok ((output ++ table.name) ++ tuple_bytes)

-- A tuple's corruption is the table's; the other exceptions pass.
unfoldable pub decode_row : TableDefinition → RowEnvelope → Result Tuple
decode_row table envelope =
    if not (envelope.schema_version == table.schema_version)
    then err table_corruption
    else translated (decode table.schema envelope.tuple_bytes)
  where
    translated : Result Tuple → Result Tuple
    translated (ok tuple) = ok tuple
    translated (err Exception.tuple_corruption) = err table_corruption
    translated (err e) = err e
