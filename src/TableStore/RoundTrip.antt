-- ===== src/TableStore/RoundTrip.antt =====
-- A row's envelope is read back.
use mathlib.Core.List.{append_assoc}
use pageforge.Prelude.{
  ℕ, ◌^◌, ◌<◌, ◌≡◌, refl, arith, ◌++◌, true, false, length, le→leb, le→ltb_false, ◌==◌, ok, ◌>>=◌,
  table_corruption,
}
use pageforge.Bytes.{Bytes, word_bytes}
use pageforge.Bytes.Words.{take_word-word_bytes, take_bytes-append}
use pageforge.BPlusTree.Node.{has_magic}
use pageforge.Catalog.{TableDefinition}
use pageforge.TableStore.{row_magic, parse, wrap}

-- The envelope's fields, one behind the other.
abbrev fields : TableDefinition → Bytes → Bytes
fields table tuple_bytes =
    word_bytes 2 0 1
    ++ (word_bytes 4 0 table.schema_version
        ++ (word_bytes 2 0 (length table.name) ++ (table.name ++ tuple_bytes)))

wrapped :
    (table : TableDefinition) (tuple_bytes : Bytes)
    → length table.name < 2 ^ 16
    → wrap table tuple_bytes ≡ ok (row_magic ++ fields table tuple_bytes)
unfolding wrap word_bytes
wrapped table tuple_bytes short =
    rw (le→ltb_false 65535 (length table.name) (omega arith), append_assoc)

has_magic-row_magic : (rest : Bytes) → has_magic (row_magic ++ rest) row_magic ≡ true
unfolding has_magic
has_magic-row_magic rest = rw (le→leb 4 (length (row_magic ++ rest)) (omega arith))

nonzero : (n : ℕ) → 0 < n → (n == 0) ≡ false
nonzero n h = ground arith

parsed :
    (table : TableDefinition) (tuple_bytes : Bytes)
    → 0 < length table.name
    → length table.name < 2 ^ 16
    → 0 < table.schema_version
    → table.schema_version < 2 ^ 32
    → parse (row_magic ++ fields table tuple_bytes)
      ≡ ok (record {
        table_name = table.name;
        schema_version = table.schema_version;
        tuple_bytes = tuple_bytes;
      })
unfolding parse
parsed table tuple_bytes named short positive small = rw (
  has_magic-row_magic (fields table tuple_bytes),
  take_word-word_bytes table_corruption 2 1
      (word_bytes 4 0 table.schema_version
        ++ (word_bytes 2 0 (length table.name) ++ (table.name ++ tuple_bytes)))
      (omega arith),
  take_word-word_bytes table_corruption 4 table.schema_version
      (word_bytes 2 0 (length table.name) ++ (table.name ++ tuple_bytes)) (omega arith),
  nonzero table.schema_version positive,
  take_word-word_bytes table_corruption 2 (length table.name) (table.name ++ tuple_bytes)
      (omega arith),
  nonzero (length table.name) named,
  take_bytes-append table_corruption (length table.name) table.name tuple_bytes refl,
)

-- A table with a name of 1 to 65535 bytes and a schema version of 32 bits that is not zero wraps any
-- tuple, and the envelope parses to the name, the version and the tuple.
pub parse-wrap :
    (table : TableDefinition) (tuple_bytes : Bytes)
    → 0 < length table.name
    → length table.name < 2 ^ 16
    → 0 < table.schema_version
    → table.schema_version < 2 ^ 32
    → (wrap table tuple_bytes >>= parse)
      ≡ ok (record {
        table_name = table.name;
        schema_version = table.schema_version;
        tuple_bytes = tuple_bytes;
      })
parse-wrap table tuple_bytes named short positive small =
    rw (wrapped table tuple_bytes short) (parsed table tuple_bytes named short positive small)
