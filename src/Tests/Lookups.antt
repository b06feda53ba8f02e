-- ===== src/Tests/Lookups.antt =====
-- Two rows of an index, from the last on.
use pageforge.Prelude.{ℕ, ◌≡◌, refl, true, [], ◌∷◌, take, none, some, ok, ◌>>=◌}
use pageforge.Prelude.Int.{pos, to_u64, from_u64}
use pageforge.Bytes.{word_bytes, read_word}
use pageforge.Bytes.Compare.{eq_bytes}
use pageforge.RecordStore.{RecordId}
use pageforge.BPlusTree.Node.{has_magic}
use pageforge.Tuple.{
  DataType, Value, known_type, validate_schema, set_bit, encode_value, encode_column, encode_loop,
  encode, test_bit, unknown_bits, decode_value, decode_column, decode_loop, decode_body, decode,
}
use pageforge.Query.{TableRow}
use pageforge.Catalog.{TableDefinition}
use pageforge.TableStore.{wrap, parse, decode_row}
use pageforge.TableStore.Lookup.{
  Database, read_index_row, find_column, open_lookup, read_entries, reverse_onto, descend,
  lookup_index_range,
}
use pageforge.TableStore.Lookup.First.{lookup_index_range-take}

abbrev t : TableDefinition
t = record {
  name = 116 ∷ [];
  schema = record { name = 105 ∷ 100 ∷ []; type = DataType.integer; nullable = true } ∷ [];
  schema_version = 1;
}

abbrev at : ℕ → RecordId
at n = record { page_id = 0; slot_id = n }

abbrev row : ℕ → TableRow
row n = record { id = at n; values = Value.integer (pos n) ∷ [] }

-- The row in slot `n` holds the number `n`.
abbrev database : Database
database = record {
  find_index = λ name.
      ok (
        some (record { name = name; table = 116 ∷ []; column = 105 ∷ 100 ∷ []; header_id = at 9 }));
  find_table = λ name. ok (some t);
  read = λ id. encode t.schema (Value.integer (pos id.slot_id) ∷ []) >>= λ bytes. wrap t bytes;
  open_index = λ id. ok (record {
    find = λ key limit. ok [];
    range = λ lower upper limit.
        ok (record { key = pos 1; value = at 1 } ∷ record { key = pos 2; value = at 2 } ∷ []);
  });
}

both_rows : lookup_index_range database (105 ∷ []) none none true none ≡ ok (row 2 ∷ row 1 ∷ [])
unfolding lookup_index_range open_lookup find_column eq_bytes descend reverse_onto read_entries
    read_index_row parse has_magic read_word wrap word_bytes decode_row encode encode_loop
    encode_column encode_value set_bit validate_schema known_type decode decode_body decode_loop
    decode_column decode_value test_bit unknown_bits to_u64 from_u64
both_rows = refl

lookup_index_range-take_example :
    lookup_index_range database (105 ∷ []) none none true (some 1)
    ≡ ok (take 1 (row 2 ∷ row 1 ∷ []))
lookup_index_range-take_example =
    lookup_index_range-take database (105 ∷ []) none none 0 (row 2 ∷ row 1 ∷ []) both_rows
