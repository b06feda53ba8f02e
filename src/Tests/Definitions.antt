-- ===== src/Tests/Definitions.antt =====
-- A catalog that holds a table with an integer column, and an index on it.
use pageforge.Prelude.{
  ℕ, ◌≡◌, refl, arith, true, List, [], ◌∷◌, none, some, ok, err, ◌>>=◌, invalid_argument,
}
use pageforge.Bytes.{Bytes, word_bytes, read_word}
use pageforge.Bytes.Compare.{eq_bytes}
use pageforge.BPlusTree.Node.{has_magic}
use pageforge.RecordStore.{RecordId}
use pageforge.SqlParser.Tokens.{ascii_lower}
use pageforge.Tuple.{DataType}
use pageforge.Catalog.{
  TableDefinition, IndexDefinition, identifier_key, append_text, read_text, contains,
}
use pageforge.Catalog.Tables.{
  table_magic, validate_columns, validate_table, encode_columns, encode, decode_type, decode_kind,
  decode_columns, decode,
}
use pageforge.Catalog.Tables.RoundTrip.{decode-encode_table}
use pageforge.Catalog.Indexes.{
  index_magic, validate_identifier, validate_index_identifiers, encode_index, decode_index,
  find_key, resolve_index_reference,
}
use pageforge.Catalog.Indexes.RoundTrip.{decode_index-encode_index}
use pageforge.Catalog.Store.{
  Scan, RecordStore, list_tables_loop, list_tables, find_table_loop, find_table, record_key,
  contains_id, list_indexes_loop, list_indexes, refuse_index, create_table, index_bytes,
}
use pageforge.Catalog.Store.Lookup.{find_table-list_tables}
use pageforge.Catalog.Store.Distinct.{DistinctTrees, list_indexes-Distinct}
use pageforge.Catalog.Store.Creation.{create_table-inserts, index_bytes-resolves}
use pageforge.SqlExecutor.Access.Names.{Distinct}

-- T (Id INTEGER)
abbrev pub t : TableDefinition
t = record {
  name = 84 ∷ [];
  schema = record { name = 73 ∷ 100 ∷ []; type = DataType.integer; nullable = true } ∷ [];
  schema_version = 1;
}

abbrev i : IndexDefinition
i = record {
  name = 105 ∷ [];
  table = 116 ∷ [];
  column = 105 ∷ 100 ∷ [];
  header_id = record { page_id = 1; slot_id = 2 };
}

t_valid : validate_table t ≡ ok tt
unfolding validate_table validate_columns contains identifier_key ascii_lower
t_valid = refl

decode-encode_table_example :
    (bytes : Bytes) × (encode t ≡ ok bytes)
    × (has_magic bytes table_magic ≡ true)
    × (decode bytes ≡ ok t)
decode-encode_table_example = decode-encode_table t t_valid (omega arith)

i_valid : validate_index_identifiers i ≡ ok tt
unfolding validate_index_identifiers validate_identifier
i_valid = refl

decode_index-encode_index_example :
    (bytes : Bytes) × (encode_index i ≡ ok bytes)
    × (has_magic bytes index_magic ≡ true)
    × (decode_index bytes ≡ ok i)
decode_index-encode_index_example = decode_index-encode_index i i_valid (omega arith) (omega arith)

abbrev pub t_bytes : Bytes
t_bytes =
    80 ∷ 70 ∷ 67 ∷ 49 ∷ 1 ∷ 0 ∷ 1 ∷ 0 ∷ 0 ∷ 0 ∷ 1 ∷ 0 ∷ 84 ∷ 1 ∷ 0 ∷ 2 ∷ 0 ∷ 73 ∷ 100 ∷ 1 ∷ 1 ∷ []

t_encoded : encode t ≡ ok t_bytes
unfolding encode validate_table validate_columns contains identifier_key ascii_lower append_text
    encode_columns word_bytes
t_encoded = refl

abbrev pub i_bytes : Bytes
i_bytes =
    80 ∷ 70 ∷ 88 ∷ 49 ∷ 1 ∷ 0 ∷ 0 ∷ 0 ∷ 1 ∷ 0 ∷ 0 ∷ 0 ∷ 2 ∷ 0 ∷ 0 ∷ 0 ∷ 1 ∷ 0 ∷ 105 ∷ 1 ∷ 0 ∷ 84 ∷ 2
    ∷ 0 ∷ 73 ∷ 100 ∷ []

abbrev at : ℕ → RecordId
at n = record { page_id = 0; slot_id = n }

abbrev pub scan : Scan
scan = record {
  records = record { id = at 0; bytes = t_bytes } ∷ record { id = at 1; bytes = i_bytes } ∷ [];
  thrown = none;
}

abbrev pub listed_i : IndexDefinition
listed_i = record {
  name = 105 ∷ [];
  table = 84 ∷ [];
  column = 73 ∷ 100 ∷ [];
  header_id = record { page_id = 1; slot_id = 2 };
}

tables_listed : list_tables scan ≡ ok (t ∷ [])
unfolding list_tables list_tables_loop has_magic decode read_text read_word decode_columns
    decode_kind decode_type contains identifier_key ascii_lower
tables_listed = refl

pub indexes_listed : list_indexes scan ≡ ok (listed_i ∷ [])
unfolding list_indexes list_indexes_loop list_tables list_tables_loop has_magic decode decode_index
    read_text read_word decode_columns decode_kind decode_type contains contains_id identifier_key
    ascii_lower resolve_index_reference find_key eq_bytes
indexes_listed = refl

list_indexes-Distinct_example : Distinct (listed_i ∷ []) × DistinctTrees (listed_i ∷ [])
list_indexes-Distinct_example = list_indexes-Distinct scan (listed_i ∷ []) indexes_listed

find_table-list_tables_example : find_table (116 ∷ []) scan ≡ (
    list_tables scan >>= λ tables.
    ok (find_key (λ table. table.name) (identifier_key (116 ∷ [])) tables))
find_table-list_tables_example = find_table-list_tables (116 ∷ []) scan

-- A store that drops what it is given.
abbrev store : RecordStore Scan
store = record { scan = λ s. s; insert = λ bytes s. (ok (at 7), s); open_index = λ id s. ok tt }

t_taken :
    find_key (λ (table : TableDefinition). table.name) (identifier_key t.name) (t ∷ []) ≡ some t
unfolding find_key identifier_key ascii_lower eq_bytes
t_taken = refl

create_table-inserts_example :
    ((find_key (λ (table : TableDefinition). table.name) (identifier_key t.name) (t ∷ []) ≡ none)
      → (bytes : Bytes) × (create_table store t scan ≡ store.insert bytes scan)
        × (has_magic bytes table_magic ≡ true)
        × (decode bytes ≡ ok t))
    × ((existing : TableDefinition)
        → find_key (λ (table : TableDefinition). table.name) (identifier_key t.name) (t ∷ [])
          ≡ some existing
        → create_table store t scan ≡ (err invalid_argument, scan))
create_table-inserts_example =
    create_table-inserts store t (t ∷ []) scan t_valid (omega arith) tables_listed

abbrev j : IndexDefinition
j = record {
  name = 106 ∷ [];
  table = 116 ∷ [];
  column = 105 ∷ 68 ∷ [];
  header_id = record { page_id = 3; slot_id = 0 };
}

abbrev j_bytes : Bytes
j_bytes =
    80 ∷ 70 ∷ 88 ∷ 49 ∷ 1 ∷ 0 ∷ 0 ∷ 0 ∷ 3 ∷ 0 ∷ 0 ∷ 0 ∷ 0 ∷ 0 ∷ 0 ∷ 0 ∷ 1 ∷ 0 ∷ 106 ∷ 1 ∷ 0 ∷ 84 ∷ 2
    ∷ 0 ∷ 73 ∷ 100 ∷ []

j_made : index_bytes store j scan ≡ ok j_bytes
unfolding index_bytes validate_index_identifiers validate_identifier encode_index append_text
    word_bytes refuse_index find_table find_table_loop list_indexes list_indexes_loop list_tables
    list_tables_loop has_magic decode decode_index read_text read_word decode_columns decode_kind
    decode_type contains contains_id record_key identifier_key ascii_lower resolve_index_reference
    find_key eq_bytes
j_made = refl

index_bytes-resolves_example :
    (tables : List TableDefinition) × (normalized : IndexDefinition) × (list_tables
        (store.scan scan)
      ≡ ok tables)
    × (decode_index j_bytes ≡ ok normalized)
    × (resolve_index_reference normalized tables ≡ ok normalized)
    × (normalized.name ≡ j.name)
    × (normalized.header_id ≡ j.header_id)
index_bytes-resolves_example =
    index_bytes-resolves store j scan j_bytes (omega arith) (omega arith) j_made
