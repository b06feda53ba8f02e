-- ===== src/Catalog/Tables/RoundTrip.antt =====
-- The definition of a table is read back from its record.
use mathlib.Core.List.{append_assoc, append-nil}
use pageforge.Prelude.{
  ℕ, suc, ◌^◌, ◌<◌, ◌≡◌, refl, sym, ap, ◌∙◌, arith, Bool, true, false, List, [], ◌∷◌, ◌++◌, length,
  ltb, ◌==◌, if◌then◌else◌, ok, >>=-eq-ok, throw_if, throw_if-eq-ok, le→leb, invalid_argument,
  catalog_corruption,
}
use pageforge.Bytes.{Bytes, word_bytes}
use pageforge.Bytes.Words.{take_word-word_bytes}
use pageforge.Tuple.{DataType, Column, Schema}
use pageforge.BPlusTree.Node.{has_magic}
use pageforge.Catalog.{TableDefinition, identifier_key, contains}
use pageforge.Catalog.Text.{text_bytes, append_text-ok, read_text-text_bytes}
use pageforge.Catalog.Tables.{
  table_magic, is_empty, validate_type, validate_columns, validate_table, encode_type, decode_type,
  encode_columns, encode, decode_kind, decode_columns, decode,
}

abbrev tag_of : DataType → ℕ
tag_of DataType.integer = 1
tag_of DataType.text = 2
tag_of DataType.boolean = 3
tag_of DataType.unknown = 0

abbrev flags_of : Bool → ℕ
flags_of nullable = if nullable then 1 else 0

abbrev columns_bytes : Schema → Bytes
columns_bytes [] = []
columns_bytes (column ∷ columns) =
    text_bytes column.name ++ tag_of column.type ∷ flags_of column.nullable ∷ columns_bytes columns

-- What the loop of `validate_table` tests of a column.
record Valid (names : List Bytes) (column : Column) (columns : Schema) : Type 0 where
  pub named : is_empty column.name ≡ false
  pub short : ltb 65535 (length column.name) ≡ false
  pub known : validate_type column.type ≡ ok tt
  pub new : contains (identifier_key column.name) names ≡ false
  pub others : validate_columns (identifier_key column.name ∷ names) columns ≡ ok tt

validate_columns-Valid :
    (names : List Bytes) (column : Column) (columns : Schema)
    → validate_columns names (column ∷ columns) ≡ ok tt
    → Valid names column columns
unfolding validate_columns
validate_columns-Valid names column columns e =
    let (u1, named, e1) = >>=-eq-ok (throw_if (is_empty column.name) invalid_argument) _ e in
    let (u2, short, e2) =
      >>=-eq-ok (throw_if (ltb 65535 (length column.name)) invalid_argument) _ e1 in
    let (u3, known, e3) = >>=-eq-ok (validate_type column.type) _ e2 in
    let (u4, new, e4) =
      >>=-eq-ok (throw_if (contains (identifier_key column.name) names) invalid_argument) _ e3 in
    record {
      named = throw_if-eq-ok _ _ named;
      short = throw_if-eq-ok _ _ short;
      known = known;
      new = throw_if-eq-ok _ _ new;
      others = e4;
    }

encode_type-tag_of :
    (type : DataType) → validate_type type ≡ ok tt → encode_type type ≡ ok (tag_of type)
encode_type-tag_of DataType.integer h = refl
encode_type-tag_of DataType.text h = refl
encode_type-tag_of DataType.boolean h = refl
encode_type-tag_of DataType.unknown h = absurd cc

decode_kind-tag_of :
    (column : Column) (rest : Bytes)
    → validate_type column.type ≡ ok tt
    → decode_kind column.name (tag_of column.type ∷ flags_of column.nullable ∷ rest)
      ≡ ok (column, rest)
unfolding decode_kind decode_type
decode_kind-tag_of column rest known = by_type column.type column.nullable known
  where
    enough : ltb (suc (suc (length rest))) 2 ≡ false
    enough = ground arith

    by_type :
        (type : DataType) (nullable : Bool)
        → validate_type type ≡ ok tt
        → decode_kind column.name (tag_of type ∷ flags_of nullable ∷ rest)
          ≡ ok (record { name = column.name; type = type; nullable = nullable }, rest)
    by_type DataType.integer true h = rw enough refl
    by_type DataType.integer false h = rw enough refl
    by_type DataType.text true h = rw enough refl
    by_type DataType.text false h = rw enough refl
    by_type DataType.boolean true h = rw enough refl
    by_type DataType.boolean false h = rw enough refl
    by_type DataType.unknown nullable h = absurd cc

encode_columns-columns_bytes :
    (names : List Bytes) (columns : Schema) (output : Bytes)
    → validate_columns names columns ≡ ok tt
    → encode_columns columns output ≡ ok (output ++ columns_bytes columns)
unfolding encode_columns
encode_columns-columns_bytes names [] output valid = ap ok (sym (append-nil output))
encode_columns-columns_bytes names (column ∷ columns) output valid =
    let v = validate_columns-Valid names column columns valid in
    rw (append_text-ok output column.name v.short, encode_type-tag_of column.type v.known)
      (encode_columns-columns_bytes (identifier_key column.name ∷ names) columns _ v.others
        ∙ ap ok (regroup (text_bytes column.name)))
  where
    regroup :
        (text : Bytes)
        → (((output ++ text) ++ tag_of column.type ∷ []) ++ flags_of column.nullable ∷ [])
            ++ columns_bytes columns
          ≡ output
            ++ (text ++ tag_of column.type ∷ flags_of column.nullable ∷ columns_bytes columns)
    regroup text = simp append_assoc

decode_columns-columns_bytes :
    (names : List Bytes) (columns : Schema) (rest : Bytes)
    → validate_columns names columns ≡ ok tt
    → decode_columns (length columns) names (columns_bytes columns ++ rest) ≡ ok (columns, rest)
unfolding decode_columns
decode_columns-columns_bytes names [] rest valid = refl
decode_columns-columns_bytes names (column ∷ columns) rest valid =
    let v = validate_columns-Valid names column columns valid in
    let tail_bytes =
      tag_of column.type ∷ flags_of column.nullable ∷ (columns_bytes columns ++ rest) in
    rw (append_assoc, read_text-text_bytes column.name tail_bytes v.short, v.named, v.new)
      (rw
        (
          decode_kind-tag_of column (columns_bytes columns ++ rest) v.known,
          decode_columns-columns_bytes (identifier_key column.name ∷ names) columns rest v.others,
        )
        refl)

-- What `validate_table` tests.
record ValidTable (table : TableDefinition) : Type 0 where
  pub named : is_empty table.name ≡ false
  pub short : ltb 65535 (length table.name) ≡ false
  pub columns : is_empty table.schema ≡ false
  pub few : ltb 65535 (length table.schema) ≡ false
  pub versioned : (table.schema_version == 0) ≡ false
  pub valid : validate_columns [] table.schema ≡ ok tt

validate_table-ValidTable :
    (table : TableDefinition) → validate_table table ≡ ok tt → ValidTable table
unfolding validate_table
validate_table-ValidTable table e =
    let (u1, named, e1) = >>=-eq-ok (throw_if (is_empty table.name) invalid_argument) _ e in
    let (u2, short, e2) =
      >>=-eq-ok (throw_if (ltb 65535 (length table.name)) invalid_argument) _ e1 in
    let (u3, columns, e3) = >>=-eq-ok (throw_if (is_empty table.schema) invalid_argument) _ e2 in
    let (u4, few, e4) =
      >>=-eq-ok (throw_if (ltb 65535 (length table.schema)) invalid_argument) _ e3 in
    let (u5, versioned, e5) =
      >>=-eq-ok (throw_if (table.schema_version == 0) invalid_argument) _ e4 in
    record {
      named = throw_if-eq-ok _ _ named;
      short = throw_if-eq-ok _ _ short;
      columns = throw_if-eq-ok _ _ columns;
      few = throw_if-eq-ok _ _ few;
      versioned = throw_if-eq-ok _ _ versioned;
      valid = e5;
    }

abbrev table_bytes : TableDefinition → Bytes
table_bytes table =
    word_bytes 2 0 1
    ++ (word_bytes 4 0 table.schema_version
        ++ (text_bytes table.name
            ++ (word_bytes 2 0 (length table.schema) ++ columns_bytes table.schema)))

encode-table_bytes :
    (table : TableDefinition)
    → validate_table table ≡ ok tt
    → encode table ≡ ok (table_magic ++ table_bytes table)
unfolding encode
encode-table_bytes table valid =
    let v = validate_table-ValidTable table valid in
    rw (valid, append_text-ok _ table.name v.short)
      (encode_columns-columns_bytes [] table.schema _ v.valid
        ∙ ap ok (
            regroup (word_bytes 2 0 1) (word_bytes 4 0 table.schema_version) (text_bytes table.name)
              (word_bytes 2 0 (length table.schema))))
  where
    regroup :
        (a b c d : Bytes)
        → ((((table_magic ++ a) ++ b) ++ c) ++ d) ++ columns_bytes table.schema
          ≡ table_magic ++ (a ++ (b ++ (c ++ (d ++ columns_bytes table.schema))))
    regroup a b c d = simp append_assoc

decode-table_bytes :
    (table : TableDefinition)
    → validate_table table ≡ ok tt
    → table.schema_version < 2 ^ 32
    → decode (table_magic ++ table_bytes table) ≡ ok table
unfolding decode
decode-table_bytes table valid small =
    let v = validate_table-ValidTable table valid in
    let columns = word_bytes 2 0 (length table.schema) ++ columns_bytes table.schema in
    let few = v.few in
    rw
      (
        take_word-word_bytes catalog_corruption 2 1
            (word_bytes 4 0 table.schema_version ++ (text_bytes table.name ++ columns))
            (omega arith),
        take_word-word_bytes catalog_corruption 4 table.schema_version
            (text_bytes table.name ++ columns) (omega arith),
        v.versioned,
        read_text-text_bytes table.name columns v.short,
        v.named,
        take_word-word_bytes catalog_corruption 2 (length table.schema) (columns_bytes table.schema)
            (ground arith),
        nonzero table.schema v.columns,
      )
      (rw (all_columns v.valid) refl)
  where
    all_columns :
        validate_columns [] table.schema ≡ ok tt
        → decode_columns (length table.schema) [] (columns_bytes table.schema)
          ≡ ok (table.schema, [])
    all_columns h =
        ap (decode_columns (length table.schema) []) (sym (append-nil (columns_bytes table.schema)))
        ∙ decode_columns-columns_bytes [] table.schema [] h

    nonzero : (columns : Schema) → is_empty columns ≡ false → (length columns == 0) ≡ false
    nonzero [] h = absurd cc
    nonzero (c ∷ cs) h = ground arith

-- A table that is valid, with a schema version of 32 bits, is encoded as a record with the magic of tables, and decoding the
-- record gives the table.
pub decode-encode_table :
    (table : TableDefinition)
    → validate_table table ≡ ok tt
    → table.schema_version < 2 ^ 32
    → (bytes : Bytes) × (encode table ≡ ok bytes)
      × (has_magic bytes table_magic ≡ true)
      × (decode bytes ≡ ok table)
unfolding has_magic
decode-encode_table table valid small = (
  table_magic ++ table_bytes table,
  encode-table_bytes table valid,
  rw (le→leb 4 (length (table_magic ++ table_bytes table)) (omega arith)) refl,
  decode-table_bytes table valid small,
)
