-- ===== src/Catalog/Indexes/RoundTrip.antt =====
-- The definition of an index is read back from its record.
use mathlib.Core.List.{append_assoc, append-nil}
use pageforge.Prelude.{
  ◌^◌, ◌<◌, ◌≡◌, refl, sym, ap, ◌∙◌, arith, true, false, [], ◌++◌, length, ltb, le→leb, ok,
  >>=-eq-ok, throw_if, throw_if-eq-ok, invalid_argument, catalog_corruption,
}
use pageforge.Bytes.{Bytes, word_bytes}
use pageforge.Bytes.Words.{take_word-word_bytes}
use pageforge.BPlusTree.Node.{has_magic}
use pageforge.Catalog.{IndexDefinition, read_text}
use pageforge.Catalog.Text.{text_bytes, append_text-ok, read_text-text_bytes}
use pageforge.Catalog.Tables.{is_empty}
use pageforge.Catalog.Indexes.{
  index_magic, validate_identifier, validate_index_identifiers, encode_index, decode_index,
}

abbrev Named : Bytes → Type 0
Named value = (is_empty value ≡ false) × (ltb 65535 (length value) ≡ false)

validate_identifier-Named : (value : Bytes) → validate_identifier value ≡ ok tt → Named value
unfolding validate_identifier
validate_identifier-Named value e =
    let (u, named, short) = >>=-eq-ok (throw_if (is_empty value) invalid_argument) _ e in
    (throw_if-eq-ok _ _ named, throw_if-eq-ok _ _ short)

validated :
    (index : IndexDefinition)
    → validate_index_identifiers index ≡ ok tt
    → Named index.name × Named index.table × Named index.column
unfolding validate_index_identifiers
validated index e =
    let (u1, name, e1) = >>=-eq-ok (validate_identifier index.name) _ e in
    let (u2, table, column) = >>=-eq-ok (validate_identifier index.table) _ e1 in
    (
      validate_identifier-Named index.name name,
      validate_identifier-Named index.table table,
      validate_identifier-Named index.column column,
    )

abbrev index_bytes : IndexDefinition → Bytes
index_bytes index =
    word_bytes 2 0 1
    ++ (word_bytes 2 0 0
        ++ (word_bytes 4 0 index.header_id.page_id
            ++ (word_bytes 2 0 index.header_id.slot_id
                ++ (word_bytes 2 0 0
                    ++ (text_bytes index.name
                        ++ (text_bytes index.table ++ text_bytes index.column))))))

encode_index-index_bytes :
    (index : IndexDefinition)
    → validate_index_identifiers index ≡ ok tt
    → encode_index index ≡ ok (index_magic ++ index_bytes index)
unfolding encode_index
encode_index-index_bytes index valid =
    let (name, table, column) = validated index valid in
    rw
      (
        valid,
        append_text-ok _ index.name name.1,
        append_text-ok _ index.table table.1,
        append_text-ok _ index.column column.1,
      )
      (ap ok (
        regroup (word_bytes 2 0 1) (word_bytes 2 0 0) (word_bytes 4 0 index.header_id.page_id)
          (word_bytes 2 0 index.header_id.slot_id) (word_bytes 2 0 0) (text_bytes index.name)
          (text_bytes index.table) (text_bytes index.column)))
  where
    regroup :
        (a b c d e f g h : Bytes)
        → ((((((((index_magic ++ a) ++ b) ++ c) ++ d) ++ e) ++ f) ++ g) ++ h)
          ≡ index_magic ++ (a ++ (b ++ (c ++ (d ++ (e ++ (f ++ (g ++ h)))))))
    regroup a b c d e f g h = simp append_assoc

decode_index-index_bytes :
    (index : IndexDefinition)
    → validate_index_identifiers index ≡ ok tt
    → index.header_id.page_id < 2 ^ 32
    → index.header_id.slot_id < 2 ^ 16
    → decode_index (index_magic ++ index_bytes index) ≡ ok index
unfolding decode_index
decode_index-index_bytes index valid page slot =
    let (name, table, column) = validated index valid in
    let rest7 = text_bytes index.column in
    let rest6 = text_bytes index.table ++ rest7 in
    let rest5 = text_bytes index.name ++ rest6 in
    let rest4 = word_bytes 2 0 0 ++ rest5 in
    let rest3 = word_bytes 2 0 index.header_id.slot_id ++ rest4 in
    let rest2 = word_bytes 4 0 index.header_id.page_id ++ rest3 in
    let rest1 = word_bytes 2 0 0 ++ rest2 in
    rw
      (
        take_word-word_bytes catalog_corruption 2 1 rest1 (omega arith),
        take_word-word_bytes catalog_corruption 2 0 rest2 (omega arith),
        take_word-word_bytes catalog_corruption 4 index.header_id.page_id rest3 (omega arith),
        take_word-word_bytes catalog_corruption 2 index.header_id.slot_id rest4 (omega arith),
        take_word-word_bytes catalog_corruption 2 0 rest5 (omega arith),
        read_text-text_bytes index.name rest6 name.1,
        read_text-text_bytes index.table rest7 table.1,
      )
      (rw (last column.1, name.0, table.0, column.0) refl)
  where
    last :
        ltb 65535 (length index.column) ≡ false
        → read_text (text_bytes index.column) ≡ ok (index.column, [])
    last short =
        ap read_text (sym (append-nil (text_bytes index.column)))
        ∙ read_text-text_bytes index.column [] short

-- An index whose identifiers are valid and whose record id has a page of 32 bits and a slot of 16 is encoded as
-- a record with the magic of indexes, and decoding the record gives the index.
pub decode_index-encode_index :
    (index : IndexDefinition)
    → validate_index_identifiers index ≡ ok tt
    → index.header_id.page_id < 2 ^ 32
    → index.header_id.slot_id < 2 ^ 16
    → (bytes : Bytes) × (encode_index index ≡ ok bytes)
      × (has_magic bytes index_magic ≡ true)
      × (decode_index bytes ≡ ok index)
unfolding has_magic
decode_index-encode_index index valid page slot = (
  index_magic ++ index_bytes index,
  encode_index-index_bytes index valid,
  rw (le→leb 4 (length (index_magic ++ index_bytes index)) (omega arith)) refl,
  decode_index-index_bytes index valid page slot,
)
