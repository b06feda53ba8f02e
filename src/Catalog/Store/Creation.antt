-- ===== src/Catalog/Store/Creation.antt =====
-- What `create_table` and `register_index` refuse, and the records that they insert.
use mathlib.Core.Path.{subst}
use pageforge.Prelude.{
  ◌^◌, ◌<◌, ◌≡◌, refl, sym, ◌∙◌, true, false, not, List, [], ◌∷◌, Option, none, some, Bool-cases,
  inl, inr, Result, ok, err, >>=-eq-ok, ok-injective, throw_if, throw_if-eq-ok, invalid_argument,
}
use pageforge.Bytes.{Bytes}
use pageforge.Bytes.Compare.{eq_bytes, eq_bytes→eq}
use pageforge.BPlusTree.Node.{has_magic}
use pageforge.Tuple.{Column}
use pageforge.Catalog.{TableDefinition, IndexDefinition, identifier_key}
use pageforge.Catalog.Tables.{table_magic, validate_table, decode}
use pageforge.Catalog.Tables.RoundTrip.{decode-encode_table}
use pageforge.Catalog.Indexes.{
  validate_index_identifiers, encode_index, decode_index, find_key, is_integer_column,
  resolve_index_reference,
}
use pageforge.Catalog.Indexes.RoundTrip.{decode_index-encode_index}
use pageforge.Catalog.Store.{
  RecordStore, list_tables, list_indexes, find_table, refuse_table, refuse_index, or_invalid,
  table_bytes, index_bytes, create_table,
}
use pageforge.Catalog.Store.Lookup.{find_table-list_tables}

abbrev refused {ℓ} : {A : Type ℓ} → Option A → Result (Unit {0})
refused none = ok tt
refused (some a) = err invalid_argument

refuse_table-find_key :
    (key : Bytes) (tables : List TableDefinition)
    → refuse_table key tables ≡ refused (find_key (λ table. table.name) key tables)
unfolding refuse_table find_key
refuse_table-find_key key [] = refl
refuse_table-find_key key (table ∷ tables) =
    elim (Bool-cases (eq_bytes (identifier_key table.name) key)) [
      | inl same ↦ rw same refl
      | inr other ↦ rw other (refuse_table-find_key key tables)
    ]

module _ {State : Type 0} (store : RecordStore State) where
  -- A valid table whose name no listed table has in any case is inserted as a record that decodes to it, and one whose name
  -- is taken is an invalid argument that leaves the store alone. Its schema version has 32 bits.
  pub create_table-inserts :
      (table : TableDefinition) (tables : List TableDefinition) (state : State)
      → validate_table table ≡ ok tt
      → table.schema_version < 2 ^ 32
      → list_tables (store.scan state) ≡ ok tables
      → ((find_key (λ t. t.name) (identifier_key table.name) tables ≡ none)
          → (bytes : Bytes) × (create_table store table state ≡ store.insert bytes state)
            × (has_magic bytes table_magic ≡ true)
            × (decode bytes ≡ ok table))
        × ((existing : TableDefinition)
            → find_key (λ t. t.name) (identifier_key table.name) tables ≡ some existing
            → create_table store table state ≡ (err invalid_argument, state))
  unfolding create_table table_bytes
  create_table-inserts table tables state valid small listed = (
    (λ new.
        let (bytes, encoded, magic, decoded) = decode-encode_table table valid small in
        (
          bytes,
          rw (valid, listed, refuse_table-find_key (identifier_key table.name) tables, new, encoded)
              refl,
          magic,
          decoded,
        )),
    λ existing taken.
        rw (valid, listed, refuse_table-find_key (identifier_key table.name) tables, taken) refl,
  )

find_key-key :
    {A : Type 0} (name_of : A → Bytes) (key : Bytes) (xs : List A) (a : A)
    → find_key name_of key xs ≡ some a
    → identifier_key (name_of a) ≡ key
unfolding find_key
find_key-key name_of key [] a h = absurd cc
find_key-key name_of key (x ∷ xs) a h =
    elim (Bool-cases (eq_bytes (identifier_key (name_of x)) key)) [
      | inl same ↦
          let h' : some x ≡ some a = rw same at h in
          let is : x ≡ a = cc in
          subst (λ b. identifier_key (name_of b) ≡ key) is
            (eq_bytes→eq (identifier_key (name_of x)) key same)
      | inr other ↦ find_key-key name_of key xs a (rw other at h)
    ]

or_invalid-eq-ok :
    {A : Type 0} (found : Option A) (a : A) → or_invalid found ≡ ok a → found ≡ some a
or_invalid-eq-ok none a h = absurd cc
or_invalid-eq-ok (some b) a h = cc

encode_index-valid :
    (index : IndexDefinition) (bytes : Bytes)
    → encode_index index ≡ ok bytes
    → validate_index_identifiers index ≡ ok tt
unfolding encode_index
encode_index-valid index bytes e =
    let (u, valid, rest) = >>=-eq-ok (validate_index_identifiers index) _ e in valid

-- The record that `register_index` makes decodes to an index of the same name and tree, which is what the
-- catalog resolves it to: its table and its column have the names that are listed.
pub index_bytes-resolves :
    {State : Type 0} (store : RecordStore State) (index : IndexDefinition) (state : State)
    (bytes : Bytes)
    → index.header_id.page_id < 2 ^ 32
    → index.header_id.slot_id < 2 ^ 16
    → index_bytes store index state ≡ ok bytes
    → (tables : List TableDefinition) × (normalized : IndexDefinition) × (list_tables
          (store.scan state)
        ≡ ok tables)
      × (decode_index bytes ≡ ok normalized)
      × (resolve_index_reference normalized tables ≡ ok normalized)
      × (normalized.name ≡ index.name)
      × (normalized.header_id ≡ index.header_id)
unfolding index_bytes resolve_index_reference
index_bytes-resolves store index state bytes page slot e =
    let (u1, valid, e1) = >>=-eq-ok (validate_index_identifiers index) _ e in
    let (indexes, listed_indexes, e2) = >>=-eq-ok (list_indexes (store.scan state)) _ e1 in
    let (u2, fresh, e3) =
      >>=-eq-ok (refuse_index (identifier_key index.name) index.header_id indexes) _ e2 in
    let (found, finds, e4) = >>=-eq-ok (find_table index.table (store.scan state)) _ e3 in
    let (table, is_table, e5) = >>=-eq-ok (or_invalid found) _ e4 in
    let (column, is_column, e6) =
      >>=-eq-ok (or_invalid (find_key (λ c. c.name) (identifier_key index.column) table.schema)) _
        e5 in
    let (u3, integral, e7) =
      >>=-eq-ok (throw_if (not (is_integer_column column)) invalid_argument) _ e6 in
    let (u4, opened, encoded) = >>=-eq-ok (store.open_index index.header_id state) _ e7 in
    let (tables, listed, has) =
      >>=-eq-ok (list_tables (store.scan state)) _
        (sym (find_table-list_tables index.table (store.scan state)) ∙ finds) in
    let normalized : IndexDefinition = record index { table = table.name; column = column.name } in
    let (bytes', encoded', magic, decoded) =
      decode_index-encode_index normalized (encode_index-valid normalized bytes encoded) page
        slot in
    (
      tables,
      normalized,
      listed,
      subst (λ b. decode_index b ≡ ok normalized) (ok-injective (sym encoded' ∙ encoded)) decoded,
      resolves tables table column (ok-injective has ∙ or_invalid-eq-ok found table is_table)
          (or_invalid-eq-ok _ column is_column) (throw_if-eq-ok _ _ integral),
      refl,
      refl,
    )
  where
    resolves :
        (tables : List TableDefinition) (table : TableDefinition) (column : Column)
        → find_key (λ t. t.name) (identifier_key index.table) tables ≡ some table
        → find_key (λ c. c.name) (identifier_key index.column) table.schema ≡ some column
        → not (is_integer_column column) ≡ false
        → resolve_index_reference (record index { table = table.name; column = column.name }) tables
          ≡ ok (record index { table = table.name; column = column.name })
    resolves tables table column there in_schema integral =
        rw (find_key-key (λ t. t.name) (identifier_key index.table) tables table there, there)
          (rw
            (
              find_key-key (λ c. c.name) (identifier_key index.column) table.schema column
                  in_schema,
              in_schema,
              integral,
            )
            refl)
