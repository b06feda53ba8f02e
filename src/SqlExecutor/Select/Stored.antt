-- ===== src/SqlExecutor/Select/Stored.antt =====
-- The table store of src/table_store.cpp serves the executor, over the records of the record store and over the
-- trees of the indexes.
use mathlib.Core.Path.{subst}
use mathlib.Core.List.{Memᴰ}
use pageforge.Prelude.{
  ℕ, zero, suc, ◌+◌, ◌≡◌, refl, sym, ap, ◌∙◌, arith, Bool, true, false, List, [], ◌∷◌, take, length,
  get_or, Option, none, some, Bool-cases, inl, inr, Result, ok, Exception, >>=-eq-ok, ok-injective,
}
use pageforge.Prelude.Int.{ℤ, eq_ℤ}
use pageforge.Bytes.{Bytes}
use pageforge.Bytes.Compare.{eq_bytes}
use pageforge.Tuple.{DataType, Column, Schema, Value, Tuple}
use pageforge.BPlusTree.Entry.{IndexEntry}
use pageforge.RecordStore.{RecordId, Record}
use pageforge.Query.{TableRow}
use pageforge.Catalog.{TableDefinition, IndexDefinition}
use pageforge.Catalog.Store.{Scan}
use pageforge.TableStore.Cursor.{rows_of, cursor, rows_of-ReadFrom}
use pageforge.TableStore.Lookup.{
  Index, Database, has_key, read_index_row, find_column, or_missing, integer_position, open_lookup,
  lookup_index, lookup_index_range, read_entries, descend, reverse_onto,
}
use pageforge.TableStore.Lookup.First.{lookup_index_range-take}
use pageforge.TableStore.Lookup.Reads.{
  Reads, read_ids-Reads, read_entries-Reads, read_ids-take, read_entries-take-none,
  descend-SameMembers,
}
use pageforge.SqlExecutor.Access.{crossed}
use pageforge.SqlExecutor.Access.Names.{column_of}
use pageforge.SqlExecutor.Access.Rows.{value_of}
use pageforge.SqlExecutor.Interface.{TableStore}
use pageforge.SqlExecutor.Select.Source.{Found, Between, Serves}

-- The table store in one state of the database, whose records a cursor reads in the order of `scan`.
abbrev pub store_of : Database → Scan → TableStore
store_of database scan = record {
  cursor = cursor database.find_table scan;
  lookup_index = lookup_index database;
  lookup_index_range = lookup_index_range database;
}

-- What `BPlusTreeIndex::find` and `BPlusTreeIndex::range` do with a limit.
pub record IsLimited (index : Index) : Type 0 where
  pub find_first :
      (key : ℤ) (limit : ℕ) (ids : List RecordId)
      → index.find key none ≡ ok ids
      → index.find key (some limit) ≡ ok (take limit ids)
  pub range_first :
      (lower upper : Option ℤ) (limit : ℕ) (entries : List IndexEntry)
      → index.range lower upper none ≡ ok entries
      → index.range lower upper (some limit) ≡ ok (take limit entries)

module _ (table : TableDefinition) (table_rows : List TableRow) where
  -- An entry of an index on the column is a row of the table with the key in it.
  abbrev pub IsEntry : Bytes → ℤ → RecordId → Type 0
  IsEntry column key id =
      (row : TableRow) × Memᴰ row table_rows
      × (row.id ≡ id)
      × (value_of table.schema row.values column ≡ Value.integer key)

  -- A tree that holds the entries of the table's rows for the column, those whose value in it is no null.
  pub record Holds (column : Bytes) (index : Index) : Type 0 where
    pub find :
        (key : ℤ)
        → (ids : List RecordId) × (index.find key none ≡ ok ids)
          × ((id : RecordId) → Memᴰ id ids → IsEntry column key id)
          × ((id : RecordId) → IsEntry column key id → Memᴰ id ids)
    pub range :
        (lower upper : Option ℤ)
        → crossed lower upper ≡ false
        → (entries : List IndexEntry) × (index.range lower upper none ≡ ok entries)
          × ((e : IndexEntry)
              → Memᴰ e entries
              → IsEntry column e.key e.value × Between [] table table_rows lower upper e.key)
          × ((e : IndexEntry)
              → IsEntry column e.key e.value
              → Between [] table table_rows lower upper e.key
              → Memᴰ e entries)

  -- An index of the table by its definition, its integer column and its tree.
  pub record IsIndexed (database : Database) (name column : Bytes) : Type 0 where
    pub definition : IndexDefinition
    pub found : database.find_index name ≡ ok (some definition)
    pub of_table : definition.table ≡ table.name
    pub of_column : definition.column ≡ column
    pub position : ℕ
    pub the_column : Column
    pub placed : find_column column table.schema 0 ≡ some (position, the_column)
    pub integral : the_column.type ≡ DataType.integer
    pub index : Index
    pub opened : database.open_index definition.header_id ≡ ok index
    pub holds : Holds column index

-- The parts of a database agree about a table: the records that are read one by one are those of the scan, which
-- ends without an exception, the catalog finds the table and its indexes, and the trees hold the table's rows.
pub record Agrees (database : Database) (scan : Scan) (indexes : List IndexDefinition)
    (table : TableDefinition) (table_rows : List TableRow) : Type 0 where
  pub scanned : rows_of table scan.records scan.thrown ≡ (table_rows, none)
  pub reads : (found : Record) → Memᴰ found scan.records → database.read found.id ≡ ok found.bytes
  pub has_table : database.find_table table.name ≡ ok (some table)
  pub has_index :
      (name column : Bytes)
      → column_of name indexes ≡ some (table.name, column)
      → IsIndexed table table_rows database name column
  pub limited :
      (id : RecordId) (index : Index) → database.open_index id ≡ ok index → IsLimited index

find_column-value_of :
    (name : Bytes) (schema : Schema) (values : Tuple) (from position : ℕ) (column : Column)
    → find_column name schema from ≡ some (position, column)
    → (offset : ℕ) × (position ≡ from + offset)
      × (value_of schema values name ≡ get_or values offset Value.null)
unfolding find_column value_of
find_column-value_of name [] values from position column e = absurd cc
find_column-value_of name (c ∷ schema) values from position column e =
    elim (Bool-cases (eq_bytes c.name name)) [
      | inl here ↦
          let e' = rw here at e in
          let at : from ≡ position = cc in (0, omega (arith, at), first here values)
      | inr there ↦
          let (offset, at, is) =
            find_column-value_of name schema (behind values) (from + 1) position column
              (rw there at e) in
          (suc offset, omega (arith, at), later there values offset is)
    ]
  where
    behind : Tuple → Tuple
    behind [] = []
    behind (v ∷ values) = values

    first :
        eq_bytes c.name name ≡ true
        → (values : Tuple) → value_of (c ∷ schema) values name ≡ get_or values 0 Value.null
    first here [] = refl
    first here (v ∷ values) = rw here refl

    empty : (schema : Schema) → value_of schema [] name ≡ Value.null
    empty [] = refl
    empty (c' ∷ schema) = refl

    later :
        eq_bytes c.name name ≡ false
        → (values : Tuple) (offset : ℕ)
        → value_of schema (behind values) name ≡ get_or (behind values) offset Value.null
        → value_of (c ∷ schema) values name ≡ get_or values (suc offset) Value.null
    later there [] offset is = refl
    later there (v ∷ values) offset is = rw there is

module _ (database : Database) (scan : Scan) (indexes : List IndexDefinition)
    (table : TableDefinition) (table_rows : List TableRow)
    (agrees : Agrees database scan indexes table table_rows) where
  -- The row of an entry is the row that the table's cursor returns.
  read_index_row-IsEntry :
      (column : Bytes) (position : ℕ) (the_column : Column) (key : ℤ) (id : RecordId)
      (row : TableRow)
      → find_column column table.schema 0 ≡ some (position, the_column)
      → Memᴰ row table_rows
      → row.id ≡ id
      → value_of table.schema row.values column ≡ Value.integer key
      → read_index_row database table position key id ≡ ok row
  unfolding read_index_row
  read_index_row-IsEntry column position the_column key id row placed m is value =
      let (found, there, from) =
        rows_of-ReadFrom table scan.records scan.thrown table_rows row agrees.scanned m in
      let (offset, at, same) =
        find_column-value_of column table.schema row.values 0 position the_column placed in
      let bytes : database.read id ≡ ok found.bytes =
        ap database.read (sym is ∙ from.id) ∙ agrees.reads found there in
      let held : get_or row.values position Value.null ≡ Value.integer key =
        ap (λ (p : ℕ). get_or row.values p Value.null) (omega (arith, at)) ∙ sym same ∙ value in
      let keyed : has_key (get_or row.values position Value.null) key ≡ true =
        rw held (equal key) in
      rw (bytes, from.parsed, from.named, from.decoded, keyed)
        (ap (λ (i : RecordId). ok (record { id = i; values = row.values })) (sym is))
    where
      equal : (n : ℤ) → eq_ℤ n n ≡ true
      equal n = ground arith

  abbrev read_at : ℕ → ℤ → RecordId → Result TableRow
  read_at position key id = read_index_row database table position key id

  opened_lookup :
      (name column : Bytes) (x : IsIndexed table table_rows database name column)
      → open_lookup database name ≡ ok (table, x.position, x.index)
  unfolding open_lookup
  opened_lookup name column x =
      let owner : database.find_table x.definition.table ≡ ok (some table) =
        ap database.find_table x.of_table ∙ agrees.has_table in
      let placed : find_column x.definition.column table.schema 0
          ≡ some (x.position, x.the_column) =
        ap (λ (c : Bytes). find_column c table.schema 0) x.of_column ∙ x.placed in
      rw (x.found, owner, placed, x.integral, x.opened) refl

  -- The reads of entries bring the rows of the table with the keys.
  Reads-Found :
      {A : Type 0} (P : ℤ → Type 0) (name column : Bytes)
      (x : IsIndexed table table_rows database name column) (key_of : A → ℤ) (id_of : A → RecordId)
      (items : List A) (result : Result (List TableRow))
      → ((a : A)
          → Memᴰ a items
          → IsEntry table table_rows column (key_of a) (id_of a) × P (key_of a))
      → ((row : TableRow) (n : ℤ)
          → Memᴰ row table_rows
          → value_of table.schema row.values column ≡ Value.integer n
          → P n
          → (a : A) × Memᴰ a items × (key_of a ≡ n) × (id_of a ≡ row.id))
      → Reads (λ (a : A). read_at x.position (key_of a) (id_of a)) items result
      → Found indexes table table_rows P column result
  Reads-Found {A} P name column x key_of id_of items result sound all r = record {
    found = r.found;
    returned = r.returned;
    inside = λ row m.
        let (a, there, e) = r.inside row m in
        let ((row', m', is, value), p) = sound a there in
        let same : row' ≡ row = ok-injective (
          sym (
            read_index_row-IsEntry column x.position x.the_column (key_of a) (id_of a) row' x.placed
              m' is value)
          ∙ e) in
        (
          subst (λ (w : TableRow). Memᴰ w table_rows) same m',
          (
            key_of a,
            ap (λ (w : TableRow). value_of table.schema w.values column) (sym same) ∙ value,
            p,
          ),
        );
    complete = λ row n m value p.
        let (a, there, key_is, id_is) = all row n m value p in
        r.complete a row there (
          read_index_row-IsEntry column x.position x.the_column (key_of a) (id_of a) row x.placed m
            (sym id_is) (value ∙ ap Value.integer (sym key_is)));
  }

  readable :
      {A : Type 0} (name column : Bytes) (x : IsIndexed table table_rows database name column)
      (key_of : A → ℤ) (id_of : A → RecordId) (a : A)
      → IsEntry table table_rows column (key_of a) (id_of a)
      → (row : TableRow) × (read_at x.position (key_of a) (id_of a) ≡ ok row)
  readable name column x key_of id_of a (row, m, is, value) = (
    row,
    read_index_row-IsEntry column x.position x.the_column (key_of a) (id_of a) row x.placed m is
        value,
  )

  lookup-Found :
      (name column : Bytes) (key : ℤ)
      → column_of name indexes ≡ some (table.name, column)
      → Found indexes table table_rows (λ n. n ≡ key) column (lookup_index database name key none)
  unfolding lookup_index
  lookup-Found name column key named =
      let x = agrees.has_index name column named in
      let (ids, found, sound, all) = x.holds.find key in
      rw (opened_lookup name column x, found)
        (Reads-Found (λ n. n ≡ key) name column x (λ id. key) (λ id. id) ids _
          (λ id m. (sound id m, refl))
          (λ row n m value p.
            (row.id, all row.id (row, m, refl, value ∙ ap Value.integer p), sym p, refl))
          (read_ids-Reads (read_at x.position key) ids
            (λ id m. readable name column x (λ i. key) (λ i. i) id (sound id m))))

  module _ (name column : Bytes) (lower upper : Option ℤ)
      (x : IsIndexed table table_rows database name column) (entries : List IndexEntry) where
    abbrev Sound : List IndexEntry → Type 0
    Sound es =
        (e : IndexEntry)
        → Memᴰ e es
        → IsEntry table table_rows column e.key e.value
          × Between [] table table_rows lower upper e.key

    abbrev Whole : List IndexEntry → Type 0
    Whole es =
        (e : IndexEntry)
        → IsEntry table table_rows column e.key e.value
        → Between [] table table_rows lower upper e.key
        → Memᴰ e es

    of_entries :
        Sound entries
        → Whole entries
        → Found indexes table table_rows
            (Between indexes table table_rows lower upper)
            column
            (read_entries (λ (e : IndexEntry). read_at x.position e.key e.value) none 0 entries)
    of_entries sound all =
        Reads-Found (Between indexes table table_rows lower upper) name column x
          (λ (e : IndexEntry). e.key) (λ (e : IndexEntry). e.value) entries _ sound
          (λ row n m value p. (
            record { key = n; value = row.id },
            all (record { key = n; value = row.id }) (row, m, refl, value) p,
            refl,
            refl,
          ))
          (read_entries-Reads (λ (e : IndexEntry). read_at x.position e.key e.value) 0 entries
            (λ e m.
              readable name column x (λ (a : IndexEntry). a.key) (λ (a : IndexEntry). a.value) e
                (sound e m).0))

  range-Found :
      (name column : Bytes) (lower upper : Option ℤ) (descending : Bool)
      → column_of name indexes ≡ some (table.name, column)
      → crossed lower upper ≡ false
      → Found indexes table table_rows
          (Between indexes table table_rows lower upper)
          column
          (lookup_index_range database name lower upper descending none)
  unfolding lookup_index_range
  range-Found name column lower upper false named apart =
      let x = agrees.has_index name column named in
      let (entries, found, sound, all) = x.holds.range lower upper apart in
      rw (opened_lookup name column x, found)
        (of_entries name column lower upper x entries sound all)
  range-Found name column lower upper true named apart =
      let x = agrees.has_index name column named in
      let (entries, found, sound, all) = x.holds.range lower upper apart in
      let (there, back) = descend-SameMembers entries in
      rw (opened_lookup name column x, found)
        (of_entries name column lower upper x (descend [] (reverse_onto entries []))
          (λ e m. sound e (there e m)) (λ e is p. back e (all e is p)))

  opened-IsLimited :
      (name : Bytes) (owner : TableDefinition) (position : ℕ) (index : Index)
      → open_lookup database name ≡ ok (owner, position, index)
      → IsLimited index
  unfolding open_lookup
  opened-IsLimited name owner position index e =
      let (found, finds, rest) = >>=-eq-ok (database.find_index name) _ e in
      let (definition, is_some, rest1) = >>=-eq-ok (or_missing found) _ rest in
      let (found1, finds1, rest2) = >>=-eq-ok (database.find_table definition.table) _ rest1 in
      let (owner1, is_some1, rest3) = >>=-eq-ok (or_missing found1) _ rest2 in
      let (position1, placed, rest4) =
        >>=-eq-ok (integer_position (find_column definition.column owner1.schema 0)) _ rest3 in
      let (index1, opened, done) = >>=-eq-ok (database.open_index definition.header_id) _ rest4 in
      subst IsLimited (ap (λ t. t.2) (ok-injective done))
        (agrees.limited definition.header_id index1 opened)

  lookup_first :
      (name : Bytes) (key : ℤ) (limit : ℕ) (found : List TableRow)
      → lookup_index database name key none ≡ ok found
      → lookup_index database name key (some limit) ≡ ok (take limit found)
  unfolding lookup_index
  lookup_first name key limit found e =
      let ((owner, position, index), opened, rest) = >>=-eq-ok (open_lookup database name) _ e in
      let (ids, finds, read) = >>=-eq-ok (index.find key none) _ rest in
      rw
        (opened, (opened-IsLimited name owner position index opened).find_first key limit ids finds)
        (read_ids-take (read_index_row database owner position key) limit ids found read)

  range_first :
      (name : Bytes) (lower upper : Option ℤ) (descending : Bool) (limit : ℕ)
      (found : List TableRow)
      → lookup_index_range database name lower upper descending none ≡ ok found
      → lookup_index_range database name lower upper descending (some limit) ≡ ok (take limit found)
  unfolding lookup_index_range read_entries descend reverse_onto
  range_first name lower upper false limit found e =
      let ((owner, position, index), opened, rest) = >>=-eq-ok (open_lookup database name) _ e in
      let (entries, ranged, read) = >>=-eq-ok (index.range lower upper none) _ rest in
      rw
        (
          opened,
          (opened-IsLimited name owner position index opened).range_first lower upper limit entries
              ranged,
        )
        (read_entries-take-none
          (λ (entry : IndexEntry). read_index_row database owner position entry.key entry.value) 0
          limit entries found read)
  range_first name lower upper true zero found e =
      let ((owner, position, index), opened, rest) = >>=-eq-ok (open_lookup database name) _ e in
      let (entries, ranged, read) = >>=-eq-ok (index.range lower upper none) _ rest in
      rw
        (
          opened,
          (opened-IsLimited name owner position index opened).range_first lower upper 0 entries
              ranged,
        )
        refl
  range_first name lower upper true (suc k) found e =
      lookup_index_range-take database name lower upper k found e

  scanned_cursor :
      cursor database.find_table scan table.name
      ≡ ok (record { rows = table_rows; thrown = none; column_count = length table.schema })
  unfolding cursor
  scanned_cursor = rw agrees.has_table (
      ap
        (λ (d : List TableRow × Option Exception).
          ok (record { rows = d.0; thrown = d.1; column_count = length table.schema }))
        agrees.scanned)

  pub store_of-Serves : Serves indexes table table_rows (store_of database scan)
  store_of-Serves = record {
    cursor = scanned_cursor;
    lookup = lookup-Found;
    range = range-Found;
    lookup_first = lookup_first;
    range_first = range_first;
  }
