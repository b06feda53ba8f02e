-- ===== src/SqlExecutor/Select/Source.antt =====
-- The rows that the access of a plan brings, where the catalog and the table store serve one list of rows.
use mathlib.Core.Path.{subst}
use mathlib.Core.List.{Memᴰ}
use mathlib.Core.List.Memᴰ.{not-nil}
use pageforge.Prelude.{
  ℕ, ◌≡◌, refl, sym, Bool, true, List, [], length, take, Option, none, some, All, Bool-cases, ◌⊎◌,
  false, inl, inr, Result, ok, ◌>>=◌,
}
use pageforge.Prelude.Int.{ℤ, pos}
use pageforge.Bytes.{Bytes}
use pageforge.Tuple.{Value}
use pageforge.Query.{TableRow, Query, from_rows, from_cursor, rows}
use pageforge.Query.Pipeline.{denote}
use pageforge.Query.Members.{all_width-true}
use pageforge.SqlParser.Ast.{SqlPredicate, SqlOrder}
use pageforge.Catalog.{TableDefinition, IndexDefinition}
use pageforge.SqlExecutor.Access.{SelectAccessPath, IndexAccess, crossed, choose_index}
use pageforge.SqlExecutor.Access.Shape.{IsLookup, IsRange, choose_index-IsLookup}
use pageforge.SqlExecutor.Access.Bounds.{KeyIs, AtLeast, AtMost}
use pageforge.SqlExecutor.Access.Names.{Distinct, column_of}
use pageforge.SqlExecutor.Access.Sound.{Good, Shaped}
use pageforge.SqlExecutor.Access.Covers.{choose_index-Covering}
use pageforge.SqlExecutor.Access.Rows.{value_of, key_of, Known, IsI64Value, Satisfies, chosen-Good}
use pageforge.SqlExecutor.Interface.{TableCursor, TableStore}
use pageforge.SqlExecutor.Select.{key_or_zero, query_of_access, source_query}

module _ (indexes : List IndexDefinition) (table : TableDefinition)
    (table_rows : List TableRow) where
  abbrev pub InColumn : Bytes → TableRow → ℤ → Type 0
  InColumn column row n = value_of table.schema row.values column ≡ Value.integer n

  -- An answer is the rows of the table whose integer in the column satisfies `P`, in some order.
  pub record Found (P : ℤ → Type 0) (column : Bytes) (answer : Result (List TableRow))
      : Type 0 where
    pub found : List TableRow
    pub returned : answer ≡ ok found
    pub inside :
        (row : TableRow)
        → Memᴰ row found
        → Memᴰ row table_rows × ((n : ℤ) × InColumn column row n × P n)
    pub complete :
        (row : TableRow) (n : ℤ)
        → Memᴰ row table_rows
        → InColumn column row n
        → P n
        → Memᴰ row found

  abbrev pub Between : Option ℤ → Option ℤ → ℤ → Type 0
  Between lower upper n = AtLeast lower n × AtMost upper n

  -- The table store reads the table's rows with a cursor and through the table's indexes, and a limit
  -- leaves the first rows of an index. A range whose lower bound exceeds its upper bound is not one that
  -- the index reads.
  pub record Serves (store : TableStore) : Type 0 where
    pub cursor :
        store.cursor table.name
        ≡ ok (record { rows = table_rows; thrown = none; column_count = length table.schema })
    pub lookup :
        (name column : Bytes) (key : ℤ)
        → column_of name indexes ≡ some (table.name, column)
        → Found (λ n. n ≡ key) column (store.lookup_index name key none)
    pub range :
        (name column : Bytes) (lower upper : Option ℤ) (descending : Bool)
        → column_of name indexes ≡ some (table.name, column)
        → crossed lower upper ≡ false
        → Found
            (Between lower upper)
            column
            (store.lookup_index_range name lower upper descending none)
    pub lookup_first :
        (name : Bytes) (key : ℤ) (limit : ℕ) (found : List TableRow)
        → store.lookup_index name key none ≡ ok found
        → store.lookup_index name key (some limit) ≡ ok (take limit found)
    pub range_first :
        (name : Bytes) (lower upper : Option ℤ) (descending : Bool) (limit : ℕ)
        (found : List TableRow)
        → store.lookup_index_range name lower upper descending none ≡ ok found
        → store.lookup_index_range name lower upper descending (some limit) ≡ ok (take limit found)

  -- The rows that a table may hold: as wide as its schema, with integers of 64 bits.
  abbrev pub IsTableRow : TableRow → Type 0
  IsTableRow row = (length row.values ≡ length table.schema) × All IsI64Value row.values

  -- A source of rows of the table that leaves out none that satisfies the predicates.
  pub record Source (predicates : List SqlPredicate) (result : Result Query) : Type 0 where
    pub query : Query
    pub returned : result ≡ ok query
    pub width : query.column_count ≡ length table.schema
    pub unbroken : (denote query.root).1 ≡ none
    pub inside : (row : TableRow) → Memᴰ row (denote query.root).0 → Memᴰ row table_rows
    pub complete :
        (row : TableRow)
        → Memᴰ row table_rows
        → All (Satisfies table.schema row) predicates
        → Memᴰ row (denote query.root).0

  pub from_rows-ok :
      (found : List TableRow)
      → ((row : TableRow) → Memᴰ row table_rows → IsTableRow row)
      → ((row : TableRow) → Memᴰ row found → Memᴰ row table_rows)
      → from_rows found (length table.schema)
        ≡ ok (record { root = rows found; column_count = length table.schema })
  unfolding from_rows
  from_rows-ok found typed inside = rw (
    all_width-true (length table.schema) found (λ row m. (typed row (inside row m)).0),
    from_rows,
  )

  rows-Source :
      (predicates : List SqlPredicate) (found : List TableRow)
      → ((row : TableRow) → Memᴰ row table_rows → IsTableRow row)
      → ((row : TableRow) → Memᴰ row found → Memᴰ row table_rows)
      → ((row : TableRow)
          → Memᴰ row table_rows
          → All (Satisfies table.schema row) predicates
          → Memᴰ row found)
      → Source predicates (from_rows found (length table.schema))
  unfolding denote
  rows-Source predicates found typed inside complete = record {
    query = record { root = rows found; column_count = length table.schema };
    returned = from_rows-ok found typed inside;
    width = refl;
    unbroken = refl;
    inside = inside;
    complete = complete;
  }

  Found-Source :
      (P : ℤ → Type 0) (column : Bytes) (answer : Result (List TableRow))
      (predicates : List SqlPredicate)
      → ((row : TableRow) → Memᴰ row table_rows → IsTableRow row)
      → Found P column answer
      → ((row : TableRow)
          → Memᴰ row table_rows
          → All (Satisfies table.schema row) predicates
          → (n : ℤ) × InColumn column row n × P n)
      → Source predicates (answer >>= λ found. from_rows found (length table.schema))
  Found-Source P column answer predicates typed f wanted =
      subst
        (λ (r : Result (List TableRow)).
          Source predicates (r >>= λ found. from_rows found (length table.schema)))
        (sym f.returned)
        (rows-Source predicates f.found typed (λ row m. (f.inside row m).0)
          (λ row m h. let (n, is, p) = wanted row m h in f.complete row n m is p))

  -- The access that is chosen is a source.
  module _ (store : TableStore) (serves : Serves store)
      (typed : (row : TableRow) → Memᴰ row table_rows → IsTableRow row)
      (predicates : List SqlPredicate) (order : Option SqlOrder) (access : IndexAccess)
      (distinct : Distinct indexes)
      (chosen : choose_index indexes table predicates order ≡ ok (some access)) where
    good :
        (row : TableRow)
        → Memᴰ row table_rows
        → All (Satisfies table.schema row) predicates
        → Good indexes table (key_of table.schema row.values) (Known table.schema row.values) access
    good row m h =
        chosen-Good indexes table predicates order access row distinct (typed row m).1 h chosen

    named : column_of access.name indexes ≡ some (table.name, access.column)
    named =
        (choose_index-Covering indexes table (λ column. pos 0) predicates order access distinct
          chosen).named

    lookup-Source :
        access.path ≡ SelectAccessPath.index_lookup
        → Source predicates (
            store.lookup_index access.name (key_or_zero access.key) none >>= λ found.
            from_rows found (length table.schema))
    lookup-Source is =
        Found-Source (λ n. n ≡ key_or_zero access.key) access.column _ predicates typed
          (serves.lookup access.name access.column (key_or_zero access.key) named) wanted
      where
        the_key :
            (k : Option ℤ) (v : ℤ)
            → Shaped SelectAccessPath.index_lookup k
            → KeyIs k v
            → v ≡ key_or_zero k
        the_key none v has same = absurd (let e = has.1 in cc)
        the_key (some k) v has same = sym same

        wanted :
            (row : TableRow)
            → Memᴰ row table_rows
            → All (Satisfies table.schema row) predicates
            → (n : ℤ) × InColumn access.column row n × (n ≡ key_or_zero access.key)
        wanted row m h =
            let g = good row m h in
            (
              key_of table.schema row.values access.column,
              g.2,
              the_key access.key _
                  (subst (λ (path : SelectAccessPath). Shaped path access.key) is g.3) g.0.key,
            )

    range-Source :
        (descending : Bool)
        → access.path ≡ SelectAccessPath.index_range
        → access.empty ≡ false
        → Source predicates (
            store.lookup_index_range access.name access.lower access.upper descending none
            >>= λ found. from_rows found (length table.schema))
    range-Source descending is nonempty =
        Found-Source (Between access.lower access.upper) access.column _ predicates typed
          (serves.range access.name access.column access.lower access.upper descending named
            (uncrossed (choose_index-IsLookup indexes table predicates order access chosen)))
          (λ row m h.
            let g = good row m h in
            (key_of table.schema row.values access.column, g.2, (g.0.lower, g.0.upper)))
      where
        uncrossed : IsLookup access ⊎ IsRange access → crossed access.lower access.upper ≡ false
        uncrossed (inl lookup) = absurd (let other = lookup.path in cc)
        uncrossed (inr range) = range.uncrossed nonempty

    empty-Source : access.empty ≡ true → Source predicates (from_rows [] (length table.schema))
    empty-Source is =
        rows-Source predicates [] typed (λ row m. absurd (not-nil m))
          (λ row m h. absurd (let nonempty = (good row m h).0.nonempty in cc))

    pub query_of_access-Source :
        (reverses : Bool)
        → Source predicates (query_of_access store table.schema reverses none access)
    unfolding query_of_access
    query_of_access-Source reverses = elim (Bool-cases access.empty) [
      | inl is ↦ rw (is, query_of_access) (empty-Source is)
      | inr other ↦ rw (other, query_of_access) (by_path other access.path refl)
    ]
      where
        no_scan : access.path ≡ SelectAccessPath.table_scan → IsLookup access ⊎ IsRange access → ⊥
        no_scan is (inl lookup) = let path = lookup.path in cc
        no_scan is (inr range) = let path = range.path in cc

        by_path :
            access.empty ≡ false
            → (path : SelectAccessPath) → access.path ≡ path
            → Source predicates (elim path [
              | SelectAccessPath.index_lookup ↦
                  store.lookup_index access.name (key_or_zero access.key) none >>= λ found.
                  from_rows found (length table.schema)
              | _ ↦
                  store.lookup_index_range access.name access.lower access.upper reverses none
                  >>= λ found. from_rows found (length table.schema)
            ])
        by_path other SelectAccessPath.index_lookup is = lookup-Source is
        by_path other SelectAccessPath.index_range is = range-Source reverses is other
        by_path other SelectAccessPath.table_scan is =
            absurd (no_scan is (choose_index-IsLookup indexes table predicates order access chosen))

  -- What the access that is chosen brings, or the whole table, without a limit.
  pub source_query-Source :
      (store : TableStore) (predicates : List SqlPredicate) (order : Option SqlOrder)
      (access : Option IndexAccess) (reverses : Bool)
      → Serves store
      → ((row : TableRow) → Memᴰ row table_rows → IsTableRow row)
      → Distinct indexes
      → choose_index indexes table predicates order ≡ ok access
      → Source predicates (source_query store table reverses none access)
  unfolding source_query from_cursor denote
  source_query-Source store predicates order none reverses serves typed distinct chosen =
      subst
        (λ (r : Result TableCursor).
          Source predicates
            (r >>= λ cursor. ok (from_cursor cursor.rows cursor.thrown cursor.column_count)))
        (sym serves.cursor)
        (record {
          query = from_cursor table_rows none (length table.schema);
          returned = refl;
          width = refl;
          unbroken = refl;
          inside = λ row m. m;
          complete = λ row m h. m;
        })
  source_query-Source store predicates order (some access) reverses serves typed distinct chosen =
      query_of_access-Source store serves typed predicates order access distinct chosen reverses
