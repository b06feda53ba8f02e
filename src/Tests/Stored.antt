-- ===== src/Tests/Stored.antt =====
-- The records of a database with the table T, an index on its column and three rows, one of them null in it.
use mathlib.Core.Path.{subst}
use mathlib.Core.List.{Memᴰ}
use mathlib.Core.List.Memᴰ.{head, tail, cases_cons, not-nil}
use pageforge.Prelude.{
  ℕ, ◌≡◌, refl, sym, ap, ◌∙◌, arith, Bool, true, false, not, ◌&&◌, List, [], ◌∷◌, ◌++◌, map, take,
  Option, none, some, Bool-cases, inl, inr, if◌then◌else◌, Result, ok, err, ok-injective,
  out_of_range, invalid_argument, index_corruption, ◌==◌,
}
use pageforge.Prelude.Int.{ℤ, pos, ltb_ℤ, eq_ℤ, eq_ℤ→eq, from_u64}
use pageforge.Bytes.{Bytes, read_word}
use pageforge.Bytes.Compare.{eq_bytes, eq_bytes→eq}
use pageforge.Tuple.{
  DataType, Value, known_type, validate_schema, test_bit, unknown_bits, decode_value, decode_column,
  decode_loop, decode_body, decode,
}
use pageforge.BPlusTree.Node.{has_magic}
use pageforge.BPlusTree.Entry.{IndexEntry}
use pageforge.RecordStore.{RecordId, Record}
use pageforge.Query.{TableRow}
use pageforge.Catalog.{identifier_key, read_text, contains}
use pageforge.Catalog.Tables.{decode_type, decode_kind, decode_columns}
use pageforge.Catalog.Tables.{decode as decode_table}
use pageforge.Catalog.Indexes.{decode_index, find_key, resolve_index_reference}
use pageforge.Catalog.Store.{
  Scan, list_tables_loop, list_tables, find_table_loop, find_table, find_index_loop, find_index,
  record_key, contains_id,
}
use pageforge.SqlParser.Tokens.{ascii_lower}
use pageforge.TableStore.{parse, decode_row}
use pageforge.TableStore.Cursor.{rows_of}
use pageforge.TableStore.Lookup.{Index, Database, find_column}
use pageforge.SqlExecutor.Access.{crossed}
use pageforge.SqlExecutor.Access.Bounds.{AtLeast, AtMost}
use pageforge.SqlExecutor.Access.Names.{column_of}
use pageforge.SqlExecutor.Access.Rows.{value_of}
use pageforge.SqlExecutor.Select.Stored.{IsLimited, IsEntry, Holds, IsIndexed, Agrees}
use pageforge.Tests.Definitions.{t, t_bytes, i_bytes, listed_i}

abbrev at : ℕ → RecordId
at n = record { page_id = 0; slot_id = n }

-- The envelope of a row of T and the header of its tuple.
abbrev row_head : Bytes
row_head =
    80 ∷ 70 ∷ 82 ∷ 49 ∷ 1 ∷ 0 ∷ 1 ∷ 0 ∷ 0 ∷ 0 ∷ 1 ∷ 0 ∷ 84 ∷ 80 ∷ 70 ∷ 84 ∷ 49 ∷ 1 ∷ 0 ∷ 1 ∷ 0 ∷ []

abbrev number : ℕ → Bytes
number n = row_head ++ 0 ∷ n ∷ 0 ∷ 0 ∷ 0 ∷ 0 ∷ 0 ∷ 0 ∷ 0 ∷ []

abbrev pub stored : Scan
stored = record {
  records =
      record { id = at 0; bytes = t_bytes }
      ∷ record { id = at 1; bytes = i_bytes }
      ∷ record { id = at 2; bytes = number 5 }
      ∷ record { id = at 3; bytes = row_head ++ 1 ∷ [] }
      ∷ record { id = at 4; bytes = number 2 }
      ∷ [];
  thrown = none;
}

abbrev row : ℕ → ℕ → TableRow
row slot n = record { id = at slot; values = Value.integer (pos n) ∷ [] }

abbrev null_row : TableRow
null_row = record { id = at 3; values = Value.null ∷ [] }

abbrev pub table_rows : List TableRow
table_rows = row 2 5 ∷ null_row ∷ row 4 2 ∷ []

abbrev entry : ℕ → ℕ → IndexEntry
entry slot n = record { key = pos n; value = at slot }

abbrev entries : List IndexEntry
entries = entry 4 2 ∷ entry 2 5 ∷ []

abbrev kept : (IndexEntry → Bool) → List IndexEntry → List IndexEntry
kept test [] = []
kept test (e ∷ es) = if test e then e ∷ kept test es else kept test es

abbrev values_of : List IndexEntry → List RecordId
values_of es = map (λ e. e.value) es

abbrev first : {A : Type 0} → Option ℕ → List A → List A
first none items = items
first (some limit) items = take limit items

abbrev above : Option ℤ → ℤ → Bool
above none n = true
above (some lower) n = not (ltb_ℤ n lower)

abbrev below : Option ℤ → ℤ → Bool
below none n = true
below (some upper) n = not (ltb_ℤ upper n)

-- The answers of a tree with the entries.
abbrev tree : Index
tree = record {
  find = λ key limit. ok (first limit (values_of (kept (λ e. eq_ℤ e.key key) entries)));
  range = λ lower upper limit.
      if crossed lower upper
      then err invalid_argument
      else ok (first limit (kept (λ e. above lower e.key && below upper e.key) entries));
}

abbrev bytes_of : List Record → RecordId → Result Bytes
bytes_of [] id = err out_of_range
bytes_of (found ∷ records) id =
    if (found.id.page_id == id.page_id) && (found.id.slot_id == id.slot_id)
    then ok found.bytes
    else bytes_of records id

abbrev pub database : Database
database = record {
  find_index = λ name. find_index name stored;
  find_table = λ name. find_table name stored;
  read = bytes_of stored.records;
  open_index = λ id. if id.page_id == 1 then ok tree else err index_corruption;
}

scanned : rows_of t stored.records stored.thrown ≡ (table_rows, none)
unfolding rows_of parse has_magic read_word eq_bytes decode_row decode decode_body decode_loop
    decode_column decode_value test_bit unknown_bits validate_schema known_type from_u64
scanned = refl

table_found : find_table t.name stored ≡ ok (some t)
unfolding find_table find_table_loop identifier_key ascii_lower eq_bytes list_tables
    list_tables_loop has_magic decode_table read_text read_word decode_columns decode_kind
    decode_type contains
table_found = refl

index_found : find_index (105 ∷ []) stored ≡ ok (some listed_i)
unfolding find_index find_index_loop list_tables list_tables_loop has_magic decode_table
    decode_index read_text read_word decode_columns decode_kind decode_type contains contains_id
    record_key identifier_key ascii_lower resolve_index_reference find_key eq_bytes
index_found = refl

limit_first :
    {A : Type 0} (items found : List A) (limit : ℕ)
    → ok items ≡ ok found
    → ok (take limit items) ≡ ok (take limit found)
limit_first items found limit e = ap (λ xs. ok (take limit xs)) (ok-injective e)

tree-IsLimited : IsLimited tree
tree-IsLimited = record {
  find_first =
      λ key limit ids e. limit_first (values_of (kept (λ e. eq_ℤ e.key key) entries)) ids limit e;
  range_first = λ lower upper limit found e. either (crossed lower upper) lower upper limit found e;
}
  where
    either :
        (crosses : Bool) (lower upper : Option ℤ) (limit : ℕ) (found : List IndexEntry)
        → (if crosses
            then err invalid_argument
            else ok (kept (λ e. above lower e.key && below upper e.key) entries))
          ≡ ok found
        → (if crosses
            then err invalid_argument
            else ok (take limit (kept (λ e. above lower e.key && below upper e.key) entries)))
          ≡ ok (take limit found)
    either true lower upper limit found e = absurd cc
    either false lower upper limit found e =
        limit_first (kept (λ e. above lower e.key && below upper e.key) entries) found limit e

kept-Memᴰ :
    (test : IndexEntry → Bool) (es : List IndexEntry) (e : IndexEntry)
    → (Memᴰ e (kept test es) → Memᴰ e es × (test e ≡ true))
      × (Memᴰ e es → test e ≡ true → Memᴰ e (kept test es))
kept-Memᴰ test [] e = ((λ m. absurd (not-nil m)), λ m holds. m)
kept-Memᴰ test (x ∷ es) e =
    let (there, back) = kept-Memᴰ test es e in
    elim (Bool-cases (test x)) [
      | inl holds ↦ rw holds (
        (λ m. elim (cases_cons m) [
          | inl is ↦ (head is, ap test is ∙ holds)
          | inr later ↦ (tail (there later).0, (there later).1)
        ]),
        λ m yes'. elim (cases_cons m) [ inl is ↦ head is | inr later ↦ tail (back later yes') ],
      )
      | inr fails ↦ rw fails (
        (λ m. (tail (there m).0, (there m).1)),
        λ m yes'. elim (cases_cons m) [
          | inl is ↦ absurd (let contrary = ap test is in cc)
          | inr later ↦ back later yes'
        ],
      )
    ]

values_of-Memᴰ :
    (es : List IndexEntry) (id : RecordId)
    → (Memᴰ id (values_of es) → (e : IndexEntry) × Memᴰ e es × (e.value ≡ id))
      × ((e : IndexEntry) → Memᴰ e es → e.value ≡ id → Memᴰ id (values_of es))
values_of-Memᴰ [] id = ((λ m. absurd (not-nil m)), λ e m is. absurd (not-nil m))
values_of-Memᴰ (x ∷ es) id =
    let (there, back) = values_of-Memᴰ es id in
    (
      (λ m. elim (cases_cons m) [
        | inl is ↦ (x, head refl, sym is)
        | inr later ↦ let (e, m', is) = there later in (e, tail m', is)
      ]),
      λ e m is. elim (cases_cons m) [
        | inl same ↦ head (sym is ∙ ap (λ y. y.value) same)
        | inr later ↦ tail (back e later is)
      ],
    )

abbrev id_column : Bytes
id_column = 73 ∷ 100 ∷ []

entry-IsEntry : (e : IndexEntry) → Memᴰ e entries → IsEntry t table_rows id_column e.key e.value
unfolding value_of eq_bytes
entry-IsEntry e m = elim (cases_cons m) [
  | inl is ↦ (
    row 4 2,
    tail (tail (head refl)),
    ap (λ x. x.value) (sym is),
    ap (λ x. Value.integer x.key) (sym is),
  )
  | inr later ↦ elim (cases_cons later) [
    | inl is ↦
        (row 2 5, head refl, ap (λ x. x.value) (sym is), ap (λ x. Value.integer x.key) (sym is))
    | inr nowhere ↦ absurd (not-nil nowhere)
  ]
]

integer_key : {n m : ℤ} → Value.integer n ≡ Value.integer m → n ≡ m
integer_key e = cc

IsEntry-entry : (e : IndexEntry) → IsEntry t table_rows id_column e.key e.value → Memᴰ e entries
unfolding value_of eq_bytes
IsEntry-entry e (w, m, is, value) = elim (cases_cons m) [
  | inl same ↦ tail (head (λ i. record { key = key 5 same i; value = place 2 5 same i }))
  | inr later ↦ elim (cases_cons later) [
    | inl same ↦ absurd (
        let null = ap (λ (r : TableRow). value_of t.schema r.values id_column) (sym same) ∙ value in
        cc)
    | inr last ↦ elim (cases_cons last) [
      | inl same ↦ head (λ i. record { key = key 2 same i; value = place 4 2 same i })
      | inr nowhere ↦ absurd (not-nil nowhere)
    ]
  ]
]
  where
    place : (slot n : ℕ) → w ≡ row slot n → e.value ≡ at slot
    place slot n same = sym is ∙ ap (λ r. r.id) same

    key : {slot : ℕ} (n : ℕ) → w ≡ row slot n → e.key ≡ pos n
    key n same =
        integer_key (sym value ∙ ap (λ (r : TableRow). value_of t.schema r.values id_column) same)

above-AtLeast :
    (lower : Option ℤ) (n : ℤ)
    → (above lower n ≡ true → AtLeast lower n) × (AtLeast lower n → above lower n ≡ true)
above-AtLeast none n = ((λ h. tt), λ h. refl)
above-AtLeast (some lower) n = ((λ h. ground arith), λ h. rw h)

below-AtMost :
    (upper : Option ℤ) (n : ℤ)
    → (below upper n ≡ true → AtMost upper n) × (AtMost upper n → below upper n ≡ true)
below-AtMost none n = ((λ h. tt), λ h. refl)
below-AtMost (some upper) n = ((λ h. ground arith), λ h. rw h)

both : (a b : Bool) → (a && b) ≡ true → (a ≡ true) × (b ≡ true)
both a b h = (ground arith, ground arith)

tree-Holds : Holds t table_rows id_column tree
tree-Holds = record {
  find = λ key. (
    values_of (kept (λ e. eq_ℤ e.key key) entries),
    refl,
    (λ id m.
        let (e, there, is) = (values_of-Memᴰ (kept (λ e. eq_ℤ e.key key) entries) id).0 m in
        let (inside, same) = (kept-Memᴰ (λ e. eq_ℤ e.key key) entries e).0 there in
        let (w, m', of, value) = entry-IsEntry e inside in
        (w, m', of ∙ is, value ∙ ap Value.integer (eq_ℤ→eq e.key key same))),
    λ id is.
        let e : IndexEntry = record { key = key; value = id } in
        (values_of-Memᴰ (kept (λ e. eq_ℤ e.key key) entries) id).1 e
          ((kept-Memᴰ (λ e. eq_ℤ e.key key) entries e).1 (IsEntry-entry e is) (equal key)) refl,
  );
  range = λ lower upper apart.
      let test : IndexEntry → Bool = λ e. above lower e.key && below upper e.key in
      (
        kept test entries,
        rw apart refl,
        (λ e m.
            let (inside, holds) = (kept-Memᴰ test entries e).0 m in
            let (low, high) = both (above lower e.key) (below upper e.key) holds in
            (
              entry-IsEntry e inside,
              ((above-AtLeast lower e.key).0 low, (below-AtMost upper e.key).0 high),
            )),
        λ e is between. (kept-Memᴰ test entries e).1 (IsEntry-entry e is) (
            rw ((above-AtLeast lower e.key).1 between.0, (below-AtMost upper e.key).1 between.1)
              refl),
      );
}
  where
    equal : (n : ℤ) → eq_ℤ n n ≡ true
    equal n = ground arith

indexed :
    (name column : Bytes)
    → column_of name (listed_i ∷ []) ≡ some (t.name, column)
    → IsIndexed t table_rows database name column
unfolding column_of find_column eq_bytes
indexed name column e = elim (Bool-cases (eq_bytes listed_i.name name)) [
  | inr other ↦ absurd (let e' = rw (other, column_of) at e in cc)
  | inl same ↦
      let name_is : listed_i.name ≡ name = eq_bytes→eq listed_i.name name same in
      let column_is : id_column ≡ column = column_same (rw (same, column_of) at e) in
      subst (λ (n : Bytes). IsIndexed t table_rows database n column) name_is
        (subst (IsIndexed t table_rows database listed_i.name) column_is (record {
          definition = listed_i;
          found = index_found;
          of_table = refl;
          of_column = refl;
          position = 0;
          the_column = record { name = id_column; type = DataType.integer; nullable = true };
          placed = refl;
          integral = refl;
          index = tree;
          opened = refl;
          holds = tree-Holds;
        }))
]
  where
    column_same :
        {table column' : Bytes}
        → ◌≡◌ {A = Option (Bytes × Bytes)} (some (table, id_column)) (some (t.name, column'))
        → id_column ≡ column'
    column_same e = cc

pub agrees : Agrees database stored (listed_i ∷ []) t table_rows
agrees = record {
  scanned = scanned;
  reads = λ found m. elim (cases_cons m) [
    | inl is ↦ rw is refl
    | inr later ↦ elim (cases_cons later) [
      | inl is ↦ rw is refl
      | inr later1 ↦ elim (cases_cons later1) [
        | inl is ↦ rw is refl
        | inr later2 ↦ elim (cases_cons later2) [
          | inl is ↦ rw is refl
          | inr later3 ↦ elim (cases_cons later3) [
            | inl is ↦ rw is refl
            | inr nowhere ↦ absurd (not-nil nowhere)
          ]
        ]
      ]
    ]
  ];
  has_table = table_found;
  has_index = indexed;
  limited = λ id index opened. elim (Bool-cases (id.page_id == 1)) [
    | inl here ↦ subst IsLimited (ok-injective (rw here at opened)) tree-IsLimited
    | inr other ↦ absurd (let opened' = rw other at opened in cc)
  ];
}
