-- ===== src/TableStore/Cursor.antt =====
-- src/table_store.cpp: the cursor over a table, as the rows that it returns until it ends, over the records that
-- the record store's cursor returns.
use mathlib.Core.Path.{subst}
use mathlib.Core.List.{Memᴰ}
use mathlib.Core.List.Memᴰ.{head, tail, cases_cons, not-nil}
use pageforge.Prelude.{
  ◌≡◌, refl, sym, ap, ◌∙◌, true, not, List, [], ◌∷◌, length, Option, none, some, Bool-cases,
  Result-cases, inl, inr, if◌then◌else◌, Result, ok, err, Exception, ◌>>=◌,
}
use pageforge.Bytes.{Bytes}
use pageforge.Bytes.Compare.{eq_bytes}
use pageforge.BPlusTree.Node.{has_magic}
use pageforge.RecordStore.{Record}
use pageforge.Tuple.{Tuple}
use pageforge.Query.{TableRow}
use pageforge.Catalog.{TableDefinition}
use pageforge.Catalog.Store.{Scan}
use pageforge.SqlExecutor.Interface.{TableCursor}
use pageforge.TableStore.{RowEnvelope, row_magic, parse, decode_row}
use pageforge.TableStore.Lookup.{or_missing}

abbrev pub Rows : Type 0
Rows = List TableRow × Option Exception

abbrev pub returned : Record → Result Tuple → Rows → Rows
returned found (err e) later = ([], some e)
returned found (ok values) later = (record { id = found.id; values = values } ∷ later.0, later.1)

abbrev pub on_envelope : TableDefinition → Record → Result RowEnvelope → Rows → Rows
on_envelope table found (err e) later = ([], some e)
on_envelope table found (ok envelope) later =
    if eq_bytes envelope.table_name table.name
    then returned found (decode_row table envelope) later
    else later

-- The rows of `TableCursor::next` until it returns none or throws.
unfoldable pub rows_of : TableDefinition → List Record → Option Exception → Rows
rows_of table [] thrown = ([], thrown)
rows_of table (found ∷ records) thrown =
    let later = rows_of table records thrown in
    if not (has_magic found.bytes row_magic)
    then later
    else on_envelope table found (parse found.bytes) later

unfoldable pub cursor :
    (Bytes → Result (Option TableDefinition)) → Scan → Bytes → Result TableCursor
cursor find_table scan name = do
  owner ← find_table name
  table ← or_missing owner
  ok (record {
    rows = (rows_of table scan.records scan.thrown).0;
    thrown = (rows_of table scan.records scan.thrown).1;
    column_count = length table.schema;
  })

-- What a row of the cursor was read from.
pub record ReadFrom (table : TableDefinition) (row : TableRow) (found : Record) : Type 0 where
  pub id : row.id ≡ found.id
  pub envelope : RowEnvelope
  pub parsed : parse found.bytes ≡ ok envelope
  pub named : eq_bytes envelope.table_name table.name ≡ true
  pub decoded : decode_row table envelope ≡ ok row.values

-- The rows that the cursor returns when nothing is thrown are read from the records.
abbrev AreRead : TableDefinition → List Record → Option Exception → TableRow → Type 0
AreRead table records thrown row =
    (rows : List TableRow)
    → rows_of table records thrown ≡ (rows, none)
    → Memᴰ row rows
    → (found : Record) × Memᴰ found records × ReadFrom table row found

-- A cursor that reached the end of the records returned only rows that its records hold.
pub rows_of-ReadFrom :
    (table : TableDefinition) (records : List Record) (thrown : Option Exception)
    (rows : List TableRow) (row : TableRow)
    → rows_of table records thrown ≡ (rows, none)
    → Memᴰ row rows
    → (found : Record) × Memᴰ found records × ReadFrom table row found
unfolding rows_of
rows_of-ReadFrom table [] thrown rows row e m =
    absurd (not-nil (subst (Memᴰ row) (sym (ap (λ d. d.0) e)) m))
rows_of-ReadFrom table (found ∷ records) thrown rows row e m =
    elim (Bool-cases (not (has_magic found.bytes row_magic))) [
      | inl foreign ↦
          skipped (λ rows'. rows_of-ReadFrom table records thrown rows' row)
            (rw (foreign, rows_of) at e)
      | inr marked ↦ elim (Result-cases (parse found.bytes)) [
        | inr (thrown', bad) ↦ absurd (let e' = rw (marked, bad, rows_of) at e in cc)
        | inl (envelope, parsed) ↦ elim (Bool-cases (eq_bytes envelope.table_name table.name)) [
          | inr other ↦
              skipped (λ rows'. rows_of-ReadFrom table records thrown rows' row)
                (rw (marked, parsed, other, rows_of) at e)
          | inl named ↦ elim (Result-cases (decode_row table envelope)) [
            | inr (thrown', bad) ↦
                absurd (let e' = rw (marked, parsed, named, bad, rows_of) at e in cc)
            | inl (values, decoded) ↦
                here (λ rows'. rows_of-ReadFrom table records thrown rows' row) envelope parsed
                  named values decoded (rw (marked, parsed, named, decoded, rows_of) at e)
          ]
        ]
      ]
    ]
  where
    skipped :
        AreRead table records thrown row
        → rows_of table records thrown ≡ (rows, none)
        → (found' : Record) × Memᴰ found' (found ∷ records) × ReadFrom table row found'
    skipped rest e' = let (found', there, from) = rest rows e' m in (found', tail there, from)

    here :
        AreRead table records thrown row
        → (envelope : RowEnvelope) → parse found.bytes ≡ ok envelope
        → eq_bytes envelope.table_name table.name ≡ true
        → (values : Tuple) → decode_row table envelope ≡ ok values
        → returned found (ok values) (rows_of table records thrown) ≡ (rows, none)
        → (found' : Record) × Memᴰ found' (found ∷ records) × ReadFrom table row found'
    here rest envelope parsed named values decoded e' =
        elim (cases_cons (subst (Memᴰ row) (sym (ap (λ d. d.0) e')) m)) [
          | inl is ↦ (
            found,
            head refl,
            record {
              id = ap (λ r. r.id) is;
              envelope = envelope;
              parsed = parsed;
              named = named;
              decoded = decoded ∙ ap (λ r. ok r.values) (sym is);
            },
          )
          | inr later ↦
              let (found', there, from) =
                rest (rows_of table records thrown).0
                  (ap (λ t. ((rows_of table records thrown).0, t)) (ap (λ d. d.1) e')) later in
              (found', tail there, from)
        ]
