-- ===== src/Catalog/Store/Lookup.antt =====
-- A definition that is found is the one that is listed, and what is listed has distinct names.
use mathlib.Core.Path.{subst}
use pageforge.Prelude.{
  ◌≡◌, refl, sym, ap, ◌∙◌, true, false, List, [], ◌∷◌, Option, none, some, Bool-cases, Result-cases,
  inl, inr, Result, ok, err, Exception, ◌>>=◌, >>=-eq-ok, ok-injective, throw_if, throw_if-eq-ok,
  catalog_corruption,
}
use pageforge.Bytes.{Bytes}
use pageforge.Bytes.Compare.{eq_bytes, eq_bytes→eq}
use pageforge.RecordStore.{Record}
use pageforge.BPlusTree.Node.{has_magic}
use pageforge.Catalog.{TableDefinition, identifier_key, contains}
use pageforge.Catalog.Tables.{table_magic, decode}
use pageforge.Catalog.Indexes.{find_key}
use pageforge.Catalog.Store.{Scan, list_tables_loop, list_tables, find_table_loop, find_table}

-- The last of what was found and of the first of that key in the list.
abbrev later_of {ℓ} : {A : Type ℓ} → Option A → Option A → Option A
later_of found none = found
later_of found (some a) = some a

abbrev table_name : TableDefinition → Bytes
table_name table = table.name

list_tables_loop-absent :
    (key : Bytes) (names : List Bytes) (records : List Record) (thrown : Option Exception)
    (tables : List TableDefinition)
    → contains key names ≡ true
    → list_tables_loop names records thrown ≡ ok tables
    → find_key table_name key tables ≡ none
unfolding list_tables_loop find_key contains
list_tables_loop-absent key names [] none tables h e = rw (← (ok-injective e)) refl
list_tables_loop-absent key names [] (some thrown) tables h e = absurd cc
list_tables_loop-absent key names (r ∷ records) thrown tables h e =
    elim (Bool-cases (has_magic r.bytes table_magic)) [
      | inr other ↦ list_tables_loop-absent key names records thrown tables h (rw other at e)
      | inl is_table ↦
          let (table, decoded, rest) = >>=-eq-ok (decode r.bytes) _ (rw is_table at e) in
          let (tested, test, rest1) =
            >>=-eq-ok (throw_if (contains (identifier_key table.name) names) catalog_corruption) _
              rest in
          let (others, more, done) =
            >>=-eq-ok (list_tables_loop (identifier_key table.name ∷ names) records thrown) _
              rest1 in
          subst (λ (ts : List TableDefinition). find_key table_name key ts ≡ none)
            (ok-injective done)
            (step table others (throw_if-eq-ok _ _ test) (
              list_tables_loop-absent key (identifier_key table.name ∷ names) records thrown others
                (elim (Bool-cases (eq_bytes (identifier_key table.name) key)) [
                  | inl yes' ↦ rw yes' refl
                  | inr no' ↦ rw no' h
                ])
                more))
    ]
  where
    step :
        (table : TableDefinition) (others : List TableDefinition)
        → contains (identifier_key table.name) names ≡ false
        → find_key table_name key others ≡ none
        → find_key table_name key (table ∷ others) ≡ none
    step table others new absent = elim (Bool-cases (eq_bytes (identifier_key table.name) key)) [
      | inr no' ↦ rw no' absent
      | inl yes' ↦ absurd (
          let same =
            ap (λ (k : Bytes). contains k names)
              (eq_bytes→eq (identifier_key table.name) key yes') in
          cc)
    ]

find_table_loop-list_tables_loop :
    (key : Bytes) (names : List Bytes) (found : Option TableDefinition) (records : List Record)
    (thrown : Option Exception)
    → find_table_loop key names found records thrown ≡ (
        list_tables_loop names records thrown >>= λ tables.
        ok (later_of found (find_key table_name key tables)))
unfolding find_table_loop list_tables_loop find_key contains
find_table_loop-list_tables_loop key names found [] none = refl
find_table_loop-list_tables_loop key names found [] (some e) = refl
find_table_loop-list_tables_loop key names found (r ∷ records) thrown =
    elim (Bool-cases (has_magic r.bytes table_magic)) [
      | inr other ↦ rw other (find_table_loop-list_tables_loop key names found records thrown)
      | inl is_table ↦ rw is_table (elim (Result-cases (decode r.bytes)) [
        | inr (e, bad) ↦ rw bad refl
        | inl (table, good) ↦
            rw good (elim (Bool-cases (contains (identifier_key table.name) names)) [
              | inl old ↦ rw old refl
              | inr new ↦ rw new (elim (Bool-cases (eq_bytes (identifier_key table.name) key)) [
                | inr no' ↦ rw no' (
                    find_table_loop-list_tables_loop key (identifier_key table.name ∷ names) found
                      records thrown
                    ∙ sym (
                        passes table no'
                          (list_tables_loop (identifier_key table.name ∷ names) records thrown)))
                | inl yes' ↦ rw yes' (
                    find_table_loop-list_tables_loop key (identifier_key table.name ∷ names)
                      (some table) records thrown
                    ∙ sym (
                        takes table yes'
                          (list_tables_loop (identifier_key table.name ∷ names) records thrown)
                          refl))
              ])
            ])
      ])
    ]
  where
    passes :
        (table : TableDefinition)
        → eq_bytes (identifier_key table.name) key ≡ false
        → (rest : Result (List TableDefinition))
        → ((rest >>= λ tables. ok (table ∷ tables)) >>= λ tables.
            ok (later_of found (find_key table_name key tables)))
          ≡ (rest >>= λ tables. ok (later_of found (find_key table_name key tables)))
    passes table no' (err e) = refl
    passes table no' (ok tables) = rw no' refl

    takes :
        (table : TableDefinition)
        → eq_bytes (identifier_key table.name) key ≡ true
        → (rest : Result (List TableDefinition))
        → list_tables_loop (identifier_key table.name ∷ names) records thrown ≡ rest
        → ((rest >>= λ tables. ok (table ∷ tables)) >>= λ tables.
            ok (later_of found (find_key table_name key tables)))
          ≡ (rest >>= λ tables. ok (later_of (some table) (find_key table_name key tables)))
    takes table yes' (err e) listed = refl
    takes table yes' (ok tables) listed =
        let absent =
          list_tables_loop-absent key (identifier_key table.name ∷ names) records thrown tables
            (rw yes' refl) listed in
        rw (yes', absent) refl

-- `find_table` returns the table of the list whose name has the same key, and throws what `list_tables` throws.
pub find_table-list_tables :
    (name : Bytes) (scan : Scan)
    → find_table name scan ≡ (
        list_tables scan >>= λ tables.
        ok (find_key (λ table. table.name) (identifier_key name) tables))
unfolding find_table list_tables
find_table-list_tables name scan =
    find_table_loop-list_tables_loop (identifier_key name) [] none scan.records scan.thrown
    ∙ same (list_tables_loop [] scan.records scan.thrown)
  where
    same :
        (listed : Result (List TableDefinition))
        → (listed >>= λ tables.
            ok (later_of none (find_key table_name (identifier_key name) tables)))
          ≡ (listed >>= λ tables. ok (find_key table_name (identifier_key name) tables))
    same (err e) = refl
    same (ok tables) = ap ok (none_first (find_key table_name (identifier_key name) tables))
      where
        none_first : (x : Option TableDefinition) → later_of none x ≡ x
        none_first none = refl
        none_first (some t) = refl
