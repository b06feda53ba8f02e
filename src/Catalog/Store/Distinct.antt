-- ===== src/Catalog/Store/Distinct.antt =====
-- The indexes that are listed have distinct names and distinct trees.
use mathlib.Core.Path.{subst}
use pageforge.Prelude.{
  ℕ, ◌≡◌, ap, false, List, [], ◌∷◌, ◌==◌, Option, none, some, All, Bool-cases, inl, inr, ok,
  Exception, >>=-eq-ok, ok-injective, throw_if, throw_if-eq-ok, catalog_corruption,
}
use pageforge.Bytes.{Bytes}
use pageforge.Bytes.Compare.{eq_bytes, eq_bytes→eq, eq_bytes_refl}
use pageforge.RecordStore.{Record}
use pageforge.BPlusTree.Node.{has_magic}
use pageforge.Catalog.{TableDefinition, IndexDefinition, identifier_key, contains}
use pageforge.Catalog.Indexes.{index_magic, decode_index, resolve_index_reference}
use pageforge.Catalog.Store.{
  Scan, list_tables, record_key, contains_id, list_indexes_loop, list_indexes,
}
use pageforge.SqlExecutor.Access.Names.{Distinct}

-- No two indexes have one tree.
abbrev pub DistinctTrees : List IndexDefinition → Type 0
DistinctTrees [] = Unit
DistinctTrees (index ∷ indexes) =
    All (λ other. (record_key index.header_id == record_key other.header_id) ≡ false) indexes
    × DistinctTrees indexes

-- The indexes behind `names` and `ids` that a loop has gone through.
record New (names : List Bytes) (ids : List ℕ) (index : IndexDefinition) : Type 0 where
  pub name : contains (identifier_key index.name) names ≡ false
  pub tree : contains_id (record_key index.header_id) ids ≡ false

contains-behind :
    (value member : Bytes) (names : List Bytes)
    → contains value (member ∷ names) ≡ false
    → (eq_bytes member value ≡ false) × (contains value names ≡ false)
unfolding contains
contains-behind value member names h = elim (Bool-cases (eq_bytes member value)) [
  | inl same ↦ absurd (let h' = rw same at h in cc)
  | inr other ↦ (other, rw other at h)
]

contains_id-behind :
    (value member : ℕ) (ids : List ℕ)
    → contains_id value (member ∷ ids) ≡ false
    → ((member == value) ≡ false) × (contains_id value ids ≡ false)
unfolding contains_id
contains_id-behind value member ids h = elim (Bool-cases (member == value)) [
  | inl same ↦ absurd (let h' = rw same at h in cc)
  | inr other ↦ (other, rw other at h)
]

-- Names with different keys are different.
names_differ :
    (a b : Bytes) → eq_bytes (identifier_key a) (identifier_key b) ≡ false → eq_bytes a b ≡ false
names_differ a b h = elim (Bool-cases (eq_bytes a b)) [
  | inr no' ↦ no'
  | inl yes' ↦ absurd (
      let same =
        ap (λ (n : Bytes). eq_bytes (identifier_key a) (identifier_key n)) (eq_bytes→eq a b yes') in
      let self = eq_bytes_refl (identifier_key a) in cc)
]

apart :
    (index : IndexDefinition) (names : List Bytes) (ids : List ℕ) (others : List IndexDefinition)
    → All (New (identifier_key index.name ∷ names) (record_key index.header_id ∷ ids)) others
    → All (λ other. eq_bytes index.name other.name ≡ false) others
      × All (λ other. (record_key index.header_id == record_key other.header_id) ≡ false) others
      × All (New names ids) others
apart index names ids [] h = (tt, tt, tt)
apart index names ids (other ∷ others) h =
    let (names_apart, trees_apart, new) = apart index names ids others h.1 in
    let (name, name') =
      contains-behind (identifier_key other.name) (identifier_key index.name) names h.0.name in
    let (tree, tree') =
      contains_id-behind (record_key other.header_id) (record_key index.header_id) ids h.0.tree in
    (
      (names_differ index.name other.name name, names_apart),
      (tree, trees_apart),
      (record { name = name'; tree = tree' }, new),
    )

list_indexes_loop-Distinct :
    (tables : List TableDefinition) (names : List Bytes) (ids : List ℕ) (records : List Record)
    (thrown : Option Exception) (indexes : List IndexDefinition)
    → list_indexes_loop tables names ids records thrown ≡ ok indexes
    → All (New names ids) indexes × Distinct indexes × DistinctTrees indexes
unfolding list_indexes_loop
list_indexes_loop-Distinct tables names ids [] none indexes e =
    subst (λ is. All (New names ids) is × Distinct is × DistinctTrees is) (ok-injective e)
      (tt, tt, tt)
list_indexes_loop-Distinct tables names ids [] (some thrown) indexes e = absurd cc
list_indexes_loop-Distinct tables names ids (r ∷ records) thrown indexes e =
    elim (Bool-cases (has_magic r.bytes index_magic)) [
      | inr other ↦
          list_indexes_loop-Distinct tables names ids records thrown indexes (rw other at e)
      | inl is_index ↦
          let (decoded, decodes, rest) = >>=-eq-ok (decode_index r.bytes) _ (rw is_index at e) in
          let (index, resolves, rest1) =
            >>=-eq-ok (resolve_index_reference decoded tables) _ rest in
          let (named, name, rest2) =
            >>=-eq-ok (throw_if (contains (identifier_key index.name) names) catalog_corruption) _
              rest1 in
          let (owned, tree, rest3) =
            >>=-eq-ok (throw_if (contains_id (record_key index.header_id) ids) catalog_corruption) _
              rest2 in
          let (others, more, done) =
            >>=-eq-ok
              (list_indexes_loop tables (identifier_key index.name ∷ names)
                (record_key index.header_id ∷ ids) records thrown)
              _ rest3 in
          let (new, distinct, trees) =
            list_indexes_loop-Distinct tables (identifier_key index.name ∷ names)
              (record_key index.header_id ∷ ids) records thrown others more in
          let (names_apart, trees_apart, new') = apart index names ids others new in
          subst (λ is. All (New names ids) is × Distinct is × DistinctTrees is)
            (ok-injective {x = index ∷ others} done)
            (
              (record { name = throw_if-eq-ok _ _ name; tree = throw_if-eq-ok _ _ tree }, new'),
              (names_apart, distinct),
              (trees_apart, trees),
            )
    ]

-- When the catalog lists its indexes, no two of them have one name, and no two have one tree.
pub list_indexes-Distinct :
    (scan : Scan) (indexes : List IndexDefinition)
    → list_indexes scan ≡ ok indexes
    → Distinct indexes × DistinctTrees indexes
unfolding list_indexes
list_indexes-Distinct scan indexes e =
    let (tables, listed, rest) = >>=-eq-ok (list_tables scan) _ e in
    let (new, distinct, trees) =
      list_indexes_loop-Distinct tables [] [] scan.records scan.thrown indexes rest in
    (distinct, trees)
