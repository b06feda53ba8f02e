-- ===== src/SqlExecutor/Access/Names.antt =====
-- The indexes of a catalog have distinct names, so that a name stands for one column.
use pageforge.Prelude.{
  ℕ, ◌≡◌, ap, arith, Bool, true, false, ◌&&◌, List, [], ◌∷◌, Option, none, some, All, Bool-cases,
  Option-cases, inl, inr, if◌then◌else◌, ok, >>=-eq-ok, ok-injective,
}
use pageforge.Prelude.Int.{ℤ}
use pageforge.Bytes.{Bytes}
use pageforge.Bytes.Compare.{eq_bytes, eq_bytes→eq, eq_bytes_refl}
use pageforge.Tuple.{Column}
use pageforge.SqlParser.Ast.{SqlPredicate}
use pageforge.Catalog.{TableDefinition, IndexDefinition}
use pageforge.SqlExecutor.Binding.{resolve_column}
use pageforge.SqlExecutor.Access.{
  first_index, matching_index, integer_literal, with_literal, is_integer,
}

abbrev pub Distinct : List IndexDefinition → Type 0
Distinct [] = Unit
Distinct (index ∷ indexes) =
    All (λ other. eq_bytes index.name other.name ≡ false) indexes × Distinct indexes

-- The table and the column of the first index of that name.
unfoldable pub column_of : Bytes → List IndexDefinition → Option (Bytes × Bytes)
column_of name [] = none
column_of name (index ∷ indexes) =
    let later = column_of name indexes in
    if eq_bytes index.name name then some (index.table, index.column) else later

All-first_index :
    (table column name : Bytes) (indexes : List IndexDefinition) (index : IndexDefinition)
    → All (λ other. eq_bytes name other.name ≡ false) indexes
    → first_index table column indexes ≡ some index
    → eq_bytes name index.name ≡ false
unfolding first_index
All-first_index table column name [] index h found = absurd cc
All-first_index table column name (x ∷ xs) index h found =
    ground (arith, All-first_index table column name xs index h.1)

and_right : (a b : Bool) → (a && b) ≡ true → b ≡ true
and_right a b h = ground arith

and_left : (a b : Bool) → (a && b) ≡ true → a ≡ true
and_left a b h = ground arith

column_of-first_index :
    (table column : Bytes) (indexes : List IndexDefinition) (index : IndexDefinition)
    → Distinct indexes
    → first_index table column indexes ≡ some index
    → (column_of index.name indexes ≡ some (table, index.column)) × (index.column ≡ column)
unfolding first_index column_of
column_of-first_index table column [] index h found = absurd cc
column_of-first_index table column (x ∷ xs) index h found =
    elim (Bool-cases (eq_bytes x.table table && eq_bytes x.column column)) [
      | inl here ↦
          let found' : some x ≡ some index = rw here at found in
          let same : x ≡ index = cc in
          rw (← same) (
            rw (eq_bytes_refl x.name, eq_bytes→eq x.table table (and_left _ _ here)),
            eq_bytes→eq x.column column (and_right _ _ here),
          )
      | inr there ↦
          let found' = rw there at found in
          rw (All-first_index table column x.name xs index h.0 found')
            (column_of-first_index table column xs index h.1 found')
    ]

-- What a match tells of its predicate.
pub record Matched (indexes : List IndexDefinition) (table : TableDefinition)
    (predicate : SqlPredicate) (index : IndexDefinition) (literal : ℤ) : Type 0 where
  pub literal_is : integer_literal predicate.kind predicate.literal ≡ some literal
  pub position : ℕ
  pub column : Column
  pub resolved : resolve_column table.schema predicate.column ≡ ok (position, column)
  pub integral : is_integer column.type ≡ true
  pub named : column_of index.name indexes ≡ some (table.name, index.column)
  pub indexed : index.column ≡ column.name

with_literal-some :
    (literal n : ℤ) (found : Option IndexDefinition) (index : IndexDefinition)
    → with_literal literal found ≡ some (index, n)
    → (found ≡ some index) × (literal ≡ n)
with_literal-some literal n none index h = absurd cc
with_literal-some literal n (some x) index h = (cc, cc)

pub matching_index-Matched :
    (indexes : List IndexDefinition) (table : TableDefinition) (predicate : SqlPredicate)
    (index : IndexDefinition) (literal : ℤ)
    → Distinct indexes
    → matching_index indexes table predicate ≡ ok (some (index, literal))
    → Matched indexes table predicate index literal
unfolding matching_index
matching_index-Matched indexes table predicate index literal distinct h =
    elim (Option-cases (integer_literal predicate.kind predicate.literal)) [
      | inl none_there ↦ absurd (let h' = rw (none_there, matching_index) at h in cc)
      | inr (n, there) ↦
          let h' = rw (there, matching_index) at h in
          let ((position, column), resolved, rest) =
            >>=-eq-ok (resolve_column table.schema predicate.column) _ h' in
          elim (Bool-cases (is_integer column.type)) [
            | inr other ↦ absurd (let rest' = rw other at rest in cc)
            | inl integral ↦
                let rest' = rw integral at rest in
                let (found, same) =
                  with_literal-some n literal (first_index table.name column.name indexes) index
                    (ok-injective rest') in
                let (named, indexed) =
                  column_of-first_index table.name column.name indexes index distinct found in
                record {
                  literal_is = rw there (ap some same);
                  position = position;
                  column = column;
                  resolved = resolved;
                  integral = integral;
                  named = named;
                  indexed = indexed;
                }
          ]
    ]
