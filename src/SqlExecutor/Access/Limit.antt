-- ===== src/SqlExecutor/Access/Limit.antt =====
-- The rows whose integer an access admits, where the access covers every predicate.
use mathlib.Core.Path.{subst}
use pageforge.Prelude.{
  ℕ, ◌≡◌, refl, sym, ap, ◌∙◌, true, List, [], ◌∷◌, length, Option, some, All, Result, ok,
}
use pageforge.Prelude.Int.{ℤ}
use pageforge.Tuple.{DataType, Column, Value}
use pageforge.Query.{TableRow, RowPredicate}
use pageforge.SqlParser.Ast.{SqlPredicate, SqlOrder, SqlLiteral}
use pageforge.Catalog.{TableDefinition, IndexDefinition}
use pageforge.SqlExecutor.Binding.{
  literal_matches, compare_value, compare_integer, value_at, bind_comparison,
}
use pageforge.SqlExecutor.Access.{IndexAccess, is_integer, choose_index}
use pageforge.SqlExecutor.Access.Bounds.{Admits}
use pageforge.SqlExecutor.Access.Names.{Distinct}
use pageforge.SqlExecutor.Access.Covers.{Met, Covering, choose_index-Covering}
use pageforge.SqlExecutor.Access.Rows.{
  value_of, key_of, integer_or_zero, IsTrueOf, Satisfies, integer_literal-some,
  value_at-resolve_column, bind_predicate-bind_comparison,
}

is_integer-eq : (type : DataType) → is_integer type ≡ true → type ≡ DataType.integer
is_integer-eq DataType.integer h = refl
is_integer-eq DataType.text h = absurd cc
is_integer-eq DataType.boolean h = absurd cc
is_integer-eq DataType.unknown h = absurd cc

-- A comparison of an integer column with an integer literal is bound, to the comparison of the integers.
integer-IsTrueOf :
    (position : ℕ) (column : Column) (predicate : SqlPredicate) (row : TableRow) (literal n : ℤ)
    → column.type ≡ DataType.integer
    → predicate.literal ≡ Value.integer literal
    → value_at row position ≡ Value.integer n
    → compare_integer n literal predicate.comparison ≡ true
    → IsTrueOf (bind_comparison position column predicate) row
unfolding bind_comparison literal_matches compare_value compare_integer
integer-IsTrueOf position column predicate row literal n type is value holds =
    subst (λ (r : Result RowPredicate). IsTrueOf r row) (sym (by_type column.type type))
      (subst
        (λ (v : Value).
          compare_value DataType.integer predicate.comparison predicate.literal v ≡ true)
        (sym value) (compares predicate.literal is))
  where
    matches :
        (l : SqlLiteral) → l ≡ Value.integer literal → literal_matches DataType.integer l ≡ true
    matches l e = ap (literal_matches DataType.integer) e

    compared : Result RowPredicate
    compared = ok (λ row'.
        compare_value DataType.integer predicate.comparison predicate.literal
          (value_at row' position))

    by_type :
        (t : DataType)
        → t ≡ DataType.integer
        → bind_comparison position (record column { type = t }) predicate ≡ compared
    by_type t e = simp (e, matches predicate.literal is)

    compares :
        (l : SqlLiteral)
        → l ≡ Value.integer literal
        → compare_value DataType.integer predicate.comparison l (Value.integer n) ≡ true
    compares l e =
        ap
          (λ (m : SqlLiteral).
            compare_value DataType.integer predicate.comparison m (Value.integer n))
          e
        ∙ holds

-- Completeness of a covering access: where the catalog's indexes have distinct names and the access that
-- is chosen covers as many predicates as the plan has, every row whose integer in the access' column it
-- admits satisfies all the predicates. So the first rows of such an access are rows of the answer.
pub choose_index-Covers :
    (indexes : List IndexDefinition) (table : TableDefinition) (predicates : List SqlPredicate)
    (order : Option SqlOrder) (access : IndexAccess) (row : TableRow) (n : ℤ)
    → Distinct indexes
    → choose_index indexes table predicates order ≡ ok (some access)
    → access.covered_predicates ≡ length predicates
    → value_of table.schema row.values access.column ≡ Value.integer n
    → Admits access n
    → All (Satisfies table.schema row) predicates
unfolding key_of
choose_index-Covers indexes table predicates order access row n distinct chosen covered value
      admits =
    satisfied predicates (covering.full covered (subst (Admits access) (sym keyed) admits))
  where
    covering : Covering indexes table (key_of table.schema row.values) predicates access
    covering =
        choose_index-Covering indexes table (key_of table.schema row.values) predicates order access
          distinct chosen

    keyed : key_of table.schema row.values access.column ≡ n
    keyed = ap integer_or_zero value

    one :
        (p : SqlPredicate)
        → Met indexes table (key_of table.schema row.values) access.column p
        → Satisfies table.schema row p
    one p met =
        let m = met.matched in
        let (kind, is) = integer_literal-some p.kind p.literal met.literal m.literal_is in
        let found =
          value_at-resolve_column table.schema p.column row m.position m.column m.resolved
          ∙ ap (value_of table.schema row.values) (sym m.indexed ∙ met.on)
          ∙ value in
        subst (λ (r : Result RowPredicate). IsTrueOf r row)
          (sym (bind_predicate-bind_comparison table.schema p m.position m.column m.resolved kind))
          (integer-IsTrueOf m.position m.column p row met.literal n
            (is_integer-eq m.column.type m.integral) is found
            (subst (λ (v : ℤ). compare_integer v met.literal p.comparison ≡ true) keyed met.holds))

    satisfied :
        (ps : List SqlPredicate)
        → All (Met indexes table (key_of table.schema row.values) access.column) ps
        → All (Satisfies table.schema row) ps
    satisfied [] h = tt
    satisfied (p ∷ ps) h = (one p h.0, satisfied ps h.1)
