-- ===== src/SqlExecutor/Access/Rows.antt =====
-- The row's integer in a column, and that the index access that is chosen admits it for every row that
-- satisfies the predicates.
use mathlib.Core.Path.{subst}
use pageforge.Prelude.{
  ℕ, suc, ◌+◌, ◌≡◌, refl, sym, ap, ◌∙◌, arith, true, false, not, ◌&&◌, List, [], ◌∷◌, get_or,
  Option, none, some, All, Bool-cases, inl, inr, if◌then◌else◌, Result, ok, err, ◌>>=◌,
  ok-injective,
}
use pageforge.Prelude.Int.{ℤ, pos, IsI64}
use pageforge.Bytes.{Bytes}
use pageforge.Bytes.Compare.{eq_bytes, eq_bytes→eq, eq_bytes_refl}
use pageforge.Tuple.{DataType, Column, Schema, Value, Tuple}
use pageforge.Query.{TableRow, RowPredicate}
use pageforge.SqlParser.Ast.{SqlComparison, SqlPredicateKind, SqlPredicate, SqlOrder, SqlLiteral}
use pageforge.Catalog.{TableDefinition, IndexDefinition}
use pageforge.SqlExecutor.Binding.{
  equal_name, resolve_loop, resolve_column, literal_matches, compare_value, compare_integer,
  value_at, bind_comparison, bind_kind, bind_predicate, is_boolean, only_equality,
}
use pageforge.SqlExecutor.Access.{IndexAccess, integer_literal, is_integer, choose_index}
use pageforge.SqlExecutor.Access.Bounds.{Admits}
use pageforge.SqlExecutor.Access.Names.{Distinct, matching_index-Matched}
use pageforge.SqlExecutor.Access.Sound.{Holds, Good, choose_index-Good}

-- The value of a row in the first column of that very name.
unfoldable pub value_of : Schema → Tuple → Bytes → Value
value_of (column ∷ columns) (value ∷ values) name =
    let later = value_of columns values name in if eq_bytes column.name name then value else later
value_of columns values name = Value.null

abbrev pub integer_or_zero : Value → ℤ
integer_or_zero (Value.integer n) = n
integer_or_zero value = pos 0

unfoldable pub key_of : Schema → Tuple → Bytes → ℤ
key_of schema values name = integer_or_zero (value_of schema values name)

abbrev pub IsI64Value : Value → Type 0
IsI64Value value = IsI64 (integer_or_zero value)

abbrev pub Known : Schema → Tuple → Bytes → Type 0
Known schema values name = value_of schema values name ≡ Value.integer (key_of schema values name)

-- The predicate is bound, and true of the row.
abbrev pub IsTrueOf : Result RowPredicate → TableRow → Type 0
IsTrueOf (err e) row = ⊥
IsTrueOf (ok holds) row = holds row ≡ true

abbrev pub Satisfies : Schema → TableRow → SqlPredicate → Type 0
Satisfies schema row predicate = IsTrueOf (bind_predicate schema predicate) row

key_of-IsI64 :
    (schema : Schema) (values : Tuple) (name : Bytes)
    → All IsI64Value values
    → IsI64 (key_of schema values name)
unfolding key_of value_of
key_of-IsI64 [] values name h = (omega arith, omega arith)
key_of-IsI64 (column ∷ columns) [] name h = (omega arith, omega arith)
key_of-IsI64 (column ∷ columns) (value ∷ values) name h =
    elim (Bool-cases (eq_bytes column.name name)) [
      | inl here ↦ rw here h.0
      | inr there ↦ rw there (key_of-IsI64 columns values name h.1)
    ]

-- What `resolve_column` returns once a column was found is that column, and no later one has the name.
resolve_loop-some :
    (name : Bytes) (columns : Schema) (index : ℕ) (found found' : ℕ × Column)
    → resolve_loop (λ c. c.name) name columns index (some found) ≡ ok found'
    → found ≡ found'
unfolding resolve_loop
resolve_loop-some name [] index found found' h = ok-injective h
resolve_loop-some name (c ∷ columns) index found found' h =
    elim (Bool-cases (equal_name c.name name)) [
      | inl same ↦ absurd (let h' = rw same at h in cc)
      | inr other ↦ resolve_loop-some name columns (index + 1) found found' (rw other at h)
    ]

-- The resolved column is the first of its very name, and its value is at the position.
resolve_loop-none :
    (name : Bytes) (columns : Schema) (values : Tuple) (index position : ℕ) (column : Column)
    → resolve_loop (λ c. c.name) name columns index none ≡ ok (position, column)
    → (equal_name column.name name ≡ true)
      × (offset : ℕ) × (position ≡ index + offset)
      × (value_of columns values column.name ≡ get_or values offset Value.null)
unfolding resolve_loop value_of
resolve_loop-none name [] values index position column h = absurd cc
resolve_loop-none name (c ∷ columns) values index position column h =
    elim (Bool-cases (equal_name c.name name)) [
      | inl same ↦
          let found =
            resolve_loop-some name columns (index + 1) (index, c) (position, column)
              (rw same at h) in
          let at : position ≡ index + 0 = omega (arith, ap (λ p. p.0) found) in
          let is : c ≡ column = ap (λ p. p.1) found in
          (subst (λ (d : Column). equal_name d.name name ≡ true) is same, 0, at, first c is values)
      | inr other ↦
          let (same, offset, at, value) =
            resolve_loop-none name columns (behind values) (index + 1) position column
              (rw other at h) in
          (same, suc offset, omega (arith, at), later same other values offset value)
    ]
  where
    behind : Tuple → Tuple
    behind [] = []
    behind (v ∷ vs) = vs

    first :
        (d : Column)
        → d ≡ column
        → (values : Tuple) → value_of (d ∷ columns) values column.name ≡ get_or values 0 Value.null
    first d is [] = refl
    first d is (v ∷ vs) = rw (← is) (rw (eq_bytes_refl d.name) refl)

    later :
        (equal_name column.name name ≡ true)
        → equal_name c.name name ≡ false
        → (values : Tuple) (offset : ℕ)
        → value_of columns (behind values) column.name ≡ get_or (behind values) offset Value.null
        → value_of (c ∷ columns) values column.name ≡ get_or values (suc offset) Value.null
    later same other [] offset value = refl
    later same other (v ∷ vs) offset value = elim (Bool-cases (eq_bytes c.name column.name)) [
      | inl very ↦ absurd (
          let e = ap (λ (n : Bytes). equal_name n name) (eq_bytes→eq c.name column.name very) in cc)
      | inr others ↦ rw others value
    ]

pub value_at-resolve_column :
    (schema : Schema) (name : Bytes) (row : TableRow) (position : ℕ) (column : Column)
    → resolve_column schema name ≡ ok (position, column)
    → value_at row position ≡ value_of schema row.values column.name
unfolding resolve_column
value_at-resolve_column schema name row position column h =
    let (same, offset, at, value) = resolve_loop-none name schema row.values 0 position column h in
    ap (λ (p : ℕ). value_at row p) (omega (arith, at)) ∙ sym value

-- A value that compares with an integer literal is an integer, and compares as one.
compare_value-integer :
    (type : DataType) (comparison : SqlComparison) (literal : ℤ) (value : Value)
    → is_integer type ≡ true
    → compare_value type comparison (Value.integer literal) value ≡ true
    → compare_integer (integer_or_zero value) literal comparison ≡ true
      × (value ≡ Value.integer (integer_or_zero value))
unfolding compare_value
compare_value-integer DataType.integer comparison literal Value.null h k = absurd cc
compare_value-integer DataType.integer comparison literal (Value.integer n) h k = (k, refl)
compare_value-integer DataType.integer comparison literal (Value.text t) h k = absurd cc
compare_value-integer DataType.integer comparison literal (Value.boolean b) h k = absurd cc
compare_value-integer DataType.text comparison literal value h k = absurd cc
compare_value-integer DataType.boolean comparison literal value h k = absurd cc
compare_value-integer DataType.unknown comparison literal value h k = absurd cc

pub integer_literal-some :
    (kind : SqlPredicateKind) (literal : SqlLiteral) (n : ℤ)
    → integer_literal kind literal ≡ some n
    → (kind ≡ SqlPredicateKind.comparison) × (literal ≡ Value.integer n)
integer_literal-some SqlPredicateKind.comparison Value.null n h = absurd cc
integer_literal-some SqlPredicateKind.comparison (Value.integer m) n h = (refl, cc)
integer_literal-some SqlPredicateKind.comparison (Value.text t) n h = absurd cc
integer_literal-some SqlPredicateKind.comparison (Value.boolean b) n h = absurd cc
integer_literal-some SqlPredicateKind.is_null literal n h = absurd cc
integer_literal-some SqlPredicateKind.is_not_null literal n h = absurd cc

bound-true :
    (position : ℕ) (column : Column) (predicate : SqlPredicate) (row : TableRow)
    → IsTrueOf (bind_comparison position column predicate) row
    → compare_value column.type predicate.comparison predicate.literal (value_at row position)
      ≡ true
unfolding bind_comparison
bound-true position column predicate row h =
    elim (Bool-cases (literal_matches column.type predicate.literal)) [
      | inr mismatch ↦ absurd (rw (mismatch, bind_comparison) at h)
      | inl matches ↦
          elim (Bool-cases (is_boolean column.type && not (only_equality predicate.comparison))) [
            | inl unordered ↦ absurd (rw (matches, unordered, bind_comparison) at h)
            | inr comparable ↦ rw (matches, comparable, bind_comparison) at h
          ]
    ]

pub bind_predicate-bind_comparison :
    (schema : Schema) (predicate : SqlPredicate) (position : ℕ) (column : Column)
    → resolve_column schema predicate.column ≡ ok (position, column)
    → predicate.kind ≡ SqlPredicateKind.comparison
    → bind_predicate schema predicate ≡ bind_comparison position column predicate
unfolding bind_predicate bind_kind
bind_predicate-bind_comparison schema predicate position column resolved kind =
    ap
      (λ (r : Result (ℕ × Column)).
        r >>= λ found. bind_kind predicate.kind found.0 found.1 predicate)
      resolved
    ∙ ap (λ (k : SqlPredicateKind). bind_kind k position column predicate) kind

-- A predicate that a row satisfies and that has an index holds of the row's key.
Satisfies-Holds :
    (indexes : List IndexDefinition) (table : TableDefinition) (row : TableRow)
    (predicate : SqlPredicate)
    → Distinct indexes
    → Satisfies table.schema row predicate
    → Holds indexes table (key_of table.schema row.values) (Known table.schema row.values) predicate
unfolding key_of
Satisfies-Holds indexes table row predicate distinct satisfied index literal matched =
    let m = matching_index-Matched indexes table predicate index literal distinct matched in
    let (kind, is) = integer_literal-some predicate.kind predicate.literal literal m.literal_is in
    let value =
      value_at-resolve_column table.schema predicate.column row m.position m.column m.resolved in
    let holds = bound-true m.position m.column predicate row (
      subst (λ (r : Result RowPredicate). IsTrueOf r row)
        (bind_predicate-bind_comparison table.schema predicate m.position m.column m.resolved kind)
        satisfied) in
    let (compared, integer) =
      compare_value-integer m.column.type predicate.comparison literal (value_at row m.position)
        m.integral
        (subst
          (λ (l : SqlLiteral).
            compare_value m.column.type predicate.comparison l (value_at row m.position) ≡ true)
          is holds) in
    subst
      (λ (v : Value).
        (compare_integer (integer_or_zero v) literal predicate.comparison ≡ true)
        × (v ≡ Value.integer (integer_or_zero v)))
      (value ∙ ap (value_of table.schema row.values) (sym m.indexed)) (compared, integer)

-- The access that is chosen, for a row that satisfies all the predicates.
pub chosen-Good :
    (indexes : List IndexDefinition) (table : TableDefinition) (predicates : List SqlPredicate)
    (order : Option SqlOrder) (access : IndexAccess) (row : TableRow)
    → Distinct indexes
    → All IsI64Value row.values
    → All (Satisfies table.schema row) predicates
    → choose_index indexes table predicates order ≡ ok (some access)
    → Good indexes table (key_of table.schema row.values) (Known table.schema row.values) access
chosen-Good indexes table predicates order access row distinct small satisfied chosen =
    choose_index-Good indexes table (key_of table.schema row.values) (Known table.schema row.values)
      (λ column. key_of-IsI64 table.schema row.values column small) predicates order access distinct
      (hold predicates satisfied) chosen
  where
    hold :
        (ps : List SqlPredicate)
        → All (Satisfies table.schema row) ps
        → All
            (Holds indexes table (key_of table.schema row.values) (Known table.schema row.values))
            ps
    hold [] h = tt
    hold (p ∷ ps) h = (Satisfies-Holds indexes table row p distinct h.0, hold ps h.1)

-- Soundness of the access path: where the catalog's indexes have distinct names and the row's integers
-- are `int64_t` values, every row that satisfies all the predicates has an integer in the column of the index access
-- that is chosen, and the access admits it. So the access leaves out no row that the query wants.
pub choose_index-Sound :
    (indexes : List IndexDefinition) (table : TableDefinition) (predicates : List SqlPredicate)
    (order : Option SqlOrder) (access : IndexAccess) (row : TableRow)
    → Distinct indexes
    → All IsI64Value row.values
    → All (Satisfies table.schema row) predicates
    → choose_index indexes table predicates order ≡ ok (some access)
    → (n : ℤ) × (value_of table.schema row.values access.column ≡ Value.integer n) × Admits access n
choose_index-Sound indexes table predicates order access row distinct small satisfied chosen =
    let (admits, named, known, shaped) =
      chosen-Good indexes table predicates order access row distinct small satisfied chosen in
    (key_of table.schema row.values access.column, known, admits)
