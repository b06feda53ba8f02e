-- ===== src/SqlExecutor/Binding.antt =====
-- src/sql_executor.cpp: names, predicates and orders bound to a schema. A value of another type than
-- its column's is where the source throws `std::bad_variant_access`; the model then answers `false`. Rows
-- that were decoded with the schema have no such value.
pub mod Resolution
pub mod Order
use pageforge.Prelude.{
  ℕ, zero, suc, ◌+◌, Bool, true, false, not, ◌&&◌, ◌||◌, List, [], ◌∷◌, length, get_elem?, get_or,
  Option, none, some, ◌==◌, if◌then◌else◌, Result, ok, err, Exception, ◌>>=◌, sql_bind_error,
  out_of_range,
}
use pageforge.Prelude.Int.{ℤ, ltb_ℤ, eq_ℤ}
use pageforge.Bytes.{Bytes}
use pageforge.Bytes.Compare.{eq_bytes, less_bytes}
use pageforge.Tuple.{DataType, Column, Schema, Value, is_null}
use pageforge.Query.{TableRow, RowPredicate, RowLess}
use pageforge.SqlParser.Tokens.{equal_lower}
use pageforge.SqlParser.Ast.{SqlComparison, SqlPredicateKind, SqlPredicate, SqlOrder, SqlLiteral}
use pageforge.Catalog.{TableDefinition}

unfoldable pub equal_name : Bytes → Bytes → Bool
equal_name left right = if not (length left == length right) then false else equal_lower left right

-- The loop of `resolve_table` and of `resolve_column`, on the result so far.
unfoldable pub resolve_loop {ℓ} :
    {A : Type ℓ} → (A → Bytes) → Bytes → List A → ℕ → Option (ℕ × A) → Result (ℕ × A)
resolve_loop name_of name [] index none = err sql_bind_error
resolve_loop name_of name [] index (some result) = ok result
resolve_loop name_of name (a ∷ candidates) index result =
    let without = resolve_loop name_of name candidates (index + 1) result in
    let with = resolve_loop name_of name candidates (index + 1) (some (index, a)) in
    if not (equal_name (name_of a) name)
    then without
    else elim result [ none ↦ with | some found ↦ err sql_bind_error ]

unfoldable pub resolve_table : List TableDefinition → Bytes → Result TableDefinition
resolve_table tables name = do
  (index, table) ← resolve_loop (λ t. t.name) name tables 0 none
  ok table

-- The position of the column, and the column.
unfoldable pub resolve_column : Schema → Bytes → Result (ℕ × Column)
resolve_column schema name = resolve_loop (λ c. c.name) name schema 0 none

unfoldable pub literal_matches : DataType → SqlLiteral → Bool
literal_matches type Value.null = true
literal_matches DataType.integer (Value.integer n) = true
literal_matches DataType.text (Value.text t) = true
literal_matches DataType.boolean (Value.boolean b) = true
literal_matches type literal = false

-- `compare`, given whether the left is equal to, less than and greater than the right.
unfoldable pub compare_by : Bool → Bool → Bool → SqlComparison → Bool
compare_by equal less greater SqlComparison.equal = equal
compare_by equal less greater SqlComparison.not_equal = not equal
compare_by equal less greater SqlComparison.less = less
compare_by equal less greater SqlComparison.less_equal = not greater
compare_by equal less greater SqlComparison.greater = greater
compare_by equal less greater SqlComparison.greater_equal = not less

unfoldable pub compare_integer : ℤ → ℤ → SqlComparison → Bool
compare_integer left right = compare_by (eq_ℤ left right) (ltb_ℤ left right) (ltb_ℤ right left)

unfoldable pub compare_text : Bytes → Bytes → SqlComparison → Bool
compare_text left right =
    compare_by (eq_bytes left right) (less_bytes left right) (less_bytes right left)

unfoldable pub less_boolean : Bool → Bool → Bool
less_boolean left right = not left && right

unfoldable pub compare_boolean : Bool → Bool → SqlComparison → Bool
unfolding less_boolean
compare_boolean left right =
    compare_by (if left then right else not right) (less_boolean left right)
      (less_boolean right left)

-- The row predicate of a comparison, on the value of its column.
unfoldable pub compare_value : DataType → SqlComparison → SqlLiteral → Value → Bool
compare_value DataType.integer comparison (Value.integer literal) (Value.integer value) =
    compare_integer value literal comparison
compare_value DataType.text comparison (Value.text literal) (Value.text value) =
    compare_text value literal comparison
compare_value DataType.boolean comparison (Value.boolean literal) (Value.boolean value) =
    compare_boolean value literal comparison
compare_value type comparison literal value = false

abbrev pub value_at : TableRow → ℕ → Value
value_at row index = get_or row.values index Value.null

abbrev pub only_equality : SqlComparison → Bool
only_equality SqlComparison.equal = true
only_equality SqlComparison.not_equal = true
only_equality comparison = false

abbrev pub is_boolean : DataType → Bool
is_boolean DataType.boolean = true
is_boolean type = false

unfoldable pub bind_comparison : ℕ → Column → SqlPredicate → Result RowPredicate
bind_comparison index column predicate =
    if not (literal_matches column.type predicate.literal)
    then err sql_bind_error
    else if is_boolean column.type && not (only_equality predicate.comparison)
    then err sql_bind_error
    else ok (λ row.
      compare_value column.type predicate.comparison predicate.literal (value_at row index))

unfoldable pub bind_kind : SqlPredicateKind → ℕ → Column → SqlPredicate → Result RowPredicate
bind_kind SqlPredicateKind.comparison index column predicate =
    bind_comparison index column predicate
bind_kind SqlPredicateKind.is_null index column predicate = ok (λ row. is_null (value_at row index))
bind_kind SqlPredicateKind.is_not_null index column predicate =
    ok (λ row. not (is_null (value_at row index)))

unfoldable pub bind_predicate : Schema → SqlPredicate → Result RowPredicate
bind_predicate schema predicate = do
  (index, column) ← resolve_column schema predicate.column
  bind_kind predicate.kind index column predicate

-- `less` on two values that are not null.
unfoldable pub less_value : DataType → Value → Value → Bool
less_value DataType.integer (Value.integer first) (Value.integer second) = ltb_ℤ first second
less_value DataType.text (Value.text first) (Value.text second) = less_bytes first second
less_value DataType.boolean (Value.boolean first) (Value.boolean second) = less_boolean first second
less_value type first second = false

-- The order of two values: nulls are last in both directions.
unfoldable pub value_before : DataType → Bool → Value → Value → Bool
value_before type descending left right =
    if is_null left || is_null right
    then (if is_null left && is_null right then false else not (is_null left))
    else if descending
    then less_value type right left
    else less_value type left right

unfoldable pub bind_order : Schema → SqlOrder → Result RowLess
bind_order schema order = do
  (index, column) ← resolve_column schema order.column
  ok (λ left right.
      value_before column.type order.descending (value_at left index) (value_at right index))
