-- ===== src/SqlExecutor/Binding/Order/Sorted.antt =====
-- What ORDER BY makes of the rows of a table.
use mathlib.Core.Path.{subst}
use pageforge.Prelude.{
  ℕ, ◌≡◌, refl, sym, arith, none, Bool-cases, inl, inr, Bool, true, false, List, [], ◌∷◌, ok,
  ok-injective, All,
}
use pageforge.Prelude.Int.{◌≤ℤ◌}
use pageforge.Bytes.{Bytes}
use pageforge.Bytes.Compare.{less_bytes}
use pageforge.Tuple.{DataType, Column, Schema, Value, is_null}
use pageforge.Tuple.Typing.{RowFits}
use pageforge.Query.{TableRow, RowLess, stable_sort}
use pageforge.Query.Sort.{IsSorted, All-stable_sort, stable_sort-IsSorted}
use pageforge.SqlParser.Ast.{SqlOrder}
use pageforge.SqlExecutor.Binding.{
  resolve_loop, resolve_column, value_at, less_boolean, less_value, value_before, bind_order,
}
use pageforge.SqlExecutor.Binding.Order.{HasType, resolved-HasType, bind_order-IsWeakOrder}

-- Two values of one type that ascend: numbers by size, texts not descending in the order of their bytes, and false
-- in front of true.
abbrev Ascends : Value → Value → Type 0
Ascends (Value.integer n) (Value.integer m) = n ≤ℤ m
Ascends (Value.text s) (Value.text t) = less_bytes t s ≡ false
Ascends (Value.boolean a) (Value.boolean b) = a ≡ true → b ≡ true
Ascends first second = ⊥

-- Whether a value may stand in front of another one: a null in front of nulls only, other values as they ascend or, in the
-- descending order, as they descend.
abbrev pub InOrder : Bool → Value → Value → Type 0
InOrder descending first Value.null = Unit
InOrder descending Value.null second = ⊥
InOrder false first second = Ascends first second
InOrder true first second = Ascends second first

abbrev pub IsOrdered : Bool → ℕ → List TableRow → Type 0
IsOrdered descending position [] = Unit
IsOrdered descending position (row ∷ rows) =
    All (λ later. InOrder descending (value_at row position) (value_at later position)) rows
    × IsOrdered descending position rows

less_value-Ascends :
    (type : DataType) (first second : Value)
    → HasType type first
    → HasType type second
    → is_null first ≡ false
    → is_null second ≡ false
    → less_value type second first ≡ false
    → Ascends first second
unfolding less_value less_boolean is_null
less_value-Ascends type Value.null second h k p q e = absurd cc
less_value-Ascends type (Value.integer n) Value.null h k p q e = absurd cc
less_value-Ascends type (Value.integer n) (Value.integer m) h k p q e =
    let e' = rw (h, less_value) at e in ground arith
less_value-Ascends type (Value.integer n) (Value.text t) h k p q e = absurd cc
less_value-Ascends type (Value.integer n) (Value.boolean b) h k p q e = absurd cc
less_value-Ascends type (Value.text s) Value.null h k p q e = absurd cc
less_value-Ascends type (Value.text s) (Value.integer m) h k p q e = absurd cc
less_value-Ascends type (Value.text s) (Value.text t) h k p q e = rw (h, less_value) at e
less_value-Ascends type (Value.text s) (Value.boolean b) h k p q e = absurd cc
less_value-Ascends type (Value.boolean a) Value.null h k p q e = absurd cc
less_value-Ascends type (Value.boolean a) (Value.integer m) h k p q e = absurd cc
less_value-Ascends type (Value.boolean a) (Value.text t) h k p q e = absurd cc
less_value-Ascends type (Value.boolean a) (Value.boolean b) h k p q e =
    let e' = rw (h, less_value, less_boolean) at e in λ a_true. ground arith

InOrder-Ascends :
    (descending : Bool) (first second : Value)
    → is_null first ≡ false
    → is_null second ≡ false
    → (descending ≡ false → Ascends first second)
    → (descending ≡ true → Ascends second first)
    → InOrder descending first second
unfolding is_null
InOrder-Ascends descending Value.null second p q up down = absurd cc
InOrder-Ascends descending (Value.integer n) Value.null p q up down = tt
InOrder-Ascends descending (Value.text s) Value.null p q up down = tt
InOrder-Ascends descending (Value.boolean a) Value.null p q up down = tt
InOrder-Ascends false (Value.integer n) (Value.integer m) p q up down = up refl
InOrder-Ascends false (Value.integer n) (Value.text t) p q up down = up refl
InOrder-Ascends false (Value.integer n) (Value.boolean b) p q up down = up refl
InOrder-Ascends false (Value.text s) (Value.integer m) p q up down = up refl
InOrder-Ascends false (Value.text s) (Value.text t) p q up down = up refl
InOrder-Ascends false (Value.text s) (Value.boolean b) p q up down = up refl
InOrder-Ascends false (Value.boolean a) (Value.integer m) p q up down = up refl
InOrder-Ascends false (Value.boolean a) (Value.text t) p q up down = up refl
InOrder-Ascends false (Value.boolean a) (Value.boolean b) p q up down = up refl
InOrder-Ascends true (Value.integer n) (Value.integer m) p q up down = down refl
InOrder-Ascends true (Value.integer n) (Value.text t) p q up down = down refl
InOrder-Ascends true (Value.integer n) (Value.boolean b) p q up down = down refl
InOrder-Ascends true (Value.text s) (Value.integer m) p q up down = down refl
InOrder-Ascends true (Value.text s) (Value.text t) p q up down = down refl
InOrder-Ascends true (Value.text s) (Value.boolean b) p q up down = down refl
InOrder-Ascends true (Value.boolean a) (Value.integer m) p q up down = down refl
InOrder-Ascends true (Value.boolean a) (Value.text t) p q up down = down refl
InOrder-Ascends true (Value.boolean a) (Value.boolean b) p q up down = down refl

-- Two values that are not null.
value_before-proper :
    (type : DataType) (descending : Bool) (first second : Value)
    → HasType type first
    → HasType type second
    → is_null first ≡ false
    → is_null second ≡ false
    → value_before type descending second first ≡ false
    → InOrder descending first second
unfolding value_before
value_before-proper type false first second h k p q e =
    InOrder-Ascends false first second p q
      (λ up. less_value-Ascends type first second h k p q (rw (p, q, value_before) at e))
      (λ down. absurd cc)
value_before-proper type true first second h k p q e =
    InOrder-Ascends true first second p q (λ up. absurd cc)
      (λ down. less_value-Ascends type second first k h q p (rw (p, q, value_before) at e))

pub value_before-InOrder :
    (type : DataType) (descending : Bool) (first second : Value)
    → HasType type first
    → HasType type second
    → value_before type descending second first ≡ false
    → InOrder descending first second
unfolding value_before is_null
value_before-InOrder type descending first second h k e = elim (Bool-cases (is_null second)) [
  | inl null ↦ last (nothing second null)
  | inr proper ↦ elim (Bool-cases (is_null first)) [
    | inl null ↦ absurd (let e' = rw (proper, null, value_before) at e in cc)
    | inr proper' ↦ value_before-proper type descending first second h k proper' proper e
  ]
]
  where
    nothing : (v : Value) → is_null v ≡ true → v ≡ Value.null
    nothing Value.null p = refl
    nothing (Value.integer n) p = absurd cc
    nothing (Value.text t) p = absurd cc
    nothing (Value.boolean b) p = absurd cc

    in_front : (v : Value) → InOrder descending v Value.null
    in_front v = tt

    last : second ≡ Value.null → InOrder descending first second
    last null = subst (InOrder descending first) (sym null) (in_front first)

sorted-IsOrdered :
    (type : DataType) (descending : Bool) (position : ℕ) (rows : List TableRow)
    → All (λ row. HasType type (value_at row position)) rows
    → IsSorted
        (λ left right.
          value_before type descending (value_at left position) (value_at right position))
        rows
    → IsOrdered descending position rows
sorted-IsOrdered type descending position [] h s = tt
sorted-IsOrdered type descending position (row ∷ rows) h s =
    (first rows h.1 s.0, sorted-IsOrdered type descending position rows h.1 s.1)
  where
    first :
        (later : List TableRow)
        → All (λ r. HasType type (value_at r position)) later
        → All
            (λ r.
              value_before type descending (value_at r position) (value_at row position) ≡ false)
            later
        → All (λ r. InOrder descending (value_at row position) (value_at r position)) later
    first [] k e = tt
    first (r ∷ later) k e = (
      value_before-InOrder type descending (value_at row position) (value_at r position) h.0 k.0
          e.0,
      first later k.1 e.1,
    )

All-HasType :
    (schema : Schema) (name : Bytes) (position : ℕ) (column : Column)
    → resolve_loop (λ c. c.name) name schema 0 none ≡ ok (position, column)
    → (rows : List TableRow) → All (λ row. RowFits schema row.values) rows
    → All (λ row. HasType column.type (value_at row position)) rows
All-HasType schema name position column resolved [] fits = tt
All-HasType schema name position column resolved (row ∷ rows) fits = (
  resolved-HasType schema name position column resolved row fits.0,
  All-HasType schema name position column resolved rows fits.1,
)

-- The rows that fit the schema come out of ORDER BY so that each one's value in the column that the order names may
-- stand in front of every later one's: ascending, or descending when the order says so, with the nulls last in both.
pub stable_sort-bind_order-IsOrdered :
    (schema : Schema) (order : SqlOrder) (position : ℕ) (column : Column) (less : RowLess)
    (rows : List TableRow)
    → resolve_column schema order.column ≡ ok (position, column)
    → bind_order schema order ≡ ok less
    → All (λ row. RowFits schema row.values) rows
    → IsOrdered order.descending position (stable_sort less rows)
unfolding bind_order resolve_column
stable_sort-bind_order-IsOrdered schema order position column less rows resolved e fits =
    sorted-IsOrdered column.type order.descending position (stable_sort less rows)
      (All-HasType schema order.column position column resolved (stable_sort less rows)
        (All-stable_sort (λ row. RowFits schema row.values) less rows fits))
      (subst (λ (l : RowLess). IsSorted l (stable_sort less rows)) (sym bound)
        (stable_sort-IsSorted (λ row. RowFits schema row.values) less
          (bind_order-IsWeakOrder schema order less e) rows fits))
  where
    bound :
        (λ left right.
          value_before column.type order.descending
            (value_at left position)
            (value_at right position))
        ≡ less
    bound = ok-injective (rw resolved at e)
