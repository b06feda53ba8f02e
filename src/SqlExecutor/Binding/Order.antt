-- ===== src/SqlExecutor/Binding/Order.antt =====
-- The order that a plan binds is one that a sort may use.
pub mod Sorted
use mathlib.Core.Path.{subst}
use pageforge.Prelude.{
  ℕ, suc, ◌+◌, ◌≡◌, refl, sym, ap, arith, Bool, true, false, not, ◌&&◌, ◌||◌, List, [], ◌∷◌, get_or,
  Option, none, some, Bool-cases, ◌⊎◌, inl, inr, if◌then◌else◌, ok, err, >>=-eq-ok, ok-injective,
  sql_bind_error, All,
}
use pageforge.Prelude.Int.{ℤ}
use pageforge.Bytes.{Bytes}
use pageforge.Bytes.Compare.{less_bytes, less_bytes_irrefl, less_bytes_trans, less_bytes_connected}
use pageforge.Tuple.{DataType, Column, Schema, Value, Tuple, is_null}
use pageforge.Tuple.Typing.{Fits, RowFits}
use pageforge.Query.{TableRow, RowLess}
use pageforge.Query.Sort.{IsWeakOrder}
use pageforge.SqlParser.Ast.{SqlOrder}
use pageforge.SqlExecutor.Binding.{
  equal_name, resolve_loop, resolve_column, value_at, less_boolean, less_value, value_before,
  bind_order,
}

-- A null, or a value of the type.
abbrev pub HasType : DataType → Value → Type 0
HasType type Value.null = Unit
HasType type (Value.integer n) = type ≡ DataType.integer
HasType type (Value.text t) = type ≡ DataType.text
HasType type (Value.boolean b) = type ≡ DataType.boolean

less_bytes-negative :
    (a b c : Bytes) → less_bytes a b ≡ false → less_bytes b c ≡ false → less_bytes a c ≡ false
less_bytes-negative a b c h k = elim (Bool-cases (less_bytes b a)) [
  | inr apart ↦
      subst (λ (x : Bytes). less_bytes x c ≡ false) (sym (less_bytes_connected a b h apart)) k
  | inl below ↦ elim (Bool-cases (less_bytes a c)) [
    | inr no' ↦ no'
    | inl yes' ↦ absurd (let contrary = less_bytes_trans b a c below yes' in cc)
  ]
]

less_bytes-asymmetric : (a b : Bytes) → less_bytes a b ≡ true → less_bytes b a ≡ false
less_bytes-asymmetric a b h = elim (Bool-cases (less_bytes b a)) [
  | inr no' ↦ no'
  | inl yes' ↦
      absurd (let both = less_bytes_trans a b a h yes' in let never = less_bytes_irrefl a in cc)
]

-- The values of a type that are not null.
abbrev Proper : DataType → Value → Type 0
Proper DataType.integer v = (n : ℤ) × (v ≡ Value.integer n)
Proper DataType.text v = (t : Bytes) × (v ≡ Value.text t)
Proper DataType.boolean v = (b : Bool) × (v ≡ Value.boolean b)
Proper DataType.unknown v = ⊥

Proper-value : (type : DataType) (v : Value) → HasType type v → is_null v ≡ false → Proper type v
unfolding is_null
Proper-value DataType.integer Value.null h k = absurd cc
Proper-value DataType.integer (Value.integer n) h k = (n, refl)
Proper-value DataType.integer (Value.text t) h k = absurd cc
Proper-value DataType.integer (Value.boolean b) h k = absurd cc
Proper-value DataType.text Value.null h k = absurd cc
Proper-value DataType.text (Value.integer n) h k = absurd cc
Proper-value DataType.text (Value.text t) h k = (t, refl)
Proper-value DataType.text (Value.boolean b) h k = absurd cc
Proper-value DataType.boolean Value.null h k = absurd cc
Proper-value DataType.boolean (Value.integer n) h k = absurd cc
Proper-value DataType.boolean (Value.text t) h k = absurd cc
Proper-value DataType.boolean (Value.boolean b) h k = (b, refl)
Proper-value DataType.unknown Value.null h k = absurd cc
Proper-value DataType.unknown (Value.integer n) h k = absurd cc
Proper-value DataType.unknown (Value.text t) h k = absurd cc
Proper-value DataType.unknown (Value.boolean b) h k = absurd cc

less_value-asymmetric :
    (type : DataType) (a b : Value)
    → Proper type a
    → Proper type b
    → less_value type a b ≡ true
    → less_value type b a ≡ false
unfolding less_value less_boolean
less_value-asymmetric DataType.integer a b (n, p) (m, q) h =
    let h' = rw (p, q) at h in rw (p, q) (ground arith)
less_value-asymmetric DataType.text a b (s, p) (t, q) h =
    let h' = rw (p, q) at h in rw (p, q) (less_bytes-asymmetric s t h')
less_value-asymmetric DataType.boolean a b (x, p) (y, q) h =
    let h' = rw (p, q) at h in rw (p, q) (ground arith)
less_value-asymmetric DataType.unknown a b p q h = absurd p

less_value-negative :
    (type : DataType) (a b c : Value)
    → Proper type a
    → Proper type b
    → Proper type c
    → less_value type a b ≡ false
    → less_value type b c ≡ false
    → less_value type a c ≡ false
unfolding less_value less_boolean
less_value-negative DataType.integer a b c (n, p) (m, q) (l, r) h k =
    let h' = rw (p, q) at h in let k' = rw (q, r) at k in rw (p, r) (ground arith)
less_value-negative DataType.text a b c (s, p) (t, q) (u, r) h k =
    rw (p, r) (less_bytes-negative s t u (rw (p, q) at h) (rw (q, r) at k))
less_value-negative DataType.boolean a b c (x, p) (y, q) (z, r) h k =
    let h' = rw (p, q) at h in let k' = rw (q, r) at k in rw (p, r) (ground arith)
less_value-negative DataType.unknown a b c p q r h k = absurd p

-- The comparison, given which values are null and how they compare otherwise.
abbrev before : Bool → Bool → Bool → Bool
before left_null right_null less =
    if left_null || right_null
    then (if left_null && right_null then false else not left_null)
    else less

before-asymmetric :
    (x y l l' : Bool)
    → (x ≡ false → y ≡ false → l ≡ true → l' ≡ false)
    → before x y l ≡ true
    → before y x l' ≡ false
before-asymmetric true true l l' both h = absurd cc
before-asymmetric true false l l' both h = absurd cc
before-asymmetric false true l l' both h = refl
before-asymmetric false false l l' both h = both refl refl h

before-negative :
    (x y z xy yz xz : Bool)
    → (x ≡ false → y ≡ false → z ≡ false → xy ≡ false → yz ≡ false → xz ≡ false)
    → before x y xy ≡ false
    → before y z yz ≡ false
    → before x z xz ≡ false
before-negative true y true xy yz xz all h k = refl
before-negative true y false xy yz xz all h k = refl
before-negative false true z xy yz xz all h k = absurd cc
before-negative false false true xy yz xz all h k = absurd cc
before-negative false false false xy yz xz all h k = all refl refl refl h k

value_before-asymmetric :
    (type : DataType) (descending : Bool) (a b : Value)
    → HasType type a
    → HasType type b
    → value_before type descending a b ≡ true
    → value_before type descending b a ≡ false
unfolding value_before
value_before-asymmetric type descending a b p q h =
    before-asymmetric (is_null a) (is_null b)
      (if descending then less_value type b a else less_value type a b)
      (if descending then less_value type a b else less_value type b a)
      (λ x y less. directed descending (Proper-value type a p x) (Proper-value type b q y) less) h
  where
    directed :
        (d : Bool)
        → Proper type a
        → Proper type b
        → (if d then less_value type b a else less_value type a b) ≡ true
        → (if d then less_value type a b else less_value type b a) ≡ false
    directed true pa pb less = less_value-asymmetric type b a pb pa less
    directed false pa pb less = less_value-asymmetric type a b pa pb less

value_before-negative :
    (type : DataType) (descending : Bool) (a b c : Value)
    → HasType type a
    → HasType type b
    → HasType type c
    → value_before type descending a b ≡ false
    → value_before type descending b c ≡ false
    → value_before type descending a c ≡ false
unfolding value_before
value_before-negative type descending a b c p q r h k =
    before-negative (is_null a) (is_null b) (is_null c) _ _
      (if descending then less_value type c a else less_value type a c)
      (λ x y z.
        directed descending (Proper-value type a p x) (Proper-value type b q y)
          (Proper-value type c r z))
      h k
  where
    directed :
        (d : Bool)
        → Proper type a
        → Proper type b
        → Proper type c
        → (if d then less_value type b a else less_value type a b) ≡ false
        → (if d then less_value type c b else less_value type b c) ≡ false
        → (if d then less_value type c a else less_value type a c) ≡ false
    directed true pa pb pc ab bc = less_value-negative type c b a pc pb pa bc ab
    directed false pa pb pc ab bc = less_value-negative type a b c pa pb pc ab bc

Fits-HasType : (column : Column) (v : Value) → Fits column v → HasType column.type v
Fits-HasType column Value.null h = tt
Fits-HasType column (Value.integer n) h = h.0
Fits-HasType column (Value.text t) h = h.0
Fits-HasType column (Value.boolean b) h = h

-- The value at a position that a name resolves to has the column's type.
resolve_loop-HasType :
    (name : Bytes) (columns : Schema) (values : Tuple) (index : ℕ) (found : Option (ℕ × Column))
    (position : ℕ) (column : Column)
    → RowFits columns values
    → resolve_loop (λ c. c.name) name columns index found ≡ ok (position, column)
    → (found ≡ some (position, column))
      ⊎ ((offset : ℕ) × (position ≡ index + offset)
          × HasType column.type (get_or values offset Value.null))
unfolding resolve_loop
resolve_loop-HasType name [] values index none position column fits e = absurd cc
resolve_loop-HasType name [] values index (some f) position column fits e =
    inl (ap some (ok-injective e))
resolve_loop-HasType name (c ∷ columns) [] index found position column fits e = absurd fits
resolve_loop-HasType name (c ∷ columns) (v ∷ values) index found position column fits e =
    elim (Bool-cases (equal_name c.name name)) [
      | inr other ↦ later found (
          resolve_loop-HasType name columns values (index + 1) found position column fits.1
            (rw other at e))
      | inl same ↦ here found (rw same at e) (λ e'.
          resolve_loop-HasType name columns values (index + 1) (some (index, c)) position column
            fits.1 e')
    ]
  where
    Typed : Option (ℕ × Column) → ℕ → Tuple → Type 0
    Typed f i vs =
        (f ≡ some (position, column))
        ⊎ ((offset : ℕ) × (position ≡ i + offset)
            × HasType column.type (get_or vs offset Value.null))

    later : (f : Option (ℕ × Column)) → Typed f (index + 1) values → Typed f index (v ∷ values)
    later f (inl is) = inl is
    later f (inr (offset, at, typed)) = inr (suc offset, omega arith, typed)

    first : Typed (some (index, c)) (index + 1) values → Typed none index (v ∷ values)
    first (inr (offset, at, typed)) = inr (suc offset, omega arith, typed)
    first (inl is) =
        let found_column : c ≡ column = cc in
        let found_index : index ≡ position = cc in
        inr (
          0,
          omega arith,
          subst (λ (d : Column). HasType d.type v) found_column (Fits-HasType c v fits.0),
        )

    here :
        (f : Option (ℕ × Column))
        → (elim f [
          | none ↦ resolve_loop (λ c'. c'.name) name columns (index + 1) (some (index, c))
          | some g ↦ err sql_bind_error
        ])
          ≡ ok (position, column)
        → (resolve_loop (λ c'. c'.name) name columns (index + 1) (some (index, c))
              ≡ ok (position, column)
            → Typed (some (index, c)) (index + 1) values)
        → Typed f index (v ∷ values)
    here none e' more = first (more e')
    here (some g) e' more = absurd cc

-- The value of a row in a column that a name resolves to.
pub resolved-HasType :
    (schema : Schema) (name : Bytes) (position : ℕ) (column : Column)
    → resolve_loop (λ c. c.name) name schema 0 none ≡ ok (position, column)
    → (row : TableRow) → RowFits schema row.values
    → HasType column.type (value_at row position)
resolved-HasType schema name position column resolved row fits =
    elim (resolve_loop-HasType name schema row.values 0 none position column fits resolved) [
      | inl never ↦ absurd cc
      | inr (offset, at, has) ↦
          subst (λ (n : ℕ). HasType column.type (value_at row n)) (omega (arith, at)) has
    ]

-- The comparison that ORDER BY binds is asymmetric, and what is not less is transitive, on rows that fit the schema,
-- nulls included.
pub bind_order-IsWeakOrder :
    (schema : Schema) (order : SqlOrder) (less : RowLess)
    → bind_order schema order ≡ ok less
    → IsWeakOrder (λ row. RowFits schema row.values) less
unfolding bind_order resolve_column
bind_order-IsWeakOrder schema order less e =
    let ((position, column), resolved, done) =
      >>=-eq-ok (resolve_loop (λ c. c.name) order.column schema 0 none) _ e in
    subst (IsWeakOrder (λ row. RowFits schema row.values)) (ok-injective done) (record {
      asymmetric = λ a b p q.
          value_before-asymmetric column.type order.descending (value_at a position)
            (value_at b position)
            (resolved-HasType schema order.column position column resolved a p)
            (resolved-HasType schema order.column position column resolved b q);
      transitive = λ a b c p q r.
          value_before-negative column.type order.descending (value_at a position)
            (value_at b position) (value_at c position)
            (resolved-HasType schema order.column position column resolved a p)
            (resolved-HasType schema order.column position column resolved b q)
            (resolved-HasType schema order.column position column resolved c r);
    })
