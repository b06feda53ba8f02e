-- ===== src/SqlExecutor/Access/Bounds.antt =====
-- The keys that an access admits, and that tightening it by a predicate keeps the keys of the predicate.
use mathlib.Core.Path.{subst}
use pageforge.Prelude.{
  ap, ◌+◌, ◌≡◌, refl, sym, ◌∙◌, arith, Bool, true, false, not, ◌||◌, Option, none, some, Bool-cases,
  inl, inr, if◌then◌else◌,
}
use pageforge.Prelude.Int.{ℤ, IsI64, ltb_ℤ, suc_ℤ-least, pred_ℤ-greatest}
use pageforge.SqlParser.Ast.{SqlComparison}
use pageforge.Catalog.{IndexDefinition}
use pageforge.SqlExecutor.Binding.{compare_integer, compare_by, only_equality}
use pageforge.SqlExecutor.Access.{
  IndexAccess, has_lower, impossible, bound_of, raise, reduce, crossed, tighten, emptied,
  fresh_range,
}

abbrev pub KeyIs : Option ℤ → ℤ → Type 0
KeyIs none v = Unit
KeyIs (some key) v = key ≡ v

abbrev pub AtLeast : Option ℤ → ℤ → Type 0
AtLeast none v = Unit
AtLeast (some lower) v = ltb_ℤ v lower ≡ false

abbrev pub AtMost : Option ℤ → ℤ → Type 0
AtMost none v = Unit
AtMost (some upper) v = ltb_ℤ upper v ≡ false

-- An access that is not empty, and a key that it looks up or that lies in its range.
pub record Admits (access : IndexAccess) (v : ℤ) : Type 0 where
  pub nonempty : access.empty ≡ false
  pub key : KeyIs access.key v
  pub lower : AtLeast access.lower v
  pub upper : AtMost access.upper v

-- A bound that a comparison sets holds of the values that satisfy it, and of no others.
abbrev pub Bounded : SqlComparison → ℤ → ℤ → Type 0
Bounded comparison key v =
    if has_lower comparison
    then ltb_ℤ v (bound_of comparison key) ≡ false
    else ltb_ℤ (bound_of comparison key) v ≡ false

impossible-false :
    (comparison : SqlComparison) (key v : ℤ)
    → IsI64 v
    → compare_integer v key comparison ≡ true
    → impossible comparison key ≡ false
unfolding impossible compare_integer compare_by
impossible-false SqlComparison.equal key v small h = refl
impossible-false SqlComparison.not_equal key v small h = refl
impossible-false SqlComparison.less key v small h = ground arith
impossible-false SqlComparison.less_equal key v small h = refl
impossible-false SqlComparison.greater key v small h = ground arith
impossible-false SqlComparison.greater_equal key v small h = refl

compare-Bounded :
    (comparison : SqlComparison) (key v : ℤ)
    → only_equality comparison ≡ false
    → impossible comparison key ≡ false
    → compare_integer v key comparison ≡ true
    → Bounded comparison key v
unfolding compare_integer compare_by bound_of
compare-Bounded SqlComparison.equal key v range possible h = absurd cc
compare-Bounded SqlComparison.not_equal key v range possible h = absurd cc
compare-Bounded SqlComparison.less key v range possible h = rw (possible, pred_ℤ-greatest key v, h)
compare-Bounded SqlComparison.less_equal key v range possible h = ground arith
compare-Bounded SqlComparison.greater key v range possible h = rw (possible, suc_ℤ-least key v, h)
compare-Bounded SqlComparison.greater_equal key v range possible h = ground arith

not-false : (b : Bool) → not b ≡ false → b ≡ true
not-false b h = ground arith

Bounded-compare :
    (comparison : SqlComparison) (key v : ℤ)
    → only_equality comparison ≡ false
    → impossible comparison key ≡ false
    → Bounded comparison key v
    → compare_integer v key comparison ≡ true
unfolding compare_integer compare_by bound_of
Bounded-compare SqlComparison.equal key v range possible h = absurd cc
Bounded-compare SqlComparison.not_equal key v range possible h = absurd cc
Bounded-compare SqlComparison.less key v range possible h =
    not-false _ (rw (possible, pred_ℤ-greatest key v) at h)
Bounded-compare SqlComparison.less_equal key v range possible h = rw h
Bounded-compare SqlComparison.greater key v range possible h =
    not-false _ (rw (possible, suc_ℤ-least key v) at h)
Bounded-compare SqlComparison.greater_equal key v range possible h = rw h

raise-AtLeast :
    (lower : Option ℤ) (bound v : ℤ)
    → AtLeast lower v
    → ltb_ℤ v bound ≡ false
    → AtLeast (raise lower bound) v
raise-AtLeast none bound v h above = above
raise-AtLeast (some lower) bound v h above = ground arith

reduce-AtMost :
    (upper : Option ℤ) (bound v : ℤ)
    → AtMost upper v
    → ltb_ℤ bound v ≡ false
    → AtMost (reduce upper bound) v
reduce-AtMost none bound v h below = below
reduce-AtMost (some upper) bound v h below = ground arith

AtLeast-raise :
    (lower : Option ℤ) (bound v : ℤ)
    → AtLeast (raise lower bound) v
    → AtLeast lower v × (ltb_ℤ v bound ≡ false)
AtLeast-raise none bound v h = (tt, h)
AtLeast-raise (some lower) bound v h = ground arith

AtMost-reduce :
    (upper : Option ℤ) (bound v : ℤ)
    → AtMost (reduce upper bound) v
    → AtMost upper v × (ltb_ℤ bound v ≡ false)
AtMost-reduce none bound v h = (tt, h)
AtMost-reduce (some upper) bound v h = ground arith

-- Bounds that hold of one key do not cross.
crossed-false :
    (lower upper : Option ℤ) (v : ℤ)
    → AtLeast lower v
    → AtMost upper v
    → crossed lower upper ≡ false
crossed-false none upper v above below = refl
crossed-false (some lower) none v above below = refl
crossed-false (some lower) (some upper) v above below = ground arith

abbrev tightened : SqlComparison → ℤ → IndexAccess → Option ℤ × Option ℤ
tightened comparison key range = (
  if has_lower comparison then raise range.lower (bound_of comparison key) else range.lower,
  if has_lower comparison then range.upper else reduce range.upper (bound_of comparison key),
)

tightened-bounds :
    (comparison : SqlComparison) (key v : ℤ) (range : IndexAccess)
    → Bounded comparison key v
    → AtLeast range.lower v
    → AtMost range.upper v
    → AtLeast (tightened comparison key range).0 v × AtMost (tightened comparison key range).1 v
tightened-bounds comparison key v range bounded above below =
    elim (Bool-cases (has_lower comparison)) [
      | inl low ↦
          rw low
            (raise-AtLeast range.lower (bound_of comparison key) v above (rw low at bounded), below)
      | inr high ↦
          rw high (
            above,
            reduce-AtMost range.upper (bound_of comparison key) v below (rw high at bounded),
          )
    ]

bounds-tightened :
    (comparison : SqlComparison) (key v : ℤ) (range : IndexAccess)
    → AtLeast (tightened comparison key range).0 v
    → AtMost (tightened comparison key range).1 v
    → Bounded comparison key v × AtLeast range.lower v × AtMost range.upper v
bounds-tightened comparison key v range above below = elim (Bool-cases (has_lower comparison)) [
  | inl low ↦
      let (old, new) = AtLeast-raise range.lower (bound_of comparison key) v (rw low at above) in
      (rw low new, old, (rw low at below))
  | inr high ↦
      let (old, new) = AtMost-reduce range.upper (bound_of comparison key) v (rw high at below) in
      (rw high new, (rw high at above), old)
]

-- The range that `tighten` leaves when some key is left.
abbrev narrowed : SqlComparison → ℤ → IndexAccess → IndexAccess
narrowed comparison key range = record range {
  selected_predicates = range.selected_predicates + 1;
  covered_predicates = range.covered_predicates + 1;
  lower = (tightened comparison key range).0;
  upper = (tightened comparison key range).1;
}

tighten-narrowed :
    (comparison : SqlComparison) (key : ℤ) (range : IndexAccess)
    → (range.empty || impossible comparison key) ≡ false
    → crossed (tightened comparison key range).0 (tightened comparison key range).1 ≡ false
    → tighten comparison key range ≡ narrowed comparison key range
unfolding tighten
tighten-narrowed comparison key range some_left apart =
    ap (λ (b : Bool). if b then emptied range else rest) some_left
    ∙ ap (λ (b : Bool). if b then left_out else narrowed comparison key range) apart
  where
    left_out : IndexAccess
    left_out = record (emptied range) {
      lower = (tightened comparison key range).0;
      upper = (tightened comparison key range).1;
    }

    rest : IndexAccess
    rest =
        if crossed (tightened comparison key range).0 (tightened comparison key range).1
        then left_out
        else narrowed comparison key range

-- Otherwise it is empty.
tighten-empty :
    (comparison : SqlComparison) (key : ℤ) (range : IndexAccess)
    → (tighten comparison key range).empty ≡ false
    → ((range.empty || impossible comparison key) ≡ false)
      × (crossed (tightened comparison key range).0 (tightened comparison key range).1 ≡ false)
unfolding tighten emptied
tighten-empty comparison key range nonempty = (ground arith, ground arith)

-- A range that is tightened by a predicate still admits the keys that satisfy the predicate.
pub tighten-Admits :
    (comparison : SqlComparison) (key v : ℤ) (range : IndexAccess)
    → IsI64 v
    → only_equality comparison ≡ false
    → compare_integer v key comparison ≡ true
    → Admits range v
    → Admits (tighten comparison key range) v
tighten-Admits comparison key v range small bounding holds admits =
    let possible = impossible-false comparison key v small holds in
    let (above, below) =
      tightened-bounds comparison key v range
        (compare-Bounded comparison key v bounding possible holds) admits.lower admits.upper in
    let apart =
      crossed-false (tightened comparison key range).0 (tightened comparison key range).1 v above
        below in
    let some_left : (range.empty || impossible comparison key) ≡ false =
      rw (admits.nonempty, possible) in
    subst (λ (access : IndexAccess). Admits access v)
      (sym (tighten-narrowed comparison key range some_left apart))
      (record { nonempty = admits.nonempty; key = admits.key; lower = above; upper = below })

-- A tightened range admits only keys that the range admitted and that satisfy the predicate.
pub Admits-tighten :
    (comparison : SqlComparison) (key v : ℤ) (range : IndexAccess)
    → only_equality comparison ≡ false
    → Admits (tighten comparison key range) v
    → Admits range v
      × (compare_integer v key comparison ≡ true)
      × ((tighten comparison key range).covered_predicates ≡ range.covered_predicates + 1)
Admits-tighten comparison key v range bounding admits =
    let (some_left, apart) = tighten-empty comparison key range admits.nonempty in
    let same = tighten-narrowed comparison key range some_left apart in
    let inner = subst (λ (access : IndexAccess). Admits access v) same admits in
    let (bounded, above, below) = bounds-tightened comparison key v range inner.lower inner.upper in
    (
      record { nonempty = inner.nonempty; key = inner.key; lower = above; upper = below },
      Bounded-compare comparison key v bounding (or_right range.empty _ some_left) bounded,
      ap (λ (access : IndexAccess). access.covered_predicates) same,
    )
  where
    or_right : (a b : Bool) → (a || b) ≡ false → b ≡ false
    or_right a b h = ground arith

fresh_lower :
    (comparison : SqlComparison) (key v : ℤ)
    → Bounded comparison key v
    → AtLeast (if has_lower comparison then some (bound_of comparison key) else none) v
fresh_lower comparison key v bounded = elim (Bool-cases (has_lower comparison)) [
  | inl low ↦ rw low (rw low at bounded)
  | inr high ↦ rw high tt
]

fresh_upper :
    (comparison : SqlComparison) (key v : ℤ)
    → Bounded comparison key v
    → AtMost (if has_lower comparison then none else some (bound_of comparison key)) v
fresh_upper comparison key v bounded = elim (Bool-cases (has_lower comparison)) [
  | inl low ↦ rw low tt
  | inr high ↦ rw high (rw high at bounded)
]

-- A new range admits exactly the keys that satisfy its predicate.
pub fresh_range-Admits :
    (comparison : SqlComparison) (index : IndexDefinition) (key v : ℤ)
    → IsI64 v
    → only_equality comparison ≡ false
    → compare_integer v key comparison ≡ true
    → Admits (fresh_range comparison index key) v
unfolding fresh_range
fresh_range-Admits comparison index key v small bounding holds =
    let possible = impossible-false comparison key v small holds in
    let bounded = compare-Bounded comparison key v bounding possible holds in
    record {
      nonempty = possible;
      key = tt;
      lower = fresh_lower comparison key v bounded;
      upper = fresh_upper comparison key v bounded;
    }

pub Admits-fresh_range :
    (comparison : SqlComparison) (index : IndexDefinition) (key v : ℤ)
    → only_equality comparison ≡ false
    → Admits (fresh_range comparison index key) v
    → compare_integer v key comparison ≡ true
unfolding fresh_range
Admits-fresh_range comparison index key v bounding admits =
    Bounded-compare comparison key v bounding admits.nonempty
      (both (has_lower comparison) (bound_of comparison key) v admits.lower admits.upper)
  where
    both :
        (low : Bool) (bound v : ℤ)
        → AtLeast (if low then some bound else none) v
        → AtMost (if low then none else some bound) v
        → (if low then ltb_ℤ v bound ≡ false else ltb_ℤ bound v ≡ false)
    both true bound v above below = above
    both false bound v above below = below

pub tighten-name :
    (comparison : SqlComparison) (key : ℤ) (range : IndexAccess)
    → ((tighten comparison key range).name ≡ range.name)
      × ((tighten comparison key range).column ≡ range.column)
      × ((tighten comparison key range).path ≡ range.path)
      × ((tighten comparison key range).key ≡ range.key)
unfolding tighten emptied
tighten-name comparison key range = (ground arith, ground arith, ground arith, ground arith)
