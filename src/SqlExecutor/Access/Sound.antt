-- ===== src/SqlExecutor/Access/Sound.antt =====
-- The index access that is chosen admits the key of every row that satisfies the predicates.
use mathlib.Core.Path.{subst}
use pageforge.Prelude.{
  ◌≡◌, refl, sym, ap, ◌∙◌, Bool, true, false, List, [], ◌∷◌, Option, none, some, All, Bool-cases,
  inl, inr, Result, ok, ◌>>=◌, >>=-eq-ok, ok-injective,
}
use pageforge.Prelude.Int.{ℤ, IsI64, eq_ℤ→eq}
use pageforge.Bytes.{Bytes}
use pageforge.Bytes.Compare.{eq_bytes, eq_bytes→eq}
use pageforge.SqlParser.Ast.{SqlComparison, SqlPredicate, SqlOrder}
use pageforge.Catalog.{TableDefinition, IndexDefinition}
use pageforge.SqlExecutor.Binding.{compare_integer, compare_by, only_equality}
use pageforge.SqlExecutor.Access.{
  SelectAccessPath, IndexAccess, Match, on_match, matching_index, fold, update_or_push, add_lookup,
  fresh_lookup, collect_lookup, is_equal, key_holds, count_match, count_lookup, count_lookups,
  max_element, greatest, add_range, collect_range, fresh_range, tighten, less_range, less_lookup,
  choose_range, choose_counted, choose_index,
}
use pageforge.SqlExecutor.Access.Bounds.{
  KeyIs, Admits, tighten-Admits, tighten-name, fresh_range-Admits,
}
use pageforge.SqlExecutor.Access.Names.{Distinct, column_of, Matched, matching_index-Matched}

pub some-injective : {A : Type 0} {x y : A} → some x ≡ some y → x ≡ y
some-injective h = cc

-- What `update_or_push` makes of every access: `change` of those of the name, and `fresh` when there is none.
pub update_or_push-All :
    (P Q : IndexAccess → Type 0) (name : Bytes) (change : IndexAccess → IndexAccess)
    (fresh : IndexAccess) (accesses : List IndexAccess)
    → ((access : IndexAccess) → access.name ≡ name → P access → Q (change access))
    → ((access : IndexAccess) → P access → Q access)
    → Q fresh
    → All P accesses
    → All Q (update_or_push name change fresh accesses)
unfolding update_or_push
update_or_push-All P Q name change fresh [] changed kept new h = (new, tt)
update_or_push-All P Q name change fresh (access ∷ accesses) changed kept new h =
    elim (Bool-cases (eq_bytes access.name name)) [
      | inl same ↦
          rw same (changed access (eq_bytes→eq access.name name same) h.0, All-map accesses h.1)
      | inr other ↦
          rw other (
            kept access h.0,
            update_or_push-All P Q name change fresh accesses changed kept new h.1,
          )
    ]
  where
    All-map : (xs : List IndexAccess) → All P xs → All Q xs
    All-map [] k = tt
    All-map (x ∷ xs) k = (kept x k.0, All-map xs k.1)

-- What every step of a loop keeps, the loop keeps.
pub fold-keeps :
    {A S : Type 0} (P : A → Type 0) (Q : S → Type 0) (step : A → S → Result S)
    → ((a : A) (s s' : S) → P a → Q s → step a s ≡ ok s' → Q s')
    → (items : List A) (s : S) {s' : S} → All P items
    → Q s
    → fold step items s ≡ ok s'
    → Q s'
unfolding fold
fold-keeps P Q step keeps [] s h q e = subst Q (ok-injective e) q
fold-keeps P Q step keeps (a ∷ items) s h q e =
    let (s1, first, rest) = >>=-eq-ok (step a s) _ e in
    fold-keeps P Q step keeps items s1 h.1 (keeps a s s1 h.0 q first) rest

pub max_element-All :
    (P : IndexAccess → Type 0) (less : IndexAccess → IndexAccess → Bool) (access : IndexAccess)
    (accesses : List IndexAccess)
    → P access
    → All P accesses
    → P (max_element less access accesses)
unfolding max_element
max_element-All P less access [] p h = p
max_element-All P less access (x ∷ xs) p h = elim (Bool-cases (less access x)) [
  | inl yes' ↦ rw yes' (max_element-All P less x xs h.0 h.1)
  | inr no' ↦ rw no' (max_element-All P less access xs p h.1)
]

-- A lookup has its key.
abbrev pub Shaped : SelectAccessPath → Option ℤ → Type 0
Shaped SelectAccessPath.table_scan key = ⊥
Shaped SelectAccessPath.index_lookup key = (k : ℤ) × (key ≡ some k)
Shaped SelectAccessPath.index_range key = Unit

-- The predicates hold of a row whose integer in each column is given by `key`, in the columns that are
-- known to have one.
module _ (indexes : List IndexDefinition) (table : TableDefinition) (key : Bytes → ℤ)
    (known : Bytes → Type 0) where
  abbrev pub Holds : SqlPredicate → Type 0
  Holds predicate =
      (index : IndexDefinition) (literal : ℤ)
      → matching_index indexes table predicate ≡ ok (some (index, literal))
      → compare_integer (key index.column) literal predicate.comparison ≡ true × known index.column

  abbrev pub Good : IndexAccess → Type 0
  Good access =
      Admits access (key access.column)
      × (column_of access.name indexes ≡ some (table.name, access.column))
      × known access.column
      × Shaped access.path access.key

  -- A match that changes the accesses keeps them good.
  on_match-Good :
      (predicate : SqlPredicate)
      (change : IndexDefinition → ℤ → List IndexAccess → List IndexAccess)
      (accesses accesses' : List IndexAccess)
      → Distinct indexes
      → Holds predicate
      → ((index : IndexDefinition) (literal : ℤ)
          → Matched indexes table predicate index literal
          → compare_integer (key index.column) literal predicate.comparison ≡ true
            × known index.column
          → All Good (change index literal accesses))
      → All Good accesses
      → (matching_index indexes table predicate >>= λ match. ok (on_match change match accesses))
        ≡ ok accesses'
      → All Good accesses'
  on_match-Good predicate change accesses accesses' distinct holds changed good e =
      let (match, matched, done) = >>=-eq-ok (matching_index indexes table predicate) _ e in
      subst (All Good) (ok-injective done) (go match matched)
    where
      go :
          (match : Match)
          → matching_index indexes table predicate ≡ ok match
          → All Good (on_match change match accesses)
      go none matched = good
      go (some (index, literal)) matched =
          changed index literal
            (matching_index-Matched indexes table predicate index literal distinct matched)
            (holds index literal matched)

  equal-eq :
      (comparison : SqlComparison) (v literal : ℤ)
      → is_equal comparison ≡ true
      → compare_integer v literal comparison ≡ true
      → literal ≡ v
  unfolding compare_integer compare_by
  equal-eq SqlComparison.equal v literal h holds = sym (eq_ℤ→eq v literal holds)
  equal-eq SqlComparison.not_equal v literal h holds = absurd cc
  equal-eq SqlComparison.less v literal h holds = absurd cc
  equal-eq SqlComparison.less_equal v literal h holds = absurd cc
  equal-eq SqlComparison.greater v literal h holds = absurd cc
  equal-eq SqlComparison.greater_equal v literal h holds = absurd cc

  fresh_lookup-Good :
      (predicate : SqlPredicate) (index : IndexDefinition) (literal : ℤ)
      → is_equal predicate.comparison ≡ true
      → Matched indexes table predicate index literal
      → compare_integer (key index.column) literal predicate.comparison ≡ true × known index.column
      → Good (fresh_lookup index literal)
  unfolding fresh_lookup
  fresh_lookup-Good predicate index literal equal matched holds = (
    record {
      nonempty = refl;
      key = equal-eq predicate.comparison (key index.column) literal equal holds.0;
      lower = tt;
      upper = tt;
    },
    matched.named,
    holds.1,
    (literal, refl),
  )

  collect_lookup-Good :
      (predicate : SqlPredicate) (lookups lookups' : List IndexAccess)
      → Distinct indexes
      → Holds predicate
      → All Good lookups
      → collect_lookup indexes table predicate lookups ≡ ok lookups'
      → All Good lookups'
  unfolding collect_lookup add_lookup
  collect_lookup-Good predicate lookups lookups' distinct holds good e =
      elim (Bool-cases (is_equal predicate.comparison)) [
        | inr other ↦ subst (All Good) (ok-injective (rw (other, collect_lookup) at e)) good
        | inl equal ↦
            on_match-Good predicate add_lookup lookups lookups' distinct holds
              (λ index literal matched holds'.
                update_or_push-All Good Good index.name (λ access. access)
                  (fresh_lookup index literal) lookups (λ access same p. p) (λ access p. p)
                  (fresh_lookup-Good predicate index literal equal matched holds') good)
              good (rw (equal, collect_lookup) at e)
      ]

  key_holds-true :
      (k : Option ℤ) (v literal : ℤ) (comparison : SqlComparison)
      → KeyIs k v
      → compare_integer v literal comparison ≡ true
      → key_holds k literal comparison ≡ true
  key_holds-true none v literal comparison is holds = refl
  key_holds-true (some k) v literal comparison is holds = rw is holds

  -- Two names of one index have one column.
  pub same_column :
      (a b : Bytes) (c d : Bytes)
      → column_of a indexes ≡ some (table.name, c)
      → column_of b indexes ≡ some (table.name, d)
      → a ≡ b
      → c ≡ d
  same_column a b c d p q e =
      ap (λ x. x.1) (some-injective (sym p ∙ ap (λ (n : Bytes). column_of n indexes) e ∙ q))

  count_match-Good :
      (predicate : SqlPredicate) (match : Match) (lookup : IndexAccess)
      → Distinct indexes
      → Holds predicate
      → matching_index indexes table predicate ≡ ok match
      → Good lookup
      → Good (count_match predicate.comparison match lookup)
  unfolding count_match
  count_match-Good predicate none lookup distinct holds matched good = good
  count_match-Good predicate (some (index, literal)) lookup distinct holds matched good =
      elim (Bool-cases (eq_bytes index.name lookup.name)) [
        | inr other ↦ rw (other, count_match) good
        | inl same ↦
            let found =
              matching_index-Matched indexes table predicate index literal distinct matched in
            let column =
              same_column index.name lookup.name index.column lookup.column found.named good.1
                (eq_bytes→eq index.name lookup.name same) in
            let holds' =
              subst (λ (c : Bytes). compare_integer (key c) literal predicate.comparison ≡ true)
                column (holds index literal matched).0 in
            let kept =
              key_holds-true lookup.key (key lookup.column) literal predicate.comparison good.0.key
                holds' in
            rw (same, kept, count_match)
              (
                record {
                  nonempty = good.0.nonempty;
                  key = good.0.key;
                  lower = good.0.lower;
                  upper = good.0.upper;
                },
                good.1,
                good.2,
                good.3,
              )
      ]

  count_lookup-Good :
      (predicate : SqlPredicate) (lookup lookup' : IndexAccess)
      → Distinct indexes
      → Holds predicate
      → Good lookup
      → count_lookup indexes table predicate lookup ≡ ok lookup'
      → Good lookup'
  unfolding count_lookup
  count_lookup-Good predicate lookup lookup' distinct holds good e =
      let (match, matched, done) = >>=-eq-ok (matching_index indexes table predicate) _ e in
      subst Good (ok-injective done)
        (count_match-Good predicate match lookup distinct holds matched good)

  count_lookups-Good :
      (predicates : List SqlPredicate) (lookups lookups' : List IndexAccess)
      → Distinct indexes
      → All Holds predicates
      → All Good lookups
      → count_lookups indexes table predicates lookups ≡ ok lookups'
      → All Good lookups'
  unfolding count_lookups
  count_lookups-Good predicates [] lookups' distinct holds good e =
      subst (All Good) (ok-injective e) tt
  count_lookups-Good predicates (lookup ∷ lookups) lookups' distinct holds good e =
      let (counted, first, rest) =
        >>=-eq-ok (fold (count_lookup indexes table) predicates lookup) _ e in
      let (others, second, done) =
        >>=-eq-ok (count_lookups indexes table predicates lookups) _ rest in
      subst (All Good) (ok-injective done) (
        fold-keeps Holds Good (count_lookup indexes table)
            (λ predicate s s' held g. count_lookup-Good predicate s s' distinct held g) predicates
            lookup holds good.0 first,
        count_lookups-Good predicates lookups others distinct holds good.1 second,
      )

  module _ (small : (column : Bytes) → IsI64 (key column)) where
    collect_range-Good :
        (predicate : SqlPredicate) (ranges ranges' : List IndexAccess)
        → Distinct indexes
        → Holds predicate
        → All Good ranges
        → collect_range indexes table predicate ranges ≡ ok ranges'
        → All Good ranges'
    unfolding collect_range add_range fresh_range
    collect_range-Good predicate ranges ranges' distinct holds good e =
        elim (Bool-cases (only_equality predicate.comparison)) [
          | inl equality ↦ subst (All Good) (ok-injective (rw (equality, collect_range) at e)) good
          | inr bounding ↦
              on_match-Good predicate (add_range predicate.comparison) ranges ranges' distinct holds
                (λ index literal matched holds'.
                  update_or_push-All Good Good index.name (tighten predicate.comparison literal)
                    (fresh_range predicate.comparison index literal) ranges
                    (λ access same p.
                      tighten-Good predicate index literal access bounding matched holds'.0 same p)
                    (λ access p. p)
                    (
                      fresh_range-Admits predicate.comparison index literal (key index.column)
                          (small index.column) bounding holds'.0,
                      matched.named,
                      holds'.1,
                      tt,
                    )
                    good)
                good (rw (bounding, collect_range) at e)
        ]
      where
        tighten-Good :
            (predicate : SqlPredicate) (index : IndexDefinition) (literal : ℤ)
            (access : IndexAccess)
            → only_equality predicate.comparison ≡ false
            → Matched indexes table predicate index literal
            → compare_integer (key index.column) literal predicate.comparison ≡ true
            → access.name ≡ index.name
            → Good access
            → Good (tighten predicate.comparison literal access)
        tighten-Good predicate index literal access bounding matched holds same good =
            let (names, columns, paths, keys) = tighten-name predicate.comparison literal access in
            let column =
              same_column access.name index.name access.column index.column good.1 matched.named
                same in
            let tightened =
              tighten-Admits predicate.comparison literal (key access.column) access
                (small access.column) bounding
                (subst (λ (c : Bytes). compare_integer (key c) literal predicate.comparison ≡ true)
                  (sym column) holds)
                good.0 in
            (
              subst (λ (c : Bytes). Admits (tighten predicate.comparison literal access) (key c))
                  (sym columns) tightened,
              ap (λ (n : Bytes). column_of n indexes) names
                  ∙ good.1
                  ∙ ap (λ c. some (table.name, c)) (sym columns),
              subst known (sym columns) good.2,
              subst
                  (λ (path : SelectAccessPath).
                    Shaped path (tighten predicate.comparison literal access).key)
                  (sym paths) (subst (Shaped access.path) (sym keys) good.3),
            )

    -- Where every predicate holds of a row's keys, the access that is chosen admits the row's key in
    -- its column.
    pub choose_index-Good :
        (predicates : List SqlPredicate) (order : Option SqlOrder) (access : IndexAccess)
        → Distinct indexes
        → All Holds predicates
        → choose_index indexes table predicates order ≡ ok (some access)
        → Good access
    unfolding choose_index choose_counted choose_range
    choose_index-Good predicates order access distinct holds e =
        let (lookups, collected, rest) =
          >>=-eq-ok (fold (collect_lookup indexes table) predicates []) _ e in
        let (counted, counting, choice) =
          >>=-eq-ok (count_lookups indexes table predicates lookups) _ rest in
        let good =
          fold-keeps Holds (All Good) (collect_lookup indexes table)
            (λ predicate s s' held g. collect_lookup-Good predicate s s' distinct held g) predicates
            [] holds tt collected in
        go counted (count_lookups-Good predicates lookups counted distinct holds good counting)
          choice
      where
        ranged :
            (ranges : List IndexAccess)
            → All Good ranges
            → greatest (less_range order) ranges ≡ some access
            → Good access
        ranged [] good e = absurd cc
        ranged (range ∷ ranges) good e =
            subst Good (some-injective e)
              (max_element-All Good (less_range order) range ranges good.0 good.1)

        go :
            (counted : List IndexAccess)
            → All Good counted
            → choose_counted indexes table predicates order counted ≡ ok (some access)
            → Good access
        go [] good e =
            let (ranges, folded, done) =
              >>=-eq-ok (fold (collect_range indexes table) predicates []) _ e in
            ranged ranges
              (fold-keeps Holds (All Good) (collect_range indexes table)
                (λ predicate s s' held g. collect_range-Good predicate s s' distinct held g)
                predicates [] holds tt folded)
              (ok-injective done)
        go (lookup ∷ lookups) good e =
            subst Good (some-injective (ok-injective e))
              (max_element-All Good (less_lookup order) lookup lookups good.0 good.1)
