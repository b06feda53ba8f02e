-- ===== src/SqlExecutor/Access/Shape.antt =====
-- A lookup has a key and no bounds, and a range has no key and, unless it is empty, no lower bound above
-- its upper bound.
use mathlib.Core.Path.{subst}
use pageforge.Prelude.{
  ◌≡◌, refl, ◌∙◌, false, ◌||◌, if◌then◌else◌, List, [], ◌∷◌, Option, none, some, All, Bool-cases,
  ◌⊎◌, inl, inr, ok, >>=-eq-ok, ok-injective,
}
use pageforge.Prelude.Int.{ℤ}
use pageforge.Bytes.Compare.{eq_bytes}
use pageforge.SqlParser.Ast.{SqlComparison, SqlPredicate, SqlOrder}
use pageforge.Catalog.{TableDefinition, IndexDefinition}
use pageforge.SqlExecutor.Binding.{only_equality}
use pageforge.SqlExecutor.Access.{
  SelectAccessPath, IndexAccess, Match, on_match, matching_index, fold, add_lookup, fresh_lookup,
  collect_lookup, is_equal, count_match, count_lookup, count_lookups, greatest, add_range,
  collect_range, fresh_range, tighten, emptied, has_lower, impossible, bound_of, raise, reduce,
  crossed, less_range, less_lookup, choose_range, choose_counted, choose_index,
}
use pageforge.SqlExecutor.Access.Bounds.{tighten-name}
use pageforge.SqlExecutor.Access.Sound.{
  some-injective, fold-keeps, max_element-All, update_or_push-All,
}

pub record IsLookup (access : IndexAccess) : Type 0 where
  pub path : access.path ≡ SelectAccessPath.index_lookup
  pub literal : ℤ
  pub key : access.key ≡ some literal
  pub lower : access.lower ≡ none
  pub upper : access.upper ≡ none

pub record IsRange (access : IndexAccess) : Type 0 where
  pub path : access.path ≡ SelectAccessPath.index_range
  pub key : access.key ≡ none
  pub uncrossed : access.empty ≡ false → crossed access.lower access.upper ≡ false

fresh_range-uncrossed :
    (comparison : SqlComparison) (index : IndexDefinition) (key : ℤ)
    → crossed (fresh_range comparison index key).lower (fresh_range comparison index key).upper
      ≡ false
unfolding fresh_range
fresh_range-uncrossed comparison index key = elim (Bool-cases (has_lower comparison)) [
  | inl below ↦ rw (below, fresh_range) refl
  | inr above ↦ rw (above, fresh_range) refl
]

abbrev raised : SqlComparison → ℤ → IndexAccess → Option ℤ
raised comparison key range =
    if has_lower comparison then raise range.lower (bound_of comparison key) else range.lower

abbrev reduced : SqlComparison → ℤ → IndexAccess → Option ℤ
reduced comparison key range =
    if has_lower comparison then range.upper else reduce range.upper (bound_of comparison key)

-- Bounds that cross empty a range.
tighten-uncrossed :
    (comparison : SqlComparison) (key : ℤ) (range : IndexAccess)
    → (tighten comparison key range).empty ≡ false
    → crossed (tighten comparison key range).lower (tighten comparison key range).upper ≡ false
unfolding tighten emptied
tighten-uncrossed comparison key range =
    elim (Bool-cases (range.empty || impossible comparison key)) [
      | inl nothing ↦ rw (nothing, tighten, emptied) (λ e. absurd cc)
      | inr possible ↦
          elim (Bool-cases (crossed (raised comparison key range) (reduced comparison key range))) [
            | inl crosses ↦ rw (possible, crosses, tighten, emptied) (λ e. absurd cc)
            | inr apart ↦ rw (possible, apart, tighten) (λ e. apart)
          ]
    ]

module _ (indexes : List IndexDefinition) (table : TableDefinition) where
  trivial : (ps : List SqlPredicate) → All (λ p. Unit {0}) ps
  trivial [] = tt
  trivial (p ∷ ps) = (tt, trivial ps)

  collect_lookup-IsLookup :
      (predicate : SqlPredicate) (lookups lookups' : List IndexAccess)
      → All IsLookup lookups
      → collect_lookup indexes table predicate lookups ≡ ok lookups'
      → All IsLookup lookups'
  unfolding collect_lookup add_lookup fresh_lookup
  collect_lookup-IsLookup predicate lookups lookups' h e =
      elim (Bool-cases (is_equal predicate.comparison)) [
        | inr other ↦ subst (All IsLookup) (ok-injective (rw (other, collect_lookup) at e)) h
        | inl equal ↦
            let (match, matched, done) =
              >>=-eq-ok (matching_index indexes table predicate) _
                (rw (equal, collect_lookup) at e) in
            subst (All IsLookup) (ok-injective done) (go match)
      ]
    where
      go : (match : Match) → All IsLookup (on_match add_lookup match lookups)
      go none = h
      go (some (index, literal)) =
          update_or_push-All IsLookup IsLookup index.name (λ access. access)
            (fresh_lookup index literal) lookups (λ access same p. p) (λ access p. p)
            (record { path = refl; literal = literal; key = refl; lower = refl; upper = refl }) h

  count_match-IsLookup :
      (predicate : SqlPredicate) (match : Match) (lookup : IndexAccess)
      → IsLookup lookup
      → IsLookup (count_match predicate.comparison match lookup)
  unfolding count_match
  count_match-IsLookup predicate none lookup h = h
  count_match-IsLookup predicate (some (index, literal)) lookup h =
      elim (Bool-cases (eq_bytes index.name lookup.name)) [
        | inr other ↦ rw (other, count_match) h
        | inl same ↦
            rw (same, count_match)
              (record {
                path = h.path;
                literal = h.literal;
                key = h.key;
                lower = h.lower;
                upper = h.upper;
              })
      ]

  count_lookups-IsLookup :
      (predicates : List SqlPredicate) (lookups lookups' : List IndexAccess)
      → All IsLookup lookups
      → count_lookups indexes table predicates lookups ≡ ok lookups'
      → All IsLookup lookups'
  unfolding count_lookups count_lookup
  count_lookups-IsLookup predicates [] lookups' h e = subst (All IsLookup) (ok-injective e) tt
  count_lookups-IsLookup predicates (lookup ∷ lookups) lookups' h e =
      let (counted, first, rest) =
        >>=-eq-ok (fold (count_lookup indexes table) predicates lookup) _ e in
      let (others, second, done) =
        >>=-eq-ok (count_lookups indexes table predicates lookups) _ rest in
      subst (All IsLookup) (ok-injective done) (
        fold-keeps (λ p. Unit) IsLookup (count_lookup indexes table) step predicates lookup
            (trivial predicates) h.0 first,
        count_lookups-IsLookup predicates lookups others h.1 second,
      )
    where
      step :
          (p : SqlPredicate) (s s' : IndexAccess)
          → Unit {0}
          → IsLookup s
          → count_lookup indexes table p s ≡ ok s'
          → IsLookup s'
      step p s s' u is e' =
          let (match, matched, done) = >>=-eq-ok (matching_index indexes table p) _ e' in
          subst IsLookup (ok-injective done) (count_match-IsLookup p match s is)

  collect_range-IsRange :
      (predicate : SqlPredicate) (ranges ranges' : List IndexAccess)
      → All IsRange ranges
      → collect_range indexes table predicate ranges ≡ ok ranges'
      → All IsRange ranges'
  unfolding collect_range add_range fresh_range
  collect_range-IsRange predicate ranges ranges' h e =
      elim (Bool-cases (only_equality predicate.comparison)) [
        | inl equality ↦ subst (All IsRange) (ok-injective (rw (equality, collect_range) at e)) h
        | inr bounding ↦
            let (match, matched, done) =
              >>=-eq-ok (matching_index indexes table predicate) _
                (rw (bounding, collect_range) at e) in
            subst (All IsRange) (ok-injective done) (go match)
      ]
    where
      go : (match : Match) → All IsRange (on_match (add_range predicate.comparison) match ranges)
      go none = h
      go (some (index, literal)) =
          update_or_push-All IsRange IsRange index.name (tighten predicate.comparison literal)
            (fresh_range predicate.comparison index literal) ranges
            (λ access same r.
              let (name, column, path, keys) = tighten-name predicate.comparison literal access in
              record {
                path = path ∙ r.path;
                key = keys ∙ r.key;
                uncrossed = tighten-uncrossed predicate.comparison literal access;
              })
            (λ access r. r)
            (record {
              path = refl;
              key = refl;
              uncrossed = λ e. fresh_range-uncrossed predicate.comparison index literal;
            })
            h

  -- The access that is chosen is a lookup or a range.
  pub choose_index-IsLookup :
      (predicates : List SqlPredicate) (order : Option SqlOrder) (access : IndexAccess)
      → choose_index indexes table predicates order ≡ ok (some access)
      → IsLookup access ⊎ IsRange access
  unfolding choose_index choose_counted choose_range
  choose_index-IsLookup predicates order access e =
      let (lookups, collected, rest) =
        >>=-eq-ok (fold (collect_lookup indexes table) predicates []) _ e in
      let (counted, counting, choice) =
        >>=-eq-ok (count_lookups indexes table predicates lookups) _ rest in
      go counted
        (count_lookups-IsLookup predicates lookups counted
          (fold-keeps (λ p. Unit) (All IsLookup) (collect_lookup indexes table)
            (λ p s s' u h. collect_lookup-IsLookup p s s' h) predicates [] (trivial predicates) tt
            collected)
          counting)
        choice
    where
      ranged :
          (ranges : List IndexAccess)
          → All IsRange ranges
          → greatest (less_range order) ranges ≡ some access
          → IsRange access
      ranged [] good e' = absurd cc
      ranged (range ∷ ranges) good e' =
          subst IsRange (some-injective e')
            (max_element-All IsRange (less_range order) range ranges good.0 good.1)

      go :
          (counted : List IndexAccess)
          → All IsLookup counted
          → choose_counted indexes table predicates order counted ≡ ok (some access)
          → IsLookup access ⊎ IsRange access
      go [] good e' =
          let (ranges, folded, done) =
            >>=-eq-ok (fold (collect_range indexes table) predicates []) _ e' in
          inr (
            ranged ranges
              (fold-keeps (λ p. Unit) (All IsRange) (collect_range indexes table)
                (λ p s s' u h. collect_range-IsRange p s s' h) predicates [] (trivial predicates) tt
                folded)
              (ok-injective done))
      go (lookup ∷ lookups) good e' = inl (
          subst IsLookup (some-injective (ok-injective e'))
            (max_element-All IsLookup (less_lookup order) lookup lookups good.0 good.1))
