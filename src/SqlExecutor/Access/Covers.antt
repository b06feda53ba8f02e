-- ===== src/SqlExecutor/Access/Covers.antt =====
-- An access that covers as many predicates as there are holds no other keys than those that satisfy them
-- all, which is what lets a plan stop at its limit inside the index.
use mathlib.Core.Path.{subst}
use pageforge.Prelude.{
  ◌+◌, ◌≤◌, ◌≡◌, refl, sym, ap, ◌∙◌, arith, Bool, true, false, List, [], ◌∷◌, ◌++◌, length,
  length-append, Option, none, some, All, All-append, Bool-cases, inl, inr, if◌then◌else◌, Result,
  ok, >>=-eq-ok, ok-injective,
}
use pageforge.Prelude.Int.{ℤ}
use pageforge.Bytes.{Bytes}
use pageforge.Bytes.Compare.{eq_bytes, eq_bytes→eq}
use pageforge.SqlParser.Ast.{SqlComparison, SqlPredicate, SqlOrder}
use pageforge.Catalog.{TableDefinition, IndexDefinition}
use pageforge.SqlExecutor.Binding.{compare_integer, only_equality}
use pageforge.SqlExecutor.Access.{
  IndexAccess, Match, on_match, matching_index, fold, add_lookup, fresh_lookup, collect_lookup,
  is_equal, key_holds, count_match, count_lookup, count_lookups, greatest, add_range, collect_range,
  fresh_range, tighten, emptied, less_range, less_lookup, choose_range, choose_counted,
  choose_index,
}
use pageforge.SqlExecutor.Access.Bounds.{
  KeyIs, Admits, Admits-tighten, tighten-name, Admits-fresh_range,
}
use pageforge.SqlExecutor.Access.Names.{Distinct, column_of, Matched, matching_index-Matched}
use pageforge.SqlExecutor.Access.Sound.{
  fold-keeps, max_element-All, update_or_push-All, same_column, some-injective,
}

-- A loop whose invariant speaks of the items that it has gone through.
fold-extends :
    {A S : Type 0} (Q : List A → S → Type 0) (step : A → S → Result S)
    → ((done : List A) (a : A) (s s' : S) → Q done s → step a s ≡ ok s' → Q (done ++ a ∷ []) s')
    → (done items : List A) (s s' : S) → Q done s
    → fold step items s ≡ ok s'
    → Q (done ++ items) s'
unfolding fold
fold-extends Q step extends done [] s s' q e =
    subst (λ d. Q d s') (sym (append_nil done)) (subst (Q done) (ok-injective e) q)
  where
    append_nil : {A : Type 0} (xs : List A) → xs ++ [] ≡ xs
    append_nil [] = refl
    append_nil (x ∷ xs) = ap (◌∷◌ x) (append_nil xs)
fold-extends Q step extends done (a ∷ items) s s' q e =
    let (s1, first, rest) = >>=-eq-ok (step a s) _ e in
    subst (λ d. Q d s') (assoc done)
      (fold-extends Q step extends (done ++ a ∷ []) items s1 s' (extends done a s s1 q first) rest)
  where
    assoc : (xs : List _) → (xs ++ a ∷ []) ++ items ≡ xs ++ a ∷ items
    assoc [] = refl
    assoc (x ∷ xs) = ap (◌∷◌ x) (assoc xs)

module _ (indexes : List IndexDefinition) (table : TableDefinition) (key : Bytes → ℤ) where
  -- A predicate that the index on `column` can use and that the key there satisfies.
  pub record Met (column : Bytes) (predicate : SqlPredicate) : Type 0 where
    pub index : IndexDefinition
    pub literal : ℤ
    pub matched : Matched indexes table predicate index literal
    pub on : index.column ≡ column
    pub holds : compare_integer (key column) literal predicate.comparison ≡ true

  -- An access that has gone through the predicates `done`.
  pub record Covering (done : List SqlPredicate) (access : IndexAccess) : Type 0 where
    pub named : column_of access.name indexes ≡ some (table.name, access.column)
    pub selected : access.selected_predicates ≤ length done
    pub covered : access.covered_predicates ≤ length done
    pub full :
        access.covered_predicates ≡ length done
        → Admits access (key access.column)
        → All (Met access.column) done

  length-snoc :
      (done : List SqlPredicate) (predicate : SqlPredicate)
      → length (done ++ predicate ∷ []) ≡ length done + 1
  length-snoc done predicate = omega (arith, length-append done (predicate ∷ []))

  passed-Covering :
      (done : List SqlPredicate) (predicate : SqlPredicate) (access : IndexAccess)
      → Covering done access
      → Covering (done ++ predicate ∷ []) access
  passed-Covering done predicate access c =
      let n = length-snoc done predicate in
      let selected = c.selected in
      let covered = c.covered in
      record {
        named = c.named;
        selected = omega arith;
        covered = omega arith;
        full = λ e. absurd (omega arith);
      }

  -- Another predicate that is covered.
  extended-Covering :
      (done : List SqlPredicate) (predicate : SqlPredicate) (before after : IndexAccess)
      → Covering done before
      → after.name ≡ before.name
      → after.column ≡ before.column
      → after.selected_predicates ≤ length done + 1
      → after.covered_predicates ≤ length done + 1
      → (Admits after (key before.column)
          → Admits before (key before.column)
            × Met before.column predicate
            × (after.covered_predicates ≡ before.covered_predicates + 1))
      → Covering (done ++ predicate ∷ []) after
  extended-Covering done predicate before after c name column selected covered met =
      let n = length-snoc done predicate in
      record {
        named =
            ap (λ (m : Bytes). column_of m indexes) name
            ∙ c.named
            ∙ ap (λ d. some (table.name, d)) (sym column);
        selected = omega arith;
        covered = omega arith;
        full = λ e admits.
            let (old, new, more) =
              met (subst (λ (d : Bytes). Admits after (key d)) column admits) in
            subst (λ (d : Bytes). All (Met d) (done ++ predicate ∷ [])) (sym column)
              (All-append (Met before.column) done (predicate ∷ [])
                (c.full (omega (arith, e, more, n)) old) (new, tt));
      }

  Met-on :
      (predicate : SqlPredicate) (index : IndexDefinition) (literal : ℤ) (column : Bytes)
      → Matched indexes table predicate index literal
      → index.column ≡ column
      → compare_integer (key column) literal predicate.comparison ≡ true
      → Met column predicate
  Met-on predicate index literal column matched on holds = record {
    index = index;
    literal = literal;
    matched = matched;
    on = on;
    holds = holds;
  }

  abbrev HasKey : IndexAccess → Type 0
  HasKey access = (k : ℤ) × (access.key ≡ some k)

  -- A lookup that is still nonempty has a key that satisfies the predicate it counted.
  counted_key :
      (k : Option ℤ) (was : Bool) (v literal : ℤ) (comparison : SqlComparison)
      → (n : ℤ) × (k ≡ some n)
      → KeyIs k v
      → (if key_holds k literal comparison then was else true) ≡ false
      → (was ≡ false) × (compare_integer v literal comparison ≡ true)
  counted_key none was v literal comparison has is h = absurd (let e = has.1 in cc)
  counted_key (some n) was v literal comparison has is h =
      elim (Bool-cases (compare_integer n literal comparison)) [
        | inl holds ↦
            (rw holds at h, subst (λ (m : ℤ). compare_integer m literal comparison ≡ true) is holds)
        | inr fails ↦ absurd (let h' = rw fails at h in cc)
      ]

  count_match-Covering :
      (done : List SqlPredicate) (predicate : SqlPredicate) (match : Match) (lookup : IndexAccess)
      → Distinct indexes
      → matching_index indexes table predicate ≡ ok match
      → HasKey lookup
      → Covering done lookup
      → HasKey (count_match predicate.comparison match lookup)
        × Covering (done ++ predicate ∷ []) (count_match predicate.comparison match lookup)
  unfolding count_match
  count_match-Covering done predicate none lookup distinct matched has c =
      (has, passed-Covering done predicate lookup c)
  count_match-Covering done predicate (some (index, literal)) lookup distinct matched has c =
      elim (Bool-cases (eq_bytes index.name lookup.name)) [
        | inr other ↦ rw (other, count_match) (has, passed-Covering done predicate lookup c)
        | inl same ↦
            let m = matching_index-Matched indexes table predicate index literal distinct matched in
            let on =
              same_column indexes table key (λ column. Unit) index.name lookup.name index.column
                lookup.column m.named c.named (eq_bytes→eq index.name lookup.name same) in
            let selected = c.selected in
            let covered = c.covered in
            rw (same, count_match)
              (
                has,
                extended-Covering done predicate lookup _ c refl refl (omega arith) (omega arith)
                    (λ admits.
                      let (nonempty, holds) =
                        counted_key lookup.key lookup.empty (key lookup.column) literal
                          predicate.comparison has admits.key admits.nonempty in
                      (
                        record {
                          nonempty = nonempty;
                          key = admits.key;
                          lower = admits.lower;
                          upper = admits.upper;
                        },
                        Met-on predicate index literal lookup.column m on holds,
                        refl,
                      )),
              )
      ]

  abbrev Fresh : IndexAccess → Type 0
  Fresh lookup =
      (lookup.selected_predicates ≡ 0)
      × (lookup.covered_predicates ≡ 0)
      × HasKey lookup
      × (column_of lookup.name indexes ≡ some (table.name, lookup.column))

  Fresh-Covering : (lookup : IndexAccess) → Fresh lookup → Covering [] lookup
  Fresh-Covering lookup (selected, covered, has, named) = record {
    named = named;
    selected = omega arith;
    covered = omega arith;
    full = λ e admits. tt;
  }

  collect_lookup-Fresh :
      (predicate : SqlPredicate) (lookups lookups' : List IndexAccess)
      → Distinct indexes
      → All Fresh lookups
      → collect_lookup indexes table predicate lookups ≡ ok lookups'
      → All Fresh lookups'
  unfolding collect_lookup add_lookup fresh_lookup
  collect_lookup-Fresh predicate lookups lookups' distinct fresh e =
      elim (Bool-cases (is_equal predicate.comparison)) [
        | inr other ↦ subst (All Fresh) (ok-injective (rw (other, collect_lookup) at e)) fresh
        | inl equal ↦
            let (match, matched, done) =
              >>=-eq-ok (matching_index indexes table predicate) _
                (rw (equal, collect_lookup) at e) in
            subst (All Fresh) (ok-injective done) (go match matched)
      ]
    where
      go :
          (match : Match)
          → matching_index indexes table predicate ≡ ok match
          → All Fresh (on_match add_lookup match lookups)
      go none matched = fresh
      go (some (index, literal)) matched =
          let m = matching_index-Matched indexes table predicate index literal distinct matched in
          update_or_push-All Fresh Fresh index.name (λ access. access) (fresh_lookup index literal)
            lookups (λ access same p. p) (λ access p. p) (refl, refl, (literal, refl), m.named)
            fresh

  count_lookups-Covering :
      (predicates : List SqlPredicate) (lookups lookups' : List IndexAccess)
      → Distinct indexes
      → All Fresh lookups
      → count_lookups indexes table predicates lookups ≡ ok lookups'
      → All (Covering predicates) lookups'
  unfolding count_lookups count_lookup
  count_lookups-Covering predicates [] lookups' distinct fresh e =
      subst (All (Covering predicates)) (ok-injective e) tt
  count_lookups-Covering predicates (lookup ∷ lookups) lookups' distinct fresh e =
      let (counted, first, rest) =
        >>=-eq-ok (fold (count_lookup indexes table) predicates lookup) _ e in
      let (others, second, done) =
        >>=-eq-ok (count_lookups indexes table predicates lookups) _ rest in
      subst (All (Covering predicates)) (ok-injective done) (
        (fold-extends (λ ps access. HasKey access × Covering ps access) (count_lookup indexes table)
            step [] predicates lookup counted (fresh.0.2, Fresh-Covering lookup fresh.0) first).1,
        count_lookups-Covering predicates lookups others distinct fresh.1 second,
      )
    where
      step :
          (ps : List SqlPredicate) (p : SqlPredicate) (s s' : IndexAccess)
          → HasKey s × Covering ps s
          → count_lookup indexes table p s ≡ ok s'
          → HasKey s' × Covering (ps ++ p ∷ []) s'
      step ps p s s' (has, c) e =
          let (match, matched, done) = >>=-eq-ok (matching_index indexes table p) _ e in
          subst (λ (a : IndexAccess). HasKey a × Covering (ps ++ p ∷ []) a) (ok-injective done)
            (count_match-Covering ps p match s distinct matched has c)

  tighten_counts :
      (comparison : SqlComparison) (literal : ℤ) (range : IndexAccess)
      → range.covered_predicates ≤ range.selected_predicates
      → ((tighten comparison literal range).selected_predicates ≡ range.selected_predicates + 1)
        × ((tighten comparison literal range).covered_predicates ≤ range.selected_predicates + 1)
  unfolding tighten emptied
  tighten_counts comparison literal range h = (ground arith, ground arith)

  abbrev Counted : List SqlPredicate → IndexAccess → Type 0
  Counted done range = Covering done range × (range.covered_predicates ≤ range.selected_predicates)

  passed-Counted :
      (done : List SqlPredicate) (predicate : SqlPredicate) (range : IndexAccess)
      → Counted done range
      → Counted (done ++ predicate ∷ []) range
  passed-Counted done predicate range (c, h) = (passed-Covering done predicate range c, h)

  tighten-Counted :
      (done : List SqlPredicate) (predicate : SqlPredicate) (index : IndexDefinition) (literal : ℤ)
      (range : IndexAccess)
      → only_equality predicate.comparison ≡ false
      → Matched indexes table predicate index literal
      → range.name ≡ index.name
      → Counted done range
      → Counted (done ++ predicate ∷ []) (tighten predicate.comparison literal range)
  tighten-Counted done predicate index literal range bounding m same (c, h) =
      let (name, column, path, keys) = tighten-name predicate.comparison literal range in
      let (selected, covered) = tighten_counts predicate.comparison literal range h in
      let on =
        same_column indexes table key (λ column. Unit) index.name range.name index.column
          range.column m.named c.named (sym same) in
      let old = c.selected in
      (
        extended-Covering done predicate range (tighten predicate.comparison literal range) c name
            column (omega arith) (omega arith)
            (λ admits.
              let (before, holds, more) =
                Admits-tighten predicate.comparison literal (key range.column) range bounding
                  admits in
              (before, Met-on predicate index literal range.column m on holds, more)),
        omega arith,
      )

  fresh_range-Counted :
      (done : List SqlPredicate) (predicate : SqlPredicate) (index : IndexDefinition) (literal : ℤ)
      → only_equality predicate.comparison ≡ false
      → Matched indexes table predicate index literal
      → Counted (done ++ predicate ∷ []) (fresh_range predicate.comparison index literal)
  unfolding fresh_range
  fresh_range-Counted done predicate index literal bounding m =
      let n = length-snoc done predicate in
      (
        record { named = m.named; selected = omega arith; covered = omega arith; full = full done },
        omega arith,
      )
    where
      full :
          (ps : List SqlPredicate)
          → 1 ≡ length (ps ++ predicate ∷ [])
          → Admits (fresh_range predicate.comparison index literal) (key index.column)
          → All (Met index.column) (ps ++ predicate ∷ [])
      full [] e admits = (
        Met-on predicate index literal index.column m refl (
            Admits-fresh_range predicate.comparison index literal (key index.column) bounding
              admits),
        tt,
      )
      full (p ∷ ps) e admits = absurd (let n = length-snoc ps predicate in omega arith)

  collect_range-Counted :
      (done : List SqlPredicate) (predicate : SqlPredicate) (ranges ranges' : List IndexAccess)
      → Distinct indexes
      → All (Counted done) ranges
      → collect_range indexes table predicate ranges ≡ ok ranges'
      → All (Counted (done ++ predicate ∷ [])) ranges'
  unfolding collect_range add_range
  collect_range-Counted done predicate ranges ranges' distinct counted e =
      elim (Bool-cases (only_equality predicate.comparison)) [
        | inl equality ↦
            subst (All (Counted (done ++ predicate ∷ [])))
              (ok-injective (rw (equality, collect_range) at e)) (passed ranges counted)
        | inr bounding ↦
            let (match, matched, ended) =
              >>=-eq-ok (matching_index indexes table predicate) _
                (rw (bounding, collect_range) at e) in
            subst (All (Counted (done ++ predicate ∷ []))) (ok-injective ended)
              (go bounding match matched)
      ]
    where
      passed :
          (rs : List IndexAccess)
          → All (Counted done) rs
          → All (Counted (done ++ predicate ∷ [])) rs
      passed [] h = tt
      passed (r ∷ rs) h = (passed-Counted done predicate r h.0, passed rs h.1)

      go :
          only_equality predicate.comparison ≡ false
          → (match : Match) → matching_index indexes table predicate ≡ ok match
          → All
              (Counted (done ++ predicate ∷ []))
              (on_match (add_range predicate.comparison) match ranges)
      go bounding none matched = passed ranges counted
      go bounding (some (index, literal)) matched =
          let m = matching_index-Matched indexes table predicate index literal distinct matched in
          update_or_push-All (Counted done) (Counted (done ++ predicate ∷ [])) index.name
            (tighten predicate.comparison literal) (fresh_range predicate.comparison index literal)
            ranges
            (λ access same h. tighten-Counted done predicate index literal access bounding m same h)
            (λ access h. passed-Counted done predicate access h)
            (fresh_range-Counted done predicate index literal bounding m) counted

  -- The access that is chosen has gone through all the predicates.
  pub choose_index-Covering :
      (predicates : List SqlPredicate) (order : Option SqlOrder) (access : IndexAccess)
      → Distinct indexes
      → choose_index indexes table predicates order ≡ ok (some access)
      → Covering predicates access
  unfolding choose_index choose_counted choose_range
  choose_index-Covering predicates order access distinct e =
      let (lookups, collected, rest) =
        >>=-eq-ok (fold (collect_lookup indexes table) predicates []) _ e in
      let (counted, counting, choice) =
        >>=-eq-ok (count_lookups indexes table predicates lookups) _ rest in
      let fresh =
        fold-keeps (λ p. Unit) (All Fresh) (collect_lookup indexes table)
          (λ predicate s s' held f. collect_lookup-Fresh predicate s s' distinct f) predicates []
          (trivial predicates) tt collected in
      go counted (count_lookups-Covering predicates lookups counted distinct fresh counting) choice
    where
      trivial : (ps : List SqlPredicate) → All (λ p. Unit {0}) ps
      trivial [] = tt
      trivial (p ∷ ps) = (tt, trivial ps)

      ranged :
          (ranges : List IndexAccess)
          → All (Counted predicates) ranges
          → greatest (less_range order) ranges ≡ some access
          → Covering predicates access
      ranged [] good e' = absurd cc
      ranged (range ∷ ranges) good e' =
          (subst (Counted predicates) (some-injective e')
            (max_element-All (Counted predicates) (less_range order) range ranges good.0 good.1)).0

      go :
          (counted : List IndexAccess)
          → All (Covering predicates) counted
          → choose_counted indexes table predicates order counted ≡ ok (some access)
          → Covering predicates access
      go [] good e' =
          let (ranges, folded, done) =
            >>=-eq-ok (fold (collect_range indexes table) predicates []) _ e' in
          ranged ranges
            (fold-extends (λ ps rs. All (Counted ps) rs) (collect_range indexes table)
              (λ ps p s s' h. collect_range-Counted ps p s s' distinct h) [] predicates [] ranges tt
              folded)
            (ok-injective done)
      go (lookup ∷ lookups) good e' =
          subst (Covering predicates) (some-injective (ok-injective e'))
            (max_element-All (Covering predicates) (less_lookup order) lookup lookups good.0 good.1)
