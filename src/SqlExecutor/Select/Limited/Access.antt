-- ===== src/SqlExecutor/Select/Limited/Access.antt =====
-- The rows that an access brings, with a limit and without one, and what the operators make of them.
use mathlib.Core.Path.{subst}
use mathlib.Core.List.{Memᴰ}
use mathlib.Core.List.Memᴰ.{head, tail, cases_cons, not-nil}
use pageforge.Prelude.{
  ℕ, zero, suc, ◌≡◌, refl, sym, ap, ◌∙◌, Bool, false, List, [], ◌∷◌, map, length, take, Option,
  none, some, inl, inr, Result, ok, ◌>>=◌,
}
use pageforge.Prelude.Int.{ℤ, pos}
use pageforge.Tuple.{Value}
use pageforge.Query.{
  TableRow, RowPredicate, RowLess, RowOperator, Query, rows, from_rows, stable_sort, add_sort,
}
use pageforge.Query.Pipeline.{denote, limit_rows}
use pageforge.Query.Members.{keep_all}
use pageforge.SqlParser.Ast.{SqlPredicate, SqlOrder}
use pageforge.Catalog.{TableDefinition, IndexDefinition}
use pageforge.SqlExecutor.Access.{IndexAccess, choose_index}
use pageforge.SqlExecutor.Access.Bounds.{KeyIs, AtLeast, AtMost, Admits}
use pageforge.SqlExecutor.Access.Names.{Distinct, column_of}
use pageforge.SqlExecutor.Access.Shape.{IsLookup, IsRange, choose_index-IsLookup}
use pageforge.SqlExecutor.Access.Rows.{value_of}
use pageforge.SqlExecutor.Access.Covers.{choose_index-Covering}
use pageforge.SqlExecutor.Interface.{TableStore}
use pageforge.SqlExecutor.Select.{
  BoundSelect, key_or_zero, query_of_access, filter_all, sort_if, project_if,
}
use pageforge.SqlExecutor.Select.Source.{Serves, IsTableRow, from_rows-ok}
use pageforge.SqlExecutor.Select.Answer.{filter_all-ok, projected, ProjectionFits, project_if-ok}

pub limit_rows-take : (n : ℕ) (rs : List TableRow) → limit_rows n (rs, none) ≡ (take n rs, none)
limit_rows-take zero rs = refl
limit_rows-take (suc n) [] = refl
limit_rows-take (suc n) (r ∷ rs) = ap (λ d. (r ∷ d.0, d.1)) (limit_rows-take n rs)

pub take-map-take :
    (f : TableRow → TableRow) (n : ℕ) (rs : List TableRow)
    → take n (map f (take n rs)) ≡ take n (map f rs)
take-map-take f zero rs = refl
take-map-take f (suc n) [] = refl
take-map-take f (suc n) (r ∷ rs) = ap (◌∷◌ (f r)) (take-map-take f n rs)

pub take-Memᴰ : (n : ℕ) (rs : List TableRow) (row : TableRow) → Memᴰ row (take n rs) → Memᴰ row rs
take-Memᴰ zero rs row m = absurd (not-nil m)
take-Memᴰ (suc n) [] row m = m
take-Memᴰ (suc n) (r ∷ rs) row m = elim (cases_cons m) [
  | inl here ↦ head here
  | inr later ↦ tail (take-Memᴰ n rs row later)
]

abbrev ordered : Option RowLess → List TableRow → List TableRow
ordered none rs = rs
ordered (some less) rs = stable_sort less rs

sort_if-ok :
    (order : Option RowLess) (q : Query) (rs : List TableRow)
    → denote q.root ≡ (rs, none)
    → (q' : Query) × (sort_if order q ≡ ok q')
      × (q'.column_count ≡ q.column_count)
      × (denote q'.root ≡ (ordered order rs, none))
unfolding sort_if add_sort denote
sort_if-ok none q rs e = (q, refl, refl, e)
sort_if-ok (some less) q rs e =
    (record q { root = RowOperator.sort q.root less [] }, refl, refl, rw e refl)

-- The rows that the operators of a plan make of a source's rows.
abbrev pub answer_of :
    List RowPredicate → Option RowLess → Option (List ℕ) → List TableRow → List TableRow
answer_of bound order projection rs = map (projected projection) (ordered order (keep_all bound rs))

-- The operators of `bind_select` on a source that returns a list of rows.
pub operators-answer_of :
    (bound : List RowPredicate) (order : Option RowLess) (projection : Option (List ℕ))
    (source : Query) (rs : List TableRow) (finish : Query → Result BoundSelect)
    → ProjectionFits source.column_count projection
    → denote source.root ≡ (rs, none)
    → (query : Query) × ((filter_all bound source >>= λ filtered.
          sort_if order filtered >>= λ o. project_if projection o >>= finish)
        ≡ finish query)
      × (denote query.root ≡ (answer_of bound order projection rs, none))
operators-answer_of bound order projection source rs finish fits e =
    let (filtered, filters, width, rows_filtered) = filter_all-ok bound source in
    let (sorted, sorts, width', rows_sorted) =
      sort_if-ok order filtered (keep_all bound rs)
        (rows_filtered ∙ ap (λ d. (keep_all bound d.0, d.1)) e) in
    let (query, projects, rows_projected) =
      project_if-ok projection sorted
        (subst (λ (n : ℕ). ProjectionFits n projection) (sym (width' ∙ width)) fits) in
    (
      query,
      ap
            (λ (r : Result Query).
              r >>= λ f. sort_if order f >>= λ o. project_if projection o >>= finish)
            filters
          ∙ ap (λ (r : Result Query). r >>= λ o. project_if projection o >>= finish) sorts
          ∙ ap (λ (r : Result Query). r >>= finish) projects,
      rows_projected ∙ ap (λ d. (map (projected projection) d.0, d.1)) rows_sorted,
    )

-- A source that returns a list of rows, for an access with a limit or without one.
pub record Brings (width : ℕ) (rs : List TableRow) (result : Result Query) : Type 0 where
  pub query : Query
  pub returned : result ≡ ok query
  pub columns : query.column_count ≡ width
  pub denoted : denote query.root ≡ (rs, none)

module _ (indexes : List IndexDefinition) (table : TableDefinition) (table_rows : List TableRow)
    (store : TableStore) (serves : Serves indexes table table_rows store)
    (typed : (row : TableRow) → Memᴰ row table_rows → IsTableRow indexes table table_rows row) where
  pub rows-Brings :
      (found : List TableRow)
      → ((row : TableRow) → Memᴰ row found → Memᴰ row table_rows)
      → Brings (length table.schema) found (from_rows found (length table.schema))
  unfolding denote
  rows-Brings found inside = record {
    query = record { root = rows found; column_count = length table.schema };
    returned = from_rows-ok indexes table table_rows found typed inside;
    columns = refl;
    denoted = refl;
  }

  -- An access that is not empty brings rows that it admits, and with a limit the first of them.
  pub record Limits (access : IndexAccess) (reverses : Bool) : Type 0 where
    pub found : List TableRow
    pub admitted :
        (row : TableRow)
        → Memᴰ row found
        → Memᴰ row table_rows
          × ((n : ℤ) × (value_of table.schema row.values access.column ≡ Value.integer n)
              × Admits access n)
    pub whole :
        Brings (length table.schema) found (query_of_access store table.schema reverses none access)
    pub first :
        (limit : ℕ)
        → Brings
            (length table.schema)
            (take limit found)
            (query_of_access store table.schema reverses (some limit) access)

  answer-Brings :
      (answer : Result (List TableRow)) (found : List TableRow)
      → answer ≡ ok found
      → ((row : TableRow) → Memᴰ row found → Memᴰ row table_rows)
      → Brings (length table.schema) found (answer >>= λ rs. from_rows rs (length table.schema))
  answer-Brings answer found e inside =
      subst
        (λ (r : Result (List TableRow)).
          Brings (length table.schema) found (r >>= λ rs. from_rows rs (length table.schema)))
        (sym e) (rows-Brings found inside)

  module _ (predicates : List SqlPredicate) (order : Option SqlOrder) (access : IndexAccess)
      (reverses : Bool) (distinct : Distinct indexes)
      (chosen : choose_index indexes table predicates order ≡ ok (some access))
      (nonempty : access.empty ≡ false) where
    named : column_of access.name indexes ≡ some (table.name, access.column)
    named =
        (choose_index-Covering indexes table (λ column. pos 0) predicates order access distinct
          chosen).named

    lookup-Limits : IsLookup access → Limits access reverses
    unfolding query_of_access
    lookup-Limits is =
        let f = serves.lookup access.name access.column (key_or_zero access.key) named in
        record {
          found = f.found;
          admitted = λ row m.
              let (there, (n, value, key)) = f.inside row m in
              (
                there,
                (
                  n,
                  value,
                  record {
                    nonempty = nonempty;
                    key = subst (λ k. KeyIs k n) (sym is.key) (sym (key ∙ ap key_or_zero is.key));
                    lower = subst (λ b. AtLeast b n) (sym is.lower) tt;
                    upper = subst (λ b. AtMost b n) (sym is.upper) tt;
                  },
                ),
              );
          whole =
              rw (nonempty, is.path, query_of_access)
                (answer-Brings _ f.found f.returned (λ row m. (f.inside row m).0));
          first = λ limit.
              rw (nonempty, is.path, query_of_access)
                (answer-Brings _ (take limit f.found)
                  (serves.lookup_first access.name (key_or_zero access.key) limit f.found
                    f.returned)
                  (λ row m. (f.inside row (take-Memᴰ limit f.found row m)).0));
        }

    range-Limits : IsRange access → Limits access reverses
    unfolding query_of_access
    range-Limits is =
        let f =
          serves.range access.name access.column access.lower access.upper reverses named
            (is.uncrossed nonempty) in
        record {
          found = f.found;
          admitted = λ row m.
              let (there, (n, value, between)) = f.inside row m in
              (
                there,
                (
                  n,
                  value,
                  record {
                    nonempty = nonempty;
                    key = subst (λ k. KeyIs k n) (sym is.key) tt;
                    lower = between.0;
                    upper = between.1;
                  },
                ),
              );
          whole =
              rw (nonempty, is.path, query_of_access)
                (answer-Brings _ f.found f.returned (λ row m. (f.inside row m).0));
          first = λ limit.
              rw (nonempty, is.path, query_of_access)
                (answer-Brings _ (take limit f.found)
                  (serves.range_first access.name access.lower access.upper reverses limit f.found
                    f.returned)
                  (λ row m. (f.inside row (take-Memᴰ limit f.found row m)).0));
        }

    pub access-Limits : Limits access reverses
    access-Limits = elim (choose_index-IsLookup indexes table predicates order access chosen) [
      | inl is ↦ lookup-Limits is
      | inr is ↦ range-Limits is
    ]
