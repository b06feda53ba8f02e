-- ===== src/SqlExecutor/Select/Limited.antt =====
-- The limit that a plan hands down to an index does not change its answer.
pub mod Access
use mathlib.Core.Path.{subst}
use mathlib.Core.List.{Memᴰ}
use mathlib.Core.List.Memᴰ.{head, tail, cases_cons, not-nil}
use pageforge.Prelude.{
  ℕ, zero, suc, ◌+◌, ◌<◌, ◌≡◌, refl, sym, ap, ◌∙◌, arith, Bool, true, false, not, ◌&&◌, List, [],
  ◌∷◌, map, length, take, Option, none, some, ltb, ◌==◌, All, Bool-cases, Option-cases, ◌⊎◌, inl,
  inr, if◌then◌else◌, Result, ok, err, Exception, ◌>>=◌, ok-injective,
}
use pageforge.Prelude.Int.{ℤ, pos}
use pageforge.Tuple.{Schema, Value}
use pageforge.Query.{
  TableRow, RowPredicate, RowLess, RowOperator, Query, rows, from_rows, stable_sort, add_sort,
  add_limit,
}
use pageforge.Query.Pipeline.{denote, limit_rows, Rows}
use pageforge.Query.Members.{keep_all, AllTrue, keep_all-id}
use pageforge.SqlParser.Ast.{SqlPredicate, SqlOrder, SelectPlan}
use pageforge.Catalog.{TableDefinition, IndexDefinition}
use pageforge.SqlExecutor.Access.{SelectAccessPath, IndexAccess, choose_index}
use pageforge.SqlExecutor.Access.Bounds.{KeyIs, AtLeast, AtMost, Admits}
use pageforge.SqlExecutor.Access.Names.{Distinct, column_of}
use pageforge.SqlExecutor.Access.Shape.{IsLookup, IsRange, choose_index-IsLookup}
use pageforge.SqlExecutor.Access.Rows.{value_of}
use pageforge.SqlExecutor.Access.Covers.{choose_index-Covering}
use pageforge.SqlExecutor.Access.Limit.{choose_index-Covers}
use pageforge.SqlExecutor.Interface.{Catalog, TableStore}
use pageforge.SqlExecutor.Select.{
  AnalyzedSelect, BoundSelect, each, analyze_select, key_or_zero, query_of_access, source_query,
  make_query, filter_all, sort_if, project_if, limit_if, bind_select, bind_columns, path_of,
  name_of, is_zero, candidate_limit_of, sorts_rows_of, resets_order, bind_optional_order, is_some,
}
use pageforge.SqlExecutor.Select.Analysis.{
  Analysis, analyze_select-Analysis, Analysis-analyze_select, each-AllTrue,
}
use pageforge.SqlExecutor.Select.Source.{
  Serves, IsTableRow, Source, Found, source_query-Source, from_rows-ok,
}
use pageforge.SqlExecutor.Select.Answer.{
  filter_all-ok, projected, ProjectionFits, project_if-ok, bind_columns-ProjectionFits,
  candidate_limit_of-none,
}
use pageforge.SqlExecutor.Select.Limited.Access.{
  limit_rows-take, take-map-take, take-Memᴰ, answer_of, operators-answer_of, Brings, rows-Brings,
  Limits, access-Limits,
}

candidate_limit_of-some :
    (plan : SelectPlan) (access : Option IndexAccess) (sorts_rows : Bool) (n m : ℕ)
    → plan.limit ≡ some n
    → candidate_limit_of plan access sorts_rows ≡ some m
    → (found : IndexAccess) × (access ≡ some found)
      × (found.empty ≡ false)
      × (sorts_rows ≡ false)
      × (found.covered_predicates ≡ length plan.predicates)
      × (m ≡ n)
unfolding candidate_limit_of
candidate_limit_of-some plan none sorts_rows n m limited h = absurd cc
candidate_limit_of-some plan (some access) sorts_rows n m limited h =
    let (nonempty, unsorted, covered, same) =
      tested access.empty sorts_rows (access.covered_predicates == length plan.predicates)
        (rw limited at h) in
    (access, refl, nonempty, unsorted, (let is = covered in ground arith), same)
  where
    tested :
        (empty sorts covers : Bool)
        → (if ltb 0 n && (not empty && (not sorts && covers)) then some n else none) ≡ some m
        → (empty ≡ false) × (sorts ≡ false) × (covers ≡ true) × (m ≡ n)
    tested empty sorts covers t = (ground arith, ground arith, ground arith, ground arith)

-- A plan whose access needs no sorting sorts nothing.
unsorted-order :
    (schema : Schema) (order : Option SqlOrder) (access : Option IndexAccess)
    (less : Option RowLess)
    → bind_optional_order schema order ≡ ok less
    → sorts_rows_of order access ≡ false
    → (if resets_order order access then none else less) ≡ none
unfolding bind_optional_order sorts_rows_of
unsorted-order schema order access less bound h = elim (Bool-cases (resets_order order access)) [
  | inl resets ↦ rw resets refl
  | inr keeps ↦ rw keeps (no_order order bound (rw (keeps, sorts_rows_of) at h))
]
  where
    no_order :
        (o : Option SqlOrder)
        → bind_optional_order schema o ≡ ok less
        → is_some o ≡ false
        → less ≡ none
    no_order none b s = sym (ok-injective b)
    no_order (some o) b s = absurd cc

-- A plan without its limit, and its analysis without the candidate limit.
abbrev pub without_limit : SelectPlan → SelectPlan
without_limit plan = record plan { limit = none }

abbrev pub without_candidate_limit : AnalyzedSelect → AnalyzedSelect
without_candidate_limit analyzed = record analyzed { candidate_limit = none }

-- The rows of the two sources, with the limit and without it.
record Pair (n : ℕ) (plan : SelectPlan) (analyzed : AnalyzedSelect) (store : TableStore)
    : Type 0 where
  pub limited : List TableRow
  pub unlimited : List TableRow
  pub limited_source :
      Brings (length analyzed.table.schema) limited (make_query store plan analyzed)
  pub unlimited_source :
      Brings
        (length analyzed.table.schema)
        unlimited
        (make_query store (without_limit plan) (without_candidate_limit analyzed))
  pub same :
      take n (answer_of analyzed.predicates analyzed.order analyzed.projection limited)
      ≡ take n (answer_of analyzed.predicates analyzed.order analyzed.projection unlimited)

module _ (store : TableStore) (catalog : Catalog) (plan : SelectPlan) (analyzed : AnalyzedSelect)
    (indexes : List IndexDefinition) (table_rows : List TableRow) (distinct : Distinct indexes)
    (serves : Serves indexes analyzed.table table_rows store)
    (typed : (row : TableRow)
      → Memᴰ row table_rows
      → IsTableRow indexes analyzed.table table_rows row)
    (a : Analysis catalog plan analyzed) (listed : a.indexes ≡ indexes) where
  chosen : choose_index indexes analyzed.table plan.predicates plan.order ≡ ok analyzed.access
  chosen =
      subst
        (λ (is : List IndexDefinition).
          choose_index is analyzed.table plan.predicates plan.order ≡ ok analyzed.access)
        listed a.chosen

  Source-Brings :
      (predicates : List SqlPredicate) (result : Result Query)
      → (s : Source indexes analyzed.table table_rows predicates result)
      → Brings (length analyzed.table.schema) (denote s.query.root).0 result
  Source-Brings predicates result s = record {
    query = s.query;
    returned = s.returned;
    columns = s.width;
    denoted = ap (λ e. ((denote s.query.root).0, e)) s.unbroken;
  }

  whole :
      (rs : List TableRow) × Brings
        (length analyzed.table.schema)
        rs
        (source_query store analyzed.table analyzed.reverses_index_order none analyzed.access)
  whole =
      let s =
        source_query-Source indexes analyzed.table table_rows store plan.predicates plan.order
          analyzed.access analyzed.reverses_index_order serves typed distinct chosen in
      ((denote s.query.root).0, Source-Brings plan.predicates _ s)

  -- Limit 0 reads nothing.
  zero-Pair : plan.limit ≡ some 0 → Pair 0 plan analyzed store
  unfolding make_query
  zero-Pair limited =
      let (rs, brings) = whole in
      record {
        limited = [];
        unlimited = rs;
        limited_source =
            rw (limited, make_query)
              (rows-Brings indexes analyzed.table table_rows store serves typed []
                (λ row m. absurd (not-nil m)));
        unlimited_source = brings;
        same = refl;
      }

  make_query-limited :
      (n : ℕ) (handed : Option ℕ)
      → plan.limit ≡ some (suc n)
      → analyzed.candidate_limit ≡ handed
      → make_query store plan analyzed
        ≡ source_query store analyzed.table analyzed.reverses_index_order handed analyzed.access
  unfolding make_query
  make_query-limited n handed limited is =
      ap
        (λ (limit : Option ℕ).
          if is_zero limit
          then from_rows [] (length analyzed.table.schema)
          else rest analyzed.candidate_limit)
        limited
      ∙ ap
          (λ (stops : Bool).
            if stops
            then from_rows [] (length analyzed.table.schema)
            else rest analyzed.candidate_limit)
          positive
      ∙ ap rest is
    where
      rest : Option ℕ → Result Query
      rest limit =
          source_query store analyzed.table analyzed.reverses_index_order limit analyzed.access

      positive : (suc n == 0) ≡ false
      positive = ground arith

  -- A limit that is not handed down.
  kept-Pair :
      (n : ℕ)
      → plan.limit ≡ some (suc n)
      → analyzed.candidate_limit ≡ none
      → Pair (suc n) plan analyzed store
  unfolding make_query
  kept-Pair n limited none_handed =
      let (rs, brings) = whole in
      record {
        limited = rs;
        unlimited = rs;
        limited_source =
            subst (Brings (length analyzed.table.schema) rs)
              (sym (make_query-limited n none limited none_handed)) brings;
        unlimited_source = brings;
        same = refl;
      }

  -- A limit that is handed down to the access.
  handed-Pair :
      (n : ℕ) (access : IndexAccess)
      → plan.limit ≡ some (suc n)
      → analyzed.candidate_limit ≡ some (suc n)
      → analyzed.access ≡ some access
      → access.empty ≡ false
      → access.covered_predicates ≡ length plan.predicates
      → analyzed.order ≡ none
      → Pair (suc n) plan analyzed store
  unfolding make_query source_query
  handed-Pair n access limited handed is nonempty covered unordered =
      let chosen' = chosen ∙ ap ok is in
      let l =
        access-Limits indexes analyzed.table table_rows store serves typed plan.predicates
          plan.order access analyzed.reverses_index_order distinct chosen' nonempty in
      let all_true : (row : TableRow) → Memᴰ row l.found → AllTrue analyzed.predicates row =
        λ row m.
          let (there, (v, value, admits)) = l.admitted row m in
          (each-AllTrue analyzed.table.schema plan.predicates analyzed.predicates row
              a.predicates).1
            (choose_index-Covers indexes analyzed.table plan.predicates plan.order access row v
              distinct chosen' covered value admits) in
      let whole_kept = keep_all-id analyzed.predicates l.found all_true in
      let first_kept =
        keep_all-id analyzed.predicates (take (suc n) l.found)
          (λ row m. all_true row (take-Memᴰ (suc n) l.found row m)) in
      record {
        limited = take (suc n) l.found;
        unlimited = l.found;
        limited_source =
            subst (Brings (length analyzed.table.schema) (take (suc n) l.found))
              (sym (
                make_query-limited n (some (suc n)) limited handed
                ∙ ap
                    (source_query store analyzed.table analyzed.reverses_index_order (some (suc n)))
                    is))
              (l.first (suc n));
        unlimited_source =
            subst (Brings (length analyzed.table.schema) l.found)
              (sym (ap (source_query store analyzed.table analyzed.reverses_index_order none) is))
              l.whole;
        same =
            ap
              (λ o.
                take (suc n)
                  (answer_of analyzed.predicates o analyzed.projection (take (suc n) l.found)))
              unordered
            ∙ ap (λ rs. take (suc n) (map (projected analyzed.projection) rs)) first_kept
            ∙ take-map-take (projected analyzed.projection) (suc n) l.found
            ∙ ap (λ rs. take (suc n) (map (projected analyzed.projection) rs)) (sym whole_kept)
            ∙ ap (λ o. take (suc n) (answer_of analyzed.predicates o analyzed.projection l.found))
                (sym unordered);
      }

  limit-Pair : (n : ℕ) → plan.limit ≡ some n → Pair n plan analyzed store
  limit-Pair zero limited = zero-Pair limited
  limit-Pair (suc n) limited = elim (Option-cases analyzed.candidate_limit) [
    | inl none_handed ↦ kept-Pair n limited none_handed
    | inr (m, handed) ↦
        let (access, is, nonempty, unsorted, covered, same) =
          candidate_limit_of-some plan analyzed.access (sorts_rows_of plan.order analyzed.access)
            (suc n) m limited (sym a.limited ∙ handed) in
        handed-Pair n access limited (handed ∙ ap some same) is nonempty covered (
          a.ordered
          ∙ unsorted-order analyzed.table.schema plan.order analyzed.access a.less a.bound_order
              unsorted)
  ]

bound_of : SelectPlan → AnalyzedSelect → Query → BoundSelect
bound_of plan analyzed query = record {
  query = limit_if plan.limit query;
  output_schema = analyzed.output_schema;
  access_path = path_of analyzed.access;
  index_name = name_of analyzed.access;
}

-- A plan whose source brings rows is bound to a query of the rows that its operators make of them.
bind_select-answer_of :
    (store : TableStore) (catalog : Catalog) (plan : SelectPlan) (analyzed : AnalyzedSelect)
    (rs : List TableRow)
    → analyze_select catalog plan ≡ ok analyzed
    → ProjectionFits (length analyzed.table.schema) analyzed.projection
    → Brings (length analyzed.table.schema) rs (make_query store plan analyzed)
    → (query : Query) × (bind_select store catalog plan ≡ ok (bound_of plan analyzed query))
      × (denote query.root
          ≡ (answer_of analyzed.predicates analyzed.order analyzed.projection rs, none))
unfolding bind_select bound_of
bind_select-answer_of store catalog plan analyzed rs analyzes fits b =
    let (query, returned, rows_of) =
      operators-answer_of analyzed.predicates analyzed.order analyzed.projection b.query rs
        (λ q. ok (bound_of plan analyzed q))
        (subst (λ (n : ℕ). ProjectionFits n analyzed.projection) (sym b.columns) fits) b.denoted in
    (
      query,
      ap (λ (r : Result AnalyzedSelect). r >>= λ s. make_query store plan s >>= rest s) analyzes
          ∙ ap (λ (r : Result Query). r >>= rest analyzed) b.returned
          ∙ returned,
      rows_of,
    )
  where
    rest : AnalyzedSelect → Query → Result BoundSelect
    rest s source = filter_all s.predicates source >>= λ filtered.
        sort_if s.order filtered >>= λ o. project_if s.projection o >>= λ q. ok (bound_of plan s q)

-- A plan with a limit that was analysed is bound, as is the plan without the limit, and the query with the limit returns the
-- first rows of the query without it, as many as the limit says, also where the limit is handed down to an index. The
-- catalog's indexes have distinct names, the table store serves the table's rows, and these are as wide as the schema, with
-- integers of 64 bits.
pub bind_select-limit :
    (tables : TableStore) (catalog : Catalog) (plan : SelectPlan) (analyzed : AnalyzedSelect)
    (indexes : List IndexDefinition) (table_rows : List TableRow) (n : ℕ)
    → analyze_select catalog plan ≡ ok analyzed
    → plan.limit ≡ some n
    → catalog.list_indexes ≡ ok indexes
    → Distinct indexes
    → Serves indexes analyzed.table table_rows tables
    → ((row : TableRow) → Memᴰ row table_rows → IsTableRow indexes analyzed.table table_rows row)
    → (bound : BoundSelect) × (unlimited : BoundSelect) × (bind_select tables catalog plan
        ≡ ok bound)
      × (bind_select tables catalog (without_limit plan) ≡ ok unlimited)
      × (denote bound.query.root ≡ limit_rows n (denote unlimited.query.root))
unfolding bound_of limit_if add_limit denote bind_columns
bind_select-limit tables catalog plan analyzed indexes table_rows n analyzes limited listed distinct
      serves typed =
    let a = analyze_select-Analysis catalog plan analyzed analyzes in
    let p =
      limit-Pair tables catalog plan analyzed indexes table_rows distinct serves typed a
        (ok-injective (sym a.listed_indexes ∙ listed)) n limited in
    let fits =
      bind_columns-ProjectionFits analyzed.table.schema plan analyzed.output_schema
        analyzed.projection a.columns in
    let (query, returned, rows_of) =
      bind_select-answer_of tables catalog plan analyzed p.limited analyzes fits p.limited_source in
    let (query', returned', rows_of') =
      bind_select-answer_of tables catalog (without_limit plan) (without_candidate_limit analyzed)
        p.unlimited (unlimited_analysis a) fits p.unlimited_source in
    (
      bound_of plan analyzed query,
      bound_of (without_limit plan) (without_candidate_limit analyzed) query',
      returned,
      returned',
      limited_root query
          ∙ ap (limit_rows n) rows_of
          ∙ limit_rows-take n _
          ∙ ap (λ rs. (rs, none)) p.same
          ∙ sym (limit_rows-take n _)
          ∙ ap (limit_rows n) (sym rows_of'),
    )
  where
    limited_root :
        (query : Query) → denote (limit_if plan.limit query).root ≡ limit_rows n (denote query.root)
    limited_root query = ap (λ (limit : Option ℕ). denote (limit_if limit query).root) limited

    unlimited_analysis :
        Analysis catalog plan analyzed
        → analyze_select catalog (without_limit plan) ≡ ok (without_candidate_limit analyzed)
    unlimited_analysis a =
        Analysis-analyze_select catalog (without_limit plan) (without_candidate_limit analyzed)
          (record {
            formed = a.formed;
            tables = a.tables;
            listed = a.listed;
            resolved = a.resolved;
            predicates = a.predicates;
            less = a.less;
            ordered = a.ordered;
            bound_order = a.bound_order;
            columns = a.columns;
            indexes = a.indexes;
            listed_indexes = a.listed_indexes;
            chosen = a.chosen;
            sorts = a.sorts;
            reverses = a.reverses;
            limited = sym (
                candidate_limit_of-none (without_limit plan) analyzed.access
                  (sorts_rows_of plan.order analyzed.access) refl);
          })
