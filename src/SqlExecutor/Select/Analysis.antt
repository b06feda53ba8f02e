-- ===== src/SqlExecutor/Select/Analysis.antt =====
-- What an analysis that returned went through.
use mathlib.Core.Path.{subst}
use pageforge.Prelude.{
  ℕ, Bool, false, ◌≡◌, refl, sym, List, [], ◌∷◌, Option, none, All, if◌then◌else◌, Result, ok,
  >>=-eq-ok, ok-injective, throw_if, throw_if-eq-ok, sql_bind_error,
}
use pageforge.Tuple.{Schema}
use pageforge.Query.{TableRow, RowPredicate, RowLess}
use pageforge.Query.Members.{AllTrue}
use pageforge.SqlParser.Ast.{SqlPredicate, SelectPlan}
use pageforge.Catalog.{TableDefinition, IndexDefinition}
use pageforge.SqlExecutor.Binding.{resolve_table, bind_predicate}
use pageforge.SqlExecutor.Access.{choose_index}
use pageforge.SqlExecutor.Access.Rows.{IsTrueOf, Satisfies}
use pageforge.SqlExecutor.Interface.{Catalog}
use pageforge.SqlExecutor.Select.{
  AnalyzedSelect, each, bind_optional_order, bind_columns, resets_order, sorts_rows_of,
  reverses_order, candidate_limit_of, malformed, analyze_select,
}

pub record Analysis (catalog : Catalog) (plan : SelectPlan) (analyzed : AnalyzedSelect)
    : Type 0 where
  pub formed : malformed plan ≡ false
  pub tables : List TableDefinition
  pub listed : catalog.list_tables ≡ ok tables
  pub resolved : resolve_table tables plan.table ≡ ok analyzed.table
  pub predicates :
      each (bind_predicate analyzed.table.schema) plan.predicates ≡ ok analyzed.predicates
  pub less : Option RowLess
  pub ordered : analyzed.order ≡ (if resets_order plan.order analyzed.access then none else less)
  pub bound_order : bind_optional_order analyzed.table.schema plan.order ≡ ok less
  pub columns :
      bind_columns analyzed.table.schema plan ≡ ok (analyzed.output_schema, analyzed.projection)
  pub indexes : List IndexDefinition
  pub listed_indexes : catalog.list_indexes ≡ ok indexes
  pub chosen : choose_index indexes analyzed.table plan.predicates plan.order ≡ ok analyzed.access
  pub sorts : analyzed.sorts_rows ≡ sorts_rows_of plan.order analyzed.access
  pub reverses : analyzed.reverses_index_order ≡ reverses_order plan.order analyzed.access
  pub limited :
      analyzed.candidate_limit
      ≡ candidate_limit_of plan analyzed.access (sorts_rows_of plan.order analyzed.access)

pub analyze_select-Analysis :
    (catalog : Catalog) (plan : SelectPlan) (analyzed : AnalyzedSelect)
    → analyze_select catalog plan ≡ ok analyzed
    → Analysis catalog plan analyzed
unfolding analyze_select
analyze_select-Analysis catalog plan analyzed e =
    let (checked, check, rest) = >>=-eq-ok (throw_if (malformed plan) sql_bind_error) _ e in
    let (tables, listed, rest1) = >>=-eq-ok catalog.list_tables _ rest in
    let (table, resolved, rest2) = >>=-eq-ok (resolve_table tables plan.table) _ rest1 in
    let (predicates, bound, rest3) =
      >>=-eq-ok (each (bind_predicate table.schema) plan.predicates) _ rest2 in
    let (order, ordered, rest4) = >>=-eq-ok (bind_optional_order table.schema plan.order) _ rest3 in
    let ((output_schema, projection), columns, rest5) =
      >>=-eq-ok (bind_columns table.schema plan) _ rest4 in
    let (indexes, listed_indexes, rest6) = >>=-eq-ok catalog.list_indexes _ rest5 in
    let (access, chosen, done) =
      >>=-eq-ok (choose_index indexes table plan.predicates plan.order) _ rest6 in
    subst (Analysis catalog plan) (ok-injective done) (record {
      formed = throw_if-eq-ok _ _ check;
      tables = tables;
      listed = listed;
      resolved = resolved;
      predicates = bound;
      less = order;
      ordered = refl;
      bound_order = ordered;
      columns = columns;
      indexes = indexes;
      listed_indexes = listed_indexes;
      chosen = chosen;
      sorts = refl;
      reverses = refl;
      limited = refl;
    })

pub Analysis-analyze_select :
    (catalog : Catalog) (plan : SelectPlan) (analyzed : AnalyzedSelect)
    → Analysis catalog plan analyzed
    → analyze_select catalog plan ≡ ok analyzed
unfolding analyze_select
Analysis-analyze_select catalog plan analyzed a =
    rw
      (
        a.formed, a.listed, a.resolved, a.predicates, a.bound_order, a.columns, a.listed_indexes,
        a.chosen,
      )
      (settled (sym a.ordered) (sym a.sorts) (sym a.reverses) (sym a.limited))
  where
    settled :
        {order : Option RowLess} {sorts reverses : Bool} {limit : Option ℕ}
        → order ≡ analyzed.order
        → sorts ≡ analyzed.sorts_rows
        → reverses ≡ analyzed.reverses_index_order
        → limit ≡ analyzed.candidate_limit
        → ok (record analyzed {
          order = order;
          sorts_rows = sorts;
          reverses_index_order = reverses;
          candidate_limit = limit;
        })
          ≡ ok analyzed
    settled o s r l = cc

-- The bound predicates are true of the rows that satisfy the plan's predicates, and of no others.
pub each-AllTrue :
    (schema : Schema) (predicates : List SqlPredicate) (bound : List RowPredicate) (row : TableRow)
    → each (bind_predicate schema) predicates ≡ ok bound
    → (AllTrue bound row → All (Satisfies schema row) predicates)
      × (All (Satisfies schema row) predicates → AllTrue bound row)
unfolding each
each-AllTrue schema [] bound row e =
    ((λ h. tt), λ h. subst (λ (ps : List RowPredicate). AllTrue ps row) (ok-injective e) tt)
each-AllTrue schema (predicate ∷ predicates) bound row e =
    let (p, first, rest) = >>=-eq-ok (bind_predicate schema predicate) _ e in
    let (ps, others, done) = >>=-eq-ok (each (bind_predicate schema) predicates) _ rest in
    let (there, back) = each-AllTrue schema predicates ps row others in
    (
      (λ h.
          let h' = subst (λ (qs : List RowPredicate). AllTrue qs row) (sym (ok-injective done)) h in
          (subst (λ (r : Result RowPredicate). IsTrueOf r row) (sym first) h'.0, there h'.1)),
      λ h.
          subst (λ (qs : List RowPredicate). AllTrue qs row) (ok-injective done)
            (subst (λ (r : Result RowPredicate). IsTrueOf r row) first h.0, back h.1),
    )
