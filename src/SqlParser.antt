-- ===== src/SqlParser.antt =====
-- include/pageforge/sql_parser.hpp and src/sql_parser.cpp: tokens to a logical plan. `Ast` has the plan,
-- `Tokens` and `Literals` the member functions of `Parser` that read tokens and literals, and this file
-- the clauses of a statement.
-- A member function that moves `index_` is a function of the tokens from `index_` on, and returns those
-- behind it.
pub mod Ast
pub mod Tokens
pub mod Literals
pub mod Bounds
use pageforge.Prelude.{
  ℕ, zero, suc, Bool, true, false, not, List, [], ◌∷◌, length, Option, none, some, if◌then◌else◌,
  Result, ok, err, out_of_range,
}
use pageforge.Bytes.{Bytes}
use pageforge.Tuple.{Value}
use pageforge.SqlLexer.{comma, star, semicolon, end, lex_sql}
use Ast.{SqlPredicateKind, SqlComparison, SqlPredicate, SqlOrder, SelectPlan, SqlStatement}
use Tokens.{
  Parser, ◌>>=◌, ◌>>◌, return, fail_at, current, match, match_keyword, expect_keyword,
  expect_identifier, is_kind, codes,
}
use Literals.{parse_comparison, parse_literal, parse_limit}

-- `SqlPredicate predicate;` has the kind and the comparison of the declaration's initialisers.
abbrev pub null_test : Bytes → SqlPredicateKind → SqlPredicate
null_test column kind = record {
  column = column;
  kind = kind;
  comparison = SqlComparison.equal;
  literal = Value.null;
}

unfoldable pub parse_predicate : Parser SqlPredicate
unfolding expect_identifier match_keyword expect_keyword parse_comparison parse_literal
parse_predicate = do
  column ← expect_identifier
  null ← match_keyword (codes "IS")
  if null
      then (do
        negated ← match_keyword (codes "NOT")
        expect_keyword (codes "NULL")
        return (
            null_test column
              (if negated then SqlPredicateKind.is_not_null else SqlPredicateKind.is_null)))
      else (do
        comparison ← parse_comparison
        literal ← parse_literal
        return (record {
          column = column;
          kind = SqlPredicateKind.comparison;
          comparison = comparison;
          literal = literal;
        }))

-- `while (match(Comma)) columns.push_back(...)`. The fuel is the number of tokens left: with none,
-- the test of the loop throws.
unfoldable pub more_columns : ℕ → Parser (List Bytes)
unfolding match expect_identifier
more_columns zero = λ ts. err out_of_range
more_columns (suc fuel) = do
  found ← match comma
  elim found [
    | true ↦ do column ← expect_identifier; columns ← more_columns fuel; return (column ∷ columns)
    | false ↦ return []
  ]

unfoldable pub more_predicates : ℕ → Parser (List SqlPredicate)
unfolding match_keyword parse_predicate
more_predicates zero = λ ts. err out_of_range
more_predicates (suc fuel) = do
  found ← match_keyword (codes "AND")
  elim found [
    | true ↦ do
      predicate ← parse_predicate
      predicates ← more_predicates fuel
      return (predicate ∷ predicates)
    | false ↦ return []
  ]

-- A loop with the tokens left for fuel.
abbrev pub with_fuel : {A : Type 0} → (ℕ → Parser A) → Parser A
with_fuel loop ts = loop (length ts) ts

-- `*`, or the columns.
unfoldable pub parse_columns : Parser (Bool × List Bytes)
unfolding match expect_identifier more_columns
parse_columns = do
  all ← match star
  if all then return (true, []) else (do
    column ← expect_identifier
    columns ← with_fuel more_columns
    return (false, column ∷ columns))

unfoldable pub parse_where : Parser (List SqlPredicate)
unfolding match_keyword parse_predicate more_predicates
parse_where = do
  found ← match_keyword (codes "WHERE")
  if found
      then (do
        predicate ← parse_predicate
        predicates ← with_fuel more_predicates
        return (predicate ∷ predicates))
      else return []

unfoldable pub parse_direction : Parser Bool
unfolding match_keyword
parse_direction = do
  descending ← match_keyword (codes "DESC")
  if descending then return true else (do ascending ← match_keyword (codes "ASC"); return false)

unfoldable pub parse_order : Parser (Option SqlOrder)
unfolding match_keyword expect_keyword expect_identifier parse_direction
parse_order = do
  found ← match_keyword (codes "ORDER")
  if found
      then (do
        expect_keyword (codes "BY")
        column ← expect_identifier
        descending ← parse_direction
        return (some (record { column = column; descending = descending })))
      else return none

unfoldable pub parse_limit_clause : Parser (Option ℕ)
unfolding match_keyword parse_limit
parse_limit_clause = do
  found ← match_keyword (codes "LIMIT")
  if found then (do v ← parse_limit; return (some v)) else return none

-- The optional semicolon, and the end of the statement.
unfoldable pub parse_end : Parser (Unit {0})
unfolding match current
parse_end = do
  semi ← match semicolon
  t ← current
  if not (is_kind end t) then fail_at t else return tt

unfoldable pub parse_select_statement : Parser SelectPlan
unfolding expect_keyword parse_columns expect_identifier parse_where parse_order parse_limit_clause
    parse_end
parse_select_statement = do
  expect_keyword (codes "SELECT")
  selected ← parse_columns
  expect_keyword (codes "FROM")
  table ← expect_identifier
  predicates ← parse_where
  order ← parse_order
  limit ← parse_limit_clause
  parse_end
  return (record {
    table = table;
    select_all = selected.0;
    columns = selected.1;
    predicates = predicates;
    order = order;
    limit = limit;
  })

unfoldable pub parse_statement : Parser SqlStatement
unfolding match_keyword parse_select_statement
parse_statement = do
  explained ← match_keyword (codes "EXPLAIN")
  plan ← parse_select_statement
  return (if explained then SqlStatement.explain plan else SqlStatement.select plan)

-- A parse from the first token, and the value of its result.
unfoldable pub parse_source : {A : Type 0} → Parser A → Bytes → Result A
parse_source p source = elim (lex_sql source) [
  | err e ↦ err e
  | ok ts ↦ elim (p ts) [ err e ↦ err e | ok (a, rest) ↦ ok a ]
]

unfoldable pub parse_select : Bytes → Result SelectPlan
unfolding parse_source parse_select_statement
parse_select = parse_source parse_select_statement

unfoldable pub parse_sql_statement : Bytes → Result SqlStatement
unfolding parse_source parse_statement
parse_sql_statement = parse_source parse_statement
