-- ===== src/SqlParser/Ast.antt =====
-- include/pageforge/sql_parser.hpp: the logical plan that the parser returns.
use pageforge.Prelude.{ℕ, Bool, List, Option}
use pageforge.Bytes.{Bytes}
use pageforge.Tuple.{Value}

-- The two variants `SqlLiteral` and `Value` are one type.
abbrev pub SqlLiteral : Type 0
SqlLiteral = Value

pub data SqlComparison : Type 0 where
  equal not_equal less less_equal greater greater_equal : SqlComparison

pub data SqlPredicateKind : Type 0 where
  comparison is_null is_not_null : SqlPredicateKind

pub record SqlPredicate : Type 0 where
  pub column : Bytes
  pub kind : SqlPredicateKind
  pub comparison : SqlComparison
  pub literal : SqlLiteral

pub record SqlOrder : Type 0 where
  pub column : Bytes
  pub descending : Bool

pub record SelectPlan : Type 0 where
  pub table : Bytes
  pub select_all : Bool
  pub columns : List Bytes
  pub predicates : List SqlPredicate
  pub order : Option SqlOrder
  pub limit : Option ℕ

pub data SqlStatement : Type 0 where
  select : SelectPlan → SqlStatement
  explain : SelectPlan → SqlStatement
