-- ===== src/Tests/Sql.antt =====
-- A statement through the lexer and the parser.
use pageforge.Prelude.{◌≡◌, refl, true, [], ◌∷◌, length, none, ok}
use pageforge.Prelude.Int.{pos}
use pageforge.Bytes.{Bytes}
use pageforge.Tuple.{Value}
use pageforge.SqlLexer.{lex_sql}
use pageforge.SqlLexer.Steps.{LexResult}
use pageforge.SqlLexer.Progress.{IsTokenStream, lex_sql-LexResult}
use pageforge.SqlParser.Ast.{SqlStatement, SqlPredicateKind, SqlComparison}
use pageforge.SqlParser.{parse_sql_statement, parse_select}
use pageforge.SqlParser.Bounds.Statements.{IsSqlResult, parse_sql_statement-IsSqlResult}

-- "select * from t where a >= 7"
abbrev source : Bytes
source =
    115 ∷ 101 ∷ 108 ∷ 101 ∷ 99 ∷ 116 ∷ 32 ∷ 42 ∷ 32 ∷ 102 ∷ 114 ∷ 111 ∷ 109 ∷ 32 ∷ 116 ∷ 32 ∷ 119
    ∷ 104 ∷ 101 ∷ 114 ∷ 101 ∷ 32 ∷ 97 ∷ 32 ∷ 62 ∷ 61 ∷ 32 ∷ 55 ∷ []

parse_source_text :
    parse_sql_statement source
    ≡ ok (
        SqlStatement.select (record {
          table = 116 ∷ [];
          select_all = true;
          columns = [];
          predicates =
              record {
                column = 97 ∷ [];
                kind = SqlPredicateKind.comparison;
                comparison = SqlComparison.greater_equal;
                literal = Value.integer (pos 7);
              }
              ∷ [];
          order = none;
          limit = none;
        }))
unfolding parse_sql_statement lex_sql
parse_source_text = refl

lex_sql-LexResult_example : LexResult (IsTokenStream (length source) 0) (lex_sql source)
lex_sql-LexResult_example = lex_sql-LexResult source

parse_sql_statement-IsSqlResult_example :
    IsSqlResult (parse_sql_statement source) × IsSqlResult (parse_select source)
parse_sql_statement-IsSqlResult_example = parse_sql_statement-IsSqlResult source
