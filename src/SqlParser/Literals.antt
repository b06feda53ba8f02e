-- ===== src/SqlParser/Literals.antt =====
-- src/sql_parser.cpp: comparison operators, literals and the limit.
use pageforge.Prelude.{
  ℕ, ◌+◌, ◌-◌, ◌*◌, ◌^◌, Bool, true, false, not, [], ◌∷◌, length, Option, none, some, ltb, ◌==◌,
  if◌then◌else◌,
}
use pageforge.Prelude.Int.{ℤ, pos, negsuc}
use pageforge.Bytes.{Bytes}
use pageforge.Tuple.{Value}
use pageforge.SqlLexer.{SqlTokenKind, integer, string, plus, minus, is_digit}
use pageforge.SqlParser.Ast.{SqlLiteral, SqlComparison}
use pageforge.SqlParser.Tokens.{
  Parser, ◌>>=◌, ◌>>◌, return, fail_at, fail, current, skip, match, is_kind, keyword, codes,
}

-- `std::from_chars` into a 64-bit unsigned integer, where it takes the whole of the text: digits in
-- base ten, at least one, and a value that fits.
unfoldable pub decimal : ℕ → Bytes → Option ℕ
unfolding is_digit
decimal value [] = some value
decimal value (c ∷ cs) =
    let rest = decimal (value * 10 + (c - b'0')) cs in if is_digit c then rest else none

unfoldable pub from_chars : Bytes → Option ℕ
unfolding decimal
from_chars text =
    if length text == 0
    then none
    else elim (decimal 0 text) [ none ↦ none | some v ↦ if ltb v (2 ^ 64) then some v else none ]

-- `kind` of the comparison operators.
unfoldable pub comparison_of : SqlTokenKind → Option SqlComparison
comparison_of SqlTokenKind.equal = some SqlComparison.equal
comparison_of SqlTokenKind.not_equal = some SqlComparison.not_equal
comparison_of SqlTokenKind.less = some SqlComparison.less
comparison_of SqlTokenKind.less_equal = some SqlComparison.less_equal
comparison_of SqlTokenKind.greater = some SqlComparison.greater
comparison_of SqlTokenKind.greater_equal = some SqlComparison.greater_equal
comparison_of _ = none

-- The index moves past the token, and back before the failure.
unfoldable pub parse_comparison : Parser SqlComparison
unfolding current comparison_of skip
parse_comparison = do
  t ← current
  elim (comparison_of t.kind) [ none ↦ fail_at t | some c ↦ do skip; return c ]

abbrev pub maximum : ℕ
maximum = 2 ^ 63 - 1

-- The integer of a magnitude and a sign, if it is an `int64_t`.
unfoldable pub signed_literal : Bool → ℕ → Option ℤ
signed_literal negative magnitude =
    if not negative
    then (if ltb maximum magnitude then none else some (pos magnitude))
    else if ltb (maximum + 1) magnitude
    then none
    else if magnitude == maximum + 1
    then some (negsuc maximum)
    else if magnitude == 0
    then some (pos 0)
    else some (negsuc (magnitude - 1))

-- The sign in front of an integer literal.
unfoldable pub parse_sign : Parser Bool
unfolding match
parse_sign = do positive ← match plus; if positive then return false else match minus

unfoldable pub integer_value : Bool → Bytes → Option ℤ
unfolding from_chars signed_literal
integer_value negative text = elim (from_chars text) [
  | none ↦ none
  | some magnitude ↦ signed_literal negative magnitude
]

unfoldable pub parse_integer : Parser SqlLiteral
unfolding current parse_sign skip fail integer_value
parse_integer = do
  start ← current
  negative ← parse_sign
  t ← current
  if not (is_kind integer t) then fail else do
    skip
    elim (integer_value negative t.text) [
      | none ↦ fail_at start
      | some z ↦ return (Value.integer z)
    ]

unfoldable pub parse_literal : Parser SqlLiteral
unfolding current skip keyword parse_integer
parse_literal = do
  t ← current
  if is_kind string t
      then (do skip; return (Value.text t.text))
      else if keyword t (codes "TRUE")
      then (do skip; return (Value.boolean true))
      else if keyword t (codes "FALSE")
      then (do skip; return (Value.boolean false))
      else if keyword t (codes "NULL")
      then (do skip; return Value.null)
      else parse_integer

unfoldable pub parse_limit : Parser ℕ
unfolding current match from_chars
parse_limit = do
  t ← current
  found ← match integer
  if not found then fail_at t else elim (from_chars t.text) [ none ↦ fail_at t | some v ↦ return v ]
