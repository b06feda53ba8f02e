-- ===== src/SqlParser/Tokens.antt =====
-- src/sql_parser.cpp: `current`, `match`, `expect_*` and `fail`, on the tokens from `index_` on.
-- `tokens_.at(index_)` behind the last token is the `out_of_range` error.
use Prim.Native.Char.{code}
use Prim.Native.String.{String}
use pageforge.Prelude.{
  ℕ, ◌+◌, ◌-◌, Bool, true, false, ◌&&◌, List, [], ◌∷◌, leb, ◌==◌, if◌then◌else◌, Result, ok, err,
  sql_parse_error, out_of_range,
}
use pageforge.Bytes.{Bytes}
use pageforge.SqlLexer.{SqlTokenKind, SqlToken, identifier}

-- The bytes of an ASCII literal.
abbrev pub codes : String → Bytes
codes String.[] = []
codes (String.◌∷◌ c s) = code c ∷ codes s

-- `==` of two token kinds, by their positions in the enumeration.
abbrev pub kind_code : SqlTokenKind → ℕ
kind_code SqlTokenKind.identifier = 0
kind_code SqlTokenKind.integer = 1
kind_code SqlTokenKind.string = 2
kind_code SqlTokenKind.comma = 3
kind_code SqlTokenKind.dot = 4
kind_code SqlTokenKind.left_paren = 5
kind_code SqlTokenKind.right_paren = 6
kind_code SqlTokenKind.star = 7
kind_code SqlTokenKind.semicolon = 8
kind_code SqlTokenKind.plus = 9
kind_code SqlTokenKind.minus = 10
kind_code SqlTokenKind.equal = 11
kind_code SqlTokenKind.not_equal = 12
kind_code SqlTokenKind.less = 13
kind_code SqlTokenKind.less_equal = 14
kind_code SqlTokenKind.greater = 15
kind_code SqlTokenKind.greater_equal = 16
kind_code SqlTokenKind.end = 17

abbrev pub is_kind : SqlTokenKind → SqlToken → Bool
is_kind kind t = kind_code t.kind == kind_code kind

unfoldable pub ascii_lower : ℕ → ℕ
ascii_lower c = if leb b'A' c && leb c b'Z' then c + (b'a' - b'A') else c

-- The sizes and then the characters are compared, in either case.
unfoldable pub equal_lower : Bytes → Bytes → Bool
unfolding ascii_lower
equal_lower [] [] = true
equal_lower [] (d ∷ ds) = false
equal_lower (c ∷ cs) [] = false
equal_lower (c ∷ cs) (d ∷ ds) = ascii_lower c == ascii_lower d && equal_lower cs ds

unfoldable pub keyword : SqlToken → Bytes → Bool
unfolding equal_lower
keyword t expected = is_kind identifier t && equal_lower t.text expected

abbrev pub Parser {ℓ} : Type ℓ → Type ℓ
Parser A = List SqlToken → Result (A × List SqlToken)

infixl 5 ◌>>=◌ ◌>>◌
abbrev pub ◌>>=◌ : {A B : Type 0} → Parser A → (A → Parser B) → Parser B
◌>>=◌ m f ts = elim (m ts) [ ok (a, rest) ↦ f a rest | err e ↦ err e ]

abbrev pub ◌>>◌ : {B : Type 0} → Parser (Unit {0}) → Parser B → Parser B
m >> k = m >>= λ _. k

abbrev pub return : {A : Type 0} → A → Parser A
return a ts = ok (a, ts)

-- `fail(token, message)`
abbrev pub fail_at : {A : Type 0} → SqlToken → Parser A
fail_at t ts = err (sql_parse_error t.line t.column)

unfoldable pub current : Parser SqlToken
current [] = err out_of_range
current (t ∷ ts) = ok (t, t ∷ ts)

-- `fail(current(), message)`
unfoldable pub fail : {A : Type 0} → Parser A
unfolding current
fail = do t ← current; fail_at t

-- `++index_`, behind a look at the current token.
unfoldable pub skip : Parser (Unit {0})
skip [] = err out_of_range
skip (t ∷ ts) = ok (tt, ts)

unfoldable pub match : SqlTokenKind → Parser Bool
unfolding current skip
match kind = do t ← current; if is_kind kind t then (do skip; return true) else return false

unfoldable pub match_keyword : Bytes → Parser Bool
unfolding current skip keyword
match_keyword value = do
  t ← current
  if keyword t value then (do skip; return true) else return false

unfoldable pub expect_keyword : Bytes → Parser (Unit {0})
unfolding match_keyword fail
expect_keyword value = do found ← match_keyword value; if found then return tt else fail

unfoldable pub expect_identifier : Parser Bytes
unfolding current skip fail
expect_identifier = do t ← current; if is_kind identifier t then (do skip; return t.text) else fail
