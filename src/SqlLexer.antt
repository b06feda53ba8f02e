-- ===== src/SqlLexer.antt =====
-- include/pageforge/sql_lexer.hpp and src/sql_lexer.cpp: SQL text to tokens.
-- The lexer's state keeps what is left of the source from `offset_` on in `rest`, and the byte before it
-- in `last` (0 at the start), which is all that the class reads of the source.
-- A loop that advances through the source has the number of bytes left for its fuel: at zero it
-- stands at the end.
pub mod Steps
pub mod Progress
use pageforge.Prelude.{
  ℕ, zero, suc, ◌+◌, ◌-◌, Bool, true, false, not, ◌&&◌, ◌||◌, List, [], ◌∷◌, ◌++◌, length, take,
  Option, none, some, leb, ◌==◌, if◌then◌else◌, Result, ok, err, ◌>>=◌, sql_lex_error, logic_error,
}
use pageforge.Bytes.{Bytes}

pub data SqlTokenKind : Type 0 where
  identifier integer string comma dot left_paren right_paren star semicolon : SqlTokenKind
  plus minus equal not_equal less less_equal greater greater_equal end : SqlTokenKind

pub record SqlToken : Type 0 where
  pub kind : SqlTokenKind
  pub text : Bytes
  pub offset : ℕ
  pub line : ℕ
  pub column : ℕ

pub record Lexer : Type 0 where
  pub rest : Bytes
  pub last : ℕ
  pub offset : ℕ
  pub line : ℕ
  pub column : ℕ

unfoldable pub is_letter : ℕ → Bool
is_letter c = (leb b'a' c && leb c b'z') || (leb b'A' c && leb c b'Z') || c == b'_'

unfoldable pub is_digit : ℕ → Bool
is_digit c = leb b'0' c && leb c b'9'

-- Space, tab, line feed, carriage return, form feed.
unfoldable pub is_space : ℕ → Bool
is_space c = c == 32 || c == 9 || c == 10 || c == 13 || c == 12

unfoldable pub is_word : ℕ → Bool
unfolding is_letter is_digit
is_word c = is_letter c || is_digit c

abbrev pub is_empty : Bytes → Bool
is_empty [] = true
is_empty (c ∷ cs) = false

abbrev pub at_end : Lexer → Bool
at_end s = is_empty s.rest

abbrev pub head_or_nul : Bytes → ℕ
head_or_nul [] = 0
head_or_nul (c ∷ cs) = c

abbrev pub tail : Bytes → Bytes
tail [] = []
tail (c ∷ cs) = cs

-- `peek()` and `peek(1)`
abbrev pub peek : Lexer → ℕ
peek s = head_or_nul s.rest

abbrev pub peek1 : Lexer → ℕ
peek1 s = head_or_nul (tail s.rest)

-- `line_` and `column_` behind a byte: a line feed behind a carriage return is no line of its own.
unfoldable pub next_line : ℕ → ℕ → ℕ → ℕ
next_line last value line =
    if value == 13
    then line + 1
    else if value == 10
    then (if last == 13 then line else line + 1)
    else line

unfoldable pub next_column : ℕ → ℕ → ℕ
next_column value column = if value == 13 then 1 else if value == 10 then 1 else column + 1

unfoldable pub advance : Lexer → Lexer
unfolding next_line next_column
advance s = record {
  rest = tail s.rest;
  last = peek s;
  offset = s.offset + 1;
  line = next_line s.last (peek s) s.line;
  column = next_column (peek s) s.column;
}

abbrev pub token : SqlTokenKind → Lexer → Bytes → SqlToken
token kind start text = record {
  kind = kind;
  text = text;
  offset = start.offset;
  line = start.line;
  column = start.column;
}

-- `while (!at_end() && more(peek())) advance();`
unfoldable pub advance_while : ℕ → (ℕ → Bool) → Lexer → Lexer
advance_while zero more s = s
advance_while (suc fuel) more s = elim (not (at_end s) && more (peek s)) [
  | true ↦ advance_while fuel more (advance s)
  | false ↦ s
]

abbrev pub not_line_end : ℕ → Bool
not_line_end c = not (c == 10) && not (c == 13)

-- The inner loop of a block comment: the state behind `*/`, or `none` at the end of the source.
unfoldable pub skip_block : ℕ → Lexer → Option Lexer
skip_block zero s = none
skip_block (suc fuel) s = elim (at_end s) [
  | true ↦ none
  | false ↦ elim (peek s == b'*' && peek1 s == b'/') [
    | true ↦ some (advance (advance s))
    | false ↦ skip_block fuel (advance s)
  ]
]

abbrev pub close_comment : Lexer → Option Lexer → Result Lexer
close_comment start none = err (sql_lex_error start.line start.column)
close_comment start (some s) = ok s

-- One round of the loop in `skip_ignored`, when it does not return: a space, or a comment.
unfoldable pub skip_one : Lexer → Option (Result Lexer)
unfolding is_space advance advance_while skip_block
skip_one s =
    if is_space (peek s)
    then some (ok (advance s))
    else if peek s == b'-' && peek1 s == b'-'
    then some (ok (advance_while (length s.rest) not_line_end (advance (advance s))))
    else if peek s == b'/' && peek1 s == b'*'
    then some (close_comment s (skip_block (length s.rest) (advance (advance s))))
    else none

unfoldable pub skip_ignored : ℕ → Lexer → Result Lexer
unfolding skip_one
skip_ignored zero s = ok s
skip_ignored (suc fuel) s = elim (at_end s) [
  | true ↦ ok s
  | false ↦ elim (skip_one s) [
    | none ↦ ok s
    | some (ok s') ↦ skip_ignored fuel s'
    | some (err e) ↦ err e
  ]
]

-- `source_.substr(start.offset, offset_ - start.offset)`
abbrev pub since : Lexer → Lexer → Bytes
since start s = take (s.offset - start.offset) start.rest

unfoldable pub lex_identifier : Lexer → SqlToken × Lexer
unfolding advance_while is_word
lex_identifier start =
    let s = advance_while (length start.rest) is_word start in
    (token identifier start (since start s), s)

unfoldable pub lex_integer : Lexer → SqlToken × Lexer
unfolding advance_while is_digit
lex_integer start =
    let s = advance_while (length start.rest) is_digit start in
    (token integer start (since start s), s)

-- The loop of `string_literal`, behind the opening apostrophe.
unfoldable pub lex_string : ℕ → Lexer → Bytes → Lexer → Result (SqlToken × Lexer)
unfolding advance
lex_string zero start decoded s = err (sql_lex_error start.line start.column)
lex_string (suc fuel) start decoded s =
    let s' = advance s in
    let doubled = lex_string fuel start (decoded ++ b'\'' ∷ []) (advance s') in
    let plain = lex_string fuel start (decoded ++ peek s ∷ []) s' in
    if at_end s
    then err (sql_lex_error start.line start.column)
    else if peek s == b'\''
    then (if peek s' == b'\'' then doubled else ok (token string start decoded, s'))
    else if peek s == 0
    then err (sql_lex_error s.line s.column)
    else plain

unfoldable pub string_literal : Lexer → Result (SqlToken × Lexer)
unfolding lex_string
string_literal start = lex_string (length start.rest) start [] (advance start)

-- The lambda `one`, and a token of two characters.
abbrev pub one : Lexer → SqlTokenKind → Result (SqlToken × Lexer)
one start kind = ok (token kind start (peek start ∷ []), advance start)

abbrev pub two : Lexer → SqlTokenKind → Result (SqlToken × Lexer)
two start kind =
    ok (token kind start (peek start ∷ peek (advance start) ∷ []), advance (advance start))

unfoldable pub symbol : Lexer → Result (SqlToken × Lexer)
unfolding advance
symbol start =
    let value = peek start in
    let after = peek (advance start) in
    if value == b','
    then one start comma
    else if value == b'.'
    then one start dot
    else if value == b'('
    then one start left_paren
    else if value == b')'
    then one start right_paren
    else if value == b'*'
    then one start star
    else if value == b';'
    then one start semicolon
    else if value == b'+'
    then one start plus
    else if value == b'-'
    then one start minus
    else if value == b'='
    then one start equal
    else if value == b'<'
    then (if after == b'='
        then two start less_equal
        else if after == b'>'
        then two start not_equal
        else one start less)
    else if value == b'>'
    then (if after == b'=' then two start greater_equal else one start greater)
    else if value == b'!' && after == b'='
    then two start not_equal
    else err (sql_lex_error start.line start.column)

unfoldable pub next_token : Lexer → Result (SqlToken × Lexer)
unfolding is_letter is_digit lex_identifier lex_integer string_literal symbol
next_token s =
    if is_letter (peek s)
    then ok (lex_identifier s)
    else if is_digit (peek s)
    then ok (lex_integer s)
    else if peek s == b'\''
    then string_literal s
    else symbol s

-- `Lexer::run`: the tokens from here on, the end token last. Running out of fuel is the
-- `logic_error`, which the source has none of.
unfoldable pub run : ℕ → Lexer → Result (List SqlToken)
unfolding skip_ignored next_token
run zero s = err logic_error
run (suc fuel) s = do
  s' ← skip_ignored (length s.rest) s
  elim (at_end s') [
    | true ↦ ok (token end s' [] ∷ [])
    | false ↦ do (t, s'') ← next_token s'; ts ← run fuel s''; ok (t ∷ ts)
  ]

abbrev pub start : Bytes → Lexer
start source = record { rest = source; last = 0; offset = 0; line = 1; column = 1 }

unfoldable pub lex_sql : Bytes → Result (List SqlToken)
unfolding run
lex_sql source = run (suc (length source)) (start source)
