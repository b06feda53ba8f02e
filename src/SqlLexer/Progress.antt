-- ===== src/SqlLexer/Progress.antt =====
-- The lexer always returns: every round of `run` consumes a byte, so that the fuel suffices, and
-- positions are counted from one.
use pageforge.Prelude.{
  ℕ, zero, suc, ◌+◌, ◌≤◌, ◌<◌, ◌≡◌, ◌≢◌, refl, inl, inr, arith, Bool, true, false, ◌&&◌, List, [],
  ◌∷◌, ◌++◌, length, Result, ok, err, ◌==◌, Bool-cases, ◌>>=◌,
}
use pageforge.Bytes.{Bytes}
use pageforge.SqlLexer.{
  SqlTokenKind, SqlToken, Lexer, at_end, peek, tail, advance, advance_while, skip_ignored,
  lex_identifier, lex_integer, lex_string, string_literal, symbol, next_token, run, start, lex_sql,
  is_word, is_digit, is_letter, one, two, comma, dot, left_paren, right_paren, star, semicolon,
  plus, minus, equal, not_equal, less, less_equal, greater, greater_equal, end,
}
use pageforge.SqlLexer.Steps.{
  At, length-tail, Moves, advance-Moves, advance_while-Moves, inside_of_nonzero, Consumes,
  advance-Consumes, Consumes-Moves, LexResult, LexResult-err, LexResult-if, skip_ignored-LexResult,
}

-- A token, and the state behind it.
abbrev Scanned : ℕ → Lexer → SqlToken × Lexer → Type 0
Scanned size s (t, s') = Consumes size s s' × (t.kind ≢ end) × (t.offset ≡ s.offset)

-- `while` consumes the first character, if it passes the test.
advance_while-Consumes :
    (size : ℕ) (more : ℕ → Bool) (s : Lexer)
    → at_end s ≡ false
    → more (peek s) ≡ true
    → At size s
    → Consumes size s (advance_while (length s.rest) more s)
unfolding advance_while
advance_while-Consumes size more s e m h =
    let first = advance-Consumes size s e h in
    rw (length-tail s.rest e, e, m, advance_while)
      (Consumes-Moves size first
        (advance_while-Moves size (length (tail s.rest)) more (advance s) first.at))

lex_string-LexResult :
    (size fuel : ℕ) (start s : Lexer) (decoded : Bytes)
    → At size start
    → Consumes size start s
    → LexResult (Scanned size start) (lex_string fuel start decoded s)
unfolding lex_string
lex_string-LexResult size zero start s decoded h c = (h.line, h.column)
lex_string-LexResult size (suc fuel) start s decoded h c = elim (Bool-cases (at_end s)) [
  | inl done ↦ rw done (h.line, h.column)
  | inr more ↦
      let step = advance-Moves size s more c.at in
      let next = Consumes-Moves size c step in
      elim (Bool-cases (peek s == b'\'')) [
        | inl quote ↦ elim (Bool-cases (peek (advance s) == b'\'')) [
          | inl twice ↦
              let there : at_end (advance s) ≡ false = inside_of_nonzero _ (ground arith) in
              rw (more, quote, twice)
                (lex_string-LexResult size fuel start (advance (advance s)) (decoded ++ b'\'' ∷ [])
                  h (Consumes-Moves size next (advance-Moves size (advance s) there next.at)))
          | inr once ↦ rw (more, quote, once) (next, (λ e. cc), refl)
        ]
        | inr other ↦ elim (Bool-cases (peek s == 0)) [
          | inl nul ↦ rw (more, other, nul) (c.at.line, c.at.column)
          | inr plain ↦
              rw (more, other, plain)
                (lex_string-LexResult size fuel start (advance s) (decoded ++ peek s ∷ []) h next)
        ]
      ]
]

nonzero : (a b : ℕ) → 0 < b → (a == b) ≡ true → a ≢ 0
nonzero a b p e = ground arith

and_right : (a b : Bool) → (a && b) ≡ true → b ≡ true
and_right a b e = ground arith

symbol-LexResult :
    (size : ℕ) (s : Lexer) → at_end s ≡ false → At size s → LexResult (Scanned size s) (symbol s)
unfolding symbol
symbol-LexResult size s e h =
    LexResult-if P (v == b',') _ _ (λ _. single comma (λ e. cc))
      λ _.
        LexResult-if P (v == b'.') _ _ (λ _. single dot (λ e. cc))
          λ _.
            LexResult-if P (v == b'(') _ _ (λ _. single left_paren (λ e. cc))
              λ _.
                LexResult-if P (v == b')') _ _ (λ _. single right_paren (λ e. cc))
                  λ _.
                    LexResult-if P (v == b'*') _ _ (λ _. single star (λ e. cc))
                      λ _.
                        LexResult-if P (v == b';') _ _ (λ _. single semicolon (λ e. cc))
                          λ _.
                            LexResult-if P (v == b'+') _ _ (λ _. single plus (λ e. cc))
                              λ _.
                                LexResult-if P (v == b'-') _ _ (λ _. single minus (λ e. cc))
                                  λ _.
                                    LexResult-if P (v == b'=') _ _ (λ _. single equal (λ e. cc))
                                      λ _.
                                        LexResult-if P (v == b'<') _ _
                                          (λ _.
                                            LexResult-if P (w == b'=') _ _
                                              (λ q.
                                                double less_equal (λ e. cc)
                                                  (nonzero w b'=' (omega arith) q))
                                              λ _.
                                                LexResult-if P (w == b'>') _ _
                                                  (λ q.
                                                    double not_equal (λ e. cc)
                                                      (nonzero w b'>' (omega arith) q))
                                                  λ _. single less (λ e. cc))
                                          λ _.
                                            LexResult-if P (v == b'>') _ _
                                              (λ _.
                                                LexResult-if P (w == b'=') _ _
                                                  (λ q.
                                                    double greater_equal (λ e. cc)
                                                      (nonzero w b'=' (omega arith) q))
                                                  λ _. single greater (λ e. cc))
                                              λ _.
                                                LexResult-if P (v == b'!' && w == b'=') _ _
                                                  (λ q.
                                                    double not_equal (λ e. cc)
                                                      (nonzero w b'=' (omega arith)
                                                        (and_right _ _ q)))
                                                  λ _. (h.line, h.column)
  where
    P : SqlToken × Lexer → Type 0
    P = Scanned size s

    v : ℕ
    v = peek s

    w : ℕ
    w = peek (advance s)

    single : (kind : SqlTokenKind) → kind ≢ end → LexResult P (one s kind)
    single kind n = (advance-Consumes size s e h, n, refl)

    double : (kind : SqlTokenKind) → kind ≢ end → w ≢ 0 → LexResult P (two s kind)
    double kind n there =
        let first = advance-Consumes size s e h in
        (
          Consumes-Moves size first
              (advance-Moves size (advance s) (inside_of_nonzero _ there) first.at),
          n,
          refl,
        )

next_token-LexResult :
    (size : ℕ) (s : Lexer)
    → at_end s ≡ false
    → At size s
    → LexResult (Scanned size s) (next_token s)
unfolding next_token lex_identifier lex_integer string_literal is_word
next_token-LexResult size s e h = elim (Bool-cases (is_letter (peek s))) [
  | inl letter ↦ rw letter (advance_while-Consumes size is_word s e (rw letter) h, (λ e. cc), refl)
  | inr n1 ↦ elim (Bool-cases (is_digit (peek s))) [
    | inl digit ↦ rw (n1, digit) (advance_while-Consumes size is_digit s e digit h, (λ e. cc), refl)
    | inr n2 ↦ elim (Bool-cases (peek s == b'\'')) [
      | inl quote ↦
          rw (n1, n2, quote)
            (lex_string-LexResult size (length s.rest) s (advance s) [] h
              (advance-Consumes size s e h))
      | inr n3 ↦ rw (n1, n2, n3) (symbol-LexResult size s e h)
    ]
  ]
]

-- The tokens of a source of `size` bytes from offset `n` on: in the order of their offsets, with the
-- end token at the end of the source and nowhere else.
pub data IsTokenStream (size : ℕ) : ℕ → List SqlToken → Type 0 where
  last :
      {n : ℕ} {t : SqlToken}
      → n ≤ size
      → t.kind ≡ end
      → t.offset ≡ size
      → IsTokenStream size n (t ∷ [])
  more :
      {n : ℕ} {t : SqlToken} {ts : List SqlToken}
      → n ≤ t.offset
      → t.offset < size
      → t.kind ≢ end
      → IsTokenStream size (t.offset + 1) ts
      → IsTokenStream size n (t ∷ ts)

IsTokenStream-le :
    {size m n : ℕ} {ts : List SqlToken} → n ≤ m → IsTokenStream size m ts → IsTokenStream size n ts
IsTokenStream-le h (last a k o) = last (omega arith) k o
IsTokenStream-le h (more a b k r) = more (omega arith) b k r

-- What `run` returns is that of its parts.
LexResult-bind :
    {A B : Type 0} (P : A → Type 0) (Q : B → Type 0) (r : Result A) (f : A → Result B)
    → LexResult P r
    → ((a : A) → P a → LexResult Q (f a))
    → LexResult Q (r >>= f)
LexResult-bind P Q (ok a) f h k = k a h
LexResult-bind P Q (err x) f h k = LexResult-err P Q x h

run-LexResult :
    (size fuel : ℕ) (s : Lexer)
    → length s.rest < fuel
    → At size s
    → LexResult (IsTokenStream size s.offset) (run fuel s)
unfolding run
run-LexResult size zero s f h = elim f [ ]
run-LexResult size (suc fuel) s f h =
    LexResult-bind (Moves size s) Q (skip_ignored (length s.rest) s) _
      (skip_ignored-LexResult size (length s.rest) s h)
      λ s' m. elim (Bool-cases (at_end s')) [
        | inl done ↦
            let o = m.at.offset in
            let o' = h.offset in
            let z = at_end-length s' done in
            rw done (last (omega (arith, m.less)) refl (omega arith))
        | inr inside ↦ rw inside (
            LexResult-bind (Scanned size s') Q (next_token s') _
              (next_token-LexResult size s' inside m.at)
              λ r c.
                LexResult-bind (IsTokenStream size (r.1).offset) Q (run fuel r.1) _
                  (run-LexResult size fuel r.1 (omega (arith, m.less, c.0.less)) c.0.at)
                  λ ts stream. behind s' r m c ts stream)
      ]
  where
    Q : List SqlToken → Type 0
    Q = IsTokenStream size s.offset

    at_end-length : (t : Lexer) → at_end t ≡ true → length t.rest ≡ 0
    at_end-length t e = ground arith

    behind :
        (s' : Lexer) (r : SqlToken × Lexer)
        → Moves size s s'
        → Scanned size s' r
        → (ts : List SqlToken) → IsTokenStream size (r.1).offset ts
        → Q (r.0 ∷ ts)
    behind s' r m c ts stream =
        let o = h.offset in
        let o' = m.at.offset in
        let o'' = c.0.at.offset in
        more (omega (arith, m.less, c.2)) (omega (arith, c.0.less, c.2)) c.1
          (IsTokenStream-le (omega (arith, c.0.less, c.2)) stream)

-- For every source `lex_sql` returns the tokens in the order of the source with one end token, at the
-- end of the source, or a lexical error at a line and column counted from one.
pub lex_sql-LexResult :
    (source : Bytes) → LexResult (IsTokenStream (length source) 0) (lex_sql source)
unfolding lex_sql
lex_sql-LexResult source =
    run-LexResult (length source) (suc (length source)) (start source) (omega arith)
      (record { offset = omega arith; line = omega arith; column = omega arith })
