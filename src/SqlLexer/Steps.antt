-- ===== src/SqlLexer/Steps.antt =====
-- The steps of the lexer move forward in the source, and what is skipped always ends.
use pageforge.Prelude.{
  ℕ, zero, suc, ◌+◌, ◌≤◌, ◌<◌, ◌≡◌, ◌≢◌, refl, inl, inr, arith, Bool, true, false, not, ◌&&◌, [],
  ◌∷◌, length, Option, none, some, Option-cases, Result, ok, err, ◌==◌, if◌then◌else◌, Exception,
  sql_lex_error, Bool-cases,
}
use pageforge.Bytes.{Bytes}
use pageforge.SqlLexer.{
  Lexer, is_empty, at_end, peek, peek1, head_or_nul, tail, advance, advance_while, not_line_end,
  skip_block, skip_one, skip_ignored, is_space, close_comment,
}

-- The lexer stands in a source of `size` bytes.
pub record At (size : ℕ) (s : Lexer) : Type 0 where
  pub offset : s.offset + length s.rest ≡ size
  pub line : 1 ≤ s.line
  pub column : 1 ≤ s.column

pub length-tail : (cs : Bytes) → is_empty cs ≡ false → length cs ≡ suc (length (tail cs))
length-tail [] h = absurd (ground arith)
length-tail (c ∷ cs) h = refl

advance-At : (size : ℕ) (s : Lexer) → at_end s ≡ false → At size s → At size (advance s)
unfolding advance
advance-At size s e h = ground (arith, length-tail s.rest e)

advance-length : (s : Lexer) → at_end s ≡ false → length s.rest ≡ suc (length (advance s).rest)
unfolding advance
advance-length s e = ground (arith, length-tail s.rest e)

-- What a step of the lexer keeps.
pub record Moves (size : ℕ) (s s' : Lexer) : Type 0 where
  pub at : At size s'
  pub less : length s'.rest ≤ length s.rest

Moves-trans : (size : ℕ) {s t u : Lexer} → Moves size s t → Moves size t u → Moves size s u
Moves-trans size a b = record { at = b.at; less = omega (arith, a.less, b.less) }

pub advance-Moves : (size : ℕ) (s : Lexer) → at_end s ≡ false → At size s → Moves size s (advance s)
advance-Moves size s e h = record {
  at = advance-At size s e h;
  less = omega (arith, advance-length s e);
}

pub advance_while-Moves :
    (size fuel : ℕ) (more : ℕ → Bool) (s : Lexer)
    → At size s
    → Moves size s (advance_while fuel more s)
unfolding advance_while
advance_while-Moves size zero more s h = record { at = h; less = omega arith }
advance_while-Moves size (suc fuel) more s h = elim (Bool-cases (not (at_end s) && more (peek s))) [
  | inl e ↦
      let inside : at_end s ≡ false = ground arith in
      let step = advance-Moves size s inside h in
      rw (e, advance_while)
        (Moves-trans size step (advance_while-Moves size fuel more (advance s) step.at))
  | inr e ↦ rw (e, advance_while) (record { at = h; less = omega arith })
]

-- A second character that is not NUL is there.
pub inside_of_nonzero : (cs : Bytes) → head_or_nul cs ≢ 0 → is_empty cs ≡ false
inside_of_nonzero [] h = absurd (h refl)
inside_of_nonzero (c ∷ cs) h = refl

peek1-inside : (s : Lexer) → peek1 s ≢ 0 → at_end (advance s) ≡ false
unfolding advance
peek1-inside s h = inside_of_nonzero (tail s.rest) h

advance_two-Moves :
    (size : ℕ) (s : Lexer)
    → at_end s ≡ false
    → peek1 s ≢ 0
    → At size s
    → Moves size (advance s) (advance (advance s))
advance_two-Moves size s e n h =
    advance-Moves size (advance s) (peek1-inside s n) (advance-At size s e h)

-- A step that consumes at least a byte.
pub record Consumes (size : ℕ) (s s' : Lexer) : Type 0 where
  pub at : At size s'
  pub less : length s'.rest < length s.rest

pub advance-Consumes :
    (size : ℕ) (s : Lexer) → at_end s ≡ false → At size s → Consumes size s (advance s)
advance-Consumes size s e h = record {
  at = advance-At size s e h;
  less = omega (arith, advance-length s e);
}

pub Consumes-Moves :
    (size : ℕ) {s t u : Lexer} → Consumes size s t → Moves size t u → Consumes size s u
Consumes-Moves size a b = record { at = b.at; less = omega (arith, a.less, b.less) }

advance_two-Consumes :
    (size : ℕ) (s : Lexer)
    → at_end s ≡ false
    → peek1 s ≢ 0
    → At size s
    → Consumes size s (advance (advance s))
advance_two-Consumes size s e n h =
    Consumes-Moves size (advance-Consumes size s e h) (advance_two-Moves size s e n h)

-- What a call may return: a value as described, or a lexical error at a position counted from one.
abbrev pub LexResult : {A : Type 0} → (A → Type 0) → Result A → Type 0
LexResult P (ok a) = P a
LexResult P (err (sql_lex_error line column)) = (1 ≤ line) × (1 ≤ column)
LexResult P (err _) = ⊥

pub LexResult-err :
    {A B : Type 0} (P : A → Type 0) (Q : B → Type 0) (x : Exception)
    → LexResult {A = A} P (err x)
    → LexResult {A = B} Q (err x)
LexResult-err P Q (sql_lex_error line column) m = m
LexResult-err P Q _ m = absurd m

pub LexResult-map :
    {A : Type 0} {P Q : A → Type 0} (f : (a : A) → P a → Q a) (r : Result A)
    → LexResult P r
    → LexResult Q r
LexResult-map f (ok a) m = f a m
LexResult-map {P} {Q} f (err x) m = LexResult-err P Q x m

pub LexResult-if :
    {A : Type 0} (P : A → Type 0) (b : Bool) (x y : Result A)
    → (b ≡ true → LexResult P x)
    → (b ≡ false → LexResult P y)
    → LexResult P (if b then x else y)
LexResult-if P true x y f g = f refl
LexResult-if P false x y f g = g refl

abbrev Optional : (Lexer → Type 0) → Option Lexer → Type 0
Optional P none = Unit
Optional P (some s) = P s

Optional-trans :
    (size : ℕ) {s t : Lexer}
    → Moves size s t
    → (o : Option Lexer) → Optional (Moves size t) o
    → Optional (Moves size s) o
Optional-trans size m none h = tt
Optional-trans size m (some u) h = Moves-trans size m h

skip_block-Moves :
    (size fuel : ℕ) (s : Lexer) → At size s → Optional (Moves size s) (skip_block fuel s)
unfolding skip_block
skip_block-Moves size zero s h = tt
skip_block-Moves size (suc fuel) s h = elim (Bool-cases (at_end s)) [
  | inl done ↦ rw (done, skip_block) tt
  | inr more ↦ elim (Bool-cases (peek s == b'*' && peek1 s == b'/')) [
    | inl closing ↦
        rw (more, closing, skip_block)
          (Moves-trans size (advance-Moves size s more h)
            (advance_two-Moves size s more (ground arith) h))
    | inr inner ↦
        let step = advance-Moves size s more h in
        rw (more, inner, skip_block)
          (Optional-trans size step (skip_block fuel (advance s))
            (skip_block-Moves size fuel (advance s) step.at))
  ]
]

-- One round of `skip_ignored` that does not return consumes a byte.
abbrev Skipped : ℕ → Lexer → Option (Result Lexer) → Type 0
Skipped size s none = Unit
Skipped size s (some r) = LexResult (Consumes size s) r

close_comment-LexResult :
    (size : ℕ) (s t : Lexer) (o : Option Lexer)
    → At size s
    → Consumes size s t
    → Optional (Moves size t) o
    → LexResult (Consumes size s) (close_comment s o)
close_comment-LexResult size s t none h c m = (h.line, h.column)
close_comment-LexResult size s t (some u) h c m = Consumes-Moves size c m

skip_one-Skipped :
    (size : ℕ) (s : Lexer) → at_end s ≡ false → At size s → Skipped size s (skip_one s)
unfolding skip_one
skip_one-Skipped size s e h = elim (Bool-cases (is_space (peek s))) [
  | inl space ↦ rw space (advance-Consumes size s e h)
  | inr black ↦ elim (Bool-cases (peek s == b'-' && peek1 s == b'-')) [
    | inl line ↦
        let two = advance_two-Consumes size s e (ground arith) h in
        rw (black, line)
          (Consumes-Moves size two (advance_while-Moves size (length s.rest) not_line_end _ two.at))
    | inr other ↦ elim (Bool-cases (peek s == b'/' && peek1 s == b'*')) [
      | inl block ↦
          let two = advance_two-Consumes size s e (ground arith) h in
          rw (black, other, block)
            (close_comment-LexResult size s _ (skip_block (length s.rest) (advance (advance s))) h
              two (skip_block-Moves size (length s.rest) _ two.at))
      | inr none_of ↦ rw (black, other, none_of) tt
    ]
  ]
]

pub skip_ignored-LexResult :
    (size fuel : ℕ) (s : Lexer) → At size s → LexResult (Moves size s) (skip_ignored fuel s)
unfolding skip_ignored
skip_ignored-LexResult size zero s h = record { at = h; less = omega arith }
skip_ignored-LexResult size (suc fuel) s h = elim (Bool-cases (at_end s)) [
  | inl done ↦ rw (done, skip_ignored) (record { at = h; less = omega arith })
  | inr more ↦ elim (Option-cases (skip_one s)) [
    | inl stop ↦ rw (more, stop, skip_ignored) (record { at = h; less = omega arith })
    | inr (r, e) ↦
        again (λ t. skip_ignored-LexResult size fuel t) r e more
          (rw e at (skip_one-Skipped size s more h))
  ]
]
  where
    again :
        ((t : Lexer) → At size t → LexResult (Moves size t) (skip_ignored fuel t))
        → (r : Result Lexer) → skip_one s ≡ some r
        → at_end s ≡ false
        → LexResult (Consumes size s) r
        → LexResult (Moves size s) (skip_ignored (suc fuel) s)
    again ih (ok t) e more c =
        rw (more, e, skip_ignored)
          (LexResult-map (λ u m. record { at = m.at; less = omega (arith, c.less, m.less) })
            (skip_ignored fuel t) (ih t c.at))
    again ih (err x) e more c =
        rw (more, e, skip_ignored) (LexResult-err (Consumes size s) (Moves size s) x c)
