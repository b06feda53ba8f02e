-- ===== src/SqlParser/Bounds/Statements.antt =====
-- The literals, clauses and statements of the parser keep within the tokens.
use pageforge.Prelude.{
  ℕ, zero, suc, ◌≤◌, ◌<◌, ◌≡◌, ◌≢◌, refl, arith, Bool, true, false, not, List, [], ◌∷◌, length,
  Option, none, some, Result, ok, err, Exception, sql_parse_error, sql_lex_error, Bool-cases, inl,
  inr,
}
use pageforge.Bytes.{Bytes}
use pageforge.Prelude.Int.{ℤ}
use pageforge.Tuple.{Value}
use pageforge.SqlLexer.{
  SqlTokenKind, SqlToken, integer, string, comma, star, semicolon, plus, minus, end, lex_sql,
}
use pageforge.SqlLexer.Steps.{LexResult}
use pageforge.SqlLexer.Progress.{IsTokenStream, lex_sql-LexResult}
use pageforge.SqlParser.Ast.{SqlComparison, SqlLiteral}
use pageforge.SqlParser.Tokens.{
  Parser, ◌>>=◌, ◌>>◌, return, fail_at, current, skip, match, match_keyword, expect_identifier,
  keyword, is_kind, kind_code, codes,
}
use pageforge.SqlParser.Literals.{
  comparison_of, parse_comparison, parse_sign, parse_integer, parse_literal, parse_limit,
  integer_value, from_chars,
}
use pageforge.SqlParser.{
  parse_predicate, more_columns, more_predicates, with_fuel, parse_columns, parse_where,
  parse_direction, parse_order, parse_limit_clause, parse_end, parse_select_statement,
  parse_statement, parse_source, parse_select, parse_sql_statement,
}
use pageforge.SqlParser.Bounds.{
  Ends, Ends-IsTokenStream, Ends-NonEmpty, Ends-tail, Keeps, Keeps-bind, Keeps-le, Keeps-if,
  Keeps-skip, Safe, Safe-bind, Safe-return, Safe-if, Safe-fail_at, Safe-fail, Safe-current,
  Safe-match, Safe-match_keyword, Safe-expect_keyword, Safe-expect_identifier, is_kind-ne-end,
  keyword-ne-end,
}

comparison-ne-end : (k : SqlTokenKind) (c : SqlComparison) → comparison_of k ≡ some c → k ≢ end
unfolding comparison_of
comparison-ne-end SqlTokenKind.identifier c e n = cc
comparison-ne-end _ c e n = cc

Safe-parse_comparison : Safe parse_comparison
unfolding parse_comparison
Safe-parse_comparison = Safe-current _ λ t ts e. go t ts e (comparison_of t.kind) refl
  where
    go :
        (t : SqlToken) (ts : List SqlToken)
        → Ends (t ∷ ts)
        → (o : Option SqlComparison) → comparison_of t.kind ≡ o
        → Keeps (t ∷ ts) (
            let p : Parser SqlComparison = elim o [
              | none ↦ fail_at t
              | some c ↦ (skip >> return c)
            ] in
            p (t ∷ ts))
    go t ts e none h = tt
    go t ts e (some c) h = Keeps-skip t ts _ e (comparison-ne-end t.kind c h) (Safe-return c)

Safe-parse_sign : Safe parse_sign
unfolding parse_sign
Safe-parse_sign =
    Safe-bind _ _ (Safe-match plus (omega arith))
      λ found. Safe-if found _ _ (λ _. Safe-return false) (λ _. Safe-match minus (omega arith))

Safe-parse_integer : Safe parse_integer
unfolding parse_integer
Safe-parse_integer = Safe-current _ λ start us e.
    (Safe-bind _ _ Safe-parse_sign (λ negative. Safe-current _ λ t ts e'.
        Keeps-if (not (is_kind integer t)) (t ∷ ts) _ _
          (λ _. (Safe-fail {A = SqlLiteral}).run (t ∷ ts) e')
          (λ h.
            Keeps-skip t ts _ e' (is_kind-ne-end integer t (omega arith) (ground arith))
              (value start (integer_value negative t.text))))).run
      (start ∷ us) e
  where
    value :
        (start : SqlToken) (o : Option ℤ)
        → Safe {A = SqlLiteral}
            (elim o [ none ↦ fail_at start | some z ↦ return (Value.integer z) ])
    value start none = Safe-fail_at start
    value start (some z) = Safe-return (Value.integer z)

Safe-parse_literal : Safe parse_literal
unfolding parse_literal
Safe-parse_literal = Safe-current _ λ t ts e.
    Keeps-if (is_kind string t) (t ∷ ts) _ _
      (λ h.
        Keeps-skip t ts _ e (is_kind-ne-end string t (omega arith) h)
          (Safe-return (Value.text t.text)))
      λ _.
        Keeps-if (keyword t (codes "TRUE")) (t ∷ ts) _ _
          (λ h. Keeps-skip t ts _ e (keyword-ne-end t _ h) (Safe-return (Value.boolean true)))
          λ _.
            Keeps-if (keyword t (codes "FALSE")) (t ∷ ts) _ _
              (λ h. Keeps-skip t ts _ e (keyword-ne-end t _ h) (Safe-return (Value.boolean false)))
              λ _.
                Keeps-if (keyword t (codes "NULL")) (t ∷ ts) _ _
                  (λ h. Keeps-skip t ts _ e (keyword-ne-end t _ h) (Safe-return Value.null))
                  λ _. Safe-parse_integer.run (t ∷ ts) e

Safe-parse_limit : Safe parse_limit
unfolding parse_limit
Safe-parse_limit = Safe-current _ λ t ts e.
    (Safe-bind _ _ (Safe-match integer (omega arith)) (λ found.
        Safe-if (not found) _ _ (λ _. Safe-fail_at t) (λ _. value t (from_chars t.text)))).run
      (t ∷ ts) e
  where
    value :
        (t : SqlToken) (o : Option ℕ)
        → Safe {A = ℕ} (elim o [ none ↦ fail_at t | some v ↦ return v ])
    value t none = Safe-fail_at t
    value t (some v) = Safe-return v

Safe-parse_predicate : Safe parse_predicate
unfolding parse_predicate
Safe-parse_predicate = Safe-bind _ _ Safe-expect_identifier λ column.
    Safe-bind _ _ (Safe-match_keyword (codes "IS")) λ null.
      Safe-if null _ _
        (λ _.
          Safe-bind _ _ (Safe-match_keyword (codes "NOT"))
            λ negated. Safe-bind _ _ (Safe-expect_keyword (codes "NULL")) λ _. Safe-return _)
        (λ _.
          Safe-bind _ _ Safe-parse_comparison
            λ comparison. Safe-bind _ _ Safe-parse_literal λ literal. Safe-return _)

-- The test of a loop: the token was taken, or the tokens are the same.
Keeps-match :
    {B : Type 0} (kind : SqlTokenKind) (f : Bool → Parser B) (t : SqlToken) (us : List SqlToken)
    → kind_code kind < kind_code end
    → Ends (t ∷ us)
    → (Ends us → Keeps us (f true us))
    → Keeps (t ∷ us) (f false (t ∷ us))
    → Keeps (t ∷ us) ((match kind >>= f) (t ∷ us))
unfolding match current skip
Keeps-match kind f t us k e taken left = elim (Bool-cases (is_kind kind t)) [
  | inl h ↦
      rw (h, Keeps)
        (Keeps-le (t ∷ us) us (f true us) (omega arith)
          (taken (Ends-tail e (is_kind-ne-end kind t k h))))
  | inr h ↦ rw (h, Keeps) left
]

Keeps-match_keyword :
    {B : Type 0} (value : Bytes) (f : Bool → Parser B) (t : SqlToken) (us : List SqlToken)
    → Ends (t ∷ us)
    → (Ends us → Keeps us (f true us))
    → Keeps (t ∷ us) (f false (t ∷ us))
    → Keeps (t ∷ us) ((match_keyword value >>= f) (t ∷ us))
unfolding match_keyword current skip
Keeps-match_keyword value f t us e taken left = elim (Bool-cases (keyword t value)) [
  | inl h ↦
      rw (h, Keeps)
        (Keeps-le (t ∷ us) us (f true us) (omega arith)
          (taken (Ends-tail e (keyword-ne-end t value h))))
  | inr h ↦ rw (h, Keeps) left
]

more_columns-Keeps :
    (fuel : ℕ) (ts : List SqlToken) → length ts ≤ fuel → Ends ts → Keeps ts (more_columns fuel ts)
unfolding more_columns
more_columns-Keeps fuel [] h e = absurd (Ends-NonEmpty e)
more_columns-Keeps zero (t ∷ ts) h e = elim h [ ]
more_columns-Keeps (suc fuel) (t ∷ us) h e =
    Keeps-match comma _ t us (omega arith) e
      (λ e'.
        Keeps-bind us (expect_identifier us) _ (Safe-expect_identifier.run us e') λ column vs ev l.
          Keeps-bind us (more_columns fuel vs) _
            (Keeps-le us vs _ l (more_columns-Keeps fuel vs (omega arith) ev))
            λ columns ws ew l'. (ew, l'))
      (e, omega arith)

more_predicates-Keeps :
    (fuel : ℕ) (ts : List SqlToken)
    → length ts ≤ fuel
    → Ends ts
    → Keeps ts (more_predicates fuel ts)
unfolding more_predicates
more_predicates-Keeps fuel [] h e = absurd (Ends-NonEmpty e)
more_predicates-Keeps zero (t ∷ ts) h e = elim h [ ]
more_predicates-Keeps (suc fuel) (t ∷ us) h e =
    Keeps-match_keyword (codes "AND") _ t us e
      (λ e'.
        Keeps-bind us (parse_predicate us) _ (Safe-parse_predicate.run us e') λ predicate vs ev l.
          Keeps-bind us (more_predicates fuel vs) _
            (Keeps-le us vs _ l (more_predicates-Keeps fuel vs (omega arith) ev))
            λ predicates ws ew l'. (ew, l'))
      (e, omega arith)

Safe-more_columns : Safe (with_fuel more_columns)
Safe-more_columns = record { run = λ ts e. more_columns-Keeps (length ts) ts (omega arith) e }

Safe-more_predicates : Safe (with_fuel more_predicates)
Safe-more_predicates = record { run = λ ts e. more_predicates-Keeps (length ts) ts (omega arith) e }

Safe-parse_columns : Safe parse_columns
unfolding parse_columns
Safe-parse_columns = Safe-bind _ _ (Safe-match star (omega arith)) λ all.
    Safe-if all _ _ (λ _. Safe-return _)
      (λ _.
        Safe-bind _ _ Safe-expect_identifier
          λ column. Safe-bind _ _ Safe-more_columns λ columns. Safe-return _)

Safe-parse_where : Safe parse_where
unfolding parse_where
Safe-parse_where = Safe-bind _ _ (Safe-match_keyword (codes "WHERE")) λ found.
    Safe-if found _ _
      (λ _.
        Safe-bind _ _ Safe-parse_predicate
          λ predicate. Safe-bind _ _ Safe-more_predicates λ predicates. Safe-return _)
      (λ _. Safe-return _)

Safe-parse_direction : Safe parse_direction
unfolding parse_direction
Safe-parse_direction = Safe-bind _ _ (Safe-match_keyword (codes "DESC")) λ descending.
    Safe-if descending _ _ (λ _. Safe-return true)
      (λ _. Safe-bind _ _ (Safe-match_keyword (codes "ASC")) λ _. Safe-return false)

Safe-parse_order : Safe parse_order
unfolding parse_order
Safe-parse_order = Safe-bind _ _ (Safe-match_keyword (codes "ORDER")) λ found.
    Safe-if found _ _
      (λ _. Safe-bind _ _ (Safe-expect_keyword (codes "BY")) λ _.
        Safe-bind _ _ Safe-expect_identifier
          λ column. Safe-bind _ _ Safe-parse_direction λ descending. Safe-return _)
      (λ _. Safe-return _)

Safe-parse_limit_clause : Safe parse_limit_clause
unfolding parse_limit_clause
Safe-parse_limit_clause = Safe-bind _ _ (Safe-match_keyword (codes "LIMIT")) λ found.
    Safe-if found _ _ (λ _. Safe-bind _ _ Safe-parse_limit λ v. Safe-return _) (λ _. Safe-return _)

Safe-parse_end : Safe parse_end
unfolding parse_end
Safe-parse_end = Safe-bind _ _ (Safe-match semicolon (omega arith)) λ _.
    Safe-current _
      λ t ts e. Keeps-if (not (is_kind end t)) (t ∷ ts) _ _ (λ _. tt) (λ _. (e, omega arith))

Safe-parse_select_statement : Safe parse_select_statement
unfolding parse_select_statement
Safe-parse_select_statement = Safe-bind _ _ (Safe-expect_keyword (codes "SELECT")) λ _.
    Safe-bind _ _ Safe-parse_columns λ selected.
      Safe-bind _ _ (Safe-expect_keyword (codes "FROM")) λ _.
        Safe-bind _ _ Safe-expect_identifier λ table. Safe-bind _ _ Safe-parse_where λ predicates.
          Safe-bind _ _ Safe-parse_order λ order.
            Safe-bind _ _ Safe-parse_limit_clause
              λ limit. Safe-bind _ _ Safe-parse_end λ _. Safe-return _

Safe-parse_statement : Safe parse_statement
unfolding parse_statement
Safe-parse_statement =
    Safe-bind _ _ (Safe-match_keyword (codes "EXPLAIN"))
      λ explained. Safe-bind _ _ Safe-parse_select_statement λ plan. Safe-return _

-- A value, a lexical error or a parse error, and nothing else.
abbrev pub IsSqlResult : {A : Type 0} → Result A → Type 0
IsSqlResult (ok a) = Unit
IsSqlResult (err (sql_lex_error line column)) = Unit
IsSqlResult (err (sql_parse_error line column)) = Unit
IsSqlResult (err _) = ⊥

lex_error-IsSqlResult :
    {A : Type 0} (B : Type 0) (P : A → Type 0) (x : Exception)
    → LexResult {A = A} P (err x)
    → IsSqlResult {A = B} (err x)
lex_error-IsSqlResult B P (sql_lex_error line column) h = tt
lex_error-IsSqlResult B P _ h = absurd h

Keeps-IsSqlResult :
    {A : Type 0} (ts : List SqlToken) (r : Result (A × List SqlToken))
    → Keeps ts r
    → IsSqlResult {A = A} (elim r [ err e ↦ err e | ok (a, rest) ↦ ok a ])
Keeps-IsSqlResult ts (ok (a, rest)) k = tt
Keeps-IsSqlResult ts (err (sql_parse_error line column)) k = tt
Keeps-IsSqlResult ts (err _) k = absurd k

parse_source-IsSqlResult :
    {A : Type 0} (p : Parser A) (source : Bytes) → Safe p → IsSqlResult (parse_source p source)
unfolding parse_source
parse_source-IsSqlResult {A} p source h = go (lex_sql source) (lex_sql-LexResult source)
  where
    go :
        (r : Result (List SqlToken))
        → LexResult (IsTokenStream (length source) 0) r
        → IsSqlResult {A = A}
            (elim r [ err e ↦ err e | ok ts ↦ elim (p ts) [ err e ↦ err e | ok (a, rest) ↦ ok a ] ])
    go (ok ts) s = Keeps-IsSqlResult ts (p ts) (h.run ts (Ends-IsTokenStream s))
    go (err x) s = lex_error-IsSqlResult A (IsTokenStream (length source) 0) x s

-- For every source both entry points return a statement, a lexical error or a parse error: the token
-- index stays within the vector, and each loop ends.
pub parse_sql_statement-IsSqlResult :
    (source : Bytes) → IsSqlResult (parse_sql_statement source) × IsSqlResult (parse_select source)
unfolding parse_sql_statement parse_select
parse_sql_statement-IsSqlResult source = (
  parse_source-IsSqlResult parse_statement source Safe-parse_statement,
  parse_source-IsSqlResult parse_select_statement source Safe-parse_select_statement,
)
