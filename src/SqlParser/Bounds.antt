-- ===== src/SqlParser/Bounds.antt =====
-- The parser stays within the token vector: on what `lex_sql` returns it never reads behind the end
-- token, every loop has enough fuel, and a failure is a parse error.
pub mod Statements
use pageforge.Prelude.{
  ℕ, zero, suc, ◌+◌, ◌≤◌, ◌<◌, ◌≡◌, ◌≢◌, refl, ap, arith, Bool, true, false, not, ◌&&◌, List, [],
  ◌∷◌, length, Option, none, some, ◌==◌, if◌then◌else◌, Result, ok, err, Exception, sql_parse_error,
  sql_lex_error, Bool-cases, Option-cases, ◌⊎◌, inl, inr,
}
use pageforge.Bytes.{Bytes}
use pageforge.Tuple.{Value}
use pageforge.SqlLexer.{
  SqlTokenKind, SqlToken, identifier, integer, string, comma, star, semicolon, plus, minus, end,
  lex_sql,
}
use pageforge.SqlLexer.Steps.{LexResult}
use pageforge.SqlLexer.Progress.{IsTokenStream, lex_sql-LexResult}
use pageforge.SqlLexer.Progress
use pageforge.SqlParser.Ast.{SqlPredicateKind, SqlStatement, SelectPlan}
use pageforge.SqlParser.Tokens.{
  Parser, ◌>>=◌, ◌>>◌, return, fail_at, fail, current, skip, match, match_keyword, expect_keyword,
  expect_identifier, keyword, is_kind, kind_code, codes,
}
use pageforge.SqlParser.Literals.{
  comparison_of, parse_comparison, parse_sign, parse_integer, parse_literal, parse_limit,
  integer_value, from_chars,
}
use pageforge.SqlParser.{
  null_test, parse_predicate, more_columns, more_predicates, with_fuel, parse_columns, parse_where,
  parse_direction, parse_order, parse_limit_clause, parse_end, parse_select_statement,
  parse_statement, parse_source, parse_sql_statement,
}

-- The end token stands at the end and nowhere else.
data Ends : List SqlToken → Type 0 where
  last : {t : SqlToken} → t.kind ≡ end → Ends (t ∷ [])
  more : {t : SqlToken} {ts : List SqlToken} → t.kind ≢ end → Ends ts → Ends (t ∷ ts)

Ends-IsTokenStream : {size n : ℕ} {ts : List SqlToken} → IsTokenStream size n ts → Ends ts
Ends-IsTokenStream (IsTokenStream.last a k o) = last k
Ends-IsTokenStream (IsTokenStream.more a b k r) = more k (Ends-IsTokenStream r)

-- A result that leaves such tokens, no more than there were, or a parse error.
abbrev Keeps : {A : Type 0} → List SqlToken → Result (A × List SqlToken) → Type 0
Keeps ts (ok (a, rest)) = Ends rest × (length rest ≤ length ts)
Keeps ts (err (sql_parse_error line column)) = Unit
Keeps ts (err _) = ⊥

record Safe {A : Type 0} (p : Parser A) : Type 0 where
  run : (ts : List SqlToken) → Ends ts → Keeps ts (p ts)

Keeps-err :
    (A B : Type 0) (ts us : List SqlToken) (e : Exception)
    → Keeps {A = A} ts (err e)
    → Keeps {A = B} us (err e)
Keeps-err A B ts us (sql_parse_error line column) k = tt
Keeps-err A B ts us _ k = absurd k

Keeps-bind :
    {A B : Type 0} (ts : List SqlToken) (r : Result (A × List SqlToken)) (f : A → Parser B)
    → Keeps ts r
    → ((a : A) (us : List SqlToken) → Ends us → length us ≤ length ts → Keeps ts (f a us))
    → Keeps ts (let m : Parser A = λ _. r in (m >>= f) ts)
Keeps-bind ts (ok (a, us)) f k h = h a us k.0 k.1
Keeps-bind {A} {B} ts (err e) f k h = Keeps-err A B ts ts e k

Keeps-le :
    {A : Type 0} (ts us : List SqlToken) (r : Result (A × List SqlToken))
    → length us ≤ length ts
    → Keeps us r
    → Keeps ts r
Keeps-le ts us (ok (a, rest)) h k = (k.0, omega (arith, k.1))
Keeps-le {A} ts us (err e) h k = Keeps-err A A us ts e k

Safe-bind :
    {A B : Type 0} (p : Parser A) (f : A → Parser B)
    → Safe p
    → ((a : A) → Safe (f a))
    → Safe (p >>= f)
Safe-bind p f hp hf = record {
  run = λ ts e.
      Keeps-bind ts (p ts) f (hp.run ts e)
        λ a us e' l. Keeps-le ts us (f a us) l ((hf a).run us e');
}

Safe-return : {A : Type 0} (a : A) → Safe (return a)
Safe-return a = record { run = λ ts e. (e, omega arith) }

Safe-if :
    {A : Type 0} (b : Bool) (p q : Parser A)
    → (b ≡ true → Safe p)
    → (b ≡ false → Safe q)
    → Safe (if b then p else q)
Safe-if true p q hp hq = hp refl
Safe-if false p q hp hq = hq refl

Safe-fail_at : {A : Type 0} (t : SqlToken) → Safe (fail_at {A = A} t)
Safe-fail_at t = record { run = λ ts e. tt }

abbrev NonEmpty : List SqlToken → Type 0
NonEmpty [] = ⊥
NonEmpty (t ∷ ts) = Unit

Ends-NonEmpty : {ts : List SqlToken} → Ends ts → NonEmpty ts
Ends-NonEmpty (last k) = tt
Ends-NonEmpty (more k r) = tt

-- Behind a token that is not the end token there are more.
Ends-tail : {t : SqlToken} {ts : List SqlToken} → Ends (t ∷ ts) → t.kind ≢ end → Ends ts
Ends-tail (last k) n = absurd (n k)
Ends-tail (more k r) n = r

Safe-fail : {A : Type 0} → Safe (fail {A = A})
Safe-fail {A} = record { run = go }
  where
    go : (ts : List SqlToken) → Ends ts → Keeps ts (fail {A = A} ts)
    go (t ∷ ts) e = unfold fail in tt
    go [] e = absurd (Ends-NonEmpty e)

-- `current`, and what it says of the tokens.
Safe-current :
    {B : Type 0} (f : SqlToken → Parser B)
    → ((t : SqlToken) (ts : List SqlToken) → Ends (t ∷ ts) → Keeps (t ∷ ts) (f t (t ∷ ts)))
    → Safe (current >>= f)
Safe-current {B} f h = record { run = go }
  where
    go : (ts : List SqlToken) → Ends ts → Keeps ts ((current >>= f) ts)
    go (t ∷ ts) e = unfold current in h t ts e
    go [] e = absurd (Ends-NonEmpty e)

-- Moving past a token that is not the end token.
Keeps-skip :
    {B : Type 0} (t : SqlToken) (ts : List SqlToken) (p : Parser B)
    → Ends (t ∷ ts)
    → t.kind ≢ end
    → Safe p
    → Keeps (t ∷ ts) ((skip >> p) (t ∷ ts))
unfolding skip
Keeps-skip t ts p e n h = Keeps-le (t ∷ ts) ts (p ts) (omega arith) (h.run ts (Ends-tail e n))

-- A kind that was tested for is not the end's.
is_kind-ne-end :
    (kind : SqlTokenKind) (t : SqlToken)
    → kind_code kind < kind_code end
    → is_kind kind t ≡ true
    → t.kind ≢ end
is_kind-ne-end kind t h e k = let c = ap kind_code k in ground arith

keyword-ne-end : (t : SqlToken) (value : Bytes) → keyword t value ≡ true → t.kind ≢ end
unfolding keyword
keyword-ne-end t value h = is_kind-ne-end identifier t (omega arith) (ground arith)

Keeps-if :
    {A : Type 0} (b : Bool) (ts : List SqlToken) (p q : Parser A)
    → (b ≡ true → Keeps ts (p ts))
    → (b ≡ false → Keeps ts (q ts))
    → Keeps ts ((if b then p else q) ts)
Keeps-if true ts p q hp hq = hp refl
Keeps-if false ts p q hp hq = hq refl

Safe-match : (kind : SqlTokenKind) → kind_code kind < kind_code end → Safe (match kind)
unfolding match
Safe-match kind k = Safe-current _ λ t ts e.
    Keeps-if (is_kind kind t) (t ∷ ts) _ _
      (λ h. Keeps-skip t ts _ e (is_kind-ne-end kind t k h) (Safe-return true))
      (λ _. (e, omega arith))

Safe-match_keyword : (value : Bytes) → Safe (match_keyword value)
unfolding match_keyword
Safe-match_keyword value = Safe-current _ λ t ts e.
    Keeps-if (keyword t value) (t ∷ ts) _ _
      (λ h. Keeps-skip t ts _ e (keyword-ne-end t value h) (Safe-return true))
      (λ _. (e, omega arith))

Safe-expect_keyword : (value : Bytes) → Safe (expect_keyword value)
unfolding expect_keyword
Safe-expect_keyword value =
    Safe-bind _ _ (Safe-match_keyword value)
      λ found. Safe-if found _ _ (λ _. Safe-return tt) (λ _. Safe-fail)

Safe-expect_identifier : Safe expect_identifier
unfolding expect_identifier
Safe-expect_identifier = Safe-current _ λ t ts e.
    Keeps-if (is_kind identifier t) (t ∷ ts) _ _
      (λ h. Keeps-skip t ts _ e (is_kind-ne-end identifier t (omega arith) h) (Safe-return t.text))
      (λ _. (Safe-fail {A = Bytes}).run (t ∷ ts) e)
