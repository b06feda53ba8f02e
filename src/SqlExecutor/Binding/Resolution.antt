-- ===== src/SqlExecutor/Binding/Resolution.antt =====
-- Names resolve when exactly one candidate has them, without regard to case.
use pageforge.Prelude.{
  ℕ, ◌+◌, ◌≡◌, refl, List, [], ◌∷◌, none, some, Bool-cases, inl, inr, if◌then◌else◌, Result, ok,
  err, sql_bind_error,
}
use pageforge.Bytes.{Bytes}
use pageforge.Tuple.{Schema}
use pageforge.SqlExecutor.Binding.{equal_name, resolve_loop, resolve_column}

-- The candidates of the name, each with its position.
unfoldable pub candidates_named {ℓ} : {A : Type ℓ} → (A → Bytes) → Bytes → List A → ℕ → List (ℕ × A)
candidates_named name_of name [] index = []
candidates_named name_of name (a ∷ candidates) index =
    let later = candidates_named name_of name candidates (index + 1) in
    if equal_name (name_of a) name then (index, a) ∷ later else later

abbrev pub only {ℓ} : {A : Type ℓ} → List A → Result A
only [] = err sql_bind_error
only (a ∷ []) = ok a
only (a ∷ b ∷ rest) = err sql_bind_error

module _ {ℓ} {A : Type ℓ} (name_of : A → Bytes) (name : Bytes) where
  resolve_loop-some :
      (candidates : List A) (index : ℕ) (found : ℕ × A)
      → resolve_loop name_of name candidates index (some found)
        ≡ only (found ∷ candidates_named name_of name candidates index)
  unfolding resolve_loop candidates_named
  resolve_loop-some [] index found = refl
  resolve_loop-some (a ∷ candidates) index found = elim (Bool-cases (equal_name (name_of a) name)) [
    | inl same ↦ rw same refl
    | inr other ↦ rw other (resolve_loop-some candidates (index + 1) found)
  ]

  pub resolve_loop-only :
      (candidates : List A) (index : ℕ)
      → resolve_loop name_of name candidates index none
        ≡ only (candidates_named name_of name candidates index)
  unfolding resolve_loop candidates_named
  resolve_loop-only [] index = refl
  resolve_loop-only (a ∷ candidates) index = elim (Bool-cases (equal_name (name_of a) name)) [
    | inl same ↦ rw same (resolve_loop-some candidates (index + 1) (index, a))
    | inr other ↦ rw other (resolve_loop-only candidates (index + 1))
  ]

-- A column name resolves to the one column of the schema that has it in any case, with its position. It is a
-- bind error when no column has it, and when several have it.
pub resolve_column-only :
    (schema : Schema) (name : Bytes)
    → resolve_column schema name ≡ only (candidates_named (λ c. c.name) name schema 0)
unfolding resolve_column
resolve_column-only schema name = resolve_loop-only (λ c. c.name) name schema 0
