-- ===== src/Tests/Queries.antt =====
-- A query that filters, sorts and limits three rows.
use pageforge.Prelude.{ℕ, ◌≤◌, ◌≡◌, refl, arith, true, [], ◌∷◌, none, get_or}
use pageforge.Prelude.Int.{ℤ, pos, ltb_ℤ}
use pageforge.Tuple.{Value}
use pageforge.Query.{TableRow, RowOperator, rows, filter, sort, limit, stable_sort}
use pageforge.Query.Pipeline.{collect, denote, collect-denote, rounds_of}

abbrev key : TableRow → ℤ
key row = key_of (get_or row.values 0 Value.null)
  where
    key_of : Value → ℤ
    key_of (Value.integer n) = n
    key_of _ = pos 0

abbrev table_row : ℕ → TableRow
table_row n = record {
  id = record { page_id = 0; slot_id = n };
  values = Value.integer (pos n) ∷ Value.boolean true ∷ [];
}

abbrev pipeline : RowOperator
pipeline =
    limit
      (sort
        (filter (rows (table_row 5 ∷ table_row 9 ∷ table_row 2 ∷ table_row 7 ∷ []))
          (λ r. ltb_ℤ (key r) (pos 8)))
        (λ r s. ltb_ℤ (key r) (key s)) [])
      2

pipeline_rows : denote pipeline ≡ (table_row 2 ∷ table_row 5 ∷ [], none)
unfolding denote stable_sort
pipeline_rows = refl

enough : rounds_of pipeline ≤ 40
unfolding rounds_of
enough = omega arith

collect-denote_example : collect 40 40 pipeline ≡ denote pipeline
collect-denote_example = collect-denote 40 40 pipeline enough enough
