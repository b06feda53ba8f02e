-- ===== src/TableStore/Lookup/First.antt =====
-- A limit on a descending range leaves the first of its rows.
use pageforge.Prelude.{
  ℕ, zero, suc, ◌+◌, ◌≡◌, refl, ap, ◌∙◌, arith, true, false, List, [], ◌∷◌, take, Option, none,
  some, ltb, ◌==◌, if◌then◌else◌, Result, ok, ◌>>=◌, >>=-eq-ok, ok-injective,
}
use pageforge.Prelude.Int.{ℤ}
use pageforge.Bytes.{Bytes}
use pageforge.BPlusTree.Entry.{IndexEntry}
use pageforge.Query.{TableRow}
use pageforge.TableStore.Lookup.{
  Database, read_index_row, open_lookup, read_entries, reverse_onto, descend, lookup_index_range,
}

read_entries-take :
    (read : IndexEntry → Result TableRow) (count k limit : ℕ) (entries : List IndexEntry)
    (rows : List TableRow)
    → limit ≡ count + suc k
    → read_entries read none count entries ≡ ok rows
    → read_entries read (some limit) count entries ≡ ok (take (suc k) rows)
unfolding read_entries
read_entries-take read count k limit [] rows is e = ap (λ rs. ok (take (suc k) rs)) (ok-injective e)
read_entries-take read count k limit (entry ∷ entries) rows is e =
    let (row, first, rest) = >>=-eq-ok (read entry) _ e in
    let (others, more, done) = >>=-eq-ok (read_entries read none (count + 1) entries) _ rest in
    rw first (
      step row others k is
        (λ j at. read_entries-take read (count + 1) j limit entries others at more)
      ∙ ap (λ rs. ok (take (suc k) rs)) (ok-injective done))
  where
    step :
        (row : TableRow) (others : List TableRow) (j : ℕ)
        → limit ≡ count + suc j
        → ((i : ℕ)
            → limit ≡ count + 1 + suc i
            → read_entries read (some limit) (count + 1) entries ≡ ok (take (suc i) others))
        → (if (count + 1) == limit
            then ok (row ∷ [])
            else (read_entries read (some limit) (count + 1) entries >>= λ rows'. ok (row ∷ rows')))
          ≡ ok (take (suc j) (row ∷ others))
    step row others zero at more =
        let stops : ((count + 1) == limit) ≡ true = ground arith in rw stops refl
    step row others (suc j) at more =
        let goes_on : ((count + 1) == limit) ≡ false = ground arith in
        rw (goes_on, more j (omega arith)) refl

-- A descending range with a limit that is not zero returns the first rows, as many as the limit says, of the same
-- range without a limit.
pub lookup_index_range-take :
    (database : Database) (index_name : Bytes) (lower upper : Option ℤ) (k : ℕ)
    (rows : List TableRow)
    → lookup_index_range database index_name lower upper true none ≡ ok rows
    → lookup_index_range database index_name lower upper true (some (suc k))
      ≡ ok (take (suc k) rows)
unfolding lookup_index_range
lookup_index_range-take database index_name lower upper k rows e =
    let ((table, position, index), opened, rest) =
      >>=-eq-ok (open_lookup database index_name) _ e in
    let (entries, ranged, read) = >>=-eq-ok (index.range lower upper none) _ rest in
    let positive : ltb 0 (suc k) ≡ true = ground arith in
    rw (opened, positive, ranged)
      (read_entries-take (λ entry. read_index_row database table position entry.key entry.value) 0 k
        (suc k) (descend [] (reverse_onto entries [])) rows (omega arith) read)
