-- ===== src/TableStore/Lookup/Reads.antt =====
-- The rows that the loops of the lookups read, when every read returns.
use mathlib.Core.List.{Memᴰ}
use mathlib.Core.List.Memᴰ.{head, tail, cases_cons, not-nil}
use pageforge.Prelude.{
  ℕ, zero, suc, ◌+◌, ◌≡◌, refl, sym, ap, ◌∙◌, List, [], ◌∷◌, ◌++◌, take, none, Bool-cases, ◌⊎◌, inl,
  inr, Result, ok, >>=-eq-ok, ok-injective,
}
use pageforge.Prelude.Int.{eq_ℤ}
use pageforge.BPlusTree.Entry.{IndexEntry}
use pageforge.RecordStore.{RecordId}
use pageforge.Query.{TableRow}
use pageforge.TableStore.Lookup.{read_ids, read_entries, reverse_onto, descend}

-- The rows of a list of reads.
pub record Reads {A : Type 0} (read : A → Result TableRow) (items : List A)
    (result : Result (List TableRow)) : Type 0 where
  pub found : List TableRow
  pub returned : result ≡ ok found
  pub inside : (row : TableRow) → Memᴰ row found → (a : A) × Memᴰ a items × (read a ≡ ok row)
  pub complete : (a : A) (row : TableRow) → Memᴰ a items → read a ≡ ok row → Memᴰ row found

abbrev pub Readable : {A : Type 0} → (A → Result TableRow) → List A → Type 0
Readable {A} read items = (a : A) → Memᴰ a items → (row : TableRow) × (read a ≡ ok row)

nil-Reads : {A : Type 0} (read : A → Result TableRow) → Reads read [] (ok [])
nil-Reads read = record {
  found = [];
  returned = refl;
  inside = λ row m. absurd (not-nil m);
  complete = λ a row m e. absurd (not-nil m);
}

cons-Reads :
    {A : Type 0} (read : A → Result TableRow) (a : A) (items : List A) (row : TableRow)
    (rest result : Result (List TableRow))
    → read a ≡ ok row
    → Reads read items rest
    → ((rows : List TableRow) → rest ≡ ok rows → result ≡ ok (row ∷ rows))
    → Reads read (a ∷ items) result
cons-Reads read a items row rest result e r made = record {
  found = row ∷ r.found;
  returned = made r.found r.returned;
  inside = λ row' m. elim (cases_cons m) [
    | inl is ↦ (a, head refl, e ∙ ap ok (sym is))
    | inr later ↦ let (b, there, e') = r.inside row' later in (b, tail there, e')
  ];
  complete = λ b row' m e'. elim (cases_cons m) [
    | inl is ↦ head (ok-injective (sym e' ∙ ap read is ∙ e))
    | inr later ↦ tail (r.complete b row' later e')
  ];
}

pub read_ids-Reads :
    (read : RecordId → Result TableRow) (ids : List RecordId)
    → Readable read ids
    → Reads read ids (read_ids read ids)
unfolding read_ids
read_ids-Reads read [] readable = nil-Reads read
read_ids-Reads read (id ∷ ids) readable =
    let (row, e) = readable id (head refl) in
    cons-Reads read id ids row (read_ids read ids) _ e
      (read_ids-Reads read ids (λ a m. readable a (tail m))) (λ rows e'. rw (e, e') refl)

pub read_entries-Reads :
    (read : IndexEntry → Result TableRow) (count : ℕ) (entries : List IndexEntry)
    → Readable read entries
    → Reads read entries (read_entries read none count entries)
unfolding read_entries
read_entries-Reads read count [] readable = nil-Reads read
read_entries-Reads read count (entry ∷ entries) readable =
    let (row, e) = readable entry (head refl) in
    cons-Reads read entry entries row (read_entries read none (count + 1) entries) _ e
      (read_entries-Reads read (count + 1) entries (λ a m. readable a (tail m)))
      (λ rows e'. rw (e, e') refl)

pub read_ids-take :
    (read : RecordId → Result TableRow) (k : ℕ) (ids : List RecordId) (rows : List TableRow)
    → read_ids read ids ≡ ok rows
    → read_ids read (take k ids) ≡ ok (take k rows)
unfolding read_ids
read_ids-take read zero ids rows e = refl
read_ids-take read (suc k) [] rows e = ap (λ rs. ok (take (suc k) rs)) (ok-injective e)
read_ids-take read (suc k) (id ∷ ids) rows e =
    let (row, first, rest) = >>=-eq-ok (read id) _ e in
    let (others, more, done) = >>=-eq-ok (read_ids read ids) _ rest in
    rw (first, read_ids-take read k ids others more)
      (ap (λ rs. ok (take (suc k) rs)) (ok-injective done))

pub read_entries-take-none :
    (read : IndexEntry → Result TableRow) (count k : ℕ) (entries : List IndexEntry)
    (rows : List TableRow)
    → read_entries read none count entries ≡ ok rows
    → read_entries read none count (take k entries) ≡ ok (take k rows)
unfolding read_entries
read_entries-take-none read count zero entries rows e = refl
read_entries-take-none read count (suc k) [] rows e =
    ap (λ rs. ok (take (suc k) rs)) (ok-injective e)
read_entries-take-none read count (suc k) (entry ∷ entries) rows e =
    let (row, first, rest) = >>=-eq-ok (read entry) _ e in
    let (others, more, done) = >>=-eq-ok (read_entries read none (count + 1) entries) _ rest in
    rw (first, read_entries-take-none read (count + 1) k entries others more)
      (ap (λ rs. ok (take (suc k) rs)) (ok-injective done))

-- Two lists with the same members.
abbrev pub SameMembers : List IndexEntry → List IndexEntry → Type 0
SameMembers left right =
    ((e : IndexEntry) → Memᴰ e left → Memᴰ e right)
    × ((e : IndexEntry) → Memᴰ e right → Memᴰ e left)

append-Memᴰ : (xs ys : List IndexEntry) (e : IndexEntry) → Memᴰ e (xs ++ ys) → Memᴰ e xs ⊎ Memᴰ e ys
append-Memᴰ [] ys e m = inr m
append-Memᴰ (x ∷ xs) ys e m = elim (cases_cons m) [
  | inl is ↦ inl (head is)
  | inr later ↦ elim (append-Memᴰ xs ys e later) [ inl l ↦ inl (tail l) | inr r ↦ inr r ]
]

Memᴰ-append_right : (xs ys : List IndexEntry) (e : IndexEntry) → Memᴰ e ys → Memᴰ e (xs ++ ys)
Memᴰ-append_right [] ys e m = m
Memᴰ-append_right (x ∷ xs) ys e m = tail (Memᴰ-append_right xs ys e m)

Memᴰ-append_left : (xs ys : List IndexEntry) (e : IndexEntry) → Memᴰ e xs → Memᴰ e (xs ++ ys)
Memᴰ-append_left [] ys e m = absurd (not-nil m)
Memᴰ-append_left (x ∷ xs) ys e m = elim (cases_cons m) [
  | inl is ↦ head is
  | inr later ↦ tail (Memᴰ-append_left xs ys e later)
]

-- An entry moves from the second of two lists to the first.
abbrev Moved : List IndexEntry → List IndexEntry → IndexEntry → Type 0
Moved group rest e = Memᴰ e group ⊎ Memᴰ e rest

forward :
    (x : IndexEntry) (group rest : List IndexEntry) (e : IndexEntry)
    → Moved (x ∷ group) rest e
    → Moved group (x ∷ rest) e
forward x group rest e (inr r) = inr (tail r)
forward x group rest e (inl l) = elim (cases_cons l) [
  | inl is ↦ inr (head is)
  | inr later ↦ inl later
]

backward :
    (x : IndexEntry) (group rest : List IndexEntry) (e : IndexEntry)
    → Moved group (x ∷ rest) e
    → Moved (x ∷ group) rest e
backward x group rest e (inl l) = inl (tail l)
backward x group rest e (inr r) = elim (cases_cons r) [
  | inl is ↦ inl (head is)
  | inr later ↦ inr later
]

reverse_onto-Memᴰ :
    (entries done : List IndexEntry) (e : IndexEntry)
    → (Memᴰ e (reverse_onto entries done) → Moved done entries e)
      × (Moved done entries e → Memᴰ e (reverse_onto entries done))
unfolding reverse_onto
reverse_onto-Memᴰ [] done e = (inl, λ h. elim h [ inl l ↦ l | inr r ↦ absurd (not-nil r) ])
reverse_onto-Memᴰ (entry ∷ entries) done e =
    let (there, back) = reverse_onto-Memᴰ entries (entry ∷ done) e in
    ((λ m. forward entry done entries e (there m)), λ h. back (backward entry done entries e h))

descend-Memᴰ :
    (group entries : List IndexEntry) (e : IndexEntry)
    → (Memᴰ e (descend group entries) → Moved group entries e)
      × (Moved group entries e → Memᴰ e (descend group entries))
unfolding descend
descend-Memᴰ group [] e = (inl, λ h. elim h [ inl l ↦ l | inr r ↦ absurd (not-nil r) ])
descend-Memᴰ [] (entry ∷ before) e =
    let (there, back) = descend-Memᴰ (entry ∷ []) before e in
    ((λ m. forward entry [] before e (there m)), λ h. back (backward entry [] before e h))
descend-Memᴰ (first ∷ group) (entry ∷ before) e =
    let (there, back) = descend-Memᴰ (entry ∷ first ∷ group) before e in
    let (there', back') = descend-Memᴰ (entry ∷ []) before e in
    elim (Bool-cases (eq_ℤ entry.key first.key)) [
      | inl same ↦ rw same (
        (λ m. forward entry (first ∷ group) before e (there m)),
        λ h. back (backward entry (first ∷ group) before e h),
      )
      | inr other ↦ rw other (
        (λ m. split (append-Memᴰ (first ∷ group) (descend (entry ∷ []) before) e m) there'),
        λ h. join h back',
      )
    ]
  where
    split :
        Memᴰ e (first ∷ group) ⊎ Memᴰ e (descend (entry ∷ []) before)
        → (Memᴰ e (descend (entry ∷ []) before) → Moved (entry ∷ []) before e)
        → Moved (first ∷ group) (entry ∷ before) e
    split (inl l) there' = inl l
    split (inr r) there' = elim (forward entry [] before e (there' r)) [
      | inl l ↦ absurd (not-nil l)
      | inr later ↦ inr later
    ]

    join :
        Moved (first ∷ group) (entry ∷ before) e
        → (Moved (entry ∷ []) before e → Memᴰ e (descend (entry ∷ []) before))
        → Memᴰ e ((first ∷ group) ++ descend (entry ∷ []) before)
    join (inl l) back' = Memᴰ-append_left (first ∷ group) (descend (entry ∷ []) before) e l
    join (inr r) back' =
        Memᴰ-append_right (first ∷ group) (descend (entry ∷ []) before) e
          (back' (backward entry [] before e (inr r)))

-- The groups from the last on are the entries in another order.
pub descend-SameMembers :
    (entries : List IndexEntry) → SameMembers (descend [] (reverse_onto entries [])) entries
descend-SameMembers entries = (
  (λ e m.
      second (descend-Memᴰ [] (reverse_onto entries []) e).0 (reverse_onto-Memᴰ entries [] e).0 m),
  λ e m.
      (descend-Memᴰ [] (reverse_onto entries []) e).1
        (inr ((reverse_onto-Memᴰ entries [] e).1 (inr m))),
)
  where
    other : {e : IndexEntry} {rest : List IndexEntry} → Moved [] rest e → Memᴰ e rest
    other (inl l) = absurd (not-nil l)
    other (inr r) = r

    second :
        {e : IndexEntry}
        → (Memᴰ e (descend [] (reverse_onto entries [])) → Moved [] (reverse_onto entries []) e)
        → (Memᴰ e (reverse_onto entries []) → Moved [] entries e)
        → Memᴰ e (descend [] (reverse_onto entries []))
        → Memᴰ e entries
    second first after m = other (after (other (first m)))
