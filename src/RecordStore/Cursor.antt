-- ===== src/RecordStore/Cursor.antt =====
-- The cursor stops at the first live slot from its position on, passes none, and moves behind the one it returns.
use pageforge.Prelude.{
  ℕ, zero, suc, ◌+◌, ◌≤◌, ◌<◌, ◌≡◌, refl, sym, ap, ◌∙◌, arith, true, false, Option, none, some,
  Bool-cases, inl, inr, ◌⊎◌, ◌==◌, ==_iff, ◌-◌, Result, ok, err, Exception,
}
use mathlib.Core.Path.{subst}
use pageforge.Bytes.{Bytes}
use pageforge.BufferPool.{HeapFile, BufferPool, PageGuard, M, ◌>>=◌, return, fetch}
use pageforge.BufferPool.Guard.{page, release}
use pageforge.RecordStore.{
  Records, Record, RecordCursor, scoped, live_from, stop_at, record_of, next_record, next,
}

module _ ⦃heap_file : HeapFile⦄ ⦃records : Records heap_file.Page⦄ where
  open heap_file use {Page}

  -- The slots from `slot` to `stop` hold no record.
  abbrev pub Dead : Page → ℕ → ℕ → Type 0
  Dead page slot stop = (s : ℕ) → slot ≤ s → s < stop → records.contains page s ≡ false

  abbrev pub Stops : Page → ℕ → ℕ → Option ℕ → Type 0
  Stops page left slot none = Dead page slot (slot + left)
  Stops page left slot (some s) =
      (slot ≤ s) × (s < slot + left) × (records.contains page s ≡ true) × Dead page slot s

  Dead-suc :
      (page : Page) (slot stop : ℕ)
      → records.contains page slot ≡ false
      → Dead page (slot + 1) stop
      → Dead page slot stop
  Dead-suc page slot stop dead rest s low high = elim (Bool-cases (slot == s)) [
    | inl same ↦
        let e = (==_iff slot s).0 same in subst (λ (n : ℕ). records.contains page n ≡ false) e dead
    | inr differ ↦ rest s (lt_of_differ slot s differ low) high
  ]
    where
      lt_of_differ : (slot s : ℕ) → (slot == s) ≡ false → slot ≤ s → slot + 1 ≤ s
      lt_of_differ slot s differ low = ground arith

  Stops-suc :
      (page : Page) (left slot : ℕ) (found : Option ℕ)
      → records.contains page slot ≡ false
      → Stops page left (slot + 1) found
      → Stops page (suc left) slot found
  Stops-suc page left slot none dead rest =
      Dead-suc page slot (slot + suc left) dead (λ s low high. rest s low (omega arith))
  Stops-suc page left slot (some s) dead (low, high, alive, before) =
      ((omega arith), (omega arith), alive, Dead-suc page slot s dead before)

  live_from-Stops : (page : Page) (left slot : ℕ) → Stops page left slot (live_from page left slot)
  unfolding live_from
  live_from-Stops page zero slot = λ s low high. absurd (omega arith)
  live_from-Stops page (suc left) slot = elim (Bool-cases (records.contains page slot)) [
    | inl alive ↦ rw alive ((omega arith), (omega arith), alive, λ s low high. absurd (omega arith))
    | inr dead ↦ rw dead (
        Stops-suc page left slot (live_from page left (slot + 1)) dead
          (live_from-Stops page left (slot + 1)))
  ]

  -- The cursor's page was fetched and read, and its guard released.
  abbrev pub Visits : RecordCursor → BufferPool → Page → BufferPool → Type 0
  Visits at pool seen pool' =
      (guard : PageGuard) × (fetched : BufferPool) × (read : BufferPool) × (fetch at.next_page pool
        ≡ (ok guard, fetched))
      × (page guard fetched ≡ (ok seen, read))
      × (pool' ≡ (release guard read).1)

  -- The cursor's page could not be fetched or read.
  abbrev pub Throws : RecordCursor → BufferPool → Exception → BufferPool → Type 0
  Throws at pool e pool' =
      (fetch at.next_page pool ≡ (err e, pool'))
      ⊎ ((guard : PageGuard) × (fetched : BufferPool) × (read : BufferPool) × (fetch at.next_page
              pool
            ≡ (ok guard, fetched))
          × (page guard fetched ≡ (err e, read))
          × (pool' ≡ (release guard read).1))

  -- The slot that the cursor stops at on a page, which is the first live one from its position on.
  abbrev pub IsFirst : Page → RecordCursor → ℕ → Type 0
  IsFirst seen at slot =
      (at.next_slot ≤ slot)
      × (slot < records.slot_count seen)
      × (records.contains seen slot ≡ true)
      × Dead seen at.next_slot slot

  abbrev Found : Page → RecordCursor → Option (ℕ × Result Bytes) → Type 0
  Found seen at none = Dead seen at.next_slot (records.slot_count seen)
  Found seen at (some (slot, bytes)) = IsFirst seen at slot × (bytes ≡ records.read slot seen)

  abbrev StopsAt :
      RecordCursor → BufferPool → Result (Option (ℕ × Result Bytes)) × BufferPool → Type 0
  StopsAt at pool (err e, pool') = Throws at pool e pool'
  StopsAt at pool (ok found, pool') =
      (seen : Page) × Visits at pool seen pool' × Found seen at found

  abbrev of_guard : {A : Type 0} → PageGuard → Result A × BufferPool → Result A × BufferPool
  of_guard guard (result, pool) = (result, (release guard pool).1)

  scoped-ok :
      {A : Type 0} (acquire : M PageGuard) (block : PageGuard → M A) (pool fetched : BufferPool)
      (guard : PageGuard)
      → acquire pool ≡ (ok guard, fetched)
      → scoped acquire block pool ≡ of_guard guard (block guard fetched)
  unfolding scoped
  scoped-ok acquire block pool fetched guard e = rw (ap (λ r. r.0) e, ap (λ r. r.1) e, scoped) refl

  scoped-err :
      {A : Type 0} (acquire : M PageGuard) (block : PageGuard → M A) (pool fetched : BufferPool)
      (e : Exception)
      → acquire pool ≡ (err e, fetched)
      → scoped acquire block pool ≡ (err e, fetched)
  unfolding scoped
  scoped-err acquire block pool fetched e thrown =
      rw (ap (λ r. r.0) thrown, ap (λ r. r.1) thrown, scoped) refl

  abbrev search : RecordCursor → PageGuard → M (Option (ℕ × Result Bytes))
  search at guard = do
    seen ← page guard
    elim (live_from seen (records.slot_count seen - at.next_slot) at.next_slot) [
      | none ↦ return none
      | some slot ↦ return (some (slot, records.read slot seen))
    ]

  -- What the search makes of a page.
  abbrev of_slot : Page → BufferPool → Option ℕ → Result (Option (ℕ × Result Bytes)) × BufferPool
  of_slot seen pool none = (ok none, pool)
  of_slot seen pool (some slot) = (ok (some (slot, records.read slot seen)), pool)

  abbrev chosen : Page → Option ℕ → M (Option (ℕ × Result Bytes))
  chosen seen found = elim found [
    | none ↦ return none
    | some slot ↦ return (some (slot, records.read slot seen))
  ]

  abbrev of_page :
      RecordCursor → Result Page × BufferPool → Result (Option (ℕ × Result Bytes)) × BufferPool
  of_page at r =
      let (acquired, pool) = r in
      elim acquired [
        | ok seen ↦
            chosen seen (live_from seen (records.slot_count seen - at.next_slot) at.next_slot) pool
        | err e ↦ (err e, pool)
      ]

  search-ok :
      (at : RecordCursor) (guard : PageGuard) (fetched read : BufferPool) (seen : Page)
      (found : Option ℕ)
      → page guard fetched ≡ (ok seen, read)
      → live_from seen (records.slot_count seen - at.next_slot) at.next_slot ≡ found
      → search at guard fetched ≡ of_slot seen read found
  search-ok at guard fetched read seen found g l =
      ap (of_page at) g ∙ ap (λ f. chosen seen f read) l ∙ same found
    where
      same : (f : Option ℕ) → chosen seen f read ≡ of_slot seen read f
      same none = refl
      same (some slot) = refl

  search-err :
      (at : RecordCursor) (guard : PageGuard) (fetched read : BufferPool) (e : Exception)
      → page guard fetched ≡ (err e, read)
      → search at guard fetched ≡ (err e, read)
  search-err at guard fetched read e g = ap (of_page at) g

  of_slot-StopsAt :
      (at : RecordCursor) (pool : BufferPool) (seen : Page) (guard : PageGuard)
      (fetched read : BufferPool) (found : Option ℕ)
      → fetch at.next_page pool ≡ (ok guard, fetched)
      → page guard fetched ≡ (ok seen, read)
      → Stops seen (records.slot_count seen - at.next_slot) at.next_slot found
      → StopsAt at pool (of_guard guard (of_slot seen read found))
  of_slot-StopsAt at pool seen guard fetched read none f g dead =
      (seen, (guard, fetched, read, f, g, refl), λ s low high. dead s low (omega arith))
  of_slot-StopsAt at pool seen guard fetched read (some slot) f g (low, high, alive, dead) =
      (seen, (guard, fetched, read, f, g, refl), ((low, (omega arith), alive, dead), refl))

  by_page :
      (at : RecordCursor) (pool : BufferPool) (guard : PageGuard) (fetched : BufferPool)
      → fetch at.next_page pool ≡ (ok guard, fetched)
      → (r : Result Page × BufferPool) → page guard fetched ≡ r
      → StopsAt at pool (of_guard guard (search at guard fetched))
  by_page at pool guard fetched f (err e, read) g =
      subst (λ r. StopsAt at pool (of_guard guard r)) (sym (search-err at guard fetched read e g))
        (inr (guard, fetched, read, f, g, refl))
  by_page at pool guard fetched f (ok seen, read) g =
      let found = live_from seen (records.slot_count seen - at.next_slot) at.next_slot in
      subst (λ r. StopsAt at pool (of_guard guard r))
        (sym (search-ok at guard fetched read seen found g refl))
        (of_slot-StopsAt at pool seen guard fetched read found f g
          (live_from-Stops seen (records.slot_count seen - at.next_slot) at.next_slot))

  by_fetch :
      (at : RecordCursor) (pool : BufferPool) (r : Result PageGuard × BufferPool)
      → fetch at.next_page pool ≡ r
      → StopsAt at pool (scoped (fetch at.next_page) (search at) pool)
  by_fetch at pool (err e, fetched) f =
      subst (StopsAt at pool) (sym (scoped-err (fetch at.next_page) (search at) pool fetched e f))
        (inl f)
  by_fetch at pool (ok guard, fetched) f =
      subst (StopsAt at pool)
        (sym (scoped-ok (fetch at.next_page) (search at) pool fetched guard f))
        (by_page at pool guard fetched f (page guard fetched) refl)

  stop_at-StopsAt : (at : RecordCursor) (pool : BufferPool) → StopsAt at pool (stop_at at pool)
  unfolding stop_at
  stop_at-StopsAt at pool = by_fetch at pool (fetch at.next_page pool) refl

  -- The pages of a cursor that has `left` more: a page without a live slot from the cursor's position on is passed, and on
  -- the first other page the cursor returns the first live slot and moves behind it.
  abbrev pub Walks :
      ℕ → RecordCursor → BufferPool → Result (Option Record) × RecordCursor × BufferPool → Type 0
  Walks zero at pool result = result ≡ (ok none, at, pool)
  Walks (suc left) at pool result =
      ((e : Exception) × (pool' : BufferPool) × Throws at pool e pool'
        × (result ≡ (err e, at, pool')))
      ⊎ ((seen : Page) × (pool' : BufferPool) × Visits at pool seen pool'
          × ((Dead seen at.next_slot (records.slot_count seen)
                × Walks left (record at { next_page = at.next_page + 1; next_slot = 0 }) pool'
                    result)
              ⊎ ((slot : ℕ) × IsFirst seen at slot
                  × (result ≡ (
                    record_of (record { page_id = at.next_page; slot_id = slot })
                        (records.read slot seen),
                    record at { next_slot = slot + 1 },
                    pool',
                  )))))

  abbrev stopped :
      ℕ
      → RecordCursor
      → Result (Option (ℕ × Result Bytes)) × BufferPool
      → Result (Option Record) × RecordCursor × BufferPool
  stopped left at (err e, pool) = (err e, at, pool)
  stopped left at (ok none, pool) =
      next_record left (record at { next_page = at.next_page + 1; next_slot = 0 }) pool
  stopped left at (ok (some (slot, bytes)), pool) = (
    record_of (record { page_id = at.next_page; slot_id = slot }) bytes,
    record at { next_slot = slot + 1 },
    pool,
  )

  next_record-stopped :
      (left : ℕ) (at : RecordCursor) (pool : BufferPool)
      (s : Result (Option (ℕ × Result Bytes)) × BufferPool)
      → stop_at at pool ≡ s
      → next_record (suc left) at pool ≡ stopped left at s
  unfolding next_record
  next_record-stopped left at pool (err e, pool') is =
      rw (ap (λ r. r.0) is, ap (λ r. r.1) is, next_record) refl
  next_record-stopped left at pool (ok none, pool') is =
      rw (ap (λ r. r.0) is, ap (λ r. r.1) is, next_record) refl
  next_record-stopped left at pool (ok (some (slot, bytes)), pool') is =
      rw (ap (λ r. r.0) is, ap (λ r. r.1) is, next_record) refl

  next_record-Walks :
      (left : ℕ) (at : RecordCursor) (pool : BufferPool)
      → Walks left at pool (next_record left at pool)
  unfolding next_record
  next_record-Walks zero at pool = refl
  next_record-Walks (suc left) at pool =
      subst (Walks (suc left) at pool)
        (sym (next_record-stopped left at pool (stop_at at pool) refl))
        (step (stop_at at pool) (stop_at-StopsAt at pool) (λ pool'.
          next_record-Walks left (record at { next_page = at.next_page + 1; next_slot = 0 }) pool'))
    where
      step :
          (s : Result (Option (ℕ × Result Bytes)) × BufferPool)
          → StopsAt at pool s
          → ((pool' : BufferPool)
              → Walks left
                  (record at { next_page = at.next_page + 1; next_slot = 0 })
                  pool'
                  (next_record left
                    (record at { next_page = at.next_page + 1; next_slot = 0 })
                    pool'))
          → Walks (suc left) at pool (stopped left at s)
      step (err e, pool') throws more = inl (e, pool', throws, refl)
      step (ok none, pool') (seen, visits, dead) more =
          inr (seen, pool', visits, inl (dead, more pool'))
      step (ok (some (slot, bytes)), pool') (seen, visits, (is_first, is)) more = inr (
        seen,
        pool',
        visits,
        inr (
          slot,
          is_first,
          ap
              (λ b. (
                record_of (record { page_id = at.next_page; slot_id = slot }) b,
                record at { next_slot = slot + 1 },
                pool',
              ))
              is,
        ),
      )

  -- The cursor walks the pages up to its end: it passes a page only when no slot from its position on is live, it
  -- returns the first slot that is and moves behind it, and it throws only when a page cannot be fetched or read, or the record
  -- cannot be read.
  pub next-Walks :
      (at : RecordCursor) (pool : BufferPool)
      → Walks (at.end_page - at.next_page) at pool (next at pool)
  unfolding next
  next-Walks at pool = next_record-Walks (at.end_page - at.next_page) at pool
