-- ===== src/RecordStore.antt =====
-- include/pageforge/record_store.hpp and src/record_store.cpp: records by page and slot, over the buffer
-- pool. A record store is the hint of its last insertion, with the pool that it shares.
-- The store works on any pages with the operations of `Records`, which src/page.cpp has. A guard that
-- goes out of scope is released, whether an exception is thrown or not.
pub mod Cursor
pub mod Pages
use pageforge.Prelude.{
  ℕ, zero, suc, ◌+◌, ◌-◌, ◌%◌, Bool, true, false, not, List, [], ◌∷◌, ◌++◌, length, Option, none,
  some, ltb, leb, ◌==◌, if◌then◌else◌, Result, ok, err, Exception, invalid_argument, out_of_range,
  page_full, logic_error,
}
use pageforge.Bytes.{Bytes}
use pageforge.Page.Fields.{page_size, page_header_size, slot_size}
use pageforge.BufferPool.{
  HeapFile, BufferPool, M, ◌>>=◌, ◌>>◌, return, throw, PageGuard, fetch, allocate,
}
use pageforge.BufferPool.Guard.{page, modify, release}

pub record RecordId : Type 0 where
  pub page_id : ℕ
  pub slot_id : ℕ

pub record Record : Type 0 where
  pub id : RecordId
  pub bytes : Bytes

-- What the store uses of a page.
pub record Records (Page : Type 0) : Type 0 where
  pub slot_count : Page → ℕ
  pub contains : Page → ℕ → Bool
  pub insert : Bytes → Page → Result ℕ × Page
  pub read : ℕ → Page → Result Bytes
  pub replace : ℕ → Bytes → Page → Result (Unit {0}) × Page
  pub erase : ℕ → Page → Bool × Page

module _ ⦃heap_file : HeapFile⦄ ⦃records : Records heap_file.Page⦄ where
  open heap_file use {page_count}

  -- A block that holds a guard, which is released at its end.
  unfoldable pub scoped : {A : Type 0} → M PageGuard → (PageGuard → M A) → M A
  scoped acquire block pool =
      let (acquired, pool') = acquire pool in
      elim acquired [
        | err e ↦ (err e, pool')
        | ok guard ↦ let (result, pool'') = block guard pool' in (result, (release guard pool'').1)
      ]

  abbrev pool_page_count : M ℕ
  pool_page_count pool = (ok (page_count pool.heap), pool)

  -- The constructor's hint.
  unfoldable pub first_hint : BufferPool → ℕ
  first_hint pool = if page_count pool.heap == 0 then 0 else page_count pool.heap - 1

  -- A page that is full is no error here: another page may have room.
  unfoldable pub try_insert : Bytes → PageGuard → M (Option ℕ)
  try_insert bytes guard pool =
      let (result, pool') = modify guard (records.insert bytes) pool in
      elim result [ ok slot ↦ (ok (some slot), pool') | err e ↦ full_or_thrown e pool' ]
    where
      full_or_thrown : Exception → M (Option ℕ)
      full_or_thrown Exception.page_full pool = (ok none, pool)
      full_or_thrown e pool = (err e, pool)

  -- The pages from the start page on, around the end of the file.
  unfoldable pub insert_from : ℕ → ℕ → ℕ → ℕ → Bytes → M (Option RecordId)
  insert_from zero offset start count bytes = return none
  insert_from (suc left) offset start count bytes = do
    let page_id = (start + offset) % count
    slot ← scoped (fetch page_id) (try_insert bytes)
    elim slot [
      | some slot_id ↦ return (some (record { page_id = page_id; slot_id = slot_id }))
      | none ↦ insert_from left (offset + 1) start count bytes
    ]

  -- The record's place, and the hint of the next insertion. A failure leaves the hint.
  unfoldable pub insert : ℕ → Bytes → M (RecordId × ℕ)
  insert hint bytes =
      if length bytes == 0
      then throw invalid_argument
      else if ltb (page_size - page_header_size - slot_size) (length bytes)
      then throw page_full
      else do
        count ← pool_page_count
        found ← insert_from count 0 (if ltb hint count then hint else 0) count bytes
        elim found [
          | some id ↦ return (id, id.page_id)
          | none ↦ scoped allocate (λ guard. do
            slot_id ← modify guard (records.insert bytes)
            allocated ← page guard
            let page_id = heap_file.page_id allocated
            return (record { page_id = page_id; slot_id = slot_id }, page_id))
        ]

  -- A read, which does not change the page.
  abbrev from_page : {A : Type 0} → Result A → M A
  from_page result pool = (result, pool)

  unfoldable pub read : RecordId → M Bytes
  read id =
      scoped (fetch id.page_id)
        (λ guard. do page ← page guard; from_page (records.read id.slot_id page))

  unfoldable pub replace : RecordId → Bytes → M (Unit {0})
  replace id bytes = do
    count ← pool_page_count
    if leb count id.page_id
        then throw out_of_range
        else scoped (fetch id.page_id) (λ guard. modify guard (records.replace id.slot_id bytes))

  unfoldable pub erase : RecordId → M Bool
  erase id = do
    count ← pool_page_count
    if leb count id.page_id
        then return false
        else scoped (fetch id.page_id) (λ guard. do
          page ← page guard
          if not (records.contains page id.slot_id)
              then return false
              else modify guard (λ page.
                let (erased, page') = records.erase id.slot_id page in (ok erased, page')))

  pub record RecordCursor : Type 0 where
    pub next_page : ℕ
    pub next_slot : ℕ
    pub end_page : ℕ

  unfoldable pub cursor : BufferPool → RecordCursor
  cursor pool = record { next_page = 0; next_slot = 0; end_page = page_count pool.heap }

  -- The first live slot of the slots from `slot` on.
  unfoldable pub live_from : heap_file.Page → ℕ → ℕ → Option ℕ
  live_from page zero slot = none
  live_from page (suc left) slot =
      let rest = live_from page left (slot + 1) in
      if records.contains page slot then some slot else rest

  -- The slot of a page that the cursor stops at, with what reading it gives.
  unfoldable pub stop_at : RecordCursor → M (Option (ℕ × Result Bytes))
  stop_at at = scoped (fetch at.next_page) (λ guard. do
    page ← page guard
    elim (live_from page (records.slot_count page - at.next_slot) at.next_slot) [
      | none ↦ return none
      | some slot ↦ return (some (slot, records.read slot page))
    ])

  -- The record that is returned, or what reading it throws.
  abbrev pub record_of : RecordId → Result Bytes → Result (Option Record)
  record_of id (ok bytes) = ok (some (record { id = id; bytes = bytes }))
  record_of id (err e) = err e

  -- `left` more pages up to the cursor's end.
  unfoldable pub next_record :
      ℕ → RecordCursor → BufferPool → Result (Option Record) × RecordCursor × BufferPool
  next_record zero at pool = (ok none, at, pool)
  next_record (suc left) at pool =
      let (stopped, pool') = stop_at at pool in
      elim stopped [
        | err e ↦ (err e, at, pool')
        | ok none ↦
            next_record left (record at { next_page = at.next_page + 1; next_slot = 0 }) pool'
        | ok (some (slot, bytes)) ↦ (
          record_of (record { page_id = at.next_page; slot_id = slot }) bytes,
          record at { next_slot = slot + 1 },
          pool',
        )
      ]

  -- `RecordCursor::next`.
  unfoldable pub next :
      RecordCursor → BufferPool → Result (Option Record) × RecordCursor × BufferPool
  next at pool = next_record (at.end_page - at.next_page) at pool
