-- ===== src/HeapFile/Pages.antt =====
-- A page that was written is read back, and the other pages that the file holds are as they were.
use mathlib.Core.Path.{subst}
use pageforge.Prelude.{
  ℕ, ◌+◌, ◌≤◌, ◌≡◌, ◌≢◌, ◌⊎◌, inl, inr, refl, sym, ap, ◌∙◌, arith, Bool, true, false, Option, some,
  length, leb, ◌==◌, Bool-cases, Result-cases, if◌then◌else◌, Result, ok, err, out_of_range,
}
use pageforge.Bytes.{Bytes}
use pageforge.Page.Fields.{page_size, page_id}
use pageforge.Page.Validate.{validate, from_bytes}
use pageforge.HeapFile.{
  page_offset, Stream, HeapFile, require_stream, read_bytes, read_page, write_page,
}

-- A stream whose good writes are read back, and leave the bytes elsewhere that the file holds alone. A read
-- that found too few bytes may find them after a write, which fills the gap in front of it.
pub record IsStore (stream : Stream) : Type 0 where
  pub read_same :
      (offset : ℕ) (bytes : Bytes) (file file' : stream.File)
      → stream.write offset bytes file ≡ (true, file')
      → stream.read offset (length bytes) file' ≡ some bytes
  pub read_other :
      (offset : ℕ) (bytes : Bytes) (file file' : stream.File) (other count : ℕ) (old : Bytes)
      → stream.write offset bytes file ≡ (true, file')
      → (other + count ≤ offset) ⊎ (offset + length bytes ≤ other)
      → stream.read other count file ≡ some old
      → stream.read other count file' ≡ some old

offsets_apart :
    (a b : ℕ)
    → a ≢ b
    → (page_offset b + page_size ≤ page_offset a) ⊎ (page_offset a + page_size ≤ page_offset b)
offsets_apart a b h = elim (Bool-cases (leb (b + 1) a)) [
  | inl less ↦ inl (ground arith)
  | inr more ↦ inr (let apart = h in ground arith)
]

module _ (stream : Stream) (store : IsStore stream) where
  -- What a write that returned did.
  written :
      (page : Bytes) (heap heap' : HeapFile stream)
      → write_page stream page heap ≡ (ok tt, heap')
      → (leb heap.page_count (page_id page) ≡ false)
        × (validate page ≡ ok tt)
        × (stream.write (page_offset (page_id page)) page heap.file ≡ (true, heap'.file))
        × (heap'.page_count ≡ heap.page_count)
  unfolding write_page
  written page heap heap' e = elim (Bool-cases (leb heap.page_count (page_id page))) [
    | inl outside ↦ absurd (let e' = rw (outside, write_page) at e in cc)
    | inr inside ↦ elim (Result-cases (validate page)) [
      | inr (thrown, bad) ↦ absurd (let e' = rw (inside, bad, write_page) at e in cc)
      | inl (valid, good) ↦
          let e' = rw (inside, good, write_page) at e in
          (
            inside,
            good,
            done (stream.write (page_offset (page_id page)) page heap.file) e',
            ap (λ r. r.1.page_count) (sym e'),
          )
    ]
  ]
    where
      done :
          (w : Bool × stream.File)
          → require_stream stream w heap ≡ (ok tt, heap')
          → w ≡ (true, heap'.file)
      done (true, file) r = ap (λ x. (true, x.1.file)) r
      done (false, file) r = absurd cc

  read_bytes-valid :
      (page : Bytes)
      → validate page ≡ ok tt
      → read_bytes stream (page_id page) (some page) ≡ ok page
  unfolding read_bytes from_bytes
  read_bytes-valid page valid = rw (valid, equal (page_id page)) refl
    where
      equal : (n : ℕ) → (n == n) ≡ true
      equal n = ground arith

  read_page-inside :
      (id : ℕ) (heap : HeapFile stream)
      → leb heap.page_count id ≡ false
      → read_page stream id heap
        ≡ (read_bytes stream id (stream.read (page_offset id) page_size heap.file), heap)
  unfolding read_page
  read_page-inside id heap inside =
      ap
        (λ (outside : Bool).
          if outside
          then (err out_of_range, heap)
          else (read_bytes stream id (stream.read (page_offset id) page_size heap.file), heap))
        inside

  read_page-other :
      (page : Bytes) (heap heap' : HeapFile stream) (id : ℕ) (old : Bytes)
      → length page ≡ page_size
      → stream.write (page_offset (page_id page)) page heap.file ≡ (true, heap'.file)
      → heap'.page_count ≡ heap.page_count
      → id ≢ page_id page
      → stream.read (page_offset id) page_size heap.file ≡ some old
      → (read_page stream id heap').0 ≡ (read_page stream id heap).0
  unfolding read_page
  read_page-other page heap heap' id old whole good count differs held =
      let bytes =
        store.read_other (page_offset (page_id page)) page heap.file heap'.file (page_offset id)
          page_size old good
          (subst
            (λ (n : ℕ).
              (page_offset id + page_size ≤ page_offset (page_id page))
              ⊎ (page_offset (page_id page) + n ≤ page_offset id))
            (sym whole) (offsets_apart (page_id page) id (λ same. differs (sym same))))
          held in
      ap (λ (n : ℕ). result (leb n id) (stream.read (page_offset id) page_size heap'.file) heap')
        count
      ∙ ap (λ (b : Option Bytes). result (leb heap.page_count id) b heap') (bytes ∙ sym held)
      ∙ either (leb heap.page_count id) (stream.read (page_offset id) page_size heap.file)
    where
      attempt : Bool → Option Bytes → HeapFile stream → Result Bytes × HeapFile stream
      attempt outside b h = if outside then (err out_of_range, h) else (read_bytes stream id b, h)

      result : Bool → Option Bytes → HeapFile stream → Result Bytes
      result outside b h = (attempt outside b h).0

      either : (outside : Bool) (b : Option Bytes) → result outside b heap' ≡ result outside b heap
      either true b = refl
      either false b = refl

  -- A page of 4096 bytes whose write returned is read back from its position, and every other page
  -- id whose bytes the file held reads as before, in a heap file whose stream keeps what good writes write.
  pub read_page-write_page :
      (page : Bytes) (heap heap' : HeapFile stream)
      → length page ≡ page_size
      → write_page stream page heap ≡ (ok tt, heap')
      → (read_page stream (page_id page) heap' ≡ (ok page, heap'))
        × ((id : ℕ) (old : Bytes)
            → id ≢ page_id page
            → stream.read (page_offset id) page_size heap.file ≡ some old
            → (read_page stream id heap').0 ≡ (read_page stream id heap).0)
  read_page-write_page page heap heap' whole e =
      let (inside, valid, good, count) = written page heap heap' e in
      let bytes =
        subst (λ (n : ℕ). stream.read (page_offset (page_id page)) n heap'.file ≡ some page) whole
          (store.read_same (page_offset (page_id page)) page heap.file heap'.file good) in
      (
        read_page-inside (page_id page) heap' (ap (λ (n : ℕ). leb n (page_id page)) count ∙ inside)
            ∙ ap (λ (b : Option Bytes). (read_bytes stream (page_id page) b, heap')) bytes
            ∙ ap (λ (r : Result Bytes). (r, heap')) (read_bytes-valid page valid),
        λ id old differs held. read_page-other page heap heap' id old whole good count differs held,
      )
