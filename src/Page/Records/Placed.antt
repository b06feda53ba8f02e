-- ===== src/Page/Records/Placed.antt =====
-- The page that `place` leaves: what it has written, and that the rest is as it was.
use pageforge.Prelude.{
  ℕ, ◌+◌, ◌*◌, ◌%◌, ◌^◌, ◌≤◌, ◌<◌, ◌≡◌, ◌∙◌, arith, Bool, true, false, inl, inr, length,
  if◌then◌else◌,
}
use pageforge.Bytes.{Bytes, copy_to, slice}
use pageforge.Bytes.Slices.{
  Apart, length-write_word, slice-copy_to_self, slice-write_word-Apart, read_word-slice,
  read_word-write_word_self, read_word-write_word-Apart, length-copy_to,
}
use pageforge.Page.Fields.{
  slot_offset, slot_count, read_slot, write_slot, read_u16, write_u16, sub_u16,
}
use pageforge.Page.Checksum.{update_checksum}
use pageforge.Page.Records.{put_record, grow, place}
use pageforge.Page.Records.Frame.{
  slice-write_slot, length-write_slot, slice-put_record, length-put_record, slice-grow, length-grow,
  slice-update_checksum, length-update_checksum, read_slot-write_slot_self, read_slot-slice,
}

-- The insertion point of a record of `n` bytes, with the slot it takes.
abbrev pub Room : Bytes → ℕ → ℕ → ℕ → Type 0
Room page t e n =
    (length page ≡ 4096) × (slot_offset t + 6 ≤ e) × (e + n ≤ 4096) × (e < 2 ^ 16) × (n < 2 ^ 16)

-- What an insertion writes is read back from the page it leaves.
pub slice-place :
    (payload : Bytes) (reusing : Bool) (t : ℕ) (page : Bytes) (o n : ℕ)
    → 24 ≤ o
    → Apart o n (sub_u16 (read_u16 page 16) (length payload)) (length payload)
    → Apart o n (slot_offset t) 6
    → slice (place payload reusing t page) o n ≡ slice page o n
unfolding place
slice-place payload true t page o n low apart_payload apart_slot =
    slice-update_checksum _ o n (inr low)
    ∙ slice-put_record payload t _ page o n apart_payload apart_slot (inr (omega arith))
slice-place payload false t page o n low apart_payload apart_slot =
    slice-update_checksum _ o n (inr low)
    ∙ slice-grow _ o n (inr (omega arith))
    ∙ slice-put_record payload t _ page o n apart_payload apart_slot (inr (omega arith))

-- Behind the header, the last steps leave what `put_record` has written.
pub place-put_record :
    (payload : Bytes) (reusing : Bool) (t : ℕ) (page : Bytes) (o n : ℕ)
    → 24 ≤ o
    → slice (place payload reusing t page) o n
      ≡ slice (put_record payload t (sub_u16 (read_u16 page 16) (length payload)) page) o n
unfolding place
place-put_record payload true t page o n low = slice-update_checksum _ o n (inr low)
place-put_record payload false t page o n low =
    slice-update_checksum _ o n (inr low) ∙ slice-grow _ o n (inr (omega arith))

pub put_record-payload :
    (payload : Bytes) (t e : ℕ) (page : Bytes)
    → Room page t e (length payload)
    → slice (put_record payload t e page) e (length payload) ≡ payload
unfolding put_record
put_record-payload payload t e page (size, directory, inside, small_e, small_n) =
    slice-write_word-Apart 2 _ 16 e e (length payload) (inr (omega arith))
    ∙ slice-write_slot (copy_to payload page e) t _ e (length payload) (inr directory)
    ∙ slice-copy_to_self payload page e (omega arith)

pub put_record-slot :
    (payload : Bytes) (t e : ℕ) (page : Bytes)
    → Room page t e (length payload)
    → read_slot (put_record payload t e page) t
      ≡ record { offset = e; length = length payload % 2 ^ 16; flags = 1 }
unfolding put_record
put_record-slot payload t e page (size, directory, inside, small_e, small_n) =
    read_slot-slice (write_slot (copy_to payload page e) t _) _ t
      (λ o n low high. slice-write_word-Apart 2 _ 16 e o n (inr (omega arith)))
    ∙ read_slot-write_slot_self (copy_to payload page e) t _
        (omega (arith, length-copy_to payload page e)) small_e (omega arith) (omega arith)

grow-slot_count :
    (page : Bytes)
    → 24 ≤ length page
    → slot_count page + 1 < 2 ^ 16
    → slot_count (grow page) ≡ slot_count page + 1
unfolding grow
grow-slot_count page header small =
    read_word-write_word-Apart 2 _ 14 _ 2 12 (inl (omega arith))
    ∙ read_word-write_word_self 2 page 12 _ (omega arith) (omega arith)
    ∙ (omega arith)

grow-free_start :
    (page : Bytes)
    → 24 ≤ length page
    → 24 + (slot_count page + 1) * 6 < 2 ^ 16
    → read_u16 (grow page) 14 ≡ 24 + (slot_count page + 1) * 6
unfolding grow
grow-free_start page header small =
    let page' = write_u16 page 12 ((slot_count page + 1) % 2 ^ 16) in
    let count : slot_count page' ≡ slot_count page + 1 =
      read_word-write_word_self 2 page 12 _ (omega arith) (omega arith) ∙ (omega arith) in
    read_word-write_word_self 2 page' 14 _ (omega arith)
      (omega (arith, length-write_word 2 page 12 ((slot_count page + 1) % 2 ^ 16)))
    ∙ (omega arith)

put_record-header :
    (payload : Bytes) (t e : ℕ) (page : Bytes) (o : ℕ)
    → 24 ≤ e
    → o + 2 ≤ 16
    → read_u16 (put_record payload t e page) o ≡ read_u16 page o
put_record-header payload t e page o low header =
    read_word-slice 2 page (put_record payload t e page) o
      (slice-put_record payload t e page o 2 (inl (omega arith)) (inl (omega arith)) (inl header))

put_record-free_end :
    (payload : Bytes) (t e : ℕ) (page : Bytes)
    → 24 ≤ length page
    → e < 2 ^ 16
    → read_u16 (put_record payload t e page) 16 ≡ e
unfolding put_record
put_record-free_end payload t e page header small = read_word-write_word_self 2 _ 16 e small (
    omega (
      arith,
      length-write_slot (copy_to payload page e) t
          (record { offset = e; length = length payload % 2 ^ 16; flags = 1 }),
      length-copy_to payload page e,
    ))

pub update_checksum-header :
    (page : Bytes) (o : ℕ) → o + 2 ≤ 20 → read_u16 (update_checksum page) o ≡ read_u16 page o
update_checksum-header page o header =
    read_word-slice 2 page (update_checksum page) o (slice-update_checksum page o 2 (inl header))

grow-free_end : (page : Bytes) → read_u16 (grow page) 16 ≡ read_u16 page 16
grow-free_end page =
    read_word-slice 2 page (grow page) 16 (slice-grow page 16 2 (inr (omega arith)))

pub place-slot_count :
    (payload : Bytes) (reusing : Bool) (t e : ℕ) (page : Bytes)
    → Room page t e (length payload)
    → sub_u16 (read_u16 page 16) (length payload) ≡ e
    → slot_count page + 1 < 2 ^ 16
    → slot_count (place payload reusing t page)
      ≡ (if reusing then slot_count page else slot_count page + 1)
unfolding place
place-slot_count payload true t e page room end small = rw end (
    update_checksum-header _ 12 (omega arith)
    ∙ put_record-header payload t e page 12 (omega arith) (omega arith))
place-slot_count payload false t e page room end small =
    let same = put_record-header payload t e page 12 (omega arith) (omega arith) in
    rw end (
      update_checksum-header _ 12 (omega arith)
      ∙ grow-slot_count (put_record payload t e page)
          (omega (arith, length-put_record payload t e page)) (omega arith)
      ∙ (omega arith))

pub place-free_end :
    (payload : Bytes) (reusing : Bool) (t e : ℕ) (page : Bytes)
    → Room page t e (length payload)
    → sub_u16 (read_u16 page 16) (length payload) ≡ e
    → read_u16 (place payload reusing t page) 16 ≡ e
unfolding place
place-free_end payload true t e page room end = rw end (
    update_checksum-header _ 16 (omega arith)
    ∙ put_record-free_end payload t e page (omega arith) (omega arith))
place-free_end payload false t e page room end = rw end (
    update_checksum-header _ 16 (omega arith)
    ∙ grow-free_end (put_record payload t e page)
    ∙ put_record-free_end payload t e page (omega arith) (omega arith))

pub place-free_start :
    (payload : Bytes) (reusing : Bool) (t e : ℕ) (page : Bytes)
    → Room page t e (length payload)
    → sub_u16 (read_u16 page 16) (length payload) ≡ e
    → 24 + (slot_count page + 1) * 6 < 2 ^ 16
    → read_u16 page 14 ≡ 24 + slot_count page * 6
    → read_u16 (place payload reusing t page) 14
      ≡ 24 + (if reusing then slot_count page else slot_count page + 1) * 6
unfolding place
place-free_start payload true t e page room end small start = rw end (
    update_checksum-header _ 14 (omega arith)
    ∙ put_record-header payload t e page 14 (omega arith) (omega arith)
    ∙ start)
place-free_start payload false t e page room end small start =
    let same = put_record-header payload t e page 12 (omega arith) (omega arith) in
    rw end (
      update_checksum-header _ 14 (omega arith)
      ∙ grow-free_start (put_record payload t e page)
          (omega (arith, length-put_record payload t e page)) (omega arith)
      ∙ (omega arith))

pub length-place :
    (payload : Bytes) (reusing : Bool) (t : ℕ) (page : Bytes)
    → length (place payload reusing t page) ≡ length page
unfolding place
length-place payload true t page = length-update_checksum _ ∙ length-put_record payload t _ page
length-place payload false t page =
    length-update_checksum _ ∙ length-grow _ ∙ length-put_record payload t _ page
