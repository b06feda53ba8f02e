-- ===== src/Page/Records/Frame.antt =====
-- Which bytes of a page the steps of an insertion leave as they are, and what they write.
use pageforge.Prelude.{ℕ, ◌+◌, ◌^◌, ◌≤◌, ◌<◌, ◌≡◌, ◌∙◌, arith, inl, inr, length}
use pageforge.Bytes.{Bytes, copy_to, slice}
use pageforge.Bytes.Slices.{
  Apart, slice-copy_to-Apart, slice-write_word-Apart, read_word-slice, read_word-write_word_self,
  read_word-write_word-Apart, length-copy_to, length-write_word,
}
use pageforge.Page.Fields.{slot_offset, Slot, read_slot, write_slot, write_u16}
use pageforge.Page.Checksum.{update_checksum, checksum}
use pageforge.Page.Records.{put_record, grow}

-- Two ranges that are apart are so in their parts.
Apart-part : (o n off m k j : ℕ) → Apart o n off m → k + j ≤ m → Apart o n (off + k) j
Apart-part o n off m k j (inl before) inside = inl (omega arith)
Apart-part o n off m k j (inr behind) inside = inr (omega arith)

pub slice-write_slot :
    (bytes : Bytes) (t : ℕ) (slot : Slot) (o n : ℕ)
    → Apart o n (slot_offset t) 6
    → slice (write_slot bytes t slot) o n ≡ slice bytes o n
unfolding write_slot
slice-write_slot bytes t slot o n apart =
    let off = slot_offset t in
    let bytes' = write_u16 bytes off slot.offset in
    let bytes'' = write_u16 bytes' (off + 2) slot.length in
    slice-write_word-Apart 2 bytes'' (off + 4) slot.flags o n
      (Apart-part o n off 6 4 2 apart (omega arith))
    ∙ slice-write_word-Apart 2 bytes' (off + 2) slot.length o n
        (Apart-part o n off 6 2 2 apart (omega arith))
    ∙ slice-write_word-Apart 2 bytes off slot.offset o n (Apart-first o n off apart)
  where
    Apart-first : (o n off : ℕ) → Apart o n off 6 → Apart o n off 2
    Apart-first o n off (inl before) = inl before
    Apart-first o n off (inr behind) = inr (omega arith)

pub length-write_slot :
    (bytes : Bytes) (t : ℕ) (slot : Slot) → length (write_slot bytes t slot) ≡ length bytes
unfolding write_slot
length-write_slot bytes t slot =
    let off = slot_offset t in
    let bytes' = write_u16 bytes off slot.offset in
    let bytes'' = write_u16 bytes' (off + 2) slot.length in
    length-write_word 2 bytes'' (off + 4) slot.flags
    ∙ length-write_word 2 bytes' (off + 2) slot.length
    ∙ length-write_word 2 bytes off slot.offset

pub slice-put_record :
    (payload : Bytes) (t e : ℕ) (page : Bytes) (o n : ℕ)
    → Apart o n e (length payload)
    → Apart o n (slot_offset t) 6
    → Apart o n 16 2
    → slice (put_record payload t e page) o n ≡ slice page o n
unfolding put_record
slice-put_record payload t e page o n apart_payload apart_slot apart_end =
    slice-write_word-Apart 2 _ 16 e o n apart_end
    ∙ slice-write_slot (copy_to payload page e) t _ o n apart_slot
    ∙ slice-copy_to-Apart payload page e o n apart_payload

pub length-put_record :
    (payload : Bytes) (t e : ℕ) (page : Bytes) → length (put_record payload t e page) ≡ length page
unfolding put_record
length-put_record payload t e page =
    length-write_word 2 _ 16 e
    ∙ length-write_slot (copy_to payload page e) t _
    ∙ length-copy_to payload page e

pub slice-grow : (page : Bytes) (o n : ℕ) → Apart o n 12 4 → slice (grow page) o n ≡ slice page o n
unfolding grow
slice-grow page o n apart =
    slice-write_word-Apart 2 _ 14 _ o n (Apart-part o n 12 4 2 2 apart (omega arith))
    ∙ slice-write_word-Apart 2 page 12 _ o n (Apart-part o n 12 4 0 2 apart (omega arith))

pub length-grow : (page : Bytes) → length (grow page) ≡ length page
unfolding grow
length-grow page = length-write_word 2 _ 14 _ ∙ length-write_word 2 page 12 _

pub slice-update_checksum :
    (page : Bytes) (o n : ℕ) → Apart o n 20 4 → slice (update_checksum page) o n ≡ slice page o n
unfolding update_checksum
slice-update_checksum page o n apart = slice-write_word-Apart 4 page 20 (checksum page) o n apart

pub length-update_checksum : (page : Bytes) → length (update_checksum page) ≡ length page
unfolding update_checksum
length-update_checksum page = length-write_word 4 page 20 (checksum page)

-- The fields of a slot that was written.
pub read_slot-write_slot_self :
    (bytes : Bytes) (t : ℕ) (slot : Slot)
    → slot_offset t + 6 ≤ length bytes
    → slot.offset < 2 ^ 16
    → slot.length < 2 ^ 16
    → slot.flags < 2 ^ 16
    → read_slot (write_slot bytes t slot) t ≡ slot
unfolding read_slot write_slot
read_slot-write_slot_self bytes t slot room small_offset small_length small_flags =
    let off = slot_offset t in
    let bytes' = write_u16 bytes off slot.offset in
    let bytes'' = write_u16 bytes' (off + 2) slot.length in
    let size' = length-write_word 2 bytes off slot.offset in
    let size'' = length-write_word 2 bytes' (off + 2) slot.length in
    Slot-eq
      (read_word-write_word-Apart 2 bytes'' (off + 4) slot.flags 2 off (inl (omega arith))
        ∙ read_word-write_word-Apart 2 bytes' (off + 2) slot.length 2 off (inl (omega arith))
        ∙ read_word-write_word_self 2 bytes off slot.offset (omega arith) (omega arith))
      (read_word-write_word-Apart 2 bytes'' (off + 4) slot.flags 2 (off + 2) (inl (omega arith))
        ∙ read_word-write_word_self 2 bytes' (off + 2) slot.length (omega arith) (omega arith))
      (read_word-write_word_self 2 bytes'' (off + 4) slot.flags (omega arith) (omega arith))
  where
    Slot-eq : {a b : Slot} → a.offset ≡ b.offset → a.length ≡ b.length → a.flags ≡ b.flags → a ≡ b
    Slot-eq p q r = λ i. record { offset = p i; length = q i; flags = r i }

-- A slot is read from its six bytes.
pub read_slot-slice :
    (bytes bytes' : Bytes) (t : ℕ)
    → ((o n : ℕ)
        → slot_offset t ≤ o
        → o + n ≤ slot_offset t + 6
        → slice bytes' o n ≡ slice bytes o n)
    → read_slot bytes' t ≡ read_slot bytes t
unfolding read_slot
read_slot-slice bytes bytes' t same =
    let off = slot_offset t in
    let first = read_word-slice 2 bytes bytes' off (same off 2 (omega arith) (omega arith)) in
    let second =
      read_word-slice 2 bytes bytes' (off + 2) (same (off + 2) 2 (omega arith) (omega arith)) in
    let third =
      read_word-slice 2 bytes bytes' (off + 4) (same (off + 4) 2 (omega arith) (omega arith)) in
    λ i. record { offset = first i; length = second i; flags = third i }
