-- ===== src/Page/Records/Initialize.antt =====
-- A new page is well formed, and has no slot.
use pageforge.Prelude.{ℕ, ◌≡◌, ◌∙◌, arith, inl, length, length-replicate, replicate}
use pageforge.Bytes.{Bytes}
use pageforge.Bytes.Slices.{
  length-write_word, read_word-write_word_self, read_word-write_word-Apart,
}
use pageforge.Page.Fields.{
  page_size, page_magic, page_version, page_header_size, read_u16, write_u16, write_u32, slot_count,
}
use pageforge.Page.Invariant.{IsFormed}
use pageforge.Page.Records.{initialize}
use pageforge.Page.Records.Frame.{length-update_checksum}
use pageforge.Page.Records.Placed.{update_checksum-header}

-- The page in front of the writes of the slot count and the free space.
abbrev fresh : ℕ → Bytes
fresh page_id =
    write_u32 (write_u16 (write_u32 (replicate page_size 0) 0 page_magic) 4 page_version) 8 page_id

abbrev counted : ℕ → Bytes
counted page_id = write_u16 (fresh page_id) 12 0

abbrev started : ℕ → Bytes
started page_id = write_u16 (counted page_id) 14 page_header_size

length-fresh : (page_id : ℕ) → length (fresh page_id) ≡ 4096
length-fresh page_id =
    length-write_word 4 _ 8 page_id
    ∙ length-write_word 2 _ 4 page_version
    ∙ length-write_word 4 _ 0 page_magic
    ∙ length-replicate {A = ℕ} 4096 0

length-counted : (page_id : ℕ) → length (counted page_id) ≡ 4096
length-counted page_id = length-write_word 2 (fresh page_id) 12 0 ∙ length-fresh page_id

length-started : (page_id : ℕ) → length (started page_id) ≡ 4096
length-started page_id = length-write_word 2 (counted page_id) 14 24 ∙ length-counted page_id

initialize-slot_count : (page_id : ℕ) → slot_count (initialize page_id) ≡ 0
unfolding initialize
initialize-slot_count page_id =
    update_checksum-header _ 12 (omega arith)
    ∙ read_word-write_word-Apart 2 (started page_id) 16 4096 2 12 (inl (omega arith))
    ∙ read_word-write_word-Apart 2 (counted page_id) 14 24 2 12 (inl (omega arith))
    ∙ read_word-write_word_self 2 (fresh page_id) 12 0 (omega arith)
        (omega (arith, length-fresh page_id))

initialize-free_start : (page_id : ℕ) → read_u16 (initialize page_id) 14 ≡ 24
unfolding initialize
initialize-free_start page_id =
    update_checksum-header _ 14 (omega arith)
    ∙ read_word-write_word-Apart 2 (started page_id) 16 4096 2 14 (inl (omega arith))
    ∙ read_word-write_word_self 2 (counted page_id) 14 24 (omega arith)
        (omega (arith, length-counted page_id))

initialize-free_end : (page_id : ℕ) → read_u16 (initialize page_id) 16 ≡ 4096
unfolding initialize
initialize-free_end page_id =
    update_checksum-header _ 16 (omega arith)
    ∙ read_word-write_word_self 2 (started page_id) 16 4096 (omega arith)
        (omega (arith, length-started page_id))

length-initialize : (page_id : ℕ) → length (initialize page_id) ≡ 4096
unfolding initialize
length-initialize page_id =
    length-update_checksum _
    ∙ length-write_word 2 (started page_id) 16 4096
    ∙ length-started page_id

-- A new page is well formed, whatever its number is, and all of it behind the header is free.
pub initialize-IsFormed :
    (page_id : ℕ)
    → IsFormed (initialize page_id)
      × (read_u16 (initialize page_id) 14 ≡ 24)
      × (read_u16 (initialize page_id) 16 ≡ 4096)
unfolding IsFormed
initialize-IsFormed page_id =
    let count = initialize-slot_count page_id in
    let start = initialize-free_start page_id in
    let end = initialize-free_end page_id in
    (
      (
        length-initialize page_id,
        (omega arith),
        (omega arith),
        (omega arith),
        λ s inside alive. absurd (omega arith),
      ),
      start,
      end,
    )
