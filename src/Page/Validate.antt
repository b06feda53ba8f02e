-- ===== src/Page/Validate.antt =====
-- src/page.cpp: what a page read from a file has to satisfy.
use pageforge.Prelude.{
  ℕ, zero, suc, ◌+◌, ◌*◌, List, Bool, true, false, not, ◌&&◌, ◌||◌, replicate, set, get_or, ltb,
  ◌==◌, Result, ok, err, ◌>>=◌, ◌>>◌, throw_if, page_corruption, if◌then◌else◌,
}
use pageforge.Bytes.{Bytes}
use pageforge.Page.Fields.{
  page_size, page_header_size, slot_size, page_magic, page_version, live, version_offset,
  header_flags_offset, free_start_offset, free_end_offset, header_reserved_offset, checksum_offset,
  read_u16, read_u32, Slot, read_slot, slot_count,
}
use pageforge.Page.Checksum.{checksum}

-- Marks `count` bytes, each of which must be unmarked.
unfoldable pub occupy : ℕ → ℕ → List Bool → Result (List Bool)
occupy zero index occupied = ok occupied
occupy (suc count) index occupied =
    let rest = occupy count (index + 1) (set occupied index true) in
    if get_or occupied index false then err page_corruption else rest

unfoldable pub check_slot : Slot → ℕ → List Bool → Result (List Bool)
unfolding occupy
check_slot slot free_end occupied =
    if not (slot.flags == 0) && not (slot.flags == live)
    then err page_corruption
    else if slot.flags == 0
    then (if not (slot.offset == 0) || not (slot.length == 0)
        then err page_corruption
        else ok occupied)
    else if (slot.length == 0)
        || ltb slot.offset free_end
        || ltb page_size (slot.offset + slot.length)
    then err page_corruption
    else occupy slot.length slot.offset occupied

unfoldable pub check_slots : ℕ → ℕ → ℕ → Bytes → List Bool → Result (Unit {0})
unfolding check_slot read_slot
check_slots zero slot_id free_end page occupied = ok tt
check_slots (suc left) slot_id free_end page occupied = do
  occupied' ← check_slot (read_slot page slot_id) free_end occupied
  check_slots left (slot_id + 1) free_end page occupied'

unfoldable pub validate : Bytes → Result (Unit {0})
unfolding checksum check_slots
validate page = do
  throw_if (not (read_u32 page 0 == page_magic)) page_corruption
  throw_if (not (read_u16 page version_offset == page_version)) page_corruption
  throw_if (not (read_u32 page checksum_offset == checksum page)) page_corruption
  throw_if
      (not (read_u16 page header_flags_offset == 0)
        || not (read_u16 page header_reserved_offset == 0))
      page_corruption
  let free_start = read_u16 page free_start_offset
  let free_end = read_u16 page free_end_offset
  throw_if
      (not (free_start == page_header_size + slot_count page * slot_size)
        || ltb free_end free_start
        || ltb page_size free_end)
      page_corruption
  check_slots (slot_count page) 0 free_end page (replicate page_size false)

unfoldable pub from_bytes : Bytes → Result Bytes
unfolding validate
from_bytes bytes = do validate bytes; ok bytes
