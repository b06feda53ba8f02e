-- ===== src/Page/Records.antt =====
-- src/page.cpp: the operations on the records of a page. An operation that can throw
-- behind a change of the page returns the page also when it throws.
pub mod Frame
pub mod Initialize
pub mod Placed
pub mod Insert
use pageforge.Prelude.{
  ℕ, zero, suc, ◌+◌, ◌*◌, ◌%◌, ◌^◌, List, [], ◌∷◌, Bool, true, false, not, length, replicate,
  Option, none, some, ltb, leb, ◌==◌, Result, ok, err, invalid_argument, out_of_range, page_full,
  if◌then◌else◌,
}
use pageforge.Bytes.{Bytes, copy_to, slice}
use pageforge.Page.Fields.{
  page_size, page_header_size, slot_size, page_magic, page_version, live, version_offset,
  page_id_offset, slot_count_offset, free_start_offset, free_end_offset, read_u16, write_u16,
  write_u32, Slot, read_slot, write_slot, slot_count, is_live, sub_u16, sub_size,
}
use pageforge.Page.Checksum.{update_checksum}

unfoldable pub initialize : ℕ → Bytes
unfolding update_checksum
initialize page_id =
    let bytes = replicate page_size 0 in
    let bytes = write_u32 bytes 0 page_magic in
    let bytes = write_u16 bytes version_offset page_version in
    let bytes = write_u32 bytes page_id_offset page_id in
    let bytes = write_u16 bytes slot_count_offset 0 in
    let bytes = write_u16 bytes free_start_offset page_header_size in
    let bytes = write_u16 bytes free_end_offset page_size in update_checksum bytes

live_loop : ℕ → ℕ → ℕ → Bytes → ℕ
unfolding is_live
live_loop zero slot count page = count
live_loop (suc left) slot count page =
    live_loop left (slot + 1) (if is_live page slot then count + 1 else count) page

unfoldable pub live_records : Bytes → ℕ
unfolding live_loop
live_records page = live_loop (slot_count page) 0 0 page

unfoldable pub contains : Bytes → ℕ → Bool
unfolding is_live
contains page slot_id = if ltb slot_id (slot_count page) then is_live page slot_id else false

unfoldable pub free_space : Bytes → ℕ
free_space page = sub_size (read_u16 page free_end_offset) (read_u16 page free_start_offset)

used_loop : ℕ → ℕ → ℕ → Bytes → ℕ
unfolding is_live read_slot
used_loop zero slot used page = used
used_loop (suc left) slot used page =
    used_loop left (slot + 1)
      (if is_live page slot then used + (read_slot page slot).length else used) page

unfoldable pub reclaimable_space : Bytes → ℕ
unfolding used_loop
reclaimable_space page =
    sub_size page_size
      (page_header_size + slot_count page * slot_size + used_loop (slot_count page) 0 0 page)

tombstone : Slot
tombstone = record { offset = 0; length = 0; flags = 0 }

payload_of : Option Bytes → Bytes → Bytes
payload_of none own = own
payload_of (some other) own = other

size_of : Option Bytes → ℕ → ℕ
size_of none own = own
size_of (some other) own = length other

-- One turn of the loop of `compact` and of `replace`, on the page that it writes and the end of that
-- page's free space. The turn of `replace` for the slot that it replaces is given the record.
unfoldable pub compact_slot : Bytes → Option Bytes → ℕ → Bytes × ℕ → Bytes × ℕ
unfolding is_live read_slot write_slot copy_to tombstone payload_of size_of
compact_slot page replacement slot (compacted, free_end) =
    if not (is_live page slot)
    then (write_slot compacted slot tombstone, free_end)
    else let entry = read_slot page slot in
      let payload = payload_of replacement (slice page entry.offset entry.length) in
      let size = size_of replacement entry.length in
      let free_end' = sub_u16 free_end size in
      let moved : Slot = record { offset = free_end'; length = size % 2 ^ 16; flags = live } in
      (write_slot (copy_to payload compacted free_end') slot moved, free_end')

unfoldable pub compact_loop : Bytes → ℕ → ℕ → Bytes × ℕ → Bytes × ℕ
unfolding compact_slot
compact_loop page zero slot state = state
compact_loop page (suc left) slot state =
    compact_loop page left (slot + 1) (compact_slot page none slot state)

-- The header of a page on an empty page.
header_of : Bytes → Bytes
unfolding copy_to
header_of page = copy_to (slice page 0 page_header_size) (replicate page_size 0) 0

-- The page that a loop has written, with its free space recorded.
finish : ℕ → Bytes × ℕ → Bytes
unfolding update_checksum
finish free_start (compacted, free_end) =
    update_checksum
      (write_u16 (write_u16 compacted free_start_offset free_start) free_end_offset free_end)

unfoldable pub compact : Bytes → Bytes
unfolding compact_loop header_of finish
compact page =
    finish ((page_header_size + slot_count page * slot_size) % 2 ^ 16)
      (compact_loop page (slot_count page) 0 (header_of page, page_size))

-- The first slot whose record is deleted.
unfoldable pub find_deleted : ℕ → ℕ → Bytes → Option ℕ
unfolding is_live
find_deleted zero slot page = none
find_deleted (suc left) slot page =
    let later = find_deleted left (slot + 1) page in
    if not (is_live page slot) then some slot else later

abbrev pub is_some : Option ℕ → Bool
is_some none = false
is_some (some slot) = true

abbrev pub target_of : Option ℕ → ℕ → ℕ
target_of none count = count
target_of (some slot) count = slot

-- The record's bytes, its slot and the new end of the free space.
unfoldable pub put_record : Bytes → ℕ → ℕ → Bytes → Bytes
unfolding copy_to write_slot
put_record payload target new_end page =
    let moved : Slot = record {
      offset = new_end;
      length = length payload % 2 ^ 16;
      flags = live;
    } in
    write_u16 (write_slot (copy_to payload page new_end) target moved) free_end_offset new_end

-- A directory with one more slot.
unfoldable pub grow : Bytes → Bytes
grow page =
    let page' = write_u16 page slot_count_offset ((slot_count page + 1) % 2 ^ 16) in
    write_u16 page' free_start_offset ((page_header_size + slot_count page' * slot_size) % 2 ^ 16)

-- The part of `insert` behind its checks.
unfoldable pub place : Bytes → Bool → ℕ → Bytes → Bytes
unfolding put_record grow update_checksum
place payload reusing target page =
    let page' =
      put_record payload target (sub_u16 (read_u16 page free_end_offset) (length payload)) page in
    update_checksum (if reusing then page' else grow page')

unfoldable pub insert : Bytes → Bytes → Result ℕ × Bytes
insert payload page =
    if length payload == 0
    then (err invalid_argument, page)
    else if ltb 65535 (length payload)
    then (err page_full, page)
    else let reused = find_deleted (slot_count page) 0 page in
      let target = target_of reused (slot_count page) in
      let needed = length payload + (if is_some reused then 0 else slot_size) in
      let page' = if ltb (free_space page) needed then compact page else page in
      if ltb (free_space page') needed
      then (err page_full, page')
      else (ok target, place payload (is_some reused) target page')

unfoldable pub read : ℕ → Bytes → Result Bytes
unfolding is_live read_slot
read slot_id page =
    if leb (slot_count page) slot_id
    then err out_of_range
    else if not (is_live page slot_id)
    then err out_of_range
    else ok (slice page (read_slot page slot_id).offset (read_slot page slot_id).length)

-- The bytes of the live records but one.
payload_loop : ℕ → ℕ → ℕ → ℕ → Bytes → ℕ
unfolding is_live read_slot
payload_loop zero current slot_id total page = total
payload_loop (suc left) current slot_id total page =
    payload_loop left (current + 1) slot_id
      (if current == slot_id
        then total
        else if is_live page current
        then total + (read_slot page current).length
        else total)
      page

replace_loop : Bytes → ℕ → Bytes → ℕ → ℕ → Bytes × ℕ → Bytes × ℕ
unfolding compact_slot
replace_loop page slot_id payload zero current state = state
replace_loop page slot_id payload (suc left) current state =
    replace_loop page slot_id payload left (current + 1)
      (compact_slot page (if current == slot_id then some payload else none) current state)

unfoldable pub replace : ℕ → Bytes → Bytes → Result Bytes
unfolding contains payload_loop replace_loop header_of finish
replace slot_id payload page =
    if length payload == 0
    then err invalid_argument
    else if ltb 65535 (length payload)
    then err page_full
    else if not (contains page slot_id)
    then err out_of_range
    else let total = payload_loop (slot_count page) 0 slot_id (length payload) page in
      let directory_end = page_header_size + slot_count page * slot_size in
      if ltb page_size (directory_end + total)
      then err page_full
      else ok (
          finish (directory_end % 2 ^ 16)
            (replace_loop page slot_id payload (slot_count page) 0 (header_of page, page_size)))

unfoldable pub erase : ℕ → Bytes → Bool × Bytes
unfolding is_live write_slot tombstone update_checksum
erase slot_id page =
    if leb (slot_count page) slot_id
    then (false, page)
    else if not (is_live page slot_id)
    then (false, page)
    else (true, update_checksum (write_slot page slot_id tombstone))
