-- ===== src/Page/Fields.antt =====
-- src/page.cpp: the fields of the page header and of the slot directory.
use pageforge.Prelude.{ℕ, ◌+◌, ◌-◌, ◌*◌, ◌%◌, ◌^◌, Bool, not, drop, ◌==◌, bit_and}
use pageforge.Bytes.{Bytes, read_word, write_word}

abbrev pub page_size : ℕ
page_size = 4096

abbrev pub page_header_size : ℕ
page_header_size = 24

abbrev pub slot_size : ℕ
slot_size = 6

-- "PGFR" in little endian.
abbrev pub page_magic : ℕ
page_magic = 1380337488

abbrev pub page_version : ℕ
page_version = 1

abbrev pub live : ℕ
live = 1

abbrev pub version_offset : ℕ
version_offset = 4

abbrev pub header_flags_offset : ℕ
header_flags_offset = 6

abbrev pub page_id_offset : ℕ
page_id_offset = 8

abbrev pub slot_count_offset : ℕ
slot_count_offset = 12

abbrev pub free_start_offset : ℕ
free_start_offset = 14

abbrev pub free_end_offset : ℕ
free_end_offset = 16

abbrev pub header_reserved_offset : ℕ
header_reserved_offset = 18

abbrev pub checksum_offset : ℕ
checksum_offset = 20

abbrev pub read_u16 : Bytes → ℕ → ℕ
read_u16 bytes offset = read_word 2 0 0 (drop offset bytes)

abbrev pub read_u32 : Bytes → ℕ → ℕ
read_u32 bytes offset = read_word 4 0 0 (drop offset bytes)

abbrev pub write_u16 : Bytes → ℕ → ℕ → Bytes
write_u16 bytes offset value = write_word 2 0 bytes offset value

abbrev pub write_u32 : Bytes → ℕ → ℕ → Bytes
write_u32 bytes offset value = write_word 4 0 bytes offset value

pub record Slot : Type 0 where
  pub offset : ℕ
  pub length : ℕ
  pub flags : ℕ

abbrev pub slot_offset : ℕ → ℕ
slot_offset slot_id = page_header_size + slot_id * slot_size

unfoldable pub read_slot : Bytes → ℕ → Slot
read_slot bytes slot_id =
    let offset = slot_offset slot_id in
    record {
      offset = read_u16 bytes offset;
      length = read_u16 bytes (offset + 2);
      flags = read_u16 bytes (offset + 4);
    }

unfoldable pub write_slot : Bytes → ℕ → Slot → Bytes
write_slot bytes slot_id slot =
    let offset = slot_offset slot_id in
    let bytes' = write_u16 bytes offset slot.offset in
    let bytes'' = write_u16 bytes' (offset + 2) slot.length in
    write_u16 bytes'' (offset + 4) slot.flags

abbrev pub page_id : Bytes → ℕ
page_id bytes = read_u32 bytes page_id_offset

abbrev pub slot_count : Bytes → ℕ
slot_count bytes = read_u16 bytes slot_count_offset

-- `(read_slot(bytes_, slot).flags & kLive) != 0`
unfoldable pub is_live : Bytes → ℕ → Bool
unfolding read_slot
is_live bytes slot_id = not (bit_and (read_slot bytes slot_id).flags live == 0)

-- `static_cast<std::uint16_t>(left - right)` for two 16-bit numbers.
abbrev pub sub_u16 : ℕ → ℕ → ℕ
sub_u16 left right = (2 ^ 16 + left - right) % 2 ^ 16

-- `left - right` of `std::size_t`.
abbrev pub sub_size : ℕ → ℕ → ℕ
sub_size left right = (2 ^ 64 + left - right) % 2 ^ 64
