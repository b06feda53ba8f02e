-- ===== src/Bytes.antt =====
-- Byte strings and the little-endian integer fields of every on-disk format: the `append_u16/32/64`,
-- `read_u16/32/64`, `write_u16/32/64` and `require_bytes` that src/page.cpp, src/tuple.cpp,
-- src/table_store.cpp, src/catalog.cpp, src/heap_file.cpp and src/bplus_tree.cpp each define again.
-- A byte is a number below 256 and a byte vector is a list of them. A reader that takes a span and an
-- offset by reference is modelled on the bytes that are left of the span from the offset on.
pub mod Bits
pub mod Words
pub mod Slices
pub mod Compare
use pageforge.Prelude.{
  ℕ, zero, suc, ◌+◌, ◌*◌, ◌/◌, ◌%◌, ◌^◌, ◌<◌, bit_or, List, [], ◌∷◌, ◌++◌, Bool, not, length, take,
  drop, set, get_or, ltb, Result, ok, err, ◌>>=◌, ◌>>◌, throw_if, Exception,
}

abbrev pub Bytes : Type 0
Bytes = List ℕ

abbrev pub IsByte : ℕ → Type 0
IsByte b = b < 256

-- `static_cast<std::byte>((value >> (index * 8U)) & 0xffU)`
abbrev pub byte_at : ℕ → ℕ → ℕ
byte_at value index = value / 2 ^ (index * 8) % 256

-- The bytes that the loop `for (index = index; count more rounds; ++index)` pushes.
unfoldable pub word_bytes : ℕ → ℕ → ℕ → Bytes
word_bytes zero index value = []
word_bytes (suc count) index value = byte_at value index ∷ word_bytes count (index + 1) value

abbrev pub append_u16 : Bytes → ℕ → Bytes
append_u16 output value = output ++ word_bytes 2 0 value

abbrev pub append_u32 : Bytes → ℕ → Bytes
append_u32 output value = output ++ word_bytes 4 0 value

abbrev pub append_u64 : Bytes → ℕ → Bytes
append_u64 output value = output ++ word_bytes 8 0 value

-- `value |= static_cast<T>(bytes[offset + index]) << (index * 8U)`, for `count` more rounds.
unfoldable pub read_word : ℕ → ℕ → ℕ → Bytes → ℕ
read_word zero index value bytes = value
read_word (suc count) index value [] = value
read_word (suc count) index value (b ∷ bytes) =
    read_word count (index + 1) (bit_or value (b * 2 ^ (index * 8))) bytes

-- Throws `e` when fewer than `count` bytes are left.
abbrev pub require_bytes : Exception → Bytes → ℕ → Result (Unit {0})
require_bytes e bytes count = throw_if (ltb (length bytes) count) e

-- A checked read: the value, and the bytes behind the new offset.
abbrev pub take_word : Exception → ℕ → Bytes → Result (ℕ × Bytes)
take_word e count bytes = do
  require_bytes e bytes count
  ok (read_word count 0 0 bytes, drop count bytes)

-- `std::string(begin, length)` at the offset, behind `require_bytes(bytes, offset, length)`.
abbrev pub take_bytes : Exception → ℕ → Bytes → Result (Bytes × Bytes)
take_bytes e count bytes = do require_bytes e bytes count; ok (take count bytes, drop count bytes)

-- `bytes[offset + index] = (value >> (index * 8U)) & 0xffU`, in place.
unfoldable pub write_word : ℕ → ℕ → Bytes → ℕ → ℕ → Bytes
write_word zero index bytes offset value = bytes
write_word (suc count) index bytes offset value =
    write_word count (index + 1) (set bytes (offset + index) (byte_at value index)) offset value

-- `std::copy(source.begin(), source.end(), bytes.begin() + offset)`
unfoldable pub copy_to : Bytes → Bytes → ℕ → Bytes
copy_to [] bytes offset = bytes
copy_to (b ∷ source) bytes offset = copy_to source (set bytes offset b) (offset + 1)

-- The bytes of `bytes.begin() + offset` to `bytes.begin() + offset + count`.
abbrev pub slice : Bytes → ℕ → ℕ → Bytes
slice bytes offset count = take count (drop offset bytes)
