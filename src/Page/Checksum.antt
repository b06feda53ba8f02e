-- ===== src/Page/Checksum.antt =====
-- src/page.cpp: the checksum, FNV-1a of the page with its own field as zeros.
pub mod Sealed
use pageforge.Prelude.{
  ℕ, zero, suc, ◌+◌, ◌*◌, ◌%◌, ◌^◌, List, [], ◌∷◌, Bool, ◌&&◌, leb, ltb, bit_xor, if◌then◌else◌,
}
use pageforge.Bytes.{Bytes}
use pageforge.Page.Fields.{checksum_offset, write_u32}

-- The byte that is hashed at an index.
unfoldable pub hashed : ℕ → ℕ → ℕ
hashed index b = if leb checksum_offset index && ltb index (checksum_offset + 4) then 0 else b

unfoldable pub checksum_loop : ℕ → ℕ → Bytes → ℕ
unfolding hashed
checksum_loop index hash [] = hash
checksum_loop index hash (b ∷ bytes) =
    checksum_loop (index + 1) (bit_xor hash (hashed index b) * 16777619 % 2 ^ 32) bytes

unfoldable pub checksum : Bytes → ℕ
unfolding checksum_loop
checksum bytes = checksum_loop 0 2166136261 bytes

unfoldable pub update_checksum : Bytes → Bytes
unfolding checksum
update_checksum bytes = write_u32 bytes checksum_offset (checksum bytes)
