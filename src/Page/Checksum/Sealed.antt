-- ===== src/Page/Checksum/Sealed.antt =====
-- A page whose checksum was updated carries the checksum of its bytes.
use pageforge.Prelude.{
  ℕ, zero, suc, ◌+◌, ◌*◌, ◌%◌, ◌^◌, ◌≤◌, ◌<◌, ◌≡◌, sym, ap, ◌∙◌, arith, [], ◌∷◌, length, le→leb,
  lt→ltb, bit_xor,
}
use pageforge.Bytes.{Bytes, copy_to, word_bytes}
use pageforge.Bytes.Slices.{
  copy_to-suc, copy_to-zero, copy_to-nil, copy_to-empty, length-word_bytes, write_word-zero,
  read_word-write_word_self,
}
use pageforge.Page.Fields.{checksum_offset, read_u32}
use pageforge.Page.Checksum.{hashed, checksum_loop, checksum, update_checksum}

hashed-inside : (i b : ℕ) → 20 ≤ i → i < 24 → hashed i b ≡ 0
unfolding hashed
hashed-inside i b low high = rw (le→leb 20 i low, lt→ltb i 24 high)

checksum_loop-inside :
    (i h b : ℕ) (bytes : Bytes)
    → 20 ≤ i
    → i < 24
    → checksum_loop i h (b ∷ bytes) ≡ checksum_loop (i + 1) (bit_xor h 0 * 16777619 % 2 ^ 32) bytes
unfolding checksum_loop hashed
checksum_loop-inside i h b bytes low high =
    ap (λ (t : ℕ). checksum_loop (i + 1) (bit_xor h t * 16777619 % 2 ^ 32) bytes)
      (hashed-inside i b low high)

-- The bytes of the checksum's own field do not count.
checksum_loop-copy_to :
    (i h : ℕ) (s bytes : Bytes) (off : ℕ)
    → 20 ≤ i + off
    → i + off + length s ≤ 24
    → checksum_loop i h (copy_to s bytes off) ≡ checksum_loop i h bytes
unfolding checksum_loop
checksum_loop-copy_to i h [] bytes off low high = ap (checksum_loop i h) (copy_to-empty bytes off)
checksum_loop-copy_to i h (x ∷ s) [] off low high = ap (checksum_loop i h) (copy_to-nil (x ∷ s) off)
checksum_loop-copy_to i h (x ∷ s) (b ∷ bytes) zero low high =
    ap (checksum_loop i h) (copy_to-zero x s b bytes)
    ∙ checksum_loop-inside i h x (copy_to s bytes 0) (omega arith) (omega arith)
    ∙ checksum_loop-copy_to (i + 1) (bit_xor h 0 * 16777619 % 2 ^ 32) s bytes 0 (omega arith)
        (omega arith)
    ∙ sym (checksum_loop-inside i h b bytes (omega arith) (omega arith))
checksum_loop-copy_to i h (x ∷ s) (b ∷ bytes) (suc off) low high =
    rw (copy_to-suc (x ∷ s) b bytes off) (
      checksum_loop-copy_to (i + 1) (bit_xor h (hashed i b) * 16777619 % 2 ^ 32) (x ∷ s) bytes off
        (omega arith) (omega arith))

checksum_loop-lt : (i h : ℕ) (bytes : Bytes) → h < 2 ^ 32 → checksum_loop i h bytes < 2 ^ 32
unfolding checksum_loop
checksum_loop-lt i h [] small = small
checksum_loop-lt i h (b ∷ bytes) small =
    checksum_loop-lt (i + 1) (bit_xor h (hashed i b) * 16777619 % 2 ^ 32) bytes (omega arith)

pub checksum-lt : (bytes : Bytes) → checksum bytes < 2 ^ 32
unfolding checksum
checksum-lt bytes = checksum_loop-lt 0 2166136261 bytes (omega arith)

pub checksum-update_checksum : (bytes : Bytes) → checksum (update_checksum bytes) ≡ checksum bytes
unfolding checksum update_checksum
checksum-update_checksum bytes =
    let field = word_bytes 4 0 (checksum bytes) in
    ap (checksum_loop 0 2166136261) (write_word-zero 4 bytes 20 (checksum bytes))
    ∙ checksum_loop-copy_to 0 2166136261 field bytes 20 (omega arith)
        (omega (arith, length-word_bytes 4 0 (checksum bytes)))

-- On a page with room for a header, the stored checksum of an updated page is the checksum of its bytes, so
-- that the checksum test of `validate` passes.
pub update_checksum-IsSealed :
    (bytes : Bytes)
    → 24 ≤ length bytes
    → read_u32 (update_checksum bytes) checksum_offset ≡ checksum (update_checksum bytes)
unfolding update_checksum
update_checksum-IsSealed bytes room =
    read_word-write_word_self 4 bytes 20 (checksum bytes) (omega (arith, checksum-lt bytes))
      (omega arith)
    ∙ sym (checksum-update_checksum bytes)
