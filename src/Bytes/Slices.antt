-- ===== src/Bytes/Slices.antt =====
-- A range of a byte vector that is written reads back, and the ranges beside it are as they were.
use pageforge.Prelude.{
  ℕ, zero, suc, ◌+◌, ◌*◌, ◌^◌, ◌≤◌, ◌<◌, ◌≡◌, refl, sym, ap, ◌∙◌, arith, [], ◌∷◌, ◌⊎◌, inl, inr,
  length, length-set, take, drop, set, bit_or,
}
use pageforge.Bytes.{Bytes, byte_at, word_bytes, read_word, write_word, copy_to, slice}
use pageforge.Bytes.Words.{read_word-bytes_le}

pub length-copy_to : (s bytes : Bytes) (off : ℕ) → length (copy_to s bytes off) ≡ length bytes
unfolding copy_to
length-copy_to [] bytes off = refl
length-copy_to (x ∷ s) bytes off =
    length-copy_to s (set bytes off x) (off + 1) ∙ length-set bytes off x

-- A copy that starts behind the first byte keeps it.
pub copy_to-suc :
    (s : Bytes) (b : ℕ) (bytes : Bytes) (off : ℕ)
    → copy_to s (b ∷ bytes) (suc off) ≡ b ∷ copy_to s bytes off
unfolding copy_to
copy_to-suc [] b bytes off = refl
copy_to-suc (x ∷ s) b bytes off =
    ap (λ (n : ℕ). copy_to s (b ∷ set bytes off x) n) (omega arith)
    ∙ copy_to-suc s b (set bytes off x) (off + 1)

pub copy_to-zero :
    (x : ℕ) (s : Bytes) (b : ℕ) (bytes : Bytes)
    → copy_to (x ∷ s) (b ∷ bytes) 0 ≡ x ∷ copy_to s bytes 0
unfolding copy_to
copy_to-zero x s b bytes = copy_to-suc s x bytes 0

pub copy_to-nil : (s : Bytes) (off : ℕ) → copy_to s [] off ≡ []
unfolding copy_to
copy_to-nil [] off = refl
copy_to-nil (x ∷ s) off = copy_to-nil s (off + 1)

pub copy_to-empty : (bytes : Bytes) (off : ℕ) → copy_to [] bytes off ≡ bytes
unfolding copy_to
copy_to-empty bytes off = refl

pub slice-copy_to_self :
    (s bytes : Bytes) (off : ℕ)
    → off + length s ≤ length bytes
    → slice (copy_to s bytes off) off (length s) ≡ s
slice-copy_to_self [] bytes off h = refl
slice-copy_to_self (x ∷ s) [] off h = absurd (omega arith)
slice-copy_to_self (x ∷ s) (b ∷ bytes) zero h =
    rw (copy_to-zero x s b bytes) (ap (◌∷◌ x) (slice-copy_to_self s bytes 0 (omega arith)))
slice-copy_to_self (x ∷ s) (b ∷ bytes) (suc off) h =
    rw (copy_to-suc (x ∷ s) b bytes off) (slice-copy_to_self (x ∷ s) bytes off (omega arith))

slice-copy_to_before :
    (s bytes : Bytes) (off o n : ℕ)
    → o + n ≤ off
    → slice (copy_to s bytes off) o n ≡ slice bytes o n
slice-copy_to_before s bytes off o zero h = refl
slice-copy_to_before s [] off o (suc n) h = rw (copy_to-nil s off)
slice-copy_to_before s (b ∷ bytes) zero o (suc n) h = absurd (omega arith)
slice-copy_to_before s (b ∷ bytes) (suc off) zero (suc n) h =
    rw (copy_to-suc s b bytes off) (ap (◌∷◌ b) (slice-copy_to_before s bytes off 0 n (omega arith)))
slice-copy_to_before s (b ∷ bytes) (suc off) (suc o) (suc n) h =
    rw (copy_to-suc s b bytes off) (slice-copy_to_before s bytes off o (suc n) (omega arith))

drop-copy_to_after :
    (s bytes : Bytes) (off o : ℕ) → off + length s ≤ o → drop o (copy_to s bytes off) ≡ drop o bytes
drop-copy_to_after [] bytes off o h = ap (drop o) (copy_to-empty bytes off)
drop-copy_to_after (x ∷ s) [] off o h = rw (copy_to-nil (x ∷ s) off)
drop-copy_to_after (x ∷ s) (b ∷ bytes) off zero h = absurd (omega arith)
drop-copy_to_after (x ∷ s) (b ∷ bytes) zero (suc o) h =
    rw (copy_to-zero x s b bytes) (drop-copy_to_after s bytes 0 o (omega arith))
drop-copy_to_after (x ∷ s) (b ∷ bytes) (suc off) (suc o) h =
    rw (copy_to-suc (x ∷ s) b bytes off) (drop-copy_to_after (x ∷ s) bytes off o (omega arith))

-- The ranges of `n` bytes at `o` and of `m` bytes at `off` share no byte.
abbrev pub Apart : ℕ → ℕ → ℕ → ℕ → Type 0
Apart o n off m = (o + n ≤ off) ⊎ (off + m ≤ o)

pub slice-copy_to-Apart :
    (s bytes : Bytes) (off o n : ℕ)
    → Apart o n off (length s)
    → slice (copy_to s bytes off) o n ≡ slice bytes o n
slice-copy_to-Apart s bytes off o n (inl before) = slice-copy_to_before s bytes off o n before
slice-copy_to-Apart s bytes off o n (inr behind) =
    ap (take n) (drop-copy_to_after s bytes off o behind)

pub write_word-copy_to :
    (n i : ℕ) (bytes : Bytes) (off v : ℕ)
    → write_word n i bytes off v ≡ copy_to (word_bytes n i v) bytes (off + i)
unfolding write_word copy_to word_bytes
write_word-copy_to zero i bytes off v = refl
write_word-copy_to (suc n) i bytes off v =
    write_word-copy_to n (i + 1) (set bytes (off + i) (byte_at v i)) off v
    ∙ ap (λ (k : ℕ). copy_to (word_bytes n (i + 1) v) (set bytes (off + i) (byte_at v i)) k)
        (omega arith)

pub length-word_bytes : (n i v : ℕ) → length (word_bytes n i v) ≡ n
unfolding word_bytes
length-word_bytes zero i v = refl
length-word_bytes (suc n) i v = ap suc (length-word_bytes n (i + 1) v)

pub length-write_word :
    (n : ℕ) (bytes : Bytes) (off v : ℕ) → length (write_word n 0 bytes off v) ≡ length bytes
length-write_word n bytes off v =
    ap length (write_word-copy_to n 0 bytes off v) ∙ length-copy_to _ bytes (off + 0)

pub write_word-zero :
    (n : ℕ) (bytes : Bytes) (off v : ℕ)
    → write_word n 0 bytes off v ≡ copy_to (word_bytes n 0 v) bytes off
write_word-zero n bytes off v =
    write_word-copy_to n 0 bytes off v
    ∙ ap (λ (k : ℕ). copy_to (word_bytes n 0 v) bytes k) (omega arith)

pub slice-write_word-Apart :
    (n : ℕ) (bytes : Bytes) (off v o m : ℕ)
    → Apart o m off n
    → slice (write_word n 0 bytes off v) o m ≡ slice bytes o m
slice-write_word-Apart n bytes off v o m apart =
    ap (λ (l : Bytes). slice l o m) (write_word-zero n bytes off v)
    ∙ slice-copy_to-Apart (word_bytes n 0 v) bytes off o m (rw (length-word_bytes n 0 v) apart)

-- A read is of the bytes that it counts.
pub read_word-take :
    (n i acc : ℕ) (bytes : Bytes) → read_word n i acc bytes ≡ read_word n i acc (take n bytes)
unfolding read_word
read_word-take zero i acc bytes = refl
read_word-take (suc n) i acc [] = refl
read_word-take (suc n) i acc (b ∷ bytes) =
    read_word-take n (i + 1) (bit_or acc (b * 2 ^ (i * 8))) bytes

pub read_word-slice :
    (n : ℕ) (bytes bytes' : Bytes) (o : ℕ)
    → slice bytes' o n ≡ slice bytes o n
    → read_word n 0 0 (drop o bytes') ≡ read_word n 0 0 (drop o bytes)
read_word-slice n bytes bytes' o same =
    read_word-take n 0 0 (drop o bytes')
    ∙ ap (read_word n 0 0) same
    ∙ sym (read_word-take n 0 0 (drop o bytes))

-- A field that another field's write does not touch.
pub read_word-write_word-Apart :
    (n : ℕ) (bytes : Bytes) (off v m o : ℕ)
    → Apart o m off n
    → read_word m 0 0 (drop o (write_word n 0 bytes off v)) ≡ read_word m 0 0 (drop o bytes)
read_word-write_word-Apart n bytes off v m o apart =
    read_word-slice m bytes (write_word n 0 bytes off v) o
      (slice-write_word-Apart n bytes off v o m apart)

slice-word_bytes :
    (n : ℕ) (bytes : Bytes) (off v : ℕ)
    → off + n ≤ length bytes
    → slice (copy_to (word_bytes n 0 v) bytes off) off n ≡ word_bytes n 0 v
slice-word_bytes n bytes off v inside =
    ap (slice (copy_to (word_bytes n 0 v) bytes off) off) (sym (length-word_bytes n 0 v))
    ∙ slice-copy_to_self (word_bytes n 0 v) bytes off (rw (length-word_bytes n 0 v) inside)

-- A field that was written reads back.
pub read_word-write_word_self :
    (n : ℕ) (bytes : Bytes) (off v : ℕ)
    → v < 256 ^ n
    → off + n ≤ length bytes
    → read_word n 0 0 (drop off (write_word n 0 bytes off v)) ≡ v
read_word-write_word_self n bytes off v small inside =
    read_word-take n 0 0 (drop off (write_word n 0 bytes off v))
    ∙ ap (read_word n 0 0) (
        ap (λ (l : Bytes). slice l off n) (write_word-zero n bytes off v)
        ∙ slice-word_bytes n bytes off v inside)
    ∙ read_word-bytes_le n v small
