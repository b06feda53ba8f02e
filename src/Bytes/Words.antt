-- ===== src/Bytes/Words.antt =====
-- Little-endian fields read back what was written, and nothing else has the same value.
use native.Mathlib.Nat.{pow-suc, one-le-pow, mul_comm, div-div-eq-div-mul}
use native.Mathlib.Numerals.{towards_suc}
use mathlib.Core.Path.{ap₂, subst}
use mathlib.Core.List.{append-nil}
use pageforge.Prelude.{
  ℕ, zero, suc, ◌+◌, ◌*◌, ◌/◌, ◌%◌, ◌^◌, ◌≤◌, ◌<◌, ◌≡◌, refl, sym, ap, ◌∙◌, arith, [], ◌∷◌, ◌++◌,
  All, length, length-append, le→ltb_false, ltb_false→le, drop, take, ok, Result, Exception, ltb,
  >>=-eq-ok, ok-injective, throw_if-eq-ok, take-append-drop, take-append, drop-append, length-take,
}
use pageforge.Bytes.Bits.{bit_or-disjoint}
use pageforge.Bytes.{
  Bytes, IsByte, byte_at, word_bytes, read_word, take_word, take_bytes, require_bytes,
}

-- The number that `count` bytes stand for, and the bytes of a number, by recursion on the low byte.
abbrev pub value_le : ℕ → Bytes → ℕ
value_le zero bytes = 0
value_le (suc n) [] = 0
value_le (suc n) (b ∷ bytes) = b + 256 * value_le n bytes

abbrev pub bytes_le : ℕ → ℕ → Bytes
bytes_le zero v = []
bytes_le (suc n) v = v % 256 ∷ bytes_le n (v / 256)

shift_eight : (s : ℕ) → 2 ^ (s + 8) ≡ 256 * 2 ^ s
shift_eight s = simp towards_suc (omega arith)

shift_next : (i : ℕ) → 2 ^ ((i + 1) * 8) ≡ 256 * 2 ^ (i * 8)
shift_next i = ap (λ (t : ℕ). 2 ^ t) (omega arith) ∙ shift_eight (i * 8)

-- The bytes from `index` on are those of the value shifted down to it.
word_bytes-bytes_le : (n i v : ℕ) → word_bytes n i v ≡ bytes_le n (v / 2 ^ (i * 8))
unfolding word_bytes
word_bytes-bytes_le zero i v = refl
word_bytes-bytes_le (suc n) i v =
    ap (◌∷◌ (byte_at v i))
      (word_bytes-bytes_le n (i + 1) v ∙ ap (λ (t : ℕ). bytes_le n t) (next_shift i v))
  where
    next_shift : (i v : ℕ) → v / 2 ^ ((i + 1) * 8) ≡ v / 2 ^ (i * 8) / 256
    next_shift i v =
        rw (shift_next i, mul_comm 256 (2 ^ (i * 8))) (sym (div-div-eq-div-mul v (2 ^ (i * 8)) 256))

pub word_bytes-eq : (n v : ℕ) → word_bytes n 0 v ≡ bytes_le n v
word_bytes-eq n v = word_bytes-bytes_le n 0 v ∙ ap (λ (t : ℕ). bytes_le n t) (omega arith)

pub length-bytes_le : (n v : ℕ) → length (bytes_le n v) ≡ n
length-bytes_le zero v = refl
length-bytes_le (suc n) v = ap suc (length-bytes_le n (v / 256))

pub bytes_le-IsByte : (n v : ℕ) → All IsByte (bytes_le n v)
bytes_le-IsByte zero v = tt
bytes_le-IsByte (suc n) v = (omega arith, bytes_le-IsByte n (v / 256))

-- One round: the accumulator holds the bits below the next byte.
round_fits : (i acc b : ℕ) → acc < 2 ^ (i * 8) → b < 256 → acc + b * 2 ^ (i * 8) < 2 ^ ((i + 1) * 8)
round_fits i acc b h hb = rw (shift_next i) (grind arith)

round_value :
    (i acc b w : ℕ)
    → acc + b * 2 ^ (i * 8) + w * 2 ^ ((i + 1) * 8) ≡ acc + (b + 256 * w) * 2 ^ (i * 8)
round_value i acc b w = rw (shift_next i) (omega arith)

read_word-value :
    (n i acc : ℕ) (bytes : Bytes)
    → acc < 2 ^ (i * 8)
    → All IsByte bytes
    → read_word n i acc bytes ≡ acc + value_le n bytes * 2 ^ (i * 8)
unfolding read_word
read_word-value zero i acc bytes h hb = omega arith
read_word-value (suc n) i acc [] h hb = omega arith
read_word-value (suc n) i acc (b ∷ bytes) h hb = rw (bit_or-disjoint (i * 8) acc b h) (
    read_word-value n (i + 1) (acc + b * 2 ^ (i * 8)) bytes (round_fits i acc b h hb.0) hb.1
    ∙ round_value i acc b (value_le n bytes))

-- Only the bytes that are read count.
read_word-append :
    (n i acc w : ℕ) (rest : Bytes)
    → acc < 2 ^ (i * 8)
    → w < 256 ^ n
    → read_word n i acc (bytes_le n w ++ rest) ≡ acc + w * 2 ^ (i * 8)
unfolding read_word
read_word-append zero i acc w rest h hw = let z : w ≡ 0 = omega arith in rw z (omega arith)
read_word-append (suc n) i acc w rest h hw = rw (bit_or-disjoint (i * 8) acc (w % 256) h) (
    read_word-append n (i + 1) (acc + w % 256 * 2 ^ (i * 8)) (w / 256) rest
      (round_fits i acc (w % 256) h (omega arith)) (omega (arith, pow-suc 256 n))
    ∙ round_value i acc (w % 256) (w / 256)
    ∙ ap (λ (t : ℕ). acc + t * 2 ^ (i * 8)) (omega arith))

drop-bytes_le : (n v : ℕ) (rest : Bytes) → drop n (bytes_le n v ++ rest) ≡ rest
drop-bytes_le zero v rest = refl
drop-bytes_le (suc n) v rest = drop-bytes_le n (v / 256) rest

-- A checked read takes back an appended field, whatever follows it.
pub take_word-word_bytes :
    (e : Exception) (n v : ℕ) (rest : Bytes)
    → v < 256 ^ n
    → take_word e n (word_bytes n 0 v ++ rest) ≡ ok (v, rest)
take_word-word_bytes e n v rest h =
    rw (word_bytes-eq n v, length-append (bytes_le n v) rest, length-bytes_le n v)
      (rw (le→ltb_false (n + length rest) n (omega arith)) (
        ap₂ {C = Result (ℕ × Bytes)} (λ a b. ok (a, b))
          (read_word-append n 0 0 v rest (omega arith) h ∙ omega arith) (drop-bytes_le n v rest)))

pub value_le-lt : (n : ℕ) (bytes : Bytes) → All IsByte bytes → value_le n bytes < 256 ^ n
value_le-lt zero bytes h = omega arith
value_le-lt (suc n) [] h = one-le-pow (suc n) 256 (omega arith)
value_le-lt (suc n) (b ∷ bytes) h = omega (arith, pow-suc 256 n, value_le-lt n bytes h.1, h.0)

pub bytes_le-value_le :
    (n : ℕ) (bytes : Bytes)
    → n ≤ length bytes
    → All IsByte bytes
    → bytes_le n (value_le n bytes) ≡ take n bytes
bytes_le-value_le zero bytes h hb = refl
bytes_le-value_le (suc n) [] h hb = elim h [ ]
bytes_le-value_le (suc n) (b ∷ bytes) h hb = ap₂ {C = Bytes} ◌∷◌ (omega (arith, hb.0)) (
    ap (λ (t : ℕ). bytes_le n t) (omega (arith, hb.0))
    ∙ bytes_le-value_le n bytes (omega arith) hb.1)

pub take-IsByte : (n : ℕ) (bytes : Bytes) → All IsByte bytes → All IsByte (take n bytes)
take-IsByte zero bytes h = tt
take-IsByte (suc n) [] h = tt
take-IsByte (suc n) (b ∷ bytes) h = (h.0, take-IsByte n bytes h.1)

pub drop-IsByte : (n : ℕ) (bytes : Bytes) → All IsByte bytes → All IsByte (drop n bytes)
drop-IsByte zero bytes h = h
drop-IsByte (suc n) [] h = tt
drop-IsByte (suc n) (b ∷ bytes) h = drop-IsByte n bytes h.1

-- What a checked read of `n` bytes tells of the bytes: the field is at their front, and is read.
abbrev pub ReadsWord : ℕ → Bytes → ℕ × Bytes → Type 0
ReadsWord n bytes r = (r.0 < 256 ^ n) × (bytes ≡ word_bytes n 0 r.0 ++ r.1) × All IsByte r.1

read_word-front :
    (n : ℕ) (bytes : Bytes) → All IsByte bytes → read_word n 0 0 bytes ≡ value_le n bytes
read_word-front n bytes hb = read_word-value n 0 0 bytes (omega arith) hb ∙ omega arith

ReadsWord-front :
    (n : ℕ) (bytes : Bytes)
    → n ≤ length bytes
    → All IsByte bytes
    → ReadsWord n bytes (read_word n 0 0 bytes, drop n bytes)
ReadsWord-front n bytes h hb = rw (read_word-front n bytes hb) (
  value_le-lt n bytes hb,
  rw (word_bytes-eq, bytes_le-value_le n bytes h hb) (sym (take-append-drop n bytes)),
  drop-IsByte n bytes hb,
)

pub take_word-ReadsWord :
    (e : Exception) (n : ℕ) (bytes : Bytes) {r : ℕ × Bytes}
    → All IsByte bytes
    → take_word e n bytes ≡ ok r
    → ReadsWord n bytes r
take_word-ReadsWord e n bytes hb eq =
    let (_, fits, result) = >>=-eq-ok (require_bytes e bytes n) _ eq in
    subst (ReadsWord n bytes) (ok-injective result)
      (ReadsWord-front n bytes (ltb_false→le _ _ (throw_if-eq-ok (ltb (length bytes) n) e fits)) hb)

-- The same for a byte string of a known length.
abbrev pub ReadsBytes : ℕ → Bytes → Bytes × Bytes → Type 0
ReadsBytes n bytes r = (length r.0 ≡ n) × (bytes ≡ r.0 ++ r.1) × All IsByte r.0 × All IsByte r.1

pub take_bytes-ReadsBytes :
    (e : Exception) (n : ℕ) (bytes : Bytes) {r : Bytes × Bytes}
    → All IsByte bytes
    → take_bytes e n bytes ≡ ok r
    → ReadsBytes n bytes r
take_bytes-ReadsBytes e n bytes hb eq =
    let (_, fits, result) = >>=-eq-ok (require_bytes e bytes n) _ eq in
    subst (ReadsBytes n bytes) (ok-injective result) (
      omega (
        arith,
        length-take n bytes,
        ltb_false→le _ _ (throw_if-eq-ok (ltb (length bytes) n) e fits),
      ),
      sym (take-append-drop n bytes),
      take-IsByte n bytes hb,
      drop-IsByte n bytes hb,
    )

-- A checked read takes back an appended byte string.
pub take_bytes-append :
    (e : Exception) (n : ℕ) (front rest : Bytes)
    → length front ≡ n
    → take_bytes e n (front ++ rest) ≡ ok (front, rest)
take_bytes-append e n front rest h = rw (← h) (
    rw
      (
        length-append front rest,
        le→ltb_false (length front + length rest) (length front) (omega arith),
      )
      (rw (take-append front rest, drop-append front rest)))

-- The bytes of a number read back, with nothing behind them.
pub read_word-bytes_le : (n v : ℕ) → v < 256 ^ n → read_word n 0 0 (word_bytes n 0 v) ≡ v
read_word-bytes_le n v h =
    ap (read_word n 0 0) (word_bytes-eq n v ∙ sym (append-nil (bytes_le n v)))
    ∙ read_word-append n 0 0 v [] (omega arith) h
    ∙ omega arith
