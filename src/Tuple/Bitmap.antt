-- ===== src/Tuple/Bitmap.antt =====
-- The null bitmap as a set of indices: single bits of one byte are checked by evaluation over all
-- bytes, and the laws of `set_bit` and `test_bit` follow.
use Prim.Native.Nat.{bit_and-bitwise}
use mathlib.Core.Path.{ap₂}
use pageforge.Prelude.{
  ℕ, zero, suc, ◌+◌, ◌-◌, ◌*◌, ◌/◌, ◌%◌, ◌^◌, ◌≤◌, ◌<◌, ◌≡◌, ◌≢◌, refl, sym, ◌∙◌, arith, bit_and,
  bit_or, Bool, true, false, not, ◌&&◌, ◌||◌, [], ◌∷◌, length, set, get_or, replicate, All, ==_iff,
  ltb, ltb→lt, ltb_false→le, Bool-cases, inl, inr, ◌==◌, if◌then◌else◌, length-set,
}
use pageforge.Bytes.{Bytes, IsByte}
use pageforge.Tuple.{set_bit, test_bit, unknown_bits}

-- A test that holds of every number below a bound.
holds_below : ℕ → (ℕ → Bool) → Bool
holds_below zero test = true
holds_below (suc last) test = holds_below last test && test last

holds_below_sound :
    (bound : ℕ) (test : ℕ → Bool) (k : ℕ)
    → holds_below bound test ≡ true
    → k < bound
    → test k ≡ true
unfolding holds_below
holds_below_sound zero test k holds below = elim below [ ]
holds_below_sound (suc last) test k holds below = ground (arith, holds_below_sound last test k)

-- A property of a byte and one bit position, or two.
byte_bits_sound :
    (p : ℕ → ℕ → Bool) (b i : ℕ)
    → holds_below 256 (λ b. holds_below 8 (p b)) ≡ true
    → b < 256
    → i < 8
    → p b i ≡ true
byte_bits_sound p b i h hb hi =
    holds_below_sound 8 (p b) i (holds_below_sound 256 (λ b. holds_below 8 (p b)) b h hb) hi

same : Bool → Bool → Bool
same true b = b
same false b = not b

same→eq : (a b : Bool) → same a b ≡ true → a ≡ b
unfolding same
same→eq a b h = ground arith

bit_clear : ℕ → ℕ → Bool
bit_clear b i = bit_and b (2 ^ i) == 0

or_table :
    holds_below 256 (λ b. holds_below 8 (λ i.
      holds_below 8 (λ j. same (bit_clear (bit_or b (2 ^ i)) j) (not (i == j) && bit_clear b j))))
    ≡ true
unfolding holds_below same bit_clear
or_table = refl

bit_clear-bit_or :
    (b i j : ℕ)
    → b < 256
    → i < 8
    → j < 8
    → bit_clear (bit_or b (2 ^ i)) j ≡ (not (i == j) && bit_clear b j)
bit_clear-bit_or b i j hb hi hj = same→eq _ _ (
    holds_below_sound 8 _ j
      (byte_bits_sound
        (λ b i.
          holds_below 8
            (λ j. same (bit_clear (bit_or b (2 ^ i)) j) (not (i == j) && bit_clear b j)))
        b i or_table hb hi)
      hj)

holds_below_complete :
    (n : ℕ) (p : ℕ → Bool) → ((x : ℕ) → x < n → p x ≡ true) → holds_below n p ≡ true
unfolding holds_below
holds_below_complete zero p h = refl
holds_below_complete (suc n) p h =
    ground (arith, h n (omega arith), holds_below_complete n p (λ x lt. h x (omega arith)))

-- The mask `0xff << k` has the bits from `k` on.
mask_table :
    holds_below 256 (λ b.
      holds_below 8
        (λ k. same (bit_and b (255 * 2 ^ k) == 0) (holds_below 8 (λ i. ltb i k || bit_clear b i))))
    ≡ true
unfolding holds_below same bit_clear
mask_table = refl

mask-bits :
    (b k : ℕ)
    → b < 256
    → k < 8
    → (bit_and b (255 * 2 ^ k) == 0) ≡ holds_below 8 (λ i. ltb i k || bit_clear b i)
mask-bits b k hb hk = same→eq _ _ (
    byte_bits_sound
      (λ b k. same (bit_and b (255 * 2 ^ k) == 0) (holds_below 8 (λ i. ltb i k || bit_clear b i))) b
      k mask_table hb hk)

-- A byte is the sum of its bits.
weight : ℕ → ℕ → ℕ
weight b i = if bit_clear b i then 0 else 2 ^ i

bit_sum : ℕ → ℕ
bit_sum b =
    weight b 0
    + weight b 1
    + weight b 2
    + weight b 3
    + weight b 4
    + weight b 5
    + weight b 6
    + weight b 7

sum_table : holds_below 256 (λ b. bit_sum b == b) ≡ true
unfolding holds_below bit_sum weight bit_clear
sum_table = refl

byte_ext : (b c : ℕ) → b < 256 → c < 256 → ((i : ℕ) → i < 8 → bit_clear b i ≡ bit_clear c i) → b ≡ c
unfolding bit_sum weight
byte_ext b c hb hc h = ground (
  arith,
  ==_iff (bit_sum b) b,
  ==_iff (bit_sum c) c,
  holds_below_sound 256 (λ b. bit_sum b == b) b sum_table hb,
  holds_below_sound 256 (λ b. bit_sum b == b) c sum_table hc,
  h 0 (omega arith),
  h 1 (omega arith),
  h 2 (omega arith),
  h 3 (omega arith),
  h 4 (omega arith),
  h 5 (omega arith),
  h 6 (omega arith),
  h 7 (omega arith),
)

or_byte_table : holds_below 256 (λ b. holds_below 8 (λ i. ltb (bit_or b (2 ^ i)) 256)) ≡ true
unfolding holds_below
or_byte_table = refl

bit_or-IsByte : (b i : ℕ) → b < 256 → i < 8 → bit_or b (2 ^ i) < 256
bit_or-IsByte b i hb hi =
    ltb→lt _ _ (byte_bits_sound (λ b i. ltb (bit_or b (2 ^ i)) 256) b i or_byte_table hb hi)

-- The whole bitmap.
pub get_or-IsByte : (bytes : Bytes) (i : ℕ) → All IsByte bytes → get_or bytes i 0 < 256
get_or-IsByte [] i h = omega arith
get_or-IsByte (b ∷ bytes) zero h = h.0
get_or-IsByte (b ∷ bytes) (suc i) h = get_or-IsByte bytes i h.1

set-IsByte : (bytes : Bytes) (i b : ℕ) → All IsByte bytes → b < 256 → All IsByte (set bytes i b)
set-IsByte [] i b h hb = tt
set-IsByte (c ∷ bytes) zero b h hb = (hb, h.1)
set-IsByte (c ∷ bytes) (suc i) b h hb = (h.0, set-IsByte bytes i b h.1 hb)

get_or-set_self : (bytes : Bytes) (i b : ℕ) → i < length bytes → get_or (set bytes i b) i 0 ≡ b
get_or-set_self [] i b h = elim h [ ]
get_or-set_self (c ∷ bytes) zero b h = refl
get_or-set_self (c ∷ bytes) (suc i) b h = get_or-set_self bytes i b (omega arith)

get_or-set_ne : (bytes : Bytes) (i j b : ℕ) → i ≢ j → get_or (set bytes i b) j 0 ≡ get_or bytes j 0
get_or-set_ne [] i j b h = refl
get_or-set_ne (c ∷ bytes) zero zero b h = absurd (h refl)
get_or-set_ne (c ∷ bytes) zero (suc j) b h = refl
get_or-set_ne (c ∷ bytes) (suc i) zero b h = refl
get_or-set_ne (c ∷ bytes) (suc i) (suc j) b h = get_or-set_ne bytes i j b (omega arith)

pub length-set_bit : (bytes : Bytes) (o i : ℕ) → length (set_bit bytes o i) ≡ length bytes
unfolding set_bit
length-set_bit bytes o i = length-set bytes (o + i / 8) _

pub set_bit-IsByte : (bytes : Bytes) (i : ℕ) → All IsByte bytes → All IsByte (set_bit bytes 0 i)
unfolding set_bit
set_bit-IsByte bytes i h =
    set-IsByte bytes (0 + i / 8) _ h
      (bit_or-IsByte _ (i % 8) (get_or-IsByte bytes (0 + i / 8) h) (omega arith))

test_bit-eq :
    (bytes : Bytes) (j : ℕ) → test_bit bytes j ≡ not (bit_clear (get_or bytes (j / 8) 0) (j % 8))
unfolding test_bit bit_clear
test_bit-eq bytes j = refl

-- `set_bit` sets the bit asked for, and no other.
pub test_bit-set_bit :
    (bytes : Bytes) (i j : ℕ)
    → All IsByte bytes
    → i / 8 < length bytes
    → test_bit (set_bit bytes 0 i) j ≡ (i == j || test_bit bytes j)
unfolding set_bit
test_bit-set_bit bytes i j h hi =
    let b = get_or bytes (0 + i / 8) 0 in
    let b' = bit_or b (2 ^ (i % 8)) in
    let hb : b < 256 = get_or-IsByte bytes (0 + i / 8) h in
    rw (test_bit-eq (set bytes (0 + i / 8) b') j, test_bit-eq bytes j)
      (elim (Bool-cases (i / 8 == j / 8)) [
        | inl e ↦
            let k : 0 + i / 8 ≡ j / 8 = ground arith in
            let here : get_or (set bytes (0 + i / 8) b') (j / 8) 0 ≡ b' =
              rw (← k) (get_or-set_self bytes (0 + i / 8) b' (omega arith)) in
            rw (here, bit_clear-bit_or b (i % 8) (j % 8) hb (omega arith) (omega arith), ← k)
              (ground arith)
        | inr n ↦ rw (get_or-set_ne bytes (0 + i / 8) (j / 8) b' (ground arith)) (ground arith)
      ])

test_bit-cons : (b : ℕ) (bytes : Bytes) (i : ℕ) → test_bit (b ∷ bytes) (i + 8) ≡ test_bit bytes i
test_bit-cons b bytes i =
    let q : (i + 8) / 8 ≡ suc (i / 8) = omega arith in
    let r : (i + 8) % 8 ≡ i % 8 = omega arith in
    rw (test_bit-eq (b ∷ bytes) (i + 8), test_bit-eq bytes i, q, r)

zero-bit_clear : (i : ℕ) → bit_clear 0 i ≡ true
unfolding bit_clear
zero-bit_clear i = rw (bit_and-bitwise 0 (2 ^ i))

get_or-replicate : (n i : ℕ) → get_or {A = ℕ} (replicate n 0) i 0 ≡ 0
get_or-replicate zero i = refl
get_or-replicate (suc n) zero = refl
get_or-replicate (suc n) (suc i) = get_or-replicate n i

get_or-beyond : (bytes : Bytes) (i : ℕ) → length bytes ≤ i → get_or bytes i 0 ≡ 0
get_or-beyond [] i h = refl
get_or-beyond (b ∷ bytes) zero h = elim h [ ]
get_or-beyond (b ∷ bytes) (suc i) h = get_or-beyond bytes i (omega arith)

pub replicate-IsByte : (n : ℕ) → All IsByte (replicate n 0)
replicate-IsByte zero = tt
replicate-IsByte (suc n) = (omega arith, replicate-IsByte n)

-- A new bitmap is empty.
pub test_bit-replicate : (n i : ℕ) → test_bit (replicate n 0) i ≡ false
test_bit-replicate n i = rw (test_bit-eq, get_or-replicate, zero-bit_clear)

-- The check for bits beyond the last column passes exactly when there are none.
module _ (bytes : Bytes) (size : ℕ) (bytes_ok : All IsByte bytes)
    (sized : length bytes ≡ (size + 7) / 8) where
  last_bits : ℕ → Bool
  last_bits i = ltb i (size % 8) || bit_clear (get_or bytes (length bytes - 1) 0) i

  unknown_bits-eq :
      unknown_bits size bytes
      ≡ (not (length bytes == 0) && not (size % 8 == 0) && not (holds_below 8 last_bits))
  unfolding unknown_bits last_bits
  unknown_bits-eq = rw (
      mask-bits (get_or bytes (length bytes - 1) 0) (size % 8) (get_or-IsByte bytes _ bytes_ok)
        (omega arith))

  pub unknown_bits_none :
      ((i : ℕ) → size ≤ i → test_bit bytes i ≡ false) → unknown_bits size bytes ≡ false
  unfolding last_bits
  unknown_bits_none h = elim (Bool-cases (size % 8 == 0)) [
    | inl z ↦ rw unknown_bits-eq (ground arith)
    | inr n ↦
        rw (unknown_bits-eq, holds_below_complete 8 last_bits (clear (ground arith))) (ground arith)
  ]
    where
      clear : size % 8 ≢ 0 → (i : ℕ) → i < 8 → last_bits i ≡ true
      clear partial i hi = elim (Bool-cases (ltb i (size % 8))) [
        | inl low ↦ rw low
        | inr high ↦
            let j : ℕ = (length bytes - 1) * 8 + i in
            let q : j / 8 ≡ length bytes - 1 = omega arith in
            let r : j % 8 ≡ i = omega arith in
            let shut : not (bit_clear (get_or bytes (length bytes - 1) 0) i) ≡ false =
              rw (test_bit-eq, q, r) at (h j (omega (arith, ltb_false→le i (size % 8) high))) in
            rw high (ground arith)
      ]

  pub unknown_bits_some :
      unknown_bits size bytes ≡ false → (i : ℕ) → size ≤ i → test_bit bytes i ≡ false
  unfolding last_bits
  unknown_bits_some h i hi = elim (Bool-cases (ltb (i / 8) (length bytes))) [
    | inl inside ↦
        let last : i / 8 ≡ length bytes - 1 = omega (arith, ltb→lt _ _ inside) in
        let full : holds_below 8 last_bits ≡ true =
          ground (arith, unknown_bits-eq, ltb→lt _ _ inside) in
        let here : (ltb (i % 8) (size % 8) || bit_clear (get_or bytes (length bytes - 1) 0) (i % 8))
            ≡ true =
          holds_below_sound 8 last_bits (i % 8) full (omega arith) in
        rw (test_bit-eq, last) (ground (arith, ltb→lt _ _ inside))
    | inr outside ↦
        rw (test_bit-eq, get_or-beyond bytes (i / 8) (ltb_false→le _ _ outside), zero-bit_clear)
  ]

-- Two bitmaps of one size with the same bits are equal.
pub bitmap_ext :
    (xs ys : Bytes)
    → length xs ≡ length ys
    → All IsByte xs
    → All IsByte ys
    → ((i : ℕ) → test_bit xs i ≡ test_bit ys i)
    → xs ≡ ys
bitmap_ext [] [] e hx hy h = refl
bitmap_ext [] (y ∷ ys) e hx hy h = absurd (omega arith)
bitmap_ext (x ∷ xs) [] e hx hy h = absurd (omega arith)
bitmap_ext (x ∷ xs) (y ∷ ys) e hx hy h =
    ap₂ {C = Bytes} ◌∷◌ (byte_ext x y hx.0 hy.0 head)
      (bitmap_ext xs ys (omega arith) hx.1 hy.1 tail)
  where
    low : (i : ℕ) → i < 8 → (i / 8 ≡ 0) × (i % 8 ≡ i)
    low i hi = omega arith

    head : (i : ℕ) → i < 8 → bit_clear x i ≡ bit_clear y i
    head i hi =
        let flip : not (bit_clear x i) ≡ not (bit_clear y i) =
          rw (test_bit-eq, test_bit-eq, (low i hi).0, (low i hi).1) at (h i) in
        ground arith

    tail : (i : ℕ) → test_bit xs i ≡ test_bit ys i
    tail i = sym (test_bit-cons x xs i) ∙ h (i + 8) ∙ test_bit-cons y ys i
