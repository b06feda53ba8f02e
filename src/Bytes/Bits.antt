-- ===== src/Bytes/Bits.antt =====
-- `|` on fields that share no bit is a sum, at every width.
use Prim.Native.Nat.{max, digits, bit_or-bitwise}
use native.Mathlib.Nat.{pow-suc}
use pageforge.Prelude.{
  ◌∙◌, Bool-cases, leb, leb→le, leb_false→lt, inl, inr, ℕ, zero, suc, ◌+◌, ◌*◌, ◌/◌, ◌%◌, ◌^◌, ◌≤◌,
  ◌<◌, ◌≡◌, refl, ap, arith, bit_or,
}

abbrev or_digits : ℕ → ℕ → ℕ → ℕ
or_digits n a b = digits (λ b. b) max n a b

-- Fuel beyond the number itself changes nothing.
one_more_digit : (n a b : ℕ) → a ≤ n → or_digits (suc n) a b ≡ or_digits n a b
one_more_digit zero zero b inside = refl
one_more_digit zero (suc a) b inside = elim inside [ ]
one_more_digit (suc n) zero b inside = refl
one_more_digit (suc n) (suc a) b inside =
    let half : suc a / 2 ≤ n = omega arith in
    omega (arith, one_more_digit n (suc a / 2) (b / 2) half)

enough_digits : (n a b : ℕ) → a ≤ n → or_digits n a b ≡ or_digits a a b
enough_digits zero zero b inside = refl
enough_digits zero (suc a) b inside = elim inside [ ]
enough_digits (suc n) a b inside = elim (Bool-cases (leb a n)) [
  | inl below ↦ one_more_digit n a b (leb→le a n below) ∙ enough_digits n a b (leb→le a n below)
  | inr above ↦
      let top = leb_false→lt a n above in
      let same : suc n ≡ a = omega arith in ap (λ (m : ℕ). or_digits m a b) same
]

pub zero-bit_or : (b : ℕ) → bit_or 0 b ≡ b
zero-bit_or b = bit_or-bitwise 0 b

-- The lowest digit of a disjunction, and the others.
bit_or-low_digit : (a b : ℕ) → bit_or a b ≡ max (a % 2) (b % 2) + 2 * bit_or (a / 2) (b / 2)
bit_or-low_digit zero b = let whole = zero-bit_or b in let half = zero-bit_or (b / 2) in omega arith
bit_or-low_digit (suc a) b =
    let whole = bit_or-bitwise (suc a) b in
    let half = bit_or-bitwise (suc a / 2) (b / 2) in
    let fuel = enough_digits a (suc a / 2) (b / 2) (omega arith) in omega arith

double_pow : (b k : ℕ) → b * 2 ^ suc k ≡ 2 * (b * 2 ^ k)
double_pow b k = omega (arith, ap (λ (t : ℕ). b * t) (pow-suc 2 k))

-- A field above bit `k` and a value below it.
pub bit_or-disjoint : (k a b : ℕ) → a < 2 ^ k → bit_or a (b * 2 ^ k) ≡ a + b * 2 ^ k
bit_or-disjoint zero a b h = ground (arith, zero-bit_or b)
bit_or-disjoint (suc k) a b h = ground (
  arith,
  pow-suc 2 k,
  bit_or-low_digit a (b * 2 ^ suc k),
  double_pow b k,
  bit_or-disjoint k (a / 2) b (omega (arith, pow-suc 2 k)),
)
