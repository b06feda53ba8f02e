-- ===== src/Bytes/Compare.antt =====
-- `==` and `<` of `std::string`, which compare the bytes as unsigned characters.
use pageforge.Prelude.{◌≡◌, refl, arith, Bool, true, false, ◌&&◌, [], ◌∷◌, ltb, ◌==◌, if◌then◌else◌}
use pageforge.Bytes.{Bytes}

unfoldable pub eq_bytes : Bytes → Bytes → Bool
eq_bytes [] [] = true
eq_bytes [] (d ∷ ds) = false
eq_bytes (c ∷ cs) [] = false
eq_bytes (c ∷ cs) (d ∷ ds) = c == d && eq_bytes cs ds

unfoldable pub less_bytes : Bytes → Bytes → Bool
less_bytes [] [] = false
less_bytes [] (d ∷ ds) = true
less_bytes (c ∷ cs) [] = false
less_bytes (c ∷ cs) (d ∷ ds) = let rest = less_bytes cs ds in if c == d then rest else ltb c d

pub eq_bytes→eq : (a b : Bytes) → eq_bytes a b ≡ true → a ≡ b
unfolding eq_bytes
eq_bytes→eq [] [] h = refl
eq_bytes→eq [] (d ∷ ds) h = cc
eq_bytes→eq (c ∷ cs) [] h = cc
eq_bytes→eq (c ∷ cs) (d ∷ ds) h = ground (arith, eq_bytes→eq cs ds)

pub eq_bytes_refl : (a : Bytes) → eq_bytes a a ≡ true
unfolding eq_bytes
eq_bytes_refl [] = refl
eq_bytes_refl (c ∷ cs) = ground (arith, eq_bytes_refl cs)

-- The order is strict and total.
pub less_bytes_irrefl : (a : Bytes) → less_bytes a a ≡ false
unfolding less_bytes
less_bytes_irrefl [] = refl
less_bytes_irrefl (c ∷ cs) = ground (arith, less_bytes_irrefl cs)

pub less_bytes_trans :
    (a b c : Bytes) → less_bytes a b ≡ true → less_bytes b c ≡ true → less_bytes a c ≡ true
unfolding less_bytes
less_bytes_trans [] [] c p q = cc
less_bytes_trans [] (y ∷ b) [] p q = cc
less_bytes_trans [] (y ∷ b) (z ∷ c) p q = refl
less_bytes_trans (x ∷ a) [] c p q = cc
less_bytes_trans (x ∷ a) (y ∷ b) [] p q = cc
less_bytes_trans (x ∷ a) (y ∷ b) (z ∷ c) p q = ground (arith, less_bytes_trans a b c)

pub less_bytes_connected : (a b : Bytes) → less_bytes a b ≡ false → less_bytes b a ≡ false → a ≡ b
unfolding less_bytes
less_bytes_connected [] [] p q = refl
less_bytes_connected [] (y ∷ b) p q = cc
less_bytes_connected (x ∷ a) [] p q = cc
less_bytes_connected (x ∷ a) (y ∷ b) p q = ground (arith, less_bytes_connected a b)
