-- ===== src/Prelude/Results.antt =====
-- C++ exceptions as values: one constructor for each exception class that the program throws, with
-- the position that the SQL errors carry. The text of a message is not modelled.
use Prim.Native.Nat.{ℕ}
use mathlib.Core.Path.{◌≡◌, refl}
use mathlib.Core.Bool.{Bool, true, false}
use mathlib.Core.Logic.{◌⊎◌, inl, inr}

pub data Exception : Type 0 where
  invalid_argument out_of_range logic_error runtime_error : Exception
  page_corruption page_full buffer_pool_exhausted : Exception
  tuple_corruption table_corruption catalog_corruption index_corruption : Exception
  sql_bind_error : Exception
  sql_lex_error sql_parse_error : ℕ → ℕ → Exception

pub data Result {ℓ} (A : Type ℓ) : Type ℓ where
  ok : A → Result A
  err : Exception → Result A

-- `if (test) throw error;`
abbrev pub throw_if : Bool → Exception → Result (Unit {0})
throw_if test e = elim test [ true ↦ err e | false ↦ ok tt ]

-- What comes behind a statement that may throw.
infixl 5 ◌>>=◌
abbrev pub ◌>>=◌ {ℓ κ} : {A : Type ℓ} {B : Type κ} → Result A → (A → Result B) → Result B
err thrown >>= next = err thrown
ok value >>= next = next value

-- The exception of a test that returned was not thrown.
pub throw_if-eq-ok :
    (test : Bool) (e : Exception) {u : Unit {0}} → throw_if test e ≡ ok u → test ≡ false
throw_if-eq-ok false e returned = refl
throw_if-eq-ok true e returned = cc

infixl 5 ◌>>◌
abbrev pub ◌>>◌ {κ} : {B : Type κ} → Result (Unit {0}) → Result B → Result B
first >> second = first >>= λ done. second

pub ok-injective {ℓ} : {A : Type ℓ} {x y : A} → ok x ≡ ok y → x ≡ y
ok-injective same = cc

-- What a computation that returned went through.
pub >>=-eq-ok {ℓ κ} :
    {A : Type ℓ} {B : Type κ} (first : Result A) (next : A → Result B) {result : B}
    → (first >>= next) ≡ ok result
    → (value : A) × (first ≡ ok value) × (next value ≡ ok result)
>>=-eq-ok (err thrown) next returned = cc
>>=-eq-ok (ok value) next returned = (value, refl, returned)

pub Result-cases {ℓ} :
    {A : Type ℓ} (r : Result A) → ((value : A) × (r ≡ ok value)) ⊎ ((e : Exception) × (r ≡ err e))
Result-cases (err e) = inr (e, refl)
Result-cases (ok value) = inl (value, refl)
