-- ===== src/Tuple/Typing.antt =====
-- Rows that fit a schema, and the encoding of such a row written down without a loop: the header,
-- the null bitmap and the fields. `encode` is compared with it.
use Prim.Native.Nat.add
use mathlib.Core.List.{append_assoc, append-nil}
use pageforge.Prelude.{
  ℕ, suc, ◌+◌, ◌*◌, ◌/◌, ◌^◌, ◌≤◌, ◌<◌, ◌≡◌, refl, sym, ap, ◌∙◌, arith, true, false, [], ◌∷◌, ◌++◌,
  length, length-replicate, set-append_right, set-append_left, get_or-append_right,
  get_or-append_left, replicate, All, le→ltb_false, if◌then◌else◌, ok, ==_refl,
}
use pageforge.Prelude.Int.{IsI64, to_u64}
use pageforge.Bytes.{Bytes, word_bytes}
use pageforge.Tuple.Bitmap.{length-set_bit}
use pageforge.Tuple.{
  DataType, Column, Schema, Value, Tuple, is_null, known_type, validate_types, validate_schema,
  bitmap_size, set_bit, encode_value, encode_column, encode_loop, header, encode,
}

-- The values that the C++ types hold and the format can express: an integer of 64 bits, and a text
-- whose length fits 32 bits.
abbrev pub Fits : Column → Value → Type 0
Fits c Value.null = c.nullable ≡ true
Fits c (Value.integer n) = (c.type ≡ DataType.integer) × IsI64 n
Fits c (Value.text t) = (c.type ≡ DataType.text) × (length t < 2 ^ 32)
Fits c (Value.boolean b) = c.type ≡ DataType.boolean

abbrev pub RowFits : Schema → Tuple → Type 0
RowFits [] [] = Unit
RowFits (c ∷ cs) (v ∷ vs) = Fits c v × RowFits cs vs
RowFits _ _ = ⊥

abbrev pub IsKnown : Column → Type 0
IsKnown c = known_type c.type ≡ true

pub record IsValidSchema (schema : Schema) : Type 0 where
  pub few : length schema < 2 ^ 16
  pub known : All IsKnown schema

unfoldable pub field_bytes : Value → Bytes
field_bytes Value.null = []
field_bytes (Value.integer n) = word_bytes 8 0 (to_u64 n)
field_bytes (Value.text t) = word_bytes 4 0 (length t) ++ t
field_bytes (Value.boolean b) = (if b then 1 else 0) ∷ []

unfoldable pub payload : Tuple → Bytes
payload [] = []
payload (v ∷ vs) = field_bytes v ++ payload vs

unfoldable pub mark_one : ℕ → Value → Bytes → Bytes
mark_one index v bitmap = if is_null v then set_bit bitmap 0 index else bitmap

unfoldable pub mark : ℕ → Tuple → Bytes → Bytes
mark index [] bitmap = bitmap
mark index (v ∷ vs) bitmap = mark (index + 1) vs (mark_one index v bitmap)

abbrev pub empty_bitmap : Schema → Bytes
empty_bitmap schema = replicate (bitmap_size schema) 0

abbrev pub encoding : Schema → Tuple → Bytes
encoding schema tuple = header schema ++ (mark 0 tuple (empty_bitmap schema) ++ payload tuple)

pub RowFits-length : (cs : Schema) (vs : Tuple) → RowFits cs vs → length vs ≡ length cs
RowFits-length [] [] h = refl
RowFits-length [] (v ∷ vs) h = absurd h
RowFits-length (c ∷ cs) [] h = absurd h
RowFits-length (c ∷ cs) (v ∷ vs) h = ap suc (RowFits-length cs vs h.1)

validate_types-ok : (schema : Schema) → All IsKnown schema → validate_types schema ≡ ok tt
unfolding validate_types
validate_types-ok [] h = refl
validate_types-ok (c ∷ cs) h = rw h.0 (validate_types-ok cs h.1)

pub validate_schema-ok : (schema : Schema) → IsValidSchema schema → validate_schema schema ≡ ok tt
unfolding validate_schema
validate_schema-ok schema h =
    let few = h.few in
    rw (le→ltb_false 0xffff (length schema) (omega arith)) (validate_types-ok schema h.known)

-- The bitmap stands between the header and the fields.
set_bit-middle :
    (front bitmap rest : Bytes) (i : ℕ)
    → i / 8 < length bitmap
    → set_bit (front ++ (bitmap ++ rest)) (length front) i ≡ front ++ (set_bit bitmap 0 i ++ rest)
unfolding set_bit
set_bit-middle front bitmap rest i h =
    rw
      (
        get_or-append_right front (bitmap ++ rest) (i / 8) 0,
        get_or-append_left bitmap rest (i / 8) 0 h,
      )
      (rw (set-append_right, set-append_left bitmap rest (i / 8) _ h, add.zero))

encode_value-eq :
    (c : Column) (v : Value) (output : Bytes)
    → Fits c v
    → is_null v ≡ false
    → encode_value c.type v output ≡ ok (output ++ field_bytes v)
unfolding encode_value field_bytes is_null
encode_value-eq c Value.null output h n = cc
encode_value-eq c (Value.integer k) output h n = rw h.0
encode_value-eq c (Value.text t) output h n =
    rw (h.0, le→ltb_false 0xffff_ffff (length t) (omega (arith, h.1))) (rw append_assoc)
encode_value-eq c (Value.boolean b) output h n = rw h

encode_column-eq :
    (front bitmap rest : Bytes) (index : ℕ) (c : Column) (v : Value)
    → Fits c v
    → index / 8 < length bitmap
    → encode_column (length front) index c v (front ++ (bitmap ++ rest))
      ≡ ok (front ++ (mark_one index v bitmap ++ (rest ++ field_bytes v)))
unfolding encode_column mark_one is_null field_bytes
encode_column-eq front bitmap rest index c Value.null h hi =
    rw (h, set_bit-middle front bitmap rest index hi, append-nil)
encode_column-eq front bitmap rest index c (Value.integer k) h hi =
    encode_value-eq c (Value.integer k) (front ++ (bitmap ++ rest)) h refl ∙ simp append_assoc
encode_column-eq front bitmap rest index c (Value.text t) h hi =
    encode_value-eq c (Value.text t) (front ++ (bitmap ++ rest)) h refl ∙ simp append_assoc
encode_column-eq front bitmap rest index c (Value.boolean b) h hi =
    encode_value-eq c (Value.boolean b) (front ++ (bitmap ++ rest)) h refl ∙ simp append_assoc

length-mark_one :
    (index : ℕ) (v : Value) (bitmap : Bytes) → length (mark_one index v bitmap) ≡ length bitmap
unfolding mark_one
length-mark_one index v bitmap = ground (arith, length-set_bit bitmap 0 index)

encode_loop-eq :
    (front bitmap rest : Bytes) (index : ℕ) (cs : Schema) (vs : Tuple)
    → RowFits cs vs
    → index + length cs ≤ 8 * length bitmap
    → encode_loop (length front) index cs vs (front ++ (bitmap ++ rest))
      ≡ ok (front ++ (mark index vs bitmap ++ (rest ++ payload vs)))
unfolding encode_loop mark payload
encode_loop-eq front bitmap rest index [] [] h hi = rw append-nil
encode_loop-eq front bitmap rest index [] (v ∷ vs) h hi = absurd h
encode_loop-eq front bitmap rest index (c ∷ cs) [] h hi = absurd h
encode_loop-eq front bitmap rest index (c ∷ cs) (v ∷ vs) h hi =
    rw (encode_column-eq front bitmap rest index c v h.0 (omega arith)) (
      encode_loop-eq front (mark_one index v bitmap) (rest ++ field_bytes v) (index + 1) cs vs h.1
        (omega (arith, length-mark_one index v bitmap))
      ∙ rw append_assoc)

-- A row that fits its schema is encoded, and the result is the header, the bitmap and the fields.
pub encode-encoding :
    (schema : Schema) (tuple : Tuple)
    → IsValidSchema schema
    → RowFits schema tuple
    → encode schema tuple ≡ ok (encoding schema tuple)
unfolding encode
encode-encoding schema tuple hs ht =
    rw (validate_schema-ok schema hs, RowFits-length schema tuple ht, ==_refl (length schema))
      (ap (λ (t : Bytes). encode_loop (length (header schema)) 0 schema tuple (header schema ++ t))
          (sym (append-nil (empty_bitmap schema)))
        ∙ encode_loop-eq (header schema) (empty_bitmap schema) [] 0 schema tuple ht
            (omega (arith, length-replicate {A = ℕ} (bitmap_size schema) 0)))
