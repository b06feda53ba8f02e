-- ===== src/Tuple/RoundTrip.antt =====
-- Decoding an encoded row.
use mathlib.Core.List.{append_assoc, append-nil}
use pageforge.Prelude.{
  ℕ, suc, ◌+◌, ◌*◌, ◌/◌, ◌≤◌, ◌<◌, ◌≡◌, refl, ◌∙◌, arith, Bool, true, false, ◌&&◌, ◌||◌, [], ◌∷◌,
  ◌++◌, length, length-replicate, All, ◌==◌, ok, ==_refl, le→ltb_false, Bool-cases, inl, inr,
  tuple_corruption,
}
use pageforge.Prelude.Int.{to_u64, from_u64-to_u64, to_u64-lt}
use pageforge.Bytes.{Bytes, IsByte, word_bytes}
use pageforge.Bytes.Words.{take_word-word_bytes, take_bytes-append}
use pageforge.Tuple.Bitmap.{
  length-set_bit, set_bit-IsByte, test_bit-set_bit, test_bit-replicate, replicate-IsByte,
  unknown_bits_none,
}
use pageforge.Tuple.Typing.{
  Fits, RowFits, IsValidSchema, field_bytes, payload, mark, mark_one, empty_bitmap, encoding,
  RowFits-length, validate_schema-ok, encode-encoding,
}
use pageforge.Tuple.{
  Column, Schema, Value, Tuple, is_null, test_bit, unknown_bits, magic, version, bitmap_size,
  header, encode, decode_value, decode_column, decode_loop, decode_body, decode,
}

-- Column `j` is null, in a row that starts at column `index`.
unfoldable pub null_at : ℕ → Tuple → ℕ → Bool
null_at index [] j = false
null_at index (v ∷ vs) j = (index == j && is_null v) || null_at (index + 1) vs j

pub null_at_below : (vs : Tuple) (index j : ℕ) → j < index → null_at index vs j ≡ false
unfolding null_at
null_at_below [] index j h = refl
null_at_below (v ∷ vs) index j h = ground (arith, null_at_below vs (index + 1) j)

pub null_at_above : (vs : Tuple) (index j : ℕ) → index + length vs ≤ j → null_at index vs j ≡ false
unfolding null_at
null_at_above [] index j h = refl
null_at_above (v ∷ vs) index j h = ground (arith, null_at_above vs (index + 1) j)

pub null_at_here : (v : Value) (vs : Tuple) (index : ℕ) → null_at index (v ∷ vs) index ≡ is_null v
unfolding null_at
null_at_here v vs index = ground (arith, null_at_below vs (index + 1) index (omega arith))

pub null_at_next :
    (v : Value) (vs : Tuple) (index j : ℕ)
    → index < j
    → null_at index (v ∷ vs) j ≡ null_at (index + 1) vs j
unfolding null_at
null_at_next v vs index j h = ground arith

mark_one-IsByte :
    (index : ℕ) (v : Value) (bitmap : Bytes)
    → All IsByte bitmap
    → All IsByte (mark_one index v bitmap)
unfolding mark_one
mark_one-IsByte index v bitmap h = elim (Bool-cases (is_null v)) [
  | inl e ↦ rw e (set_bit-IsByte bitmap index h)
  | inr e ↦ rw e h
]

length-mark_one :
    (index : ℕ) (v : Value) (bitmap : Bytes) → length (mark_one index v bitmap) ≡ length bitmap
unfolding mark_one
length-mark_one index v bitmap = ground (arith, length-set_bit bitmap 0 index)

test_bit-mark_one :
    (index j : ℕ) (v : Value) (bitmap : Bytes)
    → All IsByte bitmap
    → index / 8 < length bitmap
    → test_bit (mark_one index v bitmap) j ≡ ((index == j && is_null v) || test_bit bitmap j)
unfolding mark_one
test_bit-mark_one index j v bitmap hb hi = ground (arith, test_bit-set_bit bitmap index j hb hi)

pub mark-IsByte :
    (vs : Tuple) (index : ℕ) (bitmap : Bytes)
    → All IsByte bitmap
    → All IsByte (mark index vs bitmap)
unfolding mark
mark-IsByte [] index bitmap h = h
mark-IsByte (v ∷ vs) index bitmap h =
    mark-IsByte vs (index + 1) (mark_one index v bitmap) (mark_one-IsByte index v bitmap h)

pub length-mark :
    (vs : Tuple) (index : ℕ) (bitmap : Bytes) → length (mark index vs bitmap) ≡ length bitmap
unfolding mark
length-mark [] index bitmap = refl
length-mark (v ∷ vs) index bitmap =
    length-mark vs (index + 1) (mark_one index v bitmap) ∙ length-mark_one index v bitmap

test_bit-mark :
    (vs : Tuple) (index j : ℕ) (bitmap : Bytes)
    → All IsByte bitmap
    → index + length vs ≤ 8 * length bitmap
    → test_bit (mark index vs bitmap) j ≡ (null_at index vs j || test_bit bitmap j)
unfolding mark null_at
test_bit-mark [] index j bitmap hb hi = refl
test_bit-mark (v ∷ vs) index j bitmap hb hi = ground (
  arith,
  test_bit-mark vs (index + 1) j (mark_one index v bitmap) (mark_one-IsByte index v bitmap hb)
      (omega (arith, length-mark_one index v bitmap)),
  test_bit-mark_one index j v bitmap hb (omega arith),
)

pub length-bitmap :
    (schema : Schema) (tuple : Tuple)
    → length (mark 0 tuple (empty_bitmap schema)) ≡ bitmap_size schema
length-bitmap schema tuple =
    length-mark tuple 0 (empty_bitmap schema) ∙ length-replicate {A = ℕ} (bitmap_size schema) 0

-- The bitmap of a row has the bits of its null columns.
pub test_bit-bitmap :
    (schema : Schema) (tuple : Tuple) (j : ℕ)
    → length tuple ≡ length schema
    → test_bit (mark 0 tuple (empty_bitmap schema)) j ≡ null_at 0 tuple j
test_bit-bitmap schema tuple j e = ground (
  arith,
  test_bit-mark tuple 0 j (empty_bitmap schema) (replicate-IsByte (bitmap_size schema))
      (omega (arith, e, length-replicate {A = ℕ} (bitmap_size schema) 0)),
  test_bit-replicate (bitmap_size schema) j,
)

decode_value-field_bytes :
    (c : Column) (v : Value) (rest : Bytes)
    → Fits c v
    → is_null v ≡ false
    → decode_value c.type (field_bytes v ++ rest) ≡ ok (v, rest)
unfolding decode_value field_bytes is_null
decode_value-field_bytes c Value.null rest h n = cc
decode_value-field_bytes c (Value.integer k) rest h n =
    rw (h.0, take_word-word_bytes tuple_corruption 8 (to_u64 k) rest (to_u64-lt k h.1))
      (rw (from_u64-to_u64 k h.1))
decode_value-field_bytes c (Value.text t) rest h n =
    rw (h.0, append_assoc, take_word-word_bytes tuple_corruption 4 (length t) (t ++ rest) h.1)
      (rw (take_bytes-append tuple_corruption (length t) t rest refl))
decode_value-field_bytes c (Value.boolean true) rest h n =
    rw (h, le→ltb_false (suc (length rest)) 1 (omega arith))
decode_value-field_bytes c (Value.boolean false) rest h n =
    rw (h, le→ltb_false (suc (length rest)) 1 (omega arith))

decode_column-field_bytes :
    (bitmap : Bytes) (index : ℕ) (c : Column) (v : Value) (rest : Bytes)
    → Fits c v
    → test_bit bitmap index ≡ is_null v
    → decode_column bitmap index c (field_bytes v ++ rest) ≡ ok (v, rest)
unfolding decode_column is_null field_bytes
decode_column-field_bytes bitmap index c Value.null rest h e = rw (e, h)
decode_column-field_bytes bitmap index c (Value.integer k) rest h e =
    rw e (decode_value-field_bytes c (Value.integer k) rest h refl)
decode_column-field_bytes bitmap index c (Value.text t) rest h e =
    rw e (decode_value-field_bytes c (Value.text t) rest h refl)
decode_column-field_bytes bitmap index c (Value.boolean b) rest h e =
    rw e (decode_value-field_bytes c (Value.boolean b) rest h refl)

decode_loop-payload :
    (bitmap : Bytes) (index : ℕ) (cs : Schema) (vs : Tuple) (rest : Bytes)
    → RowFits cs vs
    → ((j : ℕ) → index ≤ j → test_bit bitmap j ≡ null_at index vs j)
    → decode_loop bitmap index cs (payload vs ++ rest) ≡ ok (vs, rest)
unfolding decode_loop payload
decode_loop-payload bitmap index [] [] rest h e = refl
decode_loop-payload bitmap index [] (v ∷ vs) rest h e = absurd h
decode_loop-payload bitmap index (c ∷ cs) [] rest h e = absurd h
decode_loop-payload bitmap index (c ∷ cs) (v ∷ vs) rest h e =
    rw
      (
        append_assoc,
        decode_column-field_bytes bitmap index c v (payload vs ++ rest) h.0
            (e index (omega arith) ∙ null_at_here v vs index),
        decode_loop-payload bitmap (index + 1) cs vs rest h.1
            (λ j lt. e j (omega arith) ∙ null_at_next v vs index j (omega arith)),
      )
      refl

-- The bitmap of a row passes the check for bits beyond the last column.
unknown_bits-bitmap :
    (schema : Schema) (tuple : Tuple)
    → length tuple ≡ length schema
    → unknown_bits (length schema) (mark 0 tuple (empty_bitmap schema)) ≡ false
unknown_bits-bitmap schema tuple e =
    unknown_bits_none (mark 0 tuple (empty_bitmap schema)) (length schema)
      (mark-IsByte tuple 0 (empty_bitmap schema) (replicate-IsByte (bitmap_size schema)))
      (length-bitmap schema tuple)
      (λ j h. test_bit-bitmap schema tuple j e ∙ null_at_above tuple 0 j (omega (arith, e)))

decode_body-encoding :
    (schema : Schema) (tuple : Tuple)
    → RowFits schema tuple
    → decode_body schema (mark 0 tuple (empty_bitmap schema) ++ payload tuple) ≡ ok tuple
unfolding decode_body
decode_body-encoding schema tuple h =
    let e = RowFits-length schema tuple h in
    let bitmap = mark 0 tuple (empty_bitmap schema) in
    let fields : decode_loop bitmap 0 schema (payload tuple) ≡ ok (tuple, []) =
      rw (append-nil (payload tuple)) at (
        decode_loop-payload bitmap 0 schema tuple [] h (λ j _. test_bit-bitmap schema tuple j e)) in
    rw
      (
        take_bytes-append tuple_corruption (bitmap_size schema) bitmap (payload tuple)
            (length-bitmap schema tuple),
        unknown_bits-bitmap schema tuple e,
        fields,
      )
      refl

pub header-append :
    (schema : Schema) (rest : Bytes)
    → header schema ++ rest
      ≡ word_bytes 4 0 magic ++ (word_bytes 2 0 version ++ (word_bytes 2 0 (length schema) ++ rest))
header-append schema rest = simp append_assoc

-- Decoding the encoding of a row that fits the schema gives the row back.
pub decode-encoding :
    (schema : Schema) (tuple : Tuple)
    → IsValidSchema schema
    → RowFits schema tuple
    → decode schema (encoding schema tuple) ≡ ok tuple
unfolding decode
decode-encoding schema tuple hs ht =
    let body = mark 0 tuple (empty_bitmap schema) ++ payload tuple in
    let n = length schema in
    let few = hs.few in
    rw
      (
        header-append schema body,
        validate_schema-ok schema hs,
        take_word-word_bytes tuple_corruption 4 magic
            (word_bytes 2 0 version ++ (word_bytes 2 0 n ++ body)) (omega arith),
      )
      (rw
        (
          take_word-word_bytes tuple_corruption 2 version (word_bytes 2 0 n ++ body) (omega arith),
          take_word-word_bytes tuple_corruption 2 n body (omega arith),
        )
        (rw (==_refl n) (decode_body-encoding schema tuple ht)))

-- `decode` takes back what `encode` returns for a row that fits its schema, and `encode` returns
-- such a row's bytes.
pub decode-encode :
    (schema : Schema) (tuple : Tuple)
    → IsValidSchema schema
    → RowFits schema tuple
    → (bytes : Bytes) × (encode schema tuple ≡ ok bytes) × (decode schema bytes ≡ ok tuple)
decode-encode schema tuple hs ht =
    (encoding schema tuple, encode-encoding schema tuple hs ht, decode-encoding schema tuple hs ht)
