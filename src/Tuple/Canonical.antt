-- ===== src/Tuple/Canonical.antt =====
-- What `decode` accepts is an encoding: the bytes that `encode` makes of the decoded row.
use mathlib.Core.Path.{subst, ap₂}
use mathlib.Core.List.{append_assoc, append-nil}
use pageforge.Prelude.{
  ℕ, ◌+◌, ◌≤◌, ◌<◌, ◌≡◌, refl, sym, ap, ◌∙◌, arith, true, false, [], ◌∷◌, ◌++◌, length, All, ◌==◌,
  ==_iff, if◌then◌else◌, ok, err, Bool-cases, inl, inr, >>=-eq-ok, ok-injective, ltb, ltb→lt,
  ltb_false→le, throw_if-eq-ok, throw_if, not, ◌&&◌, tuple_corruption, invalid_argument,
}
use pageforge.Prelude.Int.{to_u64-from_u64, from_u64-IsI64}
use pageforge.Bytes.{Bytes, IsByte, word_bytes, require_bytes}
use pageforge.Bytes.Words.{take_word-ReadsWord, take_bytes-ReadsBytes}
use pageforge.Tuple.Bitmap.{bitmap_ext, unknown_bits_some, replicate-IsByte}
use pageforge.Tuple.Typing.{
  Fits, RowFits, IsKnown, IsValidSchema, field_bytes, payload, mark, empty_bitmap, encoding,
  RowFits-length, encode-encoding,
}
use pageforge.Tuple.RoundTrip.{
  null_at, null_at_here, null_at_next, null_at_above, mark-IsByte, length-bitmap, test_bit-bitmap,
  header-append,
}
use pageforge.Tuple.{
  DataType, Column, Schema, Value, Tuple, is_null, known_type, test_bit, unknown_bits, magic,
  version, bitmap_size, encode, decode_value, decode_column, decode_loop, decode_body, decode,
  validate_schema, validate_types,
}

-- A field that was read: it fits the column, and its bytes are those that `encode` writes.
record ReadsField (c : Column) (bytes : Bytes) (r : Value × Bytes) : Type 0 where
  fits : Fits c r.0
  front : bytes ≡ field_bytes r.0 ++ r.1
  rest_ok : All IsByte r.1

abbrev ReadsValue : Column → Bytes → Value × Bytes → Type 0
ReadsValue c bytes r = ReadsField c bytes r × (is_null r.0 ≡ false)

decode_integer :
    (c : Column) (bytes : Bytes) {r : Value × Bytes}
    → c.type ≡ DataType.integer
    → All IsByte bytes
    → decode_value DataType.integer bytes ≡ ok r
    → ReadsValue c bytes r
unfolding decode_value field_bytes is_null
decode_integer c bytes t hb e =
    let ((w, rest), word, result) = >>=-eq-ok _ _ e in
    let (small, front, ok_rest) = take_word-ReadsWord tuple_corruption 8 bytes hb word in
    subst (ReadsValue c bytes) (ok-injective result) (
      record {
        fits = (t, from_u64-IsI64 w small);
        front = rw (to_u64-from_u64 w small) front;
        rest_ok = ok_rest;
      },
      refl,
    )

decode_text :
    (c : Column) (bytes : Bytes) {r : Value × Bytes}
    → c.type ≡ DataType.text
    → All IsByte bytes
    → decode_value DataType.text bytes ≡ ok r
    → ReadsValue c bytes r
unfolding decode_value field_bytes is_null
decode_text c bytes t hb e =
    let ((size, rest), word, e') = >>=-eq-ok _ _ e in
    let (small, front, ok_rest) = take_word-ReadsWord tuple_corruption 4 bytes hb word in
    let ((s, rest'), body, result) = >>=-eq-ok _ _ e' in
    let (sized, front', _, ok_rest') =
      take_bytes-ReadsBytes tuple_corruption size rest ok_rest body in
    subst (ReadsValue c bytes) (ok-injective result) (
      record {
        fits = (t, omega (arith, sized));
        front = rw (sized, append_assoc, ← front') front;
        rest_ok = ok_rest';
      },
      refl,
    )

decode_flag :
    (c : Column) (bytes : Bytes) {r : Value × Bytes}
    → c.type ≡ DataType.boolean
    → All IsByte bytes
    → decode_value DataType.boolean bytes ≡ ok r
    → ReadsValue c bytes r
unfolding decode_value field_bytes is_null
decode_flag c [] t hb e = cc
decode_flag c (b ∷ bytes) t hb e =
    let (_, _, e1) = >>=-eq-ok (require_bytes tuple_corruption (b ∷ bytes) 1) _ e in
    let (_, valid, result) =
      >>=-eq-ok (throw_if (not (b == 0) && not (b == 1)) tuple_corruption) _ e1 in
    let flag : b ≡ (if b == 1 then 1 else 0) =
      ground (arith, throw_if-eq-ok (not (b == 0) && not (b == 1)) tuple_corruption valid) in
    subst (ReadsValue c (b ∷ bytes)) (ok-injective result)
      (record { fits = t; front = ap (λ (h : ℕ). h ∷ bytes) flag; rest_ok = hb.1 }, refl)

decode_value-ReadsField :
    (c : Column) (d : DataType) (bytes : Bytes) {r : Value × Bytes}
    → c.type ≡ d
    → All IsByte bytes
    → decode_value d bytes ≡ ok r
    → ReadsValue c bytes r
decode_value-ReadsField c DataType.integer bytes t hb e = decode_integer c bytes t hb e
decode_value-ReadsField c DataType.text bytes t hb e = decode_text c bytes t hb e
decode_value-ReadsField c DataType.boolean bytes t hb e = decode_flag c bytes t hb e
decode_value-ReadsField c DataType.unknown bytes t hb e = absurd (unfold decode_value in cc)

decode_null :
    (bitmap : Bytes) (index : ℕ) (c : Column) (bytes : Bytes) {r : Value × Bytes}
    → test_bit bitmap index ≡ true
    → All IsByte bytes
    → (if not c.nullable then err tuple_corruption else ok (Value.null, bytes)) ≡ ok r
    → ReadsField c bytes r × (test_bit bitmap index ≡ is_null r.0)
unfolding field_bytes is_null
decode_null bitmap index c bytes {r} b hb e = elim (Bool-cases c.nullable) [
  | inl n ↦
      let same : ok (Value.null, bytes) ≡ ok r = rw n at e in
      subst (λ (r : Value × Bytes). ReadsField c bytes r × (test_bit bitmap index ≡ is_null r.0))
        (ok-injective same) (record { fits = n; front = refl; rest_ok = hb }, b)
  | inr n ↦ absurd (ground arith)
]

decode_column-ReadsField :
    (bitmap : Bytes) (index : ℕ) (c : Column) (bytes : Bytes) {r : Value × Bytes}
    → All IsByte bytes
    → decode_column bitmap index c bytes ≡ ok r
    → ReadsField c bytes r × (test_bit bitmap index ≡ is_null r.0)
unfolding decode_column
decode_column-ReadsField bitmap index c bytes {r} hb e = elim (Bool-cases (test_bit bitmap index)) [
  | inl b ↦ decode_null bitmap index c bytes b hb (rw b at e)
  | inr b ↦
      let (field, n) = decode_value-ReadsField c c.type bytes {r = r} refl hb (rw b at e) in
      (field, b ∙ sym n)
]

record ReadsRow (index : ℕ) (cs : Schema) (bitmap bytes : Bytes) (r : Tuple × Bytes) : Type 0 where
  fits : RowFits cs r.0
  front : bytes ≡ payload r.0 ++ r.1
  nulls : (j : ℕ) → index ≤ j → j < index + length cs → test_bit bitmap j ≡ null_at index r.0 j
  rest_ok : All IsByte r.1

decode_loop-ReadsRow :
    (bitmap : Bytes) (index : ℕ) (cs : Schema) (bytes : Bytes) {r : Tuple × Bytes}
    → All IsByte bytes
    → decode_loop bitmap index cs bytes ≡ ok r
    → ReadsRow index cs bitmap bytes r
unfolding decode_loop payload
decode_loop-ReadsRow bitmap index [] bytes hb e =
    subst (ReadsRow index [] bitmap bytes) (ok-injective e)
      (record { fits = tt; front = refl; nulls = λ j h k. absurd (omega arith); rest_ok = hb })
decode_loop-ReadsRow bitmap index (c ∷ cs) bytes hb e =
    let ((v, rest), column, e1) = >>=-eq-ok _ _ e in
    let ((vs, rest'), columns, result) = >>=-eq-ok _ _ e1 in
    let (field, bit) = decode_column-ReadsField bitmap index c bytes hb column in
    let row = decode_loop-ReadsRow bitmap (index + 1) cs rest field.rest_ok columns in
    subst (ReadsRow index (c ∷ cs) bitmap bytes) (ok-injective result) (record {
      fits = (field.fits, row.fits);
      front = rw (append_assoc, ← row.front) field.front;
      nulls = λ j h k. next_null v vs j h k bit (row.nulls j);
      rest_ok = row.rest_ok;
    })
  where
    next_null :
        (v : Value) (vs : Tuple) (j : ℕ)
        → index ≤ j
        → j < index + length (c ∷ cs)
        → test_bit bitmap index ≡ is_null v
        → (index + 1 ≤ j → j < index + 1 + length cs → test_bit bitmap j ≡ null_at (index + 1) vs j)
        → test_bit bitmap j ≡ null_at index (v ∷ vs) j
    next_null v vs j h k bit later = elim (Bool-cases (index == j)) [
      | inl e ↦ let i : index ≡ j = ground arith in rw (← i) (bit ∙ sym (null_at_here v vs index))
      | inr e ↦
          let lt : index < j = ground arith in
          later (omega arith) (omega arith) ∙ sym (null_at_next v vs index j lt)
    ]

validate_types-IsKnown : (schema : Schema) → validate_types schema ≡ ok tt → All IsKnown schema
unfolding validate_types
validate_types-IsKnown [] e = tt
validate_types-IsKnown (c ∷ cs) e =
    let (_, known, rest) = >>=-eq-ok (throw_if (not (known_type c.type)) invalid_argument) _ e in
    (
      ground (arith, throw_if-eq-ok (not (known_type c.type)) invalid_argument known),
      validate_types-IsKnown cs rest,
    )

validate_schema-IsValidSchema :
    (schema : Schema) {u : Unit {0}} → validate_schema schema ≡ ok u → IsValidSchema schema
unfolding validate_schema
validate_schema-IsValidSchema schema e =
    let (_, few, known) = >>=-eq-ok (throw_if (ltb 0xffff (length schema)) invalid_argument) _ e in
    record {
      few = omega (
        arith,
        ltb_false→le _ _ (throw_if-eq-ok (ltb 0xffff (length schema)) invalid_argument few),
      );
      known = validate_types-IsKnown schema known;
    }

empty_of_length : (bytes : Bytes) → (length bytes == 0) ≡ true → bytes ≡ []
empty_of_length [] h = refl
empty_of_length (b ∷ bytes) h = absurd (omega (arith, (==_iff _ _).0 h))

-- The bitmap that was read is that of the row.
bitmap-mark :
    (schema : Schema) (tuple : Tuple) (bitmap bytes : Bytes) {rest : Bytes}
    → length bitmap ≡ bitmap_size schema
    → All IsByte bitmap
    → unknown_bits (length schema) bitmap ≡ false
    → ReadsRow 0 schema bitmap bytes (tuple, rest)
    → bitmap ≡ mark 0 tuple (empty_bitmap schema)
bitmap-mark schema tuple bitmap bytes sized hb clear row =
    bitmap_ext bitmap (mark 0 tuple (empty_bitmap schema))
      (sized ∙ sym (length-bitmap schema tuple)) hb
      (mark-IsByte tuple 0 (empty_bitmap schema) (replicate-IsByte (bitmap_size schema))) bits
  where
    arity : length tuple ≡ length schema
    arity = RowFits-length schema tuple row.fits

    bits : (j : ℕ) → test_bit bitmap j ≡ test_bit (mark 0 tuple (empty_bitmap schema)) j
    bits j = rw (test_bit-bitmap schema tuple j arity) (elim (Bool-cases (ltb j (length schema))) [
      | inl h ↦ row.nulls j (omega arith) (omega (arith, ltb→lt _ _ h))
      | inr h ↦
          let above : length schema ≤ j = ltb_false→le _ _ h in
          unknown_bits_some bitmap (length schema) hb sized clear j above
          ∙ sym (null_at_above tuple 0 j (omega (arith, arity)))
    ])

decode_body-eq-ok :
    (schema : Schema) (bytes : Bytes) {tuple : Tuple}
    → All IsByte bytes
    → decode_body schema bytes ≡ ok tuple
    → RowFits schema tuple × (bytes ≡ mark 0 tuple (empty_bitmap schema) ++ payload tuple)
unfolding decode_body
decode_body-eq-ok schema bytes hb e =
    let ((bitmap, rest), read, e1) = >>=-eq-ok _ _ e in
    let (sized, front, bitmap_ok, rest_ok) =
      take_bytes-ReadsBytes tuple_corruption (bitmap_size schema) bytes hb read in
    let (_, clear, e2) =
      >>=-eq-ok (throw_if (unknown_bits (length schema) bitmap) tuple_corruption) _ e1 in
    let ((row, rest'), fields, e3) = >>=-eq-ok _ _ e2 in
    let (_, done, result) = >>=-eq-ok (throw_if (not (length rest' == 0)) tuple_corruption) _ e3 in
    let reads = decode_loop-ReadsRow bitmap 0 schema rest rest_ok fields in
    let ended : rest' ≡ [] =
      empty_of_length rest'
        (ground (arith, throw_if-eq-ok (not (length rest' == 0)) tuple_corruption done)) in
    let marked =
      bitmap-mark schema row bitmap rest sized bitmap_ok
        (throw_if-eq-ok (unknown_bits (length schema) bitmap) tuple_corruption clear) reads in
    subst (λ t. RowFits schema t × (bytes ≡ mark 0 t (empty_bitmap schema) ++ payload t))
      (ok-injective result)
      (reads.fits, front ∙ ap₂ {C = Bytes} ◌++◌ marked (reads.front ∙ rw (ended, append-nil)))

same_number : (m n : ℕ) {u : Unit {0}} → throw_if (not (m == n)) tuple_corruption ≡ ok u → m ≡ n
same_number m n h =
    (==_iff m n).0 (ground (arith, throw_if-eq-ok (not (m == n)) tuple_corruption h))

-- The three header fields before the bitmap.
framed :
    (schema : Schema) (tuple : Tuple) (m v n : ℕ) {bytes bytes1 bytes2 bytes3 : Bytes}
    → (bytes ≡ word_bytes 4 0 m ++ bytes1)
      × (bytes1 ≡ word_bytes 2 0 v ++ bytes2)
      × (bytes2 ≡ word_bytes 2 0 n ++ bytes3)
    → (m ≡ magic) × (v ≡ version) × (n ≡ length schema)
    → bytes3 ≡ mark 0 tuple (empty_bitmap schema) ++ payload tuple
    → bytes ≡ encoding schema tuple
framed schema tuple m v n (front1, front2, front3) (em, ev, en) body =
    rw
      (
        header-append schema (mark 0 tuple (empty_bitmap schema) ++ payload tuple),
        ← body,
        ← en,
        ← front3,
        ← ev,
        ← front2,
        ← em,
      )
      front1

-- Bytes that `decode` accepts come from a row that fits the schema, and are its encoding.
pub decode-eq-ok :
    (schema : Schema) (bytes : Bytes) {tuple : Tuple}
    → All IsByte bytes
    → decode schema bytes ≡ ok tuple
    → IsValidSchema schema × RowFits schema tuple × (bytes ≡ encoding schema tuple)
unfolding decode
decode-eq-ok schema bytes {tuple} hb e =
    let (_, valid, e1) = >>=-eq-ok (validate_schema schema) _ e in
    let ((m, bytes1), read1, e2) = >>=-eq-ok _ _ e1 in
    let (_, magic_ok, e3) = >>=-eq-ok (throw_if (not (m == magic)) tuple_corruption) _ e2 in
    let ((v, bytes2), read2, e4) = >>=-eq-ok _ _ e3 in
    let (_, version_ok, e5) = >>=-eq-ok (throw_if (not (v == version)) tuple_corruption) _ e4 in
    let ((n, bytes3), read3, e6) = >>=-eq-ok _ _ e5 in
    let (_, count_ok, e7) = >>=-eq-ok (throw_if (not (n == length schema)) tuple_corruption) _ e6 in
    let (_, front1, ok1) = take_word-ReadsWord tuple_corruption 4 bytes hb read1 in
    let (_, front2, ok2) = take_word-ReadsWord tuple_corruption 2 bytes1 ok1 read2 in
    let (_, front3, ok3) = take_word-ReadsWord tuple_corruption 2 bytes2 ok2 read3 in
    let (row, body) = decode_body-eq-ok schema bytes3 {tuple = tuple} ok3 e7 in
    (
      validate_schema-IsValidSchema schema valid,
      row,
      framed schema tuple m v n (front1, front2, front3)
          (
            same_number m magic magic_ok,
            same_number v version version_ok,
            same_number n (length schema) count_ok,
          )
          body,
    )

-- Decoding accepts nothing but encodings: `encode` makes the same bytes of the row.
pub encode-decode :
    (schema : Schema) (bytes : Bytes) {tuple : Tuple}
    → All IsByte bytes
    → decode schema bytes ≡ ok tuple
    → encode schema tuple ≡ ok bytes
encode-decode schema bytes {tuple} hb e =
    let (valid, row, same) = decode-eq-ok schema bytes {tuple = tuple} hb e in
    encode-encoding schema tuple valid row ∙ ap ok (sym same)
