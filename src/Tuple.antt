-- ===== src/Tuple.antt =====
-- include/pageforge/tuple.hpp and src/tuple.cpp: column values and the binary row format.
-- `std::span` with an offset is the bytes that are left; strings are lists of bytes.
pub mod Bitmap
pub mod Typing
pub mod RoundTrip
pub mod Canonical
use pageforge.Prelude.{
  ℕ, zero, suc, ◌+◌, ◌-◌, ◌*◌, ◌/◌, ◌%◌, ◌^◌, ◌<◌, bit_and, bit_or, Bool, true, false, not, ◌&&◌,
  ◌||◌, List, [], ◌∷◌, ◌++◌, length, set, get_or, replicate, ltb, ◌==◌, if◌then◌else◌, Result, ok,
  err, ◌>>=◌, ◌>>◌, throw_if, invalid_argument, tuple_corruption,
}
use pageforge.Prelude.Int.{ℤ, to_u64, from_u64}
use pageforge.Bytes.{
  Bytes, append_u16, append_u32, append_u64, take_word, take_bytes, require_bytes,
}

-- `unknown` is a value of the enumeration's type that none of its enumerators names.
pub data DataType : Type 0 where
  integer text boolean unknown : DataType

pub record Column : Type 0 where
  pub name : Bytes
  pub type : DataType
  pub nullable : Bool

abbrev pub Schema : Type 0
Schema = List Column

-- `std::variant<std::monostate, std::int64_t, std::string, bool>`
pub data Value : Type 0 where
  null : Value
  integer : ℤ → Value
  text : Bytes → Value
  boolean : Bool → Value

abbrev pub Tuple : Type 0
Tuple = List Value

abbrev pub magic : ℕ
magic = 0x31544650

abbrev pub version : ℕ
version = 1

unfoldable pub is_null : Value → Bool
is_null Value.null = true
is_null (Value.integer n) = false
is_null (Value.text t) = false
is_null (Value.boolean b) = false

unfoldable pub known_type : DataType → Bool
known_type DataType.integer = true
known_type DataType.text = true
known_type DataType.boolean = true
known_type DataType.unknown = false

validate_types : Schema → Result (Unit {0})
unfolding known_type
validate_types [] = ok tt
validate_types (c ∷ cs) = do throw_if (not (known_type c.type)) invalid_argument; validate_types cs

unfoldable pub validate_schema : Schema → Result (Unit {0})
unfolding validate_types
validate_schema schema = do
  throw_if (ltb 0xffff (length schema)) invalid_argument
  validate_types schema

abbrev pub bitmap_size : Schema → ℕ
bitmap_size schema = (length schema + 7) / 8

-- `output[offset + index / 8] |= 1U << (index % 8)`
unfoldable pub set_bit : Bytes → ℕ → ℕ → Bytes
set_bit output offset index =
    let at = offset + index / 8 in set output at (bit_or (get_or output at 0) (2 ^ (index % 8)))

-- The `switch` on the column's type, for a value that is not null.
unfoldable pub encode_value : DataType → Value → Bytes → Result Bytes
encode_value DataType.integer (Value.integer n) output = ok (append_u64 output (to_u64 n))
encode_value DataType.text (Value.text t) output =
    if ltb 0xffff_ffff (length t)
    then err invalid_argument
    else ok (append_u32 output (length t) ++ t)
encode_value DataType.boolean (Value.boolean b) output = ok (output ++ (if b then 1 else 0) ∷ [])
encode_value _ _ output = err invalid_argument

unfoldable pub encode_column : ℕ → ℕ → Column → Value → Bytes → Result Bytes
unfolding is_null set_bit encode_value
encode_column offset index column value output =
    if is_null value
    then (if not column.nullable then err invalid_argument else ok (set_bit output offset index))
    else encode_value column.type value output

-- The loop over the columns from `index` on; the two lists have the same length here.
unfoldable pub encode_loop : ℕ → ℕ → Schema → Tuple → Bytes → Result Bytes
unfolding encode_column
encode_loop offset index (c ∷ cs) (v ∷ vs) output =
    encode_column offset index c v output >>= encode_loop offset (index + 1) cs vs
encode_loop offset index _ _ output = ok output

abbrev pub header : Schema → Bytes
header schema = append_u16 (append_u16 (append_u32 [] magic) version) (length schema)

-- `TupleCodec::encode`. `output.resize` appends zero bytes.
unfoldable pub encode : Schema → Tuple → Result Bytes
unfolding validate_schema encode_loop
encode schema tuple = do
  validate_schema schema
  throw_if (not (length tuple == length schema)) invalid_argument
  let bitmap_offset = length (header schema)
  encode_loop bitmap_offset 0 schema tuple (header schema ++ replicate (bitmap_size schema) 0)

-- `(bitmap[index / 8] & (1U << (index % 8))) != 0`
unfoldable pub test_bit : Bytes → ℕ → Bool
test_bit bitmap index = not (bit_and (get_or bitmap (index / 8) 0) (2 ^ (index % 8)) == 0)

-- `!bitmap.empty() && size % 8 != 0 && (bitmap.back() & (0xffU << (size % 8))) != 0`
unfoldable pub unknown_bits : ℕ → Bytes → Bool
unknown_bits size bitmap =
    not (length bitmap == 0)
    && not (size % 8 == 0)
    && not (bit_and (get_or bitmap (length bitmap - 1) 0) (255 * 2 ^ (size % 8)) == 0)

-- `bytes[offset++] == std::byte{1}`, behind the check of the value.
decode_boolean : ℕ × Bytes → Result (Value × Bytes)
decode_boolean (b, rest) = do
  throw_if (not (b == 0) && not (b == 1)) tuple_corruption
  ok (Value.boolean (b == 1), rest)

take_byte : Bytes → Result (ℕ × Bytes)
take_byte [] = err tuple_corruption
take_byte (b ∷ rest) = ok (b, rest)

-- The `switch` on the column's type; the result carries the bytes behind the value.
unfoldable pub decode_value : DataType → Bytes → Result (Value × Bytes)
unfolding decode_boolean take_byte
decode_value DataType.integer bytes = do
  (w, rest) ← take_word tuple_corruption 8 bytes
  ok (Value.integer (from_u64 w), rest)
decode_value DataType.text bytes = do
  (size, rest) ← take_word tuple_corruption 4 bytes
  (t, rest') ← take_bytes tuple_corruption size rest
  ok (Value.text t, rest')
decode_value DataType.boolean bytes = do
  require_bytes tuple_corruption bytes 1
  r ← take_byte bytes
  decode_boolean r
decode_value DataType.unknown bytes = err invalid_argument

unfoldable pub decode_column : Bytes → ℕ → Column → Bytes → Result (Value × Bytes)
unfolding test_bit decode_value
decode_column bitmap index column bytes =
    if test_bit bitmap index
    then (if not column.nullable then err tuple_corruption else ok (Value.null, bytes))
    else decode_value column.type bytes

unfoldable pub decode_loop : Bytes → ℕ → Schema → Bytes → Result (Tuple × Bytes)
unfolding decode_column
decode_loop bitmap index [] bytes = ok ([], bytes)
decode_loop bitmap index (c ∷ cs) bytes = do
  (v, rest) ← decode_column bitmap index c bytes
  (vs, rest') ← decode_loop bitmap (index + 1) cs rest
  ok (v ∷ vs, rest')

-- What `decode` does behind the header.
unfoldable pub decode_body : Schema → Bytes → Result Tuple
unfolding unknown_bits decode_loop
decode_body schema bytes = do
  (bitmap, rest) ← take_bytes tuple_corruption (bitmap_size schema) bytes
  throw_if (unknown_bits (length schema) bitmap) tuple_corruption
  (tuple, rest') ← decode_loop bitmap 0 schema rest
  throw_if (not (length rest' == 0)) tuple_corruption
  ok tuple

-- `TupleCodec::decode`
unfoldable pub decode : Schema → Bytes → Result Tuple
unfolding validate_schema decode_body
decode schema bytes = do
  validate_schema schema
  (m, bytes1) ← take_word tuple_corruption 4 bytes
  throw_if (not (m == magic)) tuple_corruption
  (v, bytes2) ← take_word tuple_corruption 2 bytes1
  throw_if (not (v == version)) tuple_corruption
  (n, bytes3) ← take_word tuple_corruption 2 bytes2
  throw_if (not (n == length schema)) tuple_corruption
  decode_body schema bytes3
