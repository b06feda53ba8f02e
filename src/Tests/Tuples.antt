-- ===== src/Tests/Tuples.antt =====
-- A row of three columns through the tuple format.
use pageforge.Prelude.{◌≡◌, refl, arith, true, false, [], ◌∷◌, All, ok}
use pageforge.Prelude.Int.{negsuc, to_u64, from_u64}
use pageforge.Bytes.{Bytes, IsByte, word_bytes, read_word}
use pageforge.Tuple.{DataType, Schema, Value, Tuple, known_type, encode, decode}
use pageforge.Tuple.Typing.{IsValidSchema, RowFits, encoding, encode-encoding}
use pageforge.Tuple.RoundTrip.{decode-encode}
use pageforge.Tuple.Canonical.{decode-eq-ok, encode-decode}

abbrev columns : Schema
columns =
    record { name = 105 ∷ []; type = DataType.integer; nullable = false }
    ∷ record { name = 116 ∷ []; type = DataType.text; nullable = true }
    ∷ record { name = 98 ∷ []; type = DataType.boolean; nullable = false }
    ∷ []

abbrev row : Tuple
row = Value.integer (negsuc 4) ∷ Value.null ∷ Value.boolean true ∷ []

abbrev row_bytes : Bytes
row_bytes =
    80 ∷ 70 ∷ 84 ∷ 49 ∷ 1 ∷ 0 ∷ 3 ∷ 0 ∷ 2 ∷ 251 ∷ 255 ∷ 255 ∷ 255 ∷ 255 ∷ 255 ∷ 255 ∷ 255 ∷ 1 ∷ []

columns-IsValidSchema : IsValidSchema columns
unfolding known_type
columns-IsValidSchema = record { few = omega arith; known = (refl, (refl, (refl, tt))) }

row-RowFits : RowFits columns row
row-RowFits = ((refl, ((omega arith), (omega arith))), (refl, (refl, tt)))

row_bytes-IsByte : All IsByte row_bytes
row_bytes-IsByte = grind arith

encode-row : encode columns row ≡ ok row_bytes
unfolding encode word_bytes to_u64
encode-row = refl

decode-row : decode columns row_bytes ≡ ok row
unfolding decode read_word from_u64
decode-row = refl

encode-encoding_example : encode columns row ≡ ok (encoding columns row)
encode-encoding_example = encode-encoding columns row columns-IsValidSchema row-RowFits

decode-encode_example :
    (bytes : Bytes) × (encode columns row ≡ ok bytes) × (decode columns bytes ≡ ok row)
decode-encode_example = decode-encode columns row columns-IsValidSchema row-RowFits

decode-eq-ok_example :
    IsValidSchema columns × RowFits columns row × (row_bytes ≡ encoding columns row)
decode-eq-ok_example = decode-eq-ok columns row_bytes {tuple = row} row_bytes-IsByte decode-row

encode-decode_example : encode columns row ≡ ok row_bytes
encode-decode_example = encode-decode columns row_bytes {tuple = row} row_bytes-IsByte decode-row
