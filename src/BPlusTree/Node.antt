-- ===== src/BPlusTree/Node.antt =====
-- src/bplus_tree.cpp: what the nodes' encodings share, and the header
-- record of an index.
pub mod RoundTrip
use pageforge.Prelude.{
  ℕ, zero, suc, ◌+◌, List, [], ◌∷◌, Bool, true, false, not, ◌&&◌, ◌||◌, length, take, drop,
  replicate, ltb, leb, ◌==◌, Result, ok, err, ◌>>=◌, ◌>>◌, throw_if, invalid_argument,
  index_corruption, if◌then◌else◌,
}
use pageforge.Bytes.{Bytes, copy_to}
use pageforge.Page.Fields.{read_u16, read_u32, write_u16, write_u32}
use pageforge.RecordStore.{RecordId}

abbrev pub header_magic : Bytes
header_magic = 80 ∷ 70 ∷ 73 ∷ 72 ∷ []

abbrev pub internal_magic : Bytes
internal_magic = 80 ∷ 70 ∷ 73 ∷ 78 ∷ []

abbrev pub leaf_magic : Bytes
leaf_magic = 80 ∷ 70 ∷ 73 ∷ 76 ∷ []

abbrev pub format_version : ℕ
format_version = 2

abbrev pub header_bytes : ℕ
header_bytes = 24

abbrev pub node_header_bytes : ℕ
node_header_bytes = 16

-- `std::equal` over the bytes of the magic number.
unfoldable pub starts_with : Bytes → Bytes → Bool
starts_with [] input = true
starts_with (m ∷ magic) [] = false
starts_with (m ∷ magic) (b ∷ input) =
    let rest = starts_with magic input in if m == b then rest else false

unfoldable pub has_magic : Bytes → Bytes → Bool
unfolding starts_with
has_magic input magic = leb (length magic) (length input) && starts_with magic input

-- The padding of a node, from where its entries end.
unfoldable pub all_zero : Bytes → Bool
all_zero [] = true
all_zero (b ∷ bytes) = let rest = all_zero bytes in if b == 0 then rest else false

pub record Header : Type 0 where
  pub height : ℕ
  pub root : RecordId
  pub first_leaf : RecordId

unfoldable pub encode_header : Header → Result Bytes
encode_header header =
    if not (header.height == 1) && not (header.height == 2)
    then err invalid_argument
    else let output = copy_to header_magic (replicate header_bytes 0) 0 in
      let output = write_u16 output 4 format_version in
      let output = write_u16 output 6 header.height in
      let output = write_u32 output 8 header.root.page_id in
      let output = write_u16 output 12 header.root.slot_id in
      let output = write_u32 output 16 header.first_leaf.page_id in
      let output = write_u16 output 20 header.first_leaf.slot_id in ok output

-- The reads of a record id's page number and slot number.
abbrev pub read_id : Bytes → ℕ → RecordId
read_id input offset = record {
  page_id = read_u32 input offset;
  slot_id = read_u16 input (offset + 4);
}

unfoldable pub decode_header : Bytes → Result Header
decode_header input = do
  throw_if (not (length input == header_bytes) || not (has_magic input header_magic))
      index_corruption
  throw_if (not (read_u16 input 4 == format_version)) index_corruption
  let height = read_u16 input 6
  throw_if (not (height == 1) && not (height == 2)) index_corruption
  throw_if (not (read_u16 input 14 == 0) || not (read_u16 input 22 == 0)) index_corruption
  ok (record { height = height; root = read_id input 8; first_leaf = read_id input 16 })
