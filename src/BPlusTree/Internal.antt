-- ===== src/BPlusTree/Internal.antt =====
-- src/bplus_tree.cpp: the root node of an index of height two.
use pageforge.Prelude.{
  ℕ, zero, suc, ◌+◌, ◌*◌, List, [], ◌∷◌, Bool, true, false, not, ◌||◌, length, drop, replicate, map,
  Option, none, some, ltb, ◌==◌, Result, ok, ◌>>=◌, ◌>>◌, throw_if, invalid_argument,
  index_corruption, if◌then◌else◌,
}
use pageforge.Bytes.{Bytes, copy_to}
use pageforge.Page.Fields.{read_u16, read_u32, write_u16, write_u32}
use pageforge.BPlusTree.Entry.{IndexEntry, Child, record_key}
use pageforge.BPlusTree.Node.{
  internal_magic, format_version, node_header_bytes, has_magic, all_zero, read_id,
}
use pageforge.BPlusTree.Leaf.{strictly_ordered, write_entry, read_entry, follows}

abbrev pub internal_capacity : ℕ
internal_capacity = 128

abbrev pub internal_entry_bytes : ℕ
internal_entry_bytes = 20

abbrev pub internal_bytes : ℕ
internal_bytes = node_header_bytes + internal_capacity * internal_entry_bytes

unfoldable pub write_child : Bytes → ℕ → Child → Bytes
write_child output offset child =
    let output = write_entry output offset child.high in
    let output = write_u32 output (offset + 14) child.id.page_id in
    write_u16 output (offset + 18) child.id.slot_id

unfoldable pub write_children : Bytes → ℕ → List Child → Bytes
write_children output index [] = output
write_children output index (c ∷ children) =
    write_children (write_child output (node_header_bytes + index * internal_entry_bytes) c)
      (index + 1) children

unfoldable pub encode_internal : List Child → Result Bytes
encode_internal children = do
  throw_if (ltb (length children) 2 || ltb internal_capacity (length children)) invalid_argument
  throw_if (not (strictly_ordered (map (λ c. c.high) children))) invalid_argument
  let output = copy_to internal_magic (replicate internal_bytes 0) 0
  let output = write_u16 output 4 format_version
  let output = write_u16 output 8 (length children)
  ok (write_children output 0 children)

abbrev pub read_child : Bytes → ℕ → Child
read_child input offset = record {
  high = read_entry input offset;
  id = read_id input (offset + 14);
}

-- Whether the set of the child pointers that were seen holds one.
unfoldable pub seen : ℕ → List ℕ → Bool
seen key [] = false
seen key (k ∷ keys) = let rest = seen key keys in if k == key then true else rest

unfoldable pub read_children : ℕ → ℕ → List ℕ → Option IndexEntry → Bytes → Result (List Child)
read_children zero index ids before input = ok []
read_children (suc left) index ids before input = do
  let child = read_child input (node_header_bytes + index * internal_entry_bytes)
  throw_if (seen (record_key child.id) ids) index_corruption
  throw_if (not (follows before child.high)) index_corruption
  children ← read_children left (index + 1) (record_key child.id ∷ ids) (some child.high) input
  ok (child ∷ children)

unfoldable pub decode_internal : Bytes → Result (List Child)
decode_internal input = do
  throw_if (not (length input == internal_bytes) || not (has_magic input internal_magic))
      index_corruption
  throw_if (not (read_u16 input 4 == format_version)) index_corruption
  throw_if
      (not (read_u16 input 6 == 0) || not (read_u16 input 10 == 0) || not (read_u32 input 12 == 0))
      index_corruption
  let count = read_u16 input 8
  throw_if (ltb count 2 || ltb internal_capacity count) index_corruption
  children ← read_children count 0 [] none input
  throw_if (not (all_zero (drop (node_header_bytes + count * internal_entry_bytes) input)))
      index_corruption
  ok children
