-- ===== src/BPlusTree/Leaf.antt =====
-- src/bplus_tree.cpp: the leaves of an index.
use pageforge.Prelude.{
  ℕ, zero, suc, ◌+◌, ◌*◌, List, [], ◌∷◌, Bool, true, false, not, ◌||◌, length, drop, replicate,
  Option, none, some, ltb, ◌==◌, Result, ok, ◌>>=◌, ◌>>◌, throw_if, invalid_argument,
  index_corruption, if◌then◌else◌,
}
use pageforge.Prelude.Int.{to_u64, from_u64}
use pageforge.Bytes.{Bytes, copy_to, read_word, write_word}
use pageforge.Page.Fields.{read_u16, write_u16, write_u32}
use pageforge.RecordStore.{RecordId}
use pageforge.BPlusTree.Entry.{IndexEntry, entry_less}
use pageforge.BPlusTree.Node.{
  leaf_magic, format_version, node_header_bytes, has_magic, all_zero, read_id,
}

abbrev pub leaf_capacity : ℕ
leaf_capacity = 128

abbrev pub leaf_entry_bytes : ℕ
leaf_entry_bytes = 14

abbrev pub leaf_bytes : ℕ
leaf_bytes = node_header_bytes + leaf_capacity * leaf_entry_bytes

abbrev pub no_page : ℕ
no_page = 4294967295

abbrev pub no_slot : ℕ
no_slot = 65535

pub record Leaf : Type 0 where
  pub next : Option RecordId
  pub entries : List IndexEntry

-- Whether `entry_less(entries[index - 1], entries[index])` holds throughout.
unfoldable pub strictly_ordered : List IndexEntry → Bool
strictly_ordered [] = true
strictly_ordered (e ∷ []) = true
strictly_ordered (e ∷ f ∷ entries) =
    let rest = strictly_ordered (f ∷ entries) in if not (entry_less e f) then false else rest

next_page_of : Option RecordId → ℕ
next_page_of none = no_page
next_page_of (some id) = id.page_id

next_slot_of : Option RecordId → ℕ
next_slot_of none = no_slot
next_slot_of (some id) = id.slot_id

unfoldable pub write_entry : Bytes → ℕ → IndexEntry → Bytes
write_entry output offset entry =
    let output = write_word 8 0 output offset (to_u64 entry.key) in
    let output = write_u32 output (offset + 8) entry.value.page_id in
    write_u16 output (offset + 12) entry.value.slot_id

unfoldable pub write_entries : Bytes → ℕ → List IndexEntry → Bytes
write_entries output index [] = output
write_entries output index (e ∷ entries) =
    write_entries (write_entry output (node_header_bytes + index * leaf_entry_bytes) e) (index + 1)
      entries

unfoldable pub encode_leaf : Leaf → Result Bytes
unfolding next_page_of next_slot_of
encode_leaf leaf = do
  throw_if (ltb leaf_capacity (length leaf.entries)) invalid_argument
  throw_if (not (strictly_ordered leaf.entries)) invalid_argument
  let output = copy_to leaf_magic (replicate leaf_bytes 0) 0
  let output = write_u16 output 4 format_version
  let output = write_u32 output 8 (next_page_of leaf.next)
  let output = write_u16 output 12 (next_slot_of leaf.next)
  let output = write_u16 output 14 (length leaf.entries)
  ok (write_entries output 0 leaf.entries)

abbrev pub read_entry : Bytes → ℕ → IndexEntry
read_entry input offset = record {
  key = from_u64 (read_word 8 0 0 (drop offset input));
  value = read_id input (offset + 8);
}

-- Whether the entry in front, if there is one, is less.
unfoldable pub follows : Option IndexEntry → IndexEntry → Bool
follows none e = true
follows (some before) e = entry_less before e

unfoldable pub read_entries : ℕ → ℕ → Option IndexEntry → Bytes → Result (List IndexEntry)
read_entries zero index before input = ok []
read_entries (suc left) index before input = do
  let e = read_entry input (node_header_bytes + index * leaf_entry_bytes)
  throw_if (not (follows before e)) index_corruption
  entries ← read_entries left (index + 1) (some e) input
  ok (e ∷ entries)

unfoldable pub decode_leaf : Bytes → Result Leaf
decode_leaf input = do
  throw_if (not (length input == leaf_bytes) || not (has_magic input leaf_magic)) index_corruption
  throw_if (not (read_u16 input 4 == format_version)) index_corruption
  throw_if (not (read_u16 input 6 == 0)) index_corruption
  let count = read_u16 input 14
  throw_if (ltb leaf_capacity count) index_corruption
  let next = read_id input 8
  throw_if (differ (next.page_id == no_page) (next.slot_id == no_slot)) index_corruption
  entries ← read_entries count 0 none input
  throw_if (not (all_zero (drop (node_header_bytes + count * leaf_entry_bytes) input)))
      index_corruption
  ok (record { next = if next.page_id == no_page then none else some next; entries = entries })
  where
    differ : Bool → Bool → Bool
    differ true b = not b
    differ false b = b
