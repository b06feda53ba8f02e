-- ===== src/BPlusTree/Node/RoundTrip.antt =====
-- The header record of an index decodes to the header that was encoded.
use pageforge.Prelude.{ℕ, ◌^◌, ◌<◌, ◌≡◌, ◌∙◌, arith, [], ◌∷◌, ◌⊎◌, inl, inr, ok, ◌>>=◌}
use pageforge.Bytes.{Bytes, byte_at, copy_to, word_bytes, read_word, write_word}
use pageforge.Bytes.Words.{read_word-bytes_le}
use pageforge.Bytes.Slices.{read_word-take}
use pageforge.RecordStore.{RecordId}
use pageforge.BPlusTree.Node.{Header, encode_header, decode_header, has_magic}

-- The ranges of the fields: 32 bits for a page, 16 bits for a slot.
abbrev pub IsRecordId : RecordId → Type 0
IsRecordId id = (id.page_id < 2 ^ 32) × (id.slot_id < 2 ^ 16)

-- The bytes of a field that stand in front of others read back.
field-u32 :
    (v : ℕ) (rest : Bytes)
    → v < 2 ^ 32
    → read_word 4 0 0 (byte_at v 0 ∷ byte_at v 1 ∷ byte_at v 2 ∷ byte_at v 3 ∷ rest) ≡ v
unfolding word_bytes
field-u32 v rest small =
    read_word-take 4 0 0 (byte_at v 0 ∷ byte_at v 1 ∷ byte_at v 2 ∷ byte_at v 3 ∷ rest)
    ∙ read_word-bytes_le 4 v (omega arith)

field-u16 :
    (v : ℕ) (rest : Bytes) → v < 2 ^ 16 → read_word 2 0 0 (byte_at v 0 ∷ byte_at v 1 ∷ rest) ≡ v
unfolding word_bytes
field-u16 v rest small =
    read_word-take 2 0 0 (byte_at v 0 ∷ byte_at v 1 ∷ rest) ∙ read_word-bytes_le 2 v (omega arith)

field-id :
    (id : RecordId) (rest rest' : Bytes)
    → IsRecordId id
    → Path RecordId
        (record {
          page_id = read_word 4 0 0 (
              byte_at id.page_id 0
              ∷ byte_at id.page_id 1
              ∷ byte_at id.page_id 2
              ∷ byte_at id.page_id 3
              ∷ rest);
          slot_id = read_word 2 0 0 (byte_at id.slot_id 0 ∷ byte_at id.slot_id 1 ∷ rest');
        })
        id
field-id id rest rest' (p, q) = λ i. record {
  page_id = field-u32 id.page_id rest p i;
  slot_id = field-u16 id.slot_id rest' q i;
}

-- An index of height one or two whose record ids fit their fields encodes, and its encoding decodes to
-- the same header.
pub decode_header-encode_header :
    (header : Header)
    → (header.height ≡ 1) ⊎ (header.height ≡ 2)
    → IsRecordId header.root
    → IsRecordId header.first_leaf
    → (encode_header header >>= decode_header) ≡ ok header
unfolding encode_header decode_header has_magic write_word copy_to read_word
decode_header-encode_header header (inl one) p q = rw one (λ i. ok (record {
  height = 1;
  root = field-id header.root [] [] p i;
  first_leaf = field-id header.first_leaf [] [] q i;
}))
decode_header-encode_header header (inr two) p q = rw two (λ i. ok (record {
  height = 2;
  root = field-id header.root [] [] p i;
  first_leaf = field-id header.first_leaf [] [] q i;
}))
