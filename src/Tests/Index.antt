-- ===== src/Tests/Index.antt =====
-- An index header and a root with two children.
use pageforge.Prelude.{
  ℕ, suc, ◌<◌, List, ◌≡◌, refl, arith, true, false, [], ◌∷◌, inr, length, get_elem?, some, ok,
  ◌>>=◌,
}
use pageforge.Prelude.Int.{pos, negsuc}
use pageforge.RecordStore.{RecordId}
use pageforge.BPlusTree.Entry.{IndexEntry, Child, entry_less, route_entry}
use pageforge.BPlusTree.Entry.Order.{entry_less-IsStrictOrder, route_entry-Splits}
use pageforge.BPlusTree.Node.{Header, encode_header, decode_header}
use pageforge.BPlusTree.Node.RoundTrip.{decode_header-encode_header}

abbrev at : ℕ → ℕ → RecordId
at page slot = record { page_id = page; slot_id = slot }

abbrev header : Header
header = record { height = 2; root = at 70000 3; first_leaf = at 1 0 }

decode_header-encode_header_example : (encode_header header >>= decode_header) ≡ ok header
decode_header-encode_header_example =
    decode_header-encode_header header (inr refl) ((omega arith), (omega arith))
      ((omega arith), (omega arith))

abbrev low : IndexEntry
low = record { key = negsuc 2; value = at 4 1 }

abbrev middle : IndexEntry
middle = record { key = pos 5; value = at 4 2 }

abbrev high : IndexEntry
high = record { key = pos 5; value = at 4 3 }

entry_less-IsStrictOrder_example :
    (entry_less low low ≡ false)
    × (entry_less low middle ≡ true → entry_less middle high ≡ true → entry_less low high ≡ true)
    × (entry_less low middle ≡ false → entry_less middle low ≡ false → low ≡ middle)
entry_less-IsStrictOrder_example = entry_less-IsStrictOrder low middle high

abbrev two_children : List Child
two_children = record { high = low; id = at 4 0 } ∷ record { high = high; id = at 5 0 } ∷ []

route_middle : route_entry two_children middle ≡ 1
unfolding route_entry entry_less
route_middle = refl

route_entry-Splits_example :
    (route_entry two_children middle < length two_children)
    × ((i : ℕ) (c : Child)
        → get_elem? two_children i ≡ some c
        → i < route_entry two_children middle
        → entry_less c.high middle ≡ true)
    × ((c : Child)
        → get_elem? two_children (route_entry two_children middle) ≡ some c
        → suc (route_entry two_children middle) < length two_children
        → entry_less c.high middle ≡ false)
route_entry-Splits_example = route_entry-Splits two_children middle (omega arith)
