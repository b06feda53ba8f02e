-- ===== src/BPlusTree/Entry.antt =====
-- src/bplus_tree.cpp: the order of the entries, and the child that
-- an entry or a key is routed to.
pub mod Order
use pageforge.Prelude.{
  ℕ, zero, suc, ◌+◌, ◌-◌, ◌*◌, ◌^◌, List, [], ◌∷◌, Bool, true, false, not, length, ltb, ◌==◌,
  bit_or, if◌then◌else◌,
}
use pageforge.Prelude.Int.{ℤ, ltb_ℤ, eq_ℤ}
use pageforge.RecordStore.{RecordId}

pub record IndexEntry : Type 0 where
  pub key : ℤ
  pub value : RecordId

unfoldable pub entry_less : IndexEntry → IndexEntry → Bool
entry_less left right =
    if not (eq_ℤ left.key right.key)
    then ltb_ℤ left.key right.key
    else if not (left.value.page_id == right.value.page_id)
    then ltb left.value.page_id right.value.page_id
    else ltb left.value.slot_id right.value.slot_id

abbrev pub record_key : RecordId → ℕ
record_key id = bit_or (id.page_id * 2 ^ 16) id.slot_id

pub record Child : Type 0 where
  pub high : IndexEntry
  pub id : RecordId

-- `std::lower_bound`: the number of children in front of the first that is not less than what is
-- sought. It bisects, which finds that child when no child behind it is less.
unfoldable pub lower_bound : (Child → Bool) → List Child → ℕ
lower_bound less [] = 0
lower_bound less (c ∷ children) = if less c then suc (lower_bound less children) else 0

unfoldable pub route : (Child → Bool) → List Child → ℕ
unfolding lower_bound
route less children =
    if lower_bound less children == length children
    then length children - 1
    else lower_bound less children

unfoldable pub route_entry : List Child → IndexEntry → ℕ
unfolding route
route_entry children entry = route (λ child. entry_less child.high entry) children

unfoldable pub route_key : List Child → ℤ → ℕ
unfolding route
route_key children key = route (λ child. ltb_ℤ child.high.key key) children
