-- ===== src/Page/Invariant.antt =====
-- The well-formed pages: the part of what `validate` demands that the operations on records rely on.
use pageforge.Prelude.{ℕ, ◌+◌, ◌*◌, ◌≤◌, ◌<◌, ◌≡◌, true, length}
use pageforge.Bytes.{Bytes}
use pageforge.Page.Fields.{slot_count, is_live, read_slot, read_u16}

-- A live slot points behind the free space.
abbrev pub InRegion : ℕ → ℕ → ℕ → Type 0
InRegion free_end offset size = (free_end ≤ offset) × (offset + size ≤ 4096)

unfoldable pub IsFormed : Bytes → Type 0
unfolding is_live read_slot
IsFormed page =
    (length page ≡ 4096)
    × (read_u16 page 14 ≡ 24 + slot_count page * 6)
    × (24 + slot_count page * 6 ≤ read_u16 page 16)
    × (read_u16 page 16 ≤ 4096)
    × ((s : ℕ)
        → s < slot_count page
        → is_live page s ≡ true
        → InRegion (read_u16 page 16) (read_slot page s).offset (read_slot page s).length)
