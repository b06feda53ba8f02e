-- ===== src/Page/Records/Insert.antt =====
-- A record that was inserted reads back, and the other records are as they were.
use mathlib.Core.Path.{subst}
use pageforge.Prelude.{
  ℕ, zero, suc, ◌+◌, ◌-◌, ◌*◌, ◌%◌, ◌^◌, ◌≤◌, ◌<◌, ◌≡◌, ◌≢◌, refl, sym, ap, ◌∙◌, arith, Bool, true,
  false, not, Option, none, some, ◌⊎◌, inl, inr, length, bit_and, ltb, ◌==◌, if◌then◌else◌, ok,
  Bool-cases, ltb_false→le, le→ltb_false, lt→leb_false, ==_iff, ltb→lt, Option-cases,
}
use pageforge.Bytes.{Bytes, slice}
use pageforge.Page.Fields.{slot_offset, slot_count, Slot, read_slot, read_u16, is_live, sub_u16}
use pageforge.Page.Invariant.{IsFormed, InRegion}
use pageforge.Bytes.Slices.{Apart}
use pageforge.Page.Records.Frame.{read_slot-slice}
use pageforge.Page.Records.Placed.{
  Room, slice-place, place-put_record, put_record-payload, put_record-slot, place-slot_count,
  place-free_end, place-free_start, length-place,
}
use pageforge.Page.Records.{
  put_record, place, insert, read, find_deleted, free_space, is_some, target_of,
}

if-some :
    (b : Bool) (x : ℕ) (later : Option ℕ) (t : ℕ)
    → (if not b then some x else later) ≡ some t
    → ((b ≡ false) × (x ≡ t)) ⊎ (later ≡ some t)
if-some false x later t h = inl (refl, (cc))
if-some true x later t h = inr h

-- A slot that is found is one of the slots, and holds no record.
pub find_deleted-some :
    (left slot t : ℕ) (page : Bytes)
    → find_deleted left slot page ≡ some t
    → (t < slot + left) × (is_live page t ≡ false)
unfolding find_deleted
find_deleted-some zero slot t page h = absurd (cc)
find_deleted-some (suc left) slot t page h =
    elim (if-some (is_live page slot) slot (find_deleted left (slot + 1) page) t h) [
      | inl (dead, here) ↦ rw (← here) ((omega arith), dead)
      | inr later ↦
          let (inside, dead) = find_deleted-some left (slot + 1) t page later in
          ((omega arith), dead)
    ]

-- The slot that an insertion takes: a deleted one, or one behind the others.
abbrev pub Takes : Bool → ℕ → ℕ → Type 0
Takes true t count = t < count
Takes false t count = t ≡ count

Takes-bounds :
    (reusing : Bool) (t count : ℕ)
    → Takes reusing t count
    → (t < (if reusing then count else count + 1))
      × (t < count + 1)
      × ((s : ℕ) → s < (if reusing then count else count + 1) → s ≢ t → s < count)
Takes-bounds true t count h = (h, (omega arith), λ s inside other. inside)
Takes-bounds false t count h = ((omega arith), (omega arith), λ s inside other. (omega arith))

-- Two slots share no byte.
slots-Apart :
    (s t o n : ℕ)
    → s ≢ t
    → slot_offset s ≤ o
    → o + n ≤ slot_offset s + 6
    → Apart o n (slot_offset t) 6
slots-Apart s t o n other low high = elim (Bool-cases (ltb s t)) [
  | inl before ↦ let less = ltb→lt s t before in inl (omega arith)
  | inr behind ↦ let more = ltb_false→le s t behind in inr (omega (arith, other))
]

read-live :
    (s : ℕ) (page : Bytes)
    → s < slot_count page
    → is_live page s ≡ true
    → read s page ≡ ok (slice page (read_slot page s).offset (read_slot page s).length)
unfolding read
read-live s page inside alive = rw (lt→leb_false (slot_count page) s inside, alive)

is_live-slot :
    (page : Bytes) (s : ℕ) (slot : Slot)
    → read_slot page s ≡ slot
    → is_live page s ≡ not (bit_and slot.flags 1 == 0)
unfolding is_live
is_live-slot page s slot e = ap (λ (x : Slot). not (bit_and x.flags 1 == 0)) e

-- What holds where a record is placed.
abbrev Placing : Bytes → Bool → ℕ → ℕ → Bytes → Type 0
Placing payload reusing t e page =
    IsFormed page
    × Takes reusing t (slot_count page)
    × Room page t e (length payload)
    × (e + length payload ≡ read_u16 page 16)
    × (24 + slot_count page * 6 ≤ e)
    × (sub_u16 (read_u16 page 16) (length payload) ≡ e)

placed-slot :
    (payload : Bytes) (reusing : Bool) (t e : ℕ) (page : Bytes)
    → Placing payload reusing t e page
    → read_slot (place payload reusing t page) t
      ≡ record { offset = e; length = length payload % 2 ^ 16; flags = 1 }
placed-slot payload reusing t e page (formed, takes, room, top, low, end) =
    read_slot-slice (put_record payload t e page) (place payload reusing t page) t
      (λ o n inside high.
        place-put_record payload reusing t page o n (omega arith)
        ∙ ap (λ (k : ℕ). slice (put_record payload t k page) o n) end)
    ∙ put_record-slot payload t e page room

placed-other :
    (payload : Bytes) (reusing : Bool) (t e : ℕ) (page : Bytes) (s : ℕ)
    → Placing payload reusing t e page
    → s < slot_count page
    → s ≢ t
    → read_slot (place payload reusing t page) s ≡ read_slot page s
placed-other payload reusing t e page s (formed, takes, room, top, low, end) inside other =
    read_slot-slice page (place payload reusing t page) s (λ o n above high.
      slice-place payload reusing t page o n (omega arith) (rw end (inl (omega arith)))
        (slots-Apart s t o n other above high))

-- The slot count of the page that is left, and that the record's slot is one of the slots.
placed-count :
    (payload : Bytes) (reusing : Bool) (t e : ℕ) (page : Bytes)
    → Placing payload reusing t e page
    → slot_count (place payload reusing t page)
      ≡ (if reusing then slot_count page else slot_count page + 1)
placed-count payload reusing t e page (formed, takes, room, top, low, end) =
    place-slot_count payload reusing t e page room end (omega arith)

placed-inside :
    (payload : Bytes) (reusing : Bool) (t e : ℕ) (page : Bytes)
    → Placing payload reusing t e page
    → t < slot_count (place payload reusing t page)
placed-inside payload reusing t e page placing =
    let (formed, takes, room, top, low, end) = placing in
    rw (placed-count payload reusing t e page placing)
      (Takes-bounds reusing t (slot_count page) takes).0

-- The record reads back from its slot.
read-place :
    (payload : Bytes) (reusing : Bool) (t e : ℕ) (page : Bytes)
    → Placing payload reusing t e page
    → read t (place payload reusing t page) ≡ ok payload
read-place payload reusing t e page placing =
    let (formed, takes, room, top, low, end) = placing in
    let after = place payload reusing t page in
    let slot = placed-slot payload reusing t e page placing in
    read-live t after (placed-inside payload reusing t e page placing) (is_live-slot after t _ slot)
    ∙ ap (λ (x : Slot). ok (slice after x.offset x.length)) slot
    ∙ ap (λ (k : ℕ). ok (slice after e k)) (omega arith)
    ∙ ap (λ (b : Bytes). ok b)
        (place-put_record payload reusing t page e (length payload) (omega arith)
          ∙ ap (λ (k : ℕ). slice (put_record payload t k page) e (length payload)) end
          ∙ put_record-payload payload t e page room)

-- The other records read as before.
read-place_other :
    (payload : Bytes) (reusing : Bool) (t e : ℕ) (page : Bytes) (s : ℕ)
    → Placing payload reusing t e page
    → s < slot_count page
    → is_live page s ≡ true
    → s ≢ t
    → read s (place payload reusing t page) ≡ read s page
unfolding IsFormed
read-place_other payload reusing t e page s placing inside alive other =
    let ((size, start, bounds, limit, region), takes, room, top, low, end) = placing in
    let after = place payload reusing t page in
    let slot = placed-other payload reusing t e page s placing inside other in
    let (behind, within) = region s inside alive in
    let count = placed-count payload reusing t e page placing in
    let (_, _, counted) = Takes-bounds reusing t (slot_count page) takes in
    read-live s after (grown reusing (slot_count page) s (slot_count after) count inside)
      (is_live-slot after s _ slot ∙ sym (is_live-slot page s _ refl) ∙ alive)
    ∙ ap (λ (x : Slot). ok (slice after x.offset x.length)) slot
    ∙ ap (λ (b : Bytes). ok b)
        (slice-place payload reusing t page (read_slot page s).offset (read_slot page s).length
          (omega arith) (rw end (inr (omega arith))) (inr (omega arith)))
    ∙ sym (read-live s page inside alive)
  where
    grown : (reusing : Bool) (n s m : ℕ) → m ≡ (if reusing then n else n + 1) → s < n → s < m
    grown true n s m count inside = omega arith
    grown false n s m count inside = omega arith

-- Every live record of the page that is left lies behind its free space.
placed-region :
    (payload : Bytes) (reusing : Bool) (t e : ℕ) (page : Bytes)
    → Placing payload reusing t e page
    → (s : ℕ) → s < slot_count (place payload reusing t page)
    → is_live (place payload reusing t page) s ≡ true
    → InRegion e
        (read_slot (place payload reusing t page) s).offset
        (read_slot (place payload reusing t page) s).length
unfolding IsFormed
placed-region payload reusing t e page placing s inside alive = elim (Bool-cases (s == t)) [
  | inl same ↦
      let ((size, start, bounds, limit, region), takes, room, top, low, end) = placing in
      rw ((==_iff s t).0 same) (
        subst (λ (x : Slot). InRegion e x.offset x.length)
          (sym (placed-slot payload reusing t e page placing)) ((omega arith), (omega arith)))
  | inr other ↦
      let differ : s ≢ t = λ same. absurd (grind arith) in
      let ((size, start, bounds, limit, region), takes, room, top, low, end) = placing in
      let (_, _, counted) = Takes-bounds reusing t (slot_count page) takes in
      let count = placed-count payload reusing t e page placing in
      let old = counted s (subst (λ (n : ℕ). s < n) count inside) differ in
      let slot = placed-other payload reusing t e page s placing old differ in
      let (behind, within) = region s old (
        is_live-slot page s _ refl
        ∙ sym (is_live-slot (place payload reusing t page) s _ slot)
        ∙ alive) in
      subst (λ (x : Slot). InRegion e x.offset x.length) (sym slot) ((omega arith), within)
]

directory-fits :
    (reusing : Bool) (t count e : ℕ)
    → Takes reusing t count
    → 24 + count * 6 ≤ e
    → slot_offset t + 6 ≤ e
    → 24 + (if reusing then count else count + 1) * 6 ≤ e
directory-fits true t count e takes low fits = low
directory-fits false t count e takes low fits = omega arith

-- The page that is left is well formed.
place-IsFormed :
    (payload : Bytes) (reusing : Bool) (t e : ℕ) (page : Bytes)
    → Placing payload reusing t e page
    → IsFormed (place payload reusing t page)
unfolding IsFormed
place-IsFormed payload reusing t e page placing =
    let ((size, start, bounds, limit, region), takes, room, top, low, end) = placing in
    let after = place payload reusing t page in
    let count = placed-count payload reusing t e page placing in
    let free_end = place-free_end payload reusing t e page room end in
    (
      length-place payload reusing t page ∙ size,
      place-free_start payload reusing t e page room end (omega arith) start
          ∙ ap (λ (n : ℕ). 24 + n * 6) (sym count),
      rw (free_end, count) (directory-fits reusing t (slot_count page) e takes low room.1),
      rw free_end (omega arith),
      rw free_end (placed-region payload reusing t e page placing),
    )

-- What an insertion into slot `t` leaves.
abbrev pub Inserted : Bytes → Bytes → ℕ → Bytes → Type 0
Inserted payload page t after =
    IsFormed after
    × (read t after ≡ ok payload)
    × ((s : ℕ) → s < slot_count page → is_live page s ≡ true → read s after ≡ read s page)

true-not-false : (b : Bool) → b ≡ true → b ≡ false → ⊥
true-not-false b yes' no' = cc

place-Inserted :
    (payload : Bytes) (reusing : Bool) (t e : ℕ) (page : Bytes)
    → Placing payload reusing t e page
    → (t < slot_count page → is_live page t ≡ false)
    → Inserted payload page t (place payload reusing t page)
place-Inserted payload reusing t e page placing dead = (
  place-IsFormed payload reusing t e page placing,
  read-place payload reusing t e page placing,
  λ s inside alive.
      read-place_other payload reusing t e page s placing inside alive (apart s inside alive),
)
  where
    apart : (s : ℕ) → s < slot_count page → is_live page s ≡ true → s ≢ t
    apart s inside alive same =
        true-not-false (is_live page t) (ap (is_live page) (sym same) ∙ alive)
          (dead (subst (λ (n : ℕ). n < slot_count page) same inside))

==-zero_false : (n : ℕ) → 0 < n → (n == 0) ≡ false
==-zero_false n h = ground arith

insert-place :
    (payload page : Bytes) (reused : Option ℕ)
    → find_deleted (slot_count page) 0 page ≡ reused
    → 0 < length payload
    → length payload < 2 ^ 16
    → length payload + 6 ≤ free_space page
    → insert payload page ≡ (
      ok (target_of reused (slot_count page)),
      place payload (is_some reused) (target_of reused (slot_count page)) page,
    )
unfolding insert
insert-place payload page reused found some_bytes small room =
    let fits =
      le→ltb_false (free_space page) (length payload + (if is_some reused then 0 else 6))
        (omega (arith, needed_le reused)) in
    rw
      (
        found,
        ==-zero_false (length payload) some_bytes,
        le→ltb_false 65535 (length payload) (omega arith),
        fits,
      )
      (rw fits)
  where
    needed_le : (reused : Option ℕ) → (if is_some reused then 0 else 6) ≤ 6
    needed_le none = omega arith
    needed_le (some t) = omega arith

formed-free_space :
    (page : Bytes)
    → IsFormed page
    → (n : ℕ) → n ≤ free_space page
    → n ≤ read_u16 page 16 - read_u16 page 14
unfolding IsFormed free_space
formed-free_space page (size, start, bounds, limit, region) n room = omega arith

formed-small :
    (payload page : Bytes)
    → IsFormed page
    → length payload + 6 ≤ free_space page
    → length payload < 2 ^ 16
unfolding IsFormed
formed-small payload page formed room =
    let space = formed-free_space page formed (length payload + 6) room in
    let limit = formed.3 in omega arith

formed-Placing :
    (payload : Bytes) (reusing : Bool) (t : ℕ) (page : Bytes)
    → IsFormed page
    → Takes reusing t (slot_count page)
    → length payload + 6 ≤ free_space page
    → Placing payload reusing t (read_u16 page 16 - length payload) page
unfolding IsFormed
formed-Placing payload reusing t page formed takes room =
    let (size, start, bounds, limit, region) = formed in
    let (_, slot, _) = Takes-bounds reusing t (slot_count page) takes in
    let space : length payload + 6 ≤ read_u16 page 16 - read_u16 page 14 =
      formed-free_space page formed (length payload + 6) room in
    (
      formed,
      takes,
      (size, (omega arith), (omega arith), (omega arith), (omega arith)),
      (omega arith),
      (omega arith),
      (omega arith),
    )

-- A record that is not empty, inserted into a well-formed page whose free space has room for it and one
-- more slot, takes some slot: the page that is left is well formed, reading that slot gives the
-- record, and every live record reads as it did.
pub insert-Inserted :
    (payload page : Bytes)
    → IsFormed page
    → 0 < length payload
    → length payload + 6 ≤ free_space page
    → (t : ℕ) × ((insert payload page).0 ≡ ok t) × Inserted payload page t (insert payload page).1
insert-Inserted payload page formed some_bytes room =
    elim (Option-cases (find_deleted (slot_count page) 0 page)) [
      | inl none_deleted ↦
          let placing = formed-Placing payload false (slot_count page) page formed refl room in
          rw
            (insert-place payload page none none_deleted some_bytes
              (formed-small payload page formed room) room)
            (
              slot_count page,
              refl,
              place-Inserted payload false (slot_count page) _ page placing
                  (λ inside. absurd (omega arith)),
            )
      | inr (t, found) ↦
          let (inside, dead) = find_deleted-some (slot_count page) 0 t page found in
          let placing = formed-Placing payload true t page formed (omega arith) room in
          rw
            (insert-place payload page (some t) found some_bytes
              (formed-small payload page formed room) room)
            (t, refl, place-Inserted payload true t _ page placing (λ inside'. dead))
    ]
