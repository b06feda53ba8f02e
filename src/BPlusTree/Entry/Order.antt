-- ===== src/BPlusTree/Entry/Order.antt =====
-- The entries are strictly ordered, and an entry is routed to the first child that can hold it.
use pageforge.Prelude.{
  ℕ, zero, suc, ◌≤◌, ◌<◌, ◌≡◌, refl, arith, List, [], ◌∷◌, Bool, true, false, inl, inr, length,
  get_elem?, some, ◌==◌, Bool-cases, ==_iff,
}
use pageforge.Prelude.Int.{eq_ℤ→eq}
use pageforge.BPlusTree.Entry.{IndexEntry, entry_less, Child, lower_bound, route, route_entry}

irreflexive : (a : IndexEntry) → entry_less a a ≡ false
unfolding entry_less
irreflexive a = ground arith

transitive :
    (a b c : IndexEntry) → entry_less a b ≡ true → entry_less b c ≡ true → entry_less a c ≡ true
unfolding entry_less
transitive a b c first second = ground arith

connected :
    (a b : IndexEntry)
    → entry_less a b ≡ false
    → entry_less b a ≡ false
    → (a.key ≡ b.key) × (a.value.page_id ≡ b.value.page_id) × (a.value.slot_id ≡ b.value.slot_id)
unfolding entry_less
connected a b first second = (eq_ℤ→eq a.key b.key (ground arith), ground arith, ground arith)

-- `entry_less` is a strict total order: it is irreflexive and transitive, and two entries of which none
-- is less are equal.
pub entry_less-IsStrictOrder :
    (a b c : IndexEntry)
    → (entry_less a a ≡ false)
      × (entry_less a b ≡ true → entry_less b c ≡ true → entry_less a c ≡ true)
      × (entry_less a b ≡ false → entry_less b a ≡ false → a ≡ b)
entry_less-IsStrictOrder a b c =
    (irreflexive a, transitive a b c, λ first second. same (connected a b first second))
  where
    same :
        {a b : IndexEntry}
        → (a.key ≡ b.key)
          × (a.value.page_id ≡ b.value.page_id)
          × (a.value.slot_id ≡ b.value.slot_id)
        → a ≡ b
    same (p, q, r) = λ i. record { key = p i; value = record { page_id = q i; slot_id = r i } }

-- The children in front of the bound are less, and the one at the bound is not.
lower_bound-Splits :
    (less : Child → Bool) (children : List Child) (i : ℕ) (c : Child)
    → get_elem? children i ≡ some c
    → (i < lower_bound less children → less c ≡ true)
      × (i ≡ lower_bound less children → less c ≡ false)
unfolding lower_bound
lower_bound-Splits less [] i c found = absurd (cc)
lower_bound-Splits less (d ∷ children) i c found = elim (Bool-cases (less d)) [
  | inl yes' ↦ rw yes' (before less d children i c yes' found (lower_bound-Splits less children))
  | inr no' ↦ rw no' (at less d children i c no' found)
]
  where
    before :
        (less : Child → Bool) (d : Child) (children : List Child) (i : ℕ) (c : Child)
        → less d ≡ true
        → get_elem? (d ∷ children) i ≡ some c
        → ((i : ℕ) (c : Child)
            → get_elem? children i ≡ some c
            → (i < lower_bound less children → less c ≡ true)
              × (i ≡ lower_bound less children → less c ≡ false))
        → (i < suc (lower_bound less children) → less c ≡ true)
          × (i ≡ suc (lower_bound less children) → less c ≡ false)
    before less d children zero c yes' found rest = ((λ h. cc), λ e. absurd (omega arith))
    before less d children (suc i) c yes' found rest =
        ((λ h. (rest i c found).0 (omega arith)), λ e. (rest i c found).1 (omega arith))

    at :
        (less : Child → Bool) (d : Child) (children : List Child) (i : ℕ) (c : Child)
        → less d ≡ false
        → get_elem? (d ∷ children) i ≡ some c
        → (i < 0 → less c ≡ true) × (i ≡ 0 → less c ≡ false)
    at less d children zero c no' found = ((λ h. absurd (omega arith)), λ e. cc)
    at less d children (suc i) c no' found =
        ((λ h. absurd (omega arith)), λ e. absurd (omega arith))

lower_bound-le :
    (less : Child → Bool) (children : List Child) → lower_bound less children ≤ length children
unfolding lower_bound
lower_bound-le less [] = omega arith
lower_bound-le less (c ∷ children) = elim (Bool-cases (less c)) [
  | inl yes' ↦ rw yes' (omega (arith, lower_bound-le less children))
  | inr no' ↦ rw no' (omega arith)
]

route-Splits :
    (less : Child → Bool) (children : List Child)
    → 0 < length children
    → (route less children < length children)
      × ((i : ℕ) (c : Child)
          → get_elem? children i ≡ some c
          → i < route less children
          → less c ≡ true)
      × ((c : Child)
          → get_elem? children (route less children) ≡ some c
          → suc (route less children) < length children
          → less c ≡ false)
unfolding route
route-Splits less children some_child =
    elim (Bool-cases (lower_bound less children == length children)) [
      | inl behind ↦
          let bound = (==_iff (lower_bound less children) (length children)).0 behind in
          rw behind (
            (omega arith),
            (λ i c found inside. (lower_bound-Splits less children i c found).0 (omega arith)),
            λ c found inside. absurd (omega arith),
          )
      | inr within ↦
          let bound = lower_bound-le less children in
          rw within (
            lower_bound-lt within bound,
            (λ i c found inside. (lower_bound-Splits less children i c found).0 inside),
            λ c found inside. (lower_bound-Splits less children _ c found).1 refl,
          )
    ]
  where
    lower_bound-lt : {n m : ℕ} → (n == m) ≡ false → n ≤ m → n < m
    lower_bound-lt differ bound = ground arith

-- In a node with children, an entry is routed to one of them: every child in front of it has a
-- boundary below the entry, and its own boundary is not below the entry unless it is the last child.
pub route_entry-Splits :
    (children : List Child) (entry : IndexEntry)
    → 0 < length children
    → (route_entry children entry < length children)
      × ((i : ℕ) (c : Child)
          → get_elem? children i ≡ some c
          → i < route_entry children entry
          → entry_less c.high entry ≡ true)
      × ((c : Child)
          → get_elem? children (route_entry children entry) ≡ some c
          → suc (route_entry children entry) < length children
          → entry_less c.high entry ≡ false)
unfolding route_entry
route_entry-Splits children entry some_child =
    route-Splits (λ child. entry_less child.high entry) children some_child
