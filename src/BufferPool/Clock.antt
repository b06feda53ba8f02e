-- ===== src/BufferPool/Clock.antt =====
-- `choose_victim`: the clock finds a frame whenever one is empty or unpinned, never takes a pinned one,
-- and changes nothing but reference bits and the hand.
use native.Mathlib.Nat.{mod-eq_of_lt, mod_self}
use pageforge.Prelude.{
  ℕ, zero, suc, ◌+◌, ◌-◌, ◌*◌, ◌%◌, ◌<◌, ◌≡◌, ◌≢◌, refl, sym, ap, ◌∙◌, ◌⊎◌, inl, inr, arith, Bool,
  true, false, not, ◌||◌, List, [], ◌∷◌, map, length, length-set, get_elem?, set,
  get_elem?-set_self, get_elem?-set_ne, get_elem?-functional, get_elem?-lt, lt-get_elem?, some, leb,
  ◌==◌, if◌then◌else◌, Bool-cases, Result, ok, err, buffer_pool_exhausted,
}
use pageforge.BufferPool.{
  HeapFile, Frame, BufferPool, is_some, is_victim, passed, put_frame, choose_loop, choose_victim,
}

-- Rounds until the hand is at frame `j` of `n`.
distance : ℕ → ℕ → ℕ → ℕ
distance n hand j = if leb hand j then j - hand else j + n - hand

next_hand :
    (n c : ℕ) → c < n → (((c + 1) % n ≡ c + 1) × (c + 1 < n)) ⊎ (((c + 1) % n ≡ 0) × (c + 1 ≡ n))
next_hand n c h = elim (Bool-cases (c + 1 == n)) [
  | inl e ↦ let z : c + 1 ≡ n = ground arith in inr (rw z (mod_self n), z)
  | inr e ↦ let lt : c + 1 < n = ground arith in inl (mod-eq_of_lt lt, lt)
]

next_hand-lt : (n c : ℕ) → c < n → (c + 1) % n < n
next_hand-lt n c h = omega arith

-- One round brings the hand one nearer to any other frame, and `n - 1` away from its own.
distance_next :
    (n c j : ℕ) → c < n → j < n → c ≢ j → distance n ((c + 1) % n) j + 1 ≡ distance n c j
unfolding distance
distance_next n c j hc hj ne = elim (next_hand n c hc) [
  | inl (e, lt) ↦ rw e (ground arith)
  | inr (e, z) ↦ rw e (ground arith)
]

distance_self : (n c : ℕ) → c < n → distance n ((c + 1) % n) c + 1 ≡ n
unfolding distance
distance_self n c hc = elim (next_hand n c hc) [
  | inl (e, lt) ↦ rw e (ground arith)
  | inr (e, z) ↦ rw e (ground arith)
]

module _ ⦃heap_file : HeapFile⦄ where
  open heap_file use {Page}

  -- The frame is empty or unpinned.
  abbrev pub is_free : Frame Page → Bool
  is_free f = not (is_some f.page) || f.pin_count == 0

  -- A frame that the clock may take now or after a second chance.
  abbrev wait : ℕ → Frame Page → ℕ
  wait n f = if f.referenced then n else 0

  -- A free frame that is passed has lost its second chance.
  second_chance :
      (f : Frame Page)
      → is_free f ≡ true
      → is_victim f ≡ false
      → (is_free (passed f) ≡ true) × ((passed f).referenced ≡ false) × (f.referenced ≡ true)
  unfolding is_victim passed
  second_chance f free v = ground arith

  waits : (g f : Frame Page) → g ≡ f → g.referenced ≡ true → (n : ℕ) → wait n f ≡ n
  waits g f e h n = rw (← e, h)

  choose_loop-finds :
      (rounds : ℕ) (p : BufferPool) (j : ℕ) (f : Frame Page)
      → p.clock_hand < length p.frames
      → get_elem? p.frames j ≡ some f
      → j < length p.frames
      → is_free f ≡ true
      → distance (length p.frames) p.clock_hand j + wait (length p.frames) f < rounds
      → (i : ℕ) × ((choose_loop rounds p).0 ≡ ok i)
  choose_loop-finds zero p j f hh hj lj free few = elim few [ ]
  choose_loop-finds (suc rounds) p j f hh hj lj free few =
      let c = p.clock_hand in
      let (g, hg) = lt-get_elem? p.frames c hh in
      elim (Bool-cases (is_victim g)) [
        | inl v ↦ (c, unfold choose_loop in rw (hg, v, choose_loop))
        | inr v ↦
            let q = put_frame c (passed g) (record p { clock_hand = (c + 1) % length p.frames }) in
            let size : length q.frames ≡ length p.frames = length-set p.frames c (passed g) in
            let step : (choose_loop (suc rounds) p).0 ≡ (choose_loop rounds q).0 =
              unfold choose_loop in rw (hg, v, choose_loop) in
            elim (Bool-cases (c == j)) [
              | inl e ↦
                  let here : c ≡ j = ground arith in
                  let same : g ≡ f = get_elem?-functional p.frames c j hg hj here in
                  let (free', cleared, was) = second_chance g (rw same free) v in
                  let (i, found) =
                    choose_loop-finds rounds q c (passed g) (rw size (next_hand-lt _ c hh))
                      (get_elem?-set_self p.frames c (passed g) hh) (rw size hh) free'
                      (rw (size, cleared)
                        (omega (
                          arith,
                          distance_self (length p.frames) c hh,
                          waits g f same was (length p.frames),
                          few,
                        ))) in
                  (i, step ∙ found)
              | inr ne ↦
                  let apart : c ≢ j = ground arith in
                  let (i, found) =
                    choose_loop-finds rounds q j f (rw size (next_hand-lt _ c hh))
                      (get_elem?-set_ne p.frames c j (passed g) apart ∙ hj) (rw size lj) free
                      (rw size (omega (arith, distance_next (length p.frames) c j hh lj apart))) in
                  (i, step ∙ found)
            ]
      ]

  -- Everything but the reference bit.
  abbrev pub core : Frame Page → Frame Page
  core f = record f { referenced = false }

  map-core-set :
      (xs : List (Frame Page)) (i : ℕ) (f g : Frame Page)
      → get_elem? xs i ≡ some f
      → core g ≡ core f
      → map core (set xs i g) ≡ map core xs
  map-core-set [] i f g h e = refl
  map-core-set (x ∷ xs) zero f g h e =
      let same : x ≡ f = get_elem?-functional (x ∷ xs) 0 0 refl h refl in rw (e, same)
  map-core-set (x ∷ xs) (suc i) f g h e = ap (◌∷◌ (core x)) (map-core-set xs i f g h e)

  pub core_of_map :
      (xs ys : List (Frame Page)) (i : ℕ) {f : Frame Page}
      → map core xs ≡ map core ys
      → get_elem? xs i ≡ some f
      → (g : Frame Page) × (get_elem? ys i ≡ some g) × (core f ≡ core g)
  core_of_map [] ys i e h = absurd (ground arith)
  core_of_map (x ∷ xs) [] i e h = absurd (ground arith)
  core_of_map (x ∷ xs) (y ∷ ys) zero e h =
      let heads : core x ≡ core y = cc in
      (y, refl, ap core (get_elem?-functional (x ∷ xs) 0 0 h refl refl) ∙ heads)
  core_of_map (x ∷ xs) (y ∷ ys) (suc i) e h = core_of_map xs ys i (cc) h

  pub is_free-core : (f g : Frame Page) → core f ≡ core g → is_free f ≡ is_free g
  is_free-core f g e = ap is_free e

  core-passed : (f : Frame Page) → core (passed f) ≡ core f
  unfolding passed
  core-passed f = ground arith

  -- The frame that was chosen, as it was before the call.
  abbrev pub Chosen : BufferPool → Result ℕ → Type 0
  Chosen p (ok i) = (f : Frame Page) × (get_elem? p.frames i ≡ some f) × (is_free f ≡ true)
  Chosen p (err e) = e ≡ buffer_pool_exhausted

  -- What a choice leaves alone, and what it chose.
  pub record Leaves (p : BufferPool) (r : Result ℕ × BufferPool) : Type 0 where
    pub heap : (r.1).heap ≡ p.heap
    pub page_table : (r.1).page_table ≡ p.page_table
    pub stats : (r.1).stats ≡ p.stats
    pub cores : map core (r.1).frames ≡ map core p.frames
    pub size : length (r.1).frames ≡ length p.frames
    pub hand : (r.1).clock_hand < length p.frames
    pub chosen : Chosen p r.0

  Chosen-cores :
      (p q : BufferPool) (r : Result ℕ)
      → map core q.frames ≡ map core p.frames
      → Chosen q r
      → Chosen p r
  Chosen-cores p q (ok i) e (f, at, free) =
      let (g, at', same) = core_of_map q.frames p.frames i e at in
      (g, at', sym (is_free-core f g same) ∙ free)
  Chosen-cores p q (err x) e h = h

  is_victim-is_free : (f : Frame Page) → is_victim f ≡ true → is_free f ≡ true
  unfolding is_victim
  is_victim-is_free f h = ground arith

  choose_loop-Leaves :
      (rounds : ℕ) (p : BufferPool)
      → p.clock_hand < length p.frames
      → Leaves p (choose_loop rounds p)
  unfolding choose_loop
  choose_loop-Leaves zero p h = record {
    heap = refl;
    page_table = refl;
    stats = refl;
    cores = refl;
    size = refl;
    hand = h;
    chosen = refl;
  }
  choose_loop-Leaves (suc rounds) p h =
      let c = p.clock_hand in
      let n = length p.frames in
      let (g, hg) = lt-get_elem? p.frames c h in
      elim (Bool-cases (is_victim g)) [
        | inl v ↦
            rw (hg, v, choose_loop)
              (record {
                heap = refl;
                page_table = refl;
                stats = refl;
                cores = refl;
                size = refl;
                hand = next_hand-lt n c h;
                chosen = (g, hg, is_victim-is_free g v);
              })
        | inr v ↦
            let q = put_frame c (passed g) (record p { clock_hand = (c + 1) % n }) in
            let size : length q.frames ≡ n = length-set p.frames c (passed g) in
            let cores : map core q.frames ≡ map core p.frames =
              map-core-set p.frames c g (passed g) hg (core-passed g) in
            let l = choose_loop-Leaves rounds q (rw size (next_hand-lt n c h)) in
            rw (hg, v, choose_loop)
              (record {
                heap = l.heap;
                page_table = l.page_table;
                stats = l.stats;
                cores = l.cores ∙ cores;
                size = l.size ∙ size;
                hand = rw size at l.hand;
                chosen = Chosen-cores p q (choose_loop rounds q).0 cores l.chosen;
              })
      ]

  -- The frame that the clock takes is empty or unpinned, and nothing but reference bits and the hand
  -- change; the only failure is an exhausted pool.
  pub choose_victim-Leaves :
      (p : BufferPool) → p.clock_hand < length p.frames → Leaves p (choose_victim p)
  unfolding choose_victim
  choose_victim-Leaves p h = choose_loop-Leaves (length p.frames * 2) p h

  Chosen-at :
      (p : BufferPool) {r : Result ℕ} {i : ℕ}
      → r ≡ ok i
      → Chosen p r
      → (f : Frame Page) × (get_elem? p.frames i ≡ some f) × (is_free f ≡ true)
  Chosen-at p e c = rw e at c

  two_turns :
      (n hand j : ℕ) (f : Frame Page) → hand < n → j < n → distance n hand j + wait n f < n * 2
  unfolding distance
  two_turns n hand j f h k = ground arith

  -- If a frame is empty or unpinned, two turns of the clock find one such frame.
  pub choose_victim-finds :
      (p : BufferPool) (j : ℕ) (f : Frame Page)
      → p.clock_hand < length p.frames
      → get_elem? p.frames j ≡ some f
      → is_free f ≡ true
      → (i : ℕ) × (g : Frame Page) × ((choose_victim p).0 ≡ ok i)
        × (get_elem? p.frames i ≡ some g)
        × (is_free g ≡ true)
  unfolding choose_victim
  choose_victim-finds p j f h hj free =
      let n = length p.frames in
      let (i, found) =
        choose_loop-finds (n * 2) p j f h hj (get_elem?-lt p.frames j hj) free
          (two_turns n p.clock_hand j f h (get_elem?-lt p.frames j hj)) in
      let (g, at, free') = Chosen-at p found (choose_loop-Leaves (n * 2) p h).chosen in
      (i, g, found, at, free')
