-- ===== src/BufferPool.antt =====
-- include/pageforge/buffer_pool.hpp and src/buffer_pool.cpp: page frames over a heap file, with clock
-- eviction, and the guards that pin them.
-- The pool works on any heap file with the operations of `HeapFile`; a method is a function of the
-- pool's state, which keeps what was done before an exception. `std::unordered_map` is a list of pairs
-- with distinct keys.
mod Interface
pub mod Guard
pub mod Clock
use pageforge.Prelude.{
  ℕ, zero, suc, ◌+◌, ◌-◌, ◌*◌, ◌%◌, Bool, true, false, not, ◌&&◌, ◌||◌, List, [], ◌∷◌, length,
  get_elem?, set, replicate, Option, none, some, ◌==◌, if◌then◌else◌, Result, Exception, ok, err,
  invalid_argument, out_of_range, logic_error, buffer_pool_exhausted,
}
pub use Interface.{HeapFile}

-- `std::unordered_map<PageId, std::size_t>`: `find`, `erase`, and `emplace`, which keeps an old entry.
abbrev pub Table : Type 0
Table = List (ℕ × ℕ)

unfoldable pub find : ℕ → Table → Option ℕ
find k [] = none
find k ((j, v) ∷ t) = if j == k then some v else find k t

unfoldable pub erase : ℕ → Table → Table
erase k [] = []
erase k ((j, v) ∷ t) = if j == k then erase k t else (j, v) ∷ erase k t

unfoldable pub emplace : ℕ → ℕ → Table → Table
unfolding find
emplace k v t = elim (find k t) [ none ↦ (k, v) ∷ t | some _ ↦ t ]

pub record Frame (Page : Type 0) : Type 0 where
  pub page : Option Page
  pub pin_count : ℕ
  pub referenced : Bool
  pub dirty : Bool

pub record BufferPoolStats : Type 0 where
  pub hits : ℕ
  pub misses : ℕ
  pub evictions : ℕ
  pub dirty_writes : ℕ

-- `PageGuard`: the frame, or `none` when it was released or moved from.
abbrev pub PageGuard : Type 0
PageGuard = Option ℕ

abbrev is_some {ℓ} : {A : Type ℓ} → Option A → Bool
is_some none = false
is_some (some a) = true

module _ ⦃heap_file : HeapFile⦄ where
  open heap_file use {Page, Heap, page_id, page_count, read_page, write_page, allocate_page, sync}

  pub record BufferPool : Type 0 where
    pub heap : Heap
    pub frames : List (Frame Page)
    pub page_table : Table
    pub clock_hand : ℕ
    pub stats : BufferPoolStats

  abbrev pub M : Type 0 → Type 0
  M A = BufferPool → Result A × BufferPool

  infixl 5 ◌>>=◌ ◌>>◌
  abbrev pub ◌>>=◌ : {A B : Type 0} → M A → (A → M B) → M B
  ◌>>=◌ m f p = let (r, p') = m p in elim r [ ok a ↦ f a p' | err e ↦ (err e, p') ]

  abbrev pub ◌>>◌ : {B : Type 0} → M (Unit {0}) → M B → M B
  m >> k = m >>= λ _. k

  abbrev pub return : {A : Type 0} → A → M A
  return a p = (ok a, p)

  abbrev pub throw : {A : Type 0} → Exception → M A
  throw e p = (err e, p)

  -- A call of the heap file.
  abbrev pub on_heap : {A : Type 0} → (Heap → Result A × Heap) → M A
  on_heap f p = let r = f p.heap in (r.0, record p { heap = r.1 })

  abbrev pub update_stats : (BufferPoolStats → BufferPoolStats) → M (Unit {0})
  update_stats f p = (ok tt, record p { stats = f p.stats })

  abbrev pub put_frame : ℕ → Frame Page → BufferPool → BufferPool
  put_frame i f p = record p { frames = set p.frames i f }

  -- `frames_.at(frame_index)`
  abbrev pub frame_at : ℕ → M (Frame Page)
  frame_at i p = elim (get_elem? p.frames i) [ none ↦ (err out_of_range, p) | some f ↦ (ok f, p) ]

  abbrev pub empty_frame : Frame Page
  empty_frame = record { page = none; pin_count = 0; referenced = false; dirty = false }

  -- The constructor.
  unfoldable pub create : Heap → ℕ → Result BufferPool
  create heap capacity =
      if capacity == 0
      then err invalid_argument
      else ok (record {
        heap = heap;
        frames = replicate capacity empty_frame;
        page_table = [];
        clock_hand = 0;
        stats = record { hits = 0; misses = 0; evictions = 0; dirty_writes = 0 };
      })

  -- A frame that the clock takes, or passes, or gives a second chance.
  unfoldable pub is_victim : Frame Page → Bool
  is_victim f = not (is_some f.page) || (f.pin_count == 0 && not f.referenced)

  unfoldable pub passed : Frame Page → Frame Page
  passed f = if f.pin_count == 0 then record f { referenced = false } else f

  -- `rounds` more rounds of the loop. `frames_[candidate]` is in range, as the hand always is.
  unfoldable pub choose_loop : ℕ → M ℕ
  unfolding is_victim passed
  choose_loop zero p = (err buffer_pool_exhausted, p)
  choose_loop (suc rounds) p =
      let candidate = p.clock_hand in
      let moved = record p { clock_hand = (candidate + 1) % length p.frames } in
      elim (get_elem? p.frames candidate) [
        | none ↦ (err out_of_range, moved)
        | some f ↦ elim (is_victim f) [
          | true ↦ (ok candidate, moved)
          | false ↦ choose_loop rounds (put_frame candidate (passed f) moved)
        ]
      ]

  unfoldable pub choose_victim : M ℕ
  unfolding choose_loop
  choose_victim p = choose_loop (length p.frames * 2) p

  -- `flush_frame` behind its early return.
  unfoldable pub write_back : ℕ → Frame Page → Page → M (Unit {0})
  write_back i f page = do
    on_heap (write_page page)
    λ p. (ok tt, put_frame i (record f { dirty = false }) p)
    update_stats (λ s. record s { dirty_writes = s.dirty_writes + 1 })

  unfoldable pub flush_frame : ℕ → M (Unit {0})
  unfolding write_back
  flush_frame i = do
    f ← frame_at i
    elim f.page [
      | none ↦ return tt
      | some page ↦ if not f.dirty then return tt else write_back i f page
    ]

  abbrev pub installed : Page → Frame Page
  installed page = record { page = some page; pin_count = 1; referenced = true; dirty = false }

  -- The old page leaves the table, and the new one enters it.
  unfoldable pub install : ℕ → Page → M (Unit {0})
  unfolding erase emplace
  install i page = do
    f ← frame_at i
    elim f.page [
      | none ↦ return tt
      | some old ↦ (λ p. (
        ok tt,
        record p {
          page_table = erase (page_id old) p.page_table;
          stats = record (p.stats) { evictions = p.stats.evictions + 1 };
        },
      ))
    ]
    λ p. (
      ok tt,
      record (put_frame i (installed page) p) {
        page_table = emplace (page_id page) i p.page_table;
      },
    )

  abbrev pub count_miss : M (Unit {0})
  count_miss = update_stats (λ s. record s { misses = s.misses + 1 })

  -- A page that is resident: one more pin.
  unfoldable pub hit : ℕ → M PageGuard
  hit i = do
    f ← frame_at i
    λ p. (ok tt, put_frame i (record f { pin_count = f.pin_count + 1; referenced = true }) p)
    update_stats (λ s. record s { hits = s.hits + 1 })
    return (some i)

  unfoldable pub load : ℕ → M PageGuard
  unfolding choose_victim flush_frame install
  load id = do
    i ← choose_victim
    incoming ← on_heap (read_page id)
    flush_frame i
    install i incoming
    count_miss
    return (some i)

  unfoldable pub fetch : ℕ → M PageGuard
  unfolding find hit load
  fetch id p = elim (find id p.page_table) [ some i ↦ hit i p | none ↦ load id p ]

  unfoldable pub allocate : M PageGuard
  unfolding choose_victim flush_frame install
  allocate = do
    i ← choose_victim
    flush_frame i
    page ← on_heap allocate_page
    install i page
    count_miss
    return (some i)

  unfoldable pub flush : ℕ → M (Unit {0})
  unfolding find flush_frame
  flush id p = elim (find id p.page_table) [
    | none ↦ (ok tt, p)
    | some i ↦ (flush_frame i >> on_heap sync) p
  ]

  -- Frames `index` to `index + count - 1`.
  unfoldable pub flush_from : ℕ → ℕ → M (Unit {0})
  unfolding flush_frame
  flush_from zero index = return tt
  flush_from (suc count) index = flush_frame index >> flush_from count (index + 1)

  unfoldable pub flush_all : M (Unit {0})
  unfolding flush_from
  flush_all p = (flush_from (length p.frames) 0 >> on_heap sync) p

  unfoldable pub unpin : ℕ → BufferPool → BufferPool
  unpin i p = elim (get_elem? p.frames i) [
    | none ↦ p
    | some f ↦ put_frame i (record f { pin_count = f.pin_count - 1 }) p
  ]

  unfoldable pub mark_dirty : ℕ → M (Unit {0})
  mark_dirty i = do f ← frame_at i; λ p. (ok tt, put_frame i (record f { dirty = true }) p)

  unfoldable pub frame_page : ℕ → M Page
  frame_page i = do
    f ← frame_at i
    elim f.page [ none ↦ throw logic_error | some page ↦ return page ]
