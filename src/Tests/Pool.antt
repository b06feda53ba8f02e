-- ===== src/Tests/Pool.antt =====
-- A pool of two frames over a heap file in memory, one of them pinned.
use pageforge.Prelude.{
  ℕ, ◌+◌, ◌≡◌, refl, arith, true, false, [], ◌∷◌, get_elem?, some, ltb, if◌then◌else◌, ok, err,
  out_of_range,
}
use pageforge.BufferPool.{HeapFile, BufferPool, Frame, choose_victim}
use pageforge.BufferPool.Clock.{Leaves, is_free, choose_victim-Leaves, choose_victim-finds}

-- A page is its number, and the file is the list of its pages.
instance abbrev memory : HeapFile
memory = record {
  Page = ℕ;
  Heap = ℕ;
  page_id = λ page. page;
  page_count = λ heap. heap;
  read_page = λ id heap. (if ltb id heap then ok id else err out_of_range, heap);
  write_page = λ page heap. (ok tt, heap);
  allocate_page = λ heap. (ok heap, heap + 1);
  sync = λ heap. (ok tt, heap);
}

abbrev pinned : Frame ℕ
pinned = record { page = some 4; pin_count = 1; referenced = true; dirty = true }

abbrev unpinned : Frame ℕ
unpinned = record { page = some 2; pin_count = 0; referenced = true; dirty = false }

abbrev pool : BufferPool
pool = record {
  heap = 9;
  frames = pinned ∷ unpinned ∷ [];
  page_table = (4, 0) ∷ (2, 1) ∷ [];
  clock_hand = 0;
  stats = record { hits = 0; misses = 2; evictions = 0; dirty_writes = 0 };
}

choose_unpinned : (choose_victim pool).0 ≡ ok 1
unfolding choose_victim
choose_unpinned = refl

choose_victim-Leaves_example : Leaves pool (choose_victim pool)
choose_victim-Leaves_example = choose_victim-Leaves pool (omega arith)

choose_victim-finds_example :
    (i : ℕ) × (g : Frame ℕ) × ((choose_victim pool).0 ≡ ok i)
    × (get_elem? pool.frames i ≡ some g)
    × (is_free g ≡ true)
choose_victim-finds_example = choose_victim-finds pool 1 unpinned (omega arith) refl refl
