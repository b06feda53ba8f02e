-- ===== src/BufferPool/Guard.antt =====
-- include/pageforge/buffer_pool.hpp and src/buffer_pool.cpp: the methods of `PageGuard`.
use pageforge.Prelude.{none, some, Result, ok, logic_error}
use pageforge.BufferPool.{
  HeapFile, BufferPool, PageGuard, M, ◌>>=◌, ◌>>◌, throw, put_frame, frame_at, unpin, mark_dirty,
  frame_page,
}

module _ ⦃heap_file : HeapFile⦄ where
  open heap_file use {Page}

  unfoldable pub page : PageGuard → M Page
  unfolding frame_page
  page none = throw logic_error
  page (some i) = frame_page i

  -- `mutable_page()`, and the page that the caller leaves behind through the reference.
  unfoldable pub modify : {A : Type 0} → PageGuard → (Page → Result A × Page) → M A
  unfolding mark_dirty frame_page
  modify none f = throw logic_error
  modify (some i) f = do
    mark_dirty i
    page ← frame_page i
    frame ← frame_at i
    λ p. (ok tt, put_frame i (record frame { page = some (f page).1 }) p)
    λ p. ((f page).0, p)

  -- The guard holds nothing afterwards.
  unfoldable pub release : PageGuard → BufferPool → PageGuard × BufferPool
  unfolding unpin
  release none p = (none, p)
  release (some i) p = (none, unpin i p)

  -- `*this = std::move(other)` for another guard: the guard, the other one, and the pool.
  unfoldable pub move : PageGuard → PageGuard → BufferPool → PageGuard × PageGuard × BufferPool
  unfolding release
  move this other p = (other, none, (release this p).1)
