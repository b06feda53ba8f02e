-- ===== src/BufferPool/Interface.antt =====
-- What the buffer pool uses of src/heap_file.cpp and src/page.cpp. An operation returns the heap file also
-- when it throws.
use pageforge.Prelude.{ℕ, Result}

pub record HeapFile : Type 1 where
  pub Page : Type 0
  pub Heap : Type 0
  pub page_id : Page → ℕ
  pub page_count : Heap → ℕ
  pub read_page : ℕ → Heap → Result Page × Heap
  pub write_page : Page → Heap → Result (Unit {0}) × Heap
  pub allocate_page : Heap → Result Page × Heap
  pub sync : Heap → Result (Unit {0}) × Heap
