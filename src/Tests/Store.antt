-- ===== src/Tests/Store.antt =====
-- The cursor of a record store on two pages with one live slot each, and the envelope of a row.
use pageforge.Prelude.{
  ℕ, ◌+◌, ◌≡◌, ltb, if◌then◌else◌, ◌==◌, none, false, ok, err, arith, ◌>>=◌, ◌∷◌, out_of_range, [],
}
use pageforge.BufferPool.{HeapFile, BufferPool}
use pageforge.RecordStore.{Records, RecordCursor, next}
use pageforge.Catalog.{TableDefinition}
use pageforge.TableStore.{wrap, parse}
use pageforge.TableStore.RoundTrip.{parse-wrap}
use pageforge.RecordStore.Cursor.{Walks, next-Walks}

-- A page is the number of its one live slot.
instance abbrev numbered : HeapFile
numbered = record {
  Page = ℕ;
  Heap = ℕ;
  page_id = λ page. page;
  page_count = λ heap. heap;
  read_page = λ id heap. (if ltb id heap then ok id else err out_of_range, heap);
  write_page = λ page heap. (ok tt, heap);
  allocate_page = λ heap. (ok heap, heap + 1);
  sync = λ heap. (ok tt, heap);
}

instance abbrev one_live : Records ℕ
one_live = record {
  slot_count = λ page. 3;
  contains = λ page slot. slot == page;
  insert = λ payload page. (ok 0, page);
  read = λ slot page. ok [];
  replace = λ slot payload page. (ok tt, page);
  erase = λ slot page. (slot == page, page);
}

abbrev pool : BufferPool
pool = record {
  heap = 2;
  frames = record { page = none; pin_count = 0; referenced = false; dirty = false } ∷ [];
  page_table = [];
  clock_hand = 0;
  stats = record { hits = 0; misses = 0; evictions = 0; dirty_writes = 0 };
}

abbrev at_start : RecordCursor
at_start = record { next_page = 0; next_slot = 1; end_page = 2 }

next-Walks_example : Walks 2 at_start pool (next at_start pool)
next-Walks_example = next-Walks at_start pool

abbrev users : TableDefinition
users = record { name = 117 ∷ 115 ∷ 101 ∷ 114 ∷ 115 ∷ []; schema = []; schema_version = 3 }

parse-wrap_example :
    (wrap users (1 ∷ 2 ∷ []) >>= parse)
    ≡ ok (record { table_name = users.name; schema_version = 3; tuple_bytes = 1 ∷ 2 ∷ [] })
parse-wrap_example =
    parse-wrap users (1 ∷ 2 ∷ []) (omega arith) (omega arith) (omega arith) (omega arith)
