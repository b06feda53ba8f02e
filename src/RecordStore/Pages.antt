-- ===== src/RecordStore/Pages.antt =====
-- src/page.cpp as the pages of a record store.
use pageforge.Prelude.{Result, ok, err}
use pageforge.Bytes.{Bytes}
use pageforge.Page.Fields.{slot_count}
use pageforge.Page.Records.{contains, insert, read, replace, erase}
use pageforge.RecordStore.{Records}

-- A page that a replacement leaves when it throws is the page as it was.
unfoldable pub replaced : Bytes → Result Bytes → Result (Unit {0}) × Bytes
replaced page (ok page') = (ok tt, page')
replaced page (err e) = (err e, page)

instance abbrev pub slotted_pages : Records Bytes
slotted_pages = record {
  slot_count = slot_count;
  contains = contains;
  insert = insert;
  read = read;
  replace = λ slot_id payload page. replaced page (replace slot_id payload page);
  erase = erase;
}
