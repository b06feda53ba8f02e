-- ===== src/HeapFile.antt =====
-- include/pageforge/heap_file.hpp and src/heap_file.cpp: the header and the pages of a heap file. The file stream and the
-- file system are a parameter; a method is a function of the heap file's state, which keeps what was
-- done before an exception.
pub mod Pages
use pageforge.Prelude.{
  ℕ, zero, suc, ◌+◌, ◌*◌, ◌%◌, ◌^◌, Bool, true, false, not, ◌&&◌, ◌||◌, List, [], ◌∷◌, drop,
  replicate, length, Option, none, some, leb, ltb, ◌==◌, bit_xor, if◌then◌else◌, Result, ok, err,
  Exception, ◌>>=◌, ◌>>◌, throw_if, out_of_range, runtime_error, page_corruption,
}
use pageforge.Bytes.{Bytes, copy_to}
use pageforge.Bytes.Compare.{eq_bytes}
use pageforge.Page.Fields.{page_size, read_u32, write_u32, page_id}
use pageforge.Page.Records.{initialize}
use pageforge.Page.Validate.{validate, from_bytes}
use pageforge.BPlusTree.Node.{has_magic, all_zero}
use pageforge.BufferPool as Pool

-- "PFDB0001"
abbrev pub magic : Bytes
magic = 80 ∷ 70 ∷ 68 ∷ 66 ∷ 48 ∷ 48 ∷ 48 ∷ 49 ∷ []

abbrev pub page_size_offset : ℕ
page_size_offset = 8

abbrev pub page_count_offset : ℕ
page_count_offset = 12

abbrev pub checksum_offset : ℕ
checksum_offset = 16

-- `checksum`, from an index and a hash on.
unfoldable pub checksum_loop : ℕ → ℕ → Bytes → ℕ
checksum_loop index hash [] = hash
checksum_loop index hash (b ∷ bytes) =
    let value = if leb checksum_offset index && ltb index (checksum_offset + 4) then 0 else b in
    checksum_loop (index + 1) (bit_xor hash value * 16777619 % 2 ^ 32) bytes

unfoldable pub checksum : Bytes → ℕ
checksum bytes = checksum_loop 0 2166136261 bytes

-- The bytes that `write_header` writes.
unfoldable pub header_of : ℕ → Bytes
header_of count =
    let header = copy_to magic (replicate page_size 0) 0 in
    let header = write_u32 header page_size_offset page_size in
    let header = write_u32 header page_count_offset count in
    write_u32 header checksum_offset (checksum header)

-- The tests of `read_header` on a complete header.
unfoldable pub page_count_of : Bytes → Result ℕ
page_count_of header = do
  throw_if (not (has_magic header magic)) page_corruption
  throw_if (not (read_u32 header page_size_offset == page_size)) page_corruption
  throw_if (not (read_u32 header checksum_offset == checksum header)) page_corruption
  throw_if (not (all_zero (drop (checksum_offset + 4) header))) page_corruption
  ok (read_u32 header page_count_offset)

abbrev pub page_offset : ℕ → ℕ
page_offset page_id = page_size * (page_id + 1)

-- What the heap file uses of `std::fstream` and `std::filesystem`: a read of bytes at an offset, which is
-- none when they are not all there, a write at an offset and a flush, which say whether the stream is good
-- after it, and the size of the file.
pub record Stream : Type 1 where
  pub File : Type 0
  pub read : ℕ → ℕ → File → Option Bytes
  pub write : ℕ → Bytes → File → Bool × File
  pub flush : File → Bool × File
  pub size : File → ℕ

module _ (stream : Stream) where
  open stream use {File, read, write, flush, size}

  pub record HeapFile : Type 0 where
    pub file : File
    pub page_count : ℕ

  -- `require_stream`, behind an operation that leaves the file.
  abbrev pub require_stream : Bool × File → HeapFile → Result (Unit {0}) × HeapFile
  require_stream (good, file) heap =
      (if good then ok tt else err runtime_error, record heap { file = file })

  unfoldable pub write_header : HeapFile → Result (Unit {0}) × HeapFile
  write_header heap = require_stream (write 0 (header_of heap.page_count) heap.file) heap

  unfoldable pub sync : HeapFile → Result (Unit {0}) × HeapFile
  sync heap = require_stream (flush heap.file) heap

  unfoldable pub read_header : File → Result HeapFile
  read_header file = elim (read 0 page_size file) [
    | none ↦ err page_corruption
    | some header ↦ do
      count ← page_count_of header
      throw_if (ltb (size file) (page_offset count)) page_corruption
      throw_if (ltb (page_offset count) (size file)) page_corruption
      ok (record { file = file; page_count = count })
  ]

  -- `then` on results with the state that they leave.
  abbrev pub and_then :
      {A : Type 0}
      → Result (Unit {0}) × HeapFile
      → (HeapFile → Result A × HeapFile)
      → Result A × HeapFile
  and_then (ok done, heap) rest = rest heap
  and_then (err e, heap) rest = (err e, heap)

  -- On the file that `open` with `trunc` leaves, or `none` when it could not be opened.
  unfoldable pub create : Option File → Result (Unit {0}) × Option HeapFile
  create none = (err runtime_error, none)
  create (some file) =
      let (result, heap) = and_then (write_header (record { file = file; page_count = 0 })) sync in
      (result, some heap)

  unfoldable pub open_file : Option File → Result HeapFile
  open_file none = err runtime_error
  open_file (some file) = read_header file

  unfoldable pub allocate_page : HeapFile → Result Bytes × HeapFile
  allocate_page heap =
      let page = initialize heap.page_count in
      and_then (require_stream (write (page_offset heap.page_count) page heap.file) heap) (λ heap'.
        and_then (write_header (record heap' { page_count = (heap'.page_count + 1) % 2 ^ 32 }))
          (λ heap''. (ok page, heap'')))

  -- The page that a read of its bytes gives.
  unfoldable pub read_bytes : ℕ → Option Bytes → Result Bytes
  read_bytes id none = err runtime_error
  read_bytes id (some bytes) = do
    page ← from_bytes bytes
    throw_if (not (page_id page == id)) page_corruption
    ok page

  unfoldable pub read_page : ℕ → HeapFile → Result Bytes × HeapFile
  read_page id heap =
      if leb heap.page_count id
      then (err out_of_range, heap)
      else (read_bytes id (read (page_offset id) page_size heap.file), heap)

  unfoldable pub write_page : Bytes → HeapFile → Result (Unit {0}) × HeapFile
  write_page page heap =
      if leb heap.page_count (page_id page)
      then (err out_of_range, heap)
      else elim (validate page) [
        | err e ↦ (err e, heap)
        | ok valid ↦ require_stream (write (page_offset (page_id page)) page heap.file) heap
      ]

  -- The heap file as the buffer pool uses it.
  abbrev pub pool_heap : Pool.HeapFile
  pool_heap = record {
    Page = Bytes;
    Heap = HeapFile;
    page_id = page_id;
    page_count = λ heap. heap.page_count;
    read_page = read_page;
    write_page = write_page;
    allocate_page = allocate_page;
    sync = sync;
  }
