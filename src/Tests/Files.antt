-- ===== src/Tests/Files.antt =====
-- A heap file in a byte string, which a write behind the end extends, whose first page is written.
use mathlib.Core.Path.{subst}
use pageforge.Prelude.{
  ℕ, zero, suc, ◌+◌, ◌-◌, ◌≤◌, ◌≡◌, ◌≢◌, inl, inr, refl, ap, ◌∙◌, arith, true, [], ◌∷◌, ◌++◌, none,
  some, length, length-append, length-replicate, length-drop, leb, take, drop, replicate,
  Bool-cases, if◌then◌else◌, ok,
}
use pageforge.Bytes.{Bytes, read_word, write_word, copy_to, slice}
use pageforge.Bytes.Slices.{length-copy_to, slice-copy_to_self, slice-copy_to-Apart}
use pageforge.Page.Fields.{page_size, page_id}
use pageforge.Page.Checksum.{checksum, checksum_loop, hashed, update_checksum}
use pageforge.Page.Records.{initialize}
use pageforge.Page.Validate.{validate, check_slots}
use pageforge.HeapFile.{page_offset, Stream, HeapFile, read_page, write_page}
use pageforge.HeapFile.Pages.{IsStore, read_page-write_page}

-- The bytes of the file up to the end of a write, with zeros over a gap.
abbrev extended : ℕ → Bytes → Bytes
extended size file = file ++ replicate (size - length file) 0

abbrev overwritten : ℕ → Bytes → Bytes → Bytes
overwritten offset bytes file = copy_to bytes (extended (offset + length bytes) file) offset

abbrev file_stream : Stream
file_stream = record {
  File = Bytes;
  read = λ offset count file.
      if leb (offset + count) (length file) then some (slice file offset count) else none;
  write = λ offset bytes file. (true, overwritten offset bytes file);
  flush = λ file. (true, file);
  size = λ file. length file;
}

length-extended :
    (size : ℕ) (file : Bytes)
    → (size ≤ length (extended size file)) × (length file ≤ length (extended size file))
length-extended size file =
    let appended = length-append file (replicate (size - length file) 0) in
    let zeros = length-replicate {A = ℕ} (size - length file) 0 in
    (omega (arith, appended, zeros), omega (arith, appended, zeros))

drop-append_left :
    (file more : Bytes) (o : ℕ) → o ≤ length file → drop o (file ++ more) ≡ drop o file ++ more
drop-append_left file more zero h = refl
drop-append_left [] more (suc o) h = absurd (omega arith)
drop-append_left (b ∷ file) more (suc o) h = drop-append_left file more o (omega arith)

take-append_left :
    (file more : Bytes) (n : ℕ) → n ≤ length file → take n (file ++ more) ≡ take n file
take-append_left file more zero h = refl
take-append_left [] more (suc n) h = absurd (omega arith)
take-append_left (b ∷ file) more (suc n) h = ap (◌∷◌ b) (take-append_left file more n (omega arith))

slice-extended :
    (size : ℕ) (file : Bytes) (o n : ℕ)
    → o + n ≤ length file
    → slice (extended size file) o n ≡ slice file o n
slice-extended size file o n h =
    let dropped = length-drop o file in
    ap (take n) (drop-append_left file (replicate (size - length file) 0) o (omega arith))
    ∙ take-append_left (drop o file) (replicate (size - length file) 0) n (omega arith)

within : (a b : ℕ) → a ≤ b → leb a b ≡ true
within a b h = ground arith

file_store : IsStore file_stream
file_store = record {
  read_same = λ offset bytes file file' e.
      let (long, longer) = length-extended (offset + length bytes) file in
      let same = length-copy_to bytes (extended (offset + length bytes) file) offset in
      subst (λ (f : Bytes). file_stream.read offset (length bytes) f ≡ some bytes) (ap (λ w. w.1) e)
        (rw
          (
            same,
            within (offset + length bytes) (length (extended (offset + length bytes) file)) long,
          )
          (ap some (slice-copy_to_self bytes (extended (offset + length bytes) file) offset long)));
  read_other = λ offset bytes file file' other count old e apart held.
      let (long, longer) = length-extended (offset + length bytes) file in
      let (inside, is) = found other count file old held in
      let same = length-copy_to bytes (extended (offset + length bytes) file) offset in
      subst (λ (f : Bytes). file_stream.read other count f ≡ some old) (ap (λ w. w.1) e)
        (rw
          (
            same,
            within (other + count) (length (extended (offset + length bytes) file)) (omega arith),
          )
          (ap some (
            slice-copy_to-Apart bytes (extended (offset + length bytes) file) offset other count
              apart
            ∙ slice-extended (offset + length bytes) file other count inside
            ∙ is)));
}
  where
    some_same : {a b : Bytes} → some a ≡ some b → a ≡ b
    some_same e = cc

    found :
        (other count : ℕ) (file old : Bytes)
        → file_stream.read other count file ≡ some old
        → (other + count ≤ length file) × (slice file other count ≡ old)
    found other count file old held = elim (Bool-cases (leb (other + count) (length file))) [
      | inl inside ↦ (ground arith, some_same (rw inside at held))
      | inr outside ↦ absurd (let held' = rw outside at held in cc)
    ]

abbrev page : Bytes
page = initialize 0

page_whole : length page ≡ page_size
unfolding initialize update_checksum checksum checksum_loop hashed write_word
page_whole = refl

page_valid : validate page ≡ ok tt
unfolding validate initialize update_checksum checksum checksum_loop hashed read_word write_word
    check_slots
page_valid = refl

abbrev heap : HeapFile file_stream
heap = record { file = replicate (page_offset 2) 0; page_count = 2 }

abbrev heap' : HeapFile file_stream
heap' = record {
  file = overwritten (page_offset 0) page (replicate (page_offset 2) 0);
  page_count = 2;
}

page_written : write_page file_stream page heap ≡ (ok tt, heap')
unfolding write_page validate initialize update_checksum checksum checksum_loop hashed read_word
    write_word check_slots
page_written = refl

read_page-write_page_example :
    (read_page file_stream (page_id page) heap' ≡ (ok page, heap'))
    × ((id : ℕ) (old : Bytes)
        → id ≢ page_id page
        → file_stream.read (page_offset id) page_size heap.file ≡ some old
        → (read_page file_stream id heap').0 ≡ (read_page file_stream id heap).0)
read_page-write_page_example =
    read_page-write_page file_stream file_store page heap heap' page_whole page_written
