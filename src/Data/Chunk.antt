-- ===== src/Data/Chunk.antt =====
-- The records of a data file, first those on disk and then those in the buffer: a reference
-- description of the chunk of store/datachunk.go.
use gobeansdb.Base.{
  ℕ, zero, suc, ◌+◌, ◌%◌, ◌^◌, ◌<◌, ◌≡◌, refl, sym, ap, ◌∙◌, arith, Bool, List, [], ◌∷◌, ◌++◌,
  length, take, drop, All, All-append, length-append,
}
use gobeansdb.Base.Int.{pos}
use gobeansdb.Cmem.{BeansdbRl}
use gobeansdb.Record.{Rec, WriteRecord, sizes, wrap_record}
use gobeansdb.Record.Sizes.{sizes_lem}
use gobeansdb.Record.Header.{IsStorable, stored, length-stored, append_placed, rec_size-wrap_record}
use mathlib.Core.List.{append_assoc}
use gobeansdb.Data.{DataChunk, append_record, get_disk_file_size, flush_count, flush_writes, flush}

-- A record as it waits at a place of a file.
abbrev pub placed : ℕ → ℕ → Rec → WriteRecord
placed c at rec = record (wrap_record rec) { at = record { chunk_id = pos c; offset = at } }

-- Records one behind the other from a place on.
abbrev pub place : ℕ → ℕ → List Rec → List WriteRecord
place c at [] = []
place c at (r ∷ rs) = placed c at r ∷ place c (at + (sizes r).1) rs

abbrev pub image : List Rec → List ℕ
image [] = []
image (r ∷ rs) = stored r ++ image rs

abbrev pub total : List Rec → ℕ
total [] = 0
total (r ∷ rs) = (sizes r).1 + total rs

-- The chunk holds the records of `flushed` on disk and those of `pending` in its buffer.
pub record Represents (dc : DataChunk) (flushed pending : List Rec) : Type 0 where
  pub on_disk : dc.disk ≡ image flushed
  pub in_wbuf : dc.wbuf ≡ place dc.chunkid (total flushed) pending
  pub head : dc.writing_head ≡ total flushed + total pending
  pub size : dc.size ≡ dc.writing_head
  pub small : total flushed + total pending < 2 ^ 32
  pub whole : All IsStorable flushed
  pub waiting : All IsStorable pending

pub total-append : (xs ys : List Rec) → total (xs ++ ys) ≡ total xs + total ys
total-append [] ys = omega arith
total-append (x ∷ xs) ys = omega (arith, total-append xs ys)

pub image-append : (xs ys : List Rec) → image (xs ++ ys) ≡ image xs ++ image ys
image-append [] ys = refl
image-append (x ∷ xs) ys =
    ap (λ t. stored x ++ t) (image-append xs ys)
    ∙ sym (append_assoc (stored x) (image xs) (image ys))

at-total : (at s t : ℕ) → at + s + t ≡ at + (s + t)
at-total at s t = omega arith

pub place-append :
    (c at : ℕ) (xs ys : List Rec)
    → place c at (xs ++ ys) ≡ place c at xs ++ place c (at + total xs) ys
place-append c at [] ys = ap (λ n. place c n ys) (at_zero at)
  where
    at_zero : (n : ℕ) → n ≡ n + 0
    at_zero n = omega arith
place-append c at (x ∷ xs) ys =
    ap (λ t. placed c at x ∷ t)
      (place-append c (at + (sizes x).1) xs ys
        ∙ ap (λ n. place c (at + (sizes x).1) xs ++ place c n ys)
            (at-total at (sizes x).1 (total xs)))

pub length-place : (c at : ℕ) (xs : List Rec) → length (place c at xs) ≡ length xs
length-place c at [] = refl
length-place c at (x ∷ xs) = ap suc (length-place c (at + (sizes x).1) xs)

pub size_pos : (r : Rec) → IsStorable r → 0 < (sizes r).1
size_pos r h = let (exact, rounded) = sizes_lem r h.size in omega (arith, rounded.covers)

pub length-image : (xs : List Rec) → All IsStorable xs → length (image xs) ≡ total xs
length-image [] h = refl
length-image (x ∷ xs) h =
    length-append (stored x) (image xs) ∙ (λ i. length-stored x h.0 i + length-image xs h.1 i)

take-place : (c at n : ℕ) (xs : List Rec) → take n (place c at xs) ≡ place c at (take n xs)
take-place c at zero xs = refl
take-place c at (suc n) [] = refl
take-place c at (suc n) (x ∷ xs) =
    ap (λ t. placed c at x ∷ t) (take-place c (at + (sizes x).1) n xs)

drop-place :
    (c at n : ℕ) (xs : List Rec)
    → drop n (place c at xs) ≡ place c (at + total (take n xs)) (drop n xs)
drop-place c at zero xs = ap (λ n. place c n xs) (at_zero at)
  where
    at_zero : (n : ℕ) → n ≡ n + 0
    at_zero n = omega arith
drop-place c at (suc n) [] = refl
drop-place c at (suc n) (x ∷ xs) =
    drop-place c (at + (sizes x).1) n xs
    ∙ ap (λ m. place c m (drop n xs)) (at-total at (sizes x).1 (total (take n xs)))

total-take-drop : (n : ℕ) (xs : List Rec) → total (take n xs) + total (drop n xs) ≡ total xs
total-take-drop zero xs = omega arith
total-take-drop (suc n) [] = omega arith
total-take-drop (suc n) (x ∷ xs) = omega (arith, total-take-drop n xs)

All-take : (n : ℕ) (xs : List Rec) → All IsStorable xs → All IsStorable (take n xs)
All-take zero xs h = tt
All-take (suc n) [] h = tt
All-take (suc n) (x ∷ xs) h = (h.0, All-take n xs h.1)

All-drop : (n : ℕ) (xs : List Rec) → All IsStorable xs → All IsStorable (drop n xs)
All-drop zero xs h = h
All-drop (suc n) [] h = tt
All-drop (suc n) (x ∷ xs) h = All-drop n xs h.1

-- What the loop of `flush` writes for records in their places.
flush_writes-place :
    (gc : Bool) (c at : ℕ) (xs : List Rec) (rl : BeansdbRl)
    → total xs < 2 ^ 32
    → ((flush_writes gc (place c at xs) rl).0 ≡ image xs)
      × ((flush_writes gc (place c at xs) rl).1 ≡ total xs)
unfolding flush_writes
flush_writes-place gc c at [] rl h = (refl, refl)
flush_writes-place gc c at (x ∷ xs) rl h =
    let rl' = flush_count gc (placed c at x) rl in
    let (bytes, size) = flush_writes-place gc c (at + (sizes x).1) xs rl' (omega (arith, h)) in
    (
      (λ i. append_placed x (placed c at x).at i ++ bytes i),
      (λ i. (rec_size-wrap_record x i + size i) % 2 ^ 32) ∙ omega (arith, h),
    )

-- The chunk's fields, one at a time, after a record was appended at its head.
module _ (dc : DataChunk) (flushed pending : List Rec) (h : Represents dc flushed pending) where
  -- Where a chunk holds the records of `flushed` on disk and those of `pending` in its buffer, and a
  -- storable record is appended at the writing head and does not bring the file to 4 GB, it holds that
  -- record behind those of `pending` as well.
  pub append_record-Represents :
      (rec : Rec)
      → IsStorable rec
      → total flushed + total pending + (sizes rec).1 < 2 ^ 32
      → Represents
          (append_record dc (placed dc.chunkid dc.writing_head rec))
          flushed
          (pending ++ (rec ∷ []))
  unfolding append_record
  append_record-Represents rec good fits =
      let grown : total (pending ++ (rec ∷ [])) ≡ total pending + (sizes rec).1 =
        total-append pending (rec ∷ []) ∙ omega arith in
      record {
        on_disk = h.on_disk;
        in_wbuf =
            (λ i. h.in_wbuf i ++ (placed dc.chunkid (h.head i) rec ∷ []))
            ∙ sym (place-append dc.chunkid (total flushed) pending (rec ∷ []));
        head = (λ i. (h.head i + rec_size-wrap_record rec i) % 2 ^ 32) ∙ omega (arith, fits, grown);
        size = refl;
        small = omega (arith, fits, grown);
        whole = h.whole;
        waiting = All-append IsStorable pending (rec ∷ []) h.waiting (good, tt);
      }

  -- Under the same, the size that is taken for that of the file on disk is that of the records on disk.
  pub get_disk_file_size_lem : get_disk_file_size dc ≡ total flushed
  unfolding get_disk_file_size
  get_disk_file_size_lem = go pending dc.wbuf h.in_wbuf (h.size ∙ h.head)
    where
      go :
          (ps : List Rec) (wbuf : List WriteRecord)
          → wbuf ≡ place dc.chunkid (total flushed) ps
          → dc.size ≡ total flushed + total ps
          → (elim wbuf [ [] ↦ dc.size | wrec ∷ rest ↦ wrec.at.offset ]) ≡ total flushed
      go [] wbuf e s = rw e (omega (arith, s))
      go (p ∷ ps) wbuf e s = rw e refl

module _ (dc : DataChunk) (flushed pending : List Rec) (gc : Bool) (rl : BeansdbRl) where
  -- Where a chunk holds the records of `flushed` on disk and those of `pending` in its buffer, a flush of
  -- the first `n` of the buffer moves them to the disk, whatever was appended behind them, and counts
  -- their sizes.
  pub flush-Represents :
      (n : ℕ)
      → Represents dc flushed pending
      → Represents (flush dc n gc rl).0 (flushed ++ take n pending) (drop n pending)
        × ((flush dc n gc rl).1 ≡ total (take n pending))
  unfolding flush
  flush-Represents n h =
      let parts = total-take-drop n pending in
      let moved = total-append flushed (take n pending) in
      let writes =
        flush_writes-place gc dc.chunkid (total flushed) (take n pending) rl
          (omega (arith, h.small, parts)) in
      let taken : take n dc.wbuf ≡ place dc.chunkid (total flushed) (take n pending) =
        ap (take n) h.in_wbuf ∙ take-place dc.chunkid (total flushed) n pending in
      (
        record {
          on_disk =
              (λ i. h.on_disk i ++ ((λ j. (flush_writes gc (taken j) rl).0) ∙ writes.0) i)
              ∙ sym (image-append flushed (take n pending));
          in_wbuf =
              ap (drop n) h.in_wbuf
              ∙ drop-place dc.chunkid (total flushed) n pending
              ∙ ap (λ m. place dc.chunkid m (drop n pending)) (sym moved);
          head = h.head ∙ omega (arith, parts, moved);
          size = h.size;
          small = omega (arith, h.small, parts, moved);
          whole =
              All-append IsStorable flushed (take n pending) h.whole (All-take n pending h.waiting);
          waiting = All-drop n pending h.waiting;
        },
        (λ j. (flush_writes gc (taken j) rl).1) ∙ writes.1,
      )
