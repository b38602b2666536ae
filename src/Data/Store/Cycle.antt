-- ===== src/Data/Store/Cycle.antt =====
-- A record of store/datachunk.go from the append over the flush to the read.
use gobeansdb.Base.{
  ℕ, ◌+◌, ◌^◌, ◌<◌, ◌≡◌, sym, ap, ◌∙◌, Bool, false, some, List, [], ◌∷◌, ◌++◌, length, take-all,
  drop-beyond, arith,
}
use gobeansdb.Config.{McConfig}
use gobeansdb.Cmem.{BeansdbRl}
use gobeansdb.Record.{Rec, sizes}
use gobeansdb.Record.Header.{IsStorable}
use gobeansdb.Record.RoundTrip.{IsReadable, SameContent}
use gobeansdb.Compress.{Compressor, is_compressed, try_compress}
use gobeansdb.Data.{DataChunk, append_record, flush}
use gobeansdb.Data.Chunk.{
  Represents, placed, total, length-place, total-append, append_record-Represents, flush-Represents,
}
use gobeansdb.Compress.RoundTrip.{Lossless, try_compress-Restores}
use gobeansdb.Compress.Keeps.{try_compress-Keeps}
use gobeansdb.Data.Store.{got, get_record_by_offset}
use gobeansdb.Data.Store.Unpack.{Unpacked-SameContent}
use gobeansdb.Data.Store.Read.{get_record_by_offset-flushed}
use mathlib.Core.List.{append_assoc}
use mathlib.Core.Path.{subst}

-- A flush of all records that wait.
flush_whole :
    (dc : DataChunk) (flushed pending : List Rec) (gc : Bool) (rl : BeansdbRl)
    → Represents dc flushed pending
    → Represents (flush dc (length dc.wbuf) gc rl).0 (flushed ++ pending) []
flush_whole dc flushed pending gc rl h =
    let n : length dc.wbuf ≡ length pending =
      ap length h.in_wbuf ∙ length-place dc.chunkid (total flushed) pending in
    subst (λ k. Represents (flush dc k gc rl).0 (flushed ++ pending) []) (sym n)
      (coe 0 1
        (i.
          Represents (flush dc (length pending) gc rl).0 (flushed ++ take-all pending i)
            (drop-beyond pending (length pending) (omega arith) i))
        (flush-Represents dc flushed pending gc rl (length pending) h).0)

-- The chunk after the append of a record and a flush of the whole buffer.
abbrev pub stored_chunk : DataChunk → Rec → Bool → BeansdbRl → DataChunk
stored_chunk dc r gc rl =
    let appended = append_record dc (placed dc.chunkid dc.writing_head r) in
    (flush appended (length appended.wbuf) gc rl).0

-- What `TryCompress` makes of a record.
abbrev pub packed : Compressor → Rec → BeansdbRl → Rec
packed c rec rl0 = (try_compress c rec rl0).0

module _ (c : Compressor) (size_decompressed : List ℕ → ℕ) (conf : McConfig) (malloc : ℕ → ℕ) where
  -- For a compressor that loses nothing, a record not yet compressed with flags of 32 bits, and a chunk
  -- that holds some records on disk and others in its buffer, where what `TryCompress` makes of the record
  -- is storable, has valid sizes and does not bring the file to 4 GB, and memory is granted: after that was
  -- appended and the buffer flushed, the read at the place where the file went on gives out, as not from
  -- the buffer, a record with the key, value, time stamp, flags and version of the record before
  -- compression.
  pub get_record_by_offset-stored_chunk :
      (dc : DataChunk) (flushed pending : List Rec) (rec : Rec) (gc : Bool) (rl0 rl rl' : BeansdbRl)
      → Lossless c
      → is_compressed rec.payload.flag ≡ false
      → rec.payload.flag < 2 ^ 32
      → Represents dc flushed pending
      → IsStorable (packed c rec rl0)
      → IsReadable conf malloc (packed c rec rl0)
      → total flushed + total pending + (sizes (packed c rec rl0)).1 < 2 ^ 32
      → (w : Rec) × (rl2 : BeansdbRl) × (get_record_by_offset c size_decompressed conf malloc
            (stored_chunk dc (packed c rec rl0) gc rl)
            dc.writing_head
            rl'
          ≡ some (got w false, rl2))
        × SameContent w rec
  get_record_by_offset-stored_chunk dc flushed pending rec gc rl0 rl rl' lossless plain flag h good
        readable fits =
      let r : Rec = packed c rec rl0 in
      let appended = append_record dc (placed dc.chunkid dc.writing_head r) in
      let whole = append_record-Represents dc flushed pending h r good fits in
      let on_disk : Represents (stored_chunk dc r gc rl) ((flushed ++ pending) ++ (r ∷ [])) [] =
        subst (λ xs. Represents (stored_chunk dc r gc rl) xs [])
          (sym (append_assoc flushed pending (r ∷ [])))
          (flush_whole appended flushed (pending ++ (r ∷ [])) gc rl whole) in
      let (w, arr, rl2, e, body, given) =
        get_record_by_offset-flushed c size_decompressed conf malloc (stored_chunk dc r gc rl)
          (flushed ++ pending) [] [] r rl' on_disk readable in
      (
        w,
        rl2,
        (λ i.
              get_record_by_offset c size_decompressed conf malloc (stored_chunk dc r gc rl)
                ((h.head ∙ sym (total-append flushed pending)) i) rl')
            ∙ e,
        Unpacked-SameContent c size_decompressed rec r (try_compress c rec rl0).1 arr _ w rl2
            (λ after. try_compress-Restores c rec after plain flag lossless rl0)
            (try_compress-Keeps c rec rl0) given,
      )
