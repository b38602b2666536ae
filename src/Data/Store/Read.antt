-- ===== src/Data/Store/Read.antt =====
-- Reads of store/datachunk.go at the places where records begin.
use gobeansdb.Base.{ℕ, ◌+◌, ◌<◌, ◌≡◌, sym, ap, ◌∙◌, arith, true, false, some, List, ◌∷◌, ◌++◌}
use gobeansdb.Base.Int.{pos}
use gobeansdb.Config.{McConfig}
use gobeansdb.Cmem.{CArray, BeansdbRl, add_size_and_count, copy}
use gobeansdb.Record.{Rec, WriteRecord, ReadResult, ok, wrap_record, read_record_at}
use gobeansdb.Record.Header.{stored, array-wrap_record}
use gobeansdb.Record.RoundTrip.{
  IsReadable, SameContent, with_copy-SameContent, read_record_at-append,
}
use gobeansdb.Compress.{Compressor}
use gobeansdb.Data.{DataChunk}
use gobeansdb.Data.Chunk.{
  Represents, total, total-append, image, image-append, length-image, size_pos,
}
use gobeansdb.Data.Find.{All-split, find_in_buffer-flushed, find_in_buffer-pending}
use gobeansdb.Cmem.Copies.{copy-body}
use gobeansdb.Data.Store.Unpack.{Unpacked, deliver-Unpacked}
use gobeansdb.Data.Store.{got, deliver, deliver_read, deliver_copy, get_from, get_record_by_offset}

module _ (c : Compressor) (size_decompressed : List ℕ → ℕ) (conf : McConfig) (malloc : ℕ → ℕ) where
  deliver_ok :
      (w : WriteRecord) (r : ReadResult × BeansdbRl)
      → r.0 ≡ ok w
      → deliver_read c size_decompressed r ≡ deliver c size_decompressed w.rec false r.1
  unfolding deliver_read
  deliver_ok w r e = ap (λ x. deliver_read c size_decompressed (x, r.1)) e

  -- Where a chunk holds, on disk, the records of `before`, then `r`, then those of `after`, and `r` has
  -- valid sizes and memory is granted, the read at the offset at which `r` begins gives out, as not from
  -- the buffer, a record with the key, time stamp and version of `r`, and: where `r` is not compressed,
  -- its value and flags; where it is, the bytes that the decompression of its value gave and its flags
  -- without the mark, or, if that failed, its value and flags as they are.
  pub get_record_by_offset-flushed :
      (dc : DataChunk) (before after pending : List Rec) (r : Rec) (rl : BeansdbRl)
      → Represents dc (before ++ (r ∷ after)) pending
      → IsReadable conf malloc r
      → (w : Rec) × (arr : CArray) × (rl2 : BeansdbRl) × (get_record_by_offset c size_decompressed
            conf malloc dc
            (total before)
            rl
          ≡ some (got w false, rl2))
        × (arr.body ≡ r.payload.body)
        × Unpacked c size_decompressed r arr
            (read_record_at conf malloc dc.disk (total before) rl).1
            w
            rl2
  unfolding get_record_by_offset get_from
  get_record_by_offset-flushed dc before after pending r rl h readable =
      let (front, back) = All-split before (r ∷ after) h.whole in
      let (w0, e, same) =
        read_record_at-append conf malloc r (image before) (image after) rl back.0 readable in
      let disk : dc.disk ≡ image before ++ (stored r ++ image after) =
        h.on_disk ∙ image-append before (r ∷ after) in
      let place = length-image before front in
      let inside : total before < total (before ++ (r ∷ after)) =
        omega (arith, total-append before (r ∷ after), size_pos r back.0) in
      let (w, rl2, given, content) =
        deliver-Unpacked c size_decompressed r w0.rec false
          (read_record_at conf malloc dc.disk (total before) rl).1 same in
      (
        w,
        w0.rec.payload.array,
        rl2,
        (λ i.
              get_from c size_decompressed conf malloc
                (find_in_buffer-flushed dc (before ++ (r ∷ after)) pending (total before) h inside
                  i)
                dc (total before) rl)
            ∙ ap some (
                deliver_ok w0 (read_record_at conf malloc dc.disk (total before) rl)
                  ((λ i. (read_record_at conf malloc (disk i) (sym place i) rl).0) ∙ e)
                ∙ given),
        same.body,
        content,
      )

  -- Where a chunk holds, in its buffer, the records of `before`, then `r`, then those of `after`, and the
  -- copy of the value is given memory, the read at the offset at which `r` begins gives out, as from the
  -- buffer, a record with the key, time stamp and version of `r`, and: where `r` is not compressed, its
  -- value and flags; where it is, the bytes that the decompression of its value gave and its flags without
  -- the mark, or, if that failed, its value and flags as they are. The copy is counted, with what the
  -- decompression adds to its size.
  pub get_record_by_offset-pending :
      (dc : DataChunk) (flushed before after : List Rec) (r : Rec) (arr : CArray)
      (rl rl' : BeansdbRl)
      → Represents dc flushed (before ++ (r ∷ after))
      → copy conf malloc r.payload.array rl ≡ (some arr, rl')
      → (w : Rec) × (rl2 : BeansdbRl) × (get_record_by_offset c size_decompressed conf malloc dc
            (total flushed + total before)
            rl
          ≡ some (got w true, rl2))
        × Unpacked c size_decompressed r arr
            (record rl' { get_data = add_size_and_count rl'.get_data (pos arr.cap) })
            w
            rl2
  unfolding get_record_by_offset get_from deliver_copy
  get_record_by_offset-pending dc flushed before after r arr rl rl' h granted =
      let w0 : Rec = record (wrap_record r).rec {
        payload = record (wrap_record r).rec.payload { array = arr };
      } in
      let same : SameContent w0 r =
        with_copy-SameContent r arr (copy-body conf malloc r.payload.array arr rl rl' granted) in
      let (w, rl2, given, content) =
        deliver-Unpacked c size_decompressed r w0 true
          (record rl' { get_data = add_size_and_count rl'.get_data (pos arr.cap) }) same in
      (
        w,
        rl2,
        (λ i.
              get_from c size_decompressed conf malloc
                (find_in_buffer-pending dc flushed before after r h i) dc
                (total flushed + total before) rl)
            ∙ (λ i.
                deliver_copy c size_decompressed (wrap_record r).rec
                  (copy conf malloc (array-wrap_record r i) rl))
            ∙ ap (deliver_copy c size_decompressed (wrap_record r).rec) granted
            ∙ ap some given,
        content,
      )
