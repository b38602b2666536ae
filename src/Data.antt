-- ===== src/Data.antt =====
-- store/datachunk.go: one data file of a bucket and the records that wait to be written to it. The
-- writer of garbage collection is the place of its next byte. Errors of the operating system, where the
-- code stops the program or reports them, are not modelled.
pub mod Search
pub mod Chunk
pub mod Find
pub mod Store
mod Tests
use gobeansdb.Base.{
  ℕ, ◌+◌, ◌-◌, ◌%◌, ◌^◌, Bool, true, false, not, ◌&&◌, ◌||◌, Option, none, some, List, [], ◌∷◌,
  ◌++◌, length, take, drop, get_or, ltb, leb, ◌==◌, if◌then◌else◌,
}
use gobeansdb.Base.Int.{ℤ, pos, ltb_ℤ}
use gobeansdb.Config.{McConfig}
use gobeansdb.Cmem.{CArray, BeansdbRl, add_size_and_count, sub_size_and_count, free, copy}
use gobeansdb.Record.{
  Rec, WriteRecord, Position, append, new_write_record, read_record_at, ReadResult,
}
use Search.{search}

-- `disk` is the file at `path`.
pub record DataChunk : Type 0 where
  pub chunkid : ℕ
  pub disk : List ℕ
  pub size : ℕ
  pub writing_head : ℕ
  pub wbuf : List WriteRecord
  pub rewriting : Bool
  pub gc_writer : Option ℕ

-- `Clear`
abbrev pub clear : DataChunk → DataChunk
clear dc = record {
  chunkid = dc.chunkid;
  disk = [];
  size = 0;
  writing_head = 0;
  wbuf = [];
  rewriting = false;
  gc_writer = none;
}

-- `AppendRecord`
pub append_record : DataChunk → WriteRecord → DataChunk
append_record dc wrec =
    let head = (dc.writing_head + wrec.rec.payload.rec_size) % 2 ^ 32 in
    record dc { wbuf = dc.wbuf ++ (wrec ∷ []); writing_head = head; size = head }

-- Bytes written at a place of a file, over what is there.
abbrev pub write_bytes : List ℕ → ℕ → List ℕ → List ℕ
write_bytes disk at bytes = take at disk ++ (bytes ++ drop (at + length bytes) disk)

-- `gcWriter.append` and the flush of its buffer; with no writer the code panics.
unfoldable pub gc_write : DataChunk → WriteRecord → Option ℕ → Option (ℕ × DataChunk)
gc_write dc wrec none = none
gc_write dc wrec (some at) =
    let bytes = (append wrec true).1 in
    some (
      wrec.at.offset,
      record dc { disk = write_bytes dc.disk at bytes; gc_writer = some (at + length bytes) },
    )

-- `AppendRecordGC`: the offset of the record, and the chunk.
unfoldable pub append_record_gc : DataChunk → WriteRecord → Option (ℕ × DataChunk)
unfolding gc_write
append_record_gc dc wrec =
    let head = (dc.writing_head + wrec.rec.payload.rec_size) % 2 ^ 32 in
    let placed = record wrec {
      at = record { chunk_id = pos dc.chunkid; offset = dc.writing_head };
    } in
    gc_write (record dc { writing_head = head; size = if leb dc.size head then head else dc.size })
      placed dc.gc_writer

-- `getDiskFileSize`
pub get_disk_file_size : DataChunk → ℕ
get_disk_file_size dc = elim dc.wbuf [ [] ↦ dc.size | wrec ∷ rest ↦ wrec.at.offset ]

-- The counter of FlushData as `flush` passes a record.
abbrev pub flush_count : Bool → WriteRecord → BeansdbRl → BeansdbRl
flush_count gc wrec rl = record rl {
  flush_data =
      if not gc && ltb_ℤ (pos 0) wrec.rec.payload.ver
      then sub_size_and_count rl.flush_data (pos wrec.rec.payload.cap)
      else rl.flush_data;
}

-- The loop of `flush` that writes: the bytes, the size written, and the counters.
pub flush_writes : Bool → List WriteRecord → BeansdbRl → List ℕ × ℕ × BeansdbRl
flush_writes gc [] rl = ([], 0, rl)
flush_writes gc (wrec ∷ rest) rl =
    let (bytes, flushed, rl') = flush_writes gc rest (flush_count gc wrec rl) in
    ((append wrec true).1 ++ bytes, (wrec.rec.payload.rec_size + flushed) % 2 ^ 32, rl')

-- `for _, wrec := range tofree { wrec.rec.Payload.Free() }`
pub free_all : List WriteRecord → BeansdbRl → BeansdbRl
free_all [] rl = rl
free_all (wrec ∷ rest) rl = free_all rest (free wrec.rec.payload.array rl).1

-- `flush` through a writer at the end of the file, of the first `n` records: `n` is the length of the
-- buffer when it begins, and records may have been appended since then.
pub flush : DataChunk → ℕ → Bool → BeansdbRl → DataChunk × ℕ × BeansdbRl
flush dc n gc rl =
    let (bytes, flushed, rl') = flush_writes gc (take n dc.wbuf) rl in
    (
      record dc { disk = dc.disk ++ bytes; wbuf = drop n dc.wbuf },
      flushed,
      free_all (take n dc.wbuf) rl',
    )

-- What is found of an offset in the buffer.
pub data InBuffer : Type 0 where
  absent : InBuffer
  found : WriteRecord → InBuffer
  missing : InBuffer

abbrev pub no_record : WriteRecord
no_record = new_write_record

-- `wbuf[i].pos.Offset`
abbrev pub offset_at : List WriteRecord → ℕ → ℕ
offset_at wbuf i = (get_or wbuf i no_record).at.offset

-- `GetRecordByOffsetInBuffer` of the buffer and the writing head.
pub find_among : List WriteRecord → ℕ → ℕ → InBuffer
find_among wbuf head offset =
    let n = length wbuf in
    let idx = search n (λ i. leb offset (offset_at wbuf i)) in
    if (n == 0) || (ltb offset (offset_at wbuf 0) || leb head offset)
    then absent
    else if leb n idx
    then missing
    else if offset_at wbuf idx == offset
    then found (get_or wbuf idx no_record)
    else missing

abbrev pub find_in_buffer : DataChunk → ℕ → InBuffer
find_in_buffer dc offset = find_among dc.wbuf dc.writing_head offset

-- What `beginGCWriting` does once the file is open.
unfoldable pub begin_gc_writing : DataChunk → ℕ → DataChunk
begin_gc_writing dc src_chunk =
    if dc.chunkid == src_chunk
    then record dc { rewriting = true; writing_head = 0; gc_writer = some 0 }
    else record dc {
      writing_head = dc.size;
      gc_writer = if dc.rewriting then some 0 else some (length dc.disk);
    }

-- `Truncate`
abbrev pub truncate : DataChunk → ℕ → DataChunk
truncate dc size = record dc { disk = take size dc.disk }

-- `endGCWriting`
unfoldable pub end_gc_writing : DataChunk → DataChunk
end_gc_writing dc =
    let closed = record dc { gc_writer = none } in
    let cut =
      if dc.rewriting && ltb dc.writing_head dc.size
      then record (truncate closed dc.writing_head) { size = dc.writing_head }
      else closed in
    record cut { rewriting = false }
