-- ===== src/Data/Store.antt =====
-- store/data.go: the store of the data files of a bucket, which appends to the newest file, begins
-- another when it is full, and flushes the buffers; and the reads of store/datachunk.go.
-- `none` is where the code panics or stops the program. The time is seen as whether the last flush
-- is recent.
pub mod Append
pub mod Unpack
pub mod Read
pub mod Cycle
use gobeansdb.Base.{
  ℕ, ◌+◌, ◌-◌, ◌%◌, ◌^◌, Bool, true, false, not, ◌&&◌, ◌||◌, Option, none, some, List, [], ◌∷◌,
  length, get_elem?, set, ltb, leb, ◌==◌, if◌then◌else◌,
}
use gobeansdb.Base.Int.{ℤ, pos, negsuc, ltb_ℤ}
use gobeansdb.Config.{McConfig, HStoreConfig}
use gobeansdb.Cmem.{
  CArray, BeansdbRl, add_size_and_count, sub_size_and_count, add_size, add_count, copy,
}
use gobeansdb.Record.{
  Rec, Payload, WriteRecord, Position, wrap_record, sizes, read_record_at, ReadResult, ReadError,
  ok, err,
}
use gobeansdb.Compress.{Compressor, try_compress, decompress, is_compressed}
use gobeansdb.Data.{
  DataChunk, append_record, get_disk_file_size, flush, InBuffer, find_in_buffer, absent, found,
  missing,
}
use mathlib.Core.Option as Opt

pub record DataStore : Type 0 where
  pub chunks : List DataChunk
  pub new_head : ℕ
  pub wbuf_size : ℕ

-- A position, whether the old head is to be flushed, whether the flusher is woken, and the rest.
pub record Appended : Type 0 where
  pub at : Position
  pub store : DataStore
  pub to_flush : Option ℕ
  pub wake : Bool
  pub rl : BeansdbRl

-- The difference of two capacities.
abbrev diff : ℕ → ℕ → ℤ
diff a b = if leb b a then pos (a - b) else negsuc (b - a - 1)

-- The counters of `AppendRecord`, behind the append.
pub count_append : Rec → BeansdbRl → BeansdbRl
count_append rec rl =
    if ltb_ℤ (pos 0) rec.payload.ver
    then record rl {
      flush_data = add_size_and_count rl.flush_data (pos rec.payload.cap);
      set_data = sub_size_and_count rl.set_data (pos rec.payload.cap);
    }
    else rl

module _ (conf : HStoreConfig) (flush_wake : ℕ) where
  -- The chunk to append to, and the offset.
  pub next_place : DataStore → ℕ → ℕ → ℕ × ℕ
  next_place ds head size =
      if ltb (conf.data_file_max % 2 ^ 32) ((head + size) % 2 ^ 32)
      then (ds.new_head + 1, 0)
      else (ds.new_head, head)

  -- `AppendRecord` from the position on.
  abbrev pub appended_to : DataStore → Rec → BeansdbRl → Position → ℕ → DataChunk → Appended
  appended_to ds rec rl at chunk dc =
      let rl' = count_append rec rl in
      record {
        at = at;
        store = record {
          new_head = chunk;
          chunks = set ds.chunks chunk (append_record dc (record (wrap_record rec) { at = at }));
          wbuf_size = (ds.wbuf_size + (sizes rec).1) % 2 ^ 32;
        };
        to_flush = if chunk == ds.new_head then none else some ds.new_head;
        wake = ltb_ℤ (pos flush_wake) rl'.flush_data.size;
        rl = rl';
      }

  unfoldable pub append_at : DataStore → Rec → BeansdbRl → ℕ × ℕ → Option Appended
  append_at ds rec rl (chunk, offset) = Opt.bind (get_elem? ds.chunks chunk) (λ dc.
      some (appended_to ds rec rl (record { chunk_id = pos chunk; offset = offset }) chunk dc))

  -- What `AppendRecord` does with the lock, for a compressed record.
  unfoldable pub append_locked : DataStore → Rec → BeansdbRl → Option Appended
  append_locked ds rec rl =
      Opt.bind (get_elem? ds.chunks ds.new_head)
        (λ head. append_at ds rec rl (next_place ds head.writing_head (sizes rec).1))

  -- `dataStore.AppendRecord`
  unfoldable pub append_to_store : Compressor → DataStore → Rec → BeansdbRl → Option Appended
  append_to_store c ds rec rl =
      let (rec', rl') = try_compress c rec rl in
      append_locked ds rec'
        (record rl' { set_data = add_size rl'.set_data (diff rec'.payload.cap rec.payload.cap) })

-- From the opening of the file on. The file has to be as long as the records before the buffer.
unfoldable pub flush_chunk : DataStore → ℕ → BeansdbRl → Option (DataStore × BeansdbRl)
flush_chunk ds chunk rl = Opt.bind (get_elem? ds.chunks chunk) (λ dc.
    let (dc', flushed, rl') = flush dc (length dc.wbuf) false rl in
    if not (length dc.disk % 256 == 0)
    then none
    else if not (length dc.disk % 2 ^ 32 == get_disk_file_size dc)
    then none
    else some (
      record ds {
        chunks = set ds.chunks chunk dc';
        wbuf_size = (ds.wbuf_size + 2 ^ 32 - flushed) % 2 ^ 32;
      },
      rl',
    ))

-- The chunk that `flush` is for.
abbrev chunk_or_head : DataStore → ℤ → ℕ
chunk_or_head ds (pos n) = n
chunk_or_head ds (negsuc n) = ds.new_head

-- `dataStore.flush`
unfoldable pub flush_store :
    DataStore → ℤ → Bool → Bool → BeansdbRl → Option (DataStore × BeansdbRl)
flush_store ds chunk force recent rl =
    if ds.wbuf_size == 0
    then some (ds, rl)
    else if not force && (recent && ltb ds.wbuf_size (2 ^ 20))
    then some (ds, rl)
    else flush_chunk ds (chunk_or_head ds chunk) rl

-- What `GetRecordByOffset` returns: the record and whether it was in the buffer, or an error.
pub data GetResult : Type 0 where
  got : Rec → Bool → GetResult
  not_in_buffer : GetResult
  bad_record : ReadError → GetResult

-- The end of `GetRecordByOffset`: the counter, and `Decompress`, whose error is dropped.
-- `size_decompressed` is quicklz.SizeDecompressed.
module _ (c : Compressor) (size_decompressed : List ℕ → ℕ) where
  abbrev pub diff_size_after_decompressed : Payload → ℤ
  diff_size_after_decompressed p =
      if is_compressed p.flag then diff (size_decompressed p.body) p.cap else pos 0

  unfoldable pub deliver : Rec → Bool → BeansdbRl → GetResult × BeansdbRl
  deliver rec inbuffer rl =
      let counted = record rl {
        get_data = add_size rl.get_data (diff_size_after_decompressed rec.payload);
      } in
      let (p, fine, rl') = decompress c rec.payload counted in
      (got (record rec { payload = p }) inbuffer, rl')

  -- `rec.Copy()` and the counter; without memory for the copy the code panics.
  pub deliver_copy : Rec → Option CArray × BeansdbRl → Option (GetResult × BeansdbRl)
  deliver_copy rec (none, rl) = none
  deliver_copy rec (some arr, rl) = some (
      deliver (record rec { payload = record rec.payload { array = arr } }) true
        (record rl { get_data = add_size_and_count rl.get_data (pos arr.cap) }))

  pub deliver_read : ReadResult × BeansdbRl → GetResult × BeansdbRl
  deliver_read (ok wrec, rl) = deliver wrec.rec false rl
  deliver_read (err e, rl) = (bad_record e, rl)

  module _ (mc : McConfig) (malloc : ℕ → ℕ) where
    pub get_from : InBuffer → DataChunk → ℕ → BeansdbRl → Option (GetResult × BeansdbRl)
    get_from (found wrec) dc offset rl =
        deliver_copy wrec.rec (copy mc malloc wrec.rec.payload.array rl)
    get_from missing dc offset rl = some (not_in_buffer, rl)
    get_from absent dc offset rl = some (deliver_read (read_record_at mc malloc dc.disk offset rl))

    -- `GetRecordByOffset`
    pub get_record_by_offset : DataChunk → ℕ → BeansdbRl → Option (GetResult × BeansdbRl)
    unfolding get_from
    get_record_by_offset dc offset rl = get_from (find_in_buffer dc offset) dc offset rl

    -- `GetRecordByPos`
    unfoldable pub get_record_by_pos :
        DataStore → ℕ → ℕ → BeansdbRl → Option (GetResult × BeansdbRl)
    get_record_by_pos ds chunk offset rl =
        Opt.bind (get_elem? ds.chunks chunk) (λ dc. get_record_by_offset dc offset rl)
