-- ===== src/Data/Tests.antt =====
-- Runs of the code of Data on a small chunk and a small store.
use gobeansdb.Base.{
  ℕ, suc, ◌+◌, ◌≡◌, ◌≢◌, refl, arith, true, false, none, some, [], ◌∷◌, length, leb, List, Option,
  ◌⊎◌, ◌<◌, ◌≤◌, replicate, ap, sym,
}
use gobeansdb.Base.Int.{pos}
use gobeansdb.Config.{McConfig, HStoreConfig, is_valid_key_size, is_valid_value_size}
use gobeansdb.Cmem.{CArray, BeansdbRl, reset, add_size_and_count, copy}
use gobeansdb.Record.{Rec, sizes, wrap_record, read_record_at}
use gobeansdb.Record.Header.{IsStorable}
use gobeansdb.Record.RoundTrip.{IsReadable, SameContent}
use gobeansdb.Compress.{Compressor, decompress, try_compress, try_part, flag_compress}
use gobeansdb.Data.{
  DataChunk, append_record, append_record_gc, gc_write, clear, begin_gc_writing, end_gc_writing,
  flush, found, find_in_buffer, get_disk_file_size,
}
use gobeansdb.Data.Search.{search, search_finds}
use gobeansdb.Data.Chunk.{
  Represents, placed, place, image, total, append_record-Represents, get_disk_file_size_lem,
  flush-Represents,
}
use gobeansdb.Data.Find.{find_in_buffer-pending}
use gobeansdb.Compress.RoundTrip.{Lossless}
use gobeansdb.Data.Store.Unpack.{Unpacked}
use gobeansdb.Data.Store.{
  got, DataStore, Appended, append_locked, append_to_store, flush_store, flush_chunk, deliver,
  get_record_by_offset, get_record_by_pos,
}
use gobeansdb.Data.Store.Append.{Landed, append_locked-Landed}
use gobeansdb.Data.Store.Read.{get_record_by_offset-flushed, get_record_by_offset-pending}
use gobeansdb.Data.Store.Cycle.{stored_chunk, packed, get_record_by_offset-stored_chunk}
use mathlib.Core.Option as Opt
use Prim.{tt}

abbrev rl : BeansdbRl
rl = record { alloc_rl = reset; get_data = reset; set_data = reset; flush_data = reset }

abbrev rec_of : ℕ → Rec
rec_of n = record {
  key = n ∷ 7 ∷ [];
  payload = record {
    meta = record { ts = n; flag = 0; ver = pos 1; value_hash = 0; rec_size = 0 };
    array = record { body = n ∷ n ∷ []; addr = 0; cap = 2 };
  };
}

rec_of-IsStorable : IsStorable (rec_of 1) × IsStorable (rec_of 2)
rec_of-IsStorable = (
  record { ts = omega arith; flag = omega arith; ver = omega arith; size = omega arith },
  record { ts = omega arith; flag = omega arith; ver = omega arith; size = omega arith },
)

-- The first record on disk, the second in the buffer.
abbrev chunk : DataChunk
chunk = record {
  chunkid = 0;
  disk = image (rec_of 1 ∷ []);
  size = 512;
  writing_head = 512;
  wbuf = place 0 256 (rec_of 2 ∷ []);
  rewriting = false;
  gc_writer = none;
}

chunk-Represents : Represents chunk (rec_of 1 ∷ []) (rec_of 2 ∷ [])
unfolding sizes
chunk-Represents = record {
  on_disk = refl;
  in_wbuf = refl;
  head = refl;
  size = refl;
  small = omega arith;
  whole = (rec_of-IsStorable.0, tt);
  waiting = (rec_of-IsStorable.1, tt);
}

totals : (total (rec_of 1 ∷ []) ≡ 256) × ((sizes (rec_of 1)).1 ≡ 256) × ((sizes (rec_of 2)).1 ≡ 256)
unfolding sizes
totals = (refl, refl, refl)

append_record-Represents_example :
    Represents
      (append_record chunk (placed 0 512 (rec_of 1)))
      (rec_of 1 ∷ [])
      (rec_of 2 ∷ rec_of 1 ∷ [])
append_record-Represents_example =
    append_record-Represents chunk (rec_of 1 ∷ []) (rec_of 2 ∷ []) chunk-Represents (rec_of 1)
      rec_of-IsStorable.0 (omega (arith, totals.1, totals.2))

get_disk_file_size_lem_example : get_disk_file_size chunk ≡ total (rec_of 1 ∷ [])
get_disk_file_size_lem_example =
    get_disk_file_size_lem chunk (rec_of 1 ∷ []) (rec_of 2 ∷ []) chunk-Represents

flush-Represents_example :
    Represents (flush chunk 1 false rl).0 (rec_of 1 ∷ rec_of 2 ∷ []) []
    × ((flush chunk 1 false rl).1 ≡ total (rec_of 2 ∷ []))
flush-Represents_example =
    flush-Represents chunk (rec_of 1 ∷ []) (rec_of 2 ∷ []) false rl 1 chunk-Represents

find_in_buffer-pending_example :
    find_in_buffer chunk (total (rec_of 1 ∷ []) + 0)
    ≡ found (placed 0 (total (rec_of 1 ∷ []) + 0) (rec_of 2))
find_in_buffer-pending_example =
    find_in_buffer-pending chunk (rec_of 1 ∷ []) [] [] (rec_of 2) chunk-Represents

search_finds_example : search 5 (λ i. leb 3 i) ≡ 3
search_finds_example = search_finds (λ i. leb 3 i) 3 5 (λ i h. refl) (omega arith)

abbrev mc : McConfig
mc = record {
  max_key_len = 250;
  max_req = 16;
  body_max = 1000;
  body_big = 500;
  body_in_c = 4;
  flush_max = 1000;
}

abbrev malloc : ℕ → ℕ
malloc n = suc n

malloc_lem : (n : ℕ) → malloc n ≢ 0
malloc_lem n e = cc

rec_of-IsReadable : IsReadable mc malloc (rec_of 1)
unfolding is_valid_key_size is_valid_value_size
rec_of-IsReadable = record { key = refl; value = refl; memory = malloc_lem }

abbrev plain : Compressor
plain = record {
  need_compress = λ part. false;
  over_limit = λ small large. true;
  c_compress = λ body state. (none, state);
  c_decompress = λ body state. (none, state);
}

get_record_by_offset-flushed_example :
    (w : Rec) × (arr : CArray) × (rl2 : BeansdbRl) × (get_record_by_offset plain length mc malloc
        chunk 0 rl
      ≡ some (got w false, rl2))
    × (arr.body ≡ 1 ∷ 1 ∷ [])
    × Unpacked plain length (rec_of 1) arr (read_record_at mc malloc chunk.disk 0 rl).1 w rl2
get_record_by_offset-flushed_example =
    get_record_by_offset-flushed plain length mc malloc chunk [] [] (rec_of 2 ∷ []) (rec_of 1) rl
      chunk-Represents rec_of-IsReadable

copied_lem :
    copy mc malloc (rec_of 2).payload.array rl
    ≡ (some (record { body = 2 ∷ 2 ∷ []; addr = 0; cap = 0 }), rl)
unfolding copy
copied_lem = refl

get_record_by_offset-pending_example :
    (w : Rec) × (rl2 : BeansdbRl) × (get_record_by_offset plain length mc malloc chunk
        (total (rec_of 1 ∷ []) + 0)
        rl
      ≡ some (got w true, rl2))
    × Unpacked plain length
        (rec_of 2)
        (record { body = 2 ∷ 2 ∷ []; addr = 0; cap = 0 })
        (record rl { get_data = add_size_and_count rl.get_data (pos 0) })
        w
        rl2
get_record_by_offset-pending_example =
    get_record_by_offset-pending plain length mc malloc chunk (rec_of 1 ∷ []) [] [] (rec_of 2)
      (record { body = 2 ∷ 2 ∷ []; addr = 0; cap = 0 }) rl rl chunk-Represents copied_lem

abbrev conf : HStoreConfig
conf = record {
  num_bucket = 16;
  data_file_max = 600;
  check_vhash = true;
  no_gc_days = 1;
  merge_interval = 1;
  split_cap = 1;
  tree_height = 3;
  tree_depth = 1;
  tree_key_hash_len = 7;
  tree_key_hash_mask = 1;
}

abbrev next_chunk : DataChunk
next_chunk = record (clear chunk) { chunkid = 1 }

next-Represents : Represents next_chunk [] []
next-Represents = record {
  on_disk = refl;
  in_wbuf = refl;
  head = refl;
  size = refl;
  small = omega arith;
  whole = tt;
  waiting = tt;
}

abbrev store : DataStore
store = record { chunks = chunk ∷ next_chunk ∷ []; new_head = 0; wbuf_size = 256 }

-- The first file is full: the record goes to the second.
append_locked-Landed_example :
    (a : Appended) × (append_locked conf 100 store (rec_of 1) rl ≡ some a)
    × (((600 < 512 + (sizes (rec_of 1)).1) × Landed store (rec_of 1) 600 1 [] [] (some 0) a)
        ⊎ ((512 + (sizes (rec_of 1)).1 ≤ 600)
            × Landed store (rec_of 1) 600 0 (rec_of 1 ∷ []) (rec_of 2 ∷ []) none a))
append_locked-Landed_example =
    append_locked-Landed conf 100 store (rec_of 1) rl chunk next_chunk (rec_of 1 ∷ [])
      (rec_of 2 ∷ []) refl refl chunk-Represents refl refl next-Represents rec_of-IsStorable.0
      (omega arith) (omega (arith, totals.1)) (omega (arith, totals.1))

-- A chunk that is rewritten in place is cut where the writing ends.
gc_in_place : (end_gc_writing (begin_gc_writing chunk 0)).size ≡ 0
unfolding begin_gc_writing end_gc_writing
gc_in_place = refl

gc_appends : (begin_gc_writing chunk 1).writing_head ≡ 512
unfolding begin_gc_writing
gc_appends = refl

append_record_gc_offset :
    append_record_gc (begin_gc_writing chunk 0) (wrap_record (rec_of 1)) ≢ none
unfolding append_record_gc gc_write begin_gc_writing
append_record_gc_offset e = cc

flush_idle :
    flush_store (record store { wbuf_size = 0 }) (pos 0) true false rl
    ≡ some (record store { wbuf_size = 0 }, rl)
unfolding flush_store
flush_idle = refl

append_outside : append_to_store conf 100 plain (record store { new_head = 2 }) (rec_of 1) rl ≡ none
unfolding append_to_store append_locked Opt.bind
append_outside = refl

flush_outside : flush_chunk store 2 rl ≡ none
unfolding flush_chunk Opt.bind
flush_outside = refl

get_outside : get_record_by_pos plain length mc malloc store 2 0 rl ≡ none
unfolding get_record_by_pos Opt.bind
get_outside = refl

deliver_flagless : (deliver plain length (rec_of 1) true rl).1.alloc_rl ≡ rl.alloc_rl
unfolding deliver decompress
deliver_flagless = refl

-- A compressor that puts a byte before the bytes, and takes it away.
unframe : List ℕ → BeansdbRl → Option CArray × BeansdbRl
unframe [] state = (none, state)
unframe (b ∷ body) state = (some (record { body = body; addr = 0; cap = length body }), state)

abbrev framed : Compressor
framed = record {
  need_compress = λ part. true;
  over_limit = λ small large. false;
  c_compress =
      λ body state. (some (record { body = 9 ∷ body; addr = 0; cap = suc (length body) }), state);
  c_decompress = unframe;
}

framed-Lossless : Lossless framed
unfolding unframe
framed-Lossless body s s' s'' arr e =
    let whole : 9 ∷ body ≡ arr.body = ap (λ p. body_or p.0) e in
    (
      record { body = body; addr = 0; cap = length body },
      s'',
      (λ i. unframe (sym whole i) s''),
      refl,
    )
  where
    body_or : Option CArray → List ℕ
    body_or none = []
    body_or (some a) = a.body

-- A record large enough to be compressed.
abbrev large : Rec
large = record (rec_of 1) {
  payload = record (rec_of 1).payload {
    array = record { body = replicate 300 5; addr = 0; cap = 300 };
  };
}

large-packed : (packed framed large rl).payload.flag ≡ flag_compress
unfolding try_compress try_part sizes
large-packed = refl

large-IsStorable : IsStorable (packed framed large rl)
unfolding try_compress try_part sizes
large-IsStorable = record {
  ts = omega arith;
  flag = omega arith;
  ver = omega arith;
  size = omega arith;
}

large-IsReadable : IsReadable mc malloc (packed framed large rl)
unfolding try_compress try_part sizes is_valid_key_size is_valid_value_size
large-IsReadable = record { key = refl; value = refl; memory = malloc_lem }

large_size : (sizes (packed framed large rl)).1 ≡ 512
unfolding try_compress try_part sizes
large_size = refl

get_record_by_offset-stored_chunk_example :
    (w : Rec) × (rl2 : BeansdbRl) × (get_record_by_offset framed length mc malloc
        (stored_chunk chunk (packed framed large rl) false rl)
        512
        rl
      ≡ some (got w false, rl2))
    × SameContent w large
get_record_by_offset-stored_chunk_example =
    get_record_by_offset-stored_chunk framed length mc malloc chunk (rec_of 1 ∷ []) (rec_of 2 ∷ [])
      large false rl rl rl framed-Lossless refl (omega arith) chunk-Represents large-IsStorable
      large-IsReadable (omega (arith, totals.1, totals.2, large_size))
