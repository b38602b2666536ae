-- ===== src/Data/Store/Append.antt =====
-- Appends to the store of store/data.go, and the reads that follow them.
use gobeansdb.Base.{
  ℕ, ◌+◌, ◌%◌, ◌^◌, ◌<◌, ◌≤◌, ◌≡◌, ◌≢◌, ◌⊎◌, set, Option, none, ◌==◌, ltb→lt, get_elem?-set, refl,
  sym, ap, ◌∙◌, arith, Bool, true, false, inl, inr, Bool-cases, some, List, [], ◌∷◌, ◌++◌,
  get_elem?, ltb, if◌then◌else◌, get_elem?-some, get_elem?-set_self,
}
use gobeansdb.Base.Int.{pos}
use gobeansdb.Config.{HStoreConfig}
use gobeansdb.Cmem.{BeansdbRl}
use gobeansdb.Record.{Rec, sizes}
use gobeansdb.Record.Header.{IsStorable}
use gobeansdb.Data.{DataChunk, append_record}
use gobeansdb.Data.Chunk.{Represents, placed, total, total-append, append_record-Represents}
use gobeansdb.Data.Store.{DataStore, Appended, append_locked, append_at, appended_to, next_place}
use mathlib.Core.Option as Opt

-- The result of an append to the file `chunk`, which held the records `flushed` on disk and `pending` in
-- its buffer: the record is the last of its buffer, the position is where the file went on, no other file
-- changes, and `old` is the file to flush.
pub record Landed (ds : DataStore) (rec : Rec) (limit chunk : ℕ) (flushed pending : List Rec)
    (old : Option ℕ) (a : Appended) : Type 0 where
  pub dc : DataChunk
  pub there : get_elem? a.store.chunks chunk ≡ some dc
  pub held : Represents dc flushed (pending ++ (rec ∷ []))
  pub bounded : dc.writing_head ≤ limit
  pub at : a.at ≡ record { chunk_id = pos chunk; offset = total flushed + total pending }
  pub new_head : a.store.new_head ≡ chunk
  pub others : (i : ℕ) → chunk ≢ i → get_elem? a.store.chunks i ≡ get_elem? ds.chunks i
  pub wbuf_size : a.store.wbuf_size ≡ (ds.wbuf_size + (sizes rec).1) % 2 ^ 32
  pub to_flush : a.to_flush ≡ old

module _ (conf : HStoreConfig) (flush_wake : ℕ) (ds : DataStore) (rec : Rec) (rl : BeansdbRl) where
  -- The place where the sum does not overflow.
  next_place_small :
      (head size : ℕ) (full : Bool)
      → conf.data_file_max < 2 ^ 32
      → head + size < 2 ^ 32
      → ltb conf.data_file_max (head + size) ≡ full
      → next_place conf flush_wake ds head size
        ≡ (if full then (ds.new_head + 1, 0) else (ds.new_head, head))
  unfolding next_place
  next_place_small head size full small sum test =
      let limit : conf.data_file_max % 2 ^ 32 ≡ conf.data_file_max = omega (arith, small) in
      let exact : (head + size) % 2 ^ 32 ≡ head + size = omega (arith, sum) in
      rw (limit, exact, test) refl

  -- The append, once the place is known.
  place_known :
      (head dc : DataChunk) (chunk offset : ℕ)
      → get_elem? ds.chunks ds.new_head ≡ some head
      → next_place conf flush_wake ds head.writing_head (sizes rec).1 ≡ (chunk, offset)
      → get_elem? ds.chunks chunk ≡ some dc
      → append_locked conf flush_wake ds rec rl
        ≡ some (
            appended_to conf flush_wake ds rec rl
              (record { chunk_id = pos chunk; offset = offset })
              chunk
              dc)
  unfolding append_locked append_at Opt.bind
  place_known head dc chunk offset h p d = rw (h, p, d) refl

  -- What an append to a chunk in its place makes of it.
  landed :
      (dc : DataChunk) (chunk : ℕ) (flushed pending : List Rec) (old : Option ℕ)
      → get_elem? ds.chunks dc.chunkid ≡ some dc
      → dc.chunkid ≡ chunk
      → (if dc.chunkid == ds.new_head then none else some ds.new_head) ≡ old
      → Represents dc flushed pending
      → IsStorable rec
      → conf.data_file_max < 2 ^ 32
      → total flushed + total pending + (sizes rec).1 ≤ conf.data_file_max
      → Landed ds rec conf.data_file_max chunk flushed pending old (
          appended_to conf flush_wake ds rec rl
            (record { chunk_id = pos dc.chunkid; offset = dc.writing_head })
            dc.chunkid
            dc)
  landed dc chunk flushed pending old there place flushes h good small fits =
      let held =
        append_record-Represents dc flushed pending h rec good (omega (arith, small, fits)) in
      let new_dc : DataChunk = append_record dc (placed dc.chunkid dc.writing_head rec) in
      record {
        dc = new_dc;
        there =
            (λ i. get_elem? (set ds.chunks dc.chunkid new_dc) (sym place i))
            ∙ get_elem?-set_self ds.chunks dc.chunkid new_dc
                (get_elem?-some ds.chunks dc.chunkid dc there);
        held = held;
        bounded = omega (arith, held.head, total-append pending (rec ∷ []), fits);
        at = λ i. record { chunk_id = pos (place i); offset = h.head i };
        new_head = place;
        others = λ i ne. get_elem?-set ds.chunks dc.chunkid i new_dc (λ e. ne (sym place ∙ e));
        wbuf_size = refl;
        to_flush = flushes;
      }

  -- Where the newest file and the one behind it are in their places, the newest holds some records within
  -- the limit on the size of a file and the one behind it none, an append of a storable record no larger
  -- than that limit, which with the record's size is below 4 GB, gives a position. If the record would
  -- bring the newest file over the limit, it is the only one in the buffer of the file behind, which
  -- becomes the newest, its position is the start of that file, and the file that was the newest is to
  -- be flushed. Otherwise it is the last in the buffer of the newest file, its position is where that
  -- file went on, and nothing is to be flushed. The files the record did not go to are as they were, the
  -- size that waits has grown by the record's, modulo 2 ^ 32, and the file with the record stays within
  -- the limit.
  pub append_locked-Landed :
      (head next : DataChunk) (flushed pending : List Rec)
      → get_elem? ds.chunks ds.new_head ≡ some head
      → head.chunkid ≡ ds.new_head
      → Represents head flushed pending
      → get_elem? ds.chunks (ds.new_head + 1) ≡ some next
      → next.chunkid ≡ ds.new_head + 1
      → Represents next [] []
      → IsStorable rec
      → head.writing_head ≤ conf.data_file_max
      → (sizes rec).1 ≤ conf.data_file_max
      → conf.data_file_max + (sizes rec).1 < 2 ^ 32
      → (a : Appended) × (append_locked conf flush_wake ds rec rl ≡ some a)
        × (((conf.data_file_max < head.writing_head + (sizes rec).1)
              × Landed ds rec conf.data_file_max (ds.new_head + 1) [] [] (some ds.new_head) a)
            ⊎ ((head.writing_head + (sizes rec).1 ≤ conf.data_file_max)
                × Landed ds rec conf.data_file_max ds.new_head flushed pending none a))
  append_locked-Landed head next flushed pending h hid held n nid empty good within fits small =
      let p = next_place_small head.writing_head (sizes rec).1 in
      let low : conf.data_file_max < 2 ^ 32 = omega (arith, small) in
      let sum : head.writing_head + (sizes rec).1 < 2 ^ 32 = omega (arith, small, within) in
      let at_next = ap (get_elem? ds.chunks) nid ∙ n in
      let at_head = ap (get_elem? ds.chunks) hid ∙ h in
      elim (Bool-cases (ltb conf.data_file_max (head.writing_head + (sizes rec).1))) [
        | inl full ↦ (
          appended_to conf flush_wake ds rec rl
              (record { chunk_id = pos next.chunkid; offset = next.writing_head }) next.chunkid
              next,
          place_known head next next.chunkid next.writing_head h
              (p true low sum full ∙ (λ i. (sym nid i, sym empty.head i))) at_next,
          inl (
            ltb→lt conf.data_file_max (head.writing_head + (sizes rec).1) full,
            landed next (ds.new_head + 1) [] [] (some ds.new_head) at_next nid (ground (arith, nid))
                empty good low (omega (arith, fits)),
          ),
        )
        | inr room ↦ (
          appended_to conf flush_wake ds rec rl
              (record { chunk_id = pos head.chunkid; offset = head.writing_head }) head.chunkid
              head,
          place_known head head head.chunkid head.writing_head h
              (p false low sum room ∙ (λ i. (sym hid i, head.writing_head))) at_head,
          inr (
            ground (arith, room),
            landed head ds.new_head flushed pending none at_head hid (ground (arith, hid)) held good
                low (ground (arith, room, held.head)),
          ),
        )
      ]
