-- ===== src/Record/Stream/Next.antt =====
-- `Next` of store/datafile.go on a record that `append` wrote.
use gobeansdb.Base.{
  ℕ, ◌+◌, ◌-◌, ◌%◌, ◌^◌, ◌<◌, ◌≡◌, refl, sym, ap, ◌∙◌, arith, true, false, none, some, inl, inr,
  Bool-cases, List, ◌++◌, length, length-append, length-replicate, take, drop, take-append,
  drop-append, ltb, le→ltb_false, ◌==◌, ==_iff, not, if◌then◌else◌,
}
use gobeansdb.Config.{McConfig, is_valid_key_size, is_valid_value_size}
use gobeansdb.Cmem.{BeansdbRl}
use gobeansdb.Record.{
  Rec, WriteRecord, sizes, set_rec_size, get_crc, decode_header, wrap_record, new_write_record,
}
use gobeansdb.Record.Sizes.{raw_size, IsRounded, sizes_lem}
use gobeansdb.Record.Header.{
  IsStorable, header_of, crc_of, padding_of, stored, decoded, decode-header_of,
}
use gobeansdb.Record.RoundTrip.{IsReadable, SameContent, crc_of-lt, stored-append}
use gobeansdb.Record.Stream.{StreamReader, next, next_sized, next_checked, with_key_value}

-- The padding is what `Next` discards.
discard_lem :
    (rec : Rec) (post : List ℕ)
    → raw_size rec < 2 ^ 32 - 256
    → (if not (((sizes rec).0 % 256) == 0)
        then drop (256 - (sizes rec).0 % 256) (padding_of rec ++ post)
        else padding_of rec ++ post)
      ≡ post
discard_lem rec post h = elim (Bool-cases (((sizes rec).0 % 256) == 0)) [
  | inl whole ↦ rw whole (
      drop-append (padding_of rec) post 0 (
        omega (
          arith,
          (==_iff _ _).0 whole,
          exact,
          rounded.aligned,
          rounded.covers,
          rounded.tight,
          len,
        )))
  | inr partial ↦ rw partial (
      drop-append (padding_of rec) post _
        (ground (arith, partial, exact, rounded.aligned, rounded.covers, rounded.tight, len)))
]
  where
    exact : (sizes rec).0 ≡ raw_size rec
    exact = (sizes_lem rec h).0

    rounded : IsRounded (raw_size rec) (sizes rec).1
    rounded = (sizes_lem rec h).1

    len : length (padding_of rec) ≡ (sizes rec).1 - raw_size rec
    len = length-replicate _ 0

module _ (conf : McConfig) (malloc : ℕ → ℕ) where
  next_head_full :
      (header rest : List ℕ) (stream : StreamReader) (rl : BeansdbRl)
      → stream.rest ≡ header ++ rest
      → length header ≡ 24
      → next conf malloc stream rl
        ≡ next_sized conf malloc
            (decode_header (record new_write_record { header = header }) header)
            rest
            stream
            rl
  unfolding next
  next_head_full header rest stream rl e l =
      let len : length stream.rest ≡ 24 + length rest =
        ap length e ∙ omega (arith, l, length-append header rest) in
      let front : take 24 stream.rest ≡ header =
        ap (take 24) e ∙ take-append header rest 24 (sym l) in
      let back : drop 24 stream.rest ≡ rest = ap (drop 24) e ∙ drop-append header rest 24 (sym l) in
      let some_left : (length stream.rest == 0) ≡ false = ground (arith, len) in
      rw (some_left, le→ltb_false (length stream.rest) 24 (omega (arith, len)), front, back)

  next_sized_full :
      (w : WriteRecord) (key body rest : List ℕ) (stream : StreamReader) (rl : BeansdbRl)
      → is_valid_key_size conf w.ksz ≡ true
      → is_valid_value_size conf w.vsz ≡ true
      → length key ≡ w.ksz
      → length body ≡ w.vsz
      → next_sized conf malloc w (key ++ (body ++ rest)) stream rl
        ≡ next_checked conf malloc (with_key_value conf malloc w key body) rest stream rl
  unfolding next_sized
  next_sized_full w key body rest stream rl k v lk lb =
      let front : take w.ksz (key ++ (body ++ rest)) ≡ key =
        take-append key (body ++ rest) w.ksz (sym lk) in
      let behind : drop w.ksz (key ++ (body ++ rest)) ≡ body ++ rest =
        drop-append key (body ++ rest) w.ksz (sym lk) in
      let value : take w.vsz (body ++ rest) ≡ body = take-append body rest w.vsz (sym lb) in
      let left : drop w.vsz (body ++ rest) ≡ rest = drop-append body rest w.vsz (sym lb) in
      let whole_key : ltb (length (key ++ (body ++ rest))) w.ksz ≡ false =
        le→ltb_false _ _ (omega (arith, lk, length-append key (body ++ rest))) in
      let whole_body : ltb (length (body ++ rest)) w.vsz ≡ false =
        le→ltb_false _ _ (omega (arith, lb, length-append body rest)) in
      rw (k, v, whole_key, behind, whole_body, front, value, left)

  next_checked_good :
      (w : WriteRecord) (rest after : List ℕ) (stream : StreamReader) (rl : BeansdbRl)
      → w.crc ≡ get_crc w
      → (if not (((sizes w.rec).0 % 256) == 0)
          then drop (256 - (sizes w.rec).0 % 256) rest
          else rest)
        ≡ after
      → next_checked conf malloc w rest stream rl ≡ record {
        result = record {
          res = some (set_rec_size w.rec (sizes w.rec).1);
          offset = stream.offset;
          size_broken = 0;
          error = none;
        };
        stream = record stream {
          rest = after;
          offset = (stream.offset + (sizes w.rec).1) % 2 ^ 32;
        };
        rl = rl;
      }
  unfolding next_checked
  next_checked_good w rest after stream rl e d = rw (d, (==_iff w.crc (get_crc w)).1 e)

  -- The write record that `Next` fills for a stored record.
  abbrev filled : Rec → WriteRecord
  filled rec = with_key_value conf malloc (decoded (crc_of rec) rec) rec.key rec.payload.body

  filled_crc : (rec : Rec) → (filled rec).crc ≡ get_crc (filled rec)
  unfolding get_crc wrap_record
  filled_crc rec = refl

  -- From the start of a stored record whose fields fit, whose sizes are valid and for which memory is
  -- granted, `Next` delivers that record and its offset, with no error and nothing broken, and leaves
  -- the stream at the first byte behind the padding.
  pub next-stored :
      (rec : Rec) (post : List ℕ) (stream : StreamReader) (rl : BeansdbRl)
      → IsStorable rec
      → IsReadable conf malloc rec
      → stream.rest ≡ stored rec ++ post
      → (got : Rec) × (next conf malloc stream rl ≡ record {
        result = record { res = some got; offset = stream.offset; size_broken = 0; error = none };
        stream = record stream { rest = post; offset = (stream.offset + (sizes rec).1) % 2 ^ 32 };
        rl = rl;
      })
        × SameContent got rec
  unfolding sizes
  next-stored rec post stream rl h r e = (
    set_rec_size (filled rec).rec (sizes rec).1,
    next_head_full (header_of (crc_of rec) rec) _ stream rl (e ∙ stored-append rec post h) refl
        ∙ (λ i.
            next_sized conf malloc (decode-header_of (crc_of rec) rec (crc_of-lt rec) h i)
              (rec.key ++ (rec.payload.body ++ (padding_of rec ++ post))) stream rl)
        ∙ next_sized_full (decoded (crc_of rec) rec) rec.key rec.payload.body
            (padding_of rec ++ post) stream rl r.key r.value refl refl
        ∙ next_checked_good (filled rec) (padding_of rec ++ post) post stream rl (filled_crc rec)
            (discard_lem rec post h.size),
    record { key = refl; body = refl; ts = refl; flag = refl; ver = refl },
  )
