-- ===== src/Compress/RoundTrip.antt =====
-- TryCompress and Decompress of store/item.go, one after the other.
use gobeansdb.Base.{
  ℕ, ◌+◌, ◌/◌, ◌%◌, ◌^◌, ◌<◌, ◌≡◌, refl, arith, Bool, true, false, not, inl, inr, ◌||◌, Bool-cases,
  Option, none, some, List, length, take, ltb, leb, if◌then◌else◌, le→ltb_false, ltb→lt, lt→ltb,
  length-take,
}
use gobeansdb.Base.Int.{pos, ltb_ℤ}
use gobeansdb.Cmem.{CArray, BeansdbRl, free}
use gobeansdb.Record.{Rec, sizes}
use gobeansdb.Compress.{
  Compressor, is_compressed, is_client_compressed, try_compress, try_part, adopt_whole, adopt,
  decompress, decompressed, try_compress_size, part_of,
}

-- What quicklz promises: what it compressed it decompresses to the same bytes.
abbrev pub Lossless : Compressor → Type 0
Lossless c =
    (body : List ℕ) (rl rl' rl'' : BeansdbRl) (arr : CArray)
    → c.c_compress body rl ≡ (some arr, rl')
    → (back : CArray) × (rl''' : BeansdbRl) × (c.c_decompress arr.body rl'' ≡ (some back, rl'''))
      × (back.body ≡ body)

-- The payload of the result `r` decompresses, with no error, to the body and the flags of `rec`.
pub record Restores (c : Compressor) (rec : Rec) (after : BeansdbRl) (r : Rec × BeansdbRl)
    : Type 0 where
  pub no_error : (decompress c r.0.payload after).1 ≡ true
  pub body_back : (decompress c r.0.payload after).0.body ≡ rec.payload.body
  pub flag_back : (decompress c r.0.payload after).0.flag ≡ rec.payload.flag

marks :
    (flag : ℕ)
    → is_compressed flag ≡ false
    → flag < 2 ^ 32
    → is_compressed ((flag + 0x0001_0000) % 2 ^ 32) ≡ true
marks flag plain fits = ground arith

module _ (c : Compressor) (rec : Rec) (after : BeansdbRl) where
  abbrev Good : Rec × BeansdbRl → Type 0
  Good r = Restores c rec after r

  module _ (plain : is_compressed rec.payload.flag ≡ false) (fits : rec.payload.flag < 2 ^ 32) where
    untouched : (rl : BeansdbRl) → Good (rec, rl)
    unfolding decompress
    untouched rl = record { no_error = rw plain; body_back = rw plain; flag_back = rw plain }

    adopted :
        (lossless : Lossless c) (arr : CArray) (rl rl' rl'' : BeansdbRl)
        → c.c_compress rec.payload.body rl ≡ (some arr, rl')
        → Good (adopt rec arr rl'')
    unfolding decompress decompressed
    adopted lossless arr rl rl' rl'' e =
        let (back, rl3, same, body) = lossless rec.payload.body rl rl' after arr e in
        let marked : is_compressed ((rec.payload.flag + 0x0001_0000) % 2 ^ 32) ≡ true =
          marks rec.payload.flag plain fits in
        let bit : rec.payload.flag / 2 ^ 16 % 2 ≡ 0 = ground (arith, plain) in
        record {
          no_error = rw (marked, same);
          body_back = rw (marked, same) body;
          flag_back = rw (marked, same) (omega (arith, fits, bit));
        }

    compress_cases :
        (lossless : Lossless c) (body : List ℕ) (rl : BeansdbRl)
        → (P : Option CArray × BeansdbRl → Type 0) → ((rl' : BeansdbRl) → P (none, rl'))
        → ((arr : CArray) (rl' : BeansdbRl)
            → c.c_compress body rl ≡ (some arr, rl')
            → P (some arr, rl'))
        → P (c.c_compress body rl)
    compress_cases lossless body rl P no_ yes_ = go (c.c_compress body rl) refl
      where
        go : (r : Option CArray × BeansdbRl) → c.c_compress body rl ≡ r → P r
        go (none, rl') e = no_ rl'
        go (some arr, rl') e = yes_ arr rl' e

    whole-Good :
        (lossless : Lossless c) (rl : BeansdbRl)
        → Good (adopt_whole rec (c.c_compress rec.payload.body rl))
    unfolding adopt_whole
    whole-Good lossless rl =
        compress_cases lossless rec.payload.body rl (λ r. Good (adopt_whole rec r)) untouched
          (λ arr rl' e. adopted lossless arr rl rl' rl' e)

    either : (b : Bool) (r s : Rec × BeansdbRl) → Good r → Good s → Good (if b then r else s)
    either true r s g h = g
    either false r s g h = h

    -- Where the part tried is the whole body, and where it is shorter.
    part_whole :
        (lossless : Lossless c) (rl : BeansdbRl)
        → Good (try_part c rec rec.payload.body (c.c_compress rec.payload.body rl))
    unfolding try_part
    part_whole lossless rl =
        compress_cases lossless rec.payload.body rl (λ r. Good (try_part c rec rec.payload.body r))
          untouched
          (λ arr rl' e.
            rw (le→ltb_false (length rec.payload.body) (length rec.payload.body) (omega arith)) (
              either (c.over_limit (length arr.body) (length rec.payload.body)) _ _
                (untouched (free arr rl').1) (adopted lossless arr rl rl' rl' e)))

    part_shorter :
        (lossless : Lossless c) (try : List ℕ) (rl : BeansdbRl)
        → ltb (length try) (length rec.payload.body) ≡ true
        → Good (try_part c rec try (c.c_compress try rl))
    unfolding try_part
    part_shorter lossless try rl shorter =
        compress_cases lossless try rl (λ r. Good (try_part c rec try r)) untouched
          (λ arr rl' e. rw shorter (
            either (c.over_limit (length arr.body) (length try)) _ _ (untouched (free arr rl').1)
              (whole-Good lossless (free arr rl').1)))

    tried :
        (lossless : Lossless c) (rl : BeansdbRl)
        → Good
            (try_part c rec (part_of rec.payload.body) (c.c_compress (part_of rec.payload.body) rl))
    tried lossless rl = elim (Bool-cases (ltb try_compress_size (length rec.payload.body))) [
      | inr small ↦ rw small (part_whole lossless rl)
      | inl large ↦
          let shorter : ltb (length (take try_compress_size rec.payload.body))
                (length rec.payload.body)
              ≡ true =
            lt→ltb _ _ (
              omega (
                arith,
                length-take try_compress_size rec.payload.body,
                ltb→lt try_compress_size (length rec.payload.body) large,
              )) in
          rw large (part_shorter lossless (take try_compress_size rec.payload.body) rl shorter)
    ]

    -- For a compressor that loses nothing, whatever `TryCompress` does to a record not yet compressed,
    -- with flags of 32 bits: `Decompress` of its payload has no error, and gives back the body and the
    -- flags of the record.
    pub try_compress-Restores :
        (lossless : Lossless c) (rl : BeansdbRl) → Restores c rec after (try_compress c rec rl)
    unfolding try_compress
    try_compress-Restores lossless rl = either (ltb_ℤ rec.payload.ver (pos 0)) _ _ (untouched rl) (
        either (is_client_compressed rec.payload.flag || is_compressed rec.payload.flag) _ _
          (untouched rl)
          (either (leb (sizes rec).1 256) _ _ (untouched rl) (
            either (not (c.need_compress (part_of rec.payload.body))) _ _ (untouched rl)
              (tried lossless rl))))
