-- ===== src/Data/Store/Unpack.antt =====
-- The end of GetRecordByOffset of store/datachunk.go: the record that is given out, for each way in
-- which Decompress ends.
use gobeansdb.Base.{
  ℕ, ◌+◌, ◌-◌, ◌%◌, ◌^◌, ◌≡◌, refl, sym, ap, ◌∙◌, Bool, true, false, inl, inr, Bool-cases, Option,
  none, some, List,
}
use gobeansdb.Base.Int.{pos}
use gobeansdb.Cmem.{CArray, BeansdbRl, add_size, free}
use gobeansdb.Record.{Rec}
use gobeansdb.Record.RoundTrip.{SameContent}
use gobeansdb.Compress.{
  Compressor, is_compressed, flag_compress, with_array, decompress, decompressed,
}
use gobeansdb.Compress.RoundTrip.{Restores}
use gobeansdb.Compress.Keeps.{Keeps}
use mathlib.Core.Bool.{false≢true}
use gobeansdb.Data.Store.{GetResult, got, deliver, diff}

module _ (c : Compressor) (size_decompressed : List ℕ → ℕ) where
  -- The record `w` that is given out for a record `r` whose value was read into `array`, and the
  -- counters behind it: a record that is not compressed as it is; a compressed one with the bytes that
  -- the decompression gave and without its flag, the old array freed; and where the decompression
  -- failed, the record as it is.
  pub data Unpacked (r : Rec) (array : CArray) (rl : BeansdbRl) (w : Rec) (rl2 : BeansdbRl)
      : Type 0 where
    as_stored :
        is_compressed r.payload.flag ≡ false
        → SameContent w r
        → rl2 ≡ record rl { get_data = add_size rl.get_data (pos 0) }
        → Unpacked r array rl w rl2
    unpacked :
        (arr : CArray) (s s' : BeansdbRl)
        → is_compressed r.payload.flag ≡ true
        → s ≡ record rl {
          get_data = add_size rl.get_data (diff (size_decompressed array.body) array.cap);
        }
        → c.c_decompress r.payload.body s ≡ (some arr, s')
        → SameContent w (record r {
          payload = with_array r.payload arr ((r.payload.flag + 2 ^ 32 - flag_compress) % 2 ^ 32);
        })
        → rl2 ≡ (free array s').1
        → Unpacked r array rl w rl2
    damaged :
        (s s' : BeansdbRl)
        → is_compressed r.payload.flag ≡ true
        → s ≡ record rl {
          get_data = add_size rl.get_data (diff (size_decompressed array.body) array.cap);
        }
        → c.c_decompress r.payload.body s ≡ (none, s')
        → SameContent w r
        → rl2 ≡ s'
        → Unpacked r array rl w rl2

  abbrev Given : Rec → Rec → Bool → BeansdbRl → GetResult × BeansdbRl → Type 0
  Given r w0 inbuffer rl x =
      (w : Rec) × (rl2 : BeansdbRl) × (x ≡ (got w inbuffer, rl2))
      × Unpacked r w0.payload.array rl w rl2

  -- A record with the content of `r` is given out as `r` has to be.
  pub deliver-Unpacked :
      (r w0 : Rec) (inbuffer : Bool) (rl : BeansdbRl)
      → SameContent w0 r
      → Given r w0 inbuffer rl (deliver c size_decompressed w0 inbuffer rl)
  unfolding deliver decompress
  deliver-Unpacked r w0 inbuffer rl same = elim (Bool-cases (is_compressed w0.payload.flag)) [
    | inr plain ↦
        let plain' : is_compressed r.payload.flag ≡ false =
          ap is_compressed (sym same.flag) ∙ plain in
        let rl2 : BeansdbRl = record rl { get_data = add_size rl.get_data (pos 0) } in
        (w0, rl2, rw plain refl, as_stored plain' same refl)
    | inl packed ↦ rw packed (go packed (c.c_decompress w0.payload.body counted) refl)
  ]
    where
      counted : BeansdbRl
      counted = record rl {
        get_data = add_size rl.get_data (diff (size_decompressed w0.payload.body) w0.payload.cap);
      }

      go :
          (packed : is_compressed w0.payload.flag ≡ true) (x : Option CArray × BeansdbRl)
          → c.c_decompress w0.payload.body counted ≡ x
          → Given r w0 inbuffer rl (
            got (record w0 { payload = (decompressed w0.payload x).0 }) inbuffer,
            (decompressed w0.payload x).2,
          )
      go packed (none, s') e =
          unfold decompressed in
          (
            w0,
            s',
            refl,
            damaged counted s' (ap is_compressed (sym same.flag) ∙ packed) refl
                (ap (λ b. c.c_decompress b counted) (sym same.body) ∙ e) same refl,
          )
      go packed (some arr, s') e =
          unfold decompressed in
          (
            record w0 {
              payload =
                  with_array w0.payload arr ((w0.payload.flag + 2 ^ 32 - flag_compress) % 2 ^ 32);
            },
            (free w0.payload.array s').1,
            refl,
            unpacked arr counted s' (ap is_compressed (sym same.flag) ∙ packed) refl
                (ap (λ b. c.c_decompress b counted) (sym same.body) ∙ e)
                (record {
                  key = same.key;
                  body = refl;
                  ts = same.ts;
                  flag = ap (λ (f : ℕ). (f + 2 ^ 32 - flag_compress) % 2 ^ 32) same.flag;
                  ver = same.ver;
                })
                refl,
          )

  -- What is given out for a record that decompresses to `rec` is `rec`.
  pub Unpacked-SameContent :
      (rec r : Rec) (rl0 : BeansdbRl) (array : CArray) (rl : BeansdbRl) (w : Rec) (rl2 : BeansdbRl)
      → ((after : BeansdbRl) → Restores c rec after (r, rl0))
      → Keeps rec r
      → Unpacked r array rl w rl2
      → SameContent w rec
  unfolding decompress decompressed
  Unpacked-SameContent rec r rl0 array rl w rl2 back keeps (as_stored plain same _) = record {
    key = same.key ∙ keeps.key;
    body = same.body ∙ rw plain at (back rl).body_back;
    ts = same.ts ∙ keeps.ts;
    flag = same.flag ∙ rw plain at (back rl).flag_back;
    ver = same.ver ∙ keeps.ver;
  }
  Unpacked-SameContent rec r rl0 array rl w rl2 back keeps (unpacked arr s s' packed _ e same _) =
      record {
        key = same.key ∙ keeps.key;
        body = same.body ∙ rw (packed, e) at (back s).body_back;
        ts = same.ts ∙ keeps.ts;
        flag = same.flag ∙ rw (packed, e) at (back s).flag_back;
        ver = same.ver ∙ keeps.ver;
      }
  Unpacked-SameContent rec r rl0 array rl w rl2 back keeps (damaged s s' packed _ e same _) =
      absurd (false≢true (rw (packed, e) at (back s).no_error))
