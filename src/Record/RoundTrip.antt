-- ===== src/Record/RoundTrip.antt =====
-- readRecordAt of store/datafile.go on what `append` wrote.
use gobeansdb.Base.{
  ℕ, ◌+◌, ◌%◌, ◌^◌, ◌<◌, ◌≡◌, ◌≢◌, refl, sym, ap, ◌∙◌, arith, true, List, ◌++◌, length,
  length-append, take, drop, take-append, drop-append,
}
use gobeansdb.Config.{McConfig, is_valid_key_size, is_valid_value_size}
use gobeansdb.Cmem
use gobeansdb.Cmem.{CArray, BeansdbRl}
use gobeansdb.Cmem.Balance.{alloc_granted}
use gobeansdb.Record.{
  Rec, WriteRecord, ok, read_record_at, read_sized, check_crc, with_kv, get_crc, wrap_record,
  write_some,
}
use gobeansdb.Crc.{crc32_write, new_crc32, crc32_get}
use gobeansdb.Record.Header.{
  IsStorable, header_of, crc_of, padding_of, stored, stored_lem, decoded, decode-header_of,
}
use gobeansdb.Record.Steps.{check_crc_ok, counted, read_kv_full, read_sized_valid, read_head_full}
use mathlib.Core.List.{append_assoc}

-- What a reader sees of a record.
pub record SameContent (a b : Rec) : Type 0 where
  pub key : a.key ≡ b.key
  pub body : a.payload.body ≡ b.payload.body
  pub ts : a.payload.ts ≡ b.payload.ts
  pub flag : a.payload.flag ≡ b.payload.flag
  pub ver : a.payload.ver ≡ b.payload.ver

-- The record of the buffer with the bytes of its value in another array.
pub with_copy-SameContent :
    (rec : Rec) (arr : CArray)
    → arr.body ≡ rec.payload.body
    → SameContent
        (record (wrap_record rec).rec {
          payload = record (wrap_record rec).rec.payload { array = arr };
        })
        rec
unfolding wrap_record
with_copy-SameContent rec arr e = record {
  key = refl;
  body = e;
  ts = refl;
  flag = refl;
  ver = refl;
}

pub crc_of-lt : (rec : Rec) → crc_of rec < 2 ^ 32
unfolding get_crc
crc_of-lt rec = omega arith

-- The CRC of the header of `rec` with a key and a value.
abbrev pub crc_with : Rec → List ℕ → List ℕ → ℕ
crc_with rec key body =
    crc32_get (write_some (write_some (crc32_write new_crc32 (drop 4 (header_of 0 rec))) key) body)

pub crc_of_lem : (rec : Rec) → crc_of rec ≡ crc_with rec rec.key rec.payload.body
unfolding get_crc wrap_record
crc_of_lem rec = refl

-- The CRC that a read computes, whatever CRC the header holds.
pub crc_of_with :
    (crc : ℕ) (rec : Rec) (kv : CArray) (key body : List ℕ)
    → length rec.key ≡ length key
    → crc_with rec key body ≡ get_crc (with_kv (decoded crc rec) (record kv { body = key ++ body }))
unfolding get_crc
crc_of_with crc rec kv key body e = λ i.
    crc_with rec (sym (take-append key body (length rec.key) e) i)
      (sym (drop-append key body (length rec.key) e) i)

pub stored-append :
    (rec : Rec) (post : List ℕ)
    → IsStorable rec
    → stored rec ++ post
      ≡ header_of (crc_of rec) rec ++ (rec.key ++ (rec.payload.body ++ (padding_of rec ++ post)))
stored-append rec post h = ap (λ t. t ++ post) (stored_lem rec h) ∙ simp append_assoc

module _ (conf : McConfig) (malloc : ℕ → ℕ) where
  -- The key and value sizes pass the checks, and memory for them is granted.
  pub record IsReadable (rec : Rec) : Type 0 where
    pub key : is_valid_key_size conf (length rec.key) ≡ true
    pub value : is_valid_value_size conf (length rec.payload.body) ≡ true
    pub memory : (n : ℕ) → malloc n ≢ 0

  -- Where a header of `rec` stands with any CRC, and any key and value of the sizes that it names,
  -- the read comes down to the CRC test.
  pub read_to_crc :
      (rec : Rec) (crc : ℕ) (key body pre post : List ℕ) (rl : BeansdbRl)
      → IsStorable rec
      → IsReadable rec
      → crc < 2 ^ 32
      → length key ≡ length rec.key
      → length body ≡ length rec.payload.body
      → (kv : CArray) × (rl' : BeansdbRl) × (read_record_at conf malloc
            (pre ++ (header_of crc rec ++ (key ++ (body ++ post))))
            (length pre)
            rl
          ≡ check_crc (with_kv (decoded crc rec) (record kv { body = key ++ body })) rl')
  read_to_crc rec crc key body pre post rl h r hc ek eb =
      let n : ℕ = (length rec.key + length rec.payload.body) % 2 ^ 32 in
      let (kv, rl', granted) = alloc_granted conf malloc Cmem.empty_array n rl r.memory in
      let rest : List ℕ = key ++ (body ++ post) in
      let file : List ℕ = pre ++ (header_of crc rec ++ rest) in
      let at_header : drop (length pre) file ≡ header_of crc rec ++ rest =
        drop-append pre (header_of crc rec ++ rest) (length pre) refl in
      let whole : pre ++ (header_of crc rec ++ rest) ≡ (pre ++ header_of crc rec) ++ rest =
        sym (append_assoc pre (header_of crc rec) rest) in
      let at_kv : drop (length pre + 24) file ≡ rest =
        ap (drop (length pre + 24)) whole
        ∙ drop-append (pre ++ header_of crc rec) rest (length pre + 24)
            (sym (length-append pre (header_of crc rec))) in
      let full : length (key ++ body) ≡ n =
        length-append key body ∙ omega (arith, ek, eb, h.size) in
      let bytes : take n (drop (length pre + 24) file) ≡ key ++ body =
        ap (take n) (at_kv ∙ sym (append_assoc key body post))
        ∙ take-append (key ++ body) post n (sym full) in
      (
        kv,
        counted rl' kv,
        read_head_full conf malloc file (header_of crc rec) (length pre) rl (ap (take 24) at_header)
              refl
            ∙ (λ i. read_sized conf malloc file (length pre) (decode-header_of crc rec hc h i) rl)
            ∙ read_sized_valid conf malloc file (length pre) (decoded crc rec) kv rl rl' r.key
                r.value granted
            ∙ read_kv_full file (key ++ body) (length pre) n (decoded crc rec) kv rl' bytes full,
      )

  -- A record whose fields fit, whose sizes are valid and for which memory is granted is read back
  -- from any place of any file, with its key, value, time stamp, flags and version.
  pub read_record_at-append :
      (rec : Rec) (pre post : List ℕ) (rl : BeansdbRl)
      → IsStorable rec
      → IsReadable rec
      → (w : WriteRecord) × ((read_record_at conf malloc
            (pre ++ (stored rec ++ post))
            (length pre)
            rl).0
          ≡ ok w)
        × SameContent w.rec rec
  read_record_at-append rec pre post rl h r =
      let (kv, rl', e) =
        read_to_crc rec (crc_of rec) rec.key rec.payload.body pre (padding_of rec ++ post) rl h r
          (crc_of-lt rec) refl refl in
      let w : WriteRecord =
        with_kv (decoded (crc_of rec) rec) (record kv { body = rec.key ++ rec.payload.body }) in
      let good : w.crc ≡ get_crc w =
        crc_of_lem rec ∙ crc_of_with (crc_of rec) rec kv rec.key rec.payload.body refl in
      (
        w,
        ap (λ f. (read_record_at conf malloc (pre ++ f) (length pre) rl).0)
              (stored-append rec post h)
            ∙ ap (λ p. p.0) (e ∙ check_crc_ok w rl' good),
        record {
          key = take-append rec.key rec.payload.body _ refl;
          body = drop-append rec.key rec.payload.body _ refl;
          ts = refl;
          flag = refl;
          ver = refl;
        },
      )
