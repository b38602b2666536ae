-- ===== src/Record/Header.antt =====
-- store/datafile.go: the header of a record, and the whole of what `append` writes.
use gobeansdb.Base.{
  ℕ, ◌+◌, ◌-◌, ◌^◌, ◌<◌, ◌≡◌, refl, ◌∙◌, arith, true, not, ◌&&◌, ◌==◌, if◌then◌else◌, zero, suc,
  ◌%◌, List, [], ◌++◌, length, take, drop, replicate, ap, length-append, length-replicate,
}
use gobeansdb.Base.Int.{IsInt32, to_u32, of_u32, to_u32-lt, of_u32-to_u32}
use gobeansdb.Base.Bytes.{put_le, get_le}
use gobeansdb.Record.{
  Rec, WriteRecord, Position, new_write_record, decode_header, encode_header, wrap_record, get_crc,
  sizes, append,
}
use gobeansdb.Record.Sizes.{raw_size, sizes_lem}

-- Five numbers of four bytes behind another.
abbrev pub words : ℕ → ℕ → ℕ → ℕ → ℕ → ℕ → List ℕ
words c t f v k s =
    put_le 4 c ++ (put_le 4 t ++ (put_le 4 f ++ (put_le 4 v ++ (put_le 4 k ++ put_le 4 s))))

-- What the fields of a record must satisfy to be written without loss.
pub record IsStorable (rec : Rec) : Type 0 where
  pub ts : rec.payload.ts < 2 ^ 32
  pub flag : rec.payload.flag < 2 ^ 32
  pub ver : IsInt32 rec.payload.ver
  pub size : raw_size rec < 2 ^ 32 - 256

-- The header of a record with the given CRC.
abbrev pub header_of : ℕ → Rec → List ℕ
header_of crc rec =
    words crc rec.payload.ts rec.payload.flag (to_u32 rec.payload.ver) (length rec.key)
      (length rec.payload.body)

-- The CRC of a record: of everything behind the CRC field.
abbrev pub crc_of : Rec → ℕ
crc_of rec = get_crc (record (wrap_record rec) { header = header_of 0 rec })

abbrev pub padding_of : Rec → List ℕ
padding_of rec = replicate ((sizes rec).1 - raw_size rec) 0

-- A record on disk.
abbrev pub stored : Rec → List ℕ
stored rec = (append (wrap_record rec) true).1

pad_lem : (n : ℕ) → (if true && not (n == 0) then replicate {A = ℕ} n 0 else []) ≡ replicate n 0
pad_lem zero = refl
pad_lem (suc n) = ground arith

pub stored_lem :
    (rec : Rec)
    → IsStorable rec
    → stored rec ≡ header_of (crc_of rec) rec ++ (rec.key ++ (rec.payload.body ++ padding_of rec))
unfolding append encode_header wrap_record get_crc
stored_lem rec h =
    let k : length rec.key % 2 ^ 32 ≡ length rec.key = omega (arith, h.size) in
    let v : length rec.payload.body % 2 ^ 32 ≡ length rec.payload.body = omega (arith, h.size) in
    let (exact, rounded) = sizes_lem rec h.size in
    let gap : ((sizes rec).1 + 2 ^ 32 - (sizes rec).0) % 2 ^ 32 ≡ (sizes rec).1 - raw_size rec =
      omega (arith, exact, rounded.covers, rounded.tight, h.size) in
    rw (k, v, gap, pad_lem) refl

-- A record takes its rounded size on disk, wherever it is placed.
pub length-stored : (rec : Rec) → IsStorable rec → length (stored rec) ≡ (sizes rec).1
length-stored rec h =
    let (exact, rounded) = sizes_lem rec h.size in
    ap length (stored_lem rec h)
    ∙ omega (
      arith,
      length-append (header_of (crc_of rec) rec) (rec.key ++ (rec.payload.body ++ padding_of rec)),
      length-append rec.key (rec.payload.body ++ padding_of rec),
      length-append rec.payload.body (padding_of rec),
      length-replicate {A = ℕ} ((sizes rec).1 - raw_size rec) 0,
      rounded.covers,
    )

pub append_placed :
    (rec : Rec) (at : Position)
    → (append (record (wrap_record rec) { at = at }) true).1 ≡ stored rec
unfolding append encode_header wrap_record get_crc
append_placed rec at = refl

pub rec_size-wrap_record : (rec : Rec) → (wrap_record rec).rec.payload.rec_size ≡ (sizes rec).1
unfolding wrap_record
rec_size-wrap_record rec = refl

pub array-wrap_record : (rec : Rec) → (wrap_record rec).rec.payload.array ≡ rec.payload.array
unfolding wrap_record
array-wrap_record rec = refl

-- The record that `decodeHeader` makes of a header.
abbrev pub decoded : ℕ → Rec → WriteRecord
decoded crc rec = record new_write_record {
  header = header_of crc rec;
  crc = crc;
  rec = record {
    key = [];
    payload = record new_write_record.rec.payload {
      meta = record {
        ts = rec.payload.ts;
        flag = rec.payload.flag;
        ver = rec.payload.ver;
        value_hash = 0;
        rec_size = 0;
      };
    };
  };
  ksz = length rec.key;
  vsz = length rec.payload.body;
}

word_at :
    (c t f v k s : ℕ)
    → c < 2 ^ 32
    → t < 2 ^ 32
    → f < 2 ^ 32
    → v < 2 ^ 32
    → k < 2 ^ 32
    → s < 2 ^ 32
    → (get_le (take 4 (words c t f v k s)) ≡ c)
      × (get_le (take 4 (drop 4 (words c t f v k s))) ≡ t)
      × (get_le (take 4 (drop 8 (words c t f v k s))) ≡ f)
      × (get_le (take 4 (drop 12 (words c t f v k s))) ≡ v)
      × (get_le (take 4 (drop 16 (words c t f v k s))) ≡ k)
      × (get_le (take 4 (drop 20 (words c t f v k s))) ≡ s)
word_at c t f v k s hc ht hf hv hk hs = omega arith

decode_words :
    (c t f v k s : ℕ)
    → c < 2 ^ 32
    → t < 2 ^ 32
    → f < 2 ^ 32
    → v < 2 ^ 32
    → k < 2 ^ 32
    → s < 2 ^ 32
    → decode_header (record new_write_record { header = words c t f v k s }) (words c t f v k s)
      ≡ record new_write_record {
        header = words c t f v k s;
        crc = c;
        rec = record {
          key = [];
          payload = record new_write_record.rec.payload {
            meta = record { ts = t; flag = f; ver = of_u32 v; value_hash = 0; rec_size = 0 };
          };
        };
        ksz = k;
        vsz = s;
      }
unfolding decode_header
decode_words c t f v k s hc ht hf hv hk hs =
    let (ec, et, ef, ev, ek, es) = word_at c t f v k s hc ht hf hv hk hs in
    λ i. record new_write_record {
      header = words c t f v k s;
      crc = ec i;
      rec = record {
        key = [];
        payload = record new_write_record.rec.payload {
          meta = record {
            ts = et i;
            flag = ef i;
            ver = of_u32 (ev i);
            value_hash = 0;
            rec_size = 0;
          };
        };
      };
      ksz = ek i;
      vsz = es i;
    }

pub decode-header_of :
    (crc : ℕ) (rec : Rec)
    → crc < 2 ^ 32
    → IsStorable rec
    → decode_header (record new_write_record { header = header_of crc rec }) (header_of crc rec)
      ≡ decoded crc rec
decode-header_of crc rec hc h =
    decode_words crc _ _ _ _ _ hc h.ts h.flag (to_u32-lt rec.payload.ver) (omega (arith, h.size))
      (omega (arith, h.size))
    ∙ λ i. record (decoded crc rec) {
      rec = record {
        key = [];
        payload = record new_write_record.rec.payload {
          meta = record {
            ts = rec.payload.ts;
            flag = rec.payload.flag;
            ver = of_u32-to_u32 rec.payload.ver h.ver i;
            value_hash = 0;
            rec_size = 0;
          };
        };
      };
    }
