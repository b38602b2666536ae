-- ===== src/Record.antt =====
-- store/item.go and store/datafile.go: a record, its size on disk, its header, and how it is written
-- to and read from a data file. A file is the list of its bytes.
pub mod Sizes
pub mod Header
mod Steps
pub mod RoundTrip
pub mod Corruption
pub mod Accounting
pub mod Stream
mod Tests
use gobeansdb.Base.{
  ℕ, ◌+◌, ◌-◌, ◌*◌, ◌/◌, ◌%◌, ◌^◌, Bool, true, false, not, ◌&&◌, List, [], ◌∷◌, ◌++◌, length, take,
  drop, replicate, ltb, ◌==◌, if◌then◌else◌,
}
use gobeansdb.Base.Int.{ℤ, pos, to_u32, of_u32}
use gobeansdb.Base.Bytes.{put_le, get_le}
use gobeansdb.Crc.{crc32_write, new_crc32, crc32_get}
use gobeansdb.Config.{McConfig, is_valid_key_size, is_valid_value_size}
use gobeansdb.Cmem.{
  CArray, BeansdbRl, empty_array, alloc, free, add_size_and_count, sub_size_and_count,
}

pub record Meta : Type 0 where
  pub ts : ℕ
  pub flag : ℕ
  pub ver : ℤ
  pub value_hash : ℕ
  pub rec_size : ℕ

pub record Payload : Type 0 where
  pub meta : Meta
  pub open meta use *
  pub array : CArray
  pub open array use *

-- Named for the Go type `Record`.
pub record Rec : Type 0 where
  pub key : List ℕ
  pub payload : Payload

pub record Position : Type 0 where
  pub chunk_id : ℤ
  pub offset : ℕ

pub record WriteRecord : Type 0 where
  pub rec : Rec
  pub crc : ℕ
  pub ksz : ℕ
  pub vsz : ℕ
  pub at : Position
  pub header : List ℕ

abbrev pub rec_header_size : ℕ
rec_header_size = 24

-- `Sizes`: the bytes of header, key and value, and that rounded up to 256; both uint32.
unfoldable pub sizes : Rec → ℕ × ℕ
sizes rec =
    let rec_size = (24 + length rec.key + length rec.payload.body) % 2 ^ 32 in
    (rec_size, (rec_size + 255) % 2 ^ 32 / 2 ^ 8 * 2 ^ 8 % 2 ^ 32)

abbrev pub set_rec_size : Rec → ℕ → Rec
set_rec_size rec n = record rec {
  payload = record rec.payload { meta = record rec.payload.meta { rec_size = n } };
}

pub wrap_record : Rec → WriteRecord
unfolding sizes
wrap_record rec = record {
  rec = set_rec_size rec (sizes rec).1;
  crc = 0;
  ksz = length rec.key % 2 ^ 32;
  vsz = length rec.payload.body % 2 ^ 32;
  at = record { chunk_id = pos 0; offset = 0 };
  header = replicate 24 0;
}

abbrev pub write_some : ℕ → List ℕ → ℕ
write_some crc [] = crc
write_some crc (b ∷ bs) = crc32_write crc (b ∷ bs)

-- `getCRC`: of the header behind the CRC field, the key and the value; the last two if not empty.
pub get_crc : WriteRecord → ℕ
get_crc wrec = crc32_get (
    write_some (write_some (crc32_write new_crc32 (drop 4 wrec.header)) wrec.rec.key)
      wrec.rec.payload.body)

-- Bytes 4 to 24 of the header.
abbrev pub header_fields : WriteRecord → List ℕ
header_fields wrec =
    put_le 4 wrec.rec.payload.ts
    ++ (put_le 4 wrec.rec.payload.flag
        ++ (put_le 4 (to_u32 wrec.rec.payload.ver) ++ (put_le 4 wrec.ksz ++ put_le 4 wrec.vsz)))

pub encode_header : WriteRecord → WriteRecord
encode_header wrec =
    let filled = record wrec { header = take 4 wrec.header ++ header_fields wrec } in
    record wrec { header = put_le 4 (get_crc filled) ++ header_fields wrec }

-- Four bytes of `h` at `i`, as a little-endian number.
abbrev u32_at : List ℕ → ℕ → ℕ
u32_at h i = get_le (take 4 (drop i h))

pub decode_header : WriteRecord → List ℕ → WriteRecord
decode_header wrec h = record wrec {
  crc = u32_at h 0;
  rec = record wrec.rec {
    payload = record wrec.rec.payload {
      meta = record wrec.rec.payload.meta {
        ts = u32_at h 4;
        flag = u32_at h 8;
        ver = of_u32 (u32_at h 12);
      };
    };
  };
  ksz = u32_at h 16;
  vsz = u32_at h 20;
}

-- `wrec.append(wbuf, dopadding)` to a writer that takes every byte: the record with its header
-- filled in, and the bytes written.
unfoldable pub append : WriteRecord → Bool → WriteRecord × List ℕ
append wrec dopadding =
    let encoded = encode_header wrec in
    let npad = ((sizes wrec.rec).1 + 2 ^ 32 - (sizes wrec.rec).0) % 2 ^ 32 in
    (
      encoded,
      encoded.header
          ++ (wrec.rec.key
              ++ (wrec.rec.payload.body
                  ++ (if dopadding && not (npad == 0) then replicate npad 0 else []))),
    )

pub data ReadError : Type 0 where
  read_head bad_key_size bad_value_size alloc_failed read_body crc_fail : ReadError

pub data ReadResult : Type 0 where
  ok : WriteRecord → ReadResult
  err : ReadError → ReadResult

abbrev pub new_write_record : WriteRecord
new_write_record = record {
  rec = record {
    key = [];
    payload = record {
      meta = record { ts = 0; flag = 0; ver = pos 0; value_hash = 0; rec_size = 0 };
      array = empty_array;
    };
  };
  crc = 0;
  ksz = 0;
  vsz = 0;
  at = record { chunk_id = pos 0; offset = 0 };
  header = replicate 24 0;
}

-- The record after its key and value were read into `kv`; its `RecSize` is the size of the value.
abbrev with_kv : WriteRecord → CArray → WriteRecord
with_kv wrec kv = record wrec {
  rec = record {
    key = take wrec.ksz kv.body;
    payload = record {
      meta = record wrec.rec.payload.meta { rec_size = wrec.vsz };
      array = record kv { body = drop wrec.ksz kv.body };
    };
  };
}

-- From the CRC test on. On failure the deferred `Free` gives `kv` back.
pub check_crc : WriteRecord → BeansdbRl → ReadResult × BeansdbRl
check_crc wrec rl =
    if wrec.crc == get_crc wrec
    then (ok wrec, rl)
    else let uncounted = record rl {
      get_data = sub_size_and_count rl.get_data (pos wrec.rec.payload.cap);
    } in
      (err crc_fail, (free wrec.rec.payload.array uncounted).1)

-- From the second read on. Where it falls short the payload does not own `kv` yet, so that the
-- deferred `Free` gives nothing back.
pub read_kv : List ℕ → ℕ → WriteRecord → ℕ → CArray → BeansdbRl → ReadResult × BeansdbRl
read_kv file offset wrec kv_size kv rl =
    let counted = record rl { get_data = add_size_and_count rl.get_data (pos kv.cap) } in
    let bytes = take kv_size (drop (offset + rec_header_size) file) in
    if ltb (length bytes) kv_size
    then (
      err read_body,
      record counted { get_data = sub_size_and_count counted.get_data (pos kv.cap) },
    )
    else check_crc (with_kv wrec (record kv { body = bytes })) counted

module _ (conf : McConfig) (malloc : ℕ → ℕ) where
  -- From the sizes on.
  pub read_sized : List ℕ → ℕ → WriteRecord → BeansdbRl → ReadResult × BeansdbRl
  read_sized file offset wrec rl =
      let kv_size = (wrec.ksz + wrec.vsz) % 2 ^ 32 in
      let (got, kv, rl') = alloc conf malloc empty_array kv_size rl in
      if not (is_valid_key_size conf wrec.ksz)
      then (err bad_key_size, rl)
      else if not (is_valid_value_size conf wrec.vsz)
      then (err bad_value_size, rl)
      else if not got
      then (err alloc_failed, rl')
      else read_kv file offset wrec kv_size kv rl'

  -- `readRecordAt`. A read at an offset fails when it cannot fill its buffer.
  pub read_record_at : List ℕ → ℕ → BeansdbRl → ReadResult × BeansdbRl
  read_record_at file offset rl =
      let header = take rec_header_size (drop offset file) in
      if ltb (length header) rec_header_size
      then (err read_head, rl)
      else read_sized file offset
          (decode_header (record new_write_record { header = header }) header) rl
