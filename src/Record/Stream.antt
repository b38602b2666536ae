-- ===== src/Record/Stream.antt =====
-- store/datafile.go: `DataStreamReader`, which reads a data file from front to back and, behind a
-- damaged place, looks for the next record at the multiples of 256.
-- The buffer that successive bodies share is not modelled: a body is used before the next read.
pub mod Next
pub mod Resync
use gobeansdb.Base.{
  ℕ, zero, suc, ◌+◌, ◌-◌, ◌/◌, ◌*◌, ◌%◌, ◌^◌, Bool, not, Option, none, some, List, [], ◌∷◌, length,
  take, drop, ltb, ◌==◌, if◌then◌else◌,
}
use gobeansdb.Base.Int.{pos}
use gobeansdb.Config.{McConfig, is_valid_key_size, is_valid_value_size}
use gobeansdb.Cmem.{BeansdbRl}
use gobeansdb.Record.{
  Rec, WriteRecord, ReadResult, ok, err, sizes, set_rec_size, decode_header, get_crc,
  new_write_record, read_record_at,
}

-- `rest` is what the buffered reader has not delivered yet.
pub record StreamReader : Type 0 where
  pub file : List ℕ
  pub rest : List ℕ
  pub offset : ℕ

pub data StreamError : Type 0 where
  header_cut key_cut body_cut : StreamError

-- The results of `Next`: `res`, `offset`, `sizeBroken` and `err`, nil as `none`.
pub record NextResult : Type 0 where
  pub res : Option Rec
  pub offset : ℕ
  pub size_broken : ℕ
  pub error : Option StreamError

pub record NextState : Type 0 where
  pub result : NextResult
  pub stream : StreamReader
  pub rl : BeansdbRl

abbrev failed : StreamError → StreamReader → BeansdbRl → NextState
failed e stream rl = record {
  result = record { res = none; offset = 0; size_broken = 0; error = some e };
  stream = stream;
  rl = rl;
}

found_at : ℕ → ℕ → ReadResult × BeansdbRl → StreamReader → NextState → NextState
found_at offset2 broken (err e, rl) stream otherwise = otherwise
found_at offset2 broken (ok wrec, rl) stream otherwise =
    let offset3 = (offset2 + (sizes wrec.rec).1) % 2 ^ 32 in
    record {
      result = record { res = some wrec.rec; offset = offset2; size_broken = broken; error = none };
      stream = record stream { rest = drop offset3 stream.file; offset = offset3 };
      rl = rl;
    }

module _ (conf : McConfig) (malloc : ℕ → ℕ) where
  -- The loop of `nextValid` on fuel; each round goes one block of 256 bytes on.
  pub next_valid_loop : ℕ → ℕ → ℕ → StreamReader → BeansdbRl → NextState
  next_valid_loop zero offset2 broken stream rl = record {
    result = record { res = none; offset = offset2; size_broken = broken; error = none };
    stream = stream;
    rl = rl;
  }
  next_valid_loop (suc fuel) offset2 broken stream rl =
      let read = read_record_at conf malloc stream.file offset2 rl in
      let next = (offset2 + 256) % 2 ^ 32 in
      let later =
        next_valid_loop fuel next ((broken + 256) % 2 ^ 32) (record stream { offset = next })
          read.1 in
      let here = found_at offset2 broken read stream later in
      if ltb offset2 (length stream.file) then here else record {
        result = record { res = none; offset = offset2; size_broken = broken; error = none };
        stream = stream;
        rl = rl;
      }

  -- The loop starts at the block of the stream's offset.
  pub next_valid : StreamReader → BeansdbRl → NextState
  next_valid stream rl =
      next_valid_loop (length stream.file / 256 + 1) (stream.offset / 256 * 256) 0 stream rl

  -- From the CRC test on; `rest` is what follows the body.
  pub next_checked : WriteRecord → List ℕ → StreamReader → BeansdbRl → NextState
  next_checked wrec rest stream rl =
      let recsize = (sizes wrec.rec).1 in
      let tail = (sizes wrec.rec).0 % 256 in
      let discarded = if not (tail == 0) then drop (256 - tail) rest else rest in
      if not (wrec.crc == get_crc wrec)
      then next_valid (record stream { rest = discarded }) rl
      else record {
        result = record {
          res = some (set_rec_size wrec.rec recsize);
          offset = stream.offset;
          size_broken = 0;
          error = none;
        };
        stream = record stream { rest = discarded; offset = (stream.offset + recsize) % 2 ^ 32 };
        rl = rl;
      }

  abbrev pub with_key_value : WriteRecord → List ℕ → List ℕ → WriteRecord
  with_key_value wrec key body = record wrec {
    rec = record {
      key = key;
      payload = record wrec.rec.payload { array = record { body = body; addr = 0; cap = 0 } };
    };
  }

  -- From the sizes on; `rest` is what follows the header.
  pub next_sized : WriteRecord → List ℕ → StreamReader → BeansdbRl → NextState
  next_sized wrec rest stream rl =
      let behind_key = drop wrec.ksz rest in
      if not (is_valid_key_size conf wrec.ksz)
      then next_valid (record stream { rest = rest }) rl
      else if not (is_valid_value_size conf wrec.vsz)
      then next_valid (record stream { rest = rest }) rl
      else if ltb (length rest) wrec.ksz
      then failed key_cut (record stream { rest = [] }) rl
      else if ltb (length behind_key) wrec.vsz
      then failed body_cut (record stream { rest = [] }) rl
      else next_checked (with_key_value wrec (take wrec.ksz rest) (take wrec.vsz behind_key))
          (drop wrec.vsz behind_key) stream rl

  -- `Next`. At the end of the file there is no record and no error.
  pub next : StreamReader → BeansdbRl → NextState
  next stream rl =
      let header = take 24 stream.rest in
      if length stream.rest == 0
      then record {
        result = record { res = none; offset = 0; size_broken = 0; error = none };
        stream = stream;
        rl = rl;
      }
      else if ltb (length stream.rest) 24
      then failed header_cut (record stream { rest = [] }) rl
      else next_sized (decode_header (record new_write_record { header = header }) header)
          (drop 24 stream.rest) stream rl
