-- ===== src/Record/Tests.antt =====
-- Runs of the code of Record on small records.
use gobeansdb.Base.{
  replicate, ℕ, suc, ◌≡◌, ◌≢◌, refl, arith, List, [], ◌∷◌, ◌++◌, length, none, some,
}
use gobeansdb.Base.Int.{pos}
use gobeansdb.Config.{McConfig, is_valid_key_size, is_valid_value_size}
use gobeansdb.Cmem
use gobeansdb.Cmem.{BeansdbRl, alloc}
use gobeansdb.Record.{
  Rec, Meta, ok, err, crc_fail, read_body, read_record_at, read_sized, read_kv, decode_header,
  sizes, append, encode_header, wrap_record, bad_key_size, WriteRecord,
}
use gobeansdb.Record.Sizes.{IsRounded, sizes_lem}
use gobeansdb.Record.Header.{IsStorable, header_of, crc_of, padding_of, stored}
use gobeansdb.Record.RoundTrip.{IsReadable, SameContent, read_record_at-append}
use gobeansdb.Record.Corruption.{corrupt_byte_detected}
use gobeansdb.Record.Accounting.{read_error_balanced}
use gobeansdb.Record.Stream.{StreamReader, next, next_valid}
use gobeansdb.Record.Stream.Next.{next-stored}
use gobeansdb.Record.Stream.Resync.{FirstGood, here, later, found, next_valid-FirstGood}
use gobeansdb.Cmem.Balance.{SameLevel}

abbrev conf : McConfig
conf = record {
  max_key_len = 250;
  max_req = 16;
  body_max = 1000;
  body_big = 500;
  body_in_c = 4;
  flush_max = 1000;
}

abbrev malloc : ℕ → ℕ
malloc n = suc n

malloc_lem : (n : ℕ) → malloc n ≢ 0
malloc_lem n e = cc

abbrev rl : BeansdbRl
rl = record {
  alloc_rl = Cmem.reset;
  get_data = Cmem.reset;
  set_data = Cmem.reset;
  flush_data = Cmem.reset;
}

abbrev meta : Meta
meta = record { ts = 7; flag = 1; ver = pos 2; value_hash = 0; rec_size = 0 }

abbrev rec_with : List ℕ → List ℕ → Rec
rec_with key body = record {
  key = key;
  payload = record { meta = meta; array = record { body = body; addr = 0; cap = length body } };
}

abbrev rec : Rec
rec = rec_with (b'a' ∷ b'b' ∷ []) (1 ∷ 2 ∷ 3 ∷ [])

rec-IsStorable : IsStorable rec
rec-IsStorable = record {
  ts = omega arith;
  flag = omega arith;
  ver = omega arith;
  size = omega arith;
}

rec-IsReadable : IsReadable conf malloc rec
unfolding is_valid_key_size is_valid_value_size
rec-IsReadable = record { key = refl; value = refl; memory = malloc_lem }

read_record_at-append_example :
    (w : _) × ((read_record_at conf malloc ((9 ∷ []) ++ (stored rec ++ (8 ∷ []))) 1 rl).0 ≡ ok w)
    × SameContent w.rec rec
read_record_at-append_example =
    read_record_at-append conf malloc rec (9 ∷ []) (8 ∷ []) rl rec-IsStorable rec-IsReadable

-- The value's second byte 2 has become 66.
corrupt_byte_detected_example :
    (read_record_at conf malloc
      ((9 ∷ [])
        ++ (header_of (crc_of rec) rec
            ++ (rec.key ++ ((1 ∷ 66 ∷ 3 ∷ []) ++ (padding_of rec ++ [])))))
      1
      rl).0
    ≡ err crc_fail
corrupt_byte_detected_example =
    corrupt_byte_detected conf malloc rec rec.key (1 ∷ 66 ∷ 3 ∷ []) (9 ∷ []) []
      (b'a' ∷ b'b' ∷ 1 ∷ []) (3 ∷ []) 2 66 rl rec-IsStorable rec-IsReadable (omega arith)
      (omega arith) refl refl refl refl (omega arith) (omega arith) (omega arith) (omega arith)
      (omega arith)

-- Only the header of the record is there.
read_cut : (read_record_at conf malloc (header_of 0 rec) 0 rl).0 ≡ err read_body
unfolding read_record_at read_sized read_kv decode_header is_valid_key_size is_valid_value_size
    alloc
read_cut = refl

read_error_balanced_example :
    SameLevel (read_record_at conf malloc (header_of 0 rec) 0 rl).1.get_data rl.get_data
read_error_balanced_example =
    read_error_balanced conf malloc (header_of 0 rec) 0 rl read_body
      (record { count = omega arith; size = omega arith }) read_cut

sizes_lem_example : ((sizes rec).0 ≡ 29) × IsRounded 29 (sizes rec).1
sizes_lem_example = sizes_lem rec (omega arith)

abbrev stream : StreamReader
stream = record { file = stored rec ++ (5 ∷ []); rest = stored rec ++ (5 ∷ []); offset = 0 }

next-stored_example :
    (got : Rec) × (next conf malloc stream rl ≡ record {
      result = record { res = some got; offset = 0; size_broken = 0; error = none };
      stream = record stream { rest = 5 ∷ []; offset = 256 };
      rl = rl;
    })
    × SameContent got rec
unfolding sizes
next-stored_example =
    next-stored conf malloc rec (5 ∷ []) stream rl rec-IsStorable rec-IsReadable refl

-- A block of zeros, and behind it the record.
abbrev damaged : StreamReader
damaged = record { file = replicate 256 0 ++ (stored rec ++ []); rest = []; offset = 3 }

zeros_fail : read_record_at conf malloc damaged.file 0 rl ≡ (err bad_key_size, rl)
unfolding read_record_at read_sized decode_header is_valid_key_size
zeros_fail = refl

damaged_length : length damaged.file ≡ 512
unfolding append encode_header wrap_record sizes
damaged_length = refl

damaged_read :
    (w : WriteRecord) × ((read_record_at conf malloc damaged.file 256 rl).0 ≡ ok w)
    × SameContent w.rec rec
damaged_read =
    read_record_at-append conf malloc rec (replicate 256 0) [] rl rec-IsStorable rec-IsReadable

damaged-FirstGood : FirstGood conf malloc damaged.file 1 0 rl damaged_read.0
damaged-FirstGood =
    later 0 0 rl rl bad_key_size damaged_read.0 (omega (arith, damaged_length)) zeros_fail (
      here 256 rl _ damaged_read.0 (omega (arith, damaged_length))
        λ i. (damaged_read.1 i, (read_record_at conf malloc damaged.file 256 rl).1))

next_valid-FirstGood_example :
    (next_valid conf malloc damaged rl).result ≡ found conf malloc damaged_read.0 256 256
next_valid-FirstGood_example =
    next_valid-FirstGood conf malloc 1 damaged rl damaged_read.0 (omega (arith, damaged_length))
      damaged-FirstGood
