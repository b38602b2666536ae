-- ===== src/Compress/Tests.antt =====
-- Runs of the code of Compress. The compressor of the tests drops a run of zeros.
use gobeansdb.Base.{
  ℕ, ◌≡◌, refl, sym, arith, true, false, Option, none, some, List, [], ◌∷◌, length, replicate,
}
use gobeansdb.Base.Int.{pos}
use gobeansdb.Cmem.{BeansdbRl, CArray, reset}
use gobeansdb.Record.{Rec, sizes}
use gobeansdb.Compress.{Compressor, try_compress, try_part}
use gobeansdb.Compress.RoundTrip.{Lossless, Restores, try_compress-Restores}

abbrev rl : BeansdbRl
rl = record { alloc_rl = reset; get_data = reset; set_data = reset; flush_data = reset }

abbrev in_go : List ℕ → CArray
in_go body = record { body = body; addr = 0; cap = length body }

-- One byte in front of the others, and taken off again.
abbrev unpack : List ℕ → Option CArray
unpack [] = none
unpack (b ∷ bs) = some (in_go bs)

abbrev marker : Compressor
marker = record {
  need_compress = λ part. true;
  over_limit = λ small large. false;
  c_compress = λ body state. (some (in_go (1 ∷ body)), state);
  c_decompress = λ body state. (unpack body, state);
}

abbrev array_of : Option CArray → List ℕ
array_of none = []
array_of (some arr) = arr.body

marker-Lossless : Lossless marker
marker-Lossless body rl1 rl2 rl3 arr e =
    (in_go body, rl3, (λ i. (unpack (array_of ((sym e i).0)), rl3)), refl)

abbrev rec : Rec
rec = record {
  key = 7 ∷ [];
  payload = record {
    meta = record { ts = 1; flag = 2; ver = pos 1; value_hash = 0; rec_size = 0 };
    array = in_go (replicate 300 0);
  };
}

try_compress-Restores_example : Restores marker rec rl (try_compress marker rec rl)
try_compress-Restores_example =
    try_compress-Restores marker rec rl refl (omega arith) marker-Lossless rl

compressed_flag : (try_compress marker rec rl).0.payload.flag ≡ 0x1_0002
unfolding try_compress try_part sizes
compressed_flag = refl
