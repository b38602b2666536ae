-- ===== src/Compress.antt =====
-- store/item.go: compression of a record before it is written, and decompression after it was read.
pub mod RoundTrip
pub mod Keeps
mod Tests
use gobeansdb.Base.{
  ℕ, ◌+◌, ◌-◌, ◌*◌, ◌/◌, ◌%◌, ◌^◌, Bool, true, false, not, ◌||◌, Option, none, some, List, length,
  take, ltb, leb, ◌==◌, if◌then◌else◌,
}
use gobeansdb.Base.Int.{pos, ltb_ℤ}
use gobeansdb.Cmem.{CArray, BeansdbRl, free}
use gobeansdb.Record.{Rec, Payload, sizes}

-- What the code takes from outside: `need_compress` looks at the type of the contents and at the
-- settings, `over_limit` is the comparison of float32 with COMPRESS_RATIO_LIMIT, and the last two are
-- quicklz.CCompress and quicklz.CDecompressSafe, `none` when they fail.
pub record Compressor : Type 0 where
  pub need_compress : List ℕ → Bool
  pub over_limit : ℕ → ℕ → Bool
  pub c_compress : List ℕ → BeansdbRl → Option CArray × BeansdbRl
  pub c_decompress : List ℕ → BeansdbRl → Option CArray × BeansdbRl

abbrev pub flag_compress : ℕ
flag_compress = 0x0001_0000

abbrev pub try_compress_size : ℕ
try_compress_size = 1024 * 10

-- `p.Flag & FLAG_COMPRESS != 0`, and the same of FLAG_CLIENT_COMPRESS.
abbrev pub is_compressed : ℕ → Bool
is_compressed flag = (flag / 2 ^ 16 % 2) == 1

abbrev pub is_client_compressed : ℕ → Bool
is_client_compressed flag = (flag / 2 ^ 4 % 2) == 1

-- The payload with another array and other flags.
abbrev pub with_array : Payload → CArray → ℕ → Payload
with_array p arr flag = record p { array = arr; meta = record p.meta { flag = flag } }

-- The last lines of `TryCompress`.
abbrev pub adopt : Rec → CArray → BeansdbRl → Rec × BeansdbRl
adopt rec arr rl = (
  record rec { payload = with_array rec.payload arr ((rec.payload.flag + flag_compress) % 2 ^ 32) },
  (free rec.payload.array rl).1,
)

-- The second call of CCompress, for the whole body.
pub adopt_whole : Rec → Option CArray × BeansdbRl → Rec × BeansdbRl
adopt_whole rec (none, rl) = (rec, rl)
adopt_whole rec (some arr, rl) = adopt rec arr rl

-- From the first call of CCompress on, for the part `try`.
unfoldable pub try_part : Compressor → Rec → List ℕ → Option CArray × BeansdbRl → Rec × BeansdbRl
try_part c rec try (none, rl) = (rec, rl)
try_part c rec try (some arr, rl) =
    if c.over_limit (length arr.body) (length try)
    then (rec, (free arr rl).1)
    else if ltb (length try) (length rec.payload.body)
    then adopt_whole rec (c.c_compress rec.payload.body (free arr rl).1)
    else adopt rec arr rl

-- The part of the body that is tried first.
abbrev pub part_of : List ℕ → List ℕ
part_of body = if ltb try_compress_size (length body) then take try_compress_size body else body

-- `TryCompress`
unfoldable pub try_compress : Compressor → Rec → BeansdbRl → Rec × BeansdbRl
try_compress c rec rl =
    let try = part_of rec.payload.body in
    if ltb_ℤ rec.payload.ver (pos 0)
    then (rec, rl)
    else if is_client_compressed rec.payload.flag || is_compressed rec.payload.flag
    then (rec, rl)
    else if leb (sizes rec).1 256
    then (rec, rl)
    else if not (c.need_compress try)
    then (rec, rl)
    else try_part c rec try (c.c_compress try rl)

-- The payload after CDecompressSafe, and whether there was no error.
unfoldable pub decompressed : Payload → Option CArray × BeansdbRl → Payload × Bool × BeansdbRl
decompressed p (none, rl) = (p, false, rl)
decompressed p (some arr, rl) =
    (with_array p arr ((p.flag + 2 ^ 32 - flag_compress) % 2 ^ 32), true, (free p.array rl).1)

-- `Decompress`
unfoldable pub decompress : Compressor → Payload → BeansdbRl → Payload × Bool × BeansdbRl
decompress c p rl =
    if is_compressed p.flag then decompressed p (c.c_decompress p.body rl) else (p, true, rl)
