-- ===== src/Base/Bytes.antt =====
-- Little-endian byte strings: Go's encoding/binary, which the record, leaf and hint formats use.
use Prim.Native.Nat.{ℕ, zero, suc, ◌+◌, ◌*◌, ◌/◌, ◌%◌, ◌^◌, ◌<◌}
use mathlib.Core.Path.{◌≡◌, refl, ap}
use mathlib.Core.List.{List, [], ◌∷◌}
use native.Mathlib.Nat.{pow-succ', pow-zero}
use native.Mathlib.Omega.{arith}
use gobeansdb.Base.Lists.{length, All}

abbrev pub IsByte : ℕ → Type 0
IsByte b = b < 256

-- `binary.LittleEndian.PutUint16/32/64`, by the number of bytes.
abbrev pub put_le : ℕ → ℕ → List ℕ
put_le zero v = []
put_le (suc n) v = (v % 256) ∷ put_le n (v / 256)

-- `binary.LittleEndian.Uint16/32/64`, of as many bytes as it is given.
abbrev pub get_le : List ℕ → ℕ
get_le [] = 0
get_le (b ∷ bs) = b + 256 * get_le bs

pub length-put_le : (n v : ℕ) → length (put_le n v) ≡ n
length-put_le zero v = refl
length-put_le (suc n) v = ap suc (length-put_le n (v / 256))

pub put_le-IsByte : (n v : ℕ) → All IsByte (put_le n v)
put_le-IsByte zero v = tt
put_le-IsByte (suc n) v = (omega arith, put_le-IsByte n (v / 256))

pub get_le-put_le : (n v : ℕ) → v < 256 ^ n → get_le (put_le n v) ≡ v
get_le-put_le zero v h = omega (arith, pow-zero 256)
get_le-put_le (suc n) v h =
    let q : v / 256 < 256 ^ n = omega (arith, pow-succ' 256 n) in
    omega (arith, get_le-put_le n (v / 256) q)

pub put_le_mod : (n v : ℕ) → get_le (put_le n v) < 256 ^ n
put_le_mod zero v = omega (arith, pow-zero 256)
put_le_mod (suc n) v = omega (arith, pow-succ' 256 n, put_le_mod n (v / 256))
