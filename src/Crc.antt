-- ===== src/Crc.antt =====
-- store/crc32.go: CRC-32 of a record, by a table of 256 entries.
mod Table
pub mod Bitwise
pub mod Detect
mod Tests
unfoldable pub use Table.{crc32_table}
use Prim.Native.Nat.{bit_xor}
use gobeansdb.Base.{ℕ, ◌-◌, ◌/◌, ◌%◌, ◌^◌, List, [], ◌∷◌, get_or, length, take, ltb, if◌then◌else◌}

-- One round of the C loop: `crc = crc32_table[(crc ^ *buf) & 0xff] ^ (crc >> 8)`.
pub crc32_byte : ℕ → ℕ → ℕ
crc32_byte crc b = bit_xor (get_or crc32_table (bit_xor crc b % 256) 0) (crc / 256)

-- The C loop over the bytes it is given.
unfoldable pub crc32_loop : ℕ → List ℕ → ℕ
crc32_loop crc [] = crc
crc32_loop crc (b ∷ buf) = crc32_loop (crc32_byte crc b) buf

-- The loop over `C.int(len)` bytes: a length that is negative as an int is no round at all.
pub loop_over : ℕ → ℕ → List ℕ → ℕ
loop_over n crc buf = if ltb n (2 ^ 31) then crc32_loop crc (take n buf) else crc

-- `write`, for a string that is not empty (`&data[0]` is a panic otherwise).
pub crc32_write : ℕ → List ℕ → ℕ
unfolding loop_over
crc32_write crc buf = loop_over (length buf % 2 ^ 32) crc buf

-- `newCrc32`: the register starts as ^uint32(0).
abbrev pub new_crc32 : ℕ
new_crc32 = 2 ^ 32 - 1

-- `get`: the complement of the register.
abbrev pub crc32_get : ℕ → ℕ
crc32_get crc = 2 ^ 32 - 1 - crc
