-- ===== src/Hash.antt =====
-- utils/hash.go, and `fnv1a` of store/key.go with the same text: FNV-1a with the sign extension that
-- the program keeps; and `Getvhash` of store/item.go, the hash of a value.
pub mod Middle
mod Tests
use Prim.Native.Nat.{bit_xor}
use gobeansdb.Base.{
  ℕ, ◌+◌, ◌-◌, ◌*◌, ◌%◌, ◌^◌, List, [], ◌∷◌, length, take, drop, ltb, leb, if◌then◌else◌,
}

-- `uint32(int8(b))` of a byte.
pub sign_extend : ℕ → ℕ
sign_extend b = if ltb b 128 then b else 2 ^ 32 - 256 + b

fnv1a_loop : ℕ → List ℕ → ℕ
fnv1a_loop h [] = h
fnv1a_loop h (b ∷ buf) = fnv1a_loop (bit_xor h (sign_extend b) * 0x0100_0193 % 2 ^ 32) buf

unfoldable pub fnv1a : List ℕ → ℕ
unfolding fnv1a_loop sign_extend
fnv1a buf = fnv1a_loop 0x811c_9dc5 buf

-- A value of more than 1024 bytes is hashed by its length, its first and its last 512 bytes.
unfoldable pub get_vhash : List ℕ → ℕ
get_vhash value =
    let l = length value in
    let hash = l % 2 ^ 32 * 97 % 2 ^ 32 in
    (if leb l 1024
      then (hash + fnv1a value) % 2 ^ 32
      else ((hash + fnv1a (take 512 value)) % 2 ^ 32 * 97 % 2 ^ 32 + fnv1a (drop (l - 512) value))
        % 2 ^ 32)
    % 2 ^ 16
