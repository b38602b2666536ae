-- ===== src/Key.antt =====
-- store/key.go: the path of hexadecimal digits that routes a key hash to a bucket and to a leaf.
pub mod Path16
mod Tests
use Prim.Native.Nat.{bit_or}
use gobeansdb.Base.{
  ℕ, zero, suc, ◌+◌, ◌-◌, ◌*◌, ◌/◌, ◌%◌, ◌^◌, ◌≤◌, ◌<◌, Bool, true, false, ◌&&◌, ◌||◌, Option, none,
  some, List, [], ◌∷◌, length, take, get_or, ltb, leb, ◌==◌, if◌then◌else◌,
}
use gobeansdb.Base.Int.{ℤ, pos, negsuc}
use gobeansdb.Config.{HStoreConfig}

abbrev pub max_key_len : ℕ
max_key_len = 250

-- `runes` decodes UTF-8, and `is_control` and `is_space` are Go's Unicode tables.
module _ (runes : List ℕ → List ℕ) (is_control is_space : ℕ → Bool) where
  any_bad : List ℕ → Bool
  any_bad [] = false
  any_bad (r ∷ rs) = if is_control r || is_space r then true else any_bad rs

  pub is_valid_key_string : List ℕ → Bool
  is_valid_key_string key =
      let first = get_or key 0 0 in
      if (length key == 0) || ltb max_key_len (length key)
      then false
      else if leb first b' ' || ((first == b'?') || (first == b'@'))
      then false
      else if any_bad (runes key)
      then false
      else true

-- `int((khash >> shift)) & 0xf` for shift = 4 * (15 - i), i from 0 to 15: digit `n` counts the rounds
-- left.
path_digits : ℕ → ℕ → List ℕ
path_digits zero khash = []
path_digits (suc n) khash = (khash / 2 ^ (4 * n) % 16) ∷ path_digits n khash

pub parse_path_uint64 : ℕ → List ℕ
parse_path_uint64 khash = path_digits 16 khash

-- `strconv.ParseInt(c, 16, 0)` of one byte.
pub hex_digit : ℕ → Option ℕ
hex_digit c =
    if leb b'0' c && leb c b'9'
    then some (c - b'0')
    else if leb b'a' c && leb c b'f'
    then some (c - b'a' + 10)
    else if leb b'A' c && leb c b'F'
    then some (c - b'A' + 10)
    else none

-- What `ParsePathString` does: a path, an error, or the panic of a slice beyond its 16 places.
pub data PathResult : Type 0 where
  path : List ℕ → PathResult
  bad_digit : PathResult
  panic : PathResult

abbrev cons_digit : Option ℕ → PathResult → PathResult
cons_digit none r = bad_digit
cons_digit (some d) (path p) = path (d ∷ p)
cons_digit (some d) bad_digit = bad_digit
cons_digit (some d) panic = panic

parse_digits : List ℕ → PathResult
parse_digits [] = path []
parse_digits (c ∷ cs) = cons_digit (hex_digit c) (parse_digits cs)

pub parse_path_string : List ℕ → PathResult
parse_path_string s = if ltb 16 (length s) then panic else parse_digits s

-- `ki.KeyHash |= (uint64(v[i]) << shift); shift -= 4`
hash_loop : ℕ → ℕ → List ℕ → ℕ
hash_loop shift acc [] = acc
hash_loop shift acc (v ∷ vs) = hash_loop (shift - 4) (bit_or acc (v * 2 ^ shift % 2 ^ 64)) vs

pub set_key_hash_by_path : List ℕ → ℕ
set_key_hash_by_path v = hash_loop 60 0 v

-- `ki.BucketID <<= 4; ki.BucketID += v`
bucket_loop : ℕ → List ℕ → ℕ
bucket_loop acc [] = acc
bucket_loop acc (v ∷ vs) = bucket_loop (acc * 16 + v) vs

pub record KeyInfo : Type 0 where
  pub key_hash : ℕ
  pub key_is_path : Bool
  pub key : List ℕ
  pub key_path : List ℕ
  pub bucket_id : ℤ

-- The last loop of `Prepare`.
abbrev with_bucket : HStoreConfig → KeyInfo → KeyInfo
with_bucket conf ki = record ki {
  bucket_id = pos (bucket_loop 0 (take conf.tree_depth ki.key_path));
}

-- `Prepare` of a path: a bad digit leaves an empty path. The flag says whether there is an error.
prepare_path : HStoreConfig → KeyInfo → PathResult → Option (KeyInfo × Bool)
prepare_path conf ki panic = none
prepare_path conf ki bad_digit =
    let ki' = record ki { key_path = []; key_hash = set_key_hash_by_path [] } in
    if ltb 0 conf.tree_depth
    then some (record ki' { bucket_id = negsuc 0 }, true)
    else some (with_bucket conf ki', true)
prepare_path conf ki (path p) =
    let ki' = record ki { key_path = p; key_hash = set_key_hash_by_path p } in
    if ltb (length p) conf.tree_depth
    then some (record ki' { bucket_id = negsuc 0 }, false)
    else some (with_bucket conf ki', false)

-- `Prepare`; `none` is a panic.
pub prepare : HStoreConfig → KeyInfo → Option (KeyInfo × Bool)
unfolding prepare_path
prepare conf ki =
    if ki.key_is_path
    then prepare_path conf ki (parse_path_string ki.key)
    else some (with_bucket conf (record ki { key_path = parse_path_uint64 ki.key_hash }), false)
