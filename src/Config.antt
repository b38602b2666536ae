-- ===== src/Config.antt =====
-- config/mc_config.go and store/config.go: the settings that the code reads, the size checks, and
-- the shape of the key trees that `InitTree` derives from the number of buckets.
pub mod Shape
mod Tests
use gobeansdb.Base.{
  ℕ, zero, suc, ◌+◌, ◌-◌, ◌*◌, ◌/◌, ◌%◌, ◌^◌, Bool, not, ◌&&◌, Option, none, some, List, [], ◌∷◌,
  get_elem?, ltb, leb, ◌==◌, if◌then◌else◌,
}

-- config.MCConfig; the sizes are int64, never negative.
pub record McConfig : Type 0 where
  pub max_key_len : ℕ
  pub max_req : ℕ
  pub body_max : ℕ
  pub body_big : ℕ
  pub body_in_c : ℕ
  pub flush_max : ℕ

unfoldable pub is_valid_key_size : McConfig → ℕ → Bool
is_valid_key_size conf ksz = not (ksz == 0) && leb ksz (conf.max_key_len % 2 ^ 32)

unfoldable pub is_valid_value_size : McConfig → ℕ → Bool
is_valid_value_size conf vsz = leb vsz (conf.body_max % 2 ^ 32)

-- store.HStoreConfig, with the embedded records flattened.
pub record HStoreConfig : Type 0 where
  pub num_bucket : ℕ
  pub data_file_max : ℕ
  pub check_vhash : Bool
  pub no_gc_days : ℕ
  pub merge_interval : ℕ
  pub split_cap : ℕ
  pub tree_height : ℕ
  pub tree_depth : ℕ
  pub tree_key_hash_len : ℕ
  pub tree_key_hash_mask : ℕ

abbrev pub khash_lens : List ℕ
khash_lens = 8 ∷ 8 ∷ 7 ∷ 7 ∷ 6 ∷ 6 ∷ 5 ∷ 5 ∷ []

-- `for n > 1 { c.TreeDepth += 1; n /= 16 }`, on fuel.
pub depth_loop : ℕ → ℕ → ℕ → ℕ
depth_loop zero n depth = depth
depth_loop (suc fuel) n depth =
    let rest = depth_loop fuel (n / 16) (depth + 1) in if ltb 1 n then rest else depth

-- `(uint64(0xffffffffffffffff) << shift) >> shift`
pub key_hash_mask : ℕ → ℕ
key_hash_mask len = let shift = 64 - len * 8 in (2 ^ 64 - 1) * 2 ^ shift % 2 ^ 64 / 2 ^ shift

with_len : HStoreConfig → ℕ → Option ℕ → Option HStoreConfig
with_len c depth none = none
with_len c depth (some len) = some (record c {
  tree_depth = depth;
  tree_key_hash_len = len;
  tree_key_hash_mask = key_hash_mask len;
})

-- `KHASH_LENS[i-1]`; `none` is the panic of an index out of range.
abbrev pub len_before : ℕ → Option ℕ
len_before i = if i == 0 then none else get_elem? khash_lens (i - 1)

-- `none` is the panic of an index out of range of `KHASH_LENS`. The loop divides `n` by 16 in each round, so
-- `n` rounds are enough.
pub init_tree : HStoreConfig → Option HStoreConfig
unfolding with_len
init_tree c =
    let depth = depth_loop c.num_bucket c.num_bucket 0 in
    with_len c depth (len_before (depth + c.tree_height))
