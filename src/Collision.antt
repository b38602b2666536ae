-- ===== src/Collision.antt =====
-- store/collision.go and the order of positions of store/item.go: the table of keys that share a hash,
-- with an item for each.
pub mod Newest
mod Tests
use gobeansdb.Base.{
  ℕ, ◌+◌, ◌*◌, ◌%◌, ◌^◌, Bool, true, false, ◌||◌, Option, none, some, List, ◌==◌, if◌then◌else◌,
  bytes_eq,
}
use gobeansdb.Base.Int.{ℤ, to_u64, of_u64, leb_ℤ}
use gobeansdb.Record.{Position}
use gobeansdb.Leaf.{HTreeItem}

pub record HintItem : Type 0 where
  pub meta : HTreeItem
  pub key : List ℕ

-- `(int64(pos.ChunkID) << 32) + int64(pos.Offset)`
pub cmp_key : Position → ℤ
cmp_key at = of_u64 ((to_u64 at.chunk_id * 2 ^ 32 + at.offset) % 2 ^ 64)

-- A Go map is the function that looks up in it.
pub record CollisionTable : Type 0 where
  pub items : ℕ → Option (List ℕ → Option HintItem)

abbrev pub empty_table : CollisionTable
empty_table = record { items = λ h. none }

-- Whether the key is in the inner map, and its item.
lookup : Option (List ℕ → Option HintItem) → List ℕ → Option HintItem × Bool
lookup none key = (none, false)
lookup (some keys) key = (keys key, true)

-- `get`: the item, and whether the hash is in the table.
pub get : CollisionTable → ℕ → List ℕ → Option HintItem × Bool
unfolding lookup
get table keyhash key = lookup (table.items keyhash) key

put_key : (List ℕ → Option HintItem) → HintItem → List ℕ → Option HintItem
put_key keys it key = if bytes_eq it.key key then some it else keys key

-- `!ok || reason == "gc" || it.Pos.CmpKey() >= old.Pos.CmpKey()`
replaces : Bool → HintItem → Option HintItem → Bool
replaces gc it none = true
replaces gc it (some old) = gc || leb_ℤ (cmp_key old.meta.at) (cmp_key it.meta.at)

-- The map of the keys of a hash after `compareAndSet`.
new_keys : Bool → HintItem → Option (List ℕ → Option HintItem) → List ℕ → Option HintItem
new_keys gc it none = put_key (λ key. none) it
new_keys gc it (some keys) = if replaces gc it (keys it.key) then put_key keys it else keys

-- `compareAndSet`; `gc` is `reason == "gc"`.
pub compare_and_set : CollisionTable → HintItem → Bool → CollisionTable
unfolding new_keys put_key replaces
compare_and_set table it gc = record {
  items = λ h.
      if it.meta.key_hash == h
      then some (new_keys gc it (table.items it.meta.key_hash))
      else table.items h;
}
