-- ===== src/HTree.antt =====
-- store/htree.go: the tree of one bucket. Its nodes lie in one array for each level, and the leaves, below
-- the last level, are byte arrays (Leaf). `none` is the panic of an index out of range.
pub mod Totals
pub mod Summary
pub mod Contents
pub mod Update
pub mod Removal
pub mod Start
mod Tests
use gobeansdb.Base.{
  ℕ, zero, suc, ◌+◌, ◌-◌, ◌*◌, ◌/◌, ◌%◌, ◌^◌, Bool, true, false, ◌&&◌, Option, none, some, List, [],
  ◌∷◌, length, drop, set, get_elem?, get_or, replicate, ltb, leb, if◌then◌else◌,
}
use mathlib.Core.Option as Opt
use gobeansdb.Base.Int.{ℤ, pos, ltb_ℤ}
use gobeansdb.Record.{Meta, Position}
use gobeansdb.Key.{KeyInfo}
use gobeansdb.Leaf.{HTreeItem, leaf_set, leaf_get, leaf_remove, empty_item}

pub record Node : Type 0 where
  pub count : ℕ
  pub hash : ℕ
  pub is_hash_updated : Bool

abbrev pub zero_node : Node
zero_node = record { count = 0; hash = 0; is_hash_updated = false }

pub record HTree : Type 0 where
  pub depth : ℕ
  pub bucket_id : ℕ
  pub levels : List (List Node)
  pub leafs : List (List ℕ)

abbrev pub max_depth : ℕ
max_depth = 8

-- The levels of `newHTree` from one of `size` nodes on: those of the last are up to date.
pub new_levels : ℕ → ℕ → List (List Node)
new_levels zero size = []
new_levels (suc zero) size = replicate size (record zero_node { is_hash_updated = true }) ∷ []
new_levels (suc (suc n)) size = replicate size zero_node ∷ new_levels (suc n) (size * 16)

unfoldable pub new_htree : ℕ → ℕ → ℕ → Option HTree
unfolding new_levels
new_htree depth bucket_id zero = none
new_htree depth bucket_id (suc height) =
    if ltb max_depth (depth + suc height)
    then none
    else some (record {
      depth = depth;
      bucket_id = bucket_id;
      levels = new_levels (suc height) 1;
      leafs = replicate (16 ^ height) [];
    })

-- `getHex`: the digit of a hash for a level of the tree.
pub get_hex : HTree → ℕ → ℕ → ℕ
get_hex tree khash level = khash / 2 ^ ((16 - (level + tree.depth) - 1) * 4) % 16

-- `ni.offset = ni.offset*16 + path[level-1]`, for so many levels.
unfoldable pub leaf_offset : ℕ → ℕ → List ℕ → Option ℕ
leaf_offset zero offset path = some offset
leaf_offset (suc n) offset [] = none
leaf_offset (suc n) offset (v ∷ path) = leaf_offset n (offset * 16 + v) path

-- `getLeaf`: the offset of the leaf for a key.
pub get_leaf : HTree → KeyInfo → Option ℕ
get_leaf tree ki =
    if ltb (length ki.key_path) tree.depth
    then none
    else leaf_offset (length tree.levels - 1) 0 (drop tree.depth ki.key_path)

abbrev outdated : List Node → ℕ → List Node
outdated row offset =
    set row offset (record (get_or row offset zero_node) { is_hash_updated = false })

-- The levels between the root and the last on the way of a path, no longer up to date.
unfoldable pub invalid_levels : ℕ → List ℕ → List (List Node) → List (List Node)
invalid_levels offset path [] = []
invalid_levels offset path (row ∷ []) = row ∷ []
invalid_levels offset [] (row ∷ next ∷ rows) = outdated row offset ∷ next ∷ rows
invalid_levels offset (v ∷ path) (row ∷ next ∷ rows) =
    outdated row offset ∷ invalid_levels (offset * 16 + v) path (next ∷ rows)

-- `getLeafAndInvalidNodes`. A tree of one level has no digit `path[ni.level-1]`, and panics.
pub get_leaf_and_invalid_nodes : HTree → KeyInfo → Option (HTree × ℕ)
get_leaf_and_invalid_nodes tree ki =
    let invalid = record tree {
      levels = invalid_levels 0 (drop tree.depth ki.key_path) tree.levels;
    } in
    if leb (length tree.levels) 1
    then none
    else Opt.map (λ offset. (invalid, offset)) (get_leaf tree ki)

-- `uint16(ki.KeyHash>>32)`
abbrev pub weight : ℕ → ℕ
weight khash = khash / 2 ^ 32 % 2 ^ 16

-- The node of a leaf after `setToLeaf` wrote an item over an old one, if that existed.
pub set_node : Node → ℕ → HTreeItem → HTreeItem → Bool → Node
set_node node khash item oldm exist =
    let came = ltb_ℤ (pos 0) item.ver in
    let left = exist && ltb_ℤ (pos 0) oldm.ver in
    let vhash = if came then item.vhash else 0 in
    let count = if came then (node.count + 1) % 2 ^ 32 else node.count in
    let vhash' = if left then (vhash + 2 ^ 16 - oldm.vhash) % 2 ^ 16 else vhash in
    record node {
      count = if left then (count + 2 ^ 32 - 1) % 2 ^ 32 else count;
      hash = (node.hash + vhash' * weight khash % 2 ^ 16) % 2 ^ 16;
    }

-- The node of a leaf after `remvoeFromLeaf`.
pub remove_node : Node → ℕ → HTreeItem → Bool → Node
remove_node node khash oldm removed =
    if removed && ltb_ℤ (pos 0) oldm.ver
    then record node {
      count = (node.count + 2 ^ 32 - 1) % 2 ^ 32;
      hash = (node.hash + 2 ^ 16 - oldm.vhash * weight khash % 2 ^ 16) % 2 ^ 16;
    }
    else node

-- The node of the leaf at `offset`, changed by `f`.
abbrev change_node : HTree → ℕ → (Node → Node) → HTree
change_node tree offset f =
    let last = length tree.levels - 1 in
    let row = get_or tree.levels last [] in
    record tree { levels = set tree.levels last (set row offset (f (get_or row offset zero_node))) }

-- The tree after a leaf and its node were written.
abbrev pub with_leaf :
    HTree → ℕ → (HTreeItem → Bool → Node → Node) → List ℕ × HTreeItem × Bool → HTree
with_leaf tree offset f (leaf, oldm, hit) =
    change_node (record tree { leafs = set tree.leafs offset leaf }) offset (f oldm hit)

-- The request of `set`.
abbrev pub item_of : KeyInfo → Meta → Position → HTreeItem
item_of ki meta at = record {
  key_hash = ki.key_hash;
  at = at;
  ver = meta.ver;
  vhash = meta.value_hash;
}

-- `k` is `Conf.TreeKeyHashLen`.
module _ (k : ℕ) where
  -- `setToLeaf` at the leaf of `offset`.
  pub set_to_leaf : HTree → ℕ → ℕ → HTreeItem → Option HTree
  set_to_leaf tree offset khash item = Opt.bind (get_elem? tree.leafs offset) (λ leaf.
      Opt.map (with_leaf tree offset (λ oldm exist node. set_node node khash item oldm exist))
        (leaf_set k leaf khash item))

  -- `remvoeFromLeaf` at the leaf of `offset`.
  pub remove_from_leaf : HTree → ℕ → ℕ → Position → Option HTree
  remove_from_leaf tree offset khash old_pos = Opt.bind (get_elem? tree.leafs offset) (λ leaf.
      Opt.map (with_leaf tree offset (λ oldm removed node. remove_node node khash oldm removed))
        (leaf_remove k leaf khash old_pos))

  -- `set`
  pub tree_set : HTree → KeyInfo → Meta → Position → Option HTree
  tree_set tree ki meta at =
      Opt.bind (get_leaf_and_invalid_nodes tree ki)
        (λ found. set_to_leaf found.0 found.1 ki.key_hash (item_of ki meta at))

  -- `remove`
  pub tree_remove : HTree → KeyInfo → Position → Option HTree
  tree_remove tree ki old_pos =
      Opt.bind (get_leaf_and_invalid_nodes tree ki)
        (λ found. remove_from_leaf found.0 found.1 ki.key_hash old_pos)

  -- `get`: what it fills of the meta data and of the position is what the item holds.
  pub tree_get : HTree → KeyInfo → Option (HTreeItem × Bool)
  tree_get tree ki = Opt.bind (get_leaf tree ki) (λ offset.
      Opt.bind (get_elem? tree.leafs offset) (λ leaf. leaf_get k leaf ki.key_hash empty_item))
