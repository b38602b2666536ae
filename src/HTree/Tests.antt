-- ===== src/HTree/Tests.antt =====
-- Runs of the code of HTree on a new tree of two levels below level 1, with two bytes of each hash.
use gobeansdb.Base.{
  ℕ, ◌*◌, ◌%◌, ◌^◌, ◌≡◌, ◌≢◌, refl, arith, true, false, inl, some, List, [], ◌∷◌, set, replicate,
}
use gobeansdb.Base.Int.{pos}
use gobeansdb.Record.{Meta, Position}
use gobeansdb.Key.{KeyInfo}
use mathlib.Core.Option as Opt
use gobeansdb.Leaf.{HTreeItem, empty_item, leaf_remove, find_in_bytes, find_go}
use gobeansdb.Leaf.Item.{IsStorable, overlay}
use gobeansdb.Leaf.Refine.{with_item, item_for}
use gobeansdb.HTree.{
  HTree, Node, get_leaf, get_leaf_and_invalid_nodes, get_hex, leaf_offset, new_levels, item_of,
  new_htree, tree_set, tree_get, tree_remove, remove_from_leaf, weight,
}
use gobeansdb.HTree.Totals.{Summarises, total}
use gobeansdb.HTree.Summary.{remaining}
use gobeansdb.HTree.Removal.{tree_remove-IsTree}
use gobeansdb.HTree.Contents.{IsTree, written, written-IsTree}
use gobeansdb.HTree.Update.{tree_set-IsTree, tree_get-tree_set}
use gobeansdb.HTree.Start.{new_tree, new_tree-IsTree, new_htree-IsTree}

abbrev tree : HTree
tree = new_tree 1 0 0

abbrev contents : List (List HTreeItem)
contents = replicate 16 []

tree-IsTree : IsTree 2 (omega arith) tree contents
tree-IsTree = new_tree-IsTree 2 (omega arith) 1 0 0

abbrev key : ℕ → List ℕ → KeyInfo
key h path = record {
  key_hash = h;
  key_is_path = false;
  key = [];
  key_path = path;
  bucket_id = pos 0;
}

abbrev meta : Meta
meta = record { ts = 0; flag = 0; ver = pos 3; value_hash = 99; rec_size = 256 }

abbrev at : Position
at = record { chunk_id = pos 1; offset = 512 }

abbrev one : KeyInfo
one = key 0x0512345678901234 (0 ∷ 5 ∷ 1 ∷ [])

abbrev two : KeyInfo
two = key 0x0612345678901234 (0 ∷ 6 ∷ 1 ∷ [])

leaf_one : get_leaf tree one ≡ some 5
unfolding get_leaf leaf_offset new_levels
leaf_one = refl

leaf_two : get_leaf tree two ≡ some 6
unfolding get_leaf leaf_offset new_levels
leaf_two = refl

-- The first digit below the root of a tree at depth 1 is the second one of the hash.
digit : get_hex tree one.key_hash 0 ≡ 5
unfolding get_hex
digit = refl

-- A removal from a leaf with no item changes nothing that `get` sees.
removed_nothing : (t : HTree) × (tree_remove 2 tree one at ≡ some t)
unfolding tree_remove get_leaf_and_invalid_nodes get_leaf leaf_offset new_levels Opt.bind
    remove_from_leaf leaf_remove find_in_bytes find_go
removed_nothing = (_, refl)

item-IsStorable : IsStorable (item_of one meta at)
item-IsStorable = record {
  ver = omega arith;
  vhash = omega arith;
  offset = omega arith;
  aligned = refl;
  chunk = 1;
  chunk_is = refl;
  chunk_fits = omega arith;
}

abbrev item : HTreeItem
item = item_of one meta at

abbrev counted : Node
counted = record { count = 1; hash = 99 * weight item.key_hash % 2 ^ 16; is_hash_updated = true }

counted-Summarises : Summarises counted (item ∷ [])
unfolding total
counted-Summarises = record { count = refl; hash = refl }

-- The tree with one item, in leaf 5.
abbrev tree_of_one : HTree
tree_of_one =
    written 2 (omega arith) tree contents tree-IsTree 5 (omega arith) (item ∷ [])
      (λ oldm exist node. counted) empty_item false tree.levels

tree_of_one-IsTree : IsTree 2 (omega arith) tree_of_one (set contents 5 (item ∷ []))
tree_of_one-IsTree =
    written-IsTree 2 (omega arith) tree contents tree-IsTree 5 (omega arith) (item ∷ [])
      (λ oldm exist node. counted) empty_item false tree.levels refl refl counted-Summarises
      (item-IsStorable, _)

leaf_of_one : get_leaf tree_of_one one ≡ some 5
unfolding get_leaf leaf_offset new_levels
leaf_of_one = refl

-- The item goes.
tree_remove-IsTree_example :
    (t : HTree) × (tree_remove 2 tree_of_one one at ≡ some t)
    × IsTree 2 (omega arith) t (
        set
          (set contents 5 (item ∷ []))
          5
          (remaining 2 one.key_hash at (item ∷ []) (item_for 2 one.key_hash (item ∷ []))))
tree_remove-IsTree_example =
    tree_remove-IsTree 2 (omega arith) tree_of_one (set contents 5 (item ∷ [])) tree_of_one-IsTree 5
      (omega arith) one at leaf_of_one ((λ _. refl), _)

new_htree-IsTree_example :
    (t : HTree) × (new_htree 1 0 2 ≡ some t) × IsTree 2 (omega arith) t (replicate (16 ^ 1) [])
new_htree-IsTree_example = new_htree-IsTree 2 (omega arith) 1 0 0 (omega arith)

tree_set-IsTree_example :
    (t : HTree) × (tree_set 2 tree one meta at ≡ some t)
    × IsTree 2 (omega arith) t (set contents 5 (with_item 2 one.key_hash (item_of one meta at) []))
tree_set-IsTree_example =
    tree_set-IsTree 2 (omega arith) tree contents tree-IsTree 5 (omega arith) one meta at leaf_one
      item-IsStorable _

tree_get-tree_set_example :
    (t : HTree) × (tree_set 2 tree one meta at ≡ some t)
    × (tree_get 2 t one ≡ some (overlay (item_of one meta at) empty_item, true))
    × (tree_get 2 t two ≡ tree_get 2 tree two)
tree_get-tree_set_example =
    tree_get-tree_set 2 (omega arith) tree contents tree-IsTree 5 (omega arith) one meta at two 6
      leaf_one item-IsStorable _ leaf_two (omega arith) (inl six_not_five)
  where
    six_not_five : ◌≢◌ {A = ℕ} 6 5
    six_not_five e = omega arith
