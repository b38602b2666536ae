-- ===== src/HTree/Removal.antt =====
-- `remove` of store/htree.go, against the lists of items of the leaves.
use gobeansdb.Base.{
  ℕ, ◌<◌, ◌≤◌, ◌≡◌, refl, ap, ◌∙◌, Bool, false, inl, inr, Bool-cases, Option, none, some, List, [],
  ◌∷◌, length, drop, set, get_or, if◌then◌else◌,
}
use mathlib.Core.Option as Opt
use gobeansdb.Record.{Position}
use gobeansdb.Key.{KeyInfo}
use gobeansdb.Leaf.{HTreeItem, leaf_remove, removes, empty_item}
use gobeansdb.Leaf.Item.{overlay}
use gobeansdb.Leaf.Refine.{
  AllStorable, encode, item_for, without_item, same_key, leaf_remove-encode,
}
use gobeansdb.HTree.{HTree, get_leaf, remove_from_leaf, remove_node, tree_remove}
use gobeansdb.HTree.Totals.{SameHash}
use gobeansdb.HTree.Summary.{taken, remaining, remove_node-Summarises}
use gobeansdb.HTree.Contents.{
  IsTree, last_row-invalid_levels, length-invalid_levels, leaf_here, All-get_or, written,
  written-IsTree,
}
use gobeansdb.HTree.Update.{levels_on, found}

module _ (k : ℕ) (short : k ≤ 8) (h : ℕ) where
  without_item-AllStorable :
      (es : List HTreeItem) → AllStorable es → AllStorable (without_item k h es)
  unfolding without_item
  without_item-AllStorable [] s = s
  without_item-AllStorable (e ∷ es) s = elim (Bool-cases (same_key k h e)) [
    | inl same ↦ rw same s.1
    | inr other ↦ rw other (s.0, without_item-AllStorable es s.1)
  ]

  remaining-AllStorable :
      (old_pos : Position) (es : List HTreeItem) (o : Option HTreeItem)
      → AllStorable es
      → AllStorable (remaining k h old_pos es o)
  unfolding remaining
  remaining-AllStorable old_pos es none s = s
  remaining-AllStorable old_pos es (some e) s = elim (Bool-cases (removes old_pos e)) [
    | inl gone ↦ rw gone (without_item-AllStorable es s)
    | inr kept ↦ rw kept s
  ]

  -- `Remove` on the bytes leaves those of the remaining items.
  leaf_remove-remaining :
      (old_pos : Position) (es : List HTreeItem)
      → AllStorable es
      → leaf_remove k (encode k es) h old_pos
        ≡ some (
          encode k (remaining k h old_pos es (item_for k h es)),
          (taken k h old_pos (item_for k h es)).0,
          (taken k h old_pos (item_for k h es)).1,
        )
  leaf_remove-remaining old_pos es s =
      leaf_remove-encode k short h es s old_pos ∙ ap some (bytes (item_for k h es))
    where
      bytes :
          (o : Option HTreeItem)
          → ◌≡◌ {A = List ℕ × HTreeItem × Bool}
              (elim o [
                | none ↦ (encode k es, empty_item, false)
                | some e ↦ (
                  if removes old_pos e then encode k (without_item k h es) else encode k es,
                  overlay e empty_item,
                  removes old_pos e,
                )
              ])
              (
                encode k (remaining k h old_pos es o),
                (taken k h old_pos o).0,
                (taken k h old_pos o).1,
              )
      bytes none = unfold remaining in refl
      bytes (some e) =
          unfold remaining in
          elim (Bool-cases (removes old_pos e)) [
            | inl gone ↦ rw gone refl
            | inr kept ↦ rw kept refl
          ]

module _ (k : ℕ) (short : k ≤ 8) (tree : HTree) (contents : List (List HTreeItem))
    (t : IsTree k short tree contents) (offset : ℕ) (here : offset < length contents) where
  -- What `remove` leaves of the items of the leaf.
  abbrev pub left_of : ℕ → Position → List HTreeItem
  left_of h old_pos =
      remaining k h old_pos (get_or contents offset []) (item_for k h (get_or contents offset []))

  abbrev outcome : ℕ → Position → HTreeItem × Bool
  outcome h old_pos = taken k h old_pos (item_for k h (get_or contents offset []))

  abbrev after : KeyInfo → Position → HTree
  after ki old_pos =
      written k short tree contents t offset here (left_of ki.key_hash old_pos)
        (λ oldm removed node. remove_node node ki.key_hash oldm removed)
        (outcome ki.key_hash old_pos).0 (outcome ki.key_hash old_pos).1 (levels_on tree ki)

  remove_written :
      (ki : KeyInfo) (old_pos : Position)
      → get_leaf tree ki ≡ some offset
      → tree_remove k tree ki old_pos ≡ some (after ki old_pos)
  unfolding tree_remove remove_from_leaf Opt.bind
  remove_written ki old_pos e = rw (found k short tree contents t offset here ki e) (
      rw (leaf_here k short tree contents t offset here) (
        rw
          (leaf_remove-remaining k short ki.key_hash old_pos (get_or contents offset [])
            (All-get_or AllStorable contents offset [] t.storable here))
          refl))

  -- On a tree that encodes a list of storable items for each leaf, with nodes that summarise them, where
  -- the key's path leads to a leaf and only items of the key's hash share its stored bytes there, `remove`
  -- succeeds, and leaves such a tree. The first item for the hash is gone from the list of that leaf if
  -- its offset is the given one or the given chunk is -1, and nothing else of the items changes.
  pub tree_remove-IsTree :
      (ki : KeyInfo) (old_pos : Position)
      → get_leaf tree ki ≡ some offset
      → SameHash k ki.key_hash (get_or contents offset [])
      → (tree' : HTree) × (tree_remove k tree ki old_pos ≡ some tree')
        × IsTree k short tree' (
            set contents offset (
              remaining k ki.key_hash old_pos
                (get_or contents offset [])
                (item_for k ki.key_hash (get_or contents offset []))))
  tree_remove-IsTree ki old_pos e same =
      let old : AllStorable (get_or contents offset []) =
        All-get_or AllStorable contents offset [] t.storable here in
      (
        after ki old_pos,
        remove_written ki old_pos e,
        written-IsTree k short tree contents t offset here (left_of ki.key_hash old_pos)
            (λ oldm removed node. remove_node node ki.key_hash oldm removed)
            (outcome ki.key_hash old_pos).0 (outcome ki.key_hash old_pos).1 (levels_on tree ki)
            (length-invalid_levels 0 (drop tree.depth ki.key_path) tree.levels)
            (last_row-invalid_levels 0 (drop tree.depth ki.key_path) tree.levels)
            (remove_node-Summarises k ki.key_hash _ old_pos (get_or contents offset []) old same
              (t.node offset here))
            (remaining-AllStorable k short ki.key_hash old_pos (get_or contents offset []) _ old),
      )
