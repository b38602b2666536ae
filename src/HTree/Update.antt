-- ===== src/HTree/Update.antt =====
-- `set` and `get` of store/htree.go, against the lists of items of the leaves.
use gobeansdb.Base.{
  ℕ, ◌-◌, ◌<◌, ◌≤◌, ◌≡◌, refl, sym, ap, ◌∙◌, arith, none, ltb, if◌then◌else◌, true, false, inl, inr,
  Bool-cases, some, List, [], ◌∷◌, length, drop, set, get_or, get_or-set_self, get_or-set,
  length-set, ◌⊎◌, ==_iff, ◌==◌, lt→leb_false, ◌≢◌, bytes_eq, bytes_eq_iff, bytes_eq_refl,
}
use mathlib.Core.Option as Opt
use mathlib.Core.Path.{subst}
use mathlib.Core.Bool.{false≢true}
use gobeansdb.Record.{Meta, Position}
use gobeansdb.Key.{KeyInfo}
use gobeansdb.Leaf.{HTreeItem, empty_item}
use gobeansdb.Leaf.Item.{IsStorable, overlay}
use gobeansdb.Leaf.Refine.{
  AllStorable, item_for, with_item, got, same_key, hash_bytes, leaf_set-encode,
}
use gobeansdb.HTree.{
  HTree, Node, set_node, get_leaf, leaf_offset, get_leaf_and_invalid_nodes, invalid_levels,
  set_to_leaf, item_of, tree_set, tree_get,
}
use gobeansdb.HTree.Totals.{SameHash}
use gobeansdb.HTree.Summary.{set_node-Summarises}
use gobeansdb.HTree.Contents.{
  IsTree, last_row-invalid_levels, length-invalid_levels, leaf_here, with_item-AllStorable,
  All-get_or, written, written-IsTree, tree_get-IsTree,
}

bytes_differ : (xs ys : List ℕ) → xs ≢ ys → bytes_eq xs ys ≡ false
bytes_differ xs ys ne = elim (Bool-cases (bytes_eq xs ys)) [
  | inl e ↦ absurd (ne ((bytes_eq_iff xs ys).0 e))
  | inr e ↦ e
]

module _ (k h : ℕ) (item : HTreeItem) where
  item_for-with_item :
      (es : List HTreeItem)
      → item_for k h (with_item k h item es) ≡ some (record item { key_hash = h })
  unfolding item_for with_item
  item_for-with_item [] = rw (bytes_eq_refl (hash_bytes k h))
  item_for-with_item (e ∷ es) = elim (Bool-cases (same_key k h e)) [
    | inl same ↦ rw (same, bytes_eq_refl (hash_bytes k h))
    | inr other ↦ rw other (rw other (item_for-with_item es))
  ]

  -- An item of other stored bytes is found as before.
  item_for-with_item_other :
      (h' : ℕ) (es : List HTreeItem)
      → hash_bytes k h ≢ hash_bytes k h'
      → item_for k h' (with_item k h item es) ≡ item_for k h' es
  unfolding item_for with_item
  item_for-with_item_other h' [] ne = rw (bytes_differ _ _ ne)
  item_for-with_item_other h' (e ∷ es) ne = elim (Bool-cases (same_key k h e)) [
    | inl same ↦
        let not_same : same_key k h' e ≡ false =
          bytes_differ _ _ (λ x. ne (sym ((bytes_eq_iff _ _).0 same) ∙ x)) in
        rw (same, bytes_differ _ _ ne, not_same)
    | inr other ↦ rw other (elim (Bool-cases (same_key k h' e)) [
      | inl same' ↦ rw same'
      | inr other' ↦ rw other' (item_for-with_item_other h' es ne)
    ])
  ]

-- The levels of a tree out of date on the way of a key.
abbrev pub levels_on : HTree → KeyInfo → List (List Node)
levels_on tree ki = invalid_levels 0 (drop tree.depth ki.key_path) tree.levels

module _ (k : ℕ) (short : k ≤ 8) (tree : HTree) (contents : List (List HTreeItem))
    (t : IsTree k short tree contents) (offset : ℕ) (here : offset < length contents) where
  abbrev old_items : List HTreeItem
  old_items = get_or contents offset []

  pub found :
      (ki : KeyInfo)
      → get_leaf tree ki ≡ some offset
      → get_leaf_and_invalid_nodes tree ki
        ≡ some (record tree { levels = levels_on tree ki }, offset)
  unfolding get_leaf_and_invalid_nodes
  found ki e = rw (lt→leb_false (length tree.levels) 1 t.tall, e)

  -- The tree after `set`.
  abbrev after : KeyInfo → Meta → Position → HTree
  after ki meta at =
      written k short tree contents t offset here
        (with_item k ki.key_hash (item_of ki meta at) old_items)
        (λ oldm e node. set_node node ki.key_hash (item_of ki meta at) oldm e)
        (got (item_for k ki.key_hash old_items) empty_item).0
        (got (item_for k ki.key_hash old_items) empty_item).1 (levels_on tree ki)

  abbrev after_contents : KeyInfo → Meta → Position → List (List HTreeItem)
  after_contents ki meta at =
      set contents offset (with_item k ki.key_hash (item_of ki meta at) old_items)

  set_written :
      (ki : KeyInfo) (meta : Meta) (at : Position)
      → get_leaf tree ki ≡ some offset
      → tree_set k tree ki meta at ≡ some (after ki meta at)
  unfolding tree_set set_to_leaf Opt.bind
  set_written ki meta at e = rw (found ki e) (
      rw (leaf_here k short tree contents t offset here) (
        rw
          (leaf_set-encode k short ki.key_hash old_items
            (All-get_or AllStorable contents offset [] t.storable here) (item_of ki meta at))
          refl))

  after-IsTree :
      (ki : KeyInfo) (meta : Meta) (at : Position)
      → IsStorable (item_of ki meta at)
      → SameHash k ki.key_hash old_items
      → IsTree k short (after ki meta at) (after_contents ki meta at)
  after-IsTree ki meta at new same =
      let old : AllStorable old_items = All-get_or AllStorable contents offset [] t.storable here in
      written-IsTree k short tree contents t offset here
        (with_item k ki.key_hash (item_of ki meta at) old_items)
        (λ oldm e node. set_node node ki.key_hash (item_of ki meta at) oldm e)
        (got (item_for k ki.key_hash old_items) empty_item).0
        (got (item_for k ki.key_hash old_items) empty_item).1 (levels_on tree ki)
        (length-invalid_levels 0 (drop tree.depth ki.key_path) tree.levels)
        (last_row-invalid_levels 0 (drop tree.depth ki.key_path) tree.levels)
        (set_node-Summarises k ki.key_hash _ (item_of ki meta at) old_items old same
          (t.node offset here))
        (with_item-AllStorable k short ki.key_hash (item_of ki meta at) old_items new old)

  -- On a tree that encodes a list of storable items for each leaf, with nodes that summarise them, where
  -- the key's path leads to a leaf and only items of the key's hash share its stored bytes there, `set`
  -- of storable data succeeds, and leaves such a tree, with the item set in the list of that leaf.
  pub tree_set-IsTree :
      (ki : KeyInfo) (meta : Meta) (at : Position)
      → get_leaf tree ki ≡ some offset
      → IsStorable (item_of ki meta at)
      → SameHash k ki.key_hash old_items
      → (tree' : HTree) × (tree_set k tree ki meta at ≡ some tree')
        × IsTree k short tree'
            (set contents offset (with_item k ki.key_hash (item_of ki meta at) old_items))
  tree_set-IsTree ki meta at e new same =
      (after ki meta at, set_written ki meta at e, after-IsTree ki meta at new same)

  -- The path to a leaf is the same after `set`.
  same_leaf :
      (ki ki' : KeyInfo) (meta : Meta) (at : Position)
      → get_leaf (after ki meta at) ki' ≡ get_leaf tree ki'
  unfolding get_leaf
  same_leaf ki ki' meta at =
      ap
        (λ (n : ℕ).
          if ltb (length ki'.key_path) tree.depth
          then none
          else leaf_offset (n - 1) 0 (drop tree.depth ki'.key_path))
        (length-set (levels_on tree ki) _ _
          ∙ length-invalid_levels 0 (drop tree.depth ki.key_path) tree.levels)

  same_item_elsewhere :
      (h h' : ℕ) (item : HTreeItem) (offset' : ℕ)
      → offset' ≢ offset
      → item_for k h' (get_or (set contents offset (with_item k h item old_items)) offset' [])
        ≡ item_for k h' (get_or contents offset' [])
  same_item_elsewhere h h' item offset' ne =
      ap (item_for k h')
        (get_or-set contents offset offset' (with_item k h item old_items) [] (λ e. ne (sym e)))

  same_item :
      (h h' : ℕ) (item : HTreeItem) (offset' : ℕ)
      → (offset' ≢ offset) ⊎ (hash_bytes k h ≢ hash_bytes k h')
      → item_for k h' (get_or (set contents offset (with_item k h item old_items)) offset' [])
        ≡ item_for k h' (get_or contents offset' [])
  same_item h h' item offset' (inl ne) = same_item_elsewhere h h' item offset' ne
  same_item h h' item offset' (inr differ) = elim (Bool-cases (offset' == offset)) [
    | inr away ↦
        same_item_elsewhere h h' item offset'
          (λ e. false≢true (sym away ∙ (==_iff offset' offset).1 e))
    | inl yes_ ↦
        subst
          (λ (i : ℕ).
            item_for k h' (get_or (set contents offset (with_item k h item old_items)) i [])
            ≡ item_for k h' (get_or contents i []))
          (sym ((==_iff offset' offset).0 yes_))
          (ap (item_for k h')
              (get_or-set_self contents offset (with_item k h item old_items) [] here)
            ∙ item_for-with_item_other k h item h' old_items differ)
  ]

  -- On a tree that encodes a list of storable items for each leaf, with nodes that summarise them, where
  -- the key's path leads to a leaf and only items of the key's hash share its stored bytes there: after
  -- `set` of storable data, `get` of the same key finds the version, the hash of the value and the
  -- position that were set, and `get` of a key with another leaf, or with other stored bytes of the
  -- hash, answers what it did before.
  pub tree_get-tree_set :
      (ki : KeyInfo) (meta : Meta) (at : Position) (ki' : KeyInfo) (offset' : ℕ)
      → get_leaf tree ki ≡ some offset
      → IsStorable (item_of ki meta at)
      → SameHash k ki.key_hash old_items
      → get_leaf tree ki' ≡ some offset'
      → offset' < length contents
      → (offset' ≢ offset) ⊎ (hash_bytes k ki.key_hash ≢ hash_bytes k ki'.key_hash)
      → (tree' : HTree) × (tree_set k tree ki meta at ≡ some tree')
        × (tree_get k tree' ki ≡ some (overlay (item_of ki meta at) empty_item, true))
        × (tree_get k tree' ki' ≡ tree_get k tree ki')
  tree_get-tree_set ki meta at ki' offset' e new same e' here' apart =
      let t' : IsTree k short (after ki meta at) (after_contents ki meta at) =
        after-IsTree ki meta at new same in
      let same_size : length (after_contents ki meta at) ≡ length contents =
        length-set contents offset _ in
      (
        after ki meta at,
        set_written ki meta at e,
        tree_get-IsTree k short (after ki meta at) (after_contents ki meta at) t' offset
              (omega (arith, here, same_size)) ki (same_leaf ki ki meta at ∙ e)
            ∙ (λ i. some (
                got
                  (item_for k ki.key_hash (
                    get_or-set_self contents offset
                      (with_item k ki.key_hash (item_of ki meta at) old_items) [] here i))
                  empty_item))
            ∙ (λ i. some (
                got (item_for-with_item k ki.key_hash (item_of ki meta at) old_items i)
                  empty_item)),
        tree_get-IsTree k short (after ki meta at) (after_contents ki meta at) t' offset'
              (omega (arith, here', same_size)) ki' (same_leaf ki ki' meta at ∙ e')
            ∙ (λ i. some (
                got (same_item ki.key_hash ki'.key_hash (item_of ki meta at) offset' apart i)
                  empty_item))
            ∙ sym (tree_get-IsTree k short tree contents t offset' here' ki' e'),
      )
