-- ===== src/HTree/Summary.antt =====
-- setToLeaf and remvoeFromLeaf of store/htree.go: the node of a leaf against the items of the leaf.
use gobeansdb.Base.{
  ℕ, ◌+◌, ◌-◌, ◌*◌, ◌/◌, ◌%◌, ◌^◌, ◌<◌, ◌≡◌, refl, sym, ap, ◌∙◌, arith, Bool, true, false, inl, inr,
  Bool-cases, Option, none, some, List, if◌then◌else◌,
}
use gobeansdb.Record.{Position}
use gobeansdb.Leaf.{HTreeItem, removes, empty_item}
use gobeansdb.Leaf.Item.{IsStorable, overlay}
use gobeansdb.Leaf.Refine.{item_for, with_item, without_item, got, AllStorable}
use gobeansdb.HTree.{Node, weight, set_node, remove_node}
use gobeansdb.HTree.Totals.{
  total, old_part, is_live, live_unit, live_hash, Summarises, SameHash, total-with_item,
  total-without_item, Holds, item_for-Holds, item_for_hash,
}

-- The difference of two values, wrapped, times a weight.
diff_times :
    (new old m : ℕ)
    → old < 2 ^ 16
    → (q : ℕ) × ((new + 2 ^ 16 - old) % 2 ^ 16 * m + old * m + q * 2 ^ 16 ≡ new * m + m * 2 ^ 16)
diff_times new old m small = (
  (new + 2 ^ 16 - old) / 2 ^ 16 * m,
  scaled ((new + 2 ^ 16 - old) % 2 ^ 16) ((new + 2 ^ 16 - old) / 2 ^ 16) (omega arith),
)
  where
    scaled :
        (a q : ℕ)
        → a + q * 2 ^ 16 + old ≡ new + 2 ^ 16
        → a * m + old * m + q * m * 2 ^ 16 ≡ new * m + m * 2 ^ 16
    scaled a q e = grind (arith, ap (λ (t : ℕ). t * m) e)

-- The arithmetic of `setToLeaf`, whether a live item came and whether one left.
counts :
    (came left : Bool) (n t t' : ℕ)
    → n ≡ t % 2 ^ 32
    → t' + (if left then 1 else 0) ≡ t + (if came then 1 else 0)
    → (if left
        then ((if came then (n + 1) % 2 ^ 32 else n) + 2 ^ 32 - 1) % 2 ^ 32
        else if came
        then (n + 1) % 2 ^ 32
        else n)
      ≡ t' % 2 ^ 32
counts true true n t t' e f = omega arith
counts true false n t t' e f = omega arith
counts false true n t t' e f = omega arith
counts false false n t t' e f = omega arith

hashes :
    (left : Bool) (n u u' new old m m' : ℕ)
    → n ≡ u % 2 ^ 16
    → u' + (if left then old else 0) * m' ≡ u + new * m
    → m' ≡ m
    → old < 2 ^ 16
    → (n + (if left then (new + 2 ^ 16 - old) % 2 ^ 16 else new) * m % 2 ^ 16) % 2 ^ 16
      ≡ u' % 2 ^ 16
hashes false n u u' new old m m' e f same small = omega arith
hashes true n u u' new old m m' e f same small =
    let (q, d) = diff_times new old m small in
    let f' : u' + old * m ≡ u + new * m = ap (λ (t : ℕ). u' + old * t) (sym same) ∙ f in
    omega (arith, d, f')

took :
    (n m t t' u u' v w w' : ℕ)
    → n ≡ t % 2 ^ 32
    → m ≡ u % 2 ^ 16
    → t' + 1 ≡ t
    → u' + v * w' ≡ u
    → w' ≡ w
    → ((n + 2 ^ 32 - 1) % 2 ^ 32 ≡ t' % 2 ^ 32)
      × ((m + 2 ^ 16 - v * w % 2 ^ 16) % 2 ^ 16 ≡ u' % 2 ^ 16)
took n m t t' u u' v w w' e f p q same =
    let q' : u' + v * w ≡ u = ap (λ (x : ℕ). u' + v * x) (sym same) ∙ q in
    (omega arith, omega (arith, q'))

stays :
    (n m t t' u u' w : ℕ)
    → n ≡ t % 2 ^ 32
    → m ≡ u % 2 ^ 16
    → t' + 0 ≡ t
    → u' + 0 * w ≡ u
    → (n ≡ t' % 2 ^ 32) × (m ≡ u' % 2 ^ 16)
stays n m t t' u u' w e f p q = omega arith

module _ (k h : ℕ) where
  -- The node after `Set` reported `o` as the old item.
  abbrev pub set_result : Node → HTreeItem → Option HTreeItem → Node
  set_result node item o = set_node node h item (got o empty_item).0 (got o empty_item).1

  -- The old item that `Remove` reports for the first item of the hash, and whether it is taken out.
  abbrev pub taken : Position → Option HTreeItem → HTreeItem × Bool
  taken old_pos none = (empty_item, false)
  taken old_pos (some e) = (overlay e empty_item, removes old_pos e)

  abbrev pub remove_result : Node → Position → Option HTreeItem → Node
  remove_result node old_pos o = remove_node node h (taken old_pos o).0 (taken old_pos o).1

  set_node_step :
      (node : Node) (item : HTreeItem) (o : Option HTreeItem) (t t' u u' : ℕ)
      → node.count ≡ t % 2 ^ 32
      → node.hash ≡ u % 2 ^ 16
      → t' + old_part live_unit o ≡ t + live_unit item
      → u' + old_part live_hash o ≡ u + live_hash (record item { key_hash = h })
      → Holds k h (λ e. e.vhash < 2 ^ 16) o
      → Holds k h (λ e. e.key_hash ≡ h) o
      → ((set_result node item o).count ≡ t' % 2 ^ 32)
        × ((set_result node item o).hash ≡ u' % 2 ^ 16)
  unfolding set_node
  set_node_step node item none t t' u u' c d p q small hash = (
    counts (is_live item) false node.count t t' c p,
    hashes false node.hash u u' (if is_live item then item.vhash else 0) 0 (weight h) (weight h) d
        (omega (arith, q)) refl (omega arith),
  )
  set_node_step node item (some e) t t' u u' c d p q small hash = (
    counts (is_live item) (is_live e) node.count t t' c p,
    hashes (is_live e) node.hash u u' _ e.vhash (weight h) (weight e.key_hash) d q (ap weight hash)
        small,
  )

  small_hash : (o : Option HTreeItem) → Holds k h IsStorable o → Holds k h (λ e. e.vhash < 2 ^ 16) o
  small_hash none s = s
  small_hash (some e) s = s.vhash

  -- `Set` on a leaf of storable items, of which those with the stored bytes of the hash have that
  -- hash, leaves a node that summarises the leaf, if it did so before.
  pub set_node-Summarises :
      (node : Node) (item : HTreeItem) (es : List HTreeItem)
      → AllStorable es
      → SameHash k h es
      → Summarises node es
      → Summarises (set_result node item (item_for k h es)) (with_item k h item es)
  set_node-Summarises node item es storable same s =
      let vhash : Holds k h (λ e. e.vhash < 2 ^ 16) (item_for k h es) =
        small_hash (item_for k h es) (item_for-Holds k h IsStorable es storable) in
      let (c, d) =
        set_node_step node item (item_for k h es) _ _ _ _ s.count s.hash
          (total-with_item k h live_unit item es) (total-with_item k h live_hash item es) vhash
          (item_for_hash k h es same) in
      record { count = c; hash = d }

  -- What `Remove` leaves of the items.
  unfoldable pub remaining : Position → List HTreeItem → Option HTreeItem → List HTreeItem
  remaining old_pos es none = es
  remaining old_pos es (some e) = if removes old_pos e then without_item k h es else es

  remove_step :
      (node : Node) (old_pos : Position) (o : Option HTreeItem) (es : List HTreeItem)
      → Summarises node es
      → total live_unit (without_item k h es) + old_part live_unit o ≡ total live_unit es
      → total live_hash (without_item k h es) + old_part live_hash o ≡ total live_hash es
      → Holds k h (λ e. e.vhash < 2 ^ 16) o
      → Holds k h (λ e. e.key_hash ≡ h) o
      → Summarises (remove_result node old_pos o) (remaining old_pos es o)
  unfolding remove_node remaining
  remove_step node old_pos none es s p q small hash = record { count = s.count; hash = s.hash }
  remove_step node old_pos (some e) es s p q small hash = elim (Bool-cases (removes old_pos e)) [
    | inr kept ↦ rw kept (record { count = s.count; hash = s.hash })
    | inl gone ↦ elim (Bool-cases (is_live e)) [
      | inl live ↦
          let (c, d) =
            took node.count node.hash _ _ _ _ e.vhash (weight h) (weight e.key_hash) s.count s.hash
              (rw live at p) (rw live at q) (ap weight hash) in
          rw (gone, live) (record { count = c; hash = d })
      | inr dead ↦
          let (c, d) =
            stays node.count node.hash _ _ _ _ (weight e.key_hash) s.count s.hash (rw dead at p)
              (rw dead at q) in
          rw (gone, dead) (record { count = c; hash = d })
    ]
  ]

  pub remove_node-Summarises :
      (node : Node) (old_pos : Position) (es : List HTreeItem)
      → AllStorable es
      → SameHash k h es
      → Summarises node es
      → Summarises
          (remove_result node old_pos (item_for k h es))
          (remaining old_pos es (item_for k h es))
  remove_node-Summarises node old_pos es storable same s =
      remove_step node old_pos (item_for k h es) es s (total-without_item k h live_unit es)
        (total-without_item k h live_hash es)
        (small_hash (item_for k h es) (item_for-Holds k h IsStorable es storable))
        (item_for_hash k h es same)
