-- ===== src/HTree/Totals.antt =====
-- Sums over the items of a leaf of store/htree.go: the live ones, and their weighted hashes.
use gobeansdb.Base.{
  ℕ, ◌+◌, ◌*◌, ◌%◌, ◌^◌, ◌≡◌, refl, arith, Bool, true, inl, inr, Bool-cases, Option, none, some,
  List, [], ◌∷◌, All, if◌then◌else◌,
}
use gobeansdb.Base.Int.{ltb_ℤ, pos}
use gobeansdb.Leaf.{HTreeItem}
use gobeansdb.Leaf.Refine.{same_key, item_for, with_item, without_item}
use gobeansdb.HTree.{Node, weight}

-- The sum of a measure over items, and of that of an item that may be missing.
unfoldable pub total : (HTreeItem → ℕ) → List HTreeItem → ℕ
total f [] = 0
total f (e ∷ es) = f e + total f es

abbrev pub old_part : (HTreeItem → ℕ) → Option HTreeItem → ℕ
old_part f none = 0
old_part f (some e) = f e

abbrev pub is_live : HTreeItem → Bool
is_live e = ltb_ℤ (pos 0) e.ver

abbrev pub live_unit : HTreeItem → ℕ
live_unit e = if is_live e then 1 else 0

abbrev pub live_hash : HTreeItem → ℕ
live_hash e = (if is_live e then e.vhash else 0) * weight e.key_hash

pub record Summarises (node : Node) (es : List HTreeItem) : Type 0 where
  pub count : node.count ≡ total live_unit es % 2 ^ 32
  pub hash : node.hash ≡ total live_hash es % 2 ^ 16

module _ (k h : ℕ) where
  -- All items that a search for `h` would take for its own have that very hash.
  abbrev pub SameHash : List HTreeItem → Type 0
  SameHash = All (λ e. same_key k h e ≡ true → e.key_hash ≡ h)

  pub total-with_item :
      (f : HTreeItem → ℕ) (item : HTreeItem) (es : List HTreeItem)
      → total f (with_item k h item es) + old_part f (item_for k h es)
        ≡ total f es + f (record item { key_hash = h })
  unfolding total with_item item_for
  total-with_item f item [] = omega arith
  total-with_item f item (e ∷ es) = elim (Bool-cases (same_key k h e)) [
    | inl same ↦ rw same (omega arith)
    | inr other ↦ rw other (omega (arith, total-with_item f item es))
  ]

  pub total-without_item :
      (f : HTreeItem → ℕ) (es : List HTreeItem)
      → total f (without_item k h es) + old_part f (item_for k h es) ≡ total f es
  unfolding total without_item item_for
  total-without_item f [] = refl
  total-without_item f (e ∷ es) = elim (Bool-cases (same_key k h e)) [
    | inl same ↦ rw same (omega arith)
    | inr other ↦ rw other (omega (arith, total-without_item f es))
  ]

  -- What holds of all items holds of the one found.
  abbrev pub Holds : (HTreeItem → Type 0) → Option HTreeItem → Type 0
  Holds P none = Unit {0}
  Holds P (some e) = P e

  pub item_for-Holds :
      (P : HTreeItem → Type 0) (es : List HTreeItem) → All P es → Holds P (item_for k h es)
  unfolding item_for
  item_for-Holds P [] s = s
  item_for-Holds P (e ∷ es) s = elim (Bool-cases (same_key k h e)) [
    | inl same ↦ rw same s.0
    | inr other ↦ rw other (item_for-Holds P es s.1)
  ]

  pub item_for_hash :
      (es : List HTreeItem) → SameHash es → Holds (λ e. e.key_hash ≡ h) (item_for k h es)
  unfolding item_for
  item_for_hash [] s = s
  item_for_hash (e ∷ es) s = elim (Bool-cases (same_key k h e)) [
    | inl same ↦ rw same (s.0 same)
    | inr other ↦ rw other (item_for_hash es s.1)
  ]
