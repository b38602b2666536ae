-- ===== src/HTree/Contents.antt =====
-- store/htree.go: trees whose leaves are encodings of lists of items, and their parts after a change.
use gobeansdb.Base.{
  ℕ, zero, suc, ◌+◌, ◌-◌, ◌*◌, ◌<◌, ◌≤◌, ◌≡◌, ◌≢◌, refl, sym, ap, ◌∙◌, arith, Bool, inl, inr,
  Bool-cases, ==_iff, ◌==◌, some, List, [], ◌∷◌, map, length, set, length-set, get_or, get_elem?,
  get_or-set_self, get_or-set, All,
}
use mathlib.Core.Option as Opt
use mathlib.Core.Path.{subst}
use mathlib.Core.Bool.{false≢true}
use gobeansdb.Key.{KeyInfo}
use gobeansdb.Leaf.{HTreeItem, empty_item}
use gobeansdb.Leaf.Item.{IsStorable}
use gobeansdb.Leaf.Refine.{AllStorable, encode, item_for, with_item, got, same_key, leaf_get-encode}
use gobeansdb.HTree.{HTree, Node, zero_node, get_leaf, invalid_levels, with_leaf, tree_get}
use gobeansdb.HTree.Totals.{Summarises}

module _ {ℓ κ} {A : Type ℓ} {B : Type κ} (f : A → B) where
  pub get_elem?-map :
      (xs : List A) (i : ℕ) (d : A)
      → i < length xs
      → get_elem? (map f xs) i ≡ some (f (get_or xs i d))
  get_elem?-map [] i d h = elim h [ ]
  get_elem?-map (x ∷ xs) zero d h = refl
  get_elem?-map (x ∷ xs) (suc i) d h = get_elem?-map xs i d (omega arith)

  pub set-map : (xs : List A) (i : ℕ) (v : A) → set (map f xs) i (f v) ≡ map f (set xs i v)
  set-map [] i v = refl
  set-map (x ∷ xs) zero v = refl
  set-map (x ∷ xs) (suc i) v = ap (λ t. f x ∷ t) (set-map xs i v)

module _ {ℓ κ} {A : Type ℓ} (P : A → Type κ) where
  All-set : (xs : List A) (i : ℕ) (v : A) → All P xs → P v → All P (set xs i v)
  All-set [] i v h p = h
  All-set (x ∷ xs) zero v h p = (p, h.1)
  All-set (x ∷ xs) (suc i) v h p = (h.0, All-set xs i v h.1 p)

  pub All-get_or : (xs : List A) (i : ℕ) (d : A) → All P xs → i < length xs → P (get_or xs i d)
  All-get_or [] i d h p = elim p [ ]
  All-get_or (x ∷ xs) zero d h p = h.0
  All-get_or (x ∷ xs) (suc i) d h p = All-get_or xs i d h.1 (omega arith)

-- The last level is not touched when nodes above it go out of date.
pub length-invalid_levels :
    (offset : ℕ) (path : List ℕ) (rows : List (List Node))
    → length (invalid_levels offset path rows) ≡ length rows
unfolding invalid_levels
length-invalid_levels offset path [] = refl
length-invalid_levels offset path (row ∷ []) = refl
length-invalid_levels offset [] (row ∷ next ∷ rows) = refl
length-invalid_levels offset (v ∷ path) (row ∷ next ∷ rows) =
    ap suc (length-invalid_levels (offset * 16 + v) path (next ∷ rows))

abbrev pub last_row : List (List Node) → List Node
last_row rows = get_or rows (length rows - 1) []

pub last_row-cons :
    (row : List Node) (rows : List (List Node))
    → 0 < length rows
    → last_row (row ∷ rows) ≡ last_row rows
last_row-cons row [] h = elim h [ ]
last_row-cons row (next ∷ rows) h =
    let first : suc (suc (length rows)) - 1 ≡ suc (length rows) = omega arith in
    let second : suc (length rows) - 1 ≡ length rows = omega arith in
    ap (λ (i : ℕ). get_or (row ∷ next ∷ rows) i []) first
    ∙ ap (λ (i : ℕ). get_or (next ∷ rows) i []) (sym second)

pub last_row-invalid_levels :
    (offset : ℕ) (path : List ℕ) (rows : List (List Node))
    → last_row (invalid_levels offset path rows) ≡ last_row rows
unfolding invalid_levels
last_row-invalid_levels offset path [] = refl
last_row-invalid_levels offset path (row ∷ []) = refl
last_row-invalid_levels offset [] (row ∷ next ∷ rows) =
    last_row-cons _ (next ∷ rows) (omega arith)
    ∙ sym (last_row-cons row (next ∷ rows) (omega arith))
last_row-invalid_levels offset (v ∷ path) (row ∷ next ∷ rows) =
    last_row-cons _ (invalid_levels (offset * 16 + v) path (next ∷ rows))
      (omega (arith, length-invalid_levels (offset * 16 + v) path (next ∷ rows)))
    ∙ last_row-invalid_levels (offset * 16 + v) path (next ∷ rows)
    ∙ sym (last_row-cons row (next ∷ rows) (omega arith))

-- The place of a node in the last row.
abbrev pub node_at : HTree → ℕ → Node
node_at tree i = get_or (last_row tree.levels) i zero_node

module _ (k : ℕ) (short : k ≤ 8) where
  -- A tree with a list of storable items for each leaf, which its bytes encode and its node summarises.
  pub record IsTree (tree : HTree) (contents : List (List HTreeItem)) : Type 0 where
    pub leafs : tree.leafs ≡ map (encode k) contents
    pub tall : 1 < length tree.levels
    pub row : length (last_row tree.levels) ≡ length contents
    pub node : (i : ℕ) → i < length contents → Summarises (node_at tree i) (get_or contents i [])
    pub storable : All AllStorable contents

  pub with_item-AllStorable :
      (h : ℕ) (item : HTreeItem) (es : List HTreeItem)
      → IsStorable (record item { key_hash = h })
      → AllStorable es
      → AllStorable (with_item k h item es)
  unfolding with_item
  with_item-AllStorable h item [] new s = (new, s)
  with_item-AllStorable h item (e ∷ es) new s = elim (Bool-cases (same_key k h e)) [
    | inl same ↦ rw same (new, s.1)
    | inr other ↦ rw other (s.0, with_item-AllStorable h item es new s.1)
  ]

  module _ (tree : HTree) (contents : List (List HTreeItem)) (t : IsTree tree contents) (offset : ℕ)
      (here : offset < length contents) where
    pub leaf_here : get_elem? tree.leafs offset ≡ some (encode k (get_or contents offset []))
    leaf_here =
        ap (λ l. get_elem? l offset) t.leafs ∙ get_elem?-map (encode k) contents offset [] here

    -- `get` finds in the leaf on the key's path the first item for the hash.
    pub tree_get-IsTree :
        (ki : KeyInfo)
        → get_leaf tree ki ≡ some offset
        → tree_get k tree ki
          ≡ some (got (item_for k ki.key_hash (get_or contents offset [])) empty_item)
    unfolding tree_get Opt.bind
    tree_get-IsTree ki e =
        rw (e, leaf_here)
          (leaf_get-encode k short ki.key_hash (get_or contents offset [])
            (All-get_or AllStorable contents offset [] t.storable here) empty_item)

    -- A change of one leaf: its new items, and what becomes of its node, of the old item reported and
    -- whether there was one.
    module _ (es' : List HTreeItem) (change : HTreeItem → Bool → Node → Node) (old : HTreeItem)
        (exist : Bool) where
      abbrev pub new_contents : List (List HTreeItem)
      new_contents = set contents offset es'

      -- The tree after the change, with levels that differ from the old ones above the last row only.
      abbrev pub written : List (List Node) → HTree
      written levels =
          with_leaf (record tree { levels = levels }) offset change (encode k es', old, exist)

      written_row :
          (levels : List (List Node))
          → 0 < length levels
          → last_row (written levels).levels
            ≡ set
                (last_row levels)
                offset
                (change old exist (get_or (last_row levels) offset zero_node))
      written_row levels some_level =
          ap (λ (n : ℕ). get_or (written levels).levels (n - 1) []) (length-set levels _ _)
          ∙ get_or-set_self levels (length levels - 1) _ [] (omega arith)

      pub written-IsTree :
          (levels : List (List Node))
          → length levels ≡ length tree.levels
          → last_row levels ≡ last_row tree.levels
          → Summarises (change old exist (node_at tree offset)) es'
          → AllStorable es'
          → IsTree (written levels) new_contents
      written-IsTree levels same_height same_row summary new = record {
        leafs =
            ap (λ l. set l offset (encode k es')) t.leafs ∙ set-map (encode k) contents offset _;
        tall = omega (arith, t.tall, same_height, length-set levels (length levels - 1) new_row);
        row =
            ap length row_is
            ∙ length-set (last_row tree.levels) offset _
            ∙ t.row
            ∙ sym (length-set contents offset _);
        node = λ i below. elim (Bool-cases (i == offset)) [
          | inl e ↦ at_offset i ((==_iff i offset).0 e)
          | inr e ↦
              elsewhere i (λ same. false≢true (sym e ∙ (==_iff i offset).1 same))
                (omega (arith, below, length-set contents offset es'))
        ];
        storable = All-set AllStorable contents offset _ t.storable new;
      }
        where
          new_row : List Node
          new_row =
              set (last_row levels) offset
                (change old exist (get_or (last_row levels) offset zero_node))

          row_is :
              last_row (written levels).levels
              ≡ set (last_row tree.levels) offset (change old exist (node_at tree offset))
          row_is = written_row levels (omega (arith, same_height, t.tall)) ∙ λ i.
              set (same_row i) offset (change old exist (get_or (same_row i) offset zero_node))

          at_offset :
              (i : ℕ)
              → i ≡ offset
              → Summarises (node_at (written levels) i) (get_or new_contents i [])
          at_offset i e =
              subst (λ (j : ℕ). Summarises (node_at (written levels) j) (get_or new_contents j []))
                (sym e)
                (rw
                  (
                    row_is,
                    get_or-set_self (last_row tree.levels) offset
                        (change old exist (node_at tree offset)) zero_node
                        (omega (arith, here, t.row)),
                    get_or-set_self contents offset es' [] here,
                  )
                  summary)

          elsewhere :
              (i : ℕ)
              → i ≢ offset
              → i < length contents
              → Summarises (node_at (written levels) i) (get_or new_contents i [])
          elsewhere i ne below =
              rw
                (
                  row_is,
                  get_or-set (last_row tree.levels) offset i
                      (change old exist (node_at tree offset)) zero_node (λ e. ne (sym e)),
                  get_or-set contents offset i es' [] (λ e. ne (sym e)),
                )
                (t.node i below)
