-- ===== src/HTree/Start.antt =====
-- newHTree of store/htree.go, against lists of items.
use gobeansdb.Base.{
  ℕ, zero, suc, ◌+◌, ◌*◌, ◌^◌, ◌<◌, ◌≤◌, ◌≡◌, refl, sym, ap, ◌∙◌, arith, true, some, List, [], ◌∷◌,
  map, length, get_or, replicate, length-replicate, All, le→ltb_false,
}
use gobeansdb.Leaf.{HTreeItem}
use gobeansdb.Leaf.Refine.{AllStorable, encode}
use gobeansdb.HTree.{HTree, Node, zero_node, new_htree, new_levels, max_depth}
use gobeansdb.HTree.Totals.{total}
use gobeansdb.HTree.Contents.{IsTree, last_row, last_row-cons}
use native.Mathlib.Nat.{pow-suc, pow-zero, mul_assoc}

encode-nil : (k : ℕ) → encode k [] ≡ []
unfolding encode
encode-nil k = refl

abbrev fresh : Node
fresh = record zero_node { is_hash_updated = true }

length-new_levels : (n size : ℕ) → length (new_levels n size) ≡ n
unfolding new_levels
length-new_levels zero size = refl
length-new_levels (suc zero) size = refl
length-new_levels (suc (suc n)) size = ap suc (length-new_levels (suc n) (size * 16))

sixteen : (n : ℕ) → 16 * 16 ^ n ≡ 16 ^ suc n
sixteen n = omega (arith, pow-suc 16 n)

last_row-new_levels :
    (n size : ℕ) → last_row (new_levels (suc n) size) ≡ replicate (size * 16 ^ n) fresh
unfolding new_levels
last_row-new_levels zero size = ap (λ (i : ℕ). replicate i fresh) (omega (arith, pow-zero 16))
last_row-new_levels (suc n) size =
    last_row-cons _ (new_levels (suc n) (size * 16))
      (omega (arith, length-new_levels (suc n) (size * 16)))
    ∙ last_row-new_levels n (size * 16)
    ∙ ap (λ (i : ℕ). replicate i fresh)
        (mul_assoc size 16 (16 ^ n) ∙ ap (λ (t : ℕ). size * t) (sixteen n))

get_or-replicate {ℓ} : {A : Type ℓ} (n i : ℕ) (a d : A) → i < n → get_or (replicate n a) i d ≡ a
get_or-replicate zero i a d h = elim h [ ]
get_or-replicate (suc n) zero a d h = refl
get_or-replicate (suc n) (suc i) a d h = get_or-replicate n i a d (omega arith)

map-replicate {ℓ κ} :
    {A : Type ℓ} {B : Type κ} (f : A → B) (n : ℕ) (a : A)
    → map f (replicate n a) ≡ replicate n (f a)
map-replicate f zero a = refl
map-replicate f (suc n) a = ap (λ t. f a ∷ t) (map-replicate f n a)

All-replicate {ℓ κ} : {A : Type ℓ} (P : A → Type κ) (n : ℕ) (a : A) → P a → All P (replicate n a)
All-replicate P zero a p = _
All-replicate P (suc n) a p = (p, All-replicate P n a p)

abbrev pub new_tree : ℕ → ℕ → ℕ → HTree
new_tree depth bucket_id n = record {
  depth = depth;
  bucket_id = bucket_id;
  levels = new_levels (suc (suc n)) 1;
  leafs = replicate (16 ^ suc n) [];
}

pub new_tree-IsTree :
    (k : ℕ) (short : k ≤ 8) (depth bucket_id n : ℕ)
    → IsTree k short (new_tree depth bucket_id n) (replicate (16 ^ suc n) [])
new_tree-IsTree k short depth bucket_id n =
    let row : last_row (new_levels (suc (suc n)) 1) ≡ replicate (16 ^ suc n) fresh =
      last_row-new_levels (suc n) 1 ∙ ap (λ (i : ℕ). replicate i fresh) (omega arith) in
    record {
      leafs =
          sym
            (map-replicate (encode k) (16 ^ suc n) [] ∙ ap (replicate (16 ^ suc n)) (encode-nil k));
      tall = omega (arith, length-new_levels (suc (suc n)) 1);
      row =
          ap length row
          ∙ length-replicate (16 ^ suc n) fresh
          ∙ sym (length-replicate (16 ^ suc n) []);
      node = λ i below.
          rw
            (
              row,
              get_or-replicate (16 ^ suc n) i fresh zero_node
                  (rw (length-replicate {A = List HTreeItem} (16 ^ suc n) []) at below),
              get_or-replicate {A = List HTreeItem} (16 ^ suc n) i [] []
                  (rw (length-replicate {A = List HTreeItem} (16 ^ suc n) []) at below),
            )
            (unfold total in record { count = refl; hash = refl });
      storable = All-replicate AllStorable (16 ^ suc n) [] _;
    }

-- `newHTree` of at least two levels, within the depth allowed, gives a tree that encodes an empty list
-- for each of its 16 ^ (height - 1) leaves, with nodes that summarise them.
pub new_htree-IsTree :
    (k : ℕ) (short : k ≤ 8) (depth bucket_id n : ℕ)
    → depth + (n + 2) ≤ 8
    → (tree : HTree) × (new_htree depth bucket_id (suc (suc n)) ≡ some tree)
      × IsTree k short tree (replicate (16 ^ suc n) [])
unfolding new_htree
new_htree-IsTree k short depth bucket_id n fits = (
  new_tree depth bucket_id n,
  rw (le→ltb_false max_depth (depth + suc (suc n)) (omega arith)) refl,
  new_tree-IsTree k short depth bucket_id n,
)
