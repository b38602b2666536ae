-- ===== src/Config/Shape.antt =====
-- InitTree of store/config.go, for the bucket counts that the program runs with.
use gobeansdb.Base.{
  false, ℕ, zero, suc, ◌+◌, ◌-◌, ◌*◌, ◌/◌, ◌^◌, ◌≤◌, ◌<◌, ◌≡◌, refl, ap, ◌∙◌, arith, leb, ltb,
  lt→ltb, ◌==◌, ◌&&◌, true, some, get_or, get_elem?,
}
use gobeansdb.Base.Bits.{all_below, all_below_sound}
use gobeansdb.Config.{HStoreConfig, khash_lens, depth_loop, key_hash_mask, init_tree}
use native.Mathlib.Nat.{pow-suc, pow-zero, one-le-pow}

more_digits : (d : ℕ) → ltb 1 (16 ^ suc d) ≡ true
more_digits d = lt→ltb 1 _ (omega (arith, pow-suc 16 d, one-le-pow d 16 (omega arith)))

less_digits : (d : ℕ) → 16 ^ suc d / 16 ≡ 16 ^ d
less_digits d = ap (λ (t : ℕ). t / 16) (pow-suc 16 d) ∙ omega arith

-- With fuel for each level the loop counts the digits of a power of 16.
depth_loop-pow : (fuel d acc : ℕ) → d < fuel → depth_loop fuel (16 ^ d) acc ≡ acc + d
unfolding depth_loop
depth_loop-pow zero d acc h = elim h [ ]
depth_loop-pow (suc fuel) zero acc h = omega (arith, pow-zero 16)
depth_loop-pow (suc fuel) (suc d) acc h =
    rw (more_digits d)
      (rw (less_digits d) (depth_loop-pow fuel d (acc + 1) (omega arith) ∙ omega arith))

lt_pow : (d : ℕ) → d < 16 ^ d
lt_pow zero = omega (arith, pow-zero 16)
lt_pow (suc d) = omega (arith, pow-suc 16 d, lt_pow d)

-- The entry of `KHASH_LENS` for `i` path digits.
abbrev len_at : ℕ → ℕ
len_at i = get_or khash_lens i 0

lens_table :
    all_below 8 (λ i.
      (leb 64 (4 * i + 8 * len_at i) && leb (len_at i) 8)
      && (key_hash_mask (len_at i) == (256 ^ len_at i - 1)))
    ≡ true
unfolding all_below key_hash_mask
lens_table = refl

pub record Covers (c : HStoreConfig) : Type 0 where
  pub digits : 64 ≤ 4 * (c.tree_depth + c.tree_height - 1) + 8 * c.tree_key_hash_len
  pub len : c.tree_key_hash_len ≤ 8
  pub mask : c.tree_key_hash_mask ≡ 256 ^ c.tree_key_hash_len - 1

abbrev derived : HStoreConfig → ℕ → HStoreConfig
derived c d = record c {
  tree_depth = d;
  tree_key_hash_len = len_at (d + c.tree_height - 1);
  tree_key_hash_mask = key_hash_mask (len_at (d + c.tree_height - 1));
}

in_table : (i : ℕ) → i < 8 → get_elem? khash_lens i ≡ some (len_at i)
in_table zero h = refl
in_table (suc zero) h = refl
in_table (suc (suc zero)) h = refl
in_table (suc (suc (suc zero))) h = refl
in_table (suc (suc (suc (suc zero)))) h = refl
in_table (suc (suc (suc (suc (suc zero))))) h = refl
in_table (suc (suc (suc (suc (suc (suc zero)))))) h = refl
in_table (suc (suc (suc (suc (suc (suc (suc zero))))))) h = refl
in_table (suc (suc (suc (suc (suc (suc (suc (suc i)))))))) h = absurd (omega arith)

Covers-at : (c : HStoreConfig) (d : ℕ) → d + c.tree_height - 1 < 8 → Covers (derived c d)
Covers-at c d h =
    let facts = all_below_sound 8 _ (d + c.tree_height - 1) lens_table h in
    record {
      digits = ground (arith, facts);
      len = ground (arith, facts);
      mask = ground (arith, facts);
    }

-- For 16 ^ d buckets and trees that fit eight levels, `InitTree` succeeds with depth `d`; the digits
-- of a leaf's path and the bytes of the hash that a leaf stores cover the 64 bits of a key's hash
-- between them, and the mask keeps exactly the stored bytes.
pub init_tree-Covers :
    (c : HStoreConfig) (d : ℕ)
    → c.num_bucket ≡ 16 ^ d
    → 0 < c.tree_height
    → d + c.tree_height ≤ 8
    → (c' : HStoreConfig) × (init_tree c ≡ some c') × (c'.tree_depth ≡ d) × Covers c'
unfolding init_tree
init_tree-Covers c d buckets tall fits =
    let depth : depth_loop c.num_bucket c.num_bucket 0 ≡ d =
      (λ j. depth_loop (buckets j) (buckets j) 0)
      ∙ depth_loop-pow (16 ^ d) d 0 (lt_pow d)
      ∙ omega arith in
    let some_digits : (d + c.tree_height == 0) ≡ false = ground (arith, tall) in
    (
      derived c d,
      rw depth (rw (some_digits, in_table (d + c.tree_height - 1) (omega arith)) refl),
      refl,
      Covers-at c d (omega arith),
    )
