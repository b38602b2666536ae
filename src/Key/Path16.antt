-- ===== src/Key/Path16.antt =====
-- store/key.go: the path of a hash, and the hash of a path.
use Prim.Native.Nat.{bit_or}
use gobeansdb.Base.{
  ℕ, zero, suc, ◌+◌, ◌-◌, ◌*◌, ◌/◌, ◌%◌, ◌^◌, ◌≤◌, ◌<◌, ◌≡◌, refl, sym, ap, ◌∙◌, arith, false, some,
  length, take,
}
use gobeansdb.Base.Int.{pos}
use gobeansdb.Base.Bits.{or_parts}
use gobeansdb.Config.{HStoreConfig}
use gobeansdb.Key.{
  KeyInfo, path_digits, parse_path_uint64, hash_loop, set_key_hash_by_path, bucket_loop, prepare,
}
use native.Mathlib.Nat.{
  pow-succ', mod-eq_of_lt, div-add-mod, div-one, div-div-eq-div-mul, one-le-pow,
}

-- 2 ^ (4 * n), and four places more.
pow_digit : (n : ℕ) → 2 ^ (4 * suc n) ≡ 16 * 2 ^ (4 * n)
pow_digit n =
    let four : 4 * suc n ≡ suc (suc (suc (suc (4 * n)))) = omega arith in
    ap (λ (t : ℕ). 2 ^ t) four
    ∙ omega (
      arith,
      pow-succ' 2 (4 * n),
      pow-succ' 2 (suc (4 * n)),
      pow-succ' 2 (suc (suc (4 * n))),
      pow-succ' 2 (suc (suc (suc (4 * n)))),
    )

-- The hash above a place, from the hash above the place before it.
div_digit : (n khash : ℕ) → khash / 2 ^ (4 * suc n) ≡ khash / 2 ^ (4 * n) / 16
div_digit n khash =
    ap (λ (t : ℕ). khash / t) (pow_digit n ∙ omega arith)
    ∙ sym (div-div-eq-div-mul khash (2 ^ (4 * n)) 16)

-- `q` with its last digit split off, at scale `p`.
split_digit : (q p : ℕ) → q / 16 * (16 * p) + q % 16 * p ≡ q * p
split_digit q p = omega (arith, ap (λ (t : ℕ). t * p) (div-add-mod q 16))

digit_le : (n khash : ℕ) → khash / 2 ^ (4 * n) % 16 * 2 ^ (4 * n) ≤ khash
digit_le n khash =
    omega (arith, split_digit (khash / 2 ^ (4 * n)) (2 ^ (4 * n)), div-add-mod khash (2 ^ (4 * n)))

digit_below : (n q : ℕ) → q % 16 * 2 ^ (4 * n) < 2 ^ (4 * suc n)
digit_below n q = rw (pow_digit n) (grind (arith, one-le-pow (4 * n) 2 (omega arith)))

-- The round of the loop for a digit.
round :
    (n khash : ℕ)
    → khash < 2 ^ 64
    → bit_or
        (khash / 2 ^ (4 * suc n) * 2 ^ (4 * suc n))
        (khash / 2 ^ (4 * n) % 16 * 2 ^ (4 * n) % 2 ^ 64)
      ≡ khash / 2 ^ (4 * n) * 2 ^ (4 * n)
round n khash k =
    let fits : khash / 2 ^ (4 * n) % 16 * 2 ^ (4 * n) % 2 ^ 64
        ≡ khash / 2 ^ (4 * n) % 16 * 2 ^ (4 * n) =
      mod-eq_of_lt (omega (arith, digit_le n khash)) in
    ap (bit_or (khash / 2 ^ (4 * suc n) * 2 ^ (4 * suc n))) fits
    ∙ or_parts (4 * suc n) (khash / 2 ^ (4 * suc n)) _ (digit_below n (khash / 2 ^ (4 * n)))
    ∙ rw (div_digit n khash, pow_digit n) (split_digit (khash / 2 ^ (4 * n)) (2 ^ (4 * n)))

-- With `n` digits to go, the digits seen so far are the hash above place 4 * n.
hash_loop-digits :
    (n khash : ℕ)
    → khash < 2 ^ 64
    → hash_loop (4 * n - 4) (khash / 2 ^ (4 * n) * 2 ^ (4 * n)) (path_digits n khash) ≡ khash
unfolding hash_loop path_digits
hash_loop-digits zero khash k = omega (arith, div-one khash)
hash_loop-digits (suc n) khash k =
    let shift : 4 * suc n - 4 ≡ 4 * n = omega arith in
    rw shift (
      ap (λ (t : ℕ). hash_loop (4 * n - 4) t (path_digits n khash)) (round n khash k)
      ∙ hash_loop-digits n khash k)

-- The number of a bucket is the hash above the digits that are left.
bucket_loop-digits :
    (d n khash : ℕ)
    → d ≤ n
    → bucket_loop (khash / 2 ^ (4 * n)) (take d (path_digits n khash)) ≡ khash / 2 ^ (4 * (n - d))
unfolding bucket_loop path_digits
bucket_loop-digits zero n khash h = ap (λ (t : ℕ). khash / 2 ^ (4 * t)) (omega arith)
bucket_loop-digits (suc d) zero khash h = absurd (omega arith)
bucket_loop-digits (suc d) (suc n) khash h =
    let next : khash / 2 ^ (4 * suc n) * 16 + khash / 2 ^ (4 * n) % 16 ≡ khash / 2 ^ (4 * n) =
      rw (div_digit n khash) (omega arith) in
    ap (λ (t : ℕ). bucket_loop t (take d (path_digits n khash))) next
    ∙ bucket_loop-digits d n khash (omega arith)
    ∙ ap (λ (t : ℕ). khash / 2 ^ (4 * t)) (omega arith)

length-path_digits : (n khash : ℕ) → length (path_digits n khash) ≡ n
unfolding path_digits
length-path_digits zero khash = refl
length-path_digits (suc n) khash = ap suc (length-path_digits n khash)

pub record IsRouted (conf : HStoreConfig) (khash : ℕ) (ki : KeyInfo) : Type 0 where
  pub hash : ki.key_hash ≡ khash
  pub digits : length ki.key_path ≡ 16
  pub bucket : ki.bucket_id ≡ pos (khash / 2 ^ (64 - 4 * conf.tree_depth))
  pub back : set_key_hash_by_path ki.key_path ≡ khash

-- `Prepare` of a key by its 64-bit hash, with a tree depth of at most 16, always succeeds: the path
-- has 16 digits, `setKeyHashByPath` gives the hash back from it, and the bucket is the hash's
-- leading `TreeDepth` digits.
pub prepare-IsRouted :
    (conf : HStoreConfig) (ki : KeyInfo)
    → ki.key_is_path ≡ false
    → ki.key_hash < 2 ^ 64
    → conf.tree_depth ≤ 16
    → (ki' : KeyInfo) × (prepare conf ki ≡ some (ki', false)) × IsRouted conf ki.key_hash ki'
unfolding prepare parse_path_uint64 set_key_hash_by_path
prepare-IsRouted conf ki by_hash fits shallow =
    let whole : ki.key_hash / 2 ^ 64 ≡ 0 = omega arith in
    (
      record ki {
        key_path = parse_path_uint64 ki.key_hash;
        bucket_id = pos (bucket_loop 0 (take conf.tree_depth (parse_path_uint64 ki.key_hash)));
      },
      rw by_hash refl,
      record {
        hash = refl;
        digits = length-path_digits 16 ki.key_hash;
        bucket = ap pos (
            ap (λ (t : ℕ). bucket_loop t (take conf.tree_depth (path_digits 16 ki.key_hash)))
              (sym whole)
            ∙ bucket_loop-digits conf.tree_depth 16 ki.key_hash shallow
            ∙ ap (λ (t : ℕ). ki.key_hash / 2 ^ t) (omega arith));
        back =
            ap (λ (t : ℕ). hash_loop 60 t (path_digits 16 ki.key_hash))
              (sym (ap (λ (t : ℕ). t * 2 ^ 64) whole))
            ∙ hash_loop-digits 16 ki.key_hash fits;
      },
    )
