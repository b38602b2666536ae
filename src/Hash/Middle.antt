-- ===== src/Hash/Middle.antt =====
-- Getvhash of store/item.go on large values.
use gobeansdb.Base.{
  ℕ, ◌+◌, ◌-◌, ◌*◌, ◌%◌, ◌^◌, ◌<◌, ◌≡◌, sym, ap, ◌∙◌, arith, false, List, ◌++◌, length,
  length-append, take, drop, take-append, drop-append, leb, lt→leb_false,
}
use gobeansdb.Hash.{get_vhash, fnv1a}
use mathlib.Core.List.{append_assoc}

abbrev ends_hash : ℕ → List ℕ → List ℕ → ℕ
ends_hash l head last =
    ((l % 2 ^ 32 * 97 % 2 ^ 32 + fnv1a head) % 2 ^ 32 * 97 % 2 ^ 32 + fnv1a last) % 2 ^ 32 % 2 ^ 16

vhash_ends :
    (head middle last : List ℕ)
    → length head ≡ 512
    → length last ≡ 512
    → 0 < length middle
    → get_vhash (head ++ (middle ++ last)) ≡ ends_hash (1024 + length middle) head last
unfolding get_vhash
vhash_ends head middle last h l m = rw (large, front, back, len)
  where
    len : length (head ++ (middle ++ last)) ≡ 1024 + length middle
    len = omega (arith, length-append head (middle ++ last), length-append middle last)

    large : leb (length (head ++ (middle ++ last))) 1024 ≡ false
    large = lt→leb_false _ _ (omega (arith, len))

    front : take 512 (head ++ (middle ++ last)) ≡ head
    front = take-append head (middle ++ last) 512 (sym h)

    back : drop (length (head ++ (middle ++ last)) - 512) (head ++ (middle ++ last)) ≡ last
    back =
        ap (drop (length (head ++ (middle ++ last)) - 512)) (sym (append_assoc head middle last))
        ∙ drop-append (head ++ middle) last _ (omega (arith, len, length-append head middle))

-- Two values of more than 1024 bytes that differ only between their first and their last 512 bytes,
-- and not in length, have one hash.
pub vhash_ignores_middle :
    (head middle other last : List ℕ)
    → length head ≡ 512
    → length last ≡ 512
    → length middle ≡ length other
    → 0 < length middle
    → get_vhash (head ++ (middle ++ last)) ≡ get_vhash (head ++ (other ++ last))
vhash_ignores_middle head middle other last h l e m =
    vhash_ends head middle last h l m
    ∙ ap (λ (n : ℕ). ends_hash (1024 + n) head last) e
    ∙ sym (vhash_ends head other last h l (omega arith))
