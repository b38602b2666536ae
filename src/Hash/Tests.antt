-- ===== src/Hash/Tests.antt =====
-- Runs of the code of Hash.
use gobeansdb.Base.{◌≡◌, refl, arith, [], ◌∷◌, ◌++◌, replicate}
use gobeansdb.Hash.{fnv1a, get_vhash}
use gobeansdb.Hash.Middle.{vhash_ignores_middle}

-- The standard value: the letter's byte has no sign to extend.
fnv1a_letter : fnv1a (b'a' ∷ []) ≡ 0xe40c292c
unfolding fnv1a
fnv1a_letter = refl

vhash_ignores_middle_example :
    get_vhash (replicate 512 1 ++ ((2 ∷ []) ++ replicate 512 3))
    ≡ get_vhash (replicate 512 1 ++ ((9 ∷ []) ++ replicate 512 3))
vhash_ignores_middle_example =
    vhash_ignores_middle (replicate 512 1) (2 ∷ []) (9 ∷ []) (replicate 512 3) refl refl refl
      (omega arith)
