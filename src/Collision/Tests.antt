-- ===== src/Collision/Tests.antt =====
-- Runs of the code of Collision.
use gobeansdb.Base.{ℕ, ◌≡◌, ◌≢◌, ◌↔◌, ◌⊎◌, ◌<◌, ◌≤◌, arith, true, false, inr, some, List, [], ◌∷◌}
use gobeansdb.Base.Int.{pos, ◌≤ℤ◌}
use gobeansdb.Collision.{HintItem, empty_table, get, compare_and_set, cmp_key}
use gobeansdb.Collision.Newest.{newest, get-compare_and_set, cmp_key_lexicographic}

abbrev item : ℕ → ℕ → HintItem
item letter offset = record {
  meta = record {
    key_hash = 7;
    at = record { chunk_id = pos 1; offset = offset };
    ver = pos 1;
    vhash = 3;
  };
  key = letter ∷ [];
}

get-compare_and_set_example :
    (get
        (compare_and_set (compare_and_set empty_table (item 1 512) false) (item 1 256) false)
        7
        (1 ∷ [])
      ≡ (
        some (
            newest false
              (item 1 256)
              (get (compare_and_set empty_table (item 1 512) false) 7 (1 ∷ [])).0),
        true,
      ))
    × ((get
          (compare_and_set (compare_and_set empty_table (item 1 512) false) (item 1 256) false)
          7
          (2 ∷ [])).0
        ≡ (get (compare_and_set empty_table (item 1 512) false) 7 (2 ∷ [])).0)
get-compare_and_set_example =
    get-compare_and_set (compare_and_set empty_table (item 1 512) false) (item 1 256) false 7
      (2 ∷ []) (inr keys_differ)
  where
    keys_differ : ◌≢◌ {A = List ℕ} (1 ∷ []) (2 ∷ [])
    keys_differ e = cc

cmp_key_lexicographic_example :
    (cmp_key (record { chunk_id = pos 3; offset = 512 })
      ≤ℤ cmp_key (record { chunk_id = pos 4; offset = 256 }))
    ↔ ((3 < 4) ⊎ (◌≡◌ {A = ℕ} 3 4) × (512 ≤ 256))
cmp_key_lexicographic_example =
    cmp_key_lexicographic 3 512 4 256 (omega arith) (omega arith) (omega arith) (omega arith)
