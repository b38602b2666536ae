-- ===== src/Hint/Tests.antt =====
-- Runs of the code of Hint on a buffer of three items.
use gobeansdb.Base.{ℕ, ◌≡◌, refl, true, some, [], ◌∷◌, if◌then◌else◌, bytes_eq}
use gobeansdb.Base.Int.{pos}
use gobeansdb.Collision.{HintItem}
use gobeansdb.Hint.{
  HintBuffer, new_hint_buffer, get_hint, set_hint, store_found, store_at, index_of, index_from,
  is_larger, set_if_larger,
}
use gobeansdb.Hint.Newest.{starts, sets, or_set, get_hint-set_hint}

abbrev item : ℕ → ℕ → HintItem
item n at = record {
  meta = record {
    key_hash = 7;
    at = record { chunk_id = pos 0; offset = at };
    ver = pos 1;
    vhash = 0;
  };
  key = n ∷ [];
}

abbrev one : HintBuffer
one = (set_hint 3 new_hint_buffer (item 1 0) 256).0

get_hint-set_hint_example : (get_hint (set_hint 3 one (item 2 256) 256).0 7 (1 ∷ [])).0 ≡ (
    if (set_hint 3 one (item 2 256) 256).1
    then or_set (item 2 256) 7 (1 ∷ []) (get_hint one 7 (1 ∷ [])).0
    else (get_hint one 7 (1 ∷ [])).0)
get_hint-set_hint_example =
    get_hint-set_hint 3 one (item 2 256) 256 7 (1 ∷ []) (sets new_hint_buffer (item 1 0) 256 starts)

-- Two keys of one hash are both found.
both_found : get_hint (set_hint 3 one (item 2 256) 256).0 7 (1 ∷ []) ≡ (some (item 1 0), true)
unfolding set_hint store_found store_at get_hint index_of index_from bytes_eq
both_found = refl

larger_set :
    set_if_larger (record { chunk = 1; split = 2 }) 1 3 ≡ (record { chunk = 1; split = 3 }, true)
unfolding set_if_larger is_larger
larger_set = refl
