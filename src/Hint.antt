-- ===== src/Hint.antt =====
-- store/hint.go: the buffer of hints, which finds the newest item of a key in memory, and the order of
-- the identifiers of hint files. A Go map is the function that looks up in it, with its emptiness.
pub mod Newest
mod Tests
use gobeansdb.Base.{
  ℕ, suc, ◌+◌, ◌%◌, ◌^◌, Bool, true, false, not, ◌&&◌, ◌||◌, Option, none, some, List, length,
  get_or, set, replicate, ltb, leb, ◌==◌, if◌then◌else◌, bytes_eq,
}
use gobeansdb.Collision.{HintItem}

pub record HintId : Type 0 where
  pub chunk : ℕ
  pub split : ℕ

-- `isLarger`
pub is_larger : HintId → ℕ → ℕ → Bool
is_larger id ck sp = ltb id.chunk ck || ((ck == id.chunk) && leb id.split sp)

-- `setIfLarger`
pub set_if_larger : HintId → ℕ → ℕ → HintId × Bool
set_if_larger id ck sp =
    let larger = is_larger id ck sp in
    ((if larger then record { chunk = ck; split = sp } else id), larger)

-- The slots of `items` that are nil are `none`.
pub record HintBuffer : Type 0 where
  pub maxoffset : ℕ
  pub no_index : Bool
  pub index : ℕ → Option ℕ
  pub collisions : ℕ → Option (List ℕ → Option ℕ)
  pub items : List (Option HintItem)
  pub num : ℕ

-- `NewHintBuffer`
abbrev pub new_hint_buffer : HintBuffer
new_hint_buffer = record {
  maxoffset = 0;
  no_index = true;
  index = λ h. none;
  collisions = λ h. none;
  items = replicate 0 none;
  num = 0;
}

abbrev pub key_at : Option HintItem → List ℕ → Bool
key_at none key = false
key_at (some it) key = bytes_eq key it.key

abbrev pub slot : HintBuffer → ℕ → Option HintItem
slot h idx = get_or h.items idx none

-- `keys[key]` of the inner map of a hash.
abbrev pub in_keys : Option (List ℕ → Option ℕ) → List ℕ → Option ℕ
in_keys none key = none
in_keys (some keys) key = keys key

-- The index of a key's item, in `Set` and in `Get`.
pub index_from : HintBuffer → ℕ → List ℕ → Option ℕ → Option ℕ
index_from h keyhash key none = none
index_from h keyhash key (some idx) =
    if key_at (slot h idx) key then some idx else in_keys (h.collisions keyhash) key

pub index_of : HintBuffer → ℕ → List ℕ → Option ℕ
unfolding index_from
index_of h keyhash key = index_from h keyhash key (h.index keyhash)

abbrev pub item_from : HintBuffer → Option ℕ → Option HintItem
item_from h none = none
item_from h (some idx) = slot h idx

-- Whether the first index is of another key.
abbrev pub collides : HintBuffer → List ℕ → Option ℕ → Bool
collides h key none = false
collides h key (some idx) = not (key_at (slot h idx) key)

-- `Get`: the item, and whether another key has the hash.
pub get_hint : HintBuffer → ℕ → List ℕ → Option HintItem × Bool
get_hint h keyhash key = (item_from h (index_of h keyhash key), collides h key (h.index keyhash))

abbrev pub put_index : (ℕ → Option ℕ) → ℕ → ℕ → ℕ → Option ℕ
put_index index keyhash idx h = if keyhash == h then some idx else index h

abbrev pub put_in_keys : (List ℕ → Option ℕ) → List ℕ → ℕ → List ℕ → Option ℕ
put_in_keys keys key idx k = if bytes_eq key k then some idx else keys k

abbrev pub single_key : Option HintItem → ℕ → List ℕ → Option ℕ
single_key none idx = λ k. none
single_key (some it) idx = put_in_keys (λ k. none) it.key idx

-- The inner map of a hash: that of the map, or a new one with the key of the first index.
abbrev pub keys_of : HintBuffer → ℕ → ℕ → Option (List ℕ → Option ℕ) → List ℕ → Option ℕ
keys_of h keyhash idx (some keys) = keys
keys_of h keyhash idx none = single_key (slot h idx) idx

abbrev pub put_collisions :
    (ℕ → Option (List ℕ → Option ℕ)) → ℕ → (List ℕ → Option ℕ) → ℕ → Option (List ℕ → Option ℕ)
put_collisions collisions keyhash keys h = if keyhash == h then some keys else collisions h

-- `make([]*HintItem, Conf.SplitCap)` for the first item.
abbrev pub with_items : ℕ → HintBuffer → HintBuffer
with_items cap h = if h.no_index then record h { items = replicate cap none } else h

-- The collisions once the key's inner map is there.
abbrev pub with_keys : HintBuffer → HintItem → Option ℕ → HintBuffer
with_keys h it none = h
with_keys h it (some idx) = if key_at (slot h idx) it.key then h else record h {
  collisions =
      put_collisions h.collisions it.meta.key_hash
        (keys_of h it.meta.key_hash idx (h.collisions it.meta.key_hash));
}

-- `Set` from the place of the item on.
pub store_at : HintBuffer → HintItem → ℕ → Bool → ℕ → HintBuffer
store_at h it rec_size iscollision idx =
    let end_offset = (it.meta.at.offset + rec_size) % 2 ^ 32 in
    record h {
      items = set h.items idx (some it);
      no_index = false;
      index = put_index h.index it.meta.key_hash idx;
      collisions =
          if iscollision
          then put_collisions h.collisions it.meta.key_hash
              (put_in_keys (in_keys (h.collisions it.meta.key_hash)) it.key idx)
          else h.collisions;
      maxoffset = if ltb h.maxoffset end_offset then end_offset else h.maxoffset;
    }

pub store_found : HintBuffer → HintItem → ℕ → Bool → Option ℕ → HintBuffer × Bool
unfolding store_at
store_found h it rec_size iscollision (some idx) = (store_at h it rec_size iscollision idx, true)
store_found h it rec_size iscollision none =
    if leb (length h.items) h.num
    then (
      record h {
        maxoffset = if ltb h.maxoffset it.meta.at.offset then it.meta.at.offset else h.maxoffset;
      },
      false,
    )
    else (store_at (record h { num = suc h.num }) it rec_size iscollision h.num, true)

-- `Set`; false when the buffer is full. `cap` is Conf.SplitCap.
pub set_hint : ℕ → HintBuffer → HintItem → ℕ → HintBuffer × Bool
unfolding store_found
set_hint cap h it rec_size =
    let first = h.index it.meta.key_hash in
    let ready = with_keys (with_items cap h) it first in
    store_found ready it rec_size (collides (with_items cap h) it.key first)
      (index_of (with_items cap h) it.meta.key_hash it.key)
