-- ===== src/Leaf.antt =====
-- store/leaf.go: a leaf of the hash tree, a byte array of items that each hold the low bytes of a
-- key's hash, the version, the value's hash, and the position of the record.
pub mod Item
pub mod Refine
mod Tests
use gobeansdb.Base.{
  ℕ, zero, suc, ◌+◌, ◌-◌, ◌*◌, ◌/◌, ◌%◌, ◌^◌, Bool, true, false, ◌||◌, Option, none, some, List, [],
  ◌∷◌, ◌++◌, length, take, drop, ltb, ◌==◌, if◌then◌else◌, bytes_eq,
}
use mathlib.Core.Option as Opt
use gobeansdb.Base.Int.{ℤ, pos, negsuc, to_u32, of_u32, eq_ℤ}
use gobeansdb.Base.Bytes.{put_le, get_le}
use gobeansdb.Record.{Position}

abbrev pub tree_item_head_size : ℕ
tree_item_head_size = 11

abbrev pub len_use_c_find : ℕ
len_use_c_find = 100

pub record HTreeItem : Type 0 where
  pub key_hash : ℕ
  pub at : Position
  pub ver : ℤ
  pub vhash : ℕ

-- Bytes 1 to 3 of the offset, whose lowest byte is not stored, and two bytes of the chunk.
unfoldable pub item_to_bytes : HTreeItem → List ℕ
item_to_bytes item =
    put_le 4 (to_u32 item.ver)
    ++ (put_le 2 item.vhash
        ++ (put_le 3 (item.at.offset / 256) ++ put_le 2 (to_u32 item.at.chunk_id)))

-- The fields of `item` that are stored, read into it; `none` is the panic on a short slice.
unfoldable pub bytes_to_item : List ℕ → HTreeItem → Option HTreeItem
bytes_to_item b item =
    if ltb (length b) 11
    then none
    else some (record item {
      ver = of_u32 (get_le (take 4 b));
      vhash = get_le (take 2 (drop 4 b));
      at = record {
        offset = get_le (take 3 (drop 6 b)) * 256;
        chunk_id = pos (get_le (take 2 (drop 9 b)));
      };
    })

-- The Go loop of `findInBytes`: `rest` is `leaf[i:]`. The fuel is the length of the leaf.
unfoldable pub find_go : ℕ → ℕ → List ℕ → ℕ → List ℕ → ℤ
find_go zero len_khash kb i rest = negsuc 0
find_go (suc fuel) len_khash kb i [] = negsuc 0
find_go (suc fuel) len_khash kb i (b ∷ bs) =
    let len_item = len_khash + tree_item_head_size in
    let later = find_go fuel len_khash kb (i + len_item) (drop len_item (b ∷ bs)) in
    if bytes_eq (take len_khash (b ∷ bs)) kb then pos i else later

-- The C loop, over `n` items.
unfoldable pub find_c : ℕ → ℕ → List ℕ → ℕ → List ℕ → ℤ
find_c zero len_khash kb i rest = negsuc 0
find_c (suc n) len_khash kb i rest =
    let later = find_c n len_khash kb (i + 1) (drop (len_khash + tree_item_head_size) rest) in
    if bytes_eq (take len_khash rest) kb then pos i else later

-- `i * lenItem`, also of -1.
abbrev scale : ℕ → ℤ → ℤ
scale len_item (pos i) = pos (i * len_item)
scale len_item (negsuc i) = negsuc (suc i * len_item - 1)

-- `findInBytes`: a long leaf is searched by C, and a missing key is some negative number.
unfoldable pub find_in_bytes : ℕ → List ℕ → ℕ → ℤ
find_in_bytes len_khash leaf key_hash =
    let len_item = len_khash + tree_item_head_size in
    let kb = take len_khash (put_le 8 key_hash) in
    if ltb (length leaf / len_item) len_use_c_find
    then find_go (length leaf) len_khash kb 0 leaf
    else scale len_item (find_c (length leaf / len_item) len_khash kb 0 leaf)

abbrev pub empty_item : HTreeItem
empty_item = record {
  key_hash = 0;
  at = record { chunk_id = pos 0; offset = 0 };
  ver = pos 0;
  vhash = 0;
}

-- `khashToBytes(dst, h); itemToBytes(dst[lenKHash:], item)` at place `idx`: eight bytes of the hash,
-- all but the first `len_khash` of them overwritten by the item.
unfoldable pub write_at : ℕ → List ℕ → ℕ → ℕ → HTreeItem → List ℕ
write_at len_khash leaf idx key_hash item =
    take idx leaf
    ++ (take len_khash (put_le 8 key_hash)
        ++ (item_to_bytes item ++ drop (idx + len_khash + tree_item_head_size) leaf))

-- `Set`: the new leaf, the old item and whether there was one.
set_found : ℕ → List ℕ → ℕ → HTreeItem → ℤ → Option (List ℕ × HTreeItem × Bool)
set_found len_khash leaf key_hash item (pos idx) =
    Opt.map (λ oldm. (write_at len_khash leaf idx key_hash item, oldm, true))
      (bytes_to_item (drop (idx + len_khash) leaf) empty_item)
set_found len_khash leaf key_hash item (negsuc _) =
    some (write_at len_khash leaf (length leaf) key_hash item, empty_item, false)

unfoldable pub leaf_set : ℕ → List ℕ → ℕ → HTreeItem → Option (List ℕ × HTreeItem × Bool)
unfolding set_found
leaf_set len_khash leaf key_hash item =
    set_found len_khash leaf key_hash item (find_in_bytes len_khash leaf key_hash)

-- `Remove`: if the position of the chunk is -1, or the offset is that of the item.
abbrev pub removes : Position → HTreeItem → Bool
removes old_pos oldm = eq_ℤ old_pos.chunk_id (negsuc 0) || (oldm.at.offset == old_pos.offset)

remove_item : ℕ → List ℕ → Position → ℕ → HTreeItem → List ℕ × HTreeItem × Bool
remove_item len_khash leaf old_pos idx oldm =
    if removes old_pos oldm
    then (take idx leaf ++ drop (idx + len_khash + tree_item_head_size) leaf, oldm, true)
    else (leaf, oldm, false)

remove_found : ℕ → List ℕ → Position → ℤ → Option (List ℕ × HTreeItem × Bool)
remove_found len_khash leaf old_pos (pos idx) =
    Opt.map (remove_item len_khash leaf old_pos idx)
      (bytes_to_item (drop (idx + len_khash) leaf) empty_item)
remove_found len_khash leaf old_pos (negsuc _) = some (leaf, empty_item, false)

unfoldable pub leaf_remove : ℕ → List ℕ → ℕ → Position → Option (List ℕ × HTreeItem × Bool)
unfolding remove_found remove_item
leaf_remove len_khash leaf key_hash old_pos =
    remove_found len_khash leaf old_pos (find_in_bytes len_khash leaf key_hash)

-- `Get` into the request's item: the item and whether it was found.
get_found : ℕ → List ℕ → HTreeItem → ℤ → Option (HTreeItem × Bool)
get_found len_khash leaf item (pos idx) =
    Opt.map (λ m. (m, true)) (bytes_to_item (drop (idx + len_khash) leaf) item)
get_found len_khash leaf item (negsuc _) = some (item, false)

unfoldable pub leaf_get : ℕ → List ℕ → ℕ → HTreeItem → Option (HTreeItem × Bool)
unfolding get_found
leaf_get len_khash leaf key_hash item =
    get_found len_khash leaf item (find_in_bytes len_khash leaf key_hash)
