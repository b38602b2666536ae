-- ===== src/Leaf/Tests.antt =====
-- Runs of the code of Leaf on a leaf of two items, with two bytes of each hash.
use gobeansdb.Base.{◌≡◌, refl, arith, if◌then◌else◌, false, some, none, List, [], ◌∷◌, ◌++◌}
use gobeansdb.Base.Int.{pos, negsuc}
use gobeansdb.Leaf.{
  HTreeItem, item_to_bytes, bytes_to_item, leaf_set, leaf_get, leaf_remove, removes, empty_item,
}
use gobeansdb.Leaf.Item.{IsStorable, overlay, bytes_to_item-item_to_bytes}
use gobeansdb.Leaf.Refine.{
  AllStorable, encode, item_for, with_item, without_item, got, leaf_set-encode, leaf_get-encode,
  leaf_remove-encode,
}

abbrev one : HTreeItem
one = record {
  key_hash = 0x1234;
  at = record { chunk_id = pos 3; offset = 512 };
  ver = pos 2;
  vhash = 77;
}

abbrev two : HTreeItem
two = record {
  key_hash = 0x5678;
  at = record { chunk_id = pos 4; offset = 256 };
  ver = negsuc 2;
  vhash = 5;
}

one-IsStorable : IsStorable one
one-IsStorable = record {
  ver = omega arith;
  vhash = omega arith;
  offset = omega arith;
  aligned = refl;
  chunk = 3;
  chunk_is = refl;
  chunk_fits = omega arith;
}

two-IsStorable : IsStorable two
two-IsStorable = record {
  ver = omega arith;
  vhash = omega arith;
  offset = omega arith;
  aligned = refl;
  chunk = 4;
  chunk_is = refl;
  chunk_fits = omega arith;
}

abbrev both : List HTreeItem
both = one ∷ two ∷ []

both-AllStorable : AllStorable both
both-AllStorable = (one-IsStorable, (two-IsStorable, _))

bytes_to_item-item_to_bytes_example :
    bytes_to_item (item_to_bytes one ++ (9 ∷ [])) empty_item ≡ some (overlay one empty_item)
bytes_to_item-item_to_bytes_example =
    bytes_to_item-item_to_bytes one empty_item (9 ∷ []) one-IsStorable

leaf_get-encode_example :
    leaf_get 2 (encode 2 both) 0x5678 empty_item ≡ some (got (item_for 2 0x5678 both) empty_item)
leaf_get-encode_example = leaf_get-encode 2 (omega arith) 0x5678 both both-AllStorable empty_item

leaf_set-encode_example :
    leaf_set 2 (encode 2 both) 0x1234 two
    ≡ some (
      encode 2 (with_item 2 0x1234 two both),
      (got (item_for 2 0x1234 both) empty_item).0,
      (got (item_for 2 0x1234 both) empty_item).1,
    )
leaf_set-encode_example = leaf_set-encode 2 (omega arith) 0x1234 both both-AllStorable two

leaf_remove-encode_example :
    leaf_remove 2 (encode 2 both) 0x1234 (record { chunk_id = negsuc 0; offset = 0 })
    ≡ some (elim (item_for 2 0x1234 both) [
      | none ↦ (encode 2 both, empty_item, false)
      | some e ↦ (
        if removes (record { chunk_id = negsuc 0; offset = 0 }) e
            then encode 2 (without_item 2 0x1234 both)
            else encode 2 both,
        overlay e empty_item,
        removes (record { chunk_id = negsuc 0; offset = 0 }) e,
      )
    ])
leaf_remove-encode_example =
    leaf_remove-encode 2 (omega arith) 0x1234 both both-AllStorable
      (record { chunk_id = negsuc 0; offset = 0 })
