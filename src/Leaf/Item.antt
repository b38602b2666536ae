-- ===== src/Leaf/Item.antt =====
-- itemToBytes and bytesToItem of store/leaf.go, one after the other.
use gobeansdb.Base.{
  ℕ, ◌*◌, ◌/◌, ◌%◌, ◌^◌, ◌<◌, ◌≡◌, refl, sym, ap, ◌∙◌, arith, false, some, List, ◌++◌, length, take,
  drop, ltb, le→ltb_false,
}
use gobeansdb.Base.Int.{pos, IsInt32, to_u32, of_u32, to_u32-lt, of_u32-to_u32}
use gobeansdb.Base.Bytes.{put_le, get_le}
use gobeansdb.Leaf.{HTreeItem, item_to_bytes, bytes_to_item}

-- An item that a leaf can hold: a position at a multiple of 256, in one of 65536 chunks.
pub record IsStorable (item : HTreeItem) : Type 0 where
  pub ver : IsInt32 item.ver
  pub vhash : item.vhash < 2 ^ 16
  pub offset : item.at.offset < 2 ^ 32
  pub aligned : item.at.offset % 256 ≡ 0
  pub chunk : ℕ
  pub chunk_is : item.at.chunk_id ≡ pos chunk
  pub chunk_fits : chunk < 2 ^ 16

-- `base` with the stored fields of `item`.
abbrev pub overlay : HTreeItem → HTreeItem → HTreeItem
overlay item base = record base { ver = item.ver; vhash = item.vhash; at = item.at }

pub length-item_to_bytes : (item : HTreeItem) → length (item_to_bytes item) ≡ 11
unfolding item_to_bytes
length-item_to_bytes item = refl

fields_read :
    (v h o c : ℕ) (rest : List ℕ)
    → v < 2 ^ 32
    → h < 2 ^ 16
    → o < 2 ^ 24
    → c < 2 ^ 16
    → let b = (put_le 4 v ++ (put_le 2 h ++ (put_le 3 o ++ put_le 2 c))) ++ rest in
      (get_le (take 4 b) ≡ v)
      × (get_le (take 2 (drop 4 b)) ≡ h)
      × (get_le (take 3 (drop 6 b)) ≡ o)
      × (get_le (take 2 (drop 9 b)) ≡ c)
fields_read v h o c rest hv hh ho hc = omega arith

long_enough :
    (v h o c : ℕ) (rest : List ℕ)
    → ltb (length ((put_le 4 v ++ (put_le 2 h ++ (put_le 3 o ++ put_le 2 c))) ++ rest)) 11 ≡ false
long_enough v h o c rest = le→ltb_false _ 11 (omega arith)

-- Whatever follows in the leaf, a storable item is read back with all its fields but the hash of
-- the key.
pub bytes_to_item-item_to_bytes :
    (item base : HTreeItem) (rest : List ℕ)
    → IsStorable item
    → bytes_to_item (item_to_bytes item ++ rest) base ≡ some (overlay item base)
unfolding bytes_to_item item_to_bytes
bytes_to_item-item_to_bytes item base rest s =
    let chunk_small : to_u32 item.at.chunk_id < 2 ^ 16 =
      rw s.chunk_is (omega (arith, s.chunk_fits)) in
    let (v, h, o, c) =
      fields_read (to_u32 item.ver) item.vhash (item.at.offset / 256) (to_u32 item.at.chunk_id) rest
        (to_u32-lt item.ver) s.vhash (omega (arith, s.offset)) chunk_small in
    let scaled : item.at.offset / 256 * 256 ≡ item.at.offset = omega (arith, s.aligned) in
    rw
      (long_enough (to_u32 item.ver) item.vhash (item.at.offset / 256) (to_u32 item.at.chunk_id)
        rest)
      (λ i. some (record base {
        ver = (ap of_u32 v ∙ of_u32-to_u32 item.ver s.ver) i;
        vhash = h i;
        at = record {
          offset = (ap (λ (t : ℕ). t * 256) o ∙ scaled) i;
          chunk_id = (ap pos (c ∙ chunk_value s.chunk_is) ∙ sym s.chunk_is) i;
        };
      }))
  where
    chunk_value : item.at.chunk_id ≡ pos s.chunk → to_u32 item.at.chunk_id ≡ s.chunk
    chunk_value e = ap to_u32 e ∙ omega (arith, s.chunk_fits)
