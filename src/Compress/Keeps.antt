-- ===== src/Compress/Keeps.antt =====
-- What TryCompress of store/item.go leaves as it is.
use gobeansdb.Base.{
  ℕ, ◌≡◌, refl, Bool, true, false, Option, none, some, List, if◌then◌else◌, length, ltb, leb, not,
  ◌||◌,
}
use gobeansdb.Base.Int.{pos, ltb_ℤ}
use gobeansdb.Cmem.{CArray, BeansdbRl, free}
use gobeansdb.Record.{Rec, sizes}
use gobeansdb.Compress.{
  Compressor, try_compress, try_part, adopt_whole, adopt, part_of, is_compressed,
  is_client_compressed,
}

-- The key, the time stamp and the version of `rec` in `r`.
pub record Keeps (rec r : Rec) : Type 0 where
  pub key : r.key ≡ rec.key
  pub ts : r.payload.ts ≡ rec.payload.ts
  pub ver : r.payload.ver ≡ rec.payload.ver

module _ (c : Compressor) (rec : Rec) where
  abbrev Kept : Rec × BeansdbRl → Type 0
  Kept r = Keeps rec r.0

  same : (rl : BeansdbRl) → Kept (rec, rl)
  same rl = record { key = refl; ts = refl; ver = refl }

  adopted : (arr : CArray) (rl : BeansdbRl) → Kept (adopt rec arr rl)
  adopted arr rl = record { key = refl; ts = refl; ver = refl }

  either : (b : Bool) (x y : Rec × BeansdbRl) → Kept x → Kept y → Kept (if b then x else y)
  either true x y p q = p
  either false x y p q = q

  whole-Kept : (x : Option CArray × BeansdbRl) → Kept (adopt_whole rec x)
  unfolding adopt_whole
  whole-Kept (none, rl) = same rl
  whole-Kept (some arr, rl) = adopted arr rl

  part-Kept : (try : List ℕ) (x : Option CArray × BeansdbRl) → Kept (try_part c rec try x)
  unfolding try_part
  part-Kept try (none, rl) = same rl
  part-Kept try (some arr, rl) =
      either (c.over_limit (length arr.body) (length try)) _ _ (same (free arr rl).1) (
        either (ltb (length try) (length rec.payload.body)) _ _
          (whole-Kept (c.c_compress rec.payload.body (free arr rl).1)) (adopted arr rl))

  -- Whatever `TryCompress` does, the key, the time stamp and the version are the record's.
  pub try_compress-Keeps : (rl : BeansdbRl) → Keeps rec (try_compress c rec rl).0
  unfolding try_compress
  try_compress-Keeps rl =
      either (ltb_ℤ rec.payload.ver (pos 0)) (rec, rl) _ (same rl)
        (either (is_client_compressed rec.payload.flag || is_compressed rec.payload.flag) (rec, rl)
          _ (same rl)
          (either (leb (sizes rec).1 256) (rec, rl) _ (same rl)
            (either (not (c.need_compress (part_of rec.payload.body))) (rec, rl) _ (same rl)
              (part-Kept (part_of rec.payload.body) (c.c_compress (part_of rec.payload.body) rl)))))
