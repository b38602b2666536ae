-- ===== src/Record/Corruption.antt =====
-- readRecordAt of store/datafile.go where one byte of a stored key or value has changed.
use gobeansdb.Base.{
  ℕ, ◌^◌, ◌<◌, ◌≡◌, ◌≢◌, sym, ap, ◌∙◌, arith, List, [], ◌∷◌, ◌++◌, length, drop, All, All-append,
}
use gobeansdb.Base.Bytes.{IsByte}
use gobeansdb.Config.{McConfig}
use gobeansdb.Cmem.{BeansdbRl}
use gobeansdb.Crc.{crc32_loop, new_crc32, crc32_get}
use gobeansdb.Crc.Bitwise.{crc32_write_small}
use gobeansdb.Crc.Detect.{crc32_loop_detects, crc32_loop-append, crc32_loop-nil}
use gobeansdb.Record.{Rec, WriteRecord, err, crc_fail, read_record_at, with_kv, get_crc, write_some}
use gobeansdb.Record.Header.{IsStorable, header_of, crc_of, padding_of, decoded}
use gobeansdb.Record.Steps.{check_crc_fail}
use gobeansdb.Record.RoundTrip.{
  IsReadable, read_to_crc, crc_of-lt, crc_of_lem, crc_with, crc_of_with,
}
use mathlib.Core.List.{append_assoc}

write_some_lem : (c : ℕ) (bs : List ℕ) → length bs < 2 ^ 31 → write_some c bs ≡ crc32_loop c bs
write_some_lem c [] h = sym (crc32_loop-nil c)
write_some_lem c (b ∷ bs) h = crc32_write_small (b ∷ bs) c h

-- The header behind the CRC field.
abbrev fields_of : Rec → List ℕ
fields_of rec = drop 4 (header_of 0 rec)

fields_of-IsByte : (rec : Rec) → All IsByte (fields_of rec)
fields_of-IsByte rec = omega arith

crc_with_lem :
    (rec : Rec) (key body : List ℕ)
    → length key < 2 ^ 31
    → length body < 2 ^ 31
    → crc_with rec key body ≡ crc32_get (crc32_loop new_crc32 (fields_of rec ++ (key ++ body)))
crc_with_lem rec key body hk hb = ap crc32_get (
    write_some_lem _ body hb
    ∙ ap (λ c. crc32_loop c body)
        (write_some_lem _ key hk
          ∙ ap (λ c. crc32_loop c key) (crc32_write_small (fields_of rec) new_crc32 (omega arith)))
    ∙ ap (λ c. crc32_loop c body) (sym (crc32_loop-append (fields_of rec) key new_crc32))
    ∙ sym (crc32_loop-append (fields_of rec ++ key) body new_crc32)
    ∙ ap (crc32_loop new_crc32) (append_assoc (fields_of rec) key body))

abbrev AreShort : List ℕ → List ℕ → Type 0
AreShort key body = (length key < 2 ^ 31) × (length body < 2 ^ 31)

-- One changed byte in key and value, taken together, changes the CRC.
crc_changes :
    (rec : Rec) (key body key' body' front back : List ℕ) (x y : ℕ)
    → key ++ body ≡ front ++ (x ∷ back)
    → key' ++ body' ≡ front ++ (y ∷ back)
    → AreShort key body
    → AreShort key' body'
    → All IsByte front
    → All IsByte back
    → x < 256
    → y < 256
    → x ≢ y
    → crc_with rec key body ≢ crc_with rec key' body'
crc_changes rec key body key' body' front back x y e e' s s' bf bb hx hy ne same =
    crc32_loop_detects (fields_of rec ++ front) back x y
      (All-append IsByte (fields_of rec) front (fields_of-IsByte rec) bf) bb hx hy ne
      (shape key body x e s ∙ same ∙ sym (shape key' body' y e' s'))
  where
    shape :
        (k b : List ℕ) (z : ℕ)
        → k ++ b ≡ front ++ (z ∷ back)
        → AreShort k b
        → crc32_get (crc32_loop new_crc32 ((fields_of rec ++ front) ++ (z ∷ back)))
          ≡ crc_with rec k b
    shape k b z p short =
        ap (λ t. crc32_get (crc32_loop new_crc32 t))
          (append_assoc (fields_of rec) front (z ∷ back) ∙ ap (λ t. fields_of rec ++ t) (sym p))
        ∙ sym (crc_with_lem rec k b short.0 short.1)

module _ (conf : McConfig) (malloc : ℕ → ℕ) where
  -- A stored record whose fields fit, whose sizes are valid, whose key and value have fewer than 2 ^ 31
  -- bytes each and for which memory is granted, and in which exactly one byte of the key or the value has
  -- been replaced by another, is never returned: the read ends with the CRC error.
  pub corrupt_byte_detected :
      (rec : Rec) (key body pre post front back : List ℕ) (x y : ℕ) (rl : BeansdbRl)
      → IsStorable rec
      → IsReadable conf malloc rec
      → length rec.key < 2 ^ 31
      → length rec.payload.body < 2 ^ 31
      → length key ≡ length rec.key
      → length body ≡ length rec.payload.body
      → rec.key ++ rec.payload.body ≡ front ++ (x ∷ back)
      → key ++ body ≡ front ++ (y ∷ back)
      → All IsByte front
      → All IsByte back
      → x < 256
      → y < 256
      → x ≢ y
      → (read_record_at conf malloc
          (pre ++ (header_of (crc_of rec) rec ++ (key ++ (body ++ (padding_of rec ++ post)))))
          (length pre)
          rl).0
        ≡ err crc_fail
  corrupt_byte_detected rec key body pre post front back x y rl h r sk sb ek eb e e' bf bb hx hy
        ne =
      let (kv, rl', step) =
        read_to_crc conf malloc rec (crc_of rec) key body pre (padding_of rec ++ post) rl h r
          (crc_of-lt rec) ek eb in
      let w : WriteRecord = with_kv (decoded (crc_of rec) rec) (record kv { body = key ++ body }) in
      let bad : w.crc ≢ get_crc w = λ same.
        crc_changes rec rec.key rec.payload.body key body front back x y e e' (sk, sb)
          (omega (arith, sk, ek), omega (arith, sb, eb)) bf bb hx hy ne
          (sym (crc_of_lem rec) ∙ same ∙ sym (crc_of_with (crc_of rec) rec kv key body (sym ek))) in
      ap (λ p. p.0) step ∙ check_crc_fail w rl' bad
