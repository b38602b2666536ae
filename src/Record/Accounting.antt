-- ===== src/Record/Accounting.antt =====
-- readRecordAt of store/datafile.go: the counters of memory in use, across every way it can end.
use gobeansdb.Base.{
  ℕ, ◌+◌, ◌%◌, ◌^◌, ◌≡◌, ◌≢◌, refl, inl, inr, Bool-cases, List, length, take, drop, ltb, ◌==◌,
}
use gobeansdb.Base.Int.{pos}
use gobeansdb.Config.{McConfig, is_valid_key_size, is_valid_value_size}
use gobeansdb.Cmem
use gobeansdb.Cmem.{
  CArray, BeansdbRl, ResourceLimiter, alloc, free, add_size_and_count, sub_size_and_count,
}
use gobeansdb.Cmem.Balance.{
  IsRange, SameLevel, SameLevel-refl, sub-add, get_data-free, get_data-alloc,
}
use gobeansdb.Record.{
  WriteRecord, ReadError, ok, err, read_record_at, read_sized, read_kv, check_crc, with_kv, get_crc,
}

-- A limiter that has just counted `n` bytes over `base`.
abbrev Holds : ResourceLimiter → ResourceLimiter → ℕ → Type 0
Holds now base n = now ≡ add_size_and_count base (pos n)

given_back :
    (now base : ResourceLimiter) (n : ℕ)
    → IsRange base
    → Holds now base n
    → SameLevel (sub_size_and_count now (pos n)) base
given_back now base n h e = rw e (sub-add base n h)

check_crc_balanced :
    (w : WriteRecord) (rl : BeansdbRl) (base : ResourceLimiter) (e : ReadError)
    → IsRange base
    → Holds rl.get_data base w.rec.payload.cap
    → (check_crc w rl).0 ≡ err e
    → SameLevel (check_crc w rl).1.get_data base
unfolding check_crc
check_crc_balanced w rl base e h held r = elim (Bool-cases (w.crc == get_crc w)) [
  | inl good ↦ absurd (ok_not_err w e (rw good at r))
  | inr bad ↦ rw (bad, get_data-free) (given_back rl.get_data base w.rec.payload.cap h held)
]
  where
    ok_not_err : (v : WriteRecord) (x : ReadError) → ok v ≢ err x
    ok_not_err v x p = cc

read_kv_balanced :
    (file : List ℕ) (offset n : ℕ) (w : WriteRecord) (kv : CArray) (rl : BeansdbRl) (e : ReadError)
    → IsRange rl.get_data
    → (read_kv file offset w n kv rl).0 ≡ err e
    → SameLevel (read_kv file offset w n kv rl).1.get_data rl.get_data
unfolding read_kv
read_kv_balanced file offset n w kv rl e h r =
    elim (Bool-cases (ltb (length (take n (drop (offset + 24) file))) n)) [
      | inl short ↦ rw short (sub-add rl.get_data kv.cap h)
      | inr full ↦ rw full (
          check_crc_balanced (with_kv w (record kv { body = bytes })) counted rl.get_data e h refl
            (rw full at r))
    ]
  where
    bytes : List ℕ
    bytes = take n (drop (offset + 24) file)

    counted : BeansdbRl
    counted = record rl { get_data = add_size_and_count rl.get_data (pos kv.cap) }

module _ (conf : McConfig) (malloc : ℕ → ℕ) where
  read_sized_balanced :
      (file : List ℕ) (offset : ℕ) (w : WriteRecord) (rl : BeansdbRl) (e : ReadError)
      → IsRange rl.get_data
      → (read_sized conf malloc file offset w rl).0 ≡ err e
      → SameLevel (read_sized conf malloc file offset w rl).1.get_data rl.get_data
  unfolding read_sized
  read_sized_balanced file offset w rl e h r = elim (Bool-cases (is_valid_key_size conf w.ksz)) [
    | inr bad ↦ rw bad (SameLevel-refl rl.get_data)
    | inl k ↦ elim (Bool-cases (is_valid_value_size conf w.vsz)) [
      | inr bad ↦ rw (k, bad) (SameLevel-refl rl.get_data)
      | inl v ↦ elim (Bool-cases (alloc conf malloc Cmem.empty_array n rl).0) [
        | inr bad ↦ rw (k, v, bad, get_data-alloc) (SameLevel-refl rl.get_data)
        | inl got ↦
            rw (k, v, got)
              (rw (get_data-alloc conf malloc Cmem.empty_array n rl) at (
                read_kv_balanced file offset n w kv rl' e
                  (rw (get_data-alloc conf malloc Cmem.empty_array n rl) h) (rw (k, v, got) at r)))
      ]
    ]
  ]
    where
      n : ℕ
      n = (w.ksz + w.vsz) % 2 ^ 32

      kv : CArray
      kv = (alloc conf malloc Cmem.empty_array n rl).1

      rl' : BeansdbRl
      rl' = (alloc conf malloc Cmem.empty_array n rl).2

  -- If the counters of GetData are in the range of int64, then whichever error ends a read, its
  -- count and size are what they were before it.
  pub read_error_balanced :
      (file : List ℕ) (offset : ℕ) (rl : BeansdbRl) (e : ReadError)
      → IsRange rl.get_data
      → (read_record_at conf malloc file offset rl).0 ≡ err e
      → SameLevel (read_record_at conf malloc file offset rl).1.get_data rl.get_data
  unfolding read_record_at
  read_error_balanced file offset rl e h r =
      elim (Bool-cases (ltb (length (take 24 (drop offset file))) 24)) [
        | inl short ↦ rw short (SameLevel-refl rl.get_data)
        | inr full ↦ rw full (read_sized_balanced file offset _ rl e h (rw full at r))
      ]
