-- ===== src/Record/Steps.antt =====
-- readRecordAt of store/datafile.go, one test at a time.
use gobeansdb.Base.{
  ℕ, ◌+◌, ◌%◌, ◌^◌, ◌≡◌, ◌≢◌, arith, true, List, length, take, drop, le→ltb_false, ==_iff,
}
use gobeansdb.Base.Int.{pos}
use gobeansdb.Config.{McConfig, is_valid_key_size, is_valid_value_size}
use gobeansdb.Cmem.{CArray, BeansdbRl, alloc, empty_array, add_size_and_count}
use gobeansdb.Record.{
  WriteRecord, ok, err, crc_fail, read_record_at, read_sized, read_kv, check_crc, with_kv, get_crc,
  decode_header, new_write_record, rec_header_size,
}

module _ (w : WriteRecord) (rl : BeansdbRl) where
  pub check_crc_ok : w.crc ≡ get_crc w → check_crc w rl ≡ (ok w, rl)
  unfolding check_crc
  check_crc_ok e = rw ((==_iff w.crc (get_crc w)).1 e)

  pub check_crc_fail : w.crc ≢ get_crc w → (check_crc w rl).0 ≡ err crc_fail
  unfolding check_crc
  check_crc_fail ne = ground (arith, ne)

abbrev pub counted : BeansdbRl → CArray → BeansdbRl
counted rl kv = record rl { get_data = add_size_and_count rl.get_data (pos kv.cap) }

-- The second read gets the bytes that it asks for.
pub read_kv_full :
    (file bytes : List ℕ) (offset n : ℕ) (w : WriteRecord) (kv : CArray) (rl : BeansdbRl)
    → take n (drop (offset + 24) file) ≡ bytes
    → length bytes ≡ n
    → read_kv file offset w n kv rl
      ≡ check_crc (with_kv w (record kv { body = bytes })) (counted rl kv)
unfolding read_kv
read_kv_full file bytes offset n w kv rl e l =
    rw (e, le→ltb_false (length bytes) n (omega (arith, l)))

module _ (conf : McConfig) (malloc : ℕ → ℕ) where
  pub read_sized_valid :
      (file : List ℕ) (offset : ℕ) (w : WriteRecord) (kv : CArray) (rl rl' : BeansdbRl)
      → is_valid_key_size conf w.ksz ≡ true
      → is_valid_value_size conf w.vsz ≡ true
      → alloc conf malloc empty_array ((w.ksz + w.vsz) % 2 ^ 32) rl ≡ (true, kv, rl')
      → read_sized conf malloc file offset w rl
        ≡ read_kv file offset w ((w.ksz + w.vsz) % 2 ^ 32) kv rl'
  unfolding read_sized
  read_sized_valid file offset w kv rl rl' k v a = rw (k, v, a)

  pub read_head_full :
      (file header : List ℕ) (offset : ℕ) (rl : BeansdbRl)
      → take rec_header_size (drop offset file) ≡ header
      → length header ≡ 24
      → read_record_at conf malloc file offset rl
        ≡ read_sized conf malloc file offset
            (decode_header (record new_write_record { header = header }) header)
            rl
  unfolding read_record_at
  read_head_full file header offset rl e l = rw (e, l)
