-- ===== src/Crc/Tests.antt =====
-- Runs of the code of Crc, one on the nine digits of the usual check value.
use gobeansdb.Base.{ℕ, ◌≡◌, ◌≢◌, refl, arith, List, [], ◌∷◌, ◌++◌}
use gobeansdb.Crc.{
  crc32_table, crc32_byte, crc32_loop, loop_over, crc32_write, crc32_get, new_crc32,
}
use gobeansdb.Crc.Bitwise.{crc32_bitwise, crc32_write-eq-bitwise}
use gobeansdb.Crc.Detect.{crc32_detects}

abbrev digits : List ℕ
digits = b'1' ∷ b'2' ∷ b'3' ∷ b'4' ∷ b'5' ∷ b'6' ∷ b'7' ∷ b'8' ∷ b'9' ∷ []

check_value : crc32_get (crc32_write new_crc32 digits) ≡ 0xcbf43926
unfolding crc32_write loop_over crc32_loop crc32_byte crc32_table
check_value = refl

crc32_write-eq-bitwise_example : crc32_write new_crc32 digits ≡ crc32_bitwise new_crc32 digits
crc32_write-eq-bitwise_example = crc32_write-eq-bitwise digits new_crc32 (omega arith) (omega arith)

crc32_detects_example :
    crc32_get (crc32_write new_crc32 ((1 ∷ []) ++ (2 ∷ (3 ∷ []))))
    ≢ crc32_get (crc32_write new_crc32 ((1 ∷ []) ++ (66 ∷ (3 ∷ []))))
crc32_detects_example =
    crc32_detects (1 ∷ []) (3 ∷ []) 2 66 (omega arith) (omega arith) (omega arith) (omega arith)
      (omega arith) (omega arith)
