-- ===== src/Crc/Bitwise.antt =====
-- crc32_loop of store/crc32.go against CRC-32 bit by bit.
use Prim.Native.Nat.{bit_xor}
use gobeansdb.Base.{
  ℕ, zero, suc, ◌*◌, ◌/◌, ◌%◌, ◌^◌, ◌<◌, ◌≡◌, refl, sym, ap, ◌∙◌, arith, List, [], ◌∷◌, true,
  get_or, length, ◌≤◌, take-all, lt→ltb, le→ltb_false, ◌==◌, ==_iff, if◌then◌else◌, All,
}
use gobeansdb.Base.Bits.{
  all_below, all_below_sound, xor_half, xor_parity, xor_comm, xor_assoc, xor-div, xor-zero,
  xor_parts,
}
use native.Mathlib.Nat.{pow-zero, pow-succ'}
use gobeansdb.Base.Bytes.{IsByte}
use gobeansdb.Crc.{crc32_byte, crc32_loop, crc32_write, loop_over, crc32_table}

-- The reflected CRC-32 polynomial.
abbrev pub poly : ℕ
poly = 0xedb88320

-- One step of the shift register.
unfoldable pub bit_step : ℕ → ℕ
bit_step c = if c % 2 == 1 then bit_xor (c / 2) poly else c / 2

unfoldable pub bit_steps : ℕ → ℕ → ℕ
bit_steps zero c = c
bit_steps (suc n) c = bit_steps n (bit_step c)

-- The reference: eight steps of the register for each byte.
unfoldable pub crc32_bitwise : ℕ → List ℕ → ℕ
crc32_bitwise crc [] = crc
crc32_bitwise crc (b ∷ buf) = crc32_bitwise (bit_steps 8 (bit_xor crc b)) buf

table_correct : all_below 256 (λ i. get_or crc32_table i 0 == bit_steps 8 i) ≡ true
unfolding all_below crc32_table bit_steps bit_step
table_correct = refl

-- Bits above the lowest move down unchanged.
bit_step-xor : (a b : ℕ) → bit_step (bit_xor a (b * 2)) ≡ bit_xor (bit_step a) b
unfolding bit_step
bit_step-xor a b =
    let half : bit_xor a (b * 2) / 2 ≡ bit_xor (a / 2) b =
      xor_half a (b * 2) ∙ ap (λ t. bit_xor (a / 2) t) (omega arith) in
    let move : bit_xor (bit_xor (a / 2) b) poly ≡ bit_xor (bit_xor (a / 2) poly) b =
      xor_assoc (a / 2) b poly
      ∙ ap (λ t. bit_xor (a / 2) t) (xor_comm b poly)
      ∙ sym (xor_assoc (a / 2) poly b) in
    ground (arith, xor_parity a (b * 2), half, move)

double : (n b : ℕ) → b * 2 ^ suc n ≡ b * 2 ^ n * 2
double n b = omega (arith, ap (λ (t : ℕ). b * t) (pow-succ' 2 n))

bit_steps-xor : (n a b : ℕ) → bit_steps n (bit_xor a (b * 2 ^ n)) ≡ bit_xor (bit_steps n a) b
unfolding bit_steps
bit_steps-xor zero a b = ap (λ t. bit_xor a t) (omega (arith, pow-zero 2))
bit_steps-xor (suc n) a b =
    ap (λ t. bit_steps n (bit_step (bit_xor a t))) (double n b)
    ∙ ap (bit_steps n) (bit_step-xor a (b * 2 ^ n))
    ∙ bit_steps-xor n (bit_step a) b

-- Eight steps of a register are a look-up of its low byte.
bit_steps_table : (c : ℕ) → bit_steps 8 c ≡ bit_xor (get_or crc32_table (c % 256) 0) (c / 256)
bit_steps_table c =
    ap (bit_steps 8) (sym whole)
    ∙ bit_steps-xor 8 (c % 256) (c / 256)
    ∙ ap (λ t. bit_xor t (c / 256)) (sym entry)
  where
    whole : bit_xor (c % 256) (c / 256 * 2 ^ 8) ≡ c
    whole = omega (arith, xor_parts 8 (c % 256) (c / 256) (omega arith))

    entry : get_or crc32_table (c % 256) 0 ≡ bit_steps 8 (c % 256)
    entry = (==_iff _ _).0 (all_below_sound 256 _ (c % 256) table_correct (omega arith))

pub crc32_byte-eq-bit_steps : (crc b : ℕ) → b < 256 → crc32_byte crc b ≡ bit_steps 8 (bit_xor crc b)
unfolding crc32_byte
crc32_byte-eq-bit_steps crc b h = sym (bit_steps_table (bit_xor crc b) ∙ rw high refl)
  where
    high : bit_xor crc b / 256 ≡ crc / 256
    high = xor-div 8 crc b ∙ ap (λ t. bit_xor (crc / 256) t) (omega arith) ∙ xor-zero (crc / 256)

pub crc32_loop-eq-bitwise :
    (buf : List ℕ) (crc : ℕ) → All IsByte buf → crc32_loop crc buf ≡ crc32_bitwise crc buf
unfolding crc32_loop crc32_bitwise
crc32_loop-eq-bitwise [] crc h = refl
crc32_loop-eq-bitwise (b ∷ buf) crc h =
    rw (crc32_byte-eq-bit_steps crc b h.0) (crc32_loop-eq-bitwise buf _ h.1)

-- A length that is no int of C's below zero is the whole of the string.
pub crc32_write_small :
    (buf : List ℕ) (crc : ℕ) → length buf < 2 ^ 31 → crc32_write crc buf ≡ crc32_loop crc buf
unfolding crc32_write loop_over
crc32_write_small buf crc h =
    let n : length buf % 2 ^ 32 ≡ length buf = omega (arith, h) in
    rw (n, lt→ltb (length buf) (2 ^ 31) h, take-all buf) refl

-- The table-driven loop computes the bit-by-bit CRC of fewer than 2 ^ 31 bytes, from any register.
pub crc32_write-eq-bitwise :
    (buf : List ℕ) (crc : ℕ)
    → length buf < 2 ^ 31
    → All IsByte buf
    → crc32_write crc buf ≡ crc32_bitwise crc buf
crc32_write-eq-bitwise buf crc short h =
    crc32_write_small buf crc short ∙ crc32_loop-eq-bitwise buf crc h

-- From 2 ^ 31 to 2 ^ 32 bytes the register is left as it is.
pub crc32_write_large :
    (buf : List ℕ) (crc : ℕ) → 2 ^ 31 ≤ length buf → length buf < 2 ^ 32 → crc32_write crc buf ≡ crc
unfolding crc32_write loop_over
crc32_write_large buf crc h k =
    let n : length buf % 2 ^ 32 ≡ length buf = omega (arith, k) in
    rw (n, le→ltb_false (length buf) (2 ^ 31) h) refl
