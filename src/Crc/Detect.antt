-- ===== src/Crc/Detect.antt =====
-- store/crc32.go: steps of the register undone, and CRCs of strings that differ in one byte.
use Prim.Native.Nat.{bit_xor}
use gobeansdb.Base.{
  ℕ, zero, suc, ◌/◌, ◌^◌, ◌<◌, ◌≡◌, ◌≢◌, refl, sym, ap, ◌∙◌, arith, List, [], ◌∷◌, ◌++◌, All,
  All-append, length, length-append, ◌+◌, ◌-◌,
}
use gobeansdb.Base.Bits.{xor_comm, xor-div, xor-lt, xor_cancel}
use gobeansdb.Base.Bytes.{IsByte}
use gobeansdb.Crc.{crc32_loop, crc32_write, new_crc32, crc32_get}
use gobeansdb.Crc.Bitwise.{
  poly, bit_step, bit_steps, crc32_bitwise, crc32_loop-eq-bitwise, crc32_write_small,
}

abbrev IsU32 : ℕ → Type 0
IsU32 c = c < 2 ^ 32

-- The polynomial sets the top bit.
top_bit : (c : ℕ) → IsU32 c → bit_xor (c / 2) poly / 2 ^ 31 ≡ 1
top_bit c h =
    let none_above : c / 2 / 2 ^ 31 ≡ 0 = omega arith in
    xor-div 31 (c / 2) poly ∙ ap (λ t. bit_xor t 1) none_above

bit_step-lt : (c : ℕ) → IsU32 c → IsU32 (bit_step c)
unfolding bit_step
bit_step-lt c h = ground (arith, xor-lt 32 (c / 2) poly (omega arith) (omega arith))

bit_step_cancel : (c d : ℕ) → IsU32 c → IsU32 d → bit_step c ≡ bit_step d → c ≡ d
unfolding bit_step
bit_step_cancel c d h k = ground (arith, top_bit c h, top_bit d k, xor_cancel (c / 2) (d / 2) poly)

bit_steps-lt : (n c : ℕ) → IsU32 c → IsU32 (bit_steps n c)
unfolding bit_steps
bit_steps-lt zero c h = h
bit_steps-lt (suc n) c h = bit_steps-lt n (bit_step c) (bit_step-lt c h)

bit_steps_cancel : (n c d : ℕ) → IsU32 c → IsU32 d → bit_steps n c ≡ bit_steps n d → c ≡ d
unfolding bit_steps
bit_steps_cancel zero c d h k e = e
bit_steps_cancel (suc n) c d h k e =
    bit_step_cancel c d h k
      (bit_steps_cancel n (bit_step c) (bit_step d) (bit_step-lt c h) (bit_step-lt d k) e)

byte_in-lt : (c b : ℕ) → IsU32 c → b < 256 → IsU32 (bit_xor c b)
byte_in-lt c b h k = xor-lt 32 c b h (omega arith)

pub crc32_bitwise-lt :
    (buf : List ℕ) (c : ℕ) → IsU32 c → All IsByte buf → IsU32 (crc32_bitwise c buf)
unfolding crc32_bitwise
crc32_bitwise-lt [] c h bs = h
crc32_bitwise-lt (b ∷ buf) c h bs =
    crc32_bitwise-lt buf _ (bit_steps-lt 8 _ (byte_in-lt c b h bs.0)) bs.1

bitwise_cancel :
    (buf : List ℕ) (c d : ℕ)
    → IsU32 c
    → IsU32 d
    → All IsByte buf
    → crc32_bitwise c buf ≡ crc32_bitwise d buf
    → c ≡ d
unfolding crc32_bitwise
bitwise_cancel [] c d h k bs e = e
bitwise_cancel (b ∷ buf) c d h k bs e =
    let hc : IsU32 (bit_xor c b) = byte_in-lt c b h bs.0 in
    let hd : IsU32 (bit_xor d b) = byte_in-lt d b k bs.0 in
    xor_cancel c d b (
      bit_steps_cancel 8 _ _ hc hd
        (bitwise_cancel buf _ _ (bit_steps-lt 8 _ hc) (bit_steps-lt 8 _ hd) bs.1 e))

pub crc32_bitwise-append :
    (xs ys : List ℕ) (c : ℕ) → crc32_bitwise c (xs ++ ys) ≡ crc32_bitwise (crc32_bitwise c xs) ys
unfolding crc32_bitwise
crc32_bitwise-append [] ys c = refl
crc32_bitwise-append (x ∷ xs) ys c = crc32_bitwise-append xs ys _

-- Different bytes at one place give different registers.
bitwise_detects :
    (front back : List ℕ) (x y c : ℕ)
    → IsU32 c
    → All IsByte front
    → All IsByte back
    → x < 256
    → y < 256
    → crc32_bitwise c (front ++ (x ∷ back)) ≡ crc32_bitwise c (front ++ (y ∷ back))
    → x ≡ y
bitwise_detects front back x y c h bf bb hx hy e =
    let s : ℕ = crc32_bitwise c front in
    let hs : IsU32 s = crc32_bitwise-lt front c h bf in
    let e' : crc32_bitwise s (x ∷ back) ≡ crc32_bitwise s (y ∷ back) =
      sym (crc32_bitwise-append front (x ∷ back) c) ∙ e ∙ crc32_bitwise-append front (y ∷ back) c in
    unfold crc32_bitwise in
    xor_cancel x y s (
      xor_comm x s
      ∙ bit_steps_cancel 8 _ _ (byte_in-lt s x hs hx) (byte_in-lt s y hs hy) (
          bitwise_cancel back _ _ (bit_steps-lt 8 _ (byte_in-lt s x hs hx))
            (bit_steps-lt 8 _ (byte_in-lt s y hs hy)) bb e')
      ∙ xor_comm s y)

pub crc32_loop-lt : (buf : List ℕ) (c : ℕ) → IsU32 c → All IsByte buf → IsU32 (crc32_loop c buf)
crc32_loop-lt buf c h bs = rw (crc32_loop-eq-bitwise buf c bs) (crc32_bitwise-lt buf c h bs)

pub crc32_loop_detects :
    (front back : List ℕ) (x y : ℕ)
    → All IsByte front
    → All IsByte back
    → x < 256
    → y < 256
    → x ≢ y
    → crc32_get (crc32_loop new_crc32 (front ++ (x ∷ back)))
      ≢ crc32_get (crc32_loop new_crc32 (front ++ (y ∷ back)))
crc32_loop_detects front back x y bf bb hx hy ne e =
    let bx : All IsByte (front ++ (x ∷ back)) = All-append IsByte front (x ∷ back) bf (hx, bb) in
    let by : All IsByte (front ++ (y ∷ back)) = All-append IsByte front (y ∷ back) bf (hy, bb) in
    ne (
      bitwise_detects front back x y new_crc32 (omega arith) bf bb hx hy (
        sym (crc32_loop-eq-bitwise (front ++ (x ∷ back)) new_crc32 bx)
        ∙ omega (
          arith,
          e,
          crc32_loop-lt (front ++ (x ∷ back)) new_crc32 (omega arith) bx,
          crc32_loop-lt (front ++ (y ∷ back)) new_crc32 (omega arith) by,
        )
        ∙ crc32_loop-eq-bitwise (front ++ (y ∷ back)) new_crc32 by))

-- Two strings of fewer than 2 ^ 31 bytes that differ in exactly one byte have different CRCs, from the
-- initial register to the final complement.
pub crc32_detects :
    (front back : List ℕ) (x y : ℕ)
    → length front + length back < 2 ^ 31 - 1
    → All IsByte front
    → All IsByte back
    → x < 256
    → y < 256
    → x ≢ y
    → crc32_get (crc32_write new_crc32 (front ++ (x ∷ back)))
      ≢ crc32_get (crc32_write new_crc32 (front ++ (y ∷ back)))
crc32_detects front back x y short bf bb hx hy ne e =
    crc32_loop_detects front back x y bf bb hx hy ne
      (ap crc32_get (sym (small x)) ∙ e ∙ ap crc32_get (small y))
  where
    small :
        (z : ℕ)
        → crc32_write new_crc32 (front ++ (z ∷ back)) ≡ crc32_loop new_crc32 (front ++ (z ∷ back))
    small z =
        crc32_write_small (front ++ (z ∷ back)) new_crc32
          (omega (arith, length-append front (z ∷ back), short))

pub crc32_loop-append :
    (xs ys : List ℕ) (c : ℕ) → crc32_loop c (xs ++ ys) ≡ crc32_loop (crc32_loop c xs) ys
unfolding crc32_loop
crc32_loop-append [] ys c = refl
crc32_loop-append (x ∷ xs) ys c = crc32_loop-append xs ys _

pub crc32_loop-nil : (c : ℕ) → crc32_loop c [] ≡ c
unfolding crc32_loop
crc32_loop-nil c = refl
