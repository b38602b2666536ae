-- ===== src/Base/Bits.antt =====
-- Laws of exclusive or at variables, from the digit recursion of the native operation, and tables
-- over small ranges. It models no code of the repository.
use Prim.Native.Nat.{
  ℕ, zero, suc, ◌+◌, ◌*◌, ◌/◌, ◌%◌, ◌^◌, ◌≤◌, ◌<◌, bit_xor, bit_or, max, digits, differ,
  bit_xor-bitwise, bit_or-bitwise,
}
use mathlib.Core.Path.{◌≡◌, refl, sym, ap, ◌∙◌}
use mathlib.Core.Bool.{Bool, true, false}
use gobeansdb.Base.Tests.{if◌then◌else◌}
use native.Mathlib.Omega.{arith}
use native.Mathlib.Nat.{
  le_refl, pow-zero, pow-succ', div-one, div-div-eq-div-mul, div-eq_of_lt, lt-mul-div-succ,
  one-le-pow,
}

-- A test of all numbers below a limit, run by evaluation.
unfoldable pub all_below : ℕ → (ℕ → Bool) → Bool
all_below zero test = true
all_below (suc limit) test = if test limit then all_below limit test else false

pub all_below_sound :
    (limit : ℕ) (test : ℕ → Bool) (i : ℕ) → all_below limit test ≡ true → i < limit → test i ≡ true
unfolding all_below
all_below_sound (suc limit) test i passed below = ground (arith, all_below_sound limit test i)
all_below_sound zero test i passed below = elim below [ ]

-- The recursion on digits does not depend on its fuel, where the fuel is enough.
module _ (op : ℕ → ℕ → ℕ) where
  fuel_free :
      (x y fuel more : ℕ)
      → x ≤ fuel
      → x ≤ more
      → digits (λ t. t) op fuel x y ≡ digits (λ t. t) op more x y
  fuel_free zero y zero zero le le' = refl
  fuel_free zero y zero (suc more) le le' = refl
  fuel_free zero y (suc fuel) zero le le' = refl
  fuel_free zero y (suc fuel) (suc more) le le' = refl
  fuel_free (suc x) y zero more le le' = elim le [ ]
  fuel_free (suc x) y (suc fuel) zero le le' = elim le' [ ]
  fuel_free (suc x) y (suc fuel) (suc more) le le' =
      rw (fuel_free (suc x / 2) (y / 2) fuel more (omega arith) (omega arith))

  half_fuel :
      (x y : ℕ) → digits (λ t. t) op x (suc x / 2) y ≡ digits (λ t. t) op (suc x / 2) (suc x / 2) y
  half_fuel x y = fuel_free (suc x / 2) y x (suc x / 2) (omega arith) (le_refl _)

differ_digits : (x y : ℕ) → x < 2 → y < 2 → differ x y ≡ (x + y) % 2
differ_digits zero zero p q = refl
differ_digits zero (suc zero) p q = refl
differ_digits zero (suc (suc y)) p q = absurd (omega arith)
differ_digits (suc zero) zero p q = refl
differ_digits (suc zero) (suc zero) p q = refl
differ_digits (suc zero) (suc (suc y)) p q = absurd (omega arith)
differ_digits (suc (suc x)) y p q = absurd (omega arith)

xor-suc :
    (a b : ℕ) → bit_xor (suc a) b ≡ bit_xor (suc a / 2) (b / 2) * 2 + differ (suc a % 2) (b % 2)
xor-suc a b = omega (
  arith,
  half_fuel differ a (b / 2),
  bit_xor-bitwise (suc a) b,
  bit_xor-bitwise (suc a / 2) (b / 2),
)

pub zero-xor : (b : ℕ) → bit_xor 0 b ≡ b
zero-xor b = bit_xor-bitwise 0 b

xor_step : (a b : ℕ) → bit_xor a b ≡ bit_xor (a / 2) (b / 2) * 2 + (a % 2 + b % 2) % 2
xor_step zero b = omega (arith, zero-xor b, zero-xor (b / 2))
xor_step (suc a) b =
    omega (arith, xor-suc a b, differ_digits (suc a % 2) (b % 2) (omega arith) (omega arith))

pub xor_half : (a b : ℕ) → bit_xor a b / 2 ≡ bit_xor (a / 2) (b / 2)
xor_half a b = omega (arith, xor_step a b)

pub xor_parity : (a b : ℕ) → bit_xor a b % 2 ≡ (a + b) % 2
xor_parity a b = omega (arith, xor_step a b)

xor_comm_below : (n a b : ℕ) → a ≤ n → b ≤ n → bit_xor a b ≡ bit_xor b a
xor_comm_below zero zero zero p q = refl
xor_comm_below zero (suc a) b p q = absurd (omega arith)
xor_comm_below zero zero (suc b) p q = absurd (omega arith)
xor_comm_below (suc n) a b p q = omega (
  arith,
  xor_step a b,
  xor_step b a,
  xor_comm_below n (a / 2) (b / 2) (omega arith) (omega arith),
)

pub xor_comm : (a b : ℕ) → bit_xor a b ≡ bit_xor b a
xor_comm a b = xor_comm_below (a + b) a b (omega arith) (omega arith)

xor_assoc_below :
    (n a b c : ℕ) → a ≤ n → b ≤ n → c ≤ n → bit_xor (bit_xor a b) c ≡ bit_xor a (bit_xor b c)
xor_assoc_below zero zero zero zero p q r = refl
xor_assoc_below zero (suc a) b c p q r = absurd (omega arith)
xor_assoc_below zero zero (suc b) c p q r = absurd (omega arith)
xor_assoc_below zero zero zero (suc c) p q r = absurd (omega arith)
xor_assoc_below (suc n) a b c p q r =
    let left : bit_xor (bit_xor a b) c
        ≡ bit_xor (bit_xor (a / 2) (b / 2)) (c / 2) * 2 + (a % 2 + b % 2 + c % 2) % 2 =
      rw (← xor_half a b) (omega (arith, xor_step (bit_xor a b) c, xor_parity a b)) in
    let right : bit_xor a (bit_xor b c)
        ≡ bit_xor (a / 2) (bit_xor (b / 2) (c / 2)) * 2 + (a % 2 + b % 2 + c % 2) % 2 =
      rw (← xor_half b c) (omega (arith, xor_step a (bit_xor b c), xor_parity b c)) in
    omega (
      arith,
      left,
      right,
      xor_assoc_below n (a / 2) (b / 2) (c / 2) (omega arith) (omega arith) (omega arith),
    )

pub xor_assoc : (a b c : ℕ) → bit_xor (bit_xor a b) c ≡ bit_xor a (bit_xor b c)
xor_assoc a b c = xor_assoc_below (a + b + c) a b c (omega arith) (omega arith) (omega arith)

xor-self_below : (n a : ℕ) → a ≤ n → bit_xor a a ≡ 0
xor-self_below zero zero p = refl
xor-self_below zero (suc a) p = absurd (omega arith)
xor-self_below (suc n) a p = omega (arith, xor_step a a, xor-self_below n (a / 2) (omega arith))

pub xor_self : (a : ℕ) → bit_xor a a ≡ 0
xor_self a = xor-self_below a a (le_refl a)

pub xor-zero : (a : ℕ) → bit_xor a 0 ≡ a
xor-zero a = xor_comm a 0 ∙ zero-xor a

pub xor_cancel : (a b c : ℕ) → bit_xor a c ≡ bit_xor b c → a ≡ b
xor_cancel a b c e = sym (undo a) ∙ ap (λ t. bit_xor t c) e ∙ undo b
  where
    undo : (x : ℕ) → bit_xor (bit_xor x c) c ≡ x
    undo x = xor_assoc x c c ∙ ap (λ t. bit_xor x t) (xor_self c) ∙ xor-zero x

-- Exclusive or bit by bit: of the parts above a place, and of numbers of so many bits.
div_pow : (k x : ℕ) → x / 2 ^ suc k ≡ x / 2 / 2 ^ k
div_pow k x = ap (λ (t : ℕ). x / t) (pow-succ' 2 k) ∙ sym (div-div-eq-div-mul x 2 (2 ^ k))

pub xor-div : (k a b : ℕ) → bit_xor a b / 2 ^ k ≡ bit_xor (a / 2 ^ k) (b / 2 ^ k)
xor-div zero a b = simp (pow-zero, div-one)
xor-div (suc k) a b =
    div_pow k (bit_xor a b)
    ∙ ap (λ (t : ℕ). t / 2 ^ k) (xor_half a b)
    ∙ xor-div k (a / 2) (b / 2)
    ∙ λ i. bit_xor (sym (div_pow k a) i) (sym (div_pow k b) i)

pub xor-lt : (k a b : ℕ) → a < 2 ^ k → b < 2 ^ k → bit_xor a b < 2 ^ k
xor-lt k a b p q =
    let above : bit_xor a b / 2 ^ k ≡ 0 =
      xor-div k a b ∙ (λ i. bit_xor (div-eq_of_lt p i) (div-eq_of_lt q i)) in
    grind (arith, lt-mul-div-succ (bit_xor a b) (one-le-pow k 2 (omega arith)), above)

-- A number is the exclusive or of its low part and its high part.
pub xor_parts : (k low high : ℕ) → low < 2 ^ k → bit_xor low (high * 2 ^ k) ≡ low + high * 2 ^ k
xor_parts zero low high h =
    let e : low ≡ 0 = omega (arith, pow-zero 2) in rw e (zero-xor (high * 2 ^ zero) ∙ omega arith)
xor_parts (suc k) low high h = grind (
  arith,
  xor_step low (high * 2 ^ suc k),
  double,
  pow-succ' 2 k,
  xor_parts k (low / 2) high (omega (arith, pow-succ' 2 k)),
)
  where
    double : high * 2 ^ suc k ≡ 2 * (high * 2 ^ k)
    double = omega (arith, ap (λ (t : ℕ). high * t) (pow-succ' 2 k))

-- Likewise for or, of a multiple of a power of two and a number below it.
or_step : (a b : ℕ) → bit_or a b ≡ bit_or (a / 2) (b / 2) * 2 + max (a % 2) (b % 2)
or_step zero b = omega (arith, bit_or-bitwise 0 b, bit_or-bitwise 0 (b / 2))
or_step (suc a) b =
    omega
      (arith, half_fuel max a (b / 2), bit_or-bitwise (suc a) b, bit_or-bitwise (suc a / 2) (b / 2))

or-zero_below : (n a : ℕ) → a ≤ n → bit_or a 0 ≡ a
or-zero_below zero zero p = refl
or-zero_below zero (suc a) p = absurd (omega arith)
or-zero_below (suc n) a p = omega (arith, or_step a 0, or-zero_below n (a / 2) (omega arith))

pub or_parts : (k high low : ℕ) → low < 2 ^ k → bit_or (high * 2 ^ k) low ≡ high * 2 ^ k + low
or_parts zero high low h =
    let e : low ≡ 0 = omega (arith, pow-zero 2) in
    rw e (or-zero_below _ (high * 2 ^ zero) (le_refl _) ∙ omega arith)
or_parts (suc k) high low h = grind (
  arith,
  or_step (high * 2 ^ suc k) low,
  double,
  pow-succ' 2 k,
  or_parts k high (low / 2) (omega (arith, pow-succ' 2 k)),
)
  where
    double : high * 2 ^ suc k ≡ 2 * (high * 2 ^ k)
    double = omega (arith, ap (λ (t : ℕ). high * t) (pow-succ' 2 k))
