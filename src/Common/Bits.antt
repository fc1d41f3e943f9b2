-- ===== src/Common/Bits.antt =====
-- Laws of `&` and `|` at variables, and single bits.
use Prim.Native.Nat.{
  ℕ, zero, suc, ◌+◌, ◌*◌, ◌/◌, ◌%◌, ◌^◌, ◌≤◌, ◌<◌, min, max, bit_and, bit_or, digits,
  bit_and-bitwise, bit_or-bitwise,
}
use mathlib.Core.Path.{◌≡◌, refl, ap}
use mathlib.Core.Bool.{Bool, true, false, ◌||◌}
use native.Mathlib.Omega.{arith}
use native.Mathlib.Nat.{pow-suc}
use krven_os.Common.Tests.{◌==◌, if◌then◌else◌}

-- With enough digits to go, their number does not matter.
digits_fuel :
    (z : ℕ → ℕ) (f : ℕ → ℕ → ℕ) (n m a b : ℕ) → a ≤ n → a ≤ m → digits z f n a b ≡ digits z f m a b
digits_fuel z f zero zero a b p q = refl
digits_fuel z f zero (suc m) zero b p q = refl
digits_fuel z f zero (suc m) (suc a) b p q = absurd (omega arith)
digits_fuel z f (suc n) zero zero b p q = refl
digits_fuel z f (suc n) zero (suc a) b p q = absurd (omega arith)
digits_fuel z f (suc n) (suc m) zero b p q = refl
digits_fuel z f (suc n) (suc m) (suc a) b p q =
    ap (λ (t : ℕ). t * 2 + f (suc a % 2) (b % 2))
      (digits_fuel z f n m (suc a / 2) (b / 2) (omega arith) (omega arith))

zero-bit_and : (b : ℕ) → bit_and 0 b ≡ 0
zero-bit_and b = bit_and-bitwise 0 b

zero-bit_or : (b : ℕ) → bit_or 0 b ≡ b
zero-bit_or b = bit_or-bitwise 0 b

-- The lowest digit of each operation, and the others.
pub bit_and_step : (m n : ℕ) → bit_and m n ≡ min (m % 2) (n % 2) + 2 * bit_and (m / 2) (n / 2)
bit_and_step zero n =
    let whole : bit_and 0 n ≡ 0 = zero-bit_and n in
    let halves : bit_and 0 (n / 2) ≡ 0 = zero-bit_and (n / 2) in omega arith
bit_and_step (suc m) n =
    let whole = bit_and-bitwise (suc m) n in
    let halves = bit_and-bitwise (suc m / 2) (n / 2) in
    let fuel =
      digits_fuel (λ b. zero) min m (suc m / 2) (suc m / 2) (n / 2) (omega arith) (omega arith) in
    omega (arith, whole, halves, fuel)

pub bit_or_step : (m n : ℕ) → bit_or m n ≡ max (m % 2) (n % 2) + 2 * bit_or (m / 2) (n / 2)
bit_or_step zero n =
    let whole : bit_or 0 n ≡ n = zero-bit_or n in
    let halves : bit_or 0 (n / 2) ≡ n / 2 = zero-bit_or (n / 2) in omega arith
bit_or_step (suc m) n =
    let whole = bit_or-bitwise (suc m) n in
    let halves = bit_or-bitwise (suc m / 2) (n / 2) in
    let fuel =
      digits_fuel (λ b. b) max m (suc m / 2) (suc m / 2) (n / 2) (omega arith) (omega arith) in
    omega (arith, whole, halves, fuel)

bit_and-zero : (n a : ℕ) → a ≤ n → bit_and a 0 ≡ 0
bit_and-zero n zero h = refl
bit_and-zero zero (suc a) h = absurd (omega arith)
bit_and-zero (suc n) (suc a) h =
    omega (arith, bit_and_step (suc a) 0, bit_and-zero n (suc a / 2) (omega arith))

bit_or-zero : (n a : ℕ) → a ≤ n → bit_or a 0 ≡ a
bit_or-zero n zero h = refl
bit_or-zero zero (suc a) h = absurd (omega arith)
bit_or-zero (suc n) (suc a) h =
    omega (arith, bit_or_step (suc a) 0, bit_or-zero n (suc a / 2) (omega arith))

-- `|` of a number with its low `k` digits clear and of a number below `2 ^ k` is their sum.
pub bit_or-low : (k a x b : ℕ) → x ≡ a * 2 ^ k → b < 2 ^ k → bit_or x b ≡ x + b
bit_or-low zero a x b e h =
    let e' : b ≡ 0 = omega arith in rw e' (omega (arith, bit_or-zero x x (omega arith)))
bit_or-low (suc k) a x b e h =
    omega (arith, bit_or_step x b, bit_or-low k a (x / 2) (b / 2) (half e) (below h), half e, low e)
  where
    half : x ≡ a * 2 ^ suc k → x / 2 ≡ a * 2 ^ k
    half p = omega (arith, p, pow-suc 2 k, ap (λ (t : ℕ). a * t) (pow-suc 2 k))

    low : x ≡ a * 2 ^ suc k → x % 2 ≡ 0
    low p = omega (arith, p, pow-suc 2 k, ap (λ (t : ℕ). a * t) (pow-suc 2 k))

    below : b < 2 ^ suc k → b / 2 < 2 ^ k
    below p = omega (arith, pow-suc 2 k)

-- The same with the operands in the other order.
pub bit_or-high : (k a x b : ℕ) → x ≡ a * 2 ^ k → b < 2 ^ k → bit_or b x ≡ b + x
bit_or-high zero a x b e h = let e' : b ≡ 0 = omega arith in rw e' (omega (arith, zero-bit_or x))
bit_or-high (suc k) a x b e h =
    omega
      (arith, bit_or_step b x, bit_or-high k a (x / 2) (b / 2) (half e) (below h), half e, low e)
  where
    half : x ≡ a * 2 ^ suc k → x / 2 ≡ a * 2 ^ k
    half p = omega (arith, p, pow-suc 2 k, ap (λ (t : ℕ). a * t) (pow-suc 2 k))

    low : x ≡ a * 2 ^ suc k → x % 2 ≡ 0
    low p = omega (arith, p, pow-suc 2 k, ap (λ (t : ℕ). a * t) (pow-suc 2 k))

    below : b < 2 ^ suc k → b / 2 < 2 ^ k
    below p = omega (arith, pow-suc 2 k)

-- `& (2 ^ k - 1)` takes the low digits `r` of `q * 2 ^ k + r`.
pub bit_and-mask : (k q r x m : ℕ) → x ≡ q * 2 ^ k + r → r < 2 ^ k → m + 1 ≡ 2 ^ k → bit_and x m ≡ r
bit_and-mask zero q r x m e h p =
    let e' : m ≡ 0 = omega arith in rw e' (omega (arith, bit_and-zero x x (omega arith)))
bit_and-mask (suc k) q r x m e h p = omega (
  arith,
  bit_and_step x m,
  bit_and-mask k q (r / 2) (x / 2) (m / 2)
      (omega (arith, pow-suc 2 k, ap (λ (t : ℕ). q * t) (pow-suc 2 k))) (omega (arith, pow-suc 2 k))
      (omega (arith, pow-suc 2 k)),
  pow-suc 2 k,
  ap (λ (t : ℕ). q * t) (pow-suc 2 k),
)

-- `&` with a mask of the digits from `k` on.
pub bit_and-high :
    (k q r x m n : ℕ)
    → x ≡ q * 2 ^ k + r
    → r < 2 ^ k
    → m ≡ n * 2 ^ k
    → bit_and x m ≡ bit_and q n * 2 ^ k
bit_and-high zero q r x m n e h p =
    let e₁ : x ≡ q = omega arith in let e₂ : m ≡ n = omega arith in rw (e₁, e₂) (omega arith)
bit_and-high (suc k) q r x m n e h p = omega (
  arith,
  bit_and_step x m,
  bit_and-high k q (r / 2) (x / 2) (m / 2) n
      (omega (arith, pow-suc 2 k, ap (λ (t : ℕ). q * t) (pow-suc 2 k))) (omega (arith, pow-suc 2 k))
      (omega (arith, pow-suc 2 k, ap (λ (t : ℕ). n * t) (pow-suc 2 k))),
  pow-suc 2 k,
  ap (λ (t : ℕ). bit_and q n * t) (pow-suc 2 k),
  ap (λ (t : ℕ). n * t) (pow-suc 2 k),
)

-- C's `x & (1 << k)`, as a condition, and `x | (1 << k)`.
unfoldable pub has_bit : ℕ → ℕ → Bool
has_bit x k = if bit_and x (2 ^ k) == 0 then false else true

abbrev pub set_bit : ℕ → ℕ → ℕ
set_bit x k = bit_or x (2 ^ k)

pub zero-has_bit : (k : ℕ) → has_bit 0 k ≡ false
unfolding has_bit
zero-has_bit k = rw (zero-bit_and (2 ^ k)) refl

has_bit-zero : (x : ℕ) → has_bit x 0 ≡ (x % 2 == 1)
unfolding has_bit
has_bit-zero x = ground (arith, bit_and-mask 1 (x / 2) (x % 2) x 1)

has_bit-suc : (x k : ℕ) → has_bit x (suc k) ≡ has_bit (x / 2) k
unfolding has_bit
has_bit-suc x k = ground (arith, bit_and-high 1 (x / 2) (x % 2) x (2 ^ suc k) (2 ^ k), pow-suc 2 k)

half_pow : (k : ℕ) → 2 ^ suc k / 2 ≡ 2 ^ k
half_pow k = omega (arith, pow-suc 2 k)

set_bit_half : (x k : ℕ) → set_bit x (suc k) / 2 ≡ set_bit (x / 2) k
set_bit_half x k =
    omega (arith, bit_or_step x (2 ^ suc k), ap (bit_or (x / 2)) (half_pow k), pow-suc 2 k)

set_bit_low : (x k : ℕ) → set_bit x (suc k) % 2 ≡ x % 2
set_bit_low x k = omega (arith, bit_or_step x (2 ^ suc k), pow-suc 2 k)

set_bit-zero_half : (x : ℕ) → set_bit x 0 / 2 ≡ x / 2
set_bit-zero_half x = omega (arith, bit_or_step x 1, bit_or-zero (x / 2) (x / 2) (omega arith))

set_bit-zero_low : (x : ℕ) → set_bit x 0 % 2 ≡ 1
set_bit-zero_low x = omega (arith, bit_or_step x 1)

-- Setting a bit sets that bit and no other.
pub has_bit-set_bit : (k x j : ℕ) → has_bit (set_bit x k) j ≡ ((j == k) || has_bit x j)
has_bit-set_bit zero x zero = rw (has_bit-zero, set_bit-zero_low)
has_bit-set_bit zero x (suc j) =
    rw (has_bit-suc (set_bit x 0) j, set_bit-zero_half, has_bit-suc x j) (ground arith)
has_bit-set_bit (suc k) x zero =
    rw (has_bit-zero (set_bit x (suc k)), has_bit-zero x, set_bit_low) (ground arith)
has_bit-set_bit (suc k) x (suc j) =
    rw (has_bit-suc (set_bit x (suc k)) j, set_bit_half, has_bit-suc x j, has_bit-set_bit k)
      (ground arith)

-- A byte stays a byte.
pub set_bit-lt : (x k n : ℕ) → k < n → x < 2 ^ n → set_bit x k < 2 ^ n
set_bit-lt x k zero h p = absurd (omega arith)
set_bit-lt x zero (suc n) h p = omega (arith, pow-suc 2 n, set_bit-zero_half x, set_bit-zero_low x)
set_bit-lt x (suc k) (suc n) h p = omega (
  arith,
  set_bit-lt (x / 2) k n (omega arith) (omega (arith, pow-suc 2 n)),
  pow-suc 2 n,
  set_bit_half x k,
)

-- `& 0xFFFFF000` on a 32-bit value clears the offset in a page.
pub page_mask : (x : ℕ) → x < 2 ^ 32 → bit_and x 0xFFFFF000 ≡ x / 4096 * 4096
page_mask x h = omega (
  arith,
  bit_and-high 12 (x / 4096) (x % 4096) x 0xFFFFF000 0xFFFFF (omega arith) (omega arith) refl,
  bit_and-mask 20 0 (x / 4096) (x / 4096) 0xFFFFF (omega arith) (omega arith) refl,
)
