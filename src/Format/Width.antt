-- ===== src/Format/Width.antt =====
-- How long the text of `number` of kernel/printk.c is.
use native.Mathlib.Nat.{pow-suc, div-lt_iff_lt-mul}
use mathlib.Core.Path.{subst}
use krven_os.Common.{
  ℕ, zero, suc, ◌+◌, ◌-◌, ◌*◌, ◌/◌, ◌%◌, ◌^◌, ◌<◌, ◌≤◌, ◌≡◌, refl, arith, Bool, false, Option, none,
  some, List, [], ◌∷◌, ltb, ◌==◌, ◌||◌, Bool-cases, inl, inr, max, length, length-append,
}
use krven_os.Format.{
  Flags, replicate, digit, digit_loop, number_digits, number_text, number, lay_out, sign_text,
  special_text, magnitude,
}

length-replicate : (n c : ℕ) → length (replicate n c) ≡ n
length-replicate zero c = refl
length-replicate (suc n) c = omega (arith, length-replicate n c)

length-lay_out :
    (f : Flags) (pad precision : ℕ) (sign special tmp : List ℕ)
    → length (lay_out f pad precision sign special tmp)
      ≡ length sign + length special + (precision - length tmp) + length tmp + pad
unfolding lay_out
length-lay_out f pad precision sign special tmp = grind (arith, length-append, length-replicate)

-- The digits of a number below `2 ^ k` in a base from 2 on are found within `k` rounds.
abbrev pub AtMost : ℕ → Option (List ℕ) → Type 0
AtMost k none = ⊥
AtMost k (some t) = length t ≤ k

div-lt_pow : (num base k : ℕ) → 2 ≤ base → num < 2 ^ suc k → num / base < 2 ^ k
div-lt_pow num base k two h =
    let wide : num < 2 ^ k * base = grind (arith, pow-suc 2 k) in
    (div-lt_iff_lt-mul {k = base} (omega arith)).1 wide

digit_loop-AtMost :
    (n k : ℕ) (small : Bool) (num base : ℕ) (tail : List ℕ)
    → 2 ≤ base
    → k ≤ n
    → num < 2 ^ k
    → AtMost (k + length tail) (digit_loop n small num base tail)
unfolding digit_loop
digit_loop-AtMost zero (suc k) small num base tail two fuel h = absurd (omega arith)
digit_loop-AtMost zero zero small num base tail two fuel h =
    let none_left : num ≡ 0 = omega arith in rw none_left (omega arith)
digit_loop-AtMost (suc n) zero small num base tail two fuel h =
    let none_left : num ≡ 0 = omega arith in rw none_left (omega arith)
digit_loop-AtMost (suc n) (suc k) small num base tail two fuel h = elim (Bool-cases (num == 0)) [
  | inl done ↦ rw done (omega arith)
  | inr more ↦
      let next : AtMost (k + suc (length tail))
          (digit_loop n small (num / base) base (digit small (num % base) ∷ tail)) =
        digit_loop-AtMost n k small (num / base) base (digit small (num % base) ∷ tail) two
          (omega arith) (div-lt_pow num base k two h) in
      let e : k + suc (length tail) ≡ suc k + length tail = omega arith in
      rw more (
        subst
          (λ b. AtMost b (digit_loop n small (num / base) base (digit small (num % base) ∷ tail))) e
          next)
]

number_digits-AtMost :
    (small : Bool) (num base : ℕ)
    → 2 ≤ base
    → num < 2 ^ 32
    → AtMost 32 (number_digits small num base)
unfolding number_digits
number_digits-AtMost small num base two h = elim (Bool-cases (num == 0)) [
  | inl none_left ↦ rw none_left (omega arith)
  | inr some_left ↦ rw some_left (digit_loop-AtMost 36 32 small num base [] two (omega arith) h)
]

-- The field is filled, the digits are at least `precision`, and there are at most three characters besides.
abbrev pub Fills : (size precision : ℕ) → Option (List ℕ) → Type 0
Fills size precision none = ⊥
Fills size precision (some t) =
    (size ≤ length t) × (precision ≤ length t) × (length t ≤ max size (3 + max precision 32))

number_text-Fills :
    (f : Flags) (num base size precision : ℕ) (r : Option (List ℕ))
    → AtMost 32 r
    → Fills size precision (number_text f num base size precision r)
unfolding number_text
number_text-Fills f num base size precision none short = short
number_text-Fills f num base size precision (some tmp) short =
    let p : ℕ = max precision (length tmp) in
    let pad : ℕ = size - length (sign_text f num) - length (special_text f base) - p in
    let signs : length (sign_text f num) ≤ 1 = ground arith in
    let specials : length (special_text f base) ≤ 2 = ground arith in
    omega (arith, length-lay_out f pad p (sign_text f num) (special_text f base) tmp)

-- In every base from 2 to 36, `number` prints every 32-bit number with every flag: the text fills the
-- field, has at least as many characters as the precision, and is no longer than the field or than 35
-- characters or the precision and three.
pub number-Fills :
    (f : Flags) (num base size precision : ℕ)
    → 2 ≤ base
    → base ≤ 36
    → num < 2 ^ 32
    → Fills size precision (number num base size precision f)
unfolding number
number-Fills f num base size precision two top h =
    let valid : (ltb base 2 || ltb 36 base) ≡ false = ground arith in
    let small : magnitude f num < 2 ^ 32 = ground arith in
    rw valid (
      number_text-Fills f num base size precision (number_digits f.small (magnitude f num) base)
        (number_digits-AtMost f.small (magnitude f num) base two small))
