-- ===== src/Format/Digits.antt =====
-- The digits that `number` of kernel/printk.c makes, read by `cstr_to_uint32` and `cstr_to_int32` of
-- libs/number.c.
use native.Mathlib.Nat.{pow-suc}
use krven_os.Common.{
  ℕ, zero, suc, ◌+◌, ◌/◌, ◌%◌, ◌^◌, ◌<◌, ◌≡◌, ◌≢◌, ◌∙◌, ap, refl, arith, Bool, true, false, Option,
  none, some, List, [], ◌∷◌, ◌++◌, ltb, ◌==◌, Bool-cases, inl, inr,
}
use krven_os.Format.{
  uint_loop, cstr_to_int32, add_digit, digit, replicate, digit_loop, number_digits,
}

-- The text does not begin with a minus.
abbrev pub NoMinus : List ℕ → Type 0
NoMinus [] = 0 < 1
NoMinus (c ∷ t) = c ≢ 45

-- The digits of `num` in front of `tail`, as they are read in.
abbrev pub Reads : (num : ℕ) → List ℕ → Option (List ℕ) → Type 0
Reads num tail none = ⊥
Reads num tail (some t) = (uint_loop 0 t ≡ uint_loop num tail) × (NoMinus tail → NoMinus t)

add_digit-digit :
    (small : Bool) (num : ℕ) → num < 2 ^ 32 → add_digit (num / 10) (digit small (num % 10)) ≡ num
add_digit-digit small num h =
    let one : ltb (num % 10) 10 ≡ true = ground arith in
    let low : ltb (48 + num % 10) 128 ≡ true = ground arith in rw (one, low) (omega arith)

digit-NoMinus : (small : Bool) (d : ℕ) → d < 10 → digit small d ≢ 45
digit-NoMinus small d h = ground arith

Reads-step :
    (small : Bool) (num : ℕ) (tail : List ℕ) (r : Option (List ℕ))
    → num < 2 ^ 32
    → Reads (num / 10) (digit small (num % 10) ∷ tail) r
    → Reads num tail r
unfolding uint_loop
Reads-step small num tail none h read = read
Reads-step small num tail (some t) h (value, start) =
    let e = add_digit-digit small num h in
    (
      value ∙ ap (λ n. uint_loop n tail) e,
      λ _. start (digit-NoMinus small (num % 10) (omega arith)),
    )

pub digit_loop-Reads :
    (n : ℕ) (small : Bool) (num : ℕ) (tail : List ℕ)
    → num < 2 ^ n
    → num < 2 ^ 32
    → Reads num tail (digit_loop n small num 10 tail)
unfolding digit_loop
digit_loop-Reads zero small num tail fuel h = elim (Bool-cases (num == 0)) [
  | inl done ↦ let e : num ≡ 0 = ground arith in rw (done, e) (refl, λ start. start)
  | inr more ↦ let ne : num ≢ 0 = ground arith in absurd (omega arith)
]
digit_loop-Reads (suc n) small num tail fuel h = elim (Bool-cases (num == 0)) [
  | inl done ↦ let e : num ≡ 0 = ground arith in rw (done, e) (refl, λ start. start)
  | inr more ↦ rw more (
      Reads-step small num tail (digit_loop n small (num / 10) 10 (digit small (num % 10) ∷ tail)) h
        (digit_loop-Reads n small (num / 10) (digit small (num % 10) ∷ tail)
          (omega (arith, pow-suc 2 n)) (omega arith)))
]

pub number_digits-Reads :
    (small : Bool) (num : ℕ) → num < 2 ^ 32 → Reads num [] (number_digits small num 10)
unfolding number_digits uint_loop
number_digits-Reads small num h = elim (Bool-cases (num == 0)) [
  | inl none_left ↦ let e : num ≡ 0 = ground arith in rw (none_left, e) (refl, λ _. omega arith)
  | inr some_left ↦ rw some_left (digit_loop-Reads 36 small num [] (omega arith) h)
]

-- Zeros in front change neither the number that is read nor the first character's not being a minus.
pub uint_loop-zeros : (k : ℕ) (t : List ℕ) → uint_loop 0 (replicate k 48 ++ t) ≡ uint_loop 0 t
unfolding uint_loop
uint_loop-zeros zero t = refl
uint_loop-zeros (suc k) t = uint_loop-zeros k t

pub NoMinus-zeros : (k : ℕ) (t : List ℕ) → NoMinus t → NoMinus (replicate k 48 ++ t)
NoMinus-zeros zero t h = h
NoMinus-zeros (suc k) t h = omega arith

pub cstr_to_int32-NoMinus : (t : List ℕ) → NoMinus t → cstr_to_int32 t ≡ uint_loop 0 t
unfolding cstr_to_int32 uint_loop
cstr_to_int32-NoMinus [] h = refl
cstr_to_int32-NoMinus (c ∷ t) h = let e : (c == 45) ≡ false = ground arith in rw e refl
