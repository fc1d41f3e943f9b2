-- ===== src/Format/Print.antt =====
-- `number` of kernel/printk.c against the functions of libs/number.c, and the length of what it prints.
use krven_os.Common.{
  ℕ, ◌-◌, ◌^◌, ◌<◌, ◌≤◌, ◌≡◌, ◌∙◌, refl, arith, true, false, Option, none, some, List, [], ◌∷◌,
  ◌++◌, leb, Bool-cases, inl, inr, max, length,
}
use krven_os.Format.{
  Flags, no_flags, uint_loop, cstr_to_uint32, cstr_to_int32, replicate, number_digits, number_text,
  number, lay_out,
}
use krven_os.Format.Digits.{
  Reads, number_digits-Reads, uint_loop-zeros, NoMinus-zeros, cstr_to_int32-NoMinus,
}

-- `%0*.*u` and `%0*.*d`
abbrev pub padded : Flags
padded = record no_flags { zeropad = true }

abbrev pub padded_int : Flags
padded_int = record no_flags { zeropad = true; sign = true }

uint_loop-nil : (n : ℕ) → uint_loop n [] ≡ n
unfolding uint_loop
uint_loop-nil n = refl

unsigned_text :
    (num size precision : ℕ) (r : Option (List ℕ))
    → Reads num [] r
    → (t : List ℕ) × (number_text padded num 10 size precision r ≡ some t) × (uint_loop 0 t ≡ num)
unfolding number_text lay_out
unsigned_text num size precision none read = absurd read
unsigned_text num size precision (some tmp) (value, start) =
    let p : ℕ = max precision (length tmp) in
    (
      replicate (size - 0 - 0 - p) 48 ++ (replicate (p - length tmp) 48 ++ tmp),
      refl,
      uint_loop-zeros (size - 0 - 0 - p) (replicate (p - length tmp) 48 ++ tmp)
          ∙ uint_loop-zeros (p - length tmp) tmp
          ∙ value
          ∙ uint_loop-nil num,
    )

-- Every 32-bit number that is printed in decimal, with any number of zeros in front, is read back by
-- `cstr_to_uint32`.
pub cstr_to_uint32-number :
    (num size precision : ℕ)
    → num < 2 ^ 32
    → (t : List ℕ) × (number num 10 size precision padded ≡ some t) × (cstr_to_uint32 t ≡ num)
unfolding number cstr_to_uint32
cstr_to_uint32-number num size precision h =
    unsigned_text num size precision (number_digits false num 10) (number_digits-Reads false num h)

-- A negative number: the minus, the zeros and the digits of its magnitude.
negative_text :
    (num size precision : ℕ) (r : Option (List ℕ))
    → 2 ^ 31 ≤ num
    → num < 2 ^ 32
    → Reads (2 ^ 32 - num) [] r
    → (t : List ℕ) × (number_text padded_int num 10 size precision r ≡ some t)
      × (cstr_to_int32 t ≡ num)
unfolding number_text lay_out cstr_to_int32
negative_text num size precision none low h read = absurd read
negative_text num size precision (some tmp) low h (value, start) =
    let p : ℕ = max precision (length tmp) in
    let negative : leb (2 ^ 31) num ≡ true = ground arith in
    let read : uint_loop 0
          (replicate (size - 1 - 0 - p) 48 ++ (replicate (p - length tmp) 48 ++ tmp))
        ≡ 2 ^ 32 - num =
      uint_loop-zeros (size - 1 - 0 - p) (replicate (p - length tmp) 48 ++ tmp)
      ∙ uint_loop-zeros (p - length tmp) tmp
      ∙ value
      ∙ uint_loop-nil (2 ^ 32 - num) in
    (
      45 ∷ (replicate (size - 1 - 0 - p) 48 ++ (replicate (p - length tmp) 48 ++ tmp)),
      rw negative refl,
      rw read (omega arith),
    )

positive_text :
    (num size precision : ℕ) (r : Option (List ℕ))
    → num < 2 ^ 31
    → Reads num [] r
    → (t : List ℕ) × (number_text padded_int num 10 size precision r ≡ some t)
      × (cstr_to_int32 t ≡ num)
unfolding number_text lay_out
positive_text num size precision none high read = absurd read
positive_text num size precision (some tmp) high (value, start) =
    let p : ℕ = max precision (length tmp) in
    let positive : leb (2 ^ 31) num ≡ false = ground arith in
    let t : List ℕ = replicate (size - 0 - 0 - p) 48 ++ (replicate (p - length tmp) 48 ++ tmp) in
    (
      t,
      rw positive refl,
      cstr_to_int32-NoMinus t (
            NoMinus-zeros (size - 0 - 0 - p) (replicate (p - length tmp) 48 ++ tmp)
              (NoMinus-zeros (p - length tmp) tmp (start (omega arith))))
          ∙ uint_loop-zeros (size - 0 - 0 - p) (replicate (p - length tmp) 48 ++ tmp)
          ∙ uint_loop-zeros (p - length tmp) tmp
          ∙ value
          ∙ uint_loop-nil num,
    )

-- Every `int32_t`, given by its 32 bits, that is printed in decimal with its sign and any number of zeros
-- is read back by `cstr_to_int32`.
pub cstr_to_int32-number :
    (num size precision : ℕ)
    → num < 2 ^ 32
    → (t : List ℕ) × (number num 10 size precision padded_int ≡ some t) × (cstr_to_int32 t ≡ num)
unfolding number
cstr_to_int32-number num size precision h = elim (Bool-cases (leb (2 ^ 31) num)) [
  | inl negative ↦
      let low : 2 ^ 31 ≤ num = ground arith in
      rw negative (
        negative_text num size precision (number_digits false (2 ^ 32 - num) 10) low h
          (number_digits-Reads false (2 ^ 32 - num) (omega arith)))
  | inr positive ↦
      let high : num < 2 ^ 31 = ground arith in
      rw positive (
        positive_text num size precision (number_digits false num 10) high
          (number_digits-Reads false num h))
]
