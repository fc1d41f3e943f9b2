-- ===== src/Format.antt =====
-- Numbers as text: `number`, `skip_atoi` and `vsprintf` of kernel/printk.c, and libs/number.c. Text is a
-- list of bytes without the closing zero. The sizes that C keeps as `int` are naturals here: a negative
-- width or precision acts as 0 in `number`. `none` is a write or a read outside an array.
pub mod Digits
pub mod Print
pub mod Width
pub mod Template
mod Tests
use krven_os.Common.{
  ℕ, zero, suc, ◌+◌, ◌-◌, ◌*◌, ◌/◌, ◌%◌, ◌^◌, max, Bool, true, false, not, ◌&&◌, ◌||◌, Option, none,
  some, List, [], ◌∷◌, ◌++◌, ltb, leb, ◌==◌, if◌then◌else◌, length,
}

-- `cstr_to_uint32`: a `char` counts from -128 to 127 in 32-bit arithmetic.
abbrev pub char_value : ℕ → ℕ
char_value c = if ltb c 128 then c else c + 2 ^ 32 - 256

abbrev pub add_digit : (ret c : ℕ) → ℕ
add_digit ret c = (ret * 10 + (char_value c + 2 ^ 32 - 48)) % 2 ^ 32

unfoldable pub uint_loop : (ret : ℕ) → List ℕ → ℕ
uint_loop ret [] = ret
uint_loop ret (c ∷ cstr) = uint_loop (add_digit ret c) cstr

unfoldable pub cstr_to_uint32 : List ℕ → ℕ
unfolding uint_loop
cstr_to_uint32 cstr = uint_loop 0 cstr

-- `cstr_to_int32`, with the `int32_t` as its 32 bits.
unfoldable pub cstr_to_int32 : List ℕ → ℕ
unfolding uint_loop
cstr_to_int32 [] = 0
cstr_to_int32 (c ∷ cstr) =
    if c == 45 then (2 ^ 32 - uint_loop 0 cstr) % 2 ^ 32 else uint_loop 0 (c ∷ cstr)

-- The flags of `number`.
pub record Flags : Type 0 where
  pub zeropad : Bool
  pub sign : Bool
  pub plus : Bool
  pub space : Bool
  pub left : Bool
  pub special : Bool
  pub small : Bool

abbrev pub no_flags : Flags
no_flags = record {
  zeropad = false;
  sign = false;
  plus = false;
  space = false;
  left = false;
  special = false;
  small = false;
}

-- `digits[d]`
abbrev pub digit : (small : Bool) (d : ℕ) → ℕ
digit small d = if ltb d 10 then 48 + d else if small then 87 + d else 55 + d

abbrev pub replicate : ℕ → ℕ → List ℕ
replicate zero c = []
replicate (suc n) c = c ∷ replicate n c

-- The loop over the digits of `num`, which fills `tmp` from the lowest digit on; here the text with the
-- highest digit first, in front of `tail`. The `n` rounds left are the places of `tmp` left.
unfoldable pub digit_loop : (n : ℕ) (small : Bool) (num base : ℕ) → List ℕ → Option (List ℕ)
digit_loop zero small num base tail = if num == 0 then some tail else none
digit_loop (suc n) small num base tail =
    let rest = digit_loop n small (num / base) base (digit small (num % base) ∷ tail) in
    if num == 0 then some tail else rest

unfoldable pub number_digits : (small : Bool) (num base : ℕ) → Option (List ℕ)
number_digits small num base = if num == 0 then some (48 ∷ []) else digit_loop 36 small num base []

-- The sign character, if any, and the number without its sign, for a number given by its 32 bits.
abbrev pub sign_text : Flags → (num : ℕ) → List ℕ
sign_text f num =
    if f.sign && leb (2 ^ 31) num
    then 45 ∷ []
    else if f.plus
    then 43 ∷ []
    else if f.space
    then 32 ∷ []
    else []

abbrev pub magnitude : Flags → (num : ℕ) → ℕ
magnitude f num = if f.sign && leb (2 ^ 31) num then 2 ^ 32 - num else num

abbrev pub special_text : Flags → (base : ℕ) → List ℕ
special_text f base =
    if f.special
    then if base == 8 then 48 ∷ [] else if base == 16 then 48 ∷ digit f.small 33 ∷ [] else []
    else []

-- The text from its parts: `pad` is what `size` is at the first loop that pads.
unfoldable pub lay_out : Flags → (pad precision : ℕ) (sign special tmp : List ℕ) → List ℕ
lay_out f pad precision sign special tmp =
    let zeros = replicate (precision - length tmp) 48 in
    if f.left
    then sign ++ (special ++ (zeros ++ (tmp ++ replicate pad 32)))
    else if f.zeropad
    then sign ++ (special ++ (replicate pad 48 ++ (zeros ++ tmp)))
    else replicate pad 32 ++ (sign ++ (special ++ (zeros ++ tmp)))

-- After the digits are known.
unfoldable pub number_text :
    Flags → (num base size precision : ℕ) → Option (List ℕ) → Option (List ℕ)
unfolding lay_out
number_text f num base size precision none = none
number_text f num base size precision (some tmp) =
    let precision' = max precision (length tmp) in
    let pad = size - length (sign_text f num) - length (special_text f base) - precision' in
    some (lay_out f pad precision' (sign_text f num) (special_text f base) tmp)

-- `number`, with the flags as its `type`. A base outside 2 to 36 gives the null pointer.
unfoldable pub number : (num base size precision : ℕ) → Flags → Option (List ℕ)
unfolding number_digits number_text
number num base size precision f =
    if ltb base 2 || ltb 36 base
    then none
    else number_text f num base size precision (number_digits f.small (magnitude f num) base)
