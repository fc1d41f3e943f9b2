-- ===== src/Format/Template.antt =====
-- `vsprintf` of kernel/printk.c. The arguments are a list of values; `none` is an argument that is missing
-- or of another kind, or a number in the template that is no `int`. `%n`, which stores into memory, is `none` too.
pub mod Rounds
pub mod Ends
pub mod Prints
use krven_os.Common.{
  ℕ, zero, suc, ◌+◌, ◌-◌, ◌*◌, ◌%◌, ◌^◌, Bool, true, false, not, ◌&&◌, ◌||◌, Option, none, some,
  List, [], ◌∷◌, ◌++◌, ltb, leb, ◌==◌, if◌then◌else◌, length,
}
use krven_os.Format.{Flags, no_flags, number, replicate}

-- What `va_arg` gives: an `int` by its 32 bits, or a `char *` with the text that it points to.
pub data Arg : Type 0 where
  int : ℕ → Arg
  str : List ℕ → Arg

abbrev pub is_digit : ℕ → Bool
is_digit c = leb 48 c && leb c 57

-- The value of the digits at the front, after the value `i`, and what follows them. The value is an `int`:
-- `none` is one that overflows in `i * 10 + c`.
unfoldable pub skip_atoi : (i : ℕ) → List ℕ → Option (ℕ × List ℕ)
skip_atoi i [] = some (i, [])
skip_atoi i (c ∷ s) =
    let rest = skip_atoi (i * 10 + c - 48) s in
    let fits = if ltb (i * 10 + c) (2 ^ 31) then rest else none in
    if is_digit c then fits else some (i, c ∷ s)

-- One flag character.
abbrev flag : ℕ → Flags → Option Flags
flag c f =
    if c == 45
    then some (record f { left = true })
    else if c == 43
    then some (record f { plus = true })
    else if c == 32
    then some (record f { space = true })
    else if c == 35
    then some (record f { special = true })
    else if c == 48
    then some (record f { zeropad = true })
    else none

parse_flags : Flags → List ℕ → Flags × List ℕ
parse_flags f [] = (f, [])
parse_flags f (c ∷ s) = elim (flag c f) [ some f' ↦ parse_flags f' s | none ↦ (f, c ∷ s) ]

-- A width or a precision: not given, or a number. The flags change with a negative width.
pub record Spec : Type 0 where
  pub flags : Flags
  pub field_width : Option ℕ
  pub precision : Option ℕ

-- "*": the next argument. The character `*` itself is not passed over.
star_width : Flags → List Arg → Option (Flags × ℕ × List Arg)
star_width f (int n ∷ args) =
    if leb (2 ^ 31) n then some (record f { left = true }, 2 ^ 32 - n, args) else some (f, n, args)
star_width f (str s ∷ args) = none
star_width f [] = none

star_precision : List Arg → Option (ℕ × List Arg)
star_precision (int n ∷ args) = some (if leb (2 ^ 31) n then 0 else n, args)
star_precision (str s ∷ args) = none
star_precision [] = none

-- The state of one conversion: its specification, what is left of the template, and the arguments left.
pub record Conversion : Type 0 where
  pub spec : Spec
  pub format : List ℕ
  pub args : List Arg

-- A width and a precision of digits.
width_given : Flags → List Arg → Option (ℕ × List ℕ) → Option Conversion
width_given f args none = none
width_given f args (some (width, s)) = some (record {
  spec = record { flags = f; field_width = some width; precision = none };
  format = s;
  args = args;
})

precision_given : Conversion → Option (ℕ × List ℕ) → Option Conversion
precision_given v none = none
precision_given v (some (p, s)) =
    some (record v { spec = record v.spec { precision = some p }; format = s })

get_width : Flags → List ℕ → List Arg → Option Conversion
unfolding star_width width_given
get_width f [] args = some (record {
  spec = record { flags = f; field_width = none; precision = none };
  format = [];
  args = args;
})
get_width f (c ∷ s) args =
    if is_digit c
    then width_given f args (skip_atoi 0 (c ∷ s))
    else if c == 42
    then elim (star_width f args) [
      | none ↦ none
      | some (f', width, args') ↦ some (record {
        spec = record { flags = f'; field_width = some width; precision = none };
        format = c ∷ s;
        args = args';
      })
    ]
    else some (record {
      spec = record { flags = f; field_width = none; precision = none };
      format = c ∷ s;
      args = args;
    })

-- After the dot of a precision.
point : Conversion → List ℕ → Option Conversion
unfolding star_precision precision_given
point v [] = some (record v { spec = record v.spec { precision = some 0 }; format = [] })
point v (c ∷ s) =
    if is_digit c
    then precision_given v (skip_atoi 0 (c ∷ s))
    else if c == 42
    then elim (star_precision v.args) [
      | none ↦ none
      | some (p, args') ↦
          some
            (record v { spec = record v.spec { precision = some p }; format = c ∷ s; args = args' })
    ]
    else some (record v { spec = record v.spec { precision = some 0 }; format = c ∷ s })

get_precision : Conversion → List ℕ → Option Conversion
unfolding point
get_precision v [] = some v
get_precision v (c ∷ s) = if c == 46 then point v s else some v

-- The qualifiers `h`, `l` and `L` are passed over.
skip_qualifier : List ℕ → List ℕ
skip_qualifier [] = []
skip_qualifier (c ∷ s) = if (c == 104) || (c == 108) || (c == 76) then s else c ∷ s

abbrev value_or : (default : ℕ) → Option ℕ → ℕ
value_or default none = default
value_or default (some n) = n

-- `%c`
char_text : Spec → (c : ℕ) → List ℕ
char_text spec c =
    let pad = replicate (value_or 0 spec.field_width - 1) 32 in
    if spec.flags.left then c % 256 ∷ pad else pad ++ (c % 256 ∷ [])

abbrev take : ℕ → List ℕ → List ℕ
take zero s = []
take (suc n) [] = []
take (suc n) (c ∷ s) = c ∷ take n s

-- `%s`
str_text : Spec → List ℕ → List ℕ
str_text spec s =
    let shown = take (value_or (length s) spec.precision) s in
    let pad = replicate (value_or 0 spec.field_width - length shown) 32 in
    if spec.flags.left then shown ++ pad else pad ++ shown

-- A number in a base.
num_text : Spec → (num base : ℕ) → Option (List ℕ)
num_text spec num base =
    number num base (value_or 0 spec.field_width) (value_or 0 spec.precision) spec.flags

-- `%p` has a field of eight zeros unless a width is given.
pointer_spec : Spec → Spec
pointer_spec spec = elim spec.field_width [
  | none ↦ record spec { flags = record spec.flags { zeropad = true }; field_width = some 8 }
  | some w ↦ spec
]

-- The conversions that print a number: the base and the specification.
base_of : ℕ → Spec → Option (ℕ × Spec)
unfolding pointer_spec
base_of c spec =
    if c == 111
    then some (8, spec)
    else if c == 112
    then some (16, pointer_spec spec)
    else if c == 120
    then some (16, record spec { flags = record spec.flags { small = true } })
    else if c == 88
    then some (16, spec)
    else if (c == 100) || (c == 105)
    then some (10, record spec { flags = record spec.flags { sign = true } })
    else if c == 117
    then some (10, spec)
    else if c == 98
    then some (2, spec)
    else none

-- The text of one conversion character, and the arguments left.
print_num : Option (ℕ × Spec) → (c : ℕ) → List Arg → Option (List ℕ × List Arg)
unfolding num_text
print_num none c args =
    if c == 110 then none else some (if c == 37 then 37 ∷ [] else 37 ∷ c ∷ [], args)
print_num (some (base, spec)) c (int n ∷ args) = elim (num_text spec n base) [
  | none ↦ none
  | some t ↦ some (t, args)
]
print_num (some (base, spec)) c (str s ∷ args) = none
print_num (some (base, spec)) c [] = none

print_char : Spec → List Arg → Option (List ℕ × List Arg)
unfolding char_text
print_char spec (int n ∷ args) = some (char_text spec n, args)
print_char spec (str s ∷ args) = none
print_char spec [] = none

print_str : Spec → List Arg → Option (List ℕ × List Arg)
unfolding str_text
print_str spec (str s ∷ args) = some (str_text spec s, args)
print_str spec (int n ∷ args) = none
print_str spec [] = none

convert : (c : ℕ) → Spec → List Arg → Option (List ℕ × List Arg)
unfolding base_of print_num print_char print_str
convert c spec args =
    if c == 99
    then print_char spec args
    else if c == 115
    then print_str spec args
    else print_num (base_of c spec) c args

-- The flags, the width and the precision behind a `%`.
get_spec : List ℕ → List Arg → Option Conversion
unfolding parse_flags get_width get_precision
get_spec format args =
    let (f, s) = parse_flags no_flags format in
    elim (get_width f s args) [ none ↦ none | some v ↦ get_precision v v.format ]

-- Where the template goes on after a conversion.
pub record Printed : Type 0 where
  pub text : List ℕ
  pub format : List ℕ
  pub args : List Arg

-- At the end of the template the `%` is printed.
finish : Conversion → List ℕ → Option Printed
unfolding convert
finish v [] = some (record { text = 37 ∷ []; format = []; args = v.args })
finish v (c ∷ s) = elim (convert c v.spec v.args) [
  | none ↦ none
  | some (t, args) ↦ some (record { text = t; format = s; args = args })
]

-- What follows a `%`.
unfoldable pub conversion : List ℕ → List Arg → Option Printed
unfolding get_spec finish skip_qualifier
conversion format args = elim (get_spec format args) [
  | none ↦ none
  | some v ↦ finish v (skip_qualifier v.format)
]

abbrev pub prepend : List ℕ → Option (List ℕ) → Option (List ℕ)
prepend t none = none
prepend t (some rest) = some (t ++ rest)

-- The loop over the template. A round takes a character at least.
unfoldable pub template_loop : ℕ → (format : List ℕ) → List Arg → Option (List ℕ)
unfolding conversion
template_loop n [] args = some []
template_loop zero (c ∷ format) args = none
template_loop (suc n) (c ∷ format) args =
    let literal = prepend (c ∷ []) (template_loop n format args) in
    let converted : Option (List ℕ) = elim (conversion format args) [
      | none ↦ none
      | some p ↦ prepend p.text (template_loop n p.format p.args)
    ] in
    if c == 37 then converted else literal

unfoldable pub vsprintf : (format : List ℕ) → List Arg → Option (List ℕ)
unfolding template_loop
vsprintf format args = template_loop (length format) format args
