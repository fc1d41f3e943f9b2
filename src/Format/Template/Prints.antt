-- ===== src/Format/Template/Prints.antt =====
-- What `vsprintf` of kernel/printk.c prints.
use mathlib.Core.List.{append-nil, append_assoc}
use krven_os.Common.{
  ℕ, ◌-◌, ◌%◌, ◌^◌, ◌<◌, ◌≤◌, ◌≡◌, ◌≢◌, ◌∙◌, ap, sym, refl, arith, true, false, Option, none, some,
  List, [], ◌∷◌, ◌++◌, leb, ◌==◌, Bool-cases, inl, inr, max, length,
}
use krven_os.Format.{
  Flags, no_flags, number, cstr_to_int32, number_text, number_digits, lay_out, magnitude, sign_text,
}
use krven_os.Format.Print.{padded_int, cstr_to_int32-number}
use krven_os.Format.Template.{
  Arg, int, parse_flags, Conversion, get_width, star_width, get_precision, skip_qualifier, get_spec,
  finish, Printed, conversion, convert, print_char, char_text, base_of, print_num, num_text,
  prepend, template_loop, vsprintf, print_str, str_text, str, take,
}
use krven_os.Format.Template.Rounds.{template_loop-enough, template_loop-nil}

-- No character of the text is a `%`.
abbrev pub Plain : List ℕ → Type 0
Plain [] = 0 < 1
Plain (c ∷ t) = (c ≢ 37) × Plain t

vsprintf-literal :
    (c : ℕ) (format : List ℕ) (args : List Arg)
    → c ≢ 37
    → vsprintf (c ∷ format) args ≡ prepend (c ∷ []) (vsprintf format args)
unfolding vsprintf template_loop
vsprintf-literal c format args plain = let e : (c == 37) ≡ false = ground arith in rw e refl

prepend-prepend :
    (s t : List ℕ) (r : Option (List ℕ)) → prepend s (prepend t r) ≡ prepend (s ++ t) r
prepend-prepend s t none = refl
prepend-prepend s t (some u) = ap some (sym (append_assoc s t u))

prepend-nil : (r : Option (List ℕ)) → r ≡ prepend [] r
prepend-nil none = refl
prepend-nil (some u) = refl

-- Text without `%` in front of a template is printed as it is.
pub vsprintf-Plain :
    (t format : List ℕ) (args : List Arg)
    → Plain t
    → vsprintf (t ++ format) args ≡ prepend t (vsprintf format args)
vsprintf-Plain [] format args plain = prepend-nil (vsprintf format args)
vsprintf-Plain (c ∷ t) format args (first, plain) =
    vsprintf-literal c (t ++ format) args first
    ∙ ap (prepend (c ∷ [])) (vsprintf-Plain t format args plain)
    ∙ prepend-prepend (c ∷ []) t (vsprintf format args)

vsprintf-percent :
    (format : List ℕ) (args : List Arg) (p : Printed)
    → conversion format args ≡ some p
    → length p.format ≤ length format
    → vsprintf (37 ∷ format) args ≡ prepend p.text (vsprintf p.format p.args)
unfolding vsprintf template_loop
vsprintf-percent format args p h below =
    rw h (ap (prepend p.text) (template_loop-enough (length format) p.format p.args below))

-- `%d` without a width.
number_text-unpadded :
    (num : ℕ) (r : Option (List ℕ))
    → number_text (record no_flags { sign = true }) num 10 0 0 r
      ≡ number_text padded_int num 10 0 0 r
unfolding number_text lay_out
number_text-unpadded num none = refl
number_text-unpadded num (some tmp) =
    let none_left : 0 - length (sign_text padded_int num) - 0 - max 0 (length tmp) ≡ 0 =
      omega arith in
    rw none_left refl

number-unpadded :
    (num : ℕ) → number num 10 0 0 (record no_flags { sign = true }) ≡ number num 10 0 0 padded_int
unfolding number
number-unpadded num = number_text-unpadded num (number_digits false (magnitude padded_int num) 10)

conversion-int :
    (num : ℕ) (t format : List ℕ) (args : List Arg)
    → number num 10 0 0 (record no_flags { sign = true }) ≡ some t
    → conversion (100 ∷ format) (int num ∷ args)
      ≡ some (record { text = t; format = format; args = args })
unfolding conversion get_spec parse_flags get_width get_precision skip_qualifier finish convert
    base_of print_num num_text
conversion-int num t format args h = ap (shown format args) h
  where
    shown : List ℕ → List Arg → Option (List ℕ) → Option Printed
    shown format args r =
        let converted : Option (List ℕ × List Arg) = elim r [
          | none ↦ none
          | some t ↦ some (t, args)
        ] in
        elim converted [
          | none ↦ none
          | some (t, left) ↦ some (record { text = t; format = format; args = left })
        ]

star_width-int :
    (width : ℕ) (args : List Arg)
    → (f : Flags) × (w : ℕ) × (star_width no_flags (int width ∷ args) ≡ some (f, w, args))
unfolding star_width
star_width-int width args = elim (Bool-cases (leb (2 ^ 31) width)) [
  | inl left ↦ (record no_flags { left = true }, 2 ^ 32 - width, rw left refl)
  | inr right ↦ (no_flags, width, rw right refl)
]

conversion-star :
    (width : ℕ) (format : List ℕ) (args : List Arg)
    → conversion (42 ∷ format) (int width ∷ args)
      ≡ some (record { text = 37 ∷ 42 ∷ []; format = format; args = args })
unfolding conversion get_spec parse_flags get_width get_precision skip_qualifier finish convert
    base_of print_num
conversion-star width format args =
    let (f, w, star) = star_width-int width args in ap (shown format) star
  where
    shown : List ℕ → Option (Flags × ℕ × List Arg) → Option Printed
    shown format r =
        let v : Option Conversion = elim r [
          | none ↦ none
          | some (f, w, left) ↦ some (record {
            spec = record { flags = f; field_width = some w; precision = none };
            format = 42 ∷ format;
            args = left;
          })
        ] in
        let spec : Option Conversion = elim v [ none ↦ none | some v ↦ get_precision v v.format ] in
        elim spec [ none ↦ none | some v ↦ finish v (skip_qualifier v.format) ]

-- A `%d` between text without `%` and any template prints the text, then decimal text from which
-- `cstr_to_int32` reads the `int` back, and then the rest of the template with the arguments that are left.
pub vsprintf-int :
    (literal format : List ℕ) (num : ℕ) (args : List Arg)
    → Plain literal
    → num < 2 ^ 32
    → (t : List ℕ) × (vsprintf (literal ++ (37 ∷ 100 ∷ format)) (int num ∷ args)
        ≡ prepend literal (prepend t (vsprintf format args)))
      × (cstr_to_int32 t ≡ num)
vsprintf-int literal format num args plain h =
    let (t, printed, read) = cstr_to_int32-number num 0 0 h in
    (
      t,
      vsprintf-Plain literal (37 ∷ 100 ∷ format) (int num ∷ args) plain
          ∙ ap (prepend literal) (
              vsprintf-percent (100 ∷ format) (int num ∷ args)
                (record { text = t; format = format; args = args })
                (conversion-int num t format args (number-unpadded num ∙ printed)) (omega arith)),
      read,
    )

-- A `*` that asks for a width takes its argument and is then taken for an unknown conversion: whatever the
-- width is and whatever follows, `%*` is printed in its place.
pub vsprintf-star :
    (literal format : List ℕ) (width : ℕ) (args : List Arg)
    → Plain literal
    → vsprintf (literal ++ (37 ∷ 42 ∷ format)) (int width ∷ args)
      ≡ prepend literal (prepend (37 ∷ 42 ∷ []) (vsprintf format args))
vsprintf-star literal format width args plain =
    vsprintf-Plain literal (37 ∷ 42 ∷ format) (int width ∷ args) plain
    ∙ ap (prepend literal) (
        vsprintf-percent (42 ∷ format) (int width ∷ args)
          (record { text = 37 ∷ 42 ∷ []; format = format; args = args })
          (conversion-star width format args) (omega arith))

-- `%c` alone prints the low byte.
pub vsprintf-char :
    (c : ℕ) (args : List Arg) → vsprintf (37 ∷ 99 ∷ []) (int c ∷ args) ≡ some (c % 256 ∷ [])
unfolding conversion get_spec parse_flags get_width get_precision skip_qualifier finish convert
    print_char char_text vsprintf template_loop
vsprintf-char c args = refl

vsprintf-nil : (args : List Arg) → vsprintf [] args ≡ some []
unfolding vsprintf
vsprintf-nil args = template_loop-nil 0 args

-- A template without `%` prints itself.
pub vsprintf-text : (t : List ℕ) (args : List Arg) → Plain t → vsprintf t args ≡ some t
vsprintf-text [] args plain = vsprintf-nil args
vsprintf-text (c ∷ t) args (first, plain) =
    vsprintf-literal c t args first ∙ ap (prepend (c ∷ [])) (vsprintf-text t args plain)

take-length : (s : List ℕ) → take (length s) s ≡ s
take-length [] = refl
take-length (c ∷ s) = ap (λ t. c ∷ t) (take-length s)

-- `%s` alone prints the text.
pub vsprintf-str : (s : List ℕ) → vsprintf (37 ∷ 115 ∷ []) (str s ∷ []) ≡ some s
unfolding conversion get_spec parse_flags get_width get_precision skip_qualifier finish convert
    print_str str_text vsprintf template_loop
vsprintf-str s =
    let no_pad : 0 - length (take (length s) s) ≡ 0 = omega arith in
    rw no_pad (ap some (append-nil (take (length s) s) ∙ take-length s))
