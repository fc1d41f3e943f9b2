-- ===== src/Format/Template/Rounds.antt =====
-- The rounds of the loop of `vsprintf` of kernel/printk.c.
use krven_os.Common.{
  ℕ, zero, suc, ◌+◌, ◌-◌, ◌*◌, ◌<◌, ◌≤◌, ◌≡◌, ◌∙◌, ap, sym, refl, arith, Option, none, some, List,
  [], ◌∷◌, ltb, ◌==◌, ◌^◌, Bool-cases, inl, inr, length,
}
use krven_os.Format.{Flags, no_flags}
use krven_os.Format.Template.{
  Arg, is_digit, skip_atoi, flag, parse_flags, Conversion, get_width, star_width, point,
  get_precision, star_precision, skip_qualifier, get_spec, finish, Printed, conversion, convert,
  prepend, width_given, precision_given, template_loop, vsprintf,
}

-- The digits leave a template that is no longer than it was.
abbrev DigitsWithin : ℕ → Option (ℕ × List ℕ) → Type 0
DigitsWithin n none = 0 < 1
DigitsWithin n (some (i, s)) = length s ≤ n

skip_atoi-DigitsWithin : (i : ℕ) (s : List ℕ) → DigitsWithin (length s) (skip_atoi i s)
unfolding skip_atoi
skip_atoi-DigitsWithin i [] = omega arith
skip_atoi-DigitsWithin i (c ∷ s) = elim (Bool-cases (is_digit c)) [
  | inl yes' ↦ rw yes' (elim (Bool-cases (ltb (i * 10 + c) (2 ^ 31))) [
    | inl fits ↦
        rw fits
          (weaken (skip_atoi (i * 10 + c - 48) s) (skip_atoi-DigitsWithin (i * 10 + c - 48) s))
    | inr over ↦ rw over (omega arith)
  ])
  | inr no' ↦ rw no' (omega arith)
]
  where
    weaken : (r : Option (ℕ × List ℕ)) → DigitsWithin (length s) r → DigitsWithin (suc (length s)) r
    weaken none w = w
    weaken (some (j, t)) w = omega arith

length-parse_flags : (f : Flags) (s : List ℕ) → length (parse_flags f s).1 ≤ length s
unfolding parse_flags
length-parse_flags f [] = omega arith
length-parse_flags f (c ∷ s) = by_flag (λ f'. length-parse_flags f' s) (flag c f)
  where
    by_flag :
        ((f' : Flags) → length (parse_flags f' s).1 ≤ length s)
        → (r : Option Flags)
        → length
            (elim r as (λ _. Flags × List ℕ) [ some f' ↦ parse_flags f' s | none ↦ (f, c ∷ s) ]).1
          ≤ suc (length s)
    by_flag rest (some f') = omega (arith, rest f')
    by_flag rest none = omega arith

-- The template that is left is no longer than it was.
abbrev Within : ℕ → Option Conversion → Type 0
Within n none = 0 < 1
Within n (some v) = length v.format ≤ n

width_given-Within :
    (n : ℕ) (f : Flags) (args : List Arg) (r : Option (ℕ × List ℕ))
    → DigitsWithin n r
    → Within n (width_given f args r)
unfolding width_given
width_given-Within n f args none w = w
width_given-Within n f args (some (i, s)) w = w

precision_given-Within :
    (n : ℕ) (v : Conversion) (r : Option (ℕ × List ℕ))
    → DigitsWithin n r
    → Within n (precision_given v r)
unfolding precision_given
precision_given-Within n v none w = w
precision_given-Within n v (some (i, s)) w = w

get_width-Within :
    (f : Flags) (s : List ℕ) (args : List Arg) → Within (length s) (get_width f s args)
unfolding get_width
get_width-Within f [] args = omega arith
get_width-Within f (c ∷ s) args = elim (Bool-cases (is_digit c)) [
  | inl yes' ↦ rw yes' (
      width_given-Within (suc (length s)) f args (skip_atoi 0 (c ∷ s))
        (skip_atoi-DigitsWithin 0 (c ∷ s)))
  | inr no' ↦ rw no' (elim (Bool-cases (c == 42)) [
    | inl star ↦ rw star (by_star (star_width f args))
    | inr other ↦ rw other (omega arith)
  ])
]
  where
    by_star :
        (r : Option (Flags × ℕ × List Arg))
        → Within (suc (length s)) (elim r [
          | none ↦ none
          | some (f', width, args') ↦ some (record {
            spec = record { flags = f'; field_width = some width; precision = none };
            format = c ∷ s;
            args = args';
          })
        ])
    by_star none = omega arith
    by_star (some (f', width, args')) = omega arith

point-Within : (v : Conversion) (s : List ℕ) → Within (length s) (point v s)
unfolding point
point-Within v [] = omega arith
point-Within v (c ∷ s) = elim (Bool-cases (is_digit c)) [
  | inl yes' ↦ rw yes' (
      precision_given-Within (suc (length s)) v (skip_atoi 0 (c ∷ s))
        (skip_atoi-DigitsWithin 0 (c ∷ s)))
  | inr no' ↦ rw no' (elim (Bool-cases (c == 42)) [
    | inl star ↦ rw star (by_star (star_precision v.args))
    | inr other ↦ rw other (omega arith)
  ])
]
  where
    by_star :
        (r : Option (ℕ × List Arg))
        → Within (suc (length s)) (elim r [
          | none ↦ none
          | some (p, args') ↦ some (record v {
            spec = record v.spec { precision = some p };
            format = c ∷ s;
            args = args';
          })
        ])
    by_star none = omega arith
    by_star (some (p, args')) = omega arith

get_precision-Within :
    (v : Conversion) (s : List ℕ)
    → length v.format ≤ length s
    → Within (length s) (get_precision v s)
unfolding get_precision
get_precision-Within v [] h = h
get_precision-Within v (c ∷ s) h = elim (Bool-cases (c == 46)) [
  | inl dot ↦ rw dot (weaken (point v s) (point-Within v s))
  | inr other ↦ rw other h
]
  where
    weaken : (r : Option Conversion) → Within (length s) r → Within (suc (length s)) r
    weaken none w = w
    weaken (some v') w = omega arith

get_spec-Within : (s : List ℕ) (args : List Arg) → Within (length s) (get_spec s args)
unfolding get_spec
get_spec-Within s args =
    by_width (parse_flags no_flags s).1
      (get_width (parse_flags no_flags s).0 (parse_flags no_flags s).1 args)
      (length-parse_flags no_flags s)
      (get_width-Within (parse_flags no_flags s).0 (parse_flags no_flags s).1 args)
  where
    by_precision : (n : ℕ) (r : Option Conversion) → n ≤ length s → Within n r → Within (length s) r
    by_precision n none h w = w
    by_precision n (some v) h w = omega arith

    by_width :
        (t : List ℕ) (r : Option Conversion)
        → length t ≤ length s
        → Within (length t) r
        → Within (length s) (elim r [ none ↦ none | some v ↦ get_precision v v.format ])
    by_width t none h w = w
    by_width t (some v) h w =
        by_precision (length v.format) (get_precision v v.format) (omega arith)
          (get_precision-Within v v.format (omega arith))

length-skip_qualifier : (s : List ℕ) → length (skip_qualifier s) ≤ length s
unfolding skip_qualifier
length-skip_qualifier [] = omega arith
length-skip_qualifier (c ∷ s) = ground arith

abbrev pub PrintedWithin : ℕ → Option Printed → Type 0
PrintedWithin n none = 0 < 1
PrintedWithin n (some p) = length p.format ≤ n

finish-Within : (v : Conversion) (s : List ℕ) → PrintedWithin (length s) (finish v s)
unfolding finish
finish-Within v [] = omega arith
finish-Within v (c ∷ s) = by_text (convert c v.spec v.args)
  where
    by_text :
        (r : Option (List ℕ × List Arg))
        → PrintedWithin (suc (length s)) (elim r [
          | none ↦ none
          | some (t, args) ↦ some (record { text = t; format = s; args = args })
        ])
    by_text none = omega arith
    by_text (some (t, args)) = omega arith

pub conversion-Within :
    (s : List ℕ) (args : List Arg) → PrintedWithin (length s) (conversion s args)
unfolding conversion
conversion-Within s args = by_spec (get_spec s args) (get_spec-Within s args)
  where
    weaken :
        (n : ℕ) (r : Option Printed) → n ≤ length s → PrintedWithin n r → PrintedWithin (length s) r
    weaken n none h w = w
    weaken n (some p) h w = omega arith

    by_spec :
        (r : Option Conversion)
        → Within (length s) r
        → PrintedWithin
            (length s)
            (elim r [ none ↦ none | some v ↦ finish v (skip_qualifier v.format) ])
    by_spec none w = omega arith
    by_spec (some v) w =
        weaken (length (skip_qualifier v.format)) (finish v (skip_qualifier v.format))
          (omega (arith, length-skip_qualifier v.format))
          (finish-Within v (skip_qualifier v.format))

pub template_loop-nil : (n : ℕ) (args : List Arg) → template_loop n [] args ≡ some []
unfolding template_loop
template_loop-nil zero args = refl
template_loop-nil (suc n) args = refl

-- Two numbers of rounds that are not less than the length of the template give the same.
rounds_agree :
    (n m : ℕ) (format : List ℕ) (args : List Arg)
    → length format ≤ n
    → length format ≤ m
    → template_loop n format args ≡ template_loop m format args
unfolding template_loop
rounds_agree n m [] args h k = template_loop-nil n args ∙ sym (template_loop-nil m args)
rounds_agree zero m (c ∷ format) args h k = absurd (omega arith)
rounds_agree (suc n) zero (c ∷ format) args h k = absurd (omega arith)
rounds_agree (suc n) (suc m) (c ∷ format) args h k = elim (Bool-cases (c == 37)) [
  | inl percent ↦ rw percent (
      by_conversion (conversion format args) (conversion-Within format args)
        (λ s rest below. rounds_agree n m s rest (omega arith) (omega arith)))
  | inr literal ↦
      rw literal (ap (prepend (c ∷ [])) (rounds_agree n m format args (omega arith) (omega arith)))
]
  where
    by_conversion :
        (r : Option Printed)
        → PrintedWithin (length format) r
        → ((s : List ℕ) (left : List Arg)
            → length s ≤ length format
            → template_loop n s left ≡ template_loop m s left)
        → (elim r as (λ _. Option (List ℕ)) [
          | none ↦ none
          | some p ↦ prepend p.text (template_loop n p.format p.args)
        ])
          ≡ (elim r as (λ _. Option (List ℕ)) [
            | none ↦ none
            | some p ↦ prepend p.text (template_loop m p.format p.args)
          ])
    by_conversion none w rest = refl
    by_conversion (some p) w rest = ap (prepend p.text) (rest p.format p.args w)

-- More rounds than characters change nothing.
pub template_loop-enough :
    (n : ℕ) (format : List ℕ) (args : List Arg)
    → length format ≤ n
    → template_loop n format args ≡ vsprintf format args
unfolding vsprintf
template_loop-enough n format args h = rounds_agree n (length format) format args h (omega arith)
