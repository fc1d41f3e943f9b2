-- ===== src/Format/Template/Ends.antt =====
-- The loop of `vsprintf` of kernel/printk.c ends.
use mathlib.Core.Path.{subst}
use krven_os.Common.{
  ℕ, zero, suc, ◌≤◌, ◌≡◌, sym, arith, refl, true, false, Option, none, some, List, [], ◌∷◌, ◌==◌,
  Bool-cases, inl, inr, length,
}
use krven_os.Format.Template.{Arg, Printed, conversion, prepend, template_loop, vsprintf}
use krven_os.Format.Template.Rounds.{
  PrintedWithin, conversion-Within, template_loop-nil, template_loop-enough,
}

-- A run of the loop to its end, round by round: a character that is no `%` is copied, a conversion is made and
-- the loop goes on behind it, or the conversion faults.
pub data Ends : (format : List ℕ) → List Arg → Option (List ℕ) → Type 0 where
  at_end : (args : List Arg) → Ends [] args (some [])
  copied :
      (c : ℕ) (format : List ℕ) (args : List Arg) (r : Option (List ℕ))
      → (c == 37) ≡ false
      → Ends format args r
      → Ends (c ∷ format) args (prepend (c ∷ []) r)
  converted :
      (c : ℕ) (format : List ℕ) (args : List Arg) (p : Printed) (r : Option (List ℕ))
      → (c == 37) ≡ true
      → conversion format args ≡ some p
      → Ends p.format p.args r
      → Ends (c ∷ format) args (prepend p.text r)
  faulted :
      (c : ℕ) (format : List ℕ) (args : List Arg)
      → (c == 37) ≡ true
      → conversion format args ≡ none
      → Ends (c ∷ format) args none

converted_or_faulted :
    (n c : ℕ) (format : List ℕ) (args : List Arg) (r : Option Printed)
    → (c == 37) ≡ true
    → conversion format args ≡ r
    → ((s : List ℕ) (left : List Arg)
        → length s ≤ length format
        → Ends s left (template_loop n s left))
    → Ends
        (c ∷ format)
        args
        (elim r [ none ↦ none | some p ↦ prepend p.text (template_loop n p.format p.args) ])
converted_or_faulted n c format args none percent e rest = faulted c format args percent e
converted_or_faulted n c format args (some p) percent e rest =
    converted c format args p (template_loop n p.format p.args) percent e (
      rest p.format p.args
        (subst (PrintedWithin (length format)) e (conversion-Within format args)))

template_loop-Ends :
    (n : ℕ) (format : List ℕ) (args : List Arg)
    → length format ≤ n
    → Ends format args (template_loop n format args)
unfolding template_loop
template_loop-Ends n [] args h = subst (Ends [] args) (sym (template_loop-nil n args)) (at_end args)
template_loop-Ends zero (c ∷ format) args h = absurd (omega arith)
template_loop-Ends (suc n) (c ∷ format) args h = elim (Bool-cases (c == 37)) [
  | inl percent ↦ rw percent (
      converted_or_faulted n c format args (conversion format args) percent refl
        (λ s left below. template_loop-Ends n s left (omega arith)))
  | inr other ↦ rw other (
      copied c format args (template_loop n format args) other
        (template_loop-Ends n format args (omega arith)))
]

-- The loop of `vsprintf` ends for every template and all arguments: there is a run of it, of finitely many
-- rounds, from the start of the template to its end or to a conversion that faults, and its text is what
-- `vsprintf` makes. So it is with every number of rounds that is not below the length of the template.
pub vsprintf-Ends :
    (n : ℕ) (format : List ℕ) (args : List Arg)
    → length format ≤ n
    → Ends format args (vsprintf format args) × (template_loop n format args ≡ vsprintf format args)
unfolding vsprintf
vsprintf-Ends n format args h = (
  template_loop-Ends (length format) format args (omega arith),
  template_loop-enough n format args h,
)
