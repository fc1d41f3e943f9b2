-- ===== src/Tty/Line.antt =====
-- The line that a terminal of tty/tty.c holds is the line as it was typed.
use mathlib.Core.Path.{subst}
use mathlib.Core.List.{append-nil, append_assoc}
use krven_os.Common.{
  ℕ, suc, ◌+◌, ◌%◌, ◌^◌, ◌≤◌, ◌≡◌, ◌∙◌, ap, sym, refl, arith, some, List, [], ◌∷◌, ◌++◌, ◌==◌,
  update, update_self, update_ne, Holds, Holds-append, length, length-append, Bool-cases, inl, inr,
}
use krven_os.Strings.{IsString, IsText}
use krven_os.Strings.Join.{IsText-append}
use krven_os.Tty.{Tty, Terminals, ◌>>◌, Handlers, tty_prints, tty_putc, tty_write}
use krven_os.Tty.Edit.{drop_last, edit, edited, IsTyped, Typing}
use krven_os.Tty.Step.{tty_print-Steps}

-- As many rounds as characters leave the edited line.
pub tty_prints-Typing :
    (handlers : Handlers) (num p : ℕ) (cs rest line : List ℕ) (t : Terminals)
    → IsTyped cs
    → Typing p (cs ++ rest) line (t.tty_table num)
    → (t' : Terminals) × (tty_prints handlers (length cs) num t ≡ some t')
      × Typing (p + length cs) rest (edited line cs) (t'.tty_table num)
      × (t'.current_tty ≡ t.current_tty)
      × (t'.shell ≡ t.shell)
unfolding tty_prints
tty_prints-Typing handlers num p [] rest line t typed typing =
    let e : p ≡ p + 0 = omega arith in
    (t, refl, subst (λ p. Typing p rest line (t.tty_table num)) e typing, refl, refl)
tty_prints-Typing handlers num p (c ∷ cs) rest line t (low, high, newline, typed) typing =
    let (t1, ran, typing1, current1, shell1) =
      tty_print-Steps handlers num p c (cs ++ rest) line t high newline typing in
    let (t', runs, typing', current', shell') =
      tty_prints-Typing handlers num (p + 1) cs rest (edit line c) t1 typed typing1 in
    let e : p + 1 + length cs ≡ p + suc (length cs) = omega arith in
    (
      t',
      ap (λ r. r >> tty_prints handlers (length cs) num) ran ∙ runs,
      subst (λ p. Typing p rest (edited (edit line c) cs) (t'.tty_table num)) e typing',
      current' ∙ current1,
      shell' ∙ shell1,
    )

-- Characters that are put into the buffer wait there.
pub tty_write-Typing :
    (num p : ℕ) (waiting cs line : List ℕ) (t : Terminals)
    → Typing p waiting line (t.tty_table num)
    → p + length waiting + length cs ≤ 255
    → Typing p (waiting ++ cs) line ((tty_write num cs t).tty_table num)
      × ((tty_write num cs t).current_tty ≡ t.current_tty)
      × ((tty_write num cs t).shell ≡ t.shell)
unfolding tty_write tty_putc
tty_write-Typing num p waiting [] line t typing room =
    (subst (λ w. Typing p w line (t.tty_table num)) (sym (append-nil waiting)) typing, refl, refl)
tty_write-Typing num p waiting (c ∷ cs) line t typing room =
    let (point, size, short, held, pos, below, text) = typing in
    let tty = t.tty_table num in
    let tty' : Tty = record tty {
      buf = update tty.buf tty.buf_size c;
      buf_size = (tty.buf_size + 1) % 2 ^ 8;
    } in
    let longer = length-append waiting (c ∷ []) in
    let stored : Typing p (waiting ++ (c ∷ [])) line tty' = (
      point,
      omega arith,
      omega arith,
      subst (λ i. Holds (update tty.buf i c) p (waiting ++ (c ∷ []))) (sym size)
          (Holds-append tty.buf p c waiting held),
      pos,
      below,
      text,
    ) in
    let self = sym (update_self t.tty_table num tty') in
    let (typing', current, shell) =
      tty_write-Typing num p (waiting ++ (c ∷ [])) cs line (tty_putc num c t)
        (subst (Typing p (waiting ++ (c ∷ [])) line) self stored) (omega arith) in
    (
      subst (λ w. Typing p w line ((tty_write num cs (tty_putc num c t)).tty_table num))
          (append_assoc waiting (c ∷ []) cs) typing',
      current,
      shell,
    )

pub IsString-ended :
    (a : ℕ → ℕ) (i : ℕ) (t : List ℕ) → Holds a i t → IsString (update a (i + length t) 0) i t
IsString-ended a i [] held =
    let e : i ≡ i + 0 = omega arith in ap (update a (i + 0) 0) e ∙ update_self a (i + 0) 0
IsString-ended a i (c ∷ t) (here, later) =
    let e : suc i + length t ≡ i + suc (length t) = omega arith in
    (
      update_ne a (i + suc (length t)) i 0 (omega arith) ∙ here,
      subst (λ j. IsString (update a j 0) (suc i) t) e (IsString-ended a (suc i) t later),
    )

IsText-drop_last : (t : List ℕ) → IsText t → IsText (drop_last t)
IsText-drop_last [] text = text
IsText-drop_last (c ∷ []) text = omega arith
IsText-drop_last (c ∷ (d ∷ t)) (low, high, text) = (low, high, IsText-drop_last (d ∷ t) text)

pub edited-IsText : (line cs : List ℕ) → IsText line → IsTyped cs → IsText (edited line cs)
edited-IsText line [] text typed = text
edited-IsText line (c ∷ cs) text (low, high, newline, typed) =
    edited-IsText (edit line c) cs
      (elim (Bool-cases (c == 8)) [
        | inl back ↦ rw back (IsText-drop_last line text)
        | inr other ↦ rw other (IsText-append line (c ∷ []) text (low, omega arith, omega arith))
      ])
      typed
