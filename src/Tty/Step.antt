-- ===== src/Tty/Step.antt =====
-- One typed character in tty/tty.c: it is taken out, printed, and edits the line.
use mathlib.Core.Path.{subst}
use krven_os.Common.{
  ℕ, suc, ◌+◌, ◌-◌, ◌%◌, ◌^◌, ◌<◌, ◌≡◌, ◌≢◌, ◌∙◌, ap, sym, refl, arith, true, some, List, [], ◌∷◌,
  ◌++◌, ltb, ◌==◌, update, update_self, Holds, Holds-append, length, length-append, Bool-cases, inl,
  inr,
}
use krven_os.Console.{console_write}
use krven_os.Tty.{Tty, Terminals, set_tty, Handlers, tty_char, tty_print}
use krven_os.Tty.Edit.{
  drop_last, edit, length-drop_last, Holds-drop_last, Typing, took, tty_print-takes,
  tty_char-ordinary, tty_char-back, tty_char-back_empty,
}

abbrev pub Steps : Handlers → (num p : ℕ) (cs line : List ℕ) → Terminals → Type 0
Steps handlers num p cs line t =
    (t' : Terminals) × (tty_print handlers num t ≡ some t')
    × Typing p cs line (t'.tty_table num)
    × (t'.current_tty ≡ t.current_tty)
    × (t'.shell ≡ t.shell)

-- The three ways in which a character changes the terminal that it is taken from.
abbrev took_char : Tty → Tty
took_char tty = record tty { point = (tty.point + 1) % 2 ^ 8 }

abbrev added : (c : ℕ) → Tty → Tty
added c tty = record tty { cmd_buf = update tty.cmd_buf tty.pos c; pos = (tty.pos + 1) % 2 ^ 8 }

abbrev removed : Tty → Tty
removed tty = record tty { pos = tty.pos - 1 }

Typing-taken :
    (p c : ℕ) (cs line : List ℕ) (tty : Tty)
    → Typing p (c ∷ cs) line tty
    → Typing (p + 1) cs line (took_char tty)
Typing-taken p c cs line tty (point, size, room, (here, later), pos, below, held) =
    let next : suc p ≡ p + 1 = omega arith in
    (
      omega arith,
      omega arith,
      omega arith,
      subst (λ i. Holds tty.buf i cs) next later,
      pos,
      omega arith,
      held,
    )

Typing-added :
    (p c : ℕ) (cs line : List ℕ) (tty : Tty)
    → length line < p
    → Typing p cs line tty
    → Typing p cs (line ++ (c ∷ [])) (added c tty)
Typing-added p c cs line tty short (point, size, room, rest, pos, below, held) =
    let longer = length-append line (c ∷ []) in
    let place : 0 + length line ≡ tty.pos = omega arith in
    (
      point,
      size,
      room,
      rest,
      omega arith,
      omega arith,
      subst (λ i. Holds (update tty.cmd_buf i c) 0 (line ++ (c ∷ []))) place
          (Holds-append tty.cmd_buf 0 c line held),
    )

Typing-removed :
    (p : ℕ) (cs line : List ℕ) (tty : Tty)
    → Typing p cs line tty
    → Typing p cs (drop_last line) (removed tty)
Typing-removed p cs line tty (point, size, room, rest, pos, below, held) =
    let shorter = length-drop_last line in
    (point, size, room, rest, omega arith, omega arith, Holds-drop_last tty.cmd_buf 0 line held)

-- A backspace, with a line and without one.
back-Runs :
    (handlers : Handlers) (num p : ℕ) (cs line : List ℕ) (t : Terminals)
    → Typing p cs line (t.tty_table num)
    → (t' : Terminals) × (tty_char handlers num 8 t ≡ some t')
      × Typing p cs (drop_last line) (t'.tty_table num)
      × (t'.current_tty ≡ t.current_tty)
      × (t'.shell ≡ t.shell)
back-Runs handlers num p cs [] t typing =
    let (point, size, room, rest, pos, below, held) = typing in
    (t, tty_char-back_empty handlers num t pos, typing, refl, refl)
back-Runs handlers num p cs (c ∷ line) t typing =
    let (point, size, room, rest, pos, below, held) = typing in
    let tty = t.tty_table num in
    (
      record (set_tty num (removed tty) t) { screen = console_write (8 ∷ 32 ∷ 8 ∷ []) t.screen },
      tty_char-back handlers num t (omega arith),
      subst (Typing p cs (drop_last (c ∷ line))) (sym (update_self t.tty_table num (removed tty)))
          (Typing-removed p cs (c ∷ line) tty typing),
      refl,
      refl,
    )

-- A typed character is taken out, printed, and edits the line.
pub tty_print-Steps :
    (handlers : Handlers) (num p c : ℕ) (cs line : List ℕ) (t : Terminals)
    → c < 128
    → c ≢ 10
    → Typing p (c ∷ cs) line (t.tty_table num)
    → Steps handlers num (p + 1) cs (edit line c) t
tty_print-Steps handlers num p c cs line t low newline typing =
    let (point, size, room, (here, later), pos, below, held) = typing in
    let tty = t.tty_table num in
    let more : ltb tty.point tty.buf_size ≡ true = ground arith in
    let takes = tty_print-takes handlers num c t more (ap tty.buf point ∙ here) in
    let self : took_char tty ≡ (took num t).tty_table num =
      sym (update_self t.tty_table num (took_char tty)) in
    let typing' = Typing-taken p c cs line tty typing in
    elim (Bool-cases (c == 8)) [
      | inl back ↦
          let is_back : c ≡ 8 = ground arith in
          let (t', ran, typing'', current, shell) =
            back-Runs handlers num (p + 1) cs line (took num t)
              (subst (Typing (p + 1) cs line) self typing') in
          rw back (
            t',
            takes ∙ ap (λ c. tty_char handlers num c (took num t)) is_back ∙ ran,
            typing'',
            current,
            shell,
          )
      | inr other ↦
          let not_back : c ≢ 8 = ground arith in
          let screen = console_write (c % 256 ∷ []) t.screen in
          let self' =
            sym (update_self (took num t).tty_table num (added c ((took num t).tty_table num))) in
          rw other (
            set_tty num (added c ((took num t).tty_table num))
                (record (took num t) { screen = screen }),
            takes ∙ tty_char-ordinary handlers num c (took num t) low newline not_back,
            subst (Typing (p + 1) cs (line ++ (c ∷ []))) (ap (added c) self ∙ self')
                (Typing-added (p + 1) c cs line (took_char tty) (omega arith) typing'),
            refl,
            refl,
          )
    ]
