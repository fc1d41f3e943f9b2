-- ===== src/Tty/Enter.antt =====
-- The end of a line in tty/tty.c: the command that the shell runs.
use mathlib.Core.Path.{subst}
use krven_os.Common.{
  ℕ, ◌+◌, ◌%◌, ◌^◌, ◌<◌, ◌≤◌, ◌≡◌, ◌∙◌, ap, sym, refl, arith, true, Option, none, some, List, [],
  ◌∷◌, ◌++◌, ltb, update, update_self, Holds, length, length-append,
}
use krven_os.Console.{console_write}
use krven_os.Strings.{IsString, IsText}
use krven_os.Shell.{Shell, Action}
use krven_os.Shell.Words.{words, Fit, Rows}
use krven_os.Shell.Lookup.{HasCommands, action_of}
use krven_os.Shell.Command.{shell_parse_command-words}
use krven_os.Format.Template.Prints.{vsprintf-text}
use krven_os.Strings.Compare.{string_text-IsString}
use krven_os.Tty.{
  Tty, Terminals, set_tty, ◌>>◌, Handlers, tty_char, tty_flush, run_line, perform, printf,
  print_text, tty_print_header, reset, tty_print, tty_prints, tty_write,
}
use krven_os.Tty.Edit.{edited, IsTyped, Typing, took, tty_print-takes}
use krven_os.Tty.Line.{IsString-ended, edited-IsText, tty_prints-Typing, tty_write-Typing}

printf-newline :
    (t : Terminals)
    → printf (10 ∷ []) [] t ≡ some (record t { screen = console_write (10 ∷ []) t.screen })
unfolding printf print_text
printf-newline t = ap (λ r. print_text r t) (vsprintf-text (10 ∷ []) [] (omega arith, omega arith))

-- The line is given to the shell, which chooses the action for its words.
run_line-action :
    (handlers : Handlers) (line : List ℕ) (t : Terminals)
    → HasCommands t.shell
    → IsText line
    → Fit 0 (words line)
    → (t' : Terminals) × (run_line handlers line t ≡ perform handlers (action_of (words line)) t')
      × HasCommands t'.shell
      × Rows t'.shell.shell_params 0 (words line)
      × (t'.tty_table ≡ t.tty_table)
      × (t'.current_tty ≡ t.current_tty)
unfolding run_line
run_line-action handlers line t commands text fit =
    let (s, parsed, commands', rows) = shell_parse_command-words line t.shell commands text fit in
    (
      record t { shell = s; screen = console_write (10 ∷ []) t.screen },
      ap next parsed
          ∙ ap (λ r. r >> perform handlers (action_of (words line)))
              (printf-newline (record t { shell = s })),
      commands',
      rows,
      refl,
      refl,
    )
  where
    next : Option (Shell × Action) → Option Terminals
    next r = elim r [
      | none ↦ none
      | some (s, action) ↦ printf (10 ∷ []) [] (record t { shell = s }) >> perform handlers action
    ]

-- The buffers of a line that is ended.
abbrev with_zero : (num : ℕ) → Terminals → Terminals
with_zero num t =
    let tty = t.tty_table num in
    set_tty num (record tty { cmd_buf = update tty.cmd_buf tty.pos 0 }) t

tty_flush-line :
    (handlers : Handlers) (num : ℕ) (line : List ℕ) (t : Terminals)
    → (t.tty_table num).pos ≡ length line
    → Holds (t.tty_table num).cmd_buf 0 line
    → IsText line
    → length line < 1024
    → tty_flush handlers num t
      ≡ (run_line handlers line (with_zero num t) >> (λ t. tty_print_header num (reset num t)))
unfolding tty_flush
tty_flush-line handlers num line t pos held text short =
    let tty = t.tty_table num in
    let place : 0 + length line ≡ tty.pos = omega arith in
    let str =
      subst (λ i. IsString (update tty.cmd_buf i 0) 0 line) place
        (IsString-ended tty.cmd_buf 0 line held) in
    ap next (string_text-IsString 1024 0 (update tty.cmd_buf tty.pos 0) line str text short)
  where
    next : Option (List ℕ) → Option Terminals
    next r = elim r [
      | none ↦ none
      | some line ↦
          run_line handlers line (with_zero num t) >> (λ t. tty_print_header num (reset num t))
    ]

tty_char-newline :
    (handlers : Handlers) (num : ℕ) (t : Terminals)
    → tty_char handlers num 10 t ≡ tty_flush handlers num t
unfolding tty_char
tty_char-newline handlers num t = refl

-- Typed into an idle terminal, at most 254 characters and a line feed run the command of the line as it was
-- edited: after a round for each character, the round for the line feed performs the action that belongs to
-- the words of the edited line, with these words as the parameters and whatever the commands do, and then
-- resets the buffers and prints the header.
-- The line has at most ten words of fewer than 128 characters, and the shell has its table of commands, which
-- it keeps.
pub tty_print-command :
    (handlers : Handlers) (num : ℕ) (cs : List ℕ) (t : Terminals)
    → Typing 0 [] [] (t.tty_table num)
    → HasCommands t.shell
    → IsTyped cs
    → length cs ≤ 254
    → Fit 0 (words (edited [] cs))
    → (t1 t2 : Terminals) × (tty_prints handlers (length cs) num (tty_write num (cs ++ (10 ∷ [])) t)
        ≡ some t1)
      × (tty_print handlers num t1 ≡ (
          perform handlers (action_of (words (edited [] cs))) t2
          >> (λ t. tty_print_header num (reset num t))))
      × HasCommands t2.shell
      × Rows t2.shell.shell_params 0 (words (edited [] cs))
      × (t2.current_tty ≡ t.current_tty)
tty_print-command handlers num cs t idle commands typed short fit =
    let line : List ℕ = edited [] cs in
    let longer = length-append cs (10 ∷ []) in
    let (typing0, current0, shell0) =
      tty_write-Typing num 0 [] (cs ++ (10 ∷ [])) [] t idle (omega arith) in
    let (t1, runs, typing1, current1, shell1) =
      tty_prints-Typing handlers num 0 cs (10 ∷ []) [] (tty_write num (cs ++ (10 ∷ [])) t) typed
        typing0 in
    let (point, size, room, (here, later), pos, below, held) = typing1 in
    let tty1 : Tty = t1.tty_table num in
    let more : ltb tty1.point tty1.buf_size ≡ true = ground arith in
    let takes = tty_print-takes handlers num 10 t1 more (ap tty1.buf point ∙ here) in
    let taken : Tty = record tty1 { point = (tty1.point + 1) % 2 ^ 8 } in
    let self = sym (update_self t1.tty_table num taken) in
    let text = edited-IsText [] cs (omega arith) typed in
    let (pos', held') =
      subst (λ tty. (tty.pos ≡ length line) × Holds tty.cmd_buf 0 line) self (pos, held) in
    let flushes = tty_flush-line handlers num line (took num t1) pos' held' text (omega arith) in
    let (t2, acts, commands', rows, table, current2) =
      run_line-action handlers line (with_zero num (took num t1))
        (subst HasCommands (sym (shell1 ∙ shell0)) commands) text fit in
    (
      t1,
      t2,
      runs,
      takes
          ∙ tty_char-newline handlers num (took num t1)
          ∙ flushes
          ∙ ap (λ r. r >> (λ t. tty_print_header num (reset num t))) acts,
      commands',
      rows,
      current2 ∙ current1 ∙ current0,
    )
