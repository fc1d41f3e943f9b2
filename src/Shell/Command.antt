-- ===== src/Shell/Command.antt =====
-- Which command shell/shell.c runs for a line.
use krven_os.Common.{
  ℕ, suc, ◌+◌, ◌<◌, ◌≡◌, ◌∙◌, ap, refl, arith, Bool, true, false, Option, none, some, List, [], ◌∷◌,
  ltb, ◌==◌, length, Bool-cases, inl, inr,
}
use krven_os.Strings.{IsText}
use krven_os.Shell.{
  Shell, ShellHandler, commands, shell_get_command_id, Action, run, can_not_find, act,
  shell_parse_command,
}
use krven_os.Shell.Words.{first_word, words_from, words, Fit, Rows}
use krven_os.Shell.Split.{shell_split_command-words}
use krven_os.Shell.Lookup.{
  find_command, action_of, handler_of, Filled, HasCommands, command_loop-Filled,
}

Filled-length :
    (table : ℕ → ℕ) (handlers : ℕ → ShellHandler) (size i : ℕ) (cmds : List (List ℕ × ShellHandler))
    → Filled table handlers size i cmds
    → size ≡ i + length cmds
Filled-length table handlers size i [] filled = omega arith
Filled-length table handlers size i ((name, handler) ∷ cmds) (row, text, short, handler', filled) =
    omega (arith, Filled-length table handlers size (suc i) cmds filled)

AllText : List (List ℕ) → Type 0
AllText [] = 0 < 1
AllText (w ∷ ws) = IsText w × AllText ws

first_word-IsText : (args : List ℕ) → IsText args → IsText (first_word args)
first_word-IsText [] text = text
first_word-IsText (c ∷ args) (low, high, text) = elim (Bool-cases (c == 32)) [
  | inl space ↦ rw space (omega arith)
  | inr other ↦ rw other (low, high, first_word-IsText args text)
]

words_from-AllText :
    (inside : Bool) (args : List ℕ) → IsText args → AllText (words_from inside args)
unfolding AllText
words_from-AllText inside [] text = omega arith
words_from-AllText false (c ∷ args) (low, high, text) = elim (Bool-cases (c == 32)) [
  | inl space ↦ rw space (words_from-AllText false args text)
  | inr other ↦
      rw other ((low, high, first_word-IsText args text), words_from-AllText true args text)
]
words_from-AllText true (c ∷ args) (low, high, text) = elim (Bool-cases (c == 32)) [
  | inl space ↦ rw space (words_from-AllText false args text)
  | inr other ↦ rw other (words_from-AllText true args text)
]

action_for : Option ShellHandler → Action
action_for r = elim r [ some handler ↦ run handler | none ↦ can_not_find ]

act-found :
    (s : Shell) (r : Option ShellHandler) (id : Option ℕ)
    → 0 < s.shell_param_num
    → handler_of s.shell_handlers id ≡ r
    → act s id ≡ action_for r
unfolding act handler_of action_for
act-found s r none some_word e =
    let more : ltb 0 s.shell_param_num ≡ true = ground arith in rw more (ap action_for e)
act-found s r (some id) some_word e = ap action_for e

get_command_id-action :
    (s : Shell) (ws : List (List ℕ))
    → HasCommands s
    → s.shell_param_num ≡ length ws
    → Rows s.shell_params 0 ws
    → AllText ws
    → Fit 0 ws
    → (id : Option ℕ) × (shell_get_command_id s ≡ some id) × (act s id ≡ action_of ws)
unfolding shell_get_command_id AllText commands action_for act
get_command_id-action s [] filled num rows text fit =
    let e : (s.shell_param_num == 0) ≡ true = ground arith in
    let f : ltb 0 s.shell_param_num ≡ false = ground arith in (none, rw e refl, rw f refl)
get_command_id-action s (w ∷ ws) filled num (row, rows) (text, texts) (short, fit) =
    let more : (s.shell_param_num == 0) ≡ false = ground arith in
    let size =
      Filled-length s.command_table s.shell_handlers s.shell_handler_size 0 commands filled in
    let (id, looked, found) =
      command_loop-Filled s.shell_handler_size 0 s commands w filled row text short size in
    (id, rw more looked, act-found s (find_command commands w) id (omega arith) found)

-- With the table of `init_shell`, and for a line of bytes other than zero with at most ten words of fewer
-- than 128 characters, the shell runs the command that has the first word for its name. It says that it
-- can not find the command where there is none, and does nothing for a line without words. The table
-- stays, and the parameters are the words.
pub shell_parse_command-words :
    (args : List ℕ) (s : Shell)
    → HasCommands s
    → IsText args
    → Fit 0 (words args)
    → (s' : Shell) × (shell_parse_command args s ≡ some (s', action_of (words args)))
      × HasCommands s'
      × Rows s'.shell_params 0 (words args)
unfolding shell_parse_command
shell_parse_command-words args s filled text fit =
    let (s', split, num, rows, table, size, handlers) = shell_split_command-words args s text fit in
    let filled' : HasCommands s' = rw (table, size, handlers) filled in
    let (id, looked, action) =
      get_command_id-action s' (words args) filled' num rows (words_from-AllText false args text)
        fit in
    (s', ap parse split ∙ ap (chosen s') looked ∙ ap (λ a. some (s', a)) action, filled', rows)
  where
    chosen : Shell → Option (Option ℕ) → Option (Shell × Action)
    chosen s' r = elim r [ none ↦ none | some command_id ↦ some (s', act s' command_id) ]

    parse : Option Shell → Option (Shell × Action)
    parse r = elim r [ none ↦ none | some s' ↦ chosen s' (shell_get_command_id s') ]
