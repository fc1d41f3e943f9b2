-- ===== src/Shell/Tests.antt =====
-- Runs of shell/shell.c at concrete inputs.
use krven_os.Common.{ℕ, ◌≡◌, refl, arith, none, some, List, [], ◌∷◌}
use krven_os.Strings.{IsText}
use krven_os.Shell.{Shell, shell_ls, init_shell, shell_split_command, shell_parse_command}
use krven_os.Shell.Words.{words, Rows}
use krven_os.Shell.Lookup.{HasCommands, static_shell, action_of, init_shell-HasCommands}
use krven_os.Shell.Command.{shell_parse_command-words}

-- " ls  a"
abbrev line : List ℕ
line = 32 ∷ 108 ∷ 115 ∷ 32 ∷ 32 ∷ 97 ∷ []

line-IsText : IsText line
line-IsText = (
  omega arith,
  omega arith,
  (
    omega arith,
    omega arith,
    (
      omega arith,
      omega arith,
      (
        omega arith,
        omega arith,
        (omega arith, omega arith, (omega arith, omega arith, omega arith)),
      ),
    ),
  ),
)

split_line : words line ≡ (108 ∷ 115 ∷ []) ∷ (97 ∷ []) ∷ []
split_line = refl

abbrev start : Shell
start = static_shell shell_ls

shell_parse_command-words_example :
    (s' : Shell) × (shell_parse_command line (init_shell start) ≡ some (s', action_of (words line)))
    × HasCommands s'
    × Rows s'.shell_params 0 (words line)
shell_parse_command-words_example =
    shell_parse_command-words line (init_shell start) (init_shell-HasCommands shell_ls) line-IsText
      (omega arith, (omega arith, omega arith))

-- Eleven words of one character do not fit.
eleven : List ℕ
eleven =
    97 ∷ 32 ∷ 97 ∷ 32 ∷ 97 ∷ 32 ∷ 97 ∷ 32 ∷ 97 ∷ 32 ∷ 97 ∷ 32 ∷ 97 ∷ 32 ∷ 97 ∷ 32 ∷ 97 ∷ 32 ∷ 97
    ∷ 32 ∷ 97 ∷ []

overrun : shell_split_command eleven start ≡ none
unfolding shell_split_command eleven
overrun = refl
