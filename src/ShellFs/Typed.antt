-- ===== src/ShellFs/Typed.antt =====
-- A command of shell/shell_fs.c as it is typed into tty/tty.c.
use mathlib.Core.Path.{subst}
use krven_os.Common.{
  ℕ, suc, ◌+◌, ◌≤◌, ◌≡◌, ◌∙◌, ap, refl, arith, Option, some, List, [], ◌∷◌, ◌++◌, length,
}
use krven_os.Strings.{IsString}
use krven_os.Shell.{commands}
use krven_os.Shell.Words.{words, Fit, Rows}
use krven_os.Shell.Lookup.{HasCommands, action_of}
use krven_os.Fs.Request.{Locals}
use krven_os.Tty.{
  Terminals, ◌>>◌, Handlers, perform, tty_print_header, reset, tty_print, tty_prints, tty_write,
}
use krven_os.Tty.Edit.{edited, IsTyped, Typing}
use krven_os.Tty.Enter.{tty_print-command}
use krven_os.ShellFs.{second_param, run_mkdir, run_mkfile}
use krven_os.ShellFs.Folder.{run_cd, fs_handlers}

IsString-offset :
    (str : ℕ → ℕ) (a i : ℕ) (t : List ℕ) → IsString str (a + i) t → IsString (λ j. str (a + j)) i t
IsString-offset str a i [] s = s
IsString-offset str a i (c ∷ t) (here, later) =
    let e : suc (a + i) ≡ a + suc i = omega arith in
    (here, IsString-offset str a (suc i) t (subst (λ k. IsString str k t) e later))

-- "mkdir", "mkfile" and "cd"
abbrev pub mkdir_word : List ℕ
mkdir_word = 109 ∷ 107 ∷ 100 ∷ 105 ∷ 114 ∷ []

abbrev pub mkfile_word : List ℕ
mkfile_word = 109 ∷ 107 ∷ 102 ∷ 105 ∷ 108 ∷ 101 ∷ []

abbrev pub cd_word : List ℕ
cd_word = 99 ∷ 100 ∷ []

-- The function that a command of one parameter runs.
pub data Named : Type 0 where
  mkdir mkfile cd : Named

abbrev pub word_of : Named → List ℕ
word_of mkdir = mkdir_word
word_of mkfile = mkfile_word
word_of cd = cd_word

abbrev pub function_of : Named → Locals → (params : ℕ → ℕ) (num : ℕ) → Terminals → Option Terminals
function_of mkdir = run_mkdir
function_of mkfile = run_mkfile
function_of cd = run_cd

named_action :
    (locals : Locals) (others : Handlers) (c : Named) (rest : List (List ℕ)) (t : Terminals)
    → perform (fs_handlers locals others) (action_of (word_of c ∷ rest)) t
      ≡ function_of c locals t.shell.shell_params t.current_tty t
unfolding perform commands fs_handlers
named_action locals others mkdir rest t = refl
named_action locals others mkfile rest t = refl
named_action locals others cd rest t = refl

-- A line that is typed into an idle terminal, at most 254 characters with backspaces and a line feed, and whose
-- first two words are "mkdir", "mkfile" or "cd" and a name, runs the function of shell/shell_fs.c with that
-- name for `name[1]` on the terminal that is shown, and then prints the header.
pub tty_print-Named :
    (locals : Locals) (others : Handlers) (num : ℕ) (c : Named) (name : List ℕ)
    → (rest : List (List ℕ)) (cs : List ℕ) (t : Terminals) → Typing 0 [] [] (t.tty_table num)
    → HasCommands t.shell
    → IsTyped cs
    → length cs ≤ 254
    → Fit 0 (words (edited [] cs))
    → words (edited [] cs) ≡ word_of c ∷ (name ∷ rest)
    → let handlers = fs_handlers locals others in
      (t1 t2 : Terminals) × (tty_prints handlers (length cs) num (tty_write num (cs ++ (10 ∷ [])) t)
        ≡ some t1)
      × (tty_print handlers num t1 ≡ (
          function_of c locals t2.shell.shell_params t2.current_tty t2
          >> (λ t. tty_print_header num (reset num t))))
      × IsString (second_param t2.shell.shell_params) 0 name
      × (t2.current_tty ≡ t.current_tty)
tty_print-Named locals others num c name rest cs t idle table typed short fit spelled =
    let handlers = fs_handlers locals others in
    let (t1, t2, runs, ran, table', rows, current) =
      tty_print-command handlers num cs t idle table typed short fit in
    let rows' = subst (Rows t2.shell.shell_params 0) spelled rows in
    (
      t1,
      t2,
      runs,
      ran
          ∙ ap
              (λ ws.
                perform handlers (action_of ws) t2 >> (λ t. tty_print_header num (reset num t)))
              spelled
          ∙ ap (λ r. r >> (λ t. tty_print_header num (reset num t)))
              (named_action locals others c (name ∷ rest) t2),
      IsString-offset t2.shell.shell_params 128 0 name (rows'.1.0),
      current,
    )
