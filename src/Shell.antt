-- ===== src/Shell.antt =====
-- The command line of shell/shell.c: the table of commands, the words of a line, and the choice of the
-- command. The tables of strings are flat, as in memory; `none` is a write outside the ten parameters or
-- a string that does not end. What a command does is not part of the model: a line has an `Action`.
pub mod Words
pub mod Char
pub mod Split
pub mod Lookup
pub mod Command
mod Tests
use krven_os.Common.{
  ℕ, zero, suc, ◌+◌, ◌-◌, ◌*◌, Bool, true, false, ◌||◌, Option, none, some, List, [], ◌∷◌, ◌++◌,
  ltb, ◌==◌, if◌then◌else◌, update, length,
}
use krven_os.Strings.{memcpy, strcmp}

-- The functions that `init_shell` puts in the table.
pub data ShellHandler : Type 0 where
  shell_show_task shell_ls shell_clear shell_mkfile shell_mkdir shell_cd : ShellHandler
  shell_pmm_used shell_show_ldt shell_pmm_alloc shell_fork shell_show_proc shell_kill_proc :
      ShellHandler

-- The static variables.
pub record Shell : Type 0 where
  pub command_table : ℕ → ℕ
  pub shell_handlers : ℕ → ShellHandler
  pub shell_handler_size : ℕ
  pub shell_params : ℕ → ℕ
  pub shell_param_num : ℕ

-- A string given by its characters, with the closing zero.
abbrev pub literal : List ℕ → ℕ → ℕ
literal [] i = 0
literal (c ∷ t) zero = c
literal (c ∷ t) (suc i) = literal t i

unfoldable pub set_shell_handler : (command : List ℕ) → ShellHandler → Shell → Shell
unfolding memcpy
set_shell_handler command shell_handler s = record s {
  command_table =
      memcpy (length command) (24 * s.shell_handler_size) 0 s.command_table (literal command);
  shell_handlers = update s.shell_handlers s.shell_handler_size shell_handler;
  shell_handler_size = s.shell_handler_size + 1;
}

-- The commands in the order of `init_shell`.
unfoldable pub commands : List (List ℕ × ShellHandler)
commands =
    (116 ∷ 97 ∷ 115 ∷ 107 ∷ [], shell_show_task)
    ∷ (108 ∷ 115 ∷ [], shell_ls)
    ∷ (99 ∷ 108 ∷ 101 ∷ 97 ∷ 114 ∷ [], shell_clear)
    ∷ (109 ∷ 107 ∷ 102 ∷ 105 ∷ 108 ∷ 101 ∷ [], shell_mkfile)
    ∷ (109 ∷ 107 ∷ 100 ∷ 105 ∷ 114 ∷ [], shell_mkdir)
    ∷ (99 ∷ 100 ∷ [], shell_cd)
    ∷ (112 ∷ 109 ∷ 109 ∷ [], shell_pmm_used)
    ∷ (108 ∷ 100 ∷ 116 ∷ [], shell_show_ldt)
    ∷ (97 ∷ 108 ∷ 108 ∷ 111 ∷ 99 ∷ [], shell_pmm_alloc)
    ∷ (102 ∷ 111 ∷ 114 ∷ 107 ∷ [], shell_fork)
    ∷ (112 ∷ 114 ∷ 111 ∷ 99 ∷ [], shell_show_proc)
    ∷ (107 ∷ 105 ∷ 108 ∷ 108 ∷ [], shell_kill_proc)
    ∷ []

unfoldable pub set_shell_handlers : List (List ℕ × ShellHandler) → Shell → Shell
unfolding set_shell_handler
set_shell_handlers [] s = s
set_shell_handlers ((command, handler) ∷ rest) s =
    set_shell_handlers rest (set_shell_handler command handler s)

unfoldable pub init_shell : Shell → Shell
unfolding set_shell_handlers commands
init_shell s = set_shell_handlers commands s

-- The locals of `shell_split_command` with the parameters.
pub record Splitting : Type 0 where
  pub shell_params : ℕ → ℕ
  pub shell_param_num : ℕ
  pub pos : ℕ
  pub flag : Bool

-- `shell_params[shell_param_num][pos] = c`
abbrev pub put : (c : ℕ) → Splitting → Option Splitting
put c st =
    if ltb (128 * st.shell_param_num + st.pos) 1280
    then some
        (record st { shell_params = update st.shell_params (128 * st.shell_param_num + st.pos) c })
    else none

abbrev pub end_word : Option Splitting → Option Splitting
end_word none = none
end_word (some st) =
    some (record st { shell_param_num = st.shell_param_num + 1; pos = 0; flag = false })

abbrev pub next_place : Option Splitting → Option Splitting
next_place none = none
next_place (some st) = some (record st { pos = st.pos + 1; flag = true })

-- One character of the line.
unfoldable pub split_char : (c : ℕ) → Splitting → Option Splitting
split_char c st =
    if (c == 32) || (c == 0)
    then if st.flag then end_word (put 0 st) else some st
    else next_place (put c st)

-- The characters of `args` with the closing zero.
unfoldable pub split_loop : List ℕ → Splitting → Option Splitting
unfolding split_char
split_loop [] st = some st
split_loop (c ∷ args) st = elim (split_char c st) [ none ↦ none | some st' ↦ split_loop args st' ]

unfoldable pub shell_split_command : (args : List ℕ) → Shell → Option Shell
unfolding split_loop
shell_split_command args s =
    let start : Splitting = record {
      shell_params = s.shell_params;
      shell_param_num = 0;
      pos = 0;
      flag = false;
    } in
    elim (split_loop (args ++ (0 ∷ [])) start) [
      | none ↦ none
      | some st ↦
          some (record s { shell_params = st.shell_params; shell_param_num = st.shell_param_num })
    ]

-- A row of the table of commands.
abbrev pub command_row : (ℕ → ℕ) → ℕ → ℕ → ℕ
command_row table i j = table (24 * i + j)

-- The rounds left of the loop of `shell_get_command_id`. The strings end within the ten parameters, or
-- `none`.
unfoldable pub command_loop : (n i : ℕ) → Shell → Option (Option ℕ)
unfolding strcmp
command_loop zero i s = some none
command_loop (suc n) i s =
    let rest = command_loop n (suc i) s in
    elim (strcmp 1280 (command_row s.command_table i) s.shell_params) [
      | none ↦ none
      | some r ↦ if r == 0 then some (some i) else rest
    ]

-- `shell_get_command_id`, with `some none` for -1.
unfoldable pub shell_get_command_id : Shell → Option (Option ℕ)
unfolding command_loop
shell_get_command_id s =
    let looked = command_loop s.shell_handler_size 0 s in
    if s.shell_param_num == 0 then some none else looked

-- What a line leads to.
pub data Action : Type 0 where
  run : ShellHandler → Action
  can_not_find : Action
  nothing : Action

unfoldable pub act : Shell → Option ℕ → Action
act s (some command_id) = run (s.shell_handlers command_id)
act s none = if ltb 0 s.shell_param_num then can_not_find else nothing

unfoldable pub shell_parse_command : (args : List ℕ) → Shell → Option (Shell × Action)
unfolding shell_split_command shell_get_command_id act
shell_parse_command args s = elim (shell_split_command args s) [
  | none ↦ none
  | some s' ↦ elim (shell_get_command_id s') [
    | none ↦ none
    | some command_id ↦ some (s', act s' command_id)
  ]
]
