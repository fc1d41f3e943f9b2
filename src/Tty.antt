-- ===== src/Tty.antt =====
-- The terminals of tty/tty.c and include/tty.h, with `printf` and `printc` of kernel/printk.c, which write
-- to the one screen. A command of the shell is an argument: what the function of the table does with the
-- parameters and the terminal. `none` is text that cannot be made or that does not end. The table of
-- terminals has no end here; the source's has three. The length of the `buff` that text is made in is not tested.
pub mod Edit
pub mod Step
pub mod Line
pub mod Enter
pub mod Stuck
pub mod Start
pub mod Ready
pub mod Ranges
mod Tests
use krven_os.Common.{
  ℕ, zero, suc, ◌+◌, ◌-◌, ◌%◌, ◌^◌, ◌&&◌, Bool, true, false, Option, none, some, List, [], ◌∷◌,
  ◌++◌, ltb, leb, ◌==◌, if◌then◌else◌, update,
}
use krven_os.Console.{
  Console, ConsoleBuffer, console_write, console_write_color, console_copy_from, console_copy_to,
}
use krven_os.Fs.{Fs}
use krven_os.Strings.{string_text}
use krven_os.Format.Template.{Arg, int, str, vsprintf}
use krven_os.Shell.{Shell, ShellHandler, Action, run, can_not_find, nothing, shell_parse_command}

-- `tty_t`, with the fields of its `fs_buffer`.
pub record Tty : Type 0 where
  pub buf_size : ℕ
  pub buf : ℕ → ℕ
  pub point : ℕ
  pub pos : ℕ
  pub cmd_buf : ℕ → ℕ
  pub console_buffer : ConsoleBuffer
  pub update_flag : ℕ
  pub current_dir_inode_id : ℕ
  pub dir_name : ℕ → ℕ
  pub fs_buf : ℕ → ℕ

-- The terminals, the screen that they share, the shell with the buffer of its requests, and the disk
-- that the requests are about.
pub record Terminals : Type 0 where
  pub tty_table : ℕ → Tty
  pub current_tty : ℕ
  pub screen : Console
  pub shell : Shell
  pub shell_fsbuf : ℕ → ℕ
  pub fs : Fs

abbrev pub set_tty : (num : ℕ) → Tty → Terminals → Terminals
set_tty num tty t = record t { tty_table = update t.tty_table num tty }

unfoldable pub print_text : Option (List ℕ) → Terminals → Option Terminals
unfolding console_write
print_text none t = none
print_text (some text) t = some (record t { screen = console_write text t.screen })

-- `printf`
unfoldable pub printf : (format : List ℕ) → List Arg → Terminals → Option Terminals
unfolding print_text
printf format args t = print_text (vsprintf format args) t

unfoldable pub print_color : (bg font : ℕ) → Option (List ℕ) → Terminals → Option Terminals
unfolding console_write_color
print_color bg font none t = none
print_color bg font (some text) t =
    some (record t { screen = console_write_color text bg font t.screen })

-- `printc`
unfoldable pub printc : (bg font : ℕ) (format : List ℕ) → List Arg → Terminals → Option Terminals
unfolding print_color
printc bg font format args t = print_color bg font (vsprintf format args) t

infixl 20 ◌>>◌
-- One step after the other.
abbrev pub ◌>>◌ : Option Terminals → (Terminals → Option Terminals) → Option Terminals
none >> f = none
some t >> f = f t

-- "tty%d@kinderriven:", the directory, and ">".
unfoldable pub tty_print_header : (num : ℕ) → Terminals → Option Terminals
unfolding printf printc string_text
tty_print_header num t =
    printc 0 14
      (116 ∷ 116 ∷ 121 ∷ 37 ∷ 100 ∷ 64 ∷ 107 ∷ 105 ∷ 110 ∷ 100 ∷ 101 ∷ 114 ∷ 114 ∷ 105 ∷ 118 ∷ 101
        ∷ 110 ∷ 58 ∷ [])
      (int (num + 1) ∷ []) t
    >> (λ t. elim (string_text 128 0 (t.tty_table num).dir_name) [
      | none ↦ none
      | some name ↦ printc 0 3 (37 ∷ 115 ∷ []) (str name ∷ []) t
    ])
    >> printf (62 ∷ []) []

-- `shell_handlers`: a function of the parameters and of the terminal.
abbrev pub Handlers : Type 0
Handlers = ShellHandler → (params : ℕ → ℕ) → (tty : ℕ) → Terminals → Option Terminals

-- What `shell_parse_command` does with what it has chosen.
unfoldable pub perform : Handlers → Action → Terminals → Option Terminals
unfolding printc string_text
perform handlers (run handler) t = handlers handler t.shell.shell_params t.current_tty t
perform handlers can_not_find t = elim (string_text 1280 0 t.shell.shell_params) [
  | none ↦ none
  | some name ↦
      printc 0 12
        (67 ∷ 97 ∷ 110 ∷ 32 ∷ 110 ∷ 111 ∷ 116 ∷ 32 ∷ 102 ∷ 105 ∷ 110 ∷ 100 ∷ 32 ∷ 99 ∷ 111 ∷ 109
          ∷ 109 ∷ 97 ∷ 110 ∷ 100 ∷ 32 ∷ 58 ∷ 32 ∷ 37 ∷ 115 ∷ 46 ∷ 10 ∷ [])
        (str name ∷ []) t
]
perform handlers nothing t = some t

-- The whole of `shell_parse_command` for a line.
unfoldable pub run_line : Handlers → (line : List ℕ) → Terminals → Option Terminals
unfolding printf perform shell_parse_command
run_line handlers line t = elim (shell_parse_command line t.shell) [
  | none ↦ none
  | some (s, action) ↦ printf (10 ∷ []) [] (record t { shell = s }) >> perform handlers action
]

-- The reset of the buffers after a line.
abbrev pub reset : (num : ℕ) → Terminals → Terminals
reset num t = set_tty num (record (t.tty_table num) { buf_size = 0; point = 0; pos = 0 }) t

unfoldable pub tty_flush : Handlers → (num : ℕ) → Terminals → Option Terminals
unfolding run_line tty_print_header
tty_flush handlers num t =
    let tty = t.tty_table num in
    let cmd_buf = update tty.cmd_buf tty.pos 0 in
    let ended = set_tty num (record tty { cmd_buf = cmd_buf }) t in
    elim (string_text 1024 0 cmd_buf) [
      | none ↦ none
      | some line ↦ run_line handlers line ended >> (λ t. tty_print_header num (reset num t))
    ]

unfoldable pub tty_putc : (num c : ℕ) → Terminals → Terminals
tty_putc num c t =
    let tty = t.tty_table num in
    set_tty num
      (record tty { buf = update tty.buf tty.buf_size c; buf_size = (tty.buf_size + 1) % 2 ^ 8 }) t

unfoldable pub tty_write : (num : ℕ) (cstr : List ℕ) → Terminals → Terminals
unfolding tty_putc
tty_write num [] t = t
tty_write num (c ∷ cstr) t = tty_write num cstr (tty_putc num c t)

-- Neither number is tested.
unfoldable pub tty_switch : (switch_id : ℕ) → Terminals → Terminals
unfolding console_copy_from console_copy_to
tty_switch switch_id t =
    let tty = t.tty_table t.current_tty in
    let left =
      set_tty t.current_tty
        (record tty { console_buffer = console_copy_to tty.console_buffer t.screen }) t in
    record left {
      current_tty = switch_id;
      screen = console_copy_from (left.tty_table switch_id).console_buffer t.screen;
    }

-- A character that is taken out of the buffer: 10 ends the line, 8 takes the last character back, and a
-- negative one, -1 to -128, switches.
unfoldable pub tty_char : Handlers → (num c : ℕ) → Terminals → Option Terminals
unfolding tty_flush tty_switch printf
tty_char handlers num c t =
    let tty = t.tty_table num in
    if c == 10
    then tty_flush handlers num t
    else if c == 8
    then if ltb 0 tty.pos
      then printf (8 ∷ 32 ∷ 8 ∷ []) [] (set_tty num (record tty { pos = tty.pos - 1 }) t)
      else some t
    else if leb 128 c
    then some (tty_switch (255 - c) t)
    else printf (37 ∷ 99 ∷ []) (int c ∷ []) t >> (λ t.
      let tty = t.tty_table num in
      some (
        set_tty num
          (record tty { cmd_buf = update tty.cmd_buf tty.pos c; pos = (tty.pos + 1) % 2 ^ 8 }) t))

unfoldable pub tty_print : Handlers → (num : ℕ) → Terminals → Option Terminals
unfolding tty_char
tty_print handlers num t =
    let tty = t.tty_table num in
    let taken = set_tty num (record tty { point = (tty.point + 1) % 2 ^ 8 }) t in
    if ltb tty.point tty.buf_size then tty_char handlers num (tty.buf tty.point) taken else some t

-- Rounds of the loop of `tty_start` for a terminal.
unfoldable pub tty_prints : Handlers → (n num : ℕ) → Terminals → Option Terminals
unfolding tty_print
tty_prints handlers zero num t = some t
tty_prints handlers (suc n) num t = tty_print handlers num t >> tty_prints handlers n num
