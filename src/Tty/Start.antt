-- ===== src/Tty/Start.antt =====
-- The start of the terminals: `init_tty` of tty/tty.c, and the welcome of tty/ui.c.
use krven_os.Common.{ℕ, zero, suc, ◌-◌, ◌/◌, Option, some, List, [], ◌∷◌, length}
use krven_os.Strings.{memcpy}
use krven_os.Shell.{literal}
use krven_os.Console.{console_clear, console_copy_to}
use krven_os.Format.Template.{str}
use krven_os.Tty.{
  Tty, Terminals, set_tty, printf, printc, ◌>>◌, tty_print_header, tty_switch, tty_print, Handlers,
}

-- "Welcome to K'OS!"
abbrev pub welcome_str : List ℕ
welcome_str =
    87 ∷ 101 ∷ 108 ∷ 99 ∷ 111 ∷ 109 ∷ 101 ∷ 32 ∷ 116 ∷ 111 ∷ 32 ∷ 75 ∷ 39 ∷ 79 ∷ 83 ∷ 33 ∷ []

unfoldable pub ui_line : (num : ℕ) → Terminals → Option Terminals
unfolding printf
ui_line zero t = some t
ui_line (suc num) t = printf (45 ∷ []) [] t >> ui_line num

unfoldable pub ui_blank : (num : ℕ) → Terminals → Option Terminals
unfolding printf
ui_blank zero t = some t
ui_blank (suc num) t = printf (32 ∷ []) [] t >> ui_blank num

unfoldable pub ui_welcome : Terminals → Option Terminals
unfolding ui_line ui_blank printf printc
ui_welcome t =
    let blank = (80 - length welcome_str) / 2 in
    ui_line 79 t
    >> printf (10 ∷ []) []
    >> ui_blank blank
    >> printc 0 12 (37 ∷ 115 ∷ []) (str welcome_str ∷ [])
    >> printf (10 ∷ []) []
    >> ui_line 79
    >> printf (10 ∷ []) []

-- The zeroed terminal with the three fields that are set: a listing to be read, the root's inode, and "/".
unfoldable pub fresh_tty : Tty
unfolding memcpy
fresh_tty = record {
  buf_size = 0;
  buf = λ _. 0;
  point = 0;
  pos = 0;
  cmd_buf = λ _. 0;
  console_buffer = record { cells = λ _. 0; saved_x = 0; saved_y = 0 };
  update_flag = 1;
  current_dir_inode_id = 1;
  dir_name = memcpy 2 0 0 (λ _. 0) (literal (47 ∷ []));
  fs_buf = λ _. 0;
}

-- `write_clear()`, as the system call does it.
abbrev pub write_clear : Terminals → Terminals
write_clear t = record t { screen = console_clear t.screen }

abbrev pub save_screen : (i : ℕ) → Terminals → Terminals
save_screen i t =
    let tty = t.tty_table i in
    set_tty i (record tty { console_buffer = console_copy_to tty.console_buffer t.screen }) t

-- One round of the loop of `init_tty`.
unfoldable pub init_round : (i : ℕ) → Terminals → Option Terminals
unfolding fresh_tty console_clear ui_welcome tty_print_header console_copy_to
init_round i t =
    ui_welcome (write_clear (set_tty i fresh_tty t))
    >> tty_print_header i
    >> (λ t. some (save_screen i t))

-- The rounds for the terminals below `n`, from the last down.
unfoldable pub init_rounds : (n : ℕ) → Terminals → Option Terminals
unfolding init_round
init_rounds zero t = some t
init_rounds (suc i) t = init_round i t >> init_rounds i

unfoldable pub init_tty : Terminals → Option Terminals
unfolding init_rounds tty_switch
init_tty t = init_rounds 3 t >> (λ t. some (tty_switch 0 (record t { current_tty = 0 })))

-- The loop of `tty_start`: rounds of the terminal that is shown.
unfoldable pub tty_rounds : Handlers → (n : ℕ) → Terminals → Option Terminals
unfolding tty_print
tty_rounds handlers zero t = some t
tty_rounds handlers (suc n) t = tty_print handlers t.current_tty t >> tty_rounds handlers n
