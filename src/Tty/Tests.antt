-- ===== src/Tty/Tests.antt =====
-- Runs of tty/tty.c at concrete inputs.
use krven_os.Common.{ℕ, zero, suc, ◌<◌, ◌≡◌, refl, arith, some, List, [], ◌∷◌, length}
use krven_os.Format.{replicate}
use krven_os.Fs.{Fs}
use krven_os.Shell.{shell_ls, init_shell}
use krven_os.Shell.Lookup.{static_shell}
use krven_os.Tty.{Tty, Terminals, Handlers, tty_print, tty_prints, tty_write}
use krven_os.Tty.Edit.{edited, IsTyped, Typing}
use krven_os.Tty.Stuck.{tty_print-stuck}
use krven_os.Tty.Start.{init_tty}
use krven_os.Tty.Ready.{IsReady, init_tty-IsReady}

abbrev zero_tty : Tty
zero_tty = record {
  buf_size = 0;
  buf = λ i. 0;
  point = 0;
  pos = 0;
  cmd_buf = λ i. 0;
  console_buffer = record { cells = λ i. 0; saved_x = 0; saved_y = 0 };
  update_flag = 1;
  current_dir_inode_id = 1;
  dir_name = λ i. 0;
  fs_buf = λ i. 0;
}

abbrev zero_fs : Fs
zero_fs = record {
  disk = λ i j. 0;
  fs_root = 0;
  super_block = record {
    magic = 0;
    inode_num = 0;
    inode_sects = 0;
    sect_num = 0;
    imap_sects = 0;
    smap_sects = 0;
    first_data_sect = 0;
    root_inode = 0;
  };
}

abbrev terminals : Terminals
terminals = record {
  tty_table = λ i. zero_tty;
  current_tty = 0;
  screen = record {
    video_memory = λ i. 0;
    cursor_x = 0;
    cursor_y = 0;
    console_cursor_x = 0;
    console_cursor_y = 0;
  };
  shell = init_shell (static_shell shell_ls);
  shell_fsbuf = λ i. 0;
  fs = zero_fs;
}

-- Commands that change nothing.
abbrev handlers : Handlers
handlers h params tty t = some t

idle : Typing 0 [] [] zero_tty
idle = (refl, refl, omega arith, refl, refl, omega arith, refl)

-- "lt", a backspace, "s"
abbrev typed : List ℕ
typed = 108 ∷ 116 ∷ 8 ∷ 115 ∷ []

typed-IsTyped : IsTyped typed
typed-IsTyped = (
  omega arith,
  omega arith,
  omega arith,
  (
    omega arith,
    omega arith,
    omega arith,
    (omega arith, omega arith, omega arith, (omega arith, omega arith, omega arith, omega arith)),
  ),
)

line_typed : edited [] typed ≡ 108 ∷ 115 ∷ []
line_typed = refl

replicate-IsTyped : (n : ℕ) → IsTyped (replicate n 97)
replicate-IsTyped zero = omega arith
replicate-IsTyped (suc n) = (omega arith, omega arith, omega arith, replicate-IsTyped n)

length-replicate : (n : ℕ) → length (replicate n 97) ≡ n
length-replicate zero = refl
length-replicate (suc n) = omega (arith, length-replicate n)

-- 255 times "a", then a line feed
tty_print-stuck_example :
    (t1 : Terminals) × (tty_prints handlers
        (length (replicate 255 97))
        0
        (tty_write 0 (replicate 255 97) terminals)
      ≡ some t1)
    × (tty_print handlers 0 (tty_write 0 (10 ∷ []) t1) ≡ some (tty_write 0 (10 ∷ []) t1))
tty_print-stuck_example =
    tty_print-stuck handlers 0 (replicate 255 97) (10 ∷ []) terminals idle (replicate-IsTyped 255)
      (length-replicate 255)

init_tty-IsReady_example :
    (t' : Terminals) × (init_tty terminals ≡ some t')
    × (t'.current_tty ≡ 0)
    × ((j : ℕ) → j < 3 → IsReady (t'.tty_table j))
init_tty-IsReady_example = init_tty-IsReady terminals
