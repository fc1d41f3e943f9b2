-- ===== src/ShellFs/Safe.antt =====
-- With the commands of shell/shell_fs.c the terminals of tty/tty.c stay in range.
use mathlib.Core.Path.{subst}
use krven_os.Common.{
  ℕ, zero, suc, ◌+◌, ◌-◌, ◌%◌, ◌<◌, ◌≡◌, ◌∙◌, sym, inl, arith, Option, none, some, List, [], ◌∷◌,
  ◌==◌,
}
use krven_os.Strings.{strlen, strcmp, string_text}
use krven_os.Shell.{
  shell_show_task, shell_ls, shell_clear, shell_mkfile, shell_mkdir, shell_cd, shell_pmm_used,
  shell_show_ldt, shell_pmm_alloc, shell_fork, shell_show_proc, shell_kill_proc, literal,
}
use krven_os.Fs.Request.{msg_fs_mkdir, msg_fs_mkfile, Locals}
use krven_os.Tty.{Terminals, printf, printc, Handlers, tty_write, tty_print}
use krven_os.Tty.Start.{init_tty, tty_rounds}
use krven_os.Keyboard.{Keyboard, press}
use krven_os.Keyboard.Typable.{typed_by, press-AreTypable}
use krven_os.Tty.Ready.{init_tty-IsReady}
use krven_os.Tty.Ranges.{
  InRange, StaysInRange, KeepRange, StaysInRange-then, StaysInRange-if, set_tty-InRange,
  printf-StaysInRange, printc-StaysInRange, tty_write-InRange, tty_print-StaysInRange,
}
use krven_os.ShellFs.{
  second_param, entry_inode, entry_name, entry_type, update_current_dir, on_match, find_entry,
  run_mkdir, run_mkfile, print_name, spaces, pad_name, end_row, print_entries, print_dir_entries,
  run_ls,
}
use krven_os.ShellFs.Ranges.{
  update_current_dir-StaysInRange, printc_string-StaysInRange, make_named-StaysInRange,
}
use krven_os.ShellFs.Folder.{
  parent_path, child_path, enter, stay, cd_folder, cd_refused, cd_found, run_cd, fs_handlers,
}

print_name-StaysInRange :
    (type : ℕ) (name : Option (List ℕ)) (t : Terminals)
    → InRange t
    → StaysInRange (print_name type name t)
unfolding print_name
print_name-StaysInRange type name t ranged =
    StaysInRange-if (type == 1) _ _ (printc_string-StaysInRange 0 3 name t ranged) (
      StaysInRange-if (type == 2) _ (some t) (printc_string-StaysInRange 0 14 name t ranged) ranged)

spaces-StaysInRange : (n : ℕ) (t : Terminals) → InRange t → StaysInRange (spaces n t)
unfolding spaces
spaces-StaysInRange zero t ranged = ranged
spaces-StaysInRange (suc n) t ranged =
    StaysInRange-then (printf (32 ∷ []) [] t) (spaces n) (printf-StaysInRange (32 ∷ []) [] t ranged)
      (spaces-StaysInRange n)

pad_name-StaysInRange : (l : Option ℕ) (t : Terminals) → InRange t → StaysInRange (pad_name l t)
pad_name-StaysInRange none t ranged = omega arith
pad_name-StaysInRange (some l) t ranged = spaces-StaysInRange (15 - l) t ranged

end_row-StaysInRange : (i : ℕ) (t : Terminals) → InRange t → StaysInRange (end_row i t)
end_row-StaysInRange i t ranged =
    StaysInRange-if ((i + 1) % 5 == 0) _ (some t) (printf-StaysInRange (10 ∷ []) [] t ranged) ranged

print_entries-StaysInRange :
    (n i : ℕ) (fs_buf : ℕ → ℕ) (t : Terminals)
    → InRange t
    → StaysInRange (print_entries n i fs_buf t)
unfolding print_entries
print_entries-StaysInRange zero i fs_buf t ranged = ranged
print_entries-StaysInRange (suc n) i fs_buf t ranged =
    StaysInRange-if (entry_inode fs_buf i == 0) (some t) _ ranged (
      StaysInRange-then _ (print_entries n (suc i) fs_buf)
        (StaysInRange-then _ (end_row i)
          (StaysInRange-then _ (pad_name (strlen 1024 (entry_name fs_buf i)))
            (print_name-StaysInRange (entry_type fs_buf i)
              (string_text 1024 0 (entry_name fs_buf i)) t ranged)
            (pad_name-StaysInRange (strlen 1024 (entry_name fs_buf i))))
          (end_row-StaysInRange i))
        (print_entries-StaysInRange n (suc i) fs_buf))

print_dir_entries-StaysInRange :
    (fs_buf : ℕ → ℕ) (t : Terminals) → InRange t → StaysInRange (print_dir_entries fs_buf t)
unfolding print_dir_entries
print_dir_entries-StaysInRange fs_buf t ranged =
    StaysInRange-then (print_entries 32 0 fs_buf t) (printf (10 ∷ []) [])
      (print_entries-StaysInRange 32 0 fs_buf t ranged) (printf-StaysInRange (10 ∷ []) [])

on_match-StaysInRange :
    (r : Option ℕ) (this other : Option Terminals)
    → StaysInRange this
    → StaysInRange other
    → StaysInRange (on_match r this other)
on_match-StaysInRange none this other first second = omega arith
on_match-StaysInRange (some r) this other first second =
    StaysInRange-if (r == 0) this other first second

enter-StaysInRange :
    (num inode_id : ℕ) (dir_name : Option (ℕ → ℕ)) (t : Terminals)
    → num < 3
    → InRange t
    → StaysInRange (enter num inode_id dir_name t)
unfolding enter
enter-StaysInRange num inode_id none t below ranged = omega arith
enter-StaysInRange num inode_id (some dir_name) t below ranged =
    set_tty-InRange num
      (record (t.tty_table num) {
        dir_name = dir_name;
        current_dir_inode_id = inode_id;
        update_flag = 1;
      })
      t (ranged.1 num below) ranged

cd_refused-StaysInRange :
    (why : List ℕ) (name : ℕ → ℕ) (t : Terminals) → InRange t → StaysInRange (cd_refused why name t)
unfolding cd_refused
cd_refused-StaysInRange why name t ranged =
    StaysInRange-then _ (printc 0 6 why [])
      (printc_string-StaysInRange 0 6 (string_text 1024 0 name) t ranged)
      (printc-StaysInRange 0 6 why [])

cd_found-StaysInRange :
    (num : ℕ) (name : ℕ → ℕ) (r : Option (Option ℕ)) (t : Terminals)
    → num < 3
    → InRange t
    → StaysInRange (cd_found num name r t)
unfolding cd_found cd_folder
cd_found-StaysInRange num name none t below ranged = omega arith
cd_found-StaysInRange num name (some none) t below ranged = cd_refused-StaysInRange _ name t ranged
cd_found-StaysInRange num name (some (some i)) t below ranged =
    let fs_buf = (t.tty_table num).fs_buf in
    let dir_name = (t.tty_table num).dir_name in
    let id = entry_inode fs_buf i in
    let child = enter num id (child_path dir_name name) t in
    let other =
      on_match (strcmp 1024 (entry_name fs_buf i) (literal (46 ∷ []))) (stay num t) child in
    StaysInRange-if (entry_type fs_buf i == 2) _ _
      (on_match-StaysInRange (strcmp 1024 (entry_name fs_buf i) (literal (46 ∷ 46 ∷ []))) _ other
        (enter-StaysInRange num id (parent_path dir_name (strlen 128 dir_name)) t below ranged)
        (on_match-StaysInRange (strcmp 1024 (entry_name fs_buf i) (literal (46 ∷ []))) (stay num t)
          child
          (set_tty-InRange num (record (t.tty_table num) { update_flag = 1 }) t (ranged.1 num below)
            ranged)
          (enter-StaysInRange num id (child_path dir_name name) t below ranged)))
      (cd_refused-StaysInRange _ name t ranged)

run_cd-StaysInRange :
    (locals : Locals) (params : ℕ → ℕ) (num : ℕ) (t : Terminals)
    → num < 3
    → InRange t
    → StaysInRange (run_cd locals params num t)
unfolding run_cd
run_cd-StaysInRange locals params num t below ranged =
    StaysInRange-then (update_current_dir locals num t)
      (λ t.
        cd_found num (second_param params)
          (find_entry 32 0 (t.tty_table num).fs_buf (second_param params)) t)
      (update_current_dir-StaysInRange locals num below t ranged)
      (λ u h.
        cd_found-StaysInRange num (second_param params)
          (find_entry 32 0 (u.tty_table num).fs_buf (second_param params)) u below h)

run_ls-StaysInRange :
    (locals : Locals) (num : ℕ) (t : Terminals)
    → num < 3
    → InRange t
    → StaysInRange (run_ls locals num t)
unfolding run_ls
run_ls-StaysInRange locals num t below ranged =
    StaysInRange-then (update_current_dir locals num t)
      (λ t. print_dir_entries (t.tty_table num).fs_buf t)
      (update_current_dir-StaysInRange locals num below t ranged)
      (λ u h. print_dir_entries-StaysInRange (u.tty_table num).fs_buf u h)

fs_handlers-KeepRange :
    (locals : Locals) (others : Handlers) → KeepRange others → KeepRange (fs_handlers locals others)
unfolding fs_handlers run_mkdir run_mkfile
fs_handlers-KeepRange locals others keep shell_mkdir params num t below ranged =
    make_named-StaysInRange locals num below (msg_fs_mkdir (t.tty_table num).current_dir_inode_id 0)
      params t ranged
fs_handlers-KeepRange locals others keep shell_mkfile params num t below ranged =
    make_named-StaysInRange locals num below
      (msg_fs_mkfile (t.tty_table num).current_dir_inode_id 0 512) params t ranged
fs_handlers-KeepRange locals others keep shell_ls params num t below ranged =
    run_ls-StaysInRange locals num t below ranged
fs_handlers-KeepRange locals others keep shell_cd params num t below ranged =
    run_cd-StaysInRange locals params num t below ranged
fs_handlers-KeepRange locals others keep shell_show_task params num t below ranged =
    keep shell_show_task params num t below ranged
fs_handlers-KeepRange locals others keep shell_clear params num t below ranged =
    keep shell_clear params num t below ranged
fs_handlers-KeepRange locals others keep shell_pmm_used params num t below ranged =
    keep shell_pmm_used params num t below ranged
fs_handlers-KeepRange locals others keep shell_show_ldt params num t below ranged =
    keep shell_show_ldt params num t below ranged
fs_handlers-KeepRange locals others keep shell_pmm_alloc params num t below ranged =
    keep shell_pmm_alloc params num t below ranged
fs_handlers-KeepRange locals others keep shell_fork params num t below ranged =
    keep shell_fork params num t below ranged
fs_handlers-KeepRange locals others keep shell_show_proc params num t below ranged =
    keep shell_show_proc params num t below ranged
fs_handlers-KeepRange locals others keep shell_kill_proc params num t below ranged =
    keep shell_kill_proc params num t below ranged

-- The states of the terminals from `init_tty` on: a key sends its characters to the terminal that is shown, and
-- `tty_start` makes its rounds.
pub data Reached (locals : Locals) (others : Handlers) : Terminals → Type 0 where
  started : (t t' : Terminals) → init_tty t ≡ some t' → Reached locals others t'
  pressed :
      (byte1 : ℕ) (kb : Keyboard) (t : Terminals)
      → Reached locals others t
      → Reached locals others (tty_write t.current_tty (typed_by (press byte1 kb).1) t)
  printed :
      (n : ℕ) (t t' : Terminals)
      → Reached locals others t
      → tty_rounds (fs_handlers locals others) n t ≡ some t'
      → Reached locals others t'

ready_start : (t t' : Terminals) → init_tty t ≡ some t' → InRange t'
ready_start t t' e =
    let (u, done, shown, ready) = init_tty-IsReady t in
    let ranged : InRange u = (
      omega arith,
      λ i h.
          let ((point, size, room, held, pos, more, line), root, inode, flag, clear) = ready i h in
          (omega arith, omega arith, omega arith, λ j. inl (omega (arith, clear j))),
    ) in
    subst StaysInRange (sym done ∙ e) ranged

tty_rounds-StaysInRange :
    (locals : Locals) (others : Handlers) (n : ℕ) (t : Terminals)
    → KeepRange others
    → InRange t
    → StaysInRange (tty_rounds (fs_handlers locals others) n t)
unfolding tty_rounds
tty_rounds-StaysInRange locals others zero t keep ranged = ranged
tty_rounds-StaysInRange locals others (suc n) t keep ranged =
    let handlers = fs_handlers locals others in
    StaysInRange-then (tty_print handlers t.current_tty t) (tty_rounds handlers n)
      (tty_print-StaysInRange handlers t.current_tty t (fs_handlers-KeepRange locals others keep)
        (ranged.0) ranged)
      (λ u h. tty_rounds-StaysInRange locals others n u keep h)

-- `tty_switch` tests nothing, and a byte below 253 that is no character would lead it out of the table of three
-- terminals. From `init_tty` on, with any keys pressed and any rounds of the terminal that is shown, one of the
-- three is shown, no such byte is in a buffer, and the counts of each terminal stay bytes; so it is with the
-- `mkdir`, `mkfile`, `ls` and `cd` of shell/shell_fs.c, if the other commands keep it so.
pub Reached-InRange :
    (locals : Locals) (others : Handlers) (t : Terminals)
    → KeepRange others
    → Reached locals others t
    → InRange t
Reached-InRange locals others t keep (started t0 t' e) = ready_start t0 t' e
Reached-InRange locals others t keep (pressed byte1 kb before reached) =
    let ranged = Reached-InRange locals others before keep reached in
    tty_write-InRange before.current_tty (typed_by (press byte1 kb).1) before ranged.0
      (press-AreTypable byte1 kb) ranged
Reached-InRange locals others t keep (printed n before t' reached e) = subst StaysInRange e (
    tty_rounds-StaysInRange locals others n before keep
      (Reached-InRange locals others before keep reached))
