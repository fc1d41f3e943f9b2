-- ===== src/ShellFs/Ranges.antt =====
-- The commands of shell/shell_fs.c keep the ranges of the terminals.
use krven_os.Common.{ℕ, ◌<◌, arith, Bool, true, false, Option, none, some, List, [], ◌∷◌, ◌==◌}
use krven_os.Strings.{memcpy, strlen, string_text}
use krven_os.Format.Template.{str}
use krven_os.Fs.{Fs}
use krven_os.Fs.Request.{FsRequest, msg_fs_dir, Locals, fs_request}
use krven_os.Tty.{Terminals, printf}
use krven_os.Tty.Ranges.{
  InRange, StaysInRange, StaysInRange-then, StaysInRange-if, set_tty-InRange, printf-StaysInRange,
  printc-StaysInRange,
}
use krven_os.ShellFs.{
  second_param, keep_listing, update_current_dir, find_entry, is_free, with_terminals,
  check_updated, check_name_repeat, printf_string, printc_string, say_repeat, requested, make,
  put_name, make_named,
}

-- The result of a check of a name.
abbrev CheckInRange : Option (Bool × Terminals) → Type 0
CheckInRange none = 0 < 1
CheckInRange (some (free, t)) = InRange t

printf_string-StaysInRange :
    (format : List ℕ) (text : Option (List ℕ)) (t : Terminals)
    → InRange t
    → StaysInRange (printf_string format text t)
printf_string-StaysInRange format none t ranged = omega arith
printf_string-StaysInRange format (some text) t ranged =
    printf-StaysInRange format (str text ∷ []) t ranged

pub printc_string-StaysInRange :
    (bg font : ℕ) (text : Option (List ℕ)) (t : Terminals)
    → InRange t
    → StaysInRange (printc_string bg font text t)
printc_string-StaysInRange bg font none t ranged = omega arith
printc_string-StaysInRange bg font (some text) t ranged =
    printc-StaysInRange bg font (37 ∷ 115 ∷ []) (str text ∷ []) t ranged

say_repeat-StaysInRange : (t : Terminals) → InRange t → StaysInRange (say_repeat t)
unfolding say_repeat
say_repeat-StaysInRange t ranged =
    StaysInRange-then _ (printf (10 ∷ []) [])
      (printf_string-StaysInRange _ (string_text 1024 0 t.shell_fsbuf) t ranged)
      (λ u h. printf-StaysInRange (10 ∷ []) [] u h)

module _ (locals : Locals) (num : ℕ) (below : num < 3) where
  keep_listing-StaysInRange :
      (r : Option ((ℕ → ℕ) × Fs)) (t : Terminals) → InRange t → StaysInRange (keep_listing num r t)
  unfolding keep_listing
  keep_listing-StaysInRange none t ranged = omega arith
  keep_listing-StaysInRange (some (buf, fs)) t ranged =
      let tty = t.tty_table num in
      set_tty-InRange num (record tty { update_flag = 0; fs_buf = memcpy 2048 0 0 tty.fs_buf buf })
        (record t { shell_fsbuf = buf; fs = fs }) (ranged.1 num below) ranged

  pub update_current_dir-StaysInRange :
      (t : Terminals) → InRange t → StaysInRange (update_current_dir locals num t)
  unfolding update_current_dir
  update_current_dir-StaysInRange t ranged =
      let tty = t.tty_table num in
      StaysInRange-if (tty.update_flag == 0) (some t) _ ranged (
        keep_listing-StaysInRange
          (fs_request locals (msg_fs_dir tty.current_dir_inode_id) t.shell_fsbuf t.fs) t ranged)

  with_terminals-CheckInRange :
      (free : Option Bool) (t : Terminals) → InRange t → CheckInRange (with_terminals t free)
  with_terminals-CheckInRange none t ranged = omega arith
  with_terminals-CheckInRange (some free) t ranged = ranged

  check_updated-CheckInRange :
      (r : Option Terminals) → StaysInRange r → CheckInRange (check_updated num r)
  unfolding check_updated
  check_updated-CheckInRange none ranged = omega arith
  check_updated-CheckInRange (some t) ranged =
      with_terminals-CheckInRange (is_free (find_entry 32 0 (t.tty_table num).fs_buf t.shell_fsbuf))
        t ranged

  requested-StaysInRange :
      (r : Option ((ℕ → ℕ) × Fs)) (t : Terminals) → InRange t → StaysInRange (requested num r t)
  unfolding requested
  requested-StaysInRange none t ranged = omega arith
  requested-StaysInRange (some (buf, fs)) t ranged =
      set_tty-InRange num (record (t.tty_table num) { update_flag = 1 })
        (record t { shell_fsbuf = buf; fs = fs }) (ranged.1 num below) ranged

  make-StaysInRange :
      (msg : FsRequest) (checked : Option (Bool × Terminals))
      → CheckInRange checked
      → StaysInRange (make locals msg num checked)
  unfolding make
  make-StaysInRange msg none ranged = omega arith
  make-StaysInRange msg (some (false, t)) ranged = say_repeat-StaysInRange t ranged
  make-StaysInRange msg (some (true, t)) ranged =
      requested-StaysInRange (fs_request locals msg t.shell_fsbuf t.fs) t ranged

  put_name-StaysInRange :
      (l : Option ℕ) (name : ℕ → ℕ) (t : Terminals) → InRange t → StaysInRange (put_name l name t)
  unfolding put_name
  put_name-StaysInRange none name t ranged = omega arith
  put_name-StaysInRange (some l) name t ranged = ranged

  pub make_named-StaysInRange :
      (msg : FsRequest) (params : ℕ → ℕ) (t : Terminals)
      → InRange t
      → StaysInRange (make_named locals msg params num t)
  unfolding make_named check_name_repeat
  make_named-StaysInRange msg params t ranged =
      StaysInRange-then (put_name (strlen 1024 (second_param params)) (second_param params) t)
        (λ t. make locals msg num (check_name_repeat locals num t))
        (put_name-StaysInRange (strlen 1024 (second_param params)) (second_param params) t ranged)
        (λ u h. make-StaysInRange msg (check_name_repeat locals num u) (
          check_updated-CheckInRange (update_current_dir locals num u)
            (update_current_dir-StaysInRange u h)))
