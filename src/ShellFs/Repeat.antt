-- ===== src/ShellFs/Repeat.antt =====
-- `mkdir` and `mkfile` of shell/shell_fs.c with a listing that is up to date.
use krven_os.Common.{
  ℕ, ◌+◌, ◌<◌, ◌≡◌, ◌∙◌, ap, refl, arith, true, false, Option, none, some, List, ◌==◌, length,
}
use krven_os.Strings.{memcpy, IsString, IsText}
use krven_os.Strings.Compare.{strlen-IsString, string_text-IsString}
use krven_os.Strings.Join.{memcpy-IsString_copy}
use krven_os.Fs.Make.{mk_file, mk_dir}
use krven_os.Fs.Request.{
  FsRequest, msg_fs_mkdir, msg_fs_mkfile, Locals, fs_request, opt_mk_dir, opt_mk_file, with_buffer,
}
use krven_os.Tty.{Terminals}
use krven_os.ShellFs.{
  second_param, update_current_dir, is_free, with_terminals, check_updated, check_name_repeat,
  say_repeat, requested, make, put_name, make_named, run_mkdir, run_mkfile,
}
use krven_os.ShellFs.Entries.{Listed, Lists, first_named, number_of, find_entry-Lists}

-- The one value if the name is found, the other if not.
abbrev pub if_found {ℓ} : {A : Type ℓ} → Option (ℕ × Listed) → A → A → A
if_found (some e) x y = x
if_found none x y = y

-- The terminals with the name in the buffer.
abbrev pub with_name : (buf : ℕ → ℕ) → Terminals → Terminals
with_name buf t = record t { shell_fsbuf = buf }

is_free-number_of :
    (r : Option (ℕ × Listed)) → is_free (some (number_of r)) ≡ some (if_found r false true)
unfolding is_free
is_free-number_of none = refl
is_free-number_of (some e) = refl

make-if_found :
    (locals : Locals) (msg : FsRequest) (num : ℕ) (r : Option (ℕ × Listed)) (t : Terminals)
    → make locals msg num (some (if_found r false true, t))
      ≡ if_found r (say_repeat t) (requested num (fs_request locals msg t.shell_fsbuf t.fs) t)
unfolding make
make-if_found locals msg num none t = refl
make-if_found locals msg num (some e) t = refl

check_name_repeat-Lists :
    (locals : Locals) (num : ℕ) (es : List Listed) (w : List ℕ) (t : Terminals)
    → (t.tty_table num).update_flag ≡ 0
    → Lists 32 0 (t.tty_table num).fs_buf es
    → IsString t.shell_fsbuf 0 w
    → IsText w
    → length w < 24
    → check_name_repeat locals num t ≡ some (if_found (first_named 0 es w) false true, t)
unfolding check_name_repeat update_current_dir check_updated
check_name_repeat-Lists locals num es w t flag lists s text short =
    let fresh : ((t.tty_table num).update_flag == 0) ≡ true = ground arith in
    rw fresh (
      ap (λ r. with_terminals t (is_free r))
        (find_entry-Lists 32 0 (t.tty_table num).fs_buf t.shell_fsbuf es w lists s text
          (omega arith))
      ∙ ap (with_terminals t) (is_free-number_of (first_named 0 es w)))

make_named-Lists :
    (locals : Locals) (msg : FsRequest) (params : ℕ → ℕ) (num : ℕ) (es : List Listed)
    → (w : List ℕ) (t : Terminals) → (t.tty_table num).update_flag ≡ 0
    → Lists 32 0 (t.tty_table num).fs_buf es
    → IsString (second_param params) 0 w
    → IsText w
    → length w < 24
    → let buf = memcpy (length w + 1) 0 0 t.shell_fsbuf (second_param params) in
      IsString buf 0 w
      × (make_named locals msg params num t
          ≡ if_found
              (first_named 0 es w)
              (say_repeat (with_name buf t))
              (requested num (fs_request locals msg buf t.fs) (with_name buf t)))
unfolding make_named put_name
make_named-Lists locals msg params num es w t flag lists s text short =
    let buf = memcpy (length w + 1) 0 0 t.shell_fsbuf (second_param params) in
    let named = memcpy-IsString_copy (length w) t.shell_fsbuf (second_param params) w refl s in
    (
      named,
      rw (strlen-IsString 1024 (second_param params) w s text (omega arith)) (
          ap (make locals msg num)
            (check_name_repeat-Lists locals num es w (with_name buf t) flag lists named text short)
          ∙ make-if_found locals msg num (first_named 0 es w) (with_name buf t)),
    )

pub make-Lists :
    (locals : Locals) (params : ℕ → ℕ) (num : ℕ) (es : List Listed) (w : List ℕ) (t : Terminals)
    → (t.tty_table num).update_flag ≡ 0
    → Lists 32 0 (t.tty_table num).fs_buf es
    → IsString (second_param params) 0 w
    → IsText w
    → length w < 24
    → let dir = (t.tty_table num).current_dir_inode_id in
      (buf : ℕ → ℕ) × IsString buf 0 w
      × (run_mkdir locals params num t
          ≡ if_found (first_named 0 es w) (say_repeat (with_name buf t)) (
              requested num
                (with_buffer buf (mk_dir w 0 dir locals.junk locals.old t.fs))
                (with_name buf t)))
      × (run_mkfile locals params num t
          ≡ if_found (first_named 0 es w) (say_repeat (with_name buf t)) (
              requested num
                (with_buffer buf (mk_file w 512 0 dir locals.junk locals.old t.fs))
                (with_name buf t)))
unfolding run_mkdir run_mkfile fs_request opt_mk_dir opt_mk_file
make-Lists locals params num es w t flag lists s text short =
    let dir = (t.tty_table num).current_dir_inode_id in
    let buf = memcpy (length w + 1) 0 0 t.shell_fsbuf (second_param params) in
    let (named, made) =
      make_named-Lists locals (msg_fs_mkdir dir 0) params num es w t flag lists s text short in
    let (named', filed) =
      make_named-Lists locals (msg_fs_mkfile dir 0 512) params num es w t flag lists s text short in
    let read = string_text-IsString 24 0 buf w named text short in
    (
      buf,
      named,
      made
          ∙ ap
              (λ r. if_found (first_named 0 es w) (say_repeat (with_name buf t)) (
                requested num (with_buffer buf (opt_mk_dir r dir 0 locals t.fs)) (with_name buf t)))
              read,
      filed
          ∙ ap
              (λ r. if_found (first_named 0 es w) (say_repeat (with_name buf t)) (
                requested num (with_buffer buf (opt_mk_file r dir 0 512 locals t.fs))
                  (with_name buf t)))
              read,
    )
