-- ===== src/ShellFs.antt =====
-- The commands of shell/shell_fs.c: `mkdir`, `mkfile`, `ls` and `cd`, with the listing of the directory that
-- a terminal keeps. A request goes to the file-system task through `shell_fsbuf`, one buffer for all
-- terminals. `none` is a string that does not end in its first 1024 bytes, a directory name longer
-- than its array, a fault of the file-system task, or text that cannot be made.
pub mod Entries
pub mod Repeat
pub mod Forget
pub mod Folder
pub mod Path
pub mod Change
pub mod Moves
pub mod Back
pub mod Ranges
pub mod Safe
pub mod Listing
pub mod Placed
pub mod Added
pub mod Made
pub mod MadeDir
pub mod Session
pub mod Journey
pub mod Typed
mod Tests
mod Runs
use krven_os.Common.{
  ℕ, zero, suc, ◌+◌, ◌-◌, ◌*◌, ◌%◌, Bool, true, false, Option, none, some, List, [], ◌∷◌, ◌==◌,
  if◌then◌else◌, update,
}
use krven_os.Strings.{memcpy, strlen, strcmp, strcat, string_text}
use krven_os.Format.Template.{Arg, str}
use krven_os.Shell.{ShellHandler, shell_ls, shell_cd, shell_mkdir, shell_mkfile, literal}
use krven_os.Fs.{Fs}
use krven_os.Fs.Inode.{word_at}
use krven_os.Fs.Request.{FsRequest, msg_fs_dir, msg_fs_mkdir, msg_fs_mkfile, Locals, fs_request}
use krven_os.Tty.{Tty, Terminals, set_tty, printf, printc, ◌>>◌, Handlers}

-- `name[1]` of the parameters, of which each has 128 bytes.
abbrev pub second_param : (params : ℕ → ℕ) → ℕ → ℕ
second_param params j = params (128 + j)

-- The fields of entry `i` of a listing.
abbrev pub entry_inode : (fs_buf : ℕ → ℕ) (i : ℕ) → ℕ
entry_inode fs_buf i = word_at fs_buf (32 * i)

abbrev pub entry_name : (fs_buf : ℕ → ℕ) (i : ℕ) → ℕ → ℕ
entry_name fs_buf i j = fs_buf (32 * i + 4 + j)

abbrev pub entry_type : (fs_buf : ℕ → ℕ) (i : ℕ) → ℕ
entry_type fs_buf i = word_at fs_buf (32 * i + 28)

-- The listing is put into `shell_fsbuf` and from there into `fs_buf`.
unfoldable pub keep_listing : (num : ℕ) → Option ((ℕ → ℕ) × Fs) → Terminals → Option Terminals
keep_listing num none t = none
keep_listing num (some (buf, fs)) t =
    let tty = t.tty_table num in
    some (
      set_tty num (record tty { update_flag = 0; fs_buf = memcpy 2048 0 0 tty.fs_buf buf })
        (record t { shell_fsbuf = buf; fs = fs }))

unfoldable pub update_current_dir : Locals → (num : ℕ) → Terminals → Option Terminals
unfolding keep_listing
update_current_dir locals num t =
    let tty = t.tty_table num in
    if tty.update_flag == 0
    then some t
    else keep_listing num
        (fs_request locals (msg_fs_dir tty.current_dir_inode_id) t.shell_fsbuf t.fs) t

-- What a comparison of names decides: another name, or this one.
abbrev pub on_match {ℓ} : {A : Type ℓ} → Option ℕ → (this other : Option A) → Option A
on_match none this other = none
on_match (some r) this other = if r == 0 then this else other

-- The search of `check_name_repeat` and of `shell_cd`: the entry of this name among the `n` from number `i`
-- on, if there is one; the first entry without an inode ends the search.
unfoldable pub find_entry : (n i : ℕ) (fs_buf name : ℕ → ℕ) → Option (Option ℕ)
find_entry zero i fs_buf name = some none
find_entry (suc n) i fs_buf name =
    let rest = find_entry n (suc i) fs_buf name in
    let looked = on_match (strcmp 1024 (entry_name fs_buf i) name) (some (some i)) rest in
    if entry_inode fs_buf i == 0 then some none else looked

abbrev pub max_dir_entries_num : ℕ
max_dir_entries_num = 32

-- The result of `check_name_repeat`: `true` for 1, a name that is free.
unfoldable pub is_free : Option (Option ℕ) → Option Bool
is_free none = none
is_free (some none) = some true
is_free (some (some i)) = some false

abbrev pub with_terminals : Terminals → Option Bool → Option (Bool × Terminals)
with_terminals t none = none
with_terminals t (some free) = some (free, t)

-- The name is read after the update: the pointer that both callers give is that of `shell_fsbuf`.
unfoldable pub check_updated : (num : ℕ) → Option Terminals → Option (Bool × Terminals)
unfolding is_free
check_updated num none = none
check_updated num (some t) =
    with_terminals t
      (is_free (find_entry max_dir_entries_num 0 (t.tty_table num).fs_buf t.shell_fsbuf))

unfoldable pub check_name_repeat : Locals → (num : ℕ) → Terminals → Option (Bool × Terminals)
unfolding check_updated
check_name_repeat locals num t = check_updated num (update_current_dir locals num t)

-- A text, if it can be read, printed with a format.
abbrev pub printf_string : (format : List ℕ) → Option (List ℕ) → Terminals → Option Terminals
printf_string format none t = none
printf_string format (some text) t = printf format (str text ∷ []) t

abbrev pub printc_string : (bg font : ℕ) → Option (List ℕ) → Terminals → Option Terminals
printc_string bg font none t = none
printc_string bg font (some text) t = printc bg font (37 ∷ 115 ∷ []) (str text ∷ []) t

-- "Tha name is repeat : %s" and a line feed.
unfoldable pub say_repeat : Terminals → Option Terminals
say_repeat t =
    printf_string
      (84 ∷ 104 ∷ 97 ∷ 32 ∷ 110 ∷ 97 ∷ 109 ∷ 101 ∷ 32 ∷ 105 ∷ 115 ∷ 32 ∷ 114 ∷ 101 ∷ 112 ∷ 101 ∷ 97
        ∷ 116 ∷ 32 ∷ 58 ∷ 32 ∷ 37 ∷ 115 ∷ [])
      (string_text 1024 0 t.shell_fsbuf) t
    >> printf (10 ∷ []) []

-- After the answer of the file-system task the listing is out of date.
unfoldable pub requested : (num : ℕ) → Option ((ℕ → ℕ) × Fs) → Terminals → Option Terminals
requested num none t = none
requested num (some (buf, fs)) t = some (
    set_tty num (record (t.tty_table num) { update_flag = 1 })
      (record t { shell_fsbuf = buf; fs = fs }))

-- The end of `shell_mkdir` and `shell_mkfile`: the request is sent for a free name only.
unfoldable pub make : Locals → FsRequest → (num : ℕ) → Option (Bool × Terminals) → Option Terminals
unfolding say_repeat requested
make locals msg num none = none
make locals msg num (some (false, t)) = say_repeat t
make locals msg num (some (true, t)) = requested num (fs_request locals msg t.shell_fsbuf t.fs) t

-- `memcpy(shell_fsbuf, name[1], strlen(name[1]) + 1)`
unfoldable pub put_name : Option ℕ → (name : ℕ → ℕ) → Terminals → Option Terminals
put_name none name t = none
put_name (some l) name t = some (record t { shell_fsbuf = memcpy (l + 1) 0 0 t.shell_fsbuf name })

-- The body that `shell_mkdir` and `shell_mkfile` share.
unfoldable pub make_named :
    Locals → FsRequest → (params : ℕ → ℕ) (num : ℕ) → Terminals → Option Terminals
unfolding put_name make check_name_repeat
make_named locals msg params num t =
    put_name (strlen 1024 (second_param params)) (second_param params) t
    >> (λ t. make locals msg num (check_name_repeat locals num t))

unfoldable pub run_mkdir : Locals → (params : ℕ → ℕ) (num : ℕ) → Terminals → Option Terminals
unfolding make_named
run_mkdir locals params num t =
    make_named locals (msg_fs_mkdir (t.tty_table num).current_dir_inode_id 0) params num t

unfoldable pub run_mkfile : Locals → (params : ℕ → ℕ) (num : ℕ) → Terminals → Option Terminals
unfolding make_named
run_mkfile locals params num t =
    make_named locals (msg_fs_mkfile (t.tty_table num).current_dir_inode_id 0 512) params num t

-- An entry in its colour: a file, a folder, or nothing.
unfoldable pub print_name : (type : ℕ) → Option (List ℕ) → Terminals → Option Terminals
unfolding printc
print_name type name t =
    if type == 1
    then printc_string 0 3 name t
    else if type == 2
    then printc_string 0 14 name t
    else some t

unfoldable pub spaces : ℕ → Terminals → Option Terminals
unfolding printf
spaces zero t = some t
spaces (suc n) t = printf (32 ∷ []) [] t >> spaces n

abbrev pub pad_name : Option ℕ → Terminals → Option Terminals
pad_name none t = none
pad_name (some l) t = spaces (15 - l) t

abbrev pub end_row : (i : ℕ) → Terminals → Option Terminals
end_row i t = if (i + 1) % 5 == 0 then printf (10 ∷ []) [] t else some t

-- The rounds left of `print_dir_entries`.
unfoldable pub print_entries : (n i : ℕ) (fs_buf : ℕ → ℕ) → Terminals → Option Terminals
unfolding print_name spaces printf
print_entries zero i fs_buf t = some t
print_entries (suc n) i fs_buf t =
    let round =
      print_name (entry_type fs_buf i) (string_text 1024 0 (entry_name fs_buf i)) t
      >> pad_name (strlen 1024 (entry_name fs_buf i))
      >> end_row i
      >> print_entries n (suc i) fs_buf in
    if entry_inode fs_buf i == 0 then some t else round

unfoldable pub print_dir_entries : (dir_entries : ℕ → ℕ) → Terminals → Option Terminals
unfolding print_entries
print_dir_entries dir_entries t =
    print_entries max_dir_entries_num 0 dir_entries t >> printf (10 ∷ []) []

unfoldable pub run_ls : Locals → (num : ℕ) → Terminals → Option Terminals
unfolding print_dir_entries update_current_dir
run_ls locals num t =
    update_current_dir locals num t >> (λ t. print_dir_entries (t.tty_table num).fs_buf t)
