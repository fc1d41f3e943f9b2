-- ===== src/ShellFs/Folder.antt =====
-- `shell_cd` of shell/shell_fs.c, and the four commands in the table of the shell.
use krven_os.Common.{
  ℕ, zero, suc, ◌-◌, Option, none, some, List, [], ◌∷◌, ◌==◌, if◌then◌else◌, update,
}
use krven_os.Strings.{strlen, strcmp, strcat, string_text}
use krven_os.Shell.{shell_ls, shell_cd, shell_mkdir, shell_mkfile, literal}
use krven_os.Fs.Request.{Locals}
use krven_os.Tty.{Terminals, set_tty, printc, ◌>>◌, Handlers}
use krven_os.ShellFs.{
  second_param, entry_inode, entry_name, entry_type, update_current_dir, on_match, find_entry,
  max_dir_entries_num, printc_string, run_mkdir, run_mkfile, run_ls,
}

-- The loop that ends a path behind its last "/" among the first `n` characters.
unfoldable pub up_loop : (n : ℕ) (dir_name : ℕ → ℕ) → ℕ → ℕ
up_loop zero dir_name = dir_name
up_loop (suc j) dir_name =
    let rest = up_loop j dir_name in if dir_name j == 47 then update dir_name (suc j) 0 else rest

-- The path of the parent, from the length of the path.
unfoldable pub parent_path : (dir_name : ℕ → ℕ) → Option ℕ → Option (ℕ → ℕ)
unfolding up_loop
parent_path dir_name none = none
parent_path dir_name (some l) = some (up_loop (l - 1) dir_name)

abbrev pub join_name : (name : ℕ → ℕ) → Option (ℕ → ℕ) → Option (ℕ → ℕ)
join_name name none = none
join_name name (some dir_name) = strcat 128 dir_name name

-- A path that ends in its 128 bytes.
abbrev pub in_array : Option (ℕ → ℕ) → Option (ℕ → ℕ)
in_array none = none
in_array (some dir_name) = elim (strlen 128 dir_name) [ none ↦ none | some l ↦ some dir_name ]

-- The path of a folder: the name and "/" behind the path.
unfoldable pub child_path : (dir_name name : ℕ → ℕ) → Option (ℕ → ℕ)
unfolding strcat strlen
child_path dir_name name = in_array (join_name (literal (47 ∷ [])) (join_name name (some dir_name)))

-- The terminal goes to a directory.
unfoldable pub enter : (num inode_id : ℕ) (dir_name : Option (ℕ → ℕ)) → Terminals → Option Terminals
enter num inode_id none t = none
enter num inode_id (some dir_name) t = some (
    set_tty num
      (record (t.tty_table num) {
        dir_name = dir_name;
        current_dir_inode_id = inode_id;
        update_flag = 1;
      })
      t)

abbrev pub stay : (num : ℕ) → Terminals → Option Terminals
stay num t = some (set_tty num (record (t.tty_table num) { update_flag = 1 }) t)

-- A folder: "..", "." or another.
unfoldable pub cd_folder : (num inode_id : ℕ) (entry name : ℕ → ℕ) → Terminals → Option Terminals
unfolding enter parent_path child_path
cd_folder num inode_id entry name t =
    let dir_name = (t.tty_table num).dir_name in
    on_match (strcmp 1024 entry (literal (46 ∷ 46 ∷ [])))
      (enter num inode_id (parent_path dir_name (strlen 128 dir_name)) t)
      (on_match (strcmp 1024 entry (literal (46 ∷ []))) (stay num t)
        (enter num inode_id (child_path dir_name name) t))

-- The name that is not a folder's, and why.
unfoldable pub cd_refused : (why : List ℕ) (name : ℕ → ℕ) → Terminals → Option Terminals
cd_refused why name t = printc_string 0 6 (string_text 1024 0 name) t >> printc 0 6 why []

abbrev pub is_a_file : List ℕ
is_a_file = (32 ∷ 105 ∷ 115 ∷ 32 ∷ 97 ∷ 32 ∷ 102 ∷ 105 ∷ 108 ∷ 101 ∷ 46 ∷ 10 ∷ [])

abbrev pub does_not_existed : List ℕ
does_not_existed =
    (32 ∷ 100 ∷ 111 ∷ 101 ∷ 115 ∷ 32 ∷ 110 ∷ 111 ∷ 116 ∷ 32 ∷ 101 ∷ 120 ∷ 105 ∷ 115 ∷ 116 ∷ 101
      ∷ 100 ∷ 46 ∷ 10 ∷ [])

-- What is found under the name.
unfoldable pub cd_found :
    (num : ℕ) (name : ℕ → ℕ) → Option (Option ℕ) → Terminals → Option Terminals
unfolding cd_folder cd_refused
cd_found num name none t = none
cd_found num name (some none) t = cd_refused does_not_existed name t
cd_found num name (some (some i)) t =
    let fs_buf = (t.tty_table num).fs_buf in
    if entry_type fs_buf i == 2
    then cd_folder num (entry_inode fs_buf i) (entry_name fs_buf i) name t
    else cd_refused is_a_file name t

unfoldable pub run_cd : Locals → (params : ℕ → ℕ) (num : ℕ) → Terminals → Option Terminals
unfolding cd_found update_current_dir find_entry
run_cd locals params num t = update_current_dir locals num t >> (λ t.
    cd_found num (second_param params)
      (find_entry max_dir_entries_num 0 (t.tty_table num).fs_buf (second_param params)) t)

-- The functions of the table, of which these four are known.
unfoldable pub fs_handlers : Locals → (others : Handlers) → Handlers
unfolding run_mkdir run_mkfile run_ls run_cd
fs_handlers locals others shell_mkdir params num t = run_mkdir locals params num t
fs_handlers locals others shell_mkfile params num t = run_mkfile locals params num t
fs_handlers locals others shell_ls params num t = run_ls locals num t
fs_handlers locals others shell_cd params num t = run_cd locals params num t
fs_handlers locals others handler params num t = others handler params num t
