-- ===== src/ShellFs/Change.antt =====
-- `cd` of shell/shell_fs.c: into a folder of the listing, and back.
use mathlib.Core.Path.{subst}
use krven_os.Common.{
  ℕ, zero, suc, ◌<◌, ◌≡◌, ◌∙◌, ap, sym, refl, arith, Option, none, some, List, [], ◌∷◌, ◌==◌,
  if◌then◌else◌, update, update_self, length, Bool-cases, inl, inr,
}
use krven_os.Strings.{strlen, IsString, IsText}
use krven_os.Fs.{Fs}
use krven_os.Fs.Make.{current_dir_name, parent_dir_name}
use krven_os.Fs.Request.{msg_fs_dir, Locals, fs_request}
use krven_os.Shell.{literal}
use krven_os.Shell.Lookup.{same, same→≡}
use krven_os.Tty.{Tty, Terminals}
use krven_os.ShellFs.{
  second_param, entry_inode, entry_name, entry_type, keep_listing, update_current_dir,
}
use krven_os.ShellFs.Entries.{
  Listed, IsEntry, Lists, first_named, number_of, on_match-same, find_entry-Lists,
}
use krven_os.ShellFs.Folder.{
  parent_path, child_path, enter, stay, cd_folder, cd_refused, is_a_file, does_not_existed,
  cd_found, run_cd,
}

-- What is found is an entry of the listing with the name.
abbrev IsFound : (fs_buf : ℕ → ℕ) (w : List ℕ) → Option (ℕ × Listed) → Type 0
IsFound fs_buf w none = 0 < 1
IsFound fs_buf w (some (i, e)) = IsEntry fs_buf i e × (e.name ≡ w)

first_named-IsFound :
    (n i : ℕ) (fs_buf : ℕ → ℕ) (es : List Listed) (w : List ℕ)
    → Lists n i fs_buf es
    → IsFound fs_buf w (first_named i es w)
first_named-IsFound n i fs_buf [] w lists = omega arith
first_named-IsFound zero i fs_buf (e ∷ es) w lists = absurd (omega arith)
first_named-IsFound (suc n) i fs_buf (e ∷ es) w (entry, lists) = elim (Bool-cases (same e.name w)) [
  | inl this ↦ rw this (entry, same→≡ e.name w this)
  | inr other ↦ rw other (first_named-IsFound n (suc i) fs_buf es w lists)
]

-- The change of directory by the text of the name.
unfoldable pub cd_by_name :
    (num : ℕ) (name : ℕ → ℕ) (w : List ℕ) → Option (ℕ × Listed) → Terminals → Option Terminals
cd_by_name num name w none t = cd_refused does_not_existed name t
cd_by_name num name w (some (i, e)) t =
    let dir_name = (t.tty_table num).dir_name in
    if e.type == 2
    then if same w parent_dir_name
      then enter num e.inode_id (parent_path dir_name (strlen 128 dir_name)) t
      else if same w current_dir_name
      then stay num t
      else enter num e.inode_id (child_path dir_name name) t
    else cd_refused is_a_file name t

cd_folder-IsEntry :
    (num : ℕ) (name : ℕ → ℕ) (w : List ℕ) (i : ℕ) (e : Listed) (t : Terminals)
    → IsEntry (t.tty_table num).fs_buf i e
    → e.name ≡ w
    → let fs_buf = (t.tty_table num).fs_buf in
      let dir_name = (t.tty_table num).dir_name in
      cd_folder num (entry_inode fs_buf i) (entry_name fs_buf i) name t ≡ (
        if same w parent_dir_name
        then enter num e.inode_id (parent_path dir_name (strlen 128 dir_name)) t
        else if same w current_dir_name
        then stay num t
        else enter num e.inode_id (child_path dir_name name) t)
unfolding cd_folder
cd_folder-IsEntry num name w i e t (used, inode, kind, named, letters, fits) this =
    let fs_buf = (t.tty_table num).fs_buf in
    let dir_name = (t.tty_table num).dir_name in
    let named' : IsString (entry_name fs_buf i) 0 w =
      subst (IsString (entry_name fs_buf i) 0) this named in
    let letters' : IsText w = subst IsText this letters in
    let short : length w < 1024 = omega (arith, ap length this) in
    let into = enter num e.inode_id (child_path dir_name name) t in
    let dot =
      on_match-same (entry_name fs_buf i) (literal current_dir_name) w current_dir_name (stay num t)
        into named' (refl, refl) letters' (omega arith, omega arith, omega arith) short
        (omega arith) in
    let dots =
      on_match-same (entry_name fs_buf i) (literal parent_dir_name) w parent_dir_name
        (enter num e.inode_id (parent_path dir_name (strlen 128 dir_name)) t)
        (if same w current_dir_name then stay num t else into) named' (refl, (refl, refl)) letters'
        (omega arith, omega arith, (omega arith, omega arith, omega arith)) short (omega arith) in
    rw (inode, dot) dots

cd_found-IsFound :
    (num : ℕ) (name : ℕ → ℕ) (w : List ℕ) (r : Option (ℕ × Listed)) (t : Terminals)
    → IsFound (t.tty_table num).fs_buf w r
    → cd_found num name (some (number_of r)) t ≡ cd_by_name num name w r t
unfolding cd_found cd_by_name
cd_found-IsFound num name w none t found = refl
cd_found-IsFound num name w (some (i, e)) t (entry, this) =
    let kind : entry_type (t.tty_table num).fs_buf i ≡ e.type = entry.2 in
    rw kind (
      ap (λ (r : Option Terminals). if e.type == 2 then r else cd_refused is_a_file name t)
        (cd_folder-IsEntry num name w i e t entry this))

-- `cd` does by the first entry of the listing that has the name what `cd_by_name` does.
pub run_cd-Lists :
    (locals : Locals) (params : ℕ → ℕ) (num : ℕ) (es : List Listed) (w : List ℕ)
    → (t t' : Terminals) → update_current_dir locals num t ≡ some t'
    → Lists 32 0 (t'.tty_table num).fs_buf es
    → IsString (second_param params) 0 w
    → IsText w
    → length w < 1024
    → run_cd locals params num t ≡ cd_by_name num (second_param params) w (first_named 0 es w) t'
unfolding run_cd
run_cd-Lists locals params num es w t t' updated lists s text short = rw updated (
    ap (λ r. cd_found num (second_param params) r t')
      (find_entry-Lists 32 0 (t'.tty_table num).fs_buf (second_param params) es w lists s text
        short)
    ∙ cd_found-IsFound num (second_param params) w (first_named 0 es w) t'
        (first_named-IsFound 32 0 (t'.tty_table num).fs_buf es w lists))

-- The directory of a terminal: its path, its inode, and a listing that is out of date.
abbrev pub IsAt : (num inode_id : ℕ) (path : List ℕ) → Terminals → Type 0
IsAt num inode_id path t =
    IsString (t.tty_table num).dir_name 0 path
    × ((t.tty_table num).current_dir_inode_id ≡ inode_id)
    × ((t.tty_table num).update_flag ≡ 1)

pub enter-IsAt :
    (num inode_id : ℕ) (dir_name : ℕ → ℕ) (path : List ℕ) (t : Terminals)
    → IsString dir_name 0 path
    → (t' : Terminals) × (enter num inode_id (some dir_name) t ≡ some t')
      × (t'.fs ≡ t.fs)
      × IsAt num inode_id path t'
unfolding enter
enter-IsAt num inode_id dir_name path t s =
    let tty : Tty = record (t.tty_table num) {
      dir_name = dir_name;
      current_dir_inode_id = inode_id;
      update_flag = 1;
    } in
    let self = sym (update_self t.tty_table num tty) in
    (
      record t { tty_table = update t.tty_table num tty },
      refl,
      refl,
      subst
          (λ (x : Tty).
            IsString x.dir_name 0 path × (x.current_dir_inode_id ≡ inode_id) × (x.update_flag ≡ 1))
          self (s, refl, refl),
    )

-- A listing that is read leaves the path.
keep_listing-path :
    (num : ℕ) (r : Option ((ℕ → ℕ) × Fs)) (t t' : Terminals)
    → keep_listing num r t ≡ some t'
    → (t'.tty_table num).dir_name ≡ (t.tty_table num).dir_name
unfolding keep_listing
keep_listing-path num none t t' e = absurd (grind arith)
keep_listing-path num (some (buf, fs)) t t' e = ground arith

pub update_current_dir-path :
    (locals : Locals) (num : ℕ) (t t' : Terminals)
    → update_current_dir locals num t ≡ some t'
    → (t'.tty_table num).dir_name ≡ (t.tty_table num).dir_name
unfolding update_current_dir
update_current_dir-path locals num t t' e =
    let tty = t.tty_table num in
    let listing = fs_request locals (msg_fs_dir tty.current_dir_inode_id) t.shell_fsbuf t.fs in
    elim (Bool-cases (tty.update_flag == 0)) [
      | inl fresh ↦ ground arith
      | inr stale ↦ keep_listing-path num listing t t' (sym (rw stale refl) ∙ e)
    ]
