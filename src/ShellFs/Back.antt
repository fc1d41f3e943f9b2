-- ===== src/ShellFs/Back.antt =====
-- `cd` into a folder and `cd ..` after it, in shell/shell_fs.c.
use mathlib.Core.Path.{subst}
use krven_os.Common.{ℕ, ◌<◌, ◌≡◌, ◌∙◌, ap, sym, arith, true, false, some, List, ◌==◌, length}
use krven_os.Strings.{IsString, IsText}
use krven_os.Fs.Request.{Locals}
use krven_os.Shell.Lookup.{same}
use krven_os.Tty.{Terminals}
use krven_os.ShellFs.{second_param, update_current_dir}
use krven_os.ShellFs.Entries.{Listed, Lists, first_named}
use krven_os.ShellFs.Folder.{enter, run_cd}
use krven_os.ShellFs.Path.{IsPlain, IsPath, folder_path, child_path-folder, parent_path-folder}
use krven_os.Fs.Make.{current_dir_name, parent_dir_name}
use krven_os.ShellFs.Change.{cd_by_name, run_cd-Lists, IsAt, enter-IsAt, update_current_dir-path}

-- Into a folder: the path gets its name, and the directory is the folder.
pub run_cd-folder :
    (locals : Locals) (params : ℕ → ℕ) (num i : ℕ) (es : List Listed) (e : Listed)
    → (p w : List ℕ) (t t' : Terminals) → update_current_dir locals num t ≡ some t'
    → Lists 32 0 (t'.tty_table num).fs_buf es
    → first_named 0 es w ≡ some (i, e)
    → e.type ≡ 2
    → same w parent_dir_name ≡ false
    → same w current_dir_name ≡ false
    → IsString (second_param params) 0 w
    → IsText w
    → IsString (t.tty_table num).dir_name 0 p
    → IsText p
    → length (folder_path p w) < 128
    → length w < 128
    → (t1 : Terminals) × (run_cd locals params num t ≡ some t1)
      × (t1.fs ≡ t'.fs)
      × IsAt num e.inode_id (folder_path p w) t1
unfolding cd_by_name
run_cd-folder locals params num i es e p w t t' updated lists found folder other other' s text path
      letters short short' =
    let path' =
      subst (λ d. IsString d 0 p) (sym (update_current_dir-path locals num t t' updated)) path in
    let (d, joined, s') =
      child_path-folder (t'.tty_table num).dir_name (second_param params) p w path' s letters text
        short in
    let (t1, entered, kept, at) = enter-IsAt num e.inode_id d (folder_path p w) t' s' in
    let kind : (e.type == 2) ≡ true = ground arith in
    (
      t1,
      run_cd-Lists locals params num es w t t' updated lists s text (omega arith)
          ∙ ap (λ r. cd_by_name num (second_param params) w r t') found
          ∙ rw (kind, other, other') (ap (λ r. enter num e.inode_id r t') joined ∙ entered),
      kept,
      at,
    )

-- Back to the parent: the path loses the last folder.
pub run_cd-parent :
    (locals : Locals) (params : ℕ → ℕ) (num i : ℕ) (es : List Listed) (e : Listed)
    → (p w : List ℕ) (t t' : Terminals) → update_current_dir locals num t ≡ some t'
    → Lists 32 0 (t'.tty_table num).fs_buf es
    → first_named 0 es parent_dir_name ≡ some (i, e)
    → e.type ≡ 2
    → IsString (second_param params) 0 parent_dir_name
    → IsString (t.tty_table num).dir_name 0 (folder_path p w)
    → IsText (folder_path p w)
    → IsPath p
    → IsPlain w
    → length (folder_path p w) < 128
    → (t1 : Terminals) × (run_cd locals params num t ≡ some t1)
      × (t1.fs ≡ t'.fs)
      × IsAt num e.inode_id p t1
unfolding cd_by_name
run_cd-parent locals params num i es e p w t t' updated lists found folder s path text ends plain
      short =
    let path' =
      subst (λ d. IsString d 0 (folder_path p w))
        (sym (update_current_dir-path locals num t t' updated)) path in
    let (d, cut, s') =
      parent_path-folder (t'.tty_table num).dir_name p w ends plain text short path' in
    let (t1, entered, kept, at) = enter-IsAt num e.inode_id d p t' s' in
    let kind : (e.type == 2) ≡ true = ground arith in
    (
      t1,
      run_cd-Lists locals params num es parent_dir_name t t' updated lists s
            (omega arith, omega arith, (omega arith, omega arith, omega arith)) (omega arith)
          ∙ ap (λ r. cd_by_name num (second_param params) parent_dir_name r t') found
          ∙ rw kind (ap (λ r. enter num e.inode_id r t') cut ∙ entered),
      kept,
      at,
    )

-- After `cd` into a folder of the listing and `cd ..`, the terminal has the path that it had, and its
-- directory is the inode of the folder's entry "..". The path ends in "/" and has room for the name, which is
-- neither "." nor ".." and has no "/"; each listing is read and has the entry, of a folder.
pub run_cd-run_cd :
    (locals : Locals) (params params' : ℕ → ℕ) (num i k : ℕ) (es es' : List Listed)
    → (e up : Listed) (p w : List ℕ) (t t' t1 t1' : Terminals)
    → update_current_dir locals num t ≡ some t'
    → Lists 32 0 (t'.tty_table num).fs_buf es
    → first_named 0 es w ≡ some (i, e)
    → e.type ≡ 2
    → same w parent_dir_name ≡ false
    → same w current_dir_name ≡ false
    → IsString (second_param params) 0 w
    → IsText w
    → IsString (t.tty_table num).dir_name 0 p
    → IsPath p
    → IsPlain w
    → IsText p
    → IsText (folder_path p w)
    → length (folder_path p w) < 128
    → length w < 128
    → run_cd locals params num t ≡ some t1
    → update_current_dir locals num t1 ≡ some t1'
    → Lists 32 0 (t1'.tty_table num).fs_buf es'
    → first_named 0 es' parent_dir_name ≡ some (k, up)
    → up.type ≡ 2
    → IsString (second_param params') 0 parent_dir_name
    → (t2 : Terminals) × IsAt num e.inode_id (folder_path p w) t1
      × (run_cd locals params' num t1 ≡ some t2)
      × IsAt num up.inode_id p t2
run_cd-run_cd locals params params' num i k es es' e up p w t t' t1 t1' updated lists found folder
      other other' s text path ends plain letters whole short short' changed updated' lists' found'
      folder' s' =
    let (u, ran, kept, at) =
      run_cd-folder locals params num i es e p w t t' updated lists found folder other other' s text
        path letters short short' in
    let same_end : u ≡ t1 = some-injective (sym ran ∙ changed) in
    let at1 = subst (IsAt num e.inode_id (folder_path p w)) same_end at in
    let (t2, back, kept', at2) =
      run_cd-parent locals params' num k es' up p w t1 t1' updated' lists' found' folder' s' at1.0
        whole ends plain short in
    (t2, at1, back, at2)
  where
    some-injective : {a b : Terminals} → some a ≡ some b → a ≡ b
    some-injective h = cc
