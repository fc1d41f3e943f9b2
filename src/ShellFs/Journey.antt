-- ===== src/ShellFs/Journey.antt =====
-- `mkdir`, `cd` into the new directory and `cd ..`, in shell/shell_fs.c on the disk of fs/mk.c.
use mathlib.Core.Path.{subst}
use krven_os.Common.{
  ℕ, suc, ◌+◌, ◌<◌, ◌≡◌, ◌∙◌, ap, sym, refl, arith, false, Option, none, some, List, [], ◌∷◌, ◌++◌,
  length, update_self, Bool-cases, inl, inr,
}
use krven_os.Strings.{IsString, IsText}
use krven_os.Shell.Lookup.{same, same_self}
use krven_os.Fs.{Fs}
use krven_os.Fs.Map.{get_new_inode, inode_alloc_sector}
use krven_os.Fs.Inode.{Inode}
use krven_os.Fs.Inode.RoundTrip.{FitsWords}
use krven_os.Fs.Make.{new_inode, current_dir_name, parent_dir_name}
use krven_os.Fs.Request.{Locals}
use krven_os.Tty.{Tty, Terminals}
use krven_os.ShellFs.{second_param, update_current_dir, run_mkdir}
use krven_os.ShellFs.Entries.{Listed, Lists, first_named}
use krven_os.ShellFs.Folder.{run_cd}
use krven_os.ShellFs.Path.{IsPlain, IsPath, folder_path}
use krven_os.ShellFs.Change.{IsAt}
use krven_os.ShellFs.Back.{run_cd-folder, run_cd-parent}
use krven_os.ShellFs.Placed.{listed}
use krven_os.ShellFs.Added.{IsDir}
use krven_os.ShellFs.Made.{HasLayout}
use krven_os.ShellFs.Session.{update_current_dir-IsDir, run_mkdir-IsDir}

-- The terminal after a listing is read.
relisted :
    (locals : Locals) (num dir : ℕ) (buf : ℕ → ℕ) (es : List Listed) (x : Inode) (t : Terminals)
    → (t.tty_table num).update_flag ≡ 1
    → (t.tty_table num).current_dir_inode_id ≡ dir
    → IsDir dir buf es x t.fs
    → (t' : Terminals) × (update_current_dir locals num t ≡ some t')
      × (t'.fs ≡ t.fs)
      × Lists 32 0 (t'.tty_table num).fs_buf es
relisted locals num dir buf es x t flag here at =
    let (fs_buf, read, updated, lists) =
      update_current_dir-IsDir locals num buf es x t (omega arith)
        (subst (λ d. IsDir d buf es x t.fs) (sym here) at) in
    let last : Tty = record (t.tty_table num) { update_flag = 0; fs_buf = fs_buf } in
    (
      _,
      updated,
      refl,
      subst (λ (y : Tty). Lists 32 0 y.fs_buf es) (sym (update_self t.tty_table num last)) lists,
    )

-- The last entry is found under its name, if no other has it.
first_named-last :
    (i : ℕ) (es : List Listed) (e : Listed)
    → first_named i es e.name ≡ none
    → first_named i (es ++ (e ∷ [])) e.name ≡ some (i + length es, e)
first_named-last i [] e unlisted =
    let p : i ≡ i + 0 = omega arith in rw (same_self e.name) (ap (λ (k : ℕ). some (k, e)) p)
first_named-last i (x ∷ es) e unlisted = elim (Bool-cases (same x.name e.name)) [
  | inl this ↦
      let found : ◌≡◌ {A = Option (ℕ × Listed)} (some (i, x)) none =
        sym (rw this refl) ∙ unlisted in
      absurd cc
  | inr other ↦
      let p : suc i + length es ≡ i + suc (length es) = omega arith in
      let later : first_named (suc i) es e.name ≡ none = sym (rw other refl) ∙ unlisted in
      rw other (first_named-last (suc i) es e later ∙ ap (λ (k : ℕ). some (k, e)) p)
]

-- `mkdir` of a new name, `cd` to it, and `cd ..` lead back: between the two the terminal is in the new directory
-- by the path with its name, and at the end it is in the directory that it started from, by the same path. The
-- listing is up to date at the start, the directory has room, an inode and two sectors are free, the path ends
-- in "/" and has room for the name, which is neither "." nor ".." and has no "/". The current directory has two
-- sectors, which are marked as used; the areas of the disk lie in the order in which `mkfs` puts them; the two
-- inode numbers are among the first sixteen, and the fields of the new inode fit their words.
pub run_mkdir-run_cd-run_cd :
    (locals : Locals) (params params' : ℕ → ℕ) (num id start : ℕ) (buf : ℕ → ℕ) (es : List Listed)
    → (p w : List ℕ) (x : Inode) (fs1 fs2 : Fs) (t : Terminals)
    → let tty = t.tty_table num in
      let dir = tty.current_dir_inode_id in
      tty.update_flag ≡ 0
      → Lists 32 0 tty.fs_buf es
      → IsString (second_param params) 0 w
      → IsText w
      → length w < 24
      → first_named 0 es w ≡ none
      → length es < 32
      → get_new_inode t.fs ≡ (some id, fs1)
      → inode_alloc_sector 2 fs1 ≡ (some start, fs2)
      → HasLayout dir id start x t.fs
      → FitsWords (new_inode 1024 0 start locals.junk)
      → IsDir dir buf es x t.fs
      → 0 < dir
      → IsString tty.dir_name 0 p
      → IsPath p
      → IsPlain w
      → IsText p
      → IsText (folder_path p w)
      → length (folder_path p w) < 128
      → same w parent_dir_name ≡ false
      → same w current_dir_name ≡ false
      → IsString (second_param params') 0 parent_dir_name
      → (t1 t2 t3 : Terminals) × (run_mkdir locals params num t ≡ some t1)
        × (run_cd locals params num t1 ≡ some t2)
        × IsAt num id (folder_path p w) t2
        × (run_cd locals params' num t2 ≡ some t3)
        × IsAt num dir p t3
run_mkdir-run_cd-run_cd locals params params' num id start buf es p w x fs1 fs2 t flag lists s text
      short unlisted room new run layout fits at pos path ends plain letters whole long other other'
      s' =
    let dir = (t.tty_table num).current_dir_inode_id in
    let (t1, made, entry, at1, new1) =
      run_mkdir-IsDir locals params num id start buf es w x fs1 fs2 t flag lists s text short
        unlisted room new run layout fits at pos in
    let e = listed id 2 w in
    let y = new_inode 1024 0 start locals.junk in
    let own = listed id 2 current_dir_name ∷ listed dir 2 parent_dir_name ∷ [] in
    let (u1, updated1, kept1, lists1) =
      relisted locals num dir buf (es ++ (e ∷ [])) x t1 (ap (λ (y : Tty). y.update_flag) entry)
        (ap (λ (y : Tty). y.current_dir_inode_id) entry) at1 in
    let path1 : IsString (t1.tty_table num).dir_name 0 p =
      subst (λ (y : Tty). IsString y.dir_name 0 p) (sym entry) path in
    let (t2, into, same2, at2) =
      run_cd-folder locals params num (0 + length es) (es ++ (e ∷ [])) e p w t1 u1 updated1 lists1
        (first_named-last 0 es e unlisted) refl other other' s text path1 letters long
        (omega arith) in
    let new2 : IsDir id buf own y t2.fs =
      subst (λ (f : Fs). IsDir id buf own y f) (sym (same2 ∙ kept1)) new1 in
    let (u2, updated2, kept2, lists2) = relisted locals num id buf own y t2 at2.2 at2.1 new2 in
    let (t3, back, same3, at3) =
      run_cd-parent locals params' num 1 own (listed dir 2 parent_dir_name) p w t2 u2 updated2
        lists2 refl refl s' at2.0 whole ends plain long in
    (t1, t2, t3, made, into, at2, back, at3)
