-- ===== src/ShellFs/Moves.antt =====
-- Where `cd` of shell/shell_fs.c leads, by the path and the listing as texts.
use krven_os.Common.{ℕ, ◌≡◌, ◌⊎◌, Bool, true, false, Option, none, some, List, [], ◌∷◌, ◌==◌}
use krven_os.Fs.Make.{current_dir_name, parent_dir_name}
use krven_os.Shell.Lookup.{same}
use krven_os.Tty.{Tty, Terminals}
use krven_os.ShellFs.Entries.{Listed}
use krven_os.ShellFs.Folder.{cd_refused, is_a_file, does_not_existed}
use krven_os.ShellFs.Path.{IsPlain, IsPath, folder_path}
use krven_os.ShellFs.Change.{IsAt}

-- The path above a path: that without its last folder, and the root for the root.
abbrev pub IsAbove : (p q : List ℕ) → Type 0
IsAbove p q =
    ((p ≡ 47 ∷ []) × (q ≡ 47 ∷ [])) ⊎ ((v : List ℕ) × (p ≡ folder_path q v) × IsPath q × IsPlain v)

-- The result is there, in the directory of this number by this path, with the disk as it was.
abbrev pub LeadsTo : (num inode_id : ℕ) (path : List ℕ) → Terminals → Option Terminals → Type 0
LeadsTo num inode_id path t none = ⊥
LeadsTo num inode_id path t (some t1) = IsAt num inode_id path t1 × (t1.fs ≡ t.fs)

-- By three tests: a folder, the name "..", the name ".".
abbrev pub Moves :
    (folder up here : Bool) (num inode_id : ℕ) (p q w : List ℕ) (name : ℕ → ℕ)
    → Terminals
    → Option Terminals
    → Type 0
Moves false up here num inode_id p q w name t r = r ≡ cd_refused is_a_file name t
Moves true true here num inode_id p q w name t r = LeadsTo num inode_id q t r
Moves true false true num inode_id p q w name t r =
    LeadsTo num ((t.tty_table num).current_dir_inode_id) p t r
Moves true false false num inode_id p q w name t r = LeadsTo num inode_id (folder_path p w) t r

abbrev pub MovesTo :
    (num : ℕ) (p q w : List ℕ) (name : ℕ → ℕ)
    → Option (ℕ × Listed)
    → Terminals
    → Option Terminals
    → Type 0
MovesTo num p q w name none t r = r ≡ cd_refused does_not_existed name t
MovesTo num p q w name (some (i, e)) t r =
    Moves (e.type == 2) (same w parent_dir_name) (same w current_dir_name) num e.inode_id p q w name
      t r
