-- ===== src/Fs/Make.antt =====
-- `mk_inode`, `mk_file` and `mk_dir` of fs/mk.c. What a local variable of the source holds before it is
-- set is an argument: `junk` and `old`.
pub mod Fresh
pub mod Elsewhere
use krven_os.Common.{
  ℕ, zero, suc, ◌+◌, ◌/◌, ◌≡◌, Bool, true, false, Option, none, some, List, [], ◌∷◌, ltb,
  if◌then◌else◌, length,
}
use krven_os.Fs.{Fs}
use krven_os.Fs.Map.{get_new_inode, inode_alloc_sector}
use krven_os.Fs.Inode.{Inode, DirEntry, update_inode, add_dir_entry, clear_sector}

abbrev pub new_inode : (size mode start : ℕ) (junk : Inode) → Inode
new_inode size mode start junk = record junk {
  mode = mode;
  size = size;
  start_sect = start;
  sect_num = size / 512;
}

-- The end of `mk_inode`: the inode is stored, and its sectors are cleared.
abbrev pub finish_inode : (size id start : ℕ) → Option Fs → Option (ℕ × Fs)
finish_inode size id start none = none
finish_inode size id start (some fs) = some (id, clear_sector start (size / 512) fs)

-- After `inode_alloc_sector`: without a run `start_sect` is not set.
abbrev pub store_inode : (size mode : ℕ) (junk : Inode) (id : ℕ) → Option ℕ × Fs → Option (ℕ × Fs)
store_inode size mode junk id (none, fs) = none
store_inode size mode junk id (some start, fs) =
    finish_inode size id start (update_inode id (new_inode size mode start junk) fs)

-- After `get_new_inode`: the result -1 is not tested, and inode -1 is in front of the buffer.
abbrev pub place_inode : (size mode : ℕ) (junk : Inode) → Option ℕ × Fs → Option (ℕ × Fs)
place_inode size mode junk (none, fs) = none
place_inode size mode junk (some id, fs) =
    store_inode size mode junk id (inode_alloc_sector (size / 512) fs)

-- The inode's number and the disk.
unfoldable pub mk_inode : (size mode : ℕ) (junk : Inode) → Fs → Option (ℕ × Fs)
mk_inode size mode junk fs = place_inode size mode junk (get_new_inode fs)

-- `memcpy(dir_entry.name, name, strlen(name) + 1)` into 24 characters.
unfoldable pub copy_name : List ℕ → (ℕ → ℕ) → ℕ → ℕ
copy_name [] old zero = 0
copy_name [] old (suc i) = old (suc i)
copy_name (c ∷ name) old zero = c
copy_name (c ∷ name) old (suc i) = copy_name name (λ k. old (suc k)) i

abbrev pub name_fits : List ℕ → Bool
name_fits name = ltb (length name) 24

abbrev pub type_file : ℕ
type_file = 1

abbrev pub type_folder : ℕ
type_folder = 2

abbrev pub folder_size : ℕ
folder_size = 1024

unfoldable pub mk_file :
    (name : List ℕ) (size mode dir : ℕ) (junk : Inode) (old : ℕ → ℕ) → Fs → Option Fs
unfolding copy_name
mk_file name size mode dir junk old fs =
    if name_fits name
    then elim (mk_inode size mode junk fs) [
      | none ↦ none
      | some made ↦
          add_dir_entry dir
            (record { inode_id = made.0; name = copy_name name old; type = type_file }) made.1
    ]
    else none

-- The names "." and "..".
abbrev pub current_dir_name : List ℕ
current_dir_name = 46 ∷ []

abbrev pub parent_dir_name : List ℕ
parent_dir_name = 46 ∷ 46 ∷ []

-- The entry in the parent, then the two entries in the directory itself.
unfoldable pub add_entries : (name : List ℕ) (dir : ℕ) (old : ℕ → ℕ) (inode_id : ℕ) → Fs → Option Fs
unfolding copy_name
add_entries name dir old inode_id fs =
    let name1 : ℕ → ℕ = copy_name name old in
    let name2 : ℕ → ℕ = copy_name current_dir_name name1 in
    let name3 : ℕ → ℕ = copy_name parent_dir_name name2 in
    elim (add_dir_entry dir (record { inode_id = inode_id; name = name1; type = type_folder }) fs) [
      | none ↦ none
      | some fs1 ↦
          elim (add_dir_entry inode_id
            (record { inode_id = inode_id; name = name2; type = type_folder }) fs1) [
              | none ↦ none
              | some fs2 ↦
                  add_dir_entry inode_id
                    (record { inode_id = dir; name = name3; type = type_folder }) fs2
            ]
    ]

unfoldable pub mk_dir : (name : List ℕ) (mode dir : ℕ) (junk : Inode) (old : ℕ → ℕ) → Fs → Option Fs
unfolding add_entries
mk_dir name mode dir junk old fs =
    if name_fits name
    then elim (mk_inode folder_size mode junk fs) [
      | none ↦ none
      | some made ↦ add_entries name dir old made.0 made.1
    ]
    else none
