-- ===== src/Fs/Mkfs.antt =====
-- `mkfs` and the start of `fs_init` of fs/fs.c, and the requests of fs/opt.c. The five `install` flags are
-- never changed from 1. What is left of `fs_wtbuf` behind a shorter write, the inode that is not set
-- completely, and the rest of the name of the root entry are arguments.
pub mod Layout
pub mod First
pub mod Root
pub mod Boot
use krven_os.Common.{
  ℕ, zero, suc, ◌+◌, ◌*◌, ◌/◌, ◌%◌, ◌^◌, Option, none, some, List, [], ◌∷◌, ◌==◌, if◌then◌else◌,
  ltb,
}
use krven_os.Fs.{Fs, Sector, SuperBlock, fs_read, fs_write, mark_bit}
use krven_os.Fs.Map.{update_sector_map}
use krven_os.Fs.Inode.{
  Inode, DirEntry, word_at, byte_of, copy_in, find_inode, add_dir_entry, clear_sector,
}
use krven_os.Fs.Make.{mk_inode, mk_file, mk_dir}

-- The memory of the super block, 32 bytes.
super_word : SuperBlock → ℕ → ℕ
super_word sb f =
    if f == 0
    then sb.magic
    else if f == 1
    then sb.inode_num
    else if f == 2
    then sb.inode_sects
    else if f == 3
    then sb.sect_num
    else if f == 4
    then sb.imap_sects
    else if f == 5
    then sb.smap_sects
    else if f == 6
    then sb.first_data_sect
    else sb.root_inode

unfoldable pub super_bytes : SuperBlock → ℕ → ℕ
unfolding super_word
super_bytes sb i = byte_of (super_word sb (i / 4)) (i % 4)

unfoldable pub read_super : Sector → SuperBlock
read_super buf = record {
  magic = word_at buf 0;
  inode_num = word_at buf 4;
  inode_sects = word_at buf 8;
  sect_num = word_at buf 12;
  imap_sects = word_at buf 16;
  smap_sects = word_at buf 20;
  first_data_sect = word_at buf 24;
  root_inode = word_at buf 28;
}

-- The super block that `mkfs` makes for a partition of this many sectors.
abbrev pub new_super : (sector_num : ℕ) → SuperBlock
new_super sector_num = record {
  magic = 0x6666;
  inode_num = 4096;
  inode_sects = 4096 * 32 / 512;
  sect_num = sector_num;
  imap_sects = 1;
  smap_sects = sector_num / 4096 + 1;
  first_data_sect = 1 + 1 + 1 + (sector_num / 4096 + 1) + 4096 * 32 / 512;
  root_inode = 1;
}

abbrev pub set_super : SuperBlock → Fs → Fs
set_super sb fs = record fs { super_block = sb }

-- The four areas before the data: the super block, the two maps, and the inodes.
unfoldable pub install_areas : (sector_num : ℕ) (wtbuf : Sector) → Fs → Fs
install_areas sector_num wtbuf fs =
    let sb = new_super sector_num in
    let installed = fs_write 1 (copy_in 0 (super_bytes sb) wtbuf) (set_super sb fs) in
    let inode_map = fs_write 2 (mark_bit (λ _. 0) 0) installed in
    let sector_map =
      (update_sector_map 0 sb.first_data_sect (clear_sector 3 sb.smap_sects inode_map)).1 in
    clear_sector (3 + sb.smap_sects) sb.inode_sects sector_map

-- The name "." over what the variable held.
abbrev pub dot_name : (ℕ → ℕ) → ℕ → ℕ
dot_name old zero = 46
dot_name old (suc zero) = 0
dot_name old (suc (suc i)) = old (suc (suc i))

abbrev pub root_entry : (root_dir_inode_id : ℕ) (old : ℕ → ℕ) → DirEntry
root_entry root_dir_inode_id old = record {
  inode_id = root_dir_inode_id;
  name = dot_name old;
  type = 2;
}

unfoldable pub install_root : (junk : Inode) (old : ℕ → ℕ) → Fs → Option Fs
install_root junk old fs = elim (mk_inode 1024 0 junk fs) [
  | none ↦ none
  | some made ↦ add_dir_entry made.0 (root_entry made.0 old) made.1
]

unfoldable pub mkfs :
    (sector_num : ℕ) (wtbuf : Sector) (junk : Inode) (old : ℕ → ℕ) → Fs → Option Fs
mkfs sector_num wtbuf junk old fs = install_root junk old (install_areas sector_num wtbuf fs)

-- `fs_init` once the disk task has answered: the place of the partition, and the super block from its
-- sector 1.
unfoldable pub fs_init : (start_lba : ℕ) → Fs → Fs
fs_init start_lba fs =
    let rooted = record fs { fs_root = start_lba } in
    record rooted { super_block = read_super (fs_read 1 rooted) }

-- The sectors of a directory, for the message.
unfoldable pub entries_loop : (n i : ℕ) → Fs → List Sector
entries_loop zero i fs = []
entries_loop (suc n) i fs = fs_read i fs ∷ entries_loop n (suc i) fs

unfoldable pub get_dir_entries : (inode : ℕ) → Fs → Option (List Sector)
get_dir_entries inode fs = elim (find_inode inode fs) [
  | none ↦ none
  | some x ↦ some (entries_loop x.sect_num x.start_sect fs)
]
