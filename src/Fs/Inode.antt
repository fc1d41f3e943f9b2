-- ===== src/Fs/Inode.antt =====
-- Inodes and directory entries on the disk: the structs of include/fs.h, and `update_inode`,
-- `find_inode`, `add_dir_entry` and `clear_sector` of fs/mk.c. Words are little-endian.
pub mod RoundTrip
pub mod Bounds
pub mod Slots
use krven_os.Common.{
  ℕ, zero, suc, ◌+◌, ◌-◌, ◌*◌, ◌/◌, ◌%◌, ◌^◌, Bool, true, false, ◌&&◌, Option, none, some, ltb, leb,
  ◌==◌, if◌then◌else◌,
}
use krven_os.Fs.{Fs, Sector, SuperBlock, fs_read, fs_write, sector_size}

-- `inode_t`
pub record Inode : Type 0 where
  pub mode : ℕ
  pub size : ℕ
  pub start_sect : ℕ
  pub sect_num : ℕ
  pub v0 : ℕ
  pub v1 : ℕ
  pub v2 : ℕ
  pub v3 : ℕ

-- `dir_entry_t`: `name` is the array of 24 characters.
pub record DirEntry : Type 0 where
  pub inode_id : ℕ
  pub name : ℕ → ℕ
  pub type : ℕ

-- The 32-bit word at a place, and byte `k` of a word.
abbrev pub word_at : Sector → ℕ → ℕ
word_at buf i = buf i + buf (i + 1) * 256 + buf (i + 2) * 65536 + buf (i + 3) * 16777216

abbrev pub byte_of : (w k : ℕ) → ℕ
byte_of w k =
    if k == 0
    then w % 256
    else if k == 1
    then w / 256 % 256
    else if k == 2
    then w / 65536 % 256
    else w / 16777216 % 256

-- The memory of the two structs, both of 32 bytes.
inode_word : Inode → ℕ → ℕ
inode_word x f =
    if f == 0
    then x.mode
    else if f == 1
    then x.size
    else if f == 2
    then x.start_sect
    else if f == 3
    then x.sect_num
    else if f == 4
    then x.v0
    else if f == 5
    then x.v1
    else if f == 6
    then x.v2
    else x.v3

unfoldable pub inode_bytes : Inode → ℕ → ℕ
unfolding inode_word
inode_bytes x i = byte_of (inode_word x (i / 4)) (i % 4)

unfoldable pub entry_bytes : DirEntry → ℕ → ℕ
entry_bytes d i =
    if ltb i 4
    then byte_of d.inode_id i
    else if ltb i 28
    then d.name (i - 4)
    else byte_of d.type (i - 28)

abbrev pub struct_size : ℕ
struct_size = 32

-- `memcpy(buf + offset, bytes, 32)`
abbrev pub copy_in : (offset : ℕ) → (ℕ → ℕ) → Sector → Sector
copy_in offset bytes buf i =
    if leb offset i && ltb i (offset + struct_size) then bytes (i - offset) else buf i

-- `memcpy(&inode, buf + offset, 32)`
unfoldable pub read_inode : Sector → ℕ → Inode
read_inode buf offset = record {
  mode = word_at buf offset;
  size = word_at buf (offset + 4);
  start_sect = word_at buf (offset + 8);
  sect_num = word_at buf (offset + 12);
  v0 = word_at buf (offset + 16);
  v1 = word_at buf (offset + 20);
  v2 = word_at buf (offset + 24);
  v3 = word_at buf (offset + 28);
}

-- The sector of an inode, 16 to a sector; and its place in the sector, by the `size_t` arithmetic of
-- the source, in which a negative number is one from 2 ^ 31 on.
unfoldable pub inode_sector : (inode_id : ℕ) → Fs → ℕ
inode_sector inode_id fs =
    1 + 1 + fs.super_block.imap_sects + fs.super_block.smap_sects + inode_id / 16

unfoldable pub sector_offset : (inode_id : ℕ) → ℕ
sector_offset inode_id = (inode_id + 2 ^ 32 - inode_id / 16 * 32 % 2 ^ 32) % 2 ^ 32 * 32 % 2 ^ 32

-- Does a struct at this place lie in the buffer?
abbrev pub in_buffer : ℕ → Bool
in_buffer offset = leb (offset + struct_size) sector_size

unfoldable pub update_inode : (inode_id : ℕ) → Inode → Fs → Option Fs
unfolding inode_sector sector_offset
update_inode inode_id x fs =
    if in_buffer (sector_offset inode_id)
    then some (
        fs_write (inode_sector inode_id fs)
          (copy_in (sector_offset inode_id) (inode_bytes x) (fs_read (inode_sector inode_id fs) fs))
          fs)
    else none

unfoldable pub find_inode : (inode_id : ℕ) → Fs → Option Inode
unfolding read_inode inode_sector sector_offset
find_inode inode_id fs =
    if in_buffer (sector_offset inode_id)
    then some (read_inode (fs_read (inode_sector inode_id fs) fs) (sector_offset inode_id))
    else none

-- The free entry among the `n` from number `j` on, by its place in the sector.
unfoldable pub entry_loop : ℕ → (j : ℕ) → Sector → Option ℕ
entry_loop zero j buf = none
entry_loop (suc n) j buf =
    let rest = entry_loop n (suc j) buf in if word_at buf (32 * j) == 0 then some (32 * j) else rest

-- The `n` sectors of a directory from `i` on. Without a free entry nothing is written.
unfoldable pub dir_loop : ℕ → (i : ℕ) → DirEntry → Fs → Fs
unfolding entry_loop
dir_loop zero i d fs = fs
dir_loop (suc n) i d fs = elim (entry_loop 16 0 (fs_read i fs)) [
  | some place ↦ fs_write i (copy_in place (entry_bytes d) (fs_read i fs)) fs
  | none ↦ dir_loop n (suc i) d fs
]

unfoldable pub add_dir_entry : (dir_inode_id : ℕ) → DirEntry → Fs → Option Fs
unfolding find_inode dir_loop
add_dir_entry dir_inode_id d fs = elim (find_inode dir_inode_id fs) [
  | none ↦ none
  | some inode ↦ some (dir_loop inode.sect_num inode.start_sect d fs)
]

-- `clear_sector`: the `n` sectors from `i` on.
unfoldable pub clear_sector : (sector_start sector_num : ℕ) → Fs → Fs
clear_sector i zero fs = fs
clear_sector i (suc n) fs = clear_sector (suc i) n (fs_write i (λ _. 0) fs)
