-- ===== src/Fs.antt =====
-- The file system on a disk of 512-byte sectors: include/fs.h, fs/read.c, fs/write.c.
-- `fs_read` and `fs_write` send a request to the disk task and wait; here they are the transfer itself,
-- which the disk is trusted to make. `none` is undefined behaviour of the source: an access outside
-- a buffer or a use of a variable that was not set.
pub mod Map
pub mod Inode
pub mod Make
pub mod Mkfs
pub mod Request
mod Tests
use krven_os.Common.{ℕ, ◌+◌, ◌*◌, ◌/◌, ◌%◌, ◌^◌, update, Bool}
use krven_os.Common.Bits.{has_bit, set_bit}

-- The bytes of a sector, by their places below 512.
abbrev pub Sector : Type 0
Sector = ℕ → ℕ

-- `super_block_t`
pub record SuperBlock : Type 0 where
  pub magic : ℕ
  pub inode_num : ℕ
  pub inode_sects : ℕ
  pub sect_num : ℕ
  pub imap_sects : ℕ
  pub smap_sects : ℕ
  pub first_data_sect : ℕ
  pub root_inode : ℕ

pub record Fs : Type 0 where
  pub disk : ℕ → Sector
  pub fs_root : ℕ
  pub super_block : SuperBlock

abbrev pub sector_size : ℕ
sector_size = 512

-- The bits of a sector.
abbrev pub sector_bits : ℕ
sector_bits = 4096

abbrev pub fs_read : ℕ → Fs → Sector
fs_read sector_no fs = fs.disk (sector_no + fs.fs_root)

abbrev pub fs_write : ℕ → Sector → Fs → Fs
fs_write sector_no buf fs = record fs { disk = update fs.disk (fs.fs_root + sector_no) buf }

-- Bit `k` of byte `j`, at `b = 8 * j + k`, tested and set.
abbrev pub bit_at : Sector → ℕ → Bool
bit_at buf b = has_bit (buf (b / 8)) (b % 8)

abbrev pub mark_bit : Sector → ℕ → Sector
mark_bit buf b = update buf (b / 8) (set_bit (buf (b / 8)) (b % 8))
