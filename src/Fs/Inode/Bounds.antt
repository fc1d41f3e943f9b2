-- ===== src/Fs/Inode/Bounds.antt =====
-- Where inodes lie in their sectors.
use krven_os.Common.{ℕ, ◌*◌, ◌^◌, ◌≤◌, ◌<◌, ◌≡◌, arith, false, none}
use krven_os.Fs.{Fs}
use krven_os.Fs.Inode.{Inode, sector_offset, in_buffer, update_inode, find_inode}

-- The first sixteen inodes stand one after the other in the first sector.
pub offset_low : (id : ℕ) → id < 16 → sector_offset id ≡ id * 32
unfolding sector_offset
offset_low id h = omega arith

-- From number 16 on the place is in front of the buffer.
pub offset_high : (id : ℕ) → 16 ≤ id → id < 4096 → 2 ^ 31 ≤ sector_offset id
unfolding sector_offset
offset_high id lo hi = omega arith

-- Every inode from number 16 to 4095 is read and written outside the sector buffer.
pub inode_out_of_buffer :
    (id : ℕ) (x : Inode) (fs : Fs)
    → 16 ≤ id
    → id < 4096
    → (update_inode id x fs ≡ none) × (find_inode id fs ≡ none)
unfolding update_inode find_inode
inode_out_of_buffer id x fs lo hi =
    let far : 2 ^ 31 ≤ sector_offset id = offset_high id lo hi in
    let outside : in_buffer (sector_offset id) ≡ false = bad (sector_offset id) far in
    (rw outside, rw outside)
  where
    bad : (o : ℕ) → 2 ^ 31 ≤ o → in_buffer o ≡ false
    bad o h = ground arith
