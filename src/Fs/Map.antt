-- ===== src/Fs/Map.antt =====
-- The bitmaps of sectors and of inodes: `update_sector_map`, `inode_alloc_sector` and `get_new_inode`
-- of fs/mk.c. The loops over the 512 bytes of a sector and over the 8 bits of a byte are one loop over
-- its 4096 bits, in the same order.
pub mod Bit
pub mod Mark
pub mod Fresh
use krven_os.Common.{
  ℕ, zero, suc, ◌+◌, ◌-◌, ◌*◌, ◌/◌, ◌%◌, ◌^◌, Bool, true, false, Option, none, some, ltb, leb, ◌==◌,
  if◌then◌else◌,
}
use krven_os.Fs.{Fs, Sector, SuperBlock, sector_bits, fs_read, fs_write, bit_at, mark_bit}

-- How the bits of a sector leave the loop of `update_sector_map`: with the count at 0, or at the end
-- of the sector with what is left of the count.
pub data Marked : Type 0 where
  finished : Sector → Marked
  unfinished : (pos cnt : ℕ) → Marked

-- The `n` bits from `bit` on; `pos` counts over all sectors. `cnt` is a 32-bit integer.
unfoldable pub mark_loop : ℕ → (bit pos sector_start cnt : ℕ) → Sector → Marked
mark_loop zero bit pos sector_start cnt buf = unfinished pos cnt
mark_loop (suc n) bit pos sector_start cnt buf =
    let buf' = if leb sector_start pos then mark_bit buf bit else buf in
    let cnt' = if leb sector_start pos then (cnt + 2 ^ 32 - 1) % 2 ^ 32 else cnt in
    let rest = mark_loop n (suc bit) (suc pos) sector_start cnt' buf' in
    if cnt' == 0 then finished buf' else rest

-- The `n` map sectors from `sector_id` on: whether the update was completed, and the disk.
unfoldable pub map_loop : ℕ → (sector_id pos sector_start cnt : ℕ) → Fs → Bool × Fs
map_loop zero sector_id pos sector_start cnt fs = (false, fs)
map_loop (suc n) sector_id pos sector_start cnt fs =
    elim (mark_loop sector_bits 0 pos sector_start cnt (fs_read sector_id fs)) [
      | finished buf ↦ (true, fs_write sector_id buf fs)
      | unfinished pos' cnt' ↦ map_loop n (suc sector_id) pos' sector_start cnt' fs
    ]

unfoldable pub update_sector_map : (start count : ℕ) → Fs → Bool × Fs
unfolding map_loop
update_sector_map start count fs =
    map_loop ((count + 2 ^ 32 - 1) % 2 ^ 32 / 4096 + 1) (3 + start / 4096) 0
      (start - start / 4096 * 4096) count fs

-- How a sector leaves the search of `inode_alloc_sector`: with a run that is long enough, or with the
-- length and the start of the run that reaches its end. A start that is not set is `none`.
pub data Search : Type 0 where
  found : (start : Option ℕ) (cnt : ℕ) → Search
  open_run : (num cnt : ℕ) (start : Option ℕ) → Search

unfoldable pub run_loop : ℕ → (bit num cnt : ℕ) (start : Option ℕ) (wanted : ℕ) → Sector → Search
run_loop zero bit num cnt start wanted buf = open_run num cnt start
run_loop (suc n) bit num cnt start wanted buf =
    let used = bit_at buf bit in
    let start' = if used then start else if cnt == 0 then some num else start in
    let cnt' = if used then 0 else cnt + 1 in
    let rest = run_loop n (suc bit) (suc num) cnt' start' wanted buf in
    if cnt' == wanted then found start' cnt' else rest

unfoldable pub search_loop : ℕ → (i num cnt : ℕ) (start : Option ℕ) (wanted : ℕ) → Fs → Search
search_loop zero i num cnt start wanted fs = open_run num cnt start
search_loop (suc n) i num cnt start wanted fs =
    elim (run_loop sector_bits 0 num cnt start wanted (fs_read i fs)) [
      | found s c ↦ found s c
      | open_run num' cnt' start' ↦ search_loop n (suc i) num' cnt' start' wanted fs
    ]

-- The start that is stored in the inode (`none` if no run was found or none was set), and the disk.
unfoldable pub take_run : Fs → Search → Option ℕ × Fs
unfolding update_sector_map
take_run fs (found none cnt) = (none, fs)
take_run fs (found (some start) cnt) = (some start, (update_sector_map start cnt fs).1)
take_run fs (open_run num cnt start) = (none, fs)

-- Is the sector `b` of the disk marked as used?
abbrev pub used : Fs → ℕ → Bool
used fs b = bit_at (fs_read (3 + b / 4096) fs) (b % 4096)

unfoldable pub inode_alloc_sector : (sect_num : ℕ) → Fs → Option ℕ × Fs
unfolding search_loop take_run
inode_alloc_sector sect_num fs =
    take_run fs (search_loop fs.super_block.smap_sects 3 0 0 none sect_num fs)

-- The first clear bit of the `n` from `num` on.
unfoldable pub clear_loop : ℕ → (num : ℕ) → Sector → Option ℕ
clear_loop zero num buf = none
clear_loop (suc n) num buf =
    let rest = clear_loop n (suc num) buf in if bit_at buf num then rest else some num

-- `get_new_inode`: `none` is -1.
unfoldable pub get_new_inode : Fs → Option ℕ × Fs
get_new_inode fs =
    let buf = fs_read 2 fs in
    elim (clear_loop sector_bits 0 buf) [
      | none ↦ (none, fs)
      | some num ↦ (some num, fs_write 2 (mark_bit buf num) fs)
    ]
