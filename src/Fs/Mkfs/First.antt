-- ===== src/Fs/Mkfs/First.antt =====
-- What the first inode, the first run of sectors and the first entry are on a disk that `mkfs` of fs/fs.c has laid out.
use krven_os.Common.{
  ℕ, suc, ◌+◌, ◌/◌, ◌%◌, ◌<◌, ◌≤◌, ◌≡◌, ◌∙◌, ap, arith, true, false, Option, none, some, ltb,
}
use krven_os.Fs.{Fs, Sector, fs_read, fs_write, bit_at, mark_bit, sector_bits}
use krven_os.Fs.Map.{
  update_sector_map, used, Search, found, open_run, search_loop, take_run, inode_alloc_sector,
  get_new_inode,
}
use krven_os.Fs.Map.Bit.{bit_at-mark_bit}
use krven_os.Fs.Inode.{
  Inode, DirEntry, copy_in, find_inode, entry_bytes, entry_loop, dir_loop, add_dir_entry,
}
use krven_os.Fs.Mkfs.Layout.{bit_at-empty, run_loop-first, clear_loop-second}

-- The first inode and the first two sectors of the data.
pub get_new_inode-Installed :
    (fs : Fs)
    → fs_read 2 fs ≡ mark_bit (λ _. 0) 0
    → get_new_inode fs ≡ (some 1, fs_write 2 (mark_bit (fs_read 2 fs) 1) fs)
unfolding get_new_inode
get_new_inode-Installed fs map =
    let one : bit_at (fs_read 2 fs) 0 ≡ true =
      ap (λ s. bit_at s 0) map ∙ bit_at-mark_bit (λ _. 0) 0 0 in
    let two : bit_at (fs_read 2 fs) 1 ≡ false =
      ap (λ s. bit_at s 1) map ∙ bit_at-mark_bit (λ _. 0) 0 1 ∙ bit_at-empty 1 in
    ap give (clear_loop-second 4094 (fs_read 2 fs) one two)
  where
    give : Option ℕ → Option ℕ × Fs
    give r = elim r [
      | none ↦ (none, fs)
      | some num ↦ (some num, fs_write 2 (mark_bit (fs_read 2 fs) num) fs)
    ]

-- The marks of the first 4096 sectors are in the first sector of the map.
pub used-first : (b : ℕ) (fs : Fs) → b < 4096 → bit_at (fs_read 3 fs) b ≡ used fs b
used-first b fs h =
    let zero_row : 0 ≡ b / 4096 = omega arith in
    let place : b ≡ b % 4096 = omega arith in
    ap (λ k. bit_at (fs_read (3 + k) fs) b) zero_row ∙ ap (bit_at (fs_read (3 + b / 4096) fs)) place

pub search_loop-first :
    (first smap : ℕ) (fs : Fs)
    → first + 2 ≤ 4096
    → ((b : ℕ) → b < 4096 → used fs b ≡ ltb b first)
    → search_loop (suc smap) 3 0 0 none 2 fs ≡ found (some first) 2
unfolding search_loop
search_loop-first first smap fs room marks = ap next (
    run_loop-first sector_bits 0 first none (fs_read 3 fs) (omega arith) (omega arith)
      (λ b h. used-first b fs (omega arith) ∙ marks b (omega arith) ∙ ground arith)
      (used-first first fs (omega arith) ∙ marks first (omega arith) ∙ ground arith)
      (used-first (suc first) fs (omega arith) ∙ marks (suc first) (omega arith) ∙ ground arith))
  where
    next : Search → Search
    next r = elim r [
      | found s c ↦ found s c
      | open_run num cnt start ↦ search_loop smap 4 num cnt start 2 fs
    ]

pub inode_alloc_sector-first :
    (first smap : ℕ) (fs : Fs)
    → fs.super_block.smap_sects ≡ suc smap
    → first + 2 ≤ 4096
    → ((b : ℕ) → b < 4096 → used fs b ≡ ltb b first)
    → inode_alloc_sector 2 fs ≡ (some first, (update_sector_map first 2 fs).1)
unfolding inode_alloc_sector take_run
inode_alloc_sector-first first smap fs sects room marks =
    ap (λ n. take_run fs (search_loop n 3 0 0 none 2 fs)) sects
    ∙ ap (take_run fs) (search_loop-first first smap fs room marks)

-- The entry in an empty directory.
pub dir_loop-empty :
    (n i : ℕ) (d : DirEntry) (fs : Fs)
    → fs_read i fs ≡ (λ _. 0)
    → dir_loop (suc n) i d fs ≡ fs_write i (copy_in 0 (entry_bytes d) (λ _. 0)) fs
unfolding dir_loop entry_loop
dir_loop-empty n i d fs empty = ap write empty
  where
    write : Sector → Fs
    write buf = elim (entry_loop 16 0 buf) [
      | some j ↦ fs_write i (copy_in j (entry_bytes d) buf) fs
      | none ↦ dir_loop n (suc i) d fs
    ]

pub add_dir_entry-empty :
    (dir : ℕ) (x : Inode) (n : ℕ) (d : DirEntry) (fs : Fs)
    → find_inode dir fs ≡ some x
    → x.sect_num ≡ suc n
    → fs_read x.start_sect fs ≡ (λ _. 0)
    → add_dir_entry dir d fs ≡ some (fs_write x.start_sect (copy_in 0 (entry_bytes d) (λ _. 0)) fs)
unfolding add_dir_entry
add_dir_entry-empty dir x n d fs read sects empty =
    ap add read
    ∙ ap (λ k. some (dir_loop k x.start_sect d fs)) sects
    ∙ ap some (dir_loop-empty n x.start_sect d fs empty)
  where
    add : Option Inode → Option Fs
    add r = elim r [
      | none ↦ none
      | some inode ↦ some (dir_loop inode.sect_num inode.start_sect d fs)
    ]
