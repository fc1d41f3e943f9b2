-- ===== src/Fs/Tests.antt =====
-- The theorems on the file system at one input.
use krven_os.Common.{
  ℕ, suc, ◌+◌, ◌*◌, ◌/◌, ◌%◌, ◌<◌, ◌≤◌, ◌≡◌, ◌≢◌, ◌⊎◌, ◌==◌, if◌then◌else◌, refl, arith, Bool, true,
  false, ◌&&◌, ◌||◌, ltb, leb, Option, none, some, [], ◌∷◌,
}
use krven_os.Fs.{Fs, SuperBlock, fs_read}
use krven_os.Fs.Map.{used, update_sector_map, get_new_inode, inode_alloc_sector}
use krven_os.Fs.Map.Mark.{update_sector_map-used}
use krven_os.Fs.Map.Fresh.{Allocated, inode_alloc_sector_lem}
use krven_os.Fs.Mkfs.{mkfs, new_super, root_entry, fs_init, get_dir_entries}
use krven_os.Fs.Mkfs.Root.{FreshFs, mkfs-FreshFs}
use krven_os.Fs.Mkfs.Boot.{fs_init-mkfs}
use krven_os.Fs.Inode.{Inode, copy_in, entry_bytes, update_inode, find_inode, inode_sector}
use krven_os.Fs.Inode.Bounds.{inode_out_of_buffer}
use krven_os.Fs.Inode.RoundTrip.{FitsWords, find_inode-update_inode}
use krven_os.Fs.Make.{mk_inode, new_inode}
use krven_os.Fs.Make.Elsewhere.{mk_inode-fresh}

abbrev empty_fs : Fs
empty_fs = record {
  disk = λ _ _. 0;
  fs_root = 100;
  super_block = record {
    magic = 0x6666;
    inode_num = 4096;
    inode_sects = 256;
    sect_num = 10000;
    imap_sects = 1;
    smap_sects = 3;
    first_data_sect = 262;
    root_inode = 1;
  };
}

abbrev small_file : Inode
small_file = record {
  mode = 3;
  size = 1024;
  start_sect = 300;
  sect_num = 2;
  v0 = 0;
  v1 = 0;
  v2 = 0;
  v3 = 0;
}

update_sector_map-used_example :
    let (done, fs') = update_sector_map 300 2 empty_fs in
    (done ≡ true) × ((b : ℕ) → used fs' b ≡ ((leb 300 b && ltb b (300 + 2)) || used empty_fs b))
update_sector_map-used_example = update_sector_map-used 300 2 empty_fs (omega arith) (omega arith)

inode_alloc_sector_example : Allocated 2 empty_fs (inode_alloc_sector 2 empty_fs)
inode_alloc_sector_example = inode_alloc_sector_lem 2 empty_fs (omega arith)

inode_out_of_buffer_example :
    (update_inode 16 small_file empty_fs ≡ none) × (find_inode 16 empty_fs ≡ none)
inode_out_of_buffer_example = inode_out_of_buffer 16 small_file empty_fs (omega arith) (omega arith)

find_inode-update_inode_example :
    (fs' : Fs) × (update_inode 5 small_file empty_fs ≡ some fs')
    × (find_inode 5 fs' ≡ some small_file)
    × ((id' : ℕ) → id' < 16 → id' ≢ 5 → find_inode id' fs' ≡ find_inode id' empty_fs)
    × ((n : ℕ) → inode_sector n fs' ≡ inode_sector n empty_fs)
find_inode-update_inode_example = find_inode-update_inode 5 small_file empty_fs (omega arith) (
  omega arith,
  omega arith,
  omega arith,
  omega arith,
  omega arith,
  omega arith,
  omega arith,
  omega arith,
)

-- One sector of marks, with the first eight sectors in use.
abbrev tiny_fs : Fs
tiny_fs = record empty_fs {
  disk = λ s i. if (s == 103) && (i == 0) then 255 else 0;
  super_block = record empty_fs.super_block { imap_sects = 1; smap_sects = 1 };
}

abbrev numbered : Fs
numbered = (get_new_inode tiny_fs).1

abbrev placed : Fs
placed = (inode_alloc_sector (1024 / 512) numbered).1

first_number : get_new_inode tiny_fs ≡ (some 0, numbered)
unfolding get_new_inode krven_os.Fs.Map.clear_loop krven_os.Common.Bits.has_bit
first_number = refl

first_run : inode_alloc_sector (1024 / 512) numbered ≡ (some 8, placed)
unfolding inode_alloc_sector get_new_inode krven_os.Fs.Map.clear_loop krven_os.Fs.Map.run_loop
    krven_os.Common.Bits.has_bit
first_run = refl

before : inode_sector 0 tiny_fs < 8
unfolding inode_sector inode_alloc_sector get_new_inode krven_os.Fs.Map.clear_loop
    krven_os.Fs.Map.run_loop krven_os.Common.Bits.has_bit krven_os.Fs.Map.mark_loop
before = omega arith

mk_inode-fresh_example :
    (fs' : Fs) × (mk_inode 1024 3 small_file tiny_fs ≡ some (0, fs'))
    × (find_inode 0 fs' ≡ some (new_inode 1024 3 8 small_file))
    × ((s : ℕ) → 8 ≤ s → s < 8 + 1024 / 512 → fs_read s fs' ≡ (λ _. 0))
    × ((id' : ℕ) → id' < 16 → id' ≢ 0 → find_inode id' fs' ≡ find_inode id' tiny_fs)
    × ((s : ℕ)
        → s ≢ 2
        → s ≢ 3 + 8 / 4096
        → s ≢ inode_sector 0 tiny_fs
        → (s < 8) ⊎ (8 + 1024 / 512 ≤ s)
        → fs_read s fs' ≡ fs_read s tiny_fs)
mk_inode-fresh_example =
    mk_inode-fresh 1024 3 small_file tiny_fs numbered placed 0 8 first_number first_run
      (omega arith) (omega arith) (omega arith) (omega arith) (omega arith) before
      (
        omega arith,
        omega arith,
        omega arith,
        omega arith,
        omega arith,
        omega arith,
        omega arith,
        omega arith,
      )

small_file-FitsWords : FitsWords small_file
small_file-FitsWords = (
  omega arith,
  omega arith,
  omega arith,
  omega arith,
  omega arith,
  omega arith,
  omega arith,
  omega arith,
)

-- A partition of 20000 sectors.
mkfs-FreshFs_example :
    (fs' : Fs) × (mkfs 20000 (λ _. 0) small_file (λ _. 0) empty_fs ≡ some fs')
    × FreshFs 20000 (λ _. 0) small_file (λ _. 0) fs'
    × (fs'.fs_root ≡ empty_fs.fs_root)
mkfs-FreshFs_example =
    mkfs-FreshFs 20000 (λ _. 0) small_file (λ _. 0) empty_fs (omega arith) small_file-FitsWords

fs_init-mkfs_example :
    (fs' : Fs) × (mkfs 20000 (λ _. 0) small_file (λ _. 0) empty_fs ≡ some fs')
    × ((memory : Fs)
        → memory.disk ≡ fs'.disk
        → ((fs_init empty_fs.fs_root memory).super_block ≡ new_super 20000)
          × (get_dir_entries 1 (fs_init empty_fs.fs_root memory)
              ≡ some (copy_in 0 (entry_bytes (root_entry 1 (λ _. 0))) (λ _. 0) ∷ (λ _. 0) ∷ [])))
fs_init-mkfs_example =
    fs_init-mkfs 20000 (λ _. 0) small_file (λ _. 0) empty_fs (omega arith) small_file-FitsWords
