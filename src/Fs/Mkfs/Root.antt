-- ===== src/Fs/Mkfs/Root.antt =====
-- The root directory that `mkfs` of fs/fs.c makes.
use krven_os.Common.{
  ℕ, suc, ◌+◌, ◌/◌, ◌%◌, ◌<◌, ◌≤◌, ◌≡◌, ◌∙◌, ap, sym, refl, arith, true, Option, none, some, ltb,
  ◌==◌, inl, inr,
}
use krven_os.Fs.{Fs, Sector, SuperBlock, fs_read, fs_write, bit_at, mark_bit}
use krven_os.Fs.Map.{update_sector_map, used}
use krven_os.Fs.Map.Bit.{fs_read-fs_write}
use krven_os.Fs.Inode.{
  Inode, copy_in, clear_sector, inode_sector, find_inode, update_inode, sector_offset, inode_bytes,
  entry_bytes, add_dir_entry,
}
use krven_os.Fs.Inode.RoundTrip.{FitsWords}
use krven_os.Fs.Make.{new_inode, mk_inode, place_inode, store_inode, finish_inode}
use krven_os.Fs.Make.Fresh.{mk_inode_lem, find_inode-same, clear_sector-outside}
use krven_os.Fs.Mkfs.{new_super, super_bytes, install_areas, install_root, root_entry, mkfs}
use krven_os.Fs.Mkfs.Layout.{
  fs_write-Leaves, update_sector_map-Leaves, clear_sector-super, clear_sector-root,
  install_areas-root, Installed, install_areas-Installed,
}
use krven_os.Fs.Mkfs.First.{get_new_inode-Installed, inode_alloc_sector-first, add_dir_entry-empty}

-- Inode 1 lies in a buffer, so that storing it succeeds.
update_inode-one :
    (x : Inode) (fs : Fs)
    → (buf : Sector) × (update_inode 1 x fs ≡ some (fs_write (inode_sector 1 fs) buf fs))
unfolding update_inode sector_offset
update_inode-one x fs =
    (copy_in (sector_offset 1) (inode_bytes x) (fs_read (inode_sector 1 fs) fs), refl)

pub inode_sector-one :
    (sector_num : ℕ) (fs : Fs)
    → fs.super_block ≡ new_super sector_num
    → inode_sector 1 fs ≡ 4 + sector_num / 4096
unfolding inode_sector
inode_sector-one sector_num fs super =
    ap (λ (sb : SuperBlock). 1 + 1 + sb.imap_sects + sb.smap_sects + 1 / 16) super ∙ omega arith

state_of : Fs → Option (ℕ × Fs) → Fs
state_of fs none = fs
state_of fs (some made) = made.1

-- The first inode of an installed disk, and what it leaves.
mk_inode-first :
    (sector_num : ℕ) (wtbuf : Sector) (junk : Inode) (fs0 : Fs)
    → (new_super sector_num).first_data_sect + 2 ≤ 4096
    → FitsWords junk
    → Installed sector_num wtbuf fs0
    → let first = (new_super sector_num).first_data_sect in
      (fs' : Fs) × (mk_inode 1024 0 junk fs0 ≡ some (1, fs'))
      × (find_inode 1 fs' ≡ some (new_inode 1024 0 first junk))
      × (fs_read first fs' ≡ (λ _. 0))
      × (fs_read (first + 1) fs' ≡ (λ _. 0))
      × (fs'.super_block ≡ new_super sector_num)
      × (fs'.fs_root ≡ fs0.fs_root)
      × (fs_read 1 fs' ≡ fs_read 1 fs0)
unfolding mk_inode state_of
mk_inode-first sector_num wtbuf junk fs0 fit words (super, block, imap, marks, zero_inodes) =
    let first : ℕ = (new_super sector_num).first_data_sect in
    let fs1 : Fs = fs_write 2 (mark_bit (fs_read 2 fs0) 1) fs0 in
    let new = get_new_inode-Installed fs0 imap in
    let (super1, root1, kept1) = fs_write-Leaves 2 (mark_bit (fs_read 2 fs0) 1) fs0 in
    let marks1 : (b : ℕ) → b < 4096 → used fs1 b ≡ ltb b first = λ b h.
      ap (λ buf. bit_at buf (b % 4096)) (kept1 (3 + b / 4096) (inr (omega arith))) ∙ marks b h in
    let sects : fs1.super_block.smap_sects ≡ suc (sector_num / 4096) =
      ap (λ (sb : SuperBlock). sb.smap_sects) super ∙ omega arith in
    let fs2 : Fs = (update_sector_map first 2 fs1).1 in
    let run = inode_alloc_sector-first first (sector_num / 4096) fs1 sects fit marks1 in
    let (super2, root2, kept2) = update_sector_map-Leaves first 2 fs1 (omega arith) (omega arith) in
    let sector : inode_sector 1 fs2 ≡ 4 + sector_num / 4096 =
      inode_sector-one sector_num fs2 (super2 ∙ super) in
    let (fs', made, read, zero_run, others) =
      mk_inode_lem 1024 0 junk fs0 fs1 fs2 1 first new run (omega arith) (omega arith)
        (omega arith) in
    let (buf, stored) = update_inode-one (new_inode 1024 0 first junk) fs2 in
    let fs3 : Fs = fs_write (inode_sector 1 fs2) buf fs2 in
    let fs4 : Fs = clear_sector first 2 fs3 in
    let made4 : mk_inode 1024 0 junk fs0 ≡ some (1, fs4) =
      ap (place_inode 1024 0 junk) new
      ∙ ap (store_inode 1024 0 junk 1) run
      ∙ ap (finish_inode 1024 1 first) stored in
    let same : fs' ≡ fs4 = ap (state_of fs0) (sym made ∙ made4) in
    (
      fs',
      made,
      read,
      zero_run first (omega arith) (omega arith),
      zero_run (first + 1) (omega arith) (omega arith),
      ap (λ (fs : Fs). fs.super_block) same ∙ clear_sector-super first 2 fs3 ∙ super2 ∙ super,
      ap (λ (fs : Fs). fs.fs_root) same ∙ clear_sector-root first 2 fs3 ∙ root2,
      ap (fs_read 1) same
          ∙ clear_sector-outside first 2 1 fs3 (inl (omega arith))
          ∙ (fs_write-Leaves (inode_sector 1 fs2) buf fs2).2 1 (inl (omega arith))
          ∙ kept2 1 (inl (omega arith))
          ∙ kept1 1 (inl (omega arith)),
    )

-- A fresh file system: its super block, in memory and on the disk, and the root directory with its entry.
abbrev pub FreshFs : (sector_num : ℕ) (wtbuf : Sector) (junk : Inode) (old : ℕ → ℕ) → Fs → Type 0
FreshFs sector_num wtbuf junk old fs =
    (fs.super_block ≡ new_super sector_num)
    × (fs_read 1 fs ≡ copy_in 0 (super_bytes (new_super sector_num)) wtbuf)
    × (find_inode 1 fs ≡ some (new_inode 1024 0 (new_super sector_num).first_data_sect junk))
    × (fs_read (new_super sector_num).first_data_sect fs
        ≡ copy_in 0 (entry_bytes (root_entry 1 old)) (λ _. 0))
    × (fs_read ((new_super sector_num).first_data_sect + 1) fs ≡ (λ _. 0))

-- On a partition whose data begins within the first 4094 sectors, `mkfs` succeeds: inode 1 is a directory of
-- two sectors at the start of the data, which holds the entry "." of itself and nothing else, and the super
-- block is in memory and in sector 1. The partition stays where it is.
pub mkfs-FreshFs :
    (sector_num : ℕ) (wtbuf : Sector) (junk : Inode) (old : ℕ → ℕ) (fs : Fs)
    → (new_super sector_num).first_data_sect + 2 ≤ 4096
    → FitsWords junk
    → (fs' : Fs) × (mkfs sector_num wtbuf junk old fs ≡ some fs')
      × FreshFs sector_num wtbuf junk old fs'
      × (fs'.fs_root ≡ fs.fs_root)
unfolding mkfs install_root
mkfs-FreshFs sector_num wtbuf junk old fs fit words =
    let first : ℕ = (new_super sector_num).first_data_sect in
    let fs0 : Fs = install_areas sector_num wtbuf fs in
    let installed = install_areas-Installed sector_num wtbuf fs (omega arith) in
    let (fs1, made, read, empty, empty', super, root, block) =
      mk_inode-first sector_num wtbuf junk fs0 fit words installed in
    let entry : Sector = copy_in 0 (entry_bytes (root_entry 1 old)) (λ _. 0) in
    let fs2 : Fs = fs_write first entry fs1 in
    let added =
      add_dir_entry-empty 1 (new_inode 1024 0 first junk) 1 (root_entry 1 old) fs1 read refl
        empty in
    let (super2, root2, kept2) = fs_write-Leaves first entry fs1 in
    let place = inode_sector-one sector_num fs1 super in
    let (areas_super, areas_block, areas_imap, areas_marks, areas_inodes) = installed in
    let self : (first == first) ≡ true = ground arith in
    (
      fs2,
      ap enter made ∙ added,
      (
        super,
        kept2 1 (inl (omega arith)) ∙ block ∙ areas_block,
        find_inode-same 1 fs1 fs2 (inode_sector-one sector_num fs2 super ∙ sym place)
              (kept2 (inode_sector 1 fs1) (inl (omega arith)))
            ∙ read,
        fs_read-fs_write first first entry fs1 ∙ rw self refl,
        kept2 (first + 1) (inr (omega arith)) ∙ empty',
      ),
      root ∙ install_areas-root sector_num wtbuf fs (omega arith),
    )
  where
    enter : Option (ℕ × Fs) → Option Fs
    enter r = elim r [
      | none ↦ none
      | some made ↦ add_dir_entry made.0 (root_entry made.0 old) made.1
    ]
