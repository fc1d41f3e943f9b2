-- ===== src/Fs/Make/Elsewhere.antt =====
-- What `mk_inode` of fs/mk.c leaves as it is.
use mathlib.Core.Path.{subst}
use krven_os.Common.{
  ℕ, ◌+◌, ◌/◌, ◌%◌, ◌≤◌, ◌<◌, ◌≡◌, ◌≢◌, ◌∙◌, ◌⊎◌, ap, sym, refl, arith, none, some, false, Option,
  ◌==◌,
}
use krven_os.Fs.{Fs, Sector, fs_read, fs_write, bit_at, mark_bit, sector_bits}
use krven_os.Fs.Map.{clear_loop, get_new_inode, inode_alloc_sector, used}
use krven_os.Fs.Map.Bit.{fs_read-fs_write}
use krven_os.Fs.Map.Fresh.{NewInode, get_new_inode_lem, Allocated, inode_alloc_sector_lem}
use krven_os.Fs.Mkfs.Layout.{update_sector_map-Leaves}
use krven_os.Fs.Inode.{
  Inode, copy_in, inode_bytes, inode_sector, sector_offset, update_inode, clear_sector,
}
use krven_os.Fs.Inode.RoundTrip.{low_in_buffer, inode_sector-fs_write}
use krven_os.Fs.Make.{new_inode, mk_inode, place_inode, store_inode, finish_inode}
use krven_os.Fs.Inode.{find_inode}
use krven_os.Fs.Inode.RoundTrip.{FitsWords, same_sector}
use krven_os.Fs.Make.Fresh.{
  clear_sector-outside, inode_sector-clear_sector, find_inode-same, mk_inode_lem,
}

get_new_inode-super : (fs : Fs) → (get_new_inode fs).1.super_block ≡ fs.super_block
unfolding get_new_inode
get_new_inode-super fs = go (clear_loop sector_bits 0 (fs_read 2 fs))
  where
    go :
        (r : Option ℕ)
        → (elim r as (λ _. Option ℕ × Fs) [
          | none ↦ (none, fs)
          | some num ↦ (some num, fs_write 2 (mark_bit (fs_read 2 fs) num) fs)
        ]).1.super_block
          ≡ fs.super_block
    go none = refl
    go (some num) = refl

same_made : (id : ℕ) (a b : Fs) → ◌≡◌ {A = Option (ℕ × Fs)} (some (id, a)) (some (id, b)) → a ≡ b
same_made id a b h = cc

-- The number and the run that are given, and the disk after each.
module _ (size mode : ℕ) (junk : Inode) (fs fs1 fs2 : Fs) (id start : ℕ)
    (new : get_new_inode fs ≡ (some id, fs1))
    (run : inode_alloc_sector (size / 512) fs1 ≡ (some start, fs2)) (some_sector : 0 < size / 512)
    (small : size / 512 ≤ 4096) where
  fs1_elsewhere : (s : ℕ) → s ≢ 2 → fs_read s fs1 ≡ fs_read s fs
  fs1_elsewhere = (subst (NewInode fs) new (get_new_inode_lem fs)).4

  allocated : Allocated (size / 512) fs1 (some start, fs2)
  allocated =
      subst (Allocated (size / 512) fs1) run (inode_alloc_sector_lem (size / 512) fs1 some_sector)

  -- The run was free.
  pub run_free : (b : ℕ) → start ≤ b → b < start + size / 512 → used fs b ≡ false
  run_free b lo hi =
      ap (λ (s : Sector). bit_at s (b % 4096)) (sym (fs1_elsewhere (3 + b / 4096) (omega arith)))
      ∙ allocated.0 b lo hi

  pub fs2_elsewhere : (s : ℕ) → s ≢ 2 → s ≢ 3 + start / 4096 → fs_read s fs2 ≡ fs_read s fs
  fs2_elsewhere s ne ne' =
      ap (fs_read s) allocated.1
      ∙ (update_sector_map-Leaves start (size / 512) fs1 some_sector small).2 s
          (beside (3 + start / 4096) ne')
      ∙ fs1_elsewhere s ne
    where
      beside : (t : ℕ) → s ≢ t → (s < t) ⊎ (t + 1 ≤ s)
      beside t apart = ground arith

  pub fs2_super : fs2.super_block ≡ fs.super_block
  fs2_super =
      ap (λ (f : Fs). f.super_block) allocated.1
      ∙ (update_sector_map-Leaves start (size / 512) fs1 some_sector small).0
      ∙ sym (ap (λ (r : Option ℕ × Fs). r.1.super_block) new)
      ∙ get_new_inode-super fs

  -- The inode table has its place.
  pub inode_sector-fs2 : (n : ℕ) → inode_sector n fs2 ≡ inode_sector n fs
  unfolding inode_sector
  inode_sector-fs2 n = rw fs2_super refl

  module _ (low : id < 16) where
    abbrev pub made_fs : Fs
    made_fs = clear_sector start (size / 512) (
        fs_write (inode_sector id fs2)
          (copy_in (sector_offset id) (inode_bytes (new_inode size mode start junk))
            (fs_read (inode_sector id fs2) fs2))
          fs2)

    pub mk_inode-made_fs : mk_inode size mode junk fs ≡ some (id, made_fs)
    unfolding mk_inode update_inode
    mk_inode-made_fs =
        let updated : update_inode id (new_inode size mode start junk) fs2
            ≡ some (
                fs_write (inode_sector id fs2)
                  (copy_in (sector_offset id) (inode_bytes (new_inode size mode start junk))
                    (fs_read (inode_sector id fs2) fs2))
                  fs2) =
          rw (low_in_buffer id low) refl in
        ap (place_inode size mode junk) new
        ∙ ap (store_inode size mode junk id) run
        ∙ ap (finish_inode size id start) updated

    -- Outside the two maps, the sector of the inode and the run the disk is as it was.
    pub made_fs_elsewhere :
        (s : ℕ)
        → s ≢ 2
        → s ≢ 3 + start / 4096
        → s ≢ inode_sector id fs
        → (s < start) ⊎ (start + size / 512 ≤ s)
        → fs_read s made_fs ≡ fs_read s fs
    made_fs_elsewhere s ne ne' ne'' out =
        let t : ℕ = inode_sector id fs2 in
        let buf : Sector =
          copy_in (sector_offset id) (inode_bytes (new_inode size mode start junk))
            (fs_read t fs2) in
        let apart : s ≢ t = λ e. ne'' (e ∙ inode_sector-fs2 id) in
        let test : (s == t) ≡ false = ground arith in
        let kept : fs_read s (fs_write t buf fs2) ≡ fs_read s fs2 =
          fs_read-fs_write t s buf fs2 ∙ rw test refl in
        clear_sector-outside start (size / 512) s (fs_write t buf fs2) out
        ∙ kept
        ∙ fs2_elsewhere s ne ne'

    pub inode_sector-made_fs : (n : ℕ) → inode_sector n made_fs ≡ inode_sector n fs
    inode_sector-made_fs n =
        inode_sector-clear_sector n start (size / 512) _
        ∙ inode_sector-fs_write n (inode_sector id fs2) _ fs2
        ∙ inode_sector-fs2 n

-- Let `get_new_inode` give one of the first sixteen numbers, and `inode_alloc_sector` a run of one to 4096
-- sectors after the inode's sector, with all fields of the inode within words; the maps lie in front of the
-- inodes, and the run starts in the map. Then `mk_inode` succeeds with this number, `find_inode` reads under
-- it the size, the mode, the sectors and the start of the run, and every sector of the run is zero. Against
-- the disk before `mk_inode`, `find_inode` of every other of the first sixteen numbers is as it was, and so is
-- every sector other than that of the inode map, the one of the sector map where the run starts, that of the
-- inode, and those of the run.
pub mk_inode-fresh :
    (size mode : ℕ) (junk : Inode) (fs fs1 fs2 : Fs) (id start : ℕ)
    → get_new_inode fs ≡ (some id, fs1)
    → inode_alloc_sector (size / 512) fs1 ≡ (some start, fs2)
    → 0 < size / 512
    → size / 512 ≤ 4096
    → id < 16
    → 0 < fs.super_block.imap_sects
    → start / 4096 < fs.super_block.smap_sects
    → inode_sector id fs < start
    → FitsWords (new_inode size mode start junk)
    → (fs' : Fs) × (mk_inode size mode junk fs ≡ some (id, fs'))
      × (find_inode id fs' ≡ some (new_inode size mode start junk))
      × ((s : ℕ) → start ≤ s → s < start + size / 512 → fs_read s fs' ≡ (λ _. 0))
      × ((id' : ℕ) → id' < 16 → id' ≢ id → find_inode id' fs' ≡ find_inode id' fs)
      × ((s : ℕ)
          → s ≢ 2
          → s ≢ 3 + start / 4096
          → s ≢ inode_sector id fs
          → (s < start) ⊎ (start + size / 512 ≤ s)
          → fs_read s fs' ≡ fs_read s fs)
unfolding inode_sector
mk_inode-fresh size mode junk fs fs1 fs2 id start new run some_sector small low imap smap before
      fits =
    let made = made_fs size mode junk fs fs1 fs2 id start new run some_sector small low in
    let done = mk_inode-made_fs size mode junk fs fs1 fs2 id start new run some_sector small low in
    let sector_of = inode_sector-fs2 size mode junk fs fs1 fs2 id start new run some_sector small in
    let (fs', done', inode, cleared, others) =
      mk_inode_lem size mode junk fs fs1 fs2 id start new run low (rw (sector_of id) before) fits in
    let same_fs : made ≡ fs' = same_made id made fs' (sym done ∙ done') in
    (
      fs',
      done',
      inode,
      cleared,
      λ id' low' ne.
          let same = same_sector id id' fs low low' in
          others id' low' ne
          ∙ find_inode-same id' fs fs2 (sector_of id') (
              fs2_elsewhere size mode junk fs fs1 fs2 id start new run some_sector small
                (inode_sector id' fs) (omega arith) (omega arith)),
      subst
          (λ f.
            (s : ℕ)
            → s ≢ 2
            → s ≢ 3 + start / 4096
            → s ≢ inode_sector id fs
            → (s < start) ⊎ (start + size / 512 ≤ s)
            → fs_read s f ≡ fs_read s fs)
          same_fs
          (made_fs_elsewhere size mode junk fs fs1 fs2 id start new run some_sector small low),
    )
