-- ===== src/Fs/Make/Fresh.antt =====
-- The inode that `mk_inode` makes, as `find_inode` reads it.
use krven_os.Common.{
  ℕ, zero, suc, ◌+◌, ◌/◌, ◌≤◌, ◌<◌, ◌≡◌, ◌≢◌, ◌∙◌, ap, refl, arith, some, ◌⊎◌, Bool-cases, inl, inr,
  false, ◌==◌,
}
use krven_os.Fs.{Fs, fs_read, fs_write}
use krven_os.Fs.Map.Bit.{fs_read-fs_write}
use krven_os.Fs.Map.{get_new_inode, inode_alloc_sector}
use krven_os.Fs.Inode.{Inode, inode_sector, find_inode, clear_sector}
use krven_os.Fs.Inode.RoundTrip.{FitsWords, same_sector, find_inode-update_inode}
use krven_os.Fs.Make.{new_inode, mk_inode, place_inode, store_inode, finish_inode}

pub clear_sector-outside :
    (i n s : ℕ) (fs : Fs) → (s < i) ⊎ (i + n ≤ s) → fs_read s (clear_sector i n fs) ≡ fs_read s fs
unfolding clear_sector
clear_sector-outside i zero s fs out = refl
clear_sector-outside i (suc n) s fs out =
    let ne : (s == i) ≡ false = ground arith in
    let written : fs_read s (fs_write i (λ _. 0) fs) ≡ fs_read s fs =
      fs_read-fs_write i s (λ _. 0) fs ∙ rw ne refl in
    clear_sector-outside (suc i) n s (fs_write i (λ _. 0) fs) (ground arith) ∙ written

pub clear_sector-inside :
    (i n s : ℕ) (fs : Fs) → i ≤ s → s < i + n → fs_read s (clear_sector i n fs) ≡ (λ _. 0)
unfolding clear_sector
clear_sector-inside i zero s fs lo hi = absurd (omega arith)
clear_sector-inside i (suc n) s fs lo hi = elim (Bool-cases (s == i)) [
  | inl here ↦
      let e : s ≡ i = ground arith in
      clear_sector-outside (suc i) n s (fs_write i (λ _. 0) fs) (inl (omega arith))
      ∙ fs_read-fs_write i s (λ _. 0) fs
      ∙ rw here refl
  | inr later ↦
      let ne : s ≢ i = ground arith in
      clear_sector-inside (suc i) n s (fs_write i (λ _. 0) fs) (omega arith) (omega arith)
]

pub inode_sector-clear_sector :
    (id i n : ℕ) (fs : Fs) → inode_sector id (clear_sector i n fs) ≡ inode_sector id fs
unfolding clear_sector inode_sector
inode_sector-clear_sector id i zero fs = refl
inode_sector-clear_sector id i (suc n) fs =
    inode_sector-clear_sector id (suc i) n (fs_write i (λ _. 0) fs)

-- `find_inode` depends on the inode's sector only.
pub find_inode-same :
    (id : ℕ) (fs fs' : Fs)
    → inode_sector id fs' ≡ inode_sector id fs
    → fs_read (inode_sector id fs) fs' ≡ fs_read (inode_sector id fs) fs
    → find_inode id fs' ≡ find_inode id fs
unfolding find_inode
find_inode-same id fs fs' place same = rw (place, same) refl

-- Let `get_new_inode` give one of the first sixteen numbers and `inode_alloc_sector` a run after the
-- inode's sector, with all fields of the inode within words. Then `mk_inode` succeeds with this number,
-- `find_inode` reads under it the size, the mode, the sectors and the start of the run, every sector of
-- the run is zero, and `find_inode` of every other of the first sixteen numbers is as on the disk with the run.
pub mk_inode_lem :
    (size mode : ℕ) (junk : Inode) (fs fs1 fs2 : Fs) (id start : ℕ)
    → get_new_inode fs ≡ (some id, fs1)
    → inode_alloc_sector (size / 512) fs1 ≡ (some start, fs2)
    → id < 16
    → inode_sector id fs2 < start
    → FitsWords (new_inode size mode start junk)
    → (fs' : Fs) × (mk_inode size mode junk fs ≡ some (id, fs'))
      × (find_inode id fs' ≡ some (new_inode size mode start junk))
      × ((s : ℕ) → start ≤ s → s < start + size / 512 → fs_read s fs' ≡ (λ _. 0))
      × ((id' : ℕ) → id' < 16 → id' ≢ id → find_inode id' fs' ≡ find_inode id' fs2)
unfolding mk_inode
mk_inode_lem size mode junk fs fs1 fs2 id start new run low before fits =
    let (fs3, updated, found, others, kept) =
      find_inode-update_inode id (new_inode size mode start junk) fs2 low fits in
    let fs4 : Fs = clear_sector start (size / 512) fs3 in
    let unread = λ (id' : ℕ) (low' : id' < 16).
      find_inode-same id' fs3 fs4 (inode_sector-clear_sector id' start (size / 512) fs3) (
        clear_sector-outside start (size / 512) (inode_sector id' fs3) fs3
          (inl (omega (arith, same_sector id id' fs3 low low', kept id, before)))) in
    (
      fs4,
      ap (place_inode size mode junk) new
          ∙ ap (store_inode size mode junk id) run
          ∙ ap (finish_inode size id start) updated,
      unread id low ∙ found,
      λ s lo hi. clear_sector-inside start (size / 512) s fs3 lo hi,
      λ id' low' ne. unread id' low' ∙ others id' low' ne,
    )
