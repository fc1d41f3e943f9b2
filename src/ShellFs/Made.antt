-- ===== src/ShellFs/Made.antt =====
-- A file that `mk_file` of fs/mk.c makes is listed by shell/shell_fs.c.
use mathlib.Core.Path.{subst}
use krven_os.Common.{
  ℕ, suc, ◌+◌, ◌*◌, ◌/◌, ◌%◌, ◌≤◌, ◌<◌, ◌≡◌, ◌≢◌, ◌∙◌, ◌⊎◌, ap, sym, refl, arith, true, false,
  Option, some, List, [], ◌∷◌, ◌++◌, ltb, length, Bool-cases, inl, inr,
}
use krven_os.Strings.{IsText}
use krven_os.Fs.{Fs, Sector, fs_read}
use krven_os.Fs.Map.{get_new_inode, inode_alloc_sector, used}
use krven_os.Fs.Inode.{Inode, word_at, inode_sector, find_inode}
use krven_os.Fs.Inode.RoundTrip.{FitsWords, same_sector}
use krven_os.Fs.Make.{new_inode, mk_inode, mk_file}
use krven_os.Fs.Make.Fresh.{mk_inode_lem, find_inode-same}
use krven_os.Fs.Make.Elsewhere.{
  run_free, fs2_elsewhere, inode_sector-fs2, made_fs, mk_inode-made_fs, made_fs_elsewhere,
  inode_sector-made_fs,
}
use krven_os.Fs.Mkfs.{entries_loop}
use krven_os.ShellFs.Entries.{Listed, Lists}
use krven_os.ShellFs.Listing.{listing}
use krven_os.ShellFs.Placed.{listed}
use krven_os.ShellFs.Added.{IsDir, add_dir_entry-IsDir}

-- A directory depends on its inode and its two sectors.
pub IsDir-same :
    (dir : ℕ) (buf : ℕ → ℕ) (es : List Listed) (x : Inode) (fs fs' : Fs)
    → find_inode dir fs' ≡ find_inode dir fs
    → inode_sector dir fs' ≡ inode_sector dir fs
    → fs_read x.start_sect fs' ≡ fs_read x.start_sect fs
    → fs_read (suc x.start_sect) fs' ≡ fs_read (suc x.start_sect) fs
    → IsDir dir buf es x fs
    → IsDir dir buf es x fs'
unfolding entries_loop
IsDir-same dir buf es x fs fs' found place first second (at, size, before, lists, free) =
    let same : listing 2 x.start_sect buf fs' ≡ listing 2 x.start_sect buf fs =
      rw (first, second) refl in
    (
      found ∙ at,
      size,
      rw place before,
      subst (λ b. Lists 32 0 b es) (sym same) lists,
      λ k h h'. elim (Bool-cases (ltb k 16)) [
        | inl low ↦
            let below : k < 16 = ground arith in
            let e : x.start_sect + k / 16 ≡ x.start_sect = omega arith in
            let kept : fs_read (x.start_sect + k / 16) fs' ≡ fs_read (x.start_sect + k / 16) fs =
              rw e first in
            ap (λ (b : Sector). word_at b (32 * (k % 16))) kept ∙ free k h h'
        | inr high ↦
            let above : 16 ≤ k = ground arith in
            let e : x.start_sect + k / 16 ≡ suc x.start_sect = omega arith in
            let kept : fs_read (x.start_sect + k / 16) fs' ≡ fs_read (x.start_sect + k / 16) fs =
              rw e second in
            ap (λ (b : Sector). word_at b (32 * (k % 16))) kept ∙ free k h h'
      ],
    )

-- The inode numbers are those of the first sixteen, the two maps lie in front of the inodes, the inodes in
-- front of the run, and the sectors of the directory are marked as used.
abbrev pub HasLayout : (dir id start : ℕ) (x : Inode) → Fs → Type 0
HasLayout dir id start x fs =
    (dir < 16)
    × (id < 16)
    × (dir ≢ id)
    × (0 < id)
    × (0 < fs.super_block.imap_sects)
    × (start / 4096 < fs.super_block.smap_sects)
    × (inode_sector id fs < start)
    × (used fs x.start_sect ≡ true)
    × (used fs (suc x.start_sect) ≡ true)

-- A sector that is marked as used is not in the run.
outside_run :
    (b start n : ℕ) (fs : Fs)
    → ((b : ℕ) → start ≤ b → b < start + n → used fs b ≡ false)
    → used fs b ≡ true
    → (b < start) ⊎ (start + n ≤ b)
outside_run b start n fs unused taken = elim (Bool-cases (ltb b start)) [
  | inl below ↦ inl (ground arith)
  | inr above ↦ elim (Bool-cases (ltb b (start + n))) [
    | inl inside ↦ absurd (ground (arith, unused b))
    | inr past ↦ inr (ground arith)
  ]
]

-- Two sectors that are both outside a run are on one side of it, if it has a sector.
runs_apart :
    (i start n : ℕ)
    → (i < start) ⊎ (start + n ≤ i)
    → (suc i < start) ⊎ (start + n ≤ suc i)
    → 0 < n
    → (i + 2 ≤ start) ⊎ (start + n ≤ i)
runs_apart i start n (inr above) second pos = inr above
runs_apart i start n (inl below) (inl below') pos = inl (omega arith)
runs_apart i start n (inl below) (inr above) pos = absurd (omega arith)

same_disk : (id : ℕ) (a b : Fs) → ◌≡◌ {A = Option (ℕ × Fs)} (some (id, a)) (some (id, b)) → a ≡ b
same_disk id a b h = cc

module _ (size mode : ℕ) (junk : Inode) (fs fs1 fs2 : Fs) (dir id start : ℕ) (buf : ℕ → ℕ)
    (es : List Listed) (x : Inode) (new : get_new_inode fs ≡ (some id, fs1))
    (run : inode_alloc_sector (size / 512) fs1 ≡ (some start, fs2)) (some_sector : 0 < size / 512)
    (small : size / 512 ≤ 4096) (layout : HasLayout dir id start x fs)
    (fits : FitsWords (new_inode size mode start junk)) (at : IsDir dir buf es x fs) where
  -- The inode is made, and the directory is as it was.
  pub mk_inode-IsDir :
      (fs' : Fs) × (mk_inode size mode junk fs ≡ some (id, fs'))
      × (find_inode id fs' ≡ some (new_inode size mode start junk))
      × ((n : ℕ) → inode_sector n fs' ≡ inode_sector n fs)
      × IsDir dir buf es x fs'
      × ((s : ℕ) → start ≤ s → s < start + size / 512 → fs_read s fs' ≡ (λ _. 0))
      × ((x.start_sect + 2 ≤ start) ⊎ (start + size / 512 ≤ x.start_sect))
  unfolding inode_sector
  mk_inode-IsDir =
      let (dir_low, low, ne, pos, imap, smap, before, taken, taken') = layout in
      let (found, two, front, lists, free) = at in
      let made : Fs = made_fs size mode junk fs fs1 fs2 id start new run some_sector small low in
      let done =
        mk_inode-made_fs size mode junk fs fs1 fs2 id start new run some_sector small low in
      let sector_of =
        inode_sector-fs2 size mode junk fs fs1 fs2 id start new run some_sector small in
      let (fs', done', inode, cleared, others) =
        mk_inode_lem size mode junk fs fs1 fs2 id start new run low (rw (sector_of id) before)
          fits in
      let same_fs : fs' ≡ made = same_disk id fs' made (sym done' ∙ done) in
      let unused = run_free size mode junk fs fs1 fs2 id start new run some_sector small in
      let outside =
        λ (b : ℕ) (e : used fs b ≡ true). outside_run b start (size / 512) fs unused e in
      let elsewhere =
        made_fs_elsewhere size mode junk fs fs1 fs2 id start new run some_sector small low in
      let same = same_sector dir id fs dir_low low in
      let first =
        elsewhere x.start_sect (omega arith) (omega arith) (omega arith)
          (outside x.start_sect taken) in
      let second =
        elsewhere (suc x.start_sect) (omega arith) (omega arith) (omega arith)
          (outside (suc x.start_sect) taken') in
      let kept =
        fs2_elsewhere size mode junk fs fs1 fs2 id start new run some_sector small
          (inode_sector dir fs) (omega arith) (omega arith) in
      let found' : find_inode dir made ≡ find_inode dir fs =
        subst (λ f. find_inode dir f ≡ find_inode dir fs2) same_fs (others dir dir_low ne)
        ∙ find_inode-same dir fs fs2 (sector_of dir) kept in
      let places =
        inode_sector-made_fs size mode junk fs fs1 fs2 id start new run some_sector small low in
      (
        made,
        done,
        subst (λ f. find_inode id f ≡ some (new_inode size mode start junk)) same_fs inode,
        places,
        IsDir-same dir buf es x fs made found' (places dir) first second at,
        subst (λ (f : Fs). (s : ℕ) → start ≤ s → s < start + size / 512 → fs_read s f ≡ (λ _. 0))
            same_fs cleared,
        runs_apart x.start_sect start (size / 512) (outside x.start_sect taken)
            (outside (suc x.start_sect) taken') some_sector,
      )

  -- A file of at least one sector that `mk_file` makes in a directory with room is listed behind the entries
  -- that the directory has, with its inode and as a file; its inode is found with the size, the mode, and
  -- the sectors that it was given. The areas of the disk lie in the order in which `mkfs` puts them.
  pub mk_file-IsDir :
      (w : List ℕ) (old : ℕ → ℕ)
      → length es < 32
      → IsText w
      → length w < 24
      → (fs' : Fs) × (mk_file w size mode dir junk old fs ≡ some fs')
        × (find_inode id fs' ≡ some (new_inode size mode start junk))
        × IsDir dir buf (es ++ (listed id 1 w ∷ [])) x fs'
  unfolding mk_file
  mk_file-IsDir w old room text short =
      let same = same_sector dir id fs (layout.0) (layout.1) in
      let front : inode_sector id fs < x.start_sect = omega (arith, same, at.2) in
      let (made, done, inode, places, at', cleared, apart) = mk_inode-IsDir in
      let fits_name : ltb (length w) 24 ≡ true = ground arith in
      let (fs', added, listing', at'', placed, kept) =
        add_dir_entry-IsDir dir id 1 w old buf es x made at' room (layout.3) (omega arith)
          (omega arith) text short in
      (
        fs',
        rw (fits_name, done) added,
        find_inode-same id made fs' (placed id)
              (kept (inode_sector id made) (inl (rw (places id) front)))
            ∙ inode,
        at'',
      )
