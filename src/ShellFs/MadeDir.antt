-- ===== src/ShellFs/MadeDir.antt =====
-- A directory that `mk_dir` of fs/mk.c makes is listed by shell/shell_fs.c, and so are its own two entries.
use krven_os.Common.{
  ℕ, suc, ◌+◌, ◌*◌, ◌/◌, ◌%◌, ◌≤◌, ◌<◌, ◌≡◌, ◌∙◌, ◌⊎◌, ap, refl, arith, true, Option, none, some,
  List, [], ◌∷◌, ◌++◌, ltb, length, inl, inr,
}
use krven_os.Strings.{IsText}
use krven_os.Fs.{Fs, Sector, fs_read}
use krven_os.Fs.Map.{get_new_inode, inode_alloc_sector}
use krven_os.Fs.Inode.{Inode, word_at, inode_sector, find_inode, add_dir_entry}
use krven_os.Fs.Inode.RoundTrip.{FitsWords, same_sector}
use krven_os.Fs.Inode.Slots.{slot_inode}
use krven_os.Fs.Make.{
  new_inode, mk_inode, copy_name, current_dir_name, parent_dir_name, add_entries, mk_dir,
}
use krven_os.Fs.Make.Fresh.{find_inode-same}
use krven_os.ShellFs.Entries.{Listed}
use krven_os.ShellFs.Listing.{listing_inode}
use krven_os.ShellFs.Placed.{listed, named_entry}
use krven_os.ShellFs.Added.{IsDir, add_dir_entry-IsDir}
use krven_os.ShellFs.Made.{HasLayout, IsDir-same, mk_inode-IsDir}

-- A directory beside the two sectors from `i` on.
abbrev IsBeside : (i j : ℕ) → Type 0
IsBeside i j = (i + 2 ≤ j) ⊎ (j + 2 ≤ i)

sector_beside : (i j s : ℕ) → IsBeside i j → j ≤ s → s < j + 2 → (s < i) ⊎ (i + 2 ≤ s)
sector_beside i j s (inl after) lo hi = inr (omega arith)
sector_beside i j s (inr before) lo hi = inl (omega arith)

IsBeside-sym : (i j : ℕ) → IsBeside i j → IsBeside j i
IsBeside-sym i j (inl after) = inr after
IsBeside-sym i j (inr before) = inl before

-- It stays where only those sectors change.
IsDir-beside :
    (i dir : ℕ) (buf : ℕ → ℕ) (es : List Listed) (x : Inode) (fs fs' : Fs)
    → inode_sector dir fs < i
    → IsBeside i x.start_sect
    → ((m : ℕ) → inode_sector m fs' ≡ inode_sector m fs)
    → ((s : ℕ) → (s < i) ⊎ (i + 2 ≤ s) → fs_read s fs' ≡ fs_read s fs)
    → IsDir dir buf es x fs
    → IsDir dir buf es x fs'
IsDir-beside i dir buf es x fs fs' front beside placed kept at =
    IsDir-same dir buf es x fs fs'
      (find_inode-same dir fs fs' (placed dir) (kept (inode_sector dir fs) (inl front)))
      (placed dir)
      (kept x.start_sect
        (sector_beside i x.start_sect x.start_sect beside (omega arith) (omega arith)))
      (kept (suc x.start_sect)
        (sector_beside i x.start_sect (suc x.start_sect) beside (omega arith) (omega arith)))
      at

-- Two sectors of zeros behind the inode are an empty directory.
IsDir-empty :
    (dir : ℕ) (buf : ℕ → ℕ) (x : Inode) (fs : Fs)
    → find_inode dir fs ≡ some x
    → x.sect_num ≡ 2
    → inode_sector dir fs < x.start_sect
    → ((s : ℕ) → x.start_sect ≤ s → s < x.start_sect + 2 → fs_read s fs ≡ (λ _. 0))
    → IsDir dir buf [] x fs
IsDir-empty dir buf x fs found two front cleared =
    let free = λ (k : ℕ) (h : k < 32).
      let e : slot_inode x.start_sect fs k ≡ word_at (λ _. 0) (32 * (k % 16)) =
        ap (λ (b : Sector). word_at b (32 * (k % 16)))
          (cleared (x.start_sect + k / 16) (omega arith) (omega arith)) in
      e in
    (
      found,
      two,
      front,
      listing_inode 2 x.start_sect 0 buf fs (omega arith) ∙ free 0 (omega arith),
      λ k h h'. free k h',
    )

-- The steps of `mk_dir`, one behind the other.
add_entries-steps :
    (w : List ℕ) (dir id : ℕ) (old : ℕ → ℕ) (fs f1 f2 f3 : Fs)
    → let name1 = copy_name w old in
      let name2 = copy_name current_dir_name name1 in
      add_dir_entry dir (named_entry id 2 w old) fs ≡ some f1
      → add_dir_entry id (named_entry id 2 current_dir_name name1) f1 ≡ some f2
      → add_dir_entry id (named_entry dir 2 parent_dir_name name2) f2 ≡ some f3
      → add_entries w dir old id fs ≡ some f3
unfolding add_entries
add_entries-steps w dir id old fs f1 f2 f3 added1 added2 added3 =
    ap after1 added1 ∙ ap after2 added2 ∙ added3
  where
    after2 : Option Fs → Option Fs
    after2 r = elim r [
      | none ↦ none
      | some fs2 ↦
          add_dir_entry id
            (named_entry dir 2 parent_dir_name (copy_name current_dir_name (copy_name w old))) fs2
    ]

    after1 : Option Fs → Option Fs
    after1 r = elim r [
      | none ↦ none
      | some fs1 ↦
          after2 (add_dir_entry id (named_entry id 2 current_dir_name (copy_name w old)) fs1)
    ]

-- A name that fits, and an inode that is made.
mk_dir-made :
    (w : List ℕ) (mode dir id : ℕ) (junk : Inode) (old : ℕ → ℕ) (fs made : Fs)
    → length w < 24
    → mk_inode 1024 mode junk fs ≡ some (id, made)
    → mk_dir w mode dir junk old fs ≡ add_entries w dir old id made
unfolding mk_dir
mk_dir-made w mode dir id junk old fs made short done =
    let fits : ltb (length w) 24 ≡ true = ground arith in rw (fits, done) refl

-- The directory that `mk_dir` makes in a directory with room is listed behind the entries that are there, and
-- the new directory's own listing is "." and "..", the second with the inode of the directory that it was made
-- in. The inode numbers are among the first sixteen; the inode and the run of two sectors are free; and the
-- areas of the disk lie in the order in which `mkfs` puts them, with the directory's sectors marked as used.
pub mk_dir-IsDir :
    (mode : ℕ) (junk : Inode) (fs fs1 fs2 : Fs) (dir id start : ℕ) (buf : ℕ → ℕ) (es : List Listed)
    → (x : Inode) (w : List ℕ) (old : ℕ → ℕ) → get_new_inode fs ≡ (some id, fs1)
    → inode_alloc_sector 2 fs1 ≡ (some start, fs2)
    → HasLayout dir id start x fs
    → FitsWords (new_inode 1024 mode start junk)
    → IsDir dir buf es x fs
    → 0 < dir
    → length es < 32
    → IsText w
    → length w < 24
    → (fs' : Fs) × (mk_dir w mode dir junk old fs ≡ some fs')
      × IsDir dir buf (es ++ (listed id 2 w ∷ [])) x fs'
      × IsDir id buf
          (listed id 2 current_dir_name ∷ listed dir 2 parent_dir_name ∷ [])
          (new_inode 1024 mode start junk)
          fs'
mk_dir-IsDir mode junk fs fs1 fs2 dir id start buf es x w old new run layout fits at pos room text
      short =
    let (made, done, inode, places, at0, cleared, apart) =
      mk_inode-IsDir 1024 mode junk fs fs1 fs2 dir id start buf es x new run (omega arith)
        (omega arith) layout fits at in
    let y = new_inode 1024 mode start junk in
    let name1 = copy_name w old in
    let name2 = copy_name current_dir_name name1 in
    let same = same_sector dir id fs (layout.0) (layout.1) in
    let front : inode_sector id made < start = rw (places id) (layout.6) in
    let front' : inode_sector id made < x.start_sect = omega (arith, places id, same, at.2) in
    let back : inode_sector dir made < start = omega (arith, places dir, same, layout.6) in
    let new_dir = IsDir-empty id buf y made inode refl front cleared in
    let (f1, added1, listing1, at1, placed1, kept1) =
      add_dir_entry-IsDir dir id 2 w old buf es x made at0 room (layout.3) (omega arith)
        (omega arith) text short in
    let new1 = IsDir-beside x.start_sect id buf [] y made f1 front' apart placed1 kept1 new_dir in
    let (f2, added2, listing2, new2, placed2, kept2) =
      add_dir_entry-IsDir id id 2 current_dir_name name1 buf [] y f1 new1 (omega arith) (layout.3)
        (omega arith) (omega arith) (omega arith, omega arith, omega arith) (omega arith) in
    let at2 =
      IsDir-beside start dir buf (es ++ (listed id 2 w ∷ [])) x f1 f2 (rw (placed1 dir) back)
        (IsBeside-sym x.start_sect start apart) placed2 kept2 at1 in
    let (f3, added3, listing3, new3, placed3, kept3) =
      add_dir_entry-IsDir id dir 2 parent_dir_name name2 buf (listed id 2 current_dir_name ∷ []) y
        f2 new2 (omega arith) pos (omega arith) (omega arith)
        (omega arith, omega arith, (omega arith, omega arith, omega arith)) (omega arith) in
    let at3 =
      IsDir-beside start dir buf (es ++ (listed id 2 w ∷ [])) x f2 f3
        (rw (placed2 dir, placed1 dir) back) (IsBeside-sym x.start_sect start apart) placed3 kept3
        at2 in
    (
      f3,
      mk_dir-made w mode dir id junk old fs made short done
          ∙ add_entries-steps w dir id old made f1 f2 f3 added1 added2 added3,
      at3,
      new3,
    )
