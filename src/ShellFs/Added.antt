-- ===== src/ShellFs/Added.antt =====
-- What `add_dir_entry` of fs/mk.c adds is what shell/shell_fs.c lists.
use mathlib.Core.Path.{subst}
use krven_os.Common.{
  ℕ, ◌+◌, ◌*◌, ◌/◌, ◌%◌, ◌^◌, ◌≤◌, ◌<◌, ◌≡◌, ◌≢◌, ◌∙◌, ap, sym, refl, arith, false, none, some,
  List, [], ◌∷◌, ◌++◌, ◌==◌, length, length-append, ◌⊎◌, inl, inr,
}
use krven_os.Strings.{IsText}
use krven_os.Fs.{Fs, Sector, fs_read}
use krven_os.Fs.Map.Bit.{fs_read-fs_write}
use krven_os.Fs.Inode.{
  Inode, DirEntry, entry_bytes, copy_in, inode_sector, find_inode, dir_loop, add_dir_entry,
}
use krven_os.Fs.Inode.Slots.{
  slot_inode, put_slot, put_slot-same, put_slot-other, dir_loop-first, dir_loop-full,
}
use krven_os.Fs.Make.Fresh.{find_inode-same}
use krven_os.Fs.Mkfs.{entries_loop, get_dir_entries}
use krven_os.Fs.Request.{put_listing}
use krven_os.ShellFs.{entry_inode}
use krven_os.ShellFs.Entries.{Listed, IsEntry, Lists}
use krven_os.ShellFs.Listing.{listing, listing_slot, listing_inode, word_at-agree, Lists-append}
use krven_os.ShellFs.Placed.{named_entry, listed, IsEntry-named, Lists-used, Lists-end}

-- A directory of two sectors that lie behind its inode, with these entries and free places behind them.
abbrev pub IsDir : (dir : ℕ) (buf : ℕ → ℕ) (es : List Listed) (x : Inode) → Fs → Type 0
IsDir dir buf es x fs =
    (find_inode dir fs ≡ some x)
    × (x.sect_num ≡ 2)
    × (inode_sector dir fs < x.start_sect)
    × Lists 32 0 (listing 2 x.start_sect buf fs) es
    × ((k : ℕ) → length es < k → k < 32 → slot_inode x.start_sect fs k ≡ 0)

pub get_dir_entries-IsDir :
    (dir : ℕ) (buf : ℕ → ℕ) (x : Inode) (fs : Fs)
    → find_inode dir fs ≡ some x
    → x.sect_num ≡ 2
    → put_listing (get_dir_entries dir fs) buf ≡ some (listing 2 x.start_sect buf fs)
unfolding get_dir_entries put_listing entries_loop
get_dir_entries-IsDir dir buf x fs found size =
    ap
      (λ r.
        put_listing
          (elim r [ none ↦ none | some x ↦ some (entries_loop x.sect_num x.start_sect fs) ]) buf)
      found
    ∙ ap (λ n. put_listing (some (entries_loop n x.start_sect fs)) buf) size

find_inode-put_slot :
    (dir i k : ℕ) (d : DirEntry) (fs : Fs)
    → inode_sector dir fs < i
    → find_inode dir (put_slot i k d fs) ≡ find_inode dir fs
unfolding inode_sector
find_inode-put_slot dir i k d fs before =
    let s : ℕ = inode_sector dir fs in
    let apart : (s == i + k / 16) ≡ false = ground arith in
    let buf : Sector = copy_in (32 * (k % 16)) (entry_bytes d) (fs_read (i + k / 16) fs) in
    let kept : fs_read s (put_slot i k d fs) ≡ fs_read s fs =
      fs_read-fs_write (i + k / 16) s buf fs ∙ rw apart refl in
    find_inode-same dir fs (put_slot i k d fs) refl kept

inode_sector-put_slot :
    (m i k : ℕ) (d : DirEntry) (fs : Fs) → inode_sector m (put_slot i k d fs) ≡ inode_sector m fs
unfolding inode_sector
inode_sector-put_slot m i k d fs = refl

put_slot-elsewhere :
    (i k s : ℕ) (d : DirEntry) (fs : Fs)
    → k < 32
    → (s < i) ⊎ (i + 2 ≤ s)
    → fs_read s (put_slot i k d fs) ≡ fs_read s fs
put_slot-elsewhere i k s d fs h out =
    let apart : (s == i + k / 16) ≡ false = beside out in
    let buf : Sector = copy_in (32 * (k % 16)) (entry_bytes d) (fs_read (i + k / 16) fs) in
    fs_read-fs_write (i + k / 16) s buf fs ∙ rw apart refl
  where
    beside : (s < i) ⊎ (i + 2 ≤ s) → (s == i + k / 16) ≡ false
    beside (inl below) = ground arith
    beside (inr above) = ground arith

-- The listing with an entry in the first place that is free.
Lists-put_slot :
    (i inode_id type : ℕ) (w : List ℕ) (old buf : ℕ → ℕ) (es : List Listed) (fs : Fs)
    → Lists 32 0 (listing 2 i buf fs) es
    → ((k : ℕ) → length es < k → k < 32 → slot_inode i fs k ≡ 0)
    → length es < 32
    → 0 < inode_id
    → inode_id < 2 ^ 32
    → type < 2 ^ 32
    → IsText w
    → length w < 24
    → Lists 32 0
        (listing 2 i buf (put_slot i (length es) (named_entry inode_id type w old) fs))
        (es ++ (listed inode_id type w ∷ []))
Lists-put_slot i inode_id type w old buf es fs lists free room pos fits fits' text short =
    let n : ℕ = length es in
    let d = named_entry inode_id type w old in
    let fs' : Fs = put_slot i n d fs in
    let a = listing 2 i buf fs in
    let b = listing 2 i buf fs' in
    let other = λ (k o : ℕ) (h : k < 32) (ne : k ≢ n) (h' : o < 32).
      listing_slot 2 i k o buf fs' (omega arith) h'
      ∙ put_slot-other i k n o d fs ne h'
      ∙ sym (listing_slot 2 i k o buf fs (omega arith) h') in
    let last : IsEntry b n (listed inode_id type w) =
      IsEntry-named b n inode_id type w old pos fits fits' text short
        (λ o h. listing_slot 2 i n o buf fs' (omega arith) h ∙ put_slot-same i n o d fs h) in
    let start : n ≡ 0 + n = omega arith in
    let next : 0 + n + 1 < 0 + 32 → entry_inode b (0 + n + 1) ≡ 0 = λ h.
      word_at-agree b a (32 * (0 + n + 1)) (32 * (0 + n + 1))
        (λ o h'. other (0 + n + 1) o (omega arith) (omega arith) (omega arith))
      ∙ listing_inode 2 i (0 + n + 1) buf fs (omega arith)
      ∙ free (0 + n + 1) (omega arith) (omega arith) in
    Lists-append 32 0 a b es (listed inode_id type w) room lists
      (λ k o h h'. other k o (omega arith) (omega arith) h')
      (subst (λ k. IsEntry b k (listed inode_id type w)) start last) next

-- An entry that is added to a directory of two sectors with room is listed: the listing that the shell then
-- gets has the entries that it had, in their order, and behind them the new one with its inode, its name and
-- its type. The directory stays one with free places behind its entries; outside its sectors the disk is as it
-- was, and so are the places of the inodes.
pub add_dir_entry-IsDir :
    (dir inode_id type : ℕ) (w : List ℕ) (old buf : ℕ → ℕ) (es : List Listed) (x : Inode) (fs : Fs)
    → IsDir dir buf es x fs
    → length es < 32
    → 0 < inode_id
    → inode_id < 2 ^ 32
    → type < 2 ^ 32
    → IsText w
    → length w < 24
    → (fs' : Fs) × (add_dir_entry dir (named_entry inode_id type w old) fs ≡ some fs')
      × (put_listing (get_dir_entries dir fs') buf ≡ some (listing 2 x.start_sect buf fs'))
      × IsDir dir buf (es ++ (listed inode_id type w ∷ [])) x fs'
      × ((m : ℕ) → inode_sector m fs' ≡ inode_sector m fs)
      × ((s : ℕ) → (s < x.start_sect) ⊎ (x.start_sect + 2 ≤ s) → fs_read s fs' ≡ fs_read s fs)
unfolding add_dir_entry
add_dir_entry-IsDir dir inode_id type w old buf es x fs (found, size, before, lists, free) room pos
      fits fits' text short =
    let n : ℕ = length es in
    let i : ℕ = x.start_sect in
    let d = named_entry inode_id type w old in
    let fs' : Fs = put_slot i n d fs in
    let end = Lists-end 32 0 (listing 2 i buf fs) es lists room in
    let start : 0 + n ≡ n = omega arith in
    let first_free : slot_inode i fs n ≡ 0 =
      sym (listing_inode 2 i n buf fs (omega arith))
      ∙ subst (λ k. entry_inode (listing 2 i buf fs) k ≡ 0) start end in
    let used = λ (j : ℕ) (h : j < n) (z : slot_inode i fs j ≡ 0).
      let place : 0 + j ≡ j = omega arith in
      Lists-used 32 0 j (listing 2 i buf fs) es lists h (
        ap (entry_inode (listing 2 i buf fs)) place
        ∙ listing_inode 2 i j buf fs (omega arith)
        ∙ z) in
    let found' = find_inode-put_slot dir i n d fs before ∙ found in
    let longer = length-append es (listed inode_id type w ∷ []) in
    (
      fs',
      ap
            (λ r. elim r [
              | none ↦ none
              | some inode ↦ some (dir_loop inode.sect_num inode.start_sect d fs)
            ])
            found
          ∙ ap (λ m. some (dir_loop m i d fs)) size
          ∙ ap some (dir_loop-first 2 i n d fs (omega arith) first_free used),
      get_dir_entries-IsDir dir buf x fs' found' size,
      (
        found',
        size,
        before,
        Lists-put_slot i inode_id type w old buf es fs lists free room pos fits fits' text short,
        λ k h h'.
            word_at-agree (fs_read (i + k / 16) fs') (fs_read (i + k / 16) fs) (32 * (k % 16))
              (32 * (k % 16)) (λ o h4. put_slot-other i k n o d fs (omega arith) (omega arith))
            ∙ free k (omega arith) h',
      ),
      λ m. inode_sector-put_slot m i n d fs,
      λ s out. put_slot-elsewhere i n s d fs room out,
    )

-- In a directory without room nothing is written, and no error is reported.
pub add_dir_entry-full :
    (dir : ℕ) (buf : ℕ → ℕ) (es : List Listed) (d : DirEntry) (x : Inode) (fs : Fs)
    → IsDir dir buf es x fs
    → length es ≡ 32
    → add_dir_entry dir d fs ≡ some fs
unfolding add_dir_entry
add_dir_entry-full dir buf es d x fs (found, size, before, lists, free) full =
    let i : ℕ = x.start_sect in
    ap
      (λ r. elim r [
        | none ↦ none
        | some inode ↦ some (dir_loop inode.sect_num inode.start_sect d fs)
      ])
      found
    ∙ ap (λ m. some (dir_loop m i d fs)) size
    ∙ ap some (
        dir_loop-full 2 i d fs (λ j h z.
          let place : 0 + j ≡ j = omega arith in
          Lists-used 32 0 j (listing 2 i buf fs) es lists (omega arith) (
            ap (entry_inode (listing 2 i buf fs)) place
            ∙ listing_inode 2 i j buf fs (omega arith)
            ∙ z)))
