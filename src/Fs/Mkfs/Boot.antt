-- ===== src/Fs/Mkfs/Boot.antt =====
-- A disk that `mkfs` of fs/fs.c has made, when the system starts again.
use krven_os.Common.{
  ℕ, suc, ◌+◌, ◌/◌, ◌^◌, ◌<◌, ◌≤◌, ◌≡◌, ◌∙◌, ap, sym, refl, arith, Option, none, some, List, [],
  ◌∷◌,
}
use krven_os.Fs.{Fs, Sector, fs_read}
use krven_os.Fs.Inode.{Inode, copy_in, inode_sector, entry_bytes}
use krven_os.Fs.Inode.RoundTrip.{FitsWords, word_of_bytes}
use krven_os.Fs.Make.Fresh.{find_inode-same}
use krven_os.Fs.Mkfs.{
  new_super, super_bytes, super_word, read_super, root_entry, mkfs, fs_init, entries_loop,
  get_dir_entries,
}
use krven_os.Fs.Mkfs.Root.{mkfs-FreshFs, inode_sector-one}

read_super-super_bytes :
    (sector_num : ℕ) (wtbuf : Sector)
    → sector_num < 2 ^ 31
    → read_super (copy_in 0 (super_bytes (new_super sector_num)) wtbuf) ≡ new_super sector_num
unfolding read_super super_bytes super_word
read_super-super_bytes sector_num wtbuf h =
    rw
      (
        word_of_bytes sector_num (omega arith),
        word_of_bytes (sector_num / 4096 + 1) (omega arith),
        word_of_bytes (new_super sector_num).first_data_sect (omega arith),
      )
      refl

entries_loop-two : (i : ℕ) (fs : Fs) → entries_loop 2 i fs ≡ fs_read i fs ∷ fs_read (suc i) fs ∷ []
unfolding entries_loop
entries_loop-two i fs = refl

-- After `mkfs` on a partition whose data begins within the first 4094 sectors, a start of the system with
-- any memory, which finds that disk and the same partition, reads the super block back, and the request for
-- the entries of inode 1 gives the two sectors of the root directory: the entry "." and zeros.
pub fs_init-mkfs :
    (sector_num : ℕ) (wtbuf : Sector) (junk : Inode) (old : ℕ → ℕ) (fs : Fs)
    → (new_super sector_num).first_data_sect + 2 ≤ 4096
    → FitsWords junk
    → (fs' : Fs) × (mkfs sector_num wtbuf junk old fs ≡ some fs')
      × ((memory : Fs)
          → memory.disk ≡ fs'.disk
          → ((fs_init fs.fs_root memory).super_block ≡ new_super sector_num)
            × (get_dir_entries 1 (fs_init fs.fs_root memory)
                ≡ some (copy_in 0 (entry_bytes (root_entry 1 old)) (λ _. 0) ∷ (λ _. 0) ∷ [])))
unfolding fs_init get_dir_entries
fs_init-mkfs sector_num wtbuf junk old fs fit words =
    let (fs', made, (super, block, root_inode, entry, empty), root) =
      mkfs-FreshFs sector_num wtbuf junk old fs fit words in
    let first : ℕ = (new_super sector_num).first_data_sect in
    (
      fs',
      made,
      λ memory same.
          let reads : (s : ℕ) → fs_read s (fs_init fs.fs_root memory) ≡ fs_read s fs' = λ s.
            ap (λ (d : ℕ → Sector). d (s + fs.fs_root)) same
            ∙ ap (λ r. fs'.disk (s + r)) (sym root) in
          let super' : (fs_init fs.fs_root memory).super_block ≡ new_super sector_num =
            ap read_super (reads 1 ∙ block)
            ∙ read_super-super_bytes sector_num wtbuf (omega arith) in
          let place =
            inode_sector-one sector_num (fs_init fs.fs_root memory) super'
            ∙ sym (inode_sector-one sector_num fs' super) in
          let next : suc first ≡ first + 1 = omega arith in
          let memory' : Fs = fs_init fs.fs_root memory in
          let read =
            find_inode-same 1 fs' memory' place (reads (inode_sector 1 fs')) ∙ root_inode in
          let second = ap (λ s. fs_read s memory') next ∙ reads (first + 1) ∙ empty in
          (
            super',
            ap (entries_of memory') read
                ∙ ap some (entries_loop-two first memory')
                ∙ ap (λ s. some (s ∷ fs_read (suc first) memory' ∷ [])) (reads first ∙ entry)
                ∙ ap (λ s. some (copy_in 0 (entry_bytes (root_entry 1 old)) (λ _. 0) ∷ s ∷ []))
                    second,
          ),
    )
  where
    entries_of : Fs → Option Inode → Option (List Sector)
    entries_of memory r = elim r [
      | none ↦ none
      | some x ↦ some (entries_loop x.sect_num x.start_sect memory)
    ]
