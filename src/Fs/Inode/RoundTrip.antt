-- ===== src/Fs/Inode/RoundTrip.antt =====
-- `update_inode` and `find_inode` of fs/mk.c against one another.
use krven_os.Common.{
  ℕ, ◌+◌, ◌-◌, ◌*◌, ◌/◌, ◌%◌, ◌^◌, ◌≤◌, ◌<◌, ◌≡◌, ◌∙◌, ap, sym, refl, arith, true, some, ltb, leb,
  ◌⊎◌, ◌≢◌, Bool-cases, inl, inr,
}
use krven_os.Fs.{Fs, Sector, fs_read, fs_write}
use krven_os.Fs.Map.Bit.{fs_read-fs_write}
use krven_os.Fs.Inode.{
  Inode, word_at, inode_bytes, inode_word, copy_in, read_inode, inode_sector, sector_offset,
  in_buffer, update_inode, find_inode,
}
use krven_os.Fs.Inode.Bounds.{offset_low}

pub copy_in-at :
    (o k : ℕ) (bytes : ℕ → ℕ) (buf : Sector) → k < 32 → copy_in o bytes buf (o + k) ≡ bytes k
copy_in-at o k bytes buf h =
    let there : o + k - o ≡ k = omega arith in
    let after : leb o (o + k) ≡ true = ground arith in
    let before : ltb (o + k) (o + 32) ≡ true = ground arith in rw (after, before, there)

word_at-copy_in :
    (o p q : ℕ) (bytes : ℕ → ℕ) (buf : Sector)
    → q ≡ o + p
    → p < 29
    → word_at (copy_in o bytes buf) q ≡ word_at bytes p
word_at-copy_in o p q bytes buf e h =
    rw
      (
        copied q p e (omega arith),
        copied (q + 1) (p + 1) (omega arith) (omega arith),
        copied (q + 2) (p + 2) (omega arith) (omega arith),
        copied (q + 3) (p + 3) (omega arith) (omega arith),
      )
      refl
  where
    copied : (q' p' : ℕ) → q' ≡ o + p' → p' < 32 → copy_in o bytes buf q' ≡ bytes p'
    copied q' p' e' h' = ap (copy_in o bytes buf) e' ∙ copy_in-at o p' bytes buf h'

pub word_of_bytes :
    (w : ℕ)
    → w < 2 ^ 32
    → w % 256 + w / 256 % 256 * 256 + w / 65536 % 256 * 65536 + w / 16777216 % 256 * 16777216 ≡ w
word_of_bytes w h = omega arith

-- Every field of an inode fits a word.
abbrev pub FitsWords : Inode → Type 0
FitsWords x =
    (x.mode < 2 ^ 32)
    × (x.size < 2 ^ 32)
    × (x.start_sect < 2 ^ 32)
    × (x.sect_num < 2 ^ 32)
    × (x.v0 < 2 ^ 32)
    × (x.v1 < 2 ^ 32)
    × (x.v2 < 2 ^ 32)
    × (x.v3 < 2 ^ 32)

read_inode-copy_in :
    (o : ℕ) (x : Inode) (buf : Sector)
    → FitsWords x
    → read_inode (copy_in o (inode_bytes x) buf) o ≡ x
unfolding read_inode inode_bytes inode_word
read_inode-copy_in o x buf (h0, h1, h2, h3, h4, h5, h6, h7) =
    let at =
      λ (p q : ℕ) (e : q ≡ o + p) (h : p < 29). word_at-copy_in o p q (inode_bytes x) buf e h in
    rw
      (
        at 0 o (omega arith) (omega arith) ∙ word_of_bytes x.mode h0,
        at 4 (o + 4) refl (omega arith) ∙ word_of_bytes x.size h1,
        at 8 (o + 8) refl (omega arith) ∙ word_of_bytes x.start_sect h2,
        at 12 (o + 12) refl (omega arith) ∙ word_of_bytes x.sect_num h3,
        at 16 (o + 16) refl (omega arith) ∙ word_of_bytes x.v0 h4,
        at 20 (o + 20) refl (omega arith) ∙ word_of_bytes x.v1 h5,
        at 24 (o + 24) refl (omega arith) ∙ word_of_bytes x.v2 h6,
        at 28 (o + 28) refl (omega arith) ∙ word_of_bytes x.v3 h7,
      )
      refl

-- A word and a struct that the copy does not touch.
word_at-copy_in_ne :
    (o q : ℕ) (bytes : ℕ → ℕ) (buf : Sector)
    → (q + 4 ≤ o) ⊎ (o + 32 ≤ q)
    → word_at (copy_in o bytes buf) q ≡ word_at buf q
word_at-copy_in_ne o q bytes buf apart =
    rw
      (
        kept q (omega arith) (omega arith),
        kept (q + 1) (omega arith) (omega arith),
        kept (q + 2) (omega arith) (omega arith),
        kept (q + 3) (omega arith) (omega arith),
      )
      refl
  where
    kept : (q' : ℕ) → q ≤ q' → q' < q + 4 → copy_in o bytes buf q' ≡ buf q'
    kept q' lo hi = ground arith

read_inode-copy_in_ne :
    (o o' : ℕ) (bytes : ℕ → ℕ) (buf : Sector)
    → (o' + 32 ≤ o) ⊎ (o + 32 ≤ o')
    → read_inode (copy_in o bytes buf) o' ≡ read_inode buf o'
unfolding read_inode
read_inode-copy_in_ne o o' bytes buf apart =
    rw
      (
        kept o' (omega arith) (omega arith),
        kept (o' + 4) (omega arith) (omega arith),
        kept (o' + 8) (omega arith) (omega arith),
        kept (o' + 12) (omega arith) (omega arith),
        kept (o' + 16) (omega arith) (omega arith),
        kept (o' + 20) (omega arith) (omega arith),
        kept (o' + 24) (omega arith) (omega arith),
        kept (o' + 28) (omega arith) (omega arith),
      )
      refl
  where
    apart-inside : (q : ℕ) → o' ≤ q → q < o' + 29 → (q + 4 ≤ o) ⊎ (o + 32 ≤ q)
    apart-inside q lo hi = ground arith

    kept : (q : ℕ) → o' ≤ q → q < o' + 29 → word_at (copy_in o bytes buf) q ≡ word_at buf q
    kept q lo hi = word_at-copy_in_ne o q bytes buf (apart-inside q lo hi)

pub same_sector :
    (id id' : ℕ) (fs : Fs) → id < 16 → id' < 16 → inode_sector id' fs ≡ inode_sector id fs
unfolding inode_sector
same_sector id id' fs h h' = omega arith

offsets_apart :
    (id id' : ℕ)
    → id < 16
    → id' < 16
    → id' ≢ id
    → (sector_offset id' + 32 ≤ sector_offset id) ⊎ (sector_offset id + 32 ≤ sector_offset id')
offsets_apart id id' h h' ne =
    rw (offset_low id h, offset_low id' h')
      (elim (Bool-cases (ltb id' id)) [
        | inl below ↦ let lt : id' < id = ground arith in inl (omega arith)
        | inr above ↦ let le : id ≤ id' = ground arith in inr (omega arith)
      ])

pub low_in_buffer : (id : ℕ) → id < 16 → in_buffer (sector_offset id) ≡ true
low_in_buffer id h = rw (offset_low id h) (ground arith)

pub inode_sector-fs_write :
    (id t : ℕ) (buf : Sector) (fs : Fs) → inode_sector id (fs_write t buf fs) ≡ inode_sector id fs
unfolding inode_sector
inode_sector-fs_write id t buf fs = refl

pub found-low :
    (id : ℕ) (fs : Fs)
    → id < 16
    → find_inode id fs ≡ some (read_inode (fs_read (inode_sector id fs) fs) (sector_offset id))
unfolding find_inode
found-low id fs h = rw (low_in_buffer id h) refl

found-written :
    (id t : ℕ) (buf : Sector) (fs : Fs)
    → id < 16
    → inode_sector id fs ≡ t
    → find_inode id (fs_write t buf fs) ≡ some (read_inode buf (sector_offset id))
found-written id t buf fs h e =
    let same : inode_sector id (fs_write t buf fs) ≡ t = inode_sector-fs_write id t buf fs ∙ e in
    let read : fs_read t (fs_write t buf fs) ≡ buf = fs_read-fs_write t t buf fs ∙ ground arith in
    found-low id (fs_write t buf fs) h
    ∙ ap (λ s. some (read_inode (fs_read s (fs_write t buf fs)) (sector_offset id))) same
    ∙ ap (λ b. some (read_inode b (sector_offset id))) read

-- `update_inode` on one of the first sixteen inodes, with fields that fit words, succeeds; then
-- `find_inode` reads this inode back, it reads every other of the sixteen as before, and no inode's
-- sector moves.
pub find_inode-update_inode :
    (id : ℕ) (x : Inode) (fs : Fs)
    → id < 16
    → FitsWords x
    → (fs' : Fs) × (update_inode id x fs ≡ some fs')
      × (find_inode id fs' ≡ some x)
      × ((id' : ℕ) → id' < 16 → id' ≢ id → find_inode id' fs' ≡ find_inode id' fs)
      × ((n : ℕ) → inode_sector n fs' ≡ inode_sector n fs)
unfolding update_inode
find_inode-update_inode id x fs h fits =
    let o : ℕ = sector_offset id in
    let t : ℕ = inode_sector id fs in
    let buf : Sector = copy_in o (inode_bytes x) (fs_read t fs) in
    (
      fs_write t buf fs,
      rw (low_in_buffer id h) refl,
      found-written id t buf fs h refl ∙ ap some (read_inode-copy_in o x (fs_read t fs) fits),
      λ id' h' ne.
          found-written id' t buf fs h' (same_sector id id' fs h h')
          ∙ ap some (
              read_inode-copy_in_ne o (sector_offset id') (inode_bytes x) (fs_read t fs)
                (offsets_apart id id' h h' ne))
          ∙ sym (
              found-low id' fs h'
              ∙ ap (λ s. some (read_inode (fs_read s fs) (sector_offset id')))
                  (same_sector id id' fs h h')),
      λ n. inode_sector-fs_write n t buf fs,
    )
