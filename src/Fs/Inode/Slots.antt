-- ===== src/Fs/Inode/Slots.antt =====
-- Where `add_dir_entry` of fs/mk.c puts an entry: the first of the directory's slots without an inode.
use mathlib.Core.Path.{subst}
use krven_os.Common.{
  ℕ, zero, suc, ◌+◌, ◌-◌, ◌*◌, ◌/◌, ◌%◌, ◌≤◌, ◌<◌, ◌≡◌, ◌≢◌, ◌∙◌, ap, sym, refl, arith, true, false,
  Option, none, some, ltb, ◌==◌, ◌⊎◌, eq_or_ne, Bool-cases, inl, inr,
}
use krven_os.Fs.{Fs, Sector, fs_read, fs_write}
use krven_os.Fs.Map.Bit.{fs_read-fs_write}
use krven_os.Fs.Inode.RoundTrip.{copy_in-at}
use krven_os.Fs.Inode.{DirEntry, word_at, entry_bytes, copy_in, entry_loop, dir_loop}

-- The inode of slot `k` of the directory that starts in sector `i`.
abbrev pub slot_inode : (i : ℕ) → Fs → (k : ℕ) → ℕ
slot_inode i fs k = word_at (fs_read (i + k / 16) fs) (32 * (k % 16))

-- The disk with an entry in slot `k`.
abbrev pub put_slot : (i k : ℕ) → DirEntry → Fs → Fs
put_slot i k d fs =
    fs_write (i + k / 16) (copy_in (32 * (k % 16)) (entry_bytes d) (fs_read (i + k / 16) fs)) fs

entry_loop-first :
    (n j m : ℕ) (buf : Sector)
    → j ≤ m
    → m < j + n
    → word_at buf (32 * m) ≡ 0
    → ((k : ℕ) → j ≤ k → k < m → word_at buf (32 * k) ≢ 0)
    → entry_loop n j buf ≡ some (32 * m)
unfolding entry_loop
entry_loop-first zero j m buf lo hi free used = absurd (omega arith)
entry_loop-first (suc n) j m buf lo hi free used = elim (Bool-cases (j == m)) [
  | inl here ↦
      let e : j ≡ m = ground arith in
      let empty : (word_at buf (32 * m) == 0) ≡ true = rw free refl in rw (e, empty) refl
  | inr later ↦
      let below : j < m = ground arith in
      let taken : (word_at buf (32 * j) == 0) ≡ false = ground (arith, used j) in
      rw taken (
        entry_loop-first n (suc j) m buf (omega arith) (omega arith) free
          (λ k l h. used k (omega arith) h))
]

entry_loop-full :
    (n j : ℕ) (buf : Sector)
    → ((k : ℕ) → j ≤ k → k < j + n → word_at buf (32 * k) ≢ 0)
    → entry_loop n j buf ≡ none
unfolding entry_loop
entry_loop-full zero j buf used = refl
entry_loop-full (suc n) j buf used =
    let here : word_at buf (32 * j) ≢ 0 = used j (omega arith) (omega arith) in
    let taken : (word_at buf (32 * j) == 0) ≡ false = ground arith in
    rw taken (entry_loop-full n (suc j) buf (λ k l h. used k (omega arith) (omega arith)))

-- The first sixteen slots are those of the first sector.
first_slots : (i k : ℕ) (fs : Fs) → k < 16 → slot_inode i fs k ≡ word_at (fs_read i fs) (32 * k)
first_slots i k fs h =
    let e : i + k / 16 ≡ i = omega arith in let f : k % 16 ≡ k = omega arith in rw (e, f) refl

later_slots : (i k : ℕ) (fs : Fs) → slot_inode i fs (k + 16) ≡ slot_inode (suc i) fs k
later_slots i k fs =
    let e : i + (k + 16) / 16 ≡ suc i + k / 16 = omega arith in
    let f : (k + 16) % 16 ≡ k % 16 = omega arith in rw (e, f) refl

later_slot : (i k : ℕ) (d : DirEntry) (fs : Fs) → put_slot i (k + 16) d fs ≡ put_slot (suc i) k d fs
later_slot i k d fs =
    let e : i + (k + 16) / 16 ≡ suc i + k / 16 = omega arith in
    let f : (k + 16) % 16 ≡ k % 16 = omega arith in rw (e, f) refl

abbrev in_sector : (n i : ℕ) → DirEntry → Fs → Option ℕ → Fs
in_sector n i d fs r = elim r [
  | some place ↦ fs_write i (copy_in place (entry_bytes d) (fs_read i fs)) fs
  | none ↦ dir_loop n (suc i) d fs
]

-- The loop over the sectors puts the entry into the first free slot.
pub dir_loop-first :
    (n i k : ℕ) (d : DirEntry) (fs : Fs)
    → k < 16 * n
    → slot_inode i fs k ≡ 0
    → ((j : ℕ) → j < k → slot_inode i fs j ≢ 0)
    → dir_loop n i d fs ≡ put_slot i k d fs
unfolding dir_loop
dir_loop-first zero i k d fs room free used = absurd (omega arith)
dir_loop-first (suc n) i k d fs room free used = elim (Bool-cases (ltb k 16)) [
  | inl here ↦
      let h : k < 16 = ground arith in
      let e : i + k / 16 ≡ i = omega arith in
      let f : k % 16 ≡ k = omega arith in
      let found : entry_loop 16 0 (fs_read i fs) ≡ some (32 * k) =
        entry_loop-first 16 0 k (fs_read i fs) (omega arith) (omega arith)
          (sym (first_slots i k fs h) ∙ free)
          (λ j lo hi e. used j hi (first_slots i j fs (omega arith) ∙ e)) in
      ap (in_sector n i d fs) found ∙ rw (e, f) refl
  | inr later ↦
      let h : 16 ≤ k = ground arith in
      let e : k - 16 + 16 ≡ k = omega arith in
      let full : entry_loop 16 0 (fs_read i fs) ≡ none =
        entry_loop-full 16 0 (fs_read i fs)
          (λ j lo hi e. used j (omega arith) (first_slots i j fs (omega arith) ∙ e)) in
      ap (in_sector n i d fs) full
      ∙ dir_loop-first n (suc i) (k - 16) d fs (omega arith)
          (sym (later_slots i (k - 16) fs) ∙ subst (λ k. slot_inode i fs k ≡ 0) (sym e) free)
          (λ j hi z. used (j + 16) (omega arith) (later_slots i j fs ∙ z))
      ∙ sym (later_slot i (k - 16) d fs)
      ∙ ap (λ k. put_slot i k d fs) e
]

-- Without a free slot the loop leaves the disk as it is.
pub dir_loop-full :
    (n i : ℕ) (d : DirEntry) (fs : Fs)
    → ((j : ℕ) → j < 16 * n → slot_inode i fs j ≢ 0)
    → dir_loop n i d fs ≡ fs
unfolding dir_loop
dir_loop-full zero i d fs used = refl
dir_loop-full (suc n) i d fs used =
    ap (in_sector n i d fs) (
      entry_loop-full 16 0 (fs_read i fs)
        (λ j lo hi e. used j (omega arith) (first_slots i j fs (omega arith) ∙ e)))
    ∙ dir_loop-full n (suc i) d fs (λ j hi z. used (j + 16) (omega arith) (later_slots i j fs ∙ z))

-- The bytes of the slot that is filled, and of every other.
pub put_slot-same :
    (i k o : ℕ) (d : DirEntry) (fs : Fs)
    → o < 32
    → fs_read (i + k / 16) (put_slot i k d fs) (32 * (k % 16) + o) ≡ entry_bytes d o
put_slot-same i k o d fs h =
    let place : ℕ = 32 * (k % 16) in
    let buf : Sector = copy_in place (entry_bytes d) (fs_read (i + k / 16) fs) in
    let self : (i + k / 16 == i + k / 16) ≡ true = ground arith in
    let read : fs_read (i + k / 16) (put_slot i k d fs) ≡ buf =
      fs_read-fs_write (i + k / 16) (i + k / 16) buf fs ∙ rw self refl in
    ap (λ (b : Sector). b (place + o)) read
    ∙ copy_in-at place o (entry_bytes d) (fs_read (i + k / 16) fs) h

copy_in_ne :
    (o p : ℕ) (bytes : ℕ → ℕ) (buf : Sector)
    → (p < o) ⊎ (o + 32 ≤ p)
    → copy_in o bytes buf p ≡ buf p
copy_in_ne o p bytes buf (inl below) = ground arith
copy_in_ne o p bytes buf (inr above) = ground arith

slots_apart :
    (j k o : ℕ)
    → j / 16 ≡ k / 16
    → j ≢ k
    → o < 32
    → (32 * (j % 16) + o < 32 * (k % 16)) ⊎ (32 * (k % 16) + 32 ≤ 32 * (j % 16) + o)
slots_apart j k o e ne h = elim (Bool-cases (ltb j k)) [
  | inl below ↦ let lt : j < k = ground arith in inl (omega arith)
  | inr above ↦ let le : k ≤ j = ground arith in inr (omega arith)
]

pub put_slot-other :
    (i j k o : ℕ) (d : DirEntry) (fs : Fs)
    → j ≢ k
    → o < 32
    → fs_read (i + j / 16) (put_slot i k d fs) (32 * (j % 16) + o)
      ≡ fs_read (i + j / 16) fs (32 * (j % 16) + o)
put_slot-other i j k o d fs ne h =
    let place : ℕ = 32 * (k % 16) in
    let buf : Sector = copy_in place (entry_bytes d) (fs_read (i + k / 16) fs) in
    let read = fs_read-fs_write (i + k / 16) (i + j / 16) buf fs in
    let at : ℕ = 32 * (j % 16) + o in
    elim (eq_or_ne (j / 16) (k / 16)) [
      | inl same ↦
          let e : (i + j / 16 == i + k / 16) ≡ true = ground arith in
          let written : fs_read (i + j / 16) (put_slot i k d fs) ≡ buf = read ∙ rw e refl in
          ap (λ (b : Sector). b at) written
          ∙ copy_in_ne place at (entry_bytes d) (fs_read (i + k / 16) fs)
              (slots_apart j k o same ne h)
          ∙ ap (λ s. fs_read (i + s) fs at) (sym same)
      | inr apart ↦
          let e : (i + j / 16 == i + k / 16) ≡ false = ground arith in
          let kept : fs_read (i + j / 16) (put_slot i k d fs) ≡ fs_read (i + j / 16) fs =
            read ∙ rw e refl in
          ap (λ (b : Sector). b at) kept
    ]
