-- ===== src/Fs/Map/Fresh.antt =====
-- The inode number that `get_new_inode` hands out, and the run that `inode_alloc_sector` finds.
use krven_os.Common.{
  ℕ, zero, suc, ◌+◌, ◌*◌, ◌/◌, ◌%◌, ◌≤◌, ◌<◌, ◌≡◌, ◌≢◌, ap, sym, ◌∙◌, refl, arith, ◌==◌, Bool, true,
  false, ◌||◌, if◌then◌else◌, Option, none, some, Bool-cases, inl, inr,
}
use krven_os.Fs.{Fs, Sector, bit_at, mark_bit, fs_read, fs_write, sector_bits}
use krven_os.Fs.Map.{
  clear_loop, get_new_inode, Search, found, open_run, run_loop, search_loop, take_run, used,
  inode_alloc_sector, update_sector_map,
}
use krven_os.Fs.Map.Bit.{bit_at-mark_bit, fs_read-fs_write}

-- The answer of a search for a clear bit from `start` on and below `end`.
abbrev FirstClear : Sector → (start end : ℕ) → Option ℕ → Type 0
FirstClear buf start end none = (b : ℕ) → start ≤ b → b < end → bit_at buf b ≡ true
FirstClear buf start end (some num) =
    (start ≤ num)
    × (num < end)
    × (bit_at buf num ≡ false)
    × ((b : ℕ) → start ≤ b → b < num → bit_at buf b ≡ true)

FirstClear-step :
    (buf : Sector) (num end : ℕ) (r : Option ℕ)
    → bit_at buf num ≡ true
    → FirstClear buf (suc num) end r
    → FirstClear buf num end r
FirstClear-step buf num end none set all = λ b p q. elim (Bool-cases (b == num)) [
  | inl same ↦ let e : b ≡ num = ground arith in rw e set
  | inr other ↦ let ne : b ≢ num = ground arith in all b (omega arith) q
]
FirstClear-step buf num end (some m) set (lo, hi, clear, all) = (
  omega arith,
  hi,
  clear,
  λ b p q. elim (Bool-cases (b == num)) [
    | inl same ↦ let e : b ≡ num = ground arith in rw e set
    | inr other ↦ let ne : b ≢ num = ground arith in all b (omega arith) q
  ],
)

clear_loop-FirstClear :
    (n num end : ℕ) (buf : Sector) → num + n ≡ end → FirstClear buf num end (clear_loop n num buf)
unfolding clear_loop
clear_loop-FirstClear zero num end buf e = λ b p q. absurd (omega arith)
clear_loop-FirstClear (suc n) num end buf e = elim (Bool-cases (bit_at buf num)) [
  | inl set ↦ rw set (
      FirstClear-step buf num end (clear_loop n (suc num) buf) set
        (clear_loop-FirstClear n (suc num) end buf (omega arith)))
  | inr clear ↦ rw clear (omega arith, omega arith, clear, λ b p q. absurd (omega arith))
]

-- Either all 4096 inodes are in use and the disk stays; or the least number that was free is handed
-- out and marked, and no other bit of its sector and no other sector changes.
abbrev pub NewInode : Fs → Option ℕ × Fs → Type 0
NewInode fs (none, fs') = ((b : ℕ) → b < sector_bits → bit_at (fs_read 2 fs) b ≡ true) × (fs' ≡ fs)
NewInode fs (some num, fs') =
    (num < sector_bits)
    × (bit_at (fs_read 2 fs) num ≡ false)
    × ((b : ℕ) → b < num → bit_at (fs_read 2 fs) b ≡ true)
    × ((b : ℕ) → bit_at (fs_read 2 fs') b ≡ ((b == num) || bit_at (fs_read 2 fs) b))
    × ((s : ℕ) → s ≢ 2 → fs_read s fs' ≡ fs_read s fs)

found-NewInode :
    (fs : Fs) (r : Option ℕ)
    → FirstClear (fs_read 2 fs) 0 sector_bits r
    → NewInode fs (elim r [
      | none ↦ (none, fs)
      | some num ↦ (some num, fs_write 2 (mark_bit (fs_read 2 fs) num) fs)
    ])
found-NewInode fs none all = (λ b h. all b (omega arith) h, refl)
found-NewInode fs (some num) (lo, hi, clear, all) = (
  hi,
  clear,
  λ b h. all b (omega arith) h,
  λ b.
      ap (λ s. bit_at s b) (fs_read-fs_write 2 2 (mark_bit (fs_read 2 fs) num) fs)
      ∙ bit_at-mark_bit (fs_read 2 fs) num b,
  λ s ne. ground arith,
)

-- `get_new_inode` hands out the lowest number that was free, marks it, and changes nothing else; or it
-- reports that all 4096 inodes are in use and leaves the disk.
pub get_new_inode_lem : (fs : Fs) → NewInode fs (get_new_inode fs)
unfolding get_new_inode
get_new_inode_lem fs =
    found-NewInode fs (clear_loop sector_bits 0 (fs_read 2 fs))
      (clear_loop-FirstClear sector_bits 0 sector_bits (fs_read 2 fs) refl)

-- The run that a search has seen up to `num`: it is free, and it ends there.
abbrev SeenRun : (is_used : ℕ → Bool) → (num cnt : ℕ) → Option ℕ → Type 0
SeenRun is_used num cnt none = cnt ≡ 0
SeenRun is_used num cnt (some s) =
    0 < cnt → (s + cnt ≡ num) × ((b : ℕ) → s ≤ b → b < num → is_used b ≡ false)

-- A run that is found has the wanted length, and is free.
abbrev FreeRun : (is_used : ℕ → Bool) → (wanted end : ℕ) → Search → Type 0
FreeRun is_used wanted end (found none cnt) = (cnt ≡ wanted) × (cnt ≡ 0)
FreeRun is_used wanted end (found (some s) cnt) =
    (cnt ≡ wanted) × (0 < cnt → (b : ℕ) → s ≤ b → b < s + cnt → is_used b ≡ false)
FreeRun is_used wanted end (open_run num cnt start) = (num ≡ end) × SeenRun is_used num cnt start

longer-SeenRun :
    (is_used : ℕ → Bool) (num cnt : ℕ) (start : Option ℕ)
    → SeenRun is_used num cnt start
    → is_used num ≡ false
    → SeenRun is_used (suc num) (cnt + 1) (if cnt == 0 then some num else start)
longer-SeenRun is_used num cnt none e free =
    let at_zero : (cnt == 0) ≡ true = ground arith in rw at_zero (λ pos. (omega arith, only))
  where
    only : (b : ℕ) → num ≤ b → b < suc num → is_used b ≡ false
    only b p q = let e' : b ≡ num = omega arith in rw e' free
longer-SeenRun is_used num cnt (some s) seen free = elim (Bool-cases (cnt == 0)) [
  | inl fresh ↦ rw fresh (λ pos. (ground arith, only))
  | inr old ↦
      let (ends, all) = seen (ground arith) in
      rw old (λ pos. (
        omega arith,
        λ b p q. elim (Bool-cases (b == num)) [
          | inl same ↦ let e : b ≡ num = ground arith in rw e free
          | inr other ↦ let ne : b ≢ num = ground arith in all b p (omega arith)
        ],
      ))
]
  where
    only : (b : ℕ) → num ≤ b → b < suc num → is_used b ≡ false
    only b p q = let e' : b ≡ num = omega arith in rw e' free

reset-SeenRun : (is_used : ℕ → Bool) (num : ℕ) (start : Option ℕ) → SeenRun is_used num 0 start
reset-SeenRun is_used num none = refl
reset-SeenRun is_used num (some s) = λ pos. absurd (omega arith)

-- The test at the end of a round.
decide-FreeRun :
    (is_used : ℕ → Bool) (wanted end num cnt : ℕ) (start : Option ℕ) (rest : Search)
    → SeenRun is_used num cnt start
    → FreeRun is_used wanted end rest
    → FreeRun is_used wanted end (if cnt == wanted then found start cnt else rest)
decide-FreeRun is_used wanted end num cnt start rest seen later =
    elim (Bool-cases (cnt == wanted)) [
      | inl enough ↦ rw enough (stop start seen (ground arith))
      | inr more ↦ rw more later
    ]
  where
    stop :
        (o : Option ℕ)
        → SeenRun is_used num cnt o
        → cnt ≡ wanted
        → FreeRun is_used wanted end (found o cnt)
    stop none e w = (w, e)
    stop (some s) f w = (w, λ pos b p q. let (ends, all) = f pos in all b p (omega arith))

run_loop-FreeRun :
    (n bit num cnt : ℕ) (start : Option ℕ) (wanted end : ℕ) (buf : Sector) (is_used : ℕ → Bool)
    → ((j : ℕ) → j < n → bit_at buf (bit + j) ≡ is_used (num + j))
    → num + n ≡ end
    → SeenRun is_used num cnt start
    → FreeRun is_used wanted end (run_loop n bit num cnt start wanted buf)
unfolding run_loop
run_loop-FreeRun zero bit num cnt start wanted end buf is_used same e seen = (omega arith, seen)
run_loop-FreeRun (suc n) bit num cnt start wanted end buf is_used same e seen =
    let here : bit_at buf bit ≡ is_used num =
      (let b : bit + 0 ≡ bit = omega arith in
        let m : num + 0 ≡ num = omega arith in
        ap (bit_at buf) (sym b) ∙ same 0 (omega arith) ∙ ap is_used m) in
    let same' : (j : ℕ) → j < n → bit_at buf (suc bit + j) ≡ is_used (suc num + j) = λ j h.
      (let b : suc bit + j ≡ bit + suc j = omega arith in
        let m : num + suc j ≡ suc num + j = omega arith in
        ap (bit_at buf) b ∙ same (suc j) (omega arith) ∙ ap is_used m) in
    elim (Bool-cases (bit_at buf bit)) [
      | inl set ↦ rw set (
          decide-FreeRun is_used wanted end (suc num) 0 start
            (run_loop n (suc bit) (suc num) 0 start wanted buf)
            (reset-SeenRun is_used (suc num) start)
            (run_loop-FreeRun n (suc bit) (suc num) 0 start wanted end buf is_used same'
              (omega arith) (reset-SeenRun is_used (suc num) start)))
      | inr clear ↦
          let start' : Option ℕ = if cnt == 0 then some num else start in
          let seen' : SeenRun is_used (suc num) (cnt + 1) start' =
            longer-SeenRun is_used num cnt start seen (sym here ∙ clear) in
          rw clear (
            decide-FreeRun is_used wanted end (suc num) (cnt + 1) start'
              (run_loop n (suc bit) (suc num) (cnt + 1) start' wanted buf) seen'
              (run_loop-FreeRun n (suc bit) (suc num) (cnt + 1) start' wanted end buf is_used same'
                (omega arith) seen'))
    ]

search_loop-FreeRun :
    (n i num cnt : ℕ) (start : Option ℕ) (wanted : ℕ) (fs : Fs)
    → num ≡ i * 4096
    → SeenRun (used fs) num cnt start
    → FreeRun (used fs) wanted (num + n * 4096) (search_loop n (3 + i) num cnt start wanted fs)
unfolding search_loop
search_loop-FreeRun zero i num cnt start wanted fs e seen = (omega arith, seen)
search_loop-FreeRun (suc n) i num cnt start wanted fs e seen =
    next (run_loop sector_bits 0 num cnt start wanted (fs_read (3 + i) fs))
      (run_loop-FreeRun sector_bits 0 num cnt start wanted (num + 4096) (fs_read (3 + i) fs)
        (used fs) same refl seen)
      (λ num' cnt' start' e' seen'.
        let next_sector : suc (3 + i) ≡ 3 + suc i = omega arith in
        rw next_sector
          (search_loop-FreeRun n (suc i) num' cnt' start' wanted fs (omega arith) seen'))
  where
    same : (j : ℕ) → j < sector_bits → bit_at (fs_read (3 + i) fs) (0 + j) ≡ used fs (num + j)
    same j h =
        let q : (num + j) / 4096 ≡ i = omega arith in
        let r : (num + j) % 4096 ≡ 0 + j = omega arith in rw (q, r)

    next :
        (r : Search)
        → FreeRun (used fs) wanted (num + 4096) r
        → ((num' cnt' : ℕ) (start' : Option ℕ)
            → num' ≡ num + 4096
            → SeenRun (used fs) num' cnt' start'
            → FreeRun
                (used fs)
                wanted
                (num' + n * 4096)
                (search_loop n (suc (3 + i)) num' cnt' start' wanted fs))
        → FreeRun (used fs) wanted (num + suc n * 4096) (elim r [
          | found s c ↦ found s c
          | open_run num' cnt' start' ↦ search_loop n (suc (3 + i)) num' cnt' start' wanted fs
        ])
    next (found none c) f rec = f
    next (found (some s) c) f rec = f
    next (open_run num' cnt' start') (e', seen') rec =
        let total : num + suc n * 4096 ≡ num' + n * 4096 = omega arith in
        rw total (rec num' cnt' start' e' seen')

-- What `inode_alloc_sector` sets as the start of a file of `wanted` sectors: sectors that were free.
abbrev pub Allocated : (wanted : ℕ) → Fs → Option ℕ × Fs → Type 0
Allocated wanted fs (none, fs') = fs' ≡ fs
Allocated wanted fs (some s, fs') =
    ((b : ℕ) → s ≤ b → b < s + wanted → used fs b ≡ false)
    × (fs' ≡ (update_sector_map s wanted fs).1)

-- For a file of at least one sector: the run that is found was free and has been handed to
-- `update_sector_map`; where none is found the disk stays.
pub inode_alloc_sector_lem :
    (wanted : ℕ) (fs : Fs) → 0 < wanted → Allocated wanted fs (inode_alloc_sector wanted fs)
unfolding inode_alloc_sector
inode_alloc_sector_lem wanted fs pos =
    taken (search_loop fs.super_block.smap_sects 3 0 0 none wanted fs)
      (search_loop-FreeRun fs.super_block.smap_sects 0 0 0 none wanted fs refl refl)
  where
    taken :
        (r : Search)
        → FreeRun (used fs) wanted (0 + fs.super_block.smap_sects * 4096) r
        → Allocated wanted fs (take_run fs r)
    taken (found none c) (w, z) = refl
    taken (found (some s) c) (w, all) =
        (λ b p q. all (omega arith) b p (omega arith), ap (λ n. (update_sector_map s n fs).1) w)
    taken (open_run num c start) f = refl
