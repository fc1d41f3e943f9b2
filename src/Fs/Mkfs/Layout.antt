-- ===== src/Fs/Mkfs/Layout.antt =====
-- The disk after `mkfs` of fs/fs.c has written the areas before the data.
use krven_os.Common.{
  ℕ, zero, suc, ◌+◌, ◌-◌, ◌*◌, ◌/◌, ◌%◌, ◌^◌, ◌<◌, ◌≤◌, ◌≡◌, ◌∙◌, ◌⊎◌, ap, sym, refl, arith, Bool,
  true, false, ◌&&◌, ◌||◌, Option, some, ltb, leb, ◌==◌, Bool-cases, inl, inr,
}
use krven_os.Common.Bits.{zero-has_bit}
use krven_os.Fs.{Fs, Sector, SuperBlock, fs_read, fs_write, bit_at, mark_bit, sector_bits}
use krven_os.Fs.Map.{
  update_sector_map, map_loop, mark_loop, Marked, finished, unfinished, used, run_loop, found,
  clear_loop,
}
use krven_os.Fs.Map.Bit.{fs_read-fs_write}
use krven_os.Fs.Map.Mark.{update_sector_map-used}
use krven_os.Fs.Inode.{copy_in, clear_sector}
use krven_os.Fs.Make.Fresh.{clear_sector-inside, clear_sector-outside}
use krven_os.Fs.Mkfs.{new_super, set_super, super_bytes, install_areas}

-- The first two free sectors in a row behind used ones are found in the first sector of the map.
pub run_loop-first :
    (n bit first : ℕ) (start : Option ℕ) (buf : Sector)
    → bit ≤ first
    → first + 2 ≤ bit + n
    → ((b : ℕ) → b < first → bit_at buf b ≡ true)
    → bit_at buf first ≡ false
    → bit_at buf (suc first) ≡ false
    → run_loop n bit bit 0 start 2 buf ≡ found (some first) 2
unfolding run_loop
run_loop-first zero bit first start buf below room all one two = absurd (omega arith)
run_loop-first (suc zero) bit first start buf below room all one two = absurd (omega arith)
run_loop-first (suc (suc n)) bit first start buf below room all one two =
    elim (Bool-cases (bit == first)) [
      | inl here ↦
          let e : first ≡ bit = ground arith in
          let one' : bit_at buf bit ≡ false = ap (bit_at buf) (sym e) ∙ one in
          let two' : bit_at buf (suc bit) ≡ false = ap (λ b. bit_at buf (suc b)) (sym e) ∙ two in
          rw (one', two') (ap (λ b. found (some b) 2) (sym e))
      | inr before ↦
          let lt : bit < first = ground arith in
          let is_used = all bit lt in
          rw is_used (
            run_loop-first (suc n) (suc bit) first start buf (omega arith) (omega arith) all one
              two)
    ]

-- The first inode but the one that is taken.
pub clear_loop-second :
    (n : ℕ) (buf : Sector)
    → bit_at buf 0 ≡ true
    → bit_at buf 1 ≡ false
    → clear_loop (suc (suc n)) 0 buf ≡ some 1
unfolding clear_loop
clear_loop-second n buf one two = rw (one, two) refl

-- What writes to the map leave as it is.
abbrev pub Leaves : (lo hi : ℕ) → (fs fs' : Fs) → Type 0
Leaves lo hi fs fs' =
    (fs'.super_block ≡ fs.super_block)
    × (fs'.fs_root ≡ fs.fs_root)
    × ((s : ℕ) → (s < lo) ⊎ (hi ≤ s) → fs_read s fs' ≡ fs_read s fs)

pub fs_write-Leaves : (s : ℕ) (buf : Sector) (fs : Fs) → Leaves s (s + 1) fs (fs_write s buf fs)
fs_write-Leaves s buf fs = (
  refl,
  refl,
  λ t out. let ne : (t == s) ≡ false = ground arith in fs_read-fs_write s t buf fs ∙ rw ne refl,
)

map_loop-Leaves :
    (n sector_id pos sector_start cnt : ℕ) (fs : Fs)
    → Leaves sector_id (sector_id + n) fs (map_loop n sector_id pos sector_start cnt fs).1
unfolding map_loop
map_loop-Leaves zero sector_id pos sector_start cnt fs = (refl, refl, λ s out. refl)
map_loop-Leaves (suc n) sector_id pos sector_start cnt fs =
    by_mark (λ pos cnt. map_loop-Leaves n (suc sector_id) pos sector_start cnt fs)
      (mark_loop sector_bits 0 pos sector_start cnt (fs_read sector_id fs))
  where
    by_mark :
        ((pos cnt : ℕ)
          → Leaves
              (suc sector_id)
              (suc sector_id + n)
              fs
              (map_loop n (suc sector_id) pos sector_start cnt fs).1)
        → (r : Marked)
        → Leaves sector_id
            (sector_id + suc n)
            fs
            (elim r as (λ _. Bool × Fs) [
              | finished buf ↦ (true, fs_write sector_id buf fs)
              | unfinished pos cnt ↦ map_loop n (suc sector_id) pos sector_start cnt fs
            ]).1
    by_mark later (finished buf) =
        let (super, root, kept) = fs_write-Leaves sector_id buf fs in
        (super, root, λ s out. kept s (ground arith))
    by_mark later (unfinished pos cnt) =
        let (super, root, kept) = later pos cnt in (super, root, λ s out. kept s (ground arith))

pub clear_sector-super : (i n : ℕ) (fs : Fs) → (clear_sector i n fs).super_block ≡ fs.super_block
unfolding clear_sector
clear_sector-super i zero fs = refl
clear_sector-super i (suc n) fs = clear_sector-super (suc i) n (fs_write i (λ _. 0) fs)

pub clear_sector-root : (i n : ℕ) (fs : Fs) → (clear_sector i n fs).fs_root ≡ fs.fs_root
unfolding clear_sector
clear_sector-root i zero fs = refl
clear_sector-root i (suc n) fs = clear_sector-root (suc i) n (fs_write i (λ _. 0) fs)

clear_sector-Leaves : (i n : ℕ) (fs : Fs) → Leaves i (i + n) fs (clear_sector i n fs)
clear_sector-Leaves i n fs = (
  clear_sector-super i n fs,
  clear_sector-root i n fs,
  λ s out. clear_sector-outside i n s fs out,
)

pub bit_at-empty : (b : ℕ) → bit_at (λ _. 0) b ≡ false
bit_at-empty b = zero-has_bit (b % 8)

pub update_sector_map-Leaves :
    (start count : ℕ) (fs : Fs)
    → 0 < count
    → count ≤ 4096
    → Leaves (3 + start / 4096) (3 + start / 4096 + 1) fs (update_sector_map start count fs).1
unfolding update_sector_map
update_sector_map-Leaves start count fs pos fit =
    let rounds : (count + 2 ^ 32 - 1) % 2 ^ 32 / 4096 + 1 ≡ 1 = omega arith in
    rw rounds (map_loop-Leaves 1 (3 + start / 4096) 0 (start - start / 4096 * 4096) count fs)

-- What the areas hold: the super block, a map of inodes with inode 0 taken, and a map of sectors with the
-- sectors before the data taken.
abbrev pub Installed : (sector_num : ℕ) (wtbuf : Sector) → Fs → Type 0
Installed sector_num wtbuf fs =
    (fs.super_block ≡ new_super sector_num)
    × (fs_read 1 fs ≡ copy_in 0 (super_bytes (new_super sector_num)) wtbuf)
    × (fs_read 2 fs ≡ mark_bit (λ _. 0) 0)
    × ((b : ℕ) → b < 4096 → used fs b ≡ ltb b (new_super sector_num).first_data_sect)
    × ((n : ℕ) → n < 256 → fs_read (4 + sector_num / 4096 + n) fs ≡ (λ _. 0))

pub install_areas-Installed :
    (sector_num : ℕ) (wtbuf : Sector) (fs : Fs)
    → (new_super sector_num).first_data_sect ≤ 4096
    → Installed sector_num wtbuf (install_areas sector_num wtbuf fs)
unfolding install_areas
install_areas-Installed sector_num wtbuf fs fit =
    let sb : SuperBlock = new_super sector_num in
    let smap : ℕ = sector_num / 4096 + 1 in
    let fs1 : Fs = fs_write 1 (copy_in 0 (super_bytes sb) wtbuf) (set_super sb fs) in
    let fs2 : Fs = fs_write 2 (mark_bit (λ _. 0) 0) fs1 in
    let fs3 : Fs = clear_sector 3 smap fs2 in
    let fs4 : Fs = (update_sector_map 0 sb.first_data_sect fs3).1 in
    let (super3, root3, kept3) = clear_sector-Leaves 3 smap fs2 in
    let (super4, root4, kept4) =
      update_sector_map-Leaves 0 sb.first_data_sect fs3 (omega arith) (omega arith) in
    let (super5, root5, kept5) = clear_sector-Leaves (3 + smap) 256 fs4 in
    let (done, marks) =
      update_sector_map-used 0 sb.first_data_sect fs3 (omega arith) (omega arith) in
    (
      super5 ∙ super4 ∙ super3,
      kept5 1 (inl (omega arith))
          ∙ kept4 1 (inl (omega arith))
          ∙ kept3 1 (inl (omega arith))
          ∙ fs_read-fs_write 2 1 (mark_bit (λ _. 0) 0) fs1
          ∙ fs_read-fs_write 1 1 (copy_in 0 (super_bytes sb) wtbuf) (set_super sb fs),
      kept5 2 (inl (omega arith))
          ∙ kept4 2 (inl (omega arith))
          ∙ kept3 2 (inl (omega arith))
          ∙ fs_read-fs_write 2 2 (mark_bit (λ _. 0) 0) fs1,
      (λ b h.
          let zero_row : b / 4096 ≡ 0 = omega arith in
          let unused : used fs3 b ≡ false =
            ap (λ k. bit_at (fs_read (3 + k) fs3) (b % 4096)) zero_row
            ∙ ap (λ buf. bit_at buf (b % 4096))
                (clear_sector-inside 3 smap 3 fs2 (omega arith) (omega arith))
            ∙ bit_at-empty (b % 4096) in
          ap (λ buf. bit_at buf (b % 4096)) (kept5 (3 + b / 4096) (inl (omega arith)))
          ∙ marks b
          ∙ ap (λ u. (leb 0 b && ltb b (0 + sb.first_data_sect)) || u) unused
          ∙ ground arith),
      λ n h.
          clear_sector-inside (3 + smap) 256 (4 + sector_num / 4096 + n) fs4 (omega arith)
            (omega arith),
    )

pub install_areas-root :
    (sector_num : ℕ) (wtbuf : Sector) (fs : Fs)
    → (new_super sector_num).first_data_sect ≤ 4096
    → (install_areas sector_num wtbuf fs).fs_root ≡ fs.fs_root
unfolding install_areas
install_areas-root sector_num wtbuf fs fit =
    let sb : SuperBlock = new_super sector_num in
    let smap : ℕ = sector_num / 4096 + 1 in
    let fs1 : Fs = fs_write 1 (copy_in 0 (super_bytes sb) wtbuf) (set_super sb fs) in
    let fs2 : Fs = fs_write 2 (mark_bit (λ _. 0) 0) fs1 in
    let fs3 : Fs = clear_sector 3 smap fs2 in
    let fs4 : Fs = (update_sector_map 0 sb.first_data_sect fs3).1 in
    let (super4, root4, kept4) =
      update_sector_map-Leaves 0 sb.first_data_sect fs3 (omega arith) (omega arith) in
    clear_sector-root (3 + smap) 256 fs4 ∙ root4 ∙ clear_sector-root 3 smap fs2
