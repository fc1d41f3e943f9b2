-- ===== src/Fs/Map/Mark.antt =====
-- What `update_sector_map` marks.
use krven_os.Common.{
  ℕ, zero, suc, ◌+◌, ◌-◌, ◌*◌, ◌/◌, ◌%◌, ◌^◌, ◌≤◌, ◌<◌, ◌≡◌, ◌≢◌, ap, sym, ◌∙◌, refl, arith, ◌==◌,
  Bool, true, false, ◌||◌, ◌&&◌, Bool-cases, inl, inr, ltb, leb, max,
}
use mathlib.Core.Path.{subst, ap₂}
use krven_os.Fs.{Fs, Sector, bit_at, mark_bit, fs_read, fs_write, sector_bits}
use krven_os.Fs.Map.{Marked, finished, unfinished, mark_loop, update_sector_map, used}
use krven_os.Fs.Map.Bit.{bit_at-mark_bit, fs_read-fs_write}

-- The bits from `lo` on and below `hi` are set, and the others are as they were.
abbrev Filled : (lo hi : ℕ) → Sector → Marked → Type 0
Filled lo hi buf (finished buf') =
    (c : ℕ) → bit_at buf' c ≡ ((leb lo c && ltb c hi) || bit_at buf c)
Filled lo hi buf (unfinished pos cnt) = ⊥

Filled-step :
    (bit hi : ℕ) (buf : Sector) (r : Marked)
    → bit < hi
    → Filled (suc bit) hi (mark_bit buf bit) r
    → Filled bit hi buf r
Filled-step bit hi buf (finished buf') h f = λ c. f c ∙ ground (arith, bit_at-mark_bit buf bit c)
Filled-step bit hi buf (unfinished pos cnt) h f = f

mark_loop-run :
    (n bit sector_start cnt : ℕ) (buf : Sector)
    → sector_start ≤ bit
    → 0 < cnt
    → cnt < 2 ^ 32
    → cnt ≤ n
    → Filled bit (bit + cnt) buf (mark_loop n bit bit sector_start cnt buf)
unfolding mark_loop
mark_loop-run zero bit ss cnt buf h pos small room = absurd (omega arith)
mark_loop-run (suc n) bit ss cnt buf h pos small room =
    let inside : leb ss bit ≡ true = ground arith in
    let less : (cnt + 2 ^ 32 - 1) % 2 ^ 32 ≡ cnt - 1 = omega arith in
    rw (inside, less)
      (elim (Bool-cases (cnt - 1 == 0)) [
        | inl last ↦ rw last (λ c. ground (arith, bit_at-mark_bit buf bit c))
        | inr more ↦
            let hi : suc bit + (cnt - 1) ≡ bit + cnt = ground arith in
            rw (more, ← hi)
              (Filled-step bit (suc bit + (cnt - 1)) buf
                (mark_loop n (suc bit) (suc bit) ss (cnt - 1) (mark_bit buf bit)) (ground arith)
                (mark_loop-run n (suc bit) ss (cnt - 1) (mark_bit buf bit) (omega arith)
                  (ground arith) (omega arith) (omega arith)))
      ])

mark_loop-skip :
    (n bit sector_start cnt : ℕ) (buf : Sector)
    → bit ≤ sector_start
    → 0 < cnt
    → cnt < 2 ^ 32
    → sector_start + cnt ≤ bit + n
    → Filled sector_start (sector_start + cnt) buf (mark_loop n bit bit sector_start cnt buf)
unfolding mark_loop
mark_loop-skip zero bit ss cnt buf h pos small room = absurd (omega arith)
mark_loop-skip (suc n) bit ss cnt buf h pos small room = elim (Bool-cases (leb ss bit)) [
  | inl here ↦
      let e : bit ≡ ss = ground arith in
      subst (λ b. Filled ss (ss + cnt) buf (mark_loop (suc n) b b ss cnt buf)) (sym e)
        (mark_loop-run (suc n) ss ss cnt buf (omega arith) pos small (omega arith))
  | inr before ↦
      let lt : bit < ss = ground arith in
      let more : (cnt == 0) ≡ false = ground arith in
      rw (before, more)
        (mark_loop-skip n (suc bit) ss cnt buf (omega arith) pos small (omega arith))
]

-- The loop of a sector that is too short for the run.
abbrev Open : Marked → Type 0
Open (finished buf) = ⊥
Open (unfinished pos cnt) = Unit {0}

mark_loop-Open :
    (n bit sector_start cnt : ℕ) (buf : Sector)
    → cnt < 2 ^ 32
    → 0 < cnt
    → bit + n < max sector_start bit + cnt
    → Open (mark_loop n bit bit sector_start cnt buf)
unfolding mark_loop
mark_loop-Open zero bit ss cnt buf small pos short = tt
mark_loop-Open (suc n) bit ss cnt buf small pos short = elim (Bool-cases (leb ss bit)) [
  | inl inside ↦
      let le : ss ≤ bit = ground arith in
      let less : (cnt + 2 ^ 32 - 1) % 2 ^ 32 ≡ cnt - 1 = omega arith in
      let more : (cnt - 1 == 0) ≡ false = (let ne : cnt - 1 ≢ 0 = omega arith in ground arith) in
      rw (inside, less, more)
        (mark_loop-Open n (suc bit) ss (cnt - 1) (mark_bit buf bit) (omega arith) (omega arith)
          (omega arith))
  | inr before ↦
      let lt : bit < ss = ground arith in
      let more : (cnt == 0) ≡ false = ground arith in
      rw (before, more) (mark_loop-Open n (suc bit) ss cnt buf small pos (omega arith))
]

-- The bit of a sector number in the sector that holds it.
range_split :
    (start count b : ℕ)
    → start % 4096 + count ≤ 4096
    → b / 4096 ≡ start / 4096
    → (leb (start % 4096) (b % 4096) && ltb (b % 4096) (start % 4096 + count))
      ≡ (leb start b && ltb b (start + count))
range_split start count b fit e = ground arith

range_other :
    (start count b : ℕ)
    → start % 4096 + count ≤ 4096
    → b / 4096 ≢ start / 4096
    → (leb start b && ltb b (start + count)) ≡ false
range_other start count b fit ne = ground arith

-- One map sector that holds the whole run.
Filled-used :
    (start count : ℕ) (fs : Fs) (r : Marked)
    → start % 4096 + count ≤ 4096
    → Filled (start % 4096) (start % 4096 + count) (fs_read (3 + start / 4096) fs) r
    → let (done, fs') : Bool × Fs = elim r [
      | finished buf ↦ (true, fs_write (3 + start / 4096) buf fs)
      | unfinished pos cnt ↦ (false, fs)
    ] in
      (done ≡ true) × ((b : ℕ) → used fs' b ≡ ((leb start b && ltb b (start + count)) || used fs b))
Filled-used start count fs (finished buf) fit f = (refl, by_sector)
  where
    by_sector :
        (b : ℕ)
        → used (fs_write (3 + start / 4096) buf fs) b
          ≡ ((leb start b && ltb b (start + count)) || used fs b)
    by_sector b = elim (Bool-cases (3 + b / 4096 == 3 + start / 4096)) [
      | inl same ↦
          let e : b / 4096 ≡ start / 4096 = ground arith in
          ap (λ s. bit_at s (b % 4096)) (fs_read-fs_write (3 + start / 4096) (3 + b / 4096) buf fs)
          ∙ rw same (f (b % 4096))
          ∙ ap₂ ◌||◌ (range_split start count b fit e)
              (ap (λ q. bit_at (fs_read (3 + q) fs) (b % 4096)) (sym e))
      | inr other ↦
          let ne : b / 4096 ≢ start / 4096 = ground arith in
          ap (λ s. bit_at s (b % 4096)) (fs_read-fs_write (3 + start / 4096) (3 + b / 4096) buf fs)
          ∙ rw (other, range_other start count b fit ne)
    ]
Filled-used start count fs (unfinished pos cnt) fit f = absurd f

-- A run of sectors whose marks lie in one sector of the map is marked completely, and no other mark
-- changes.
pub update_sector_map-used :
    (start count : ℕ) (fs : Fs)
    → 0 < count
    → start % 4096 + count ≤ 4096
    → let (done, fs') = update_sector_map start count fs in
      (done ≡ true) × ((b : ℕ) → used fs' b ≡ ((leb start b && ltb b (start + count)) || used fs b))
unfolding update_sector_map
update_sector_map-used start count fs pos fit =
    let rounds : (count + 2 ^ 32 - 1) % 2 ^ 32 / 4096 + 1 ≡ 1 = omega arith in
    let offset : start - start / 4096 * 4096 ≡ start % 4096 = omega arith in
    rw (rounds, offset)
      (Filled-used start count fs
        (mark_loop sector_bits 0 0 (start % 4096) count (fs_read (3 + start / 4096) fs)) fit
        (mark_loop-skip sector_bits 0 (start % 4096) count (fs_read (3 + start / 4096) fs)
          (omega arith) pos (omega arith) (omega arith)))

Open-lost :
    (start cnt : ℕ) (fs : Fs) (r : Marked)
    → Open r
    → let step : Marked → Bool × Fs = elim [
      | finished buf ↦ (true, fs_write (3 + start / 4096) buf fs)
      | unfinished pos cnt ↦ (false, fs)
    ] in
      step r ≡ (false, fs)
Open-lost start cnt fs (finished buf) o = absurd o
Open-lost start cnt fs (unfinished pos c) o = refl

-- A run of at most 4096 sectors whose marks do not lie in one sector of the map is not marked at all:
-- the number of map sectors is taken from the length of the run alone, and a map sector is written
-- only when the count has come to 0.
pub update_sector_map-crossing :
    (start count : ℕ) (fs : Fs)
    → count ≤ 4096
    → 4096 < start % 4096 + count
    → update_sector_map start count fs ≡ (false, fs)
unfolding update_sector_map
update_sector_map-crossing start count fs small cross =
    let rounds : (count + 2 ^ 32 - 1) % 2 ^ 32 / 4096 + 1 ≡ 1 = omega arith in
    let offset : start - start / 4096 * 4096 ≡ start % 4096 = omega arith in
    rw (rounds, offset)
      (Open-lost start count fs
        (mark_loop sector_bits 0 0 (start % 4096) count (fs_read (3 + start / 4096) fs))
        (mark_loop-Open sector_bits 0 (start % 4096) count (fs_read (3 + start / 4096) fs)
          (omega arith) (omega arith) (omega arith)))
