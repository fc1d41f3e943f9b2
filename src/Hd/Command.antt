-- ===== src/Hd/Command.antt =====
-- What the disk controller is told by driver/hd.c.
use krven_os.Common.{
  ℕ, zero, suc, ◌+◌, ◌-◌, ◌*◌, ◌/◌, ◌%◌, ◌^◌, ◌<◌, ◌≤◌, ◌≡◌, ◌∙◌, ap, sym, refl, arith, bit_and,
  Bool, true, false, ◌&&◌, some, List, [], ◌∷◌, ◌++◌, ltb, leb, ◌==◌, if◌then◌else◌, Bool-cases,
  ==_iff, ◌⊎◌, inl, inr,
}
use krven_os.Common.Bits.{bit_and-mask}
use krven_os.Hd.{
  make_device_reg, sector_cmd, HdEvent, outb, wait_interrupt, port_read, port_write, finish,
  hd_cmd_out, HdRead, hd_read, hd_write, fill_bytes,
}

-- The value of a register of the controller after these events.
abbrev pub register : (port value : ℕ) → List HdEvent → ℕ
register port value [] = value
register port value (outb p v ∷ events) = register port (if p == port then v else value) events
register port value (wait_interrupt ∷ events) = register port value events
register port value (port_read cnt ∷ events) = register port value events
register port value (port_write cnt ∷ events) = register port value events
register port value (finish pid ∷ events) = register port value events

-- The sector, the drive and the number of sectors that the registers give.
abbrev pub lba_of : List HdEvent → ℕ
lba_of events =
    register 0x1F3 0 events
    + register 0x1F4 0 events * 2 ^ 8
    + register 0x1F5 0 events * 2 ^ 16
    + register 0x1F6 0 events % 2 ^ 4 * 2 ^ 24

abbrev pub drive_of : List HdEvent → ℕ
drive_of events = register 0x1F6 0 events / 2 ^ 4 % 2

abbrev pub lba_mode_of : List HdEvent → ℕ
lba_mode_of events = register 0x1F6 0 events / 2 ^ 6 % 2

abbrev pub count_of : List HdEvent → ℕ
count_of events = register 0x1F2 0 events

-- A test that holds for all numbers below a bound.
all_below : ℕ → (ℕ → Bool) → Bool
all_below zero p = true
all_below (suc n) p = p n && all_below n p

all_below-lt : (n k : ℕ) (p : ℕ → Bool) → all_below n p ≡ true → k < n → p k ≡ true
unfolding all_below
all_below-lt zero k p all h = absurd (omega arith)
all_below-lt (suc n) k p all h = elim (Bool-cases (k == n)) [
  | inl last ↦ let e : k ≡ n = ground arith in ap p e ∙ left (p n) (all_below n p) all
  | inr before ↦
      let below : k < n = ground arith in all_below-lt n k p (right (p n) (all_below n p) all) below
]
  where
    left : (a b : Bool) → (a && b) ≡ true → a ≡ true
    left true b h = refl
    left false b h = h

    right : (a b : Bool) → (a && b) ≡ true → b ≡ true
    right true b h = h
    right false b h = absurd (grind arith)

-- The device register for a number of five digits: the drive and the highest part of the sector.
reg_digits : ℕ → Bool
reg_digits x = make_device_reg 1 (x / 16) (x % 16) == 0xE0 + x

make_device_reg-sum :
    (drive highest : ℕ)
    → drive < 2
    → highest < 16
    → make_device_reg 1 drive highest ≡ 0xE0 + (drive * 16 + highest)
unfolding all_below reg_digits
make_device_reg-sum drive highest d h =
    let x : ℕ = drive * 16 + highest in
    let e : x / 16 ≡ drive = omega arith in
    let f : x % 16 ≡ highest = omega arith in
    let test : make_device_reg 1 (x / 16) (x % 16) ≡ 0xE0 + x =
      (==_iff (make_device_reg 1 (x / 16) (x % 16)) (0xE0 + x)).0
        (all_below-lt 32 x reg_digits refl (omega arith)) in
    ap (λ a. make_device_reg 1 a highest) (sym e) ∙ ap (make_device_reg 1 (x / 16)) (sym f) ∙ test

low_byte : (x : ℕ) → bit_and x 0xFF ≡ x % 256
low_byte x = bit_and-mask 8 (x / 256) (x % 256) x 0xFF (omega arith) (omega arith) refl

low_digit : (x : ℕ) → bit_and x 0xF ≡ x % 16
low_digit x = bit_and-mask 4 (x / 16) (x % 16) x 0xF (omega arith) (omega arith) refl

-- The registers name this sector of this drive, in the mode of logical sectors, and this command.
abbrev pub Addresses : (sector_no drive command : ℕ) → List HdEvent → Type 0
Addresses sector_no drive command events =
    (lba_of events ≡ sector_no)
    × (drive_of events ≡ drive)
    × (lba_mode_of events ≡ 1)
    × (register 0x1F7 0 events ≡ command)

-- The sectors that the registers count are the fewest that have room for these bytes.
abbrev pub Covers : (cnt : ℕ) → List HdEvent → Type 0
Covers cnt events = (cnt ≤ count_of events * 512) × (count_of events * 512 < cnt + 512)

device_byte :
    (sector_no drive : ℕ)
    → sector_no < 2 ^ 28
    → drive < 2
    → make_device_reg 1 drive (bit_and (sector_no / 2 ^ 24) 0xF) % 2 ^ 8
      ≡ 0xE0 + (drive * 16 + sector_no / 2 ^ 24)
device_byte sector_no drive h d =
    let e : bit_and (sector_no / 2 ^ 24) 0xF ≡ sector_no / 2 ^ 24 =
      low_digit (sector_no / 2 ^ 24) ∙ omega arith in
    let f = make_device_reg-sum drive (sector_no / 2 ^ 24) d (omega arith) in
    ap (λ x. make_device_reg 1 drive x % 2 ^ 8) e ∙ ap (λ x. x % 2 ^ 8) f ∙ omega arith

sector_cmd-Addresses :
    (sector_no drive count command : ℕ) (rest : List HdEvent)
    → sector_no < 2 ^ 28
    → drive < 2
    → ((port value : ℕ) → register port value rest ≡ value)
    → Addresses sector_no drive command
        (hd_cmd_out (sector_cmd sector_no drive count command) ++ rest)
      × (count_of (hd_cmd_out (sector_cmd sector_no drive count command) ++ rest) ≡ count % 2 ^ 8)
unfolding hd_cmd_out sector_cmd
sector_cmd-Addresses sector_no drive count command rest h d kept =
    let low = low_byte sector_no in
    let mid = low_byte (sector_no / 2 ^ 8) in
    let high = low_byte (sector_no / 2 ^ 16) in
    let device = device_byte sector_no drive h d in
    let reg = make_device_reg 1 drive (bit_and (sector_no / 2 ^ 24) 0xF) % 2 ^ 8 in
    let at_low = kept 0x1F3 (bit_and sector_no 0xFF) ∙ low in
    let at_mid = kept 0x1F4 (bit_and (sector_no / 2 ^ 8) 0xFF) ∙ mid in
    let at_high = kept 0x1F5 (bit_and (sector_no / 2 ^ 16) 0xFF) ∙ high in
    let at_device = kept 0x1F6 reg ∙ device in
    (
      (
        rw (at_low, at_mid, at_high, at_device) (omega arith),
        rw at_device (omega arith),
        rw at_device (omega arith),
        kept 0x1F7 command,
      ),
      kept 0x1F2 (count % 2 ^ 8),
    )

-- The bytes of the whole words are all but the last of an odd number.
whole_words : (i cnt : ℕ) → i < cnt → (i + 1 < cnt) ⊎ (cnt % 2 ≡ 0) → i < cnt / 2 * 2
whole_words i cnt inside (inl more) = omega arith
whole_words i cnt inside (inr even) = omega arith

-- A read of at most two sectors tells the controller the sector of the drive and counts enough sectors. The
-- bytes that the controller gives are in the buffer of the message, which changes in the places that are asked
-- for alone; for an odd number the last of these gets what `hdbuf` held there before.
pub hd_read-Addresses :
    (pos device cnt pid : ℕ) (data_in hdbuf buf : ℕ → ℕ)
    → pos < 2 ^ 28
    → device < 2
    → cnt ≤ 1024
    → (r : HdRead) × (hd_read pos device cnt pid data_in hdbuf buf ≡ some r)
      × Addresses pos device 0x20 r.events
      × Covers cnt r.events
      × ((i : ℕ) → i < cnt → (i + 1 < cnt) ⊎ (cnt % 2 ≡ 0) → r.buf i ≡ data_in i)
      × (cnt % 2 ≡ 1 → r.buf (cnt - 1) ≡ hdbuf (cnt - 1))
      × ((i : ℕ) → cnt ≤ i → r.buf i ≡ buf i)
unfolding hd_read
hd_read-Addresses pos device cnt pid data_in hdbuf buf h d short =
    let count : ℕ = (cnt + 512 - 1) / 512 in
    let rest : List HdEvent = wait_interrupt ∷ port_read cnt ∷ finish pid ∷ [] in
    let room : leb cnt 1024 ≡ true = ground arith in
    let (addresses, counted) =
      sector_cmd-Addresses pos device count 0x20 rest h d (λ port value. refl) in
    (
      record {
        events = hd_cmd_out (sector_cmd pos device count 0x20) ++ rest;
        hdbuf = fill_bytes (cnt / 2 * 2) data_in hdbuf;
        buf = fill_bytes cnt (fill_bytes (cnt / 2 * 2) data_in hdbuf) buf;
      },
      rw room refl,
      addresses,
      (omega arith, omega arith),
      λ i inside given.
          let asked : ltb i cnt ≡ true = ground arith in
          let read : ltb i (cnt / 2 * 2) ≡ true = ground (arith, whole_words i cnt inside given) in
          rw (asked, read) refl,
      λ odd.
          let asked : ltb (cnt - 1) cnt ≡ true = ground arith in
          let old : ltb (cnt - 1) (cnt / 2 * 2) ≡ false = ground arith in rw (asked, old) refl,
      λ i behind. let other : ltb i cnt ≡ false = ground arith in rw other refl,
    )

-- A write of at most 255 sectors tells the controller the sector of the drive and counts enough sectors.
-- The bytes go out after the command, and the interrupt is awaited after them.
pub hd_write-Addresses :
    (pos device cnt pid : ℕ)
    → pos < 2 ^ 28
    → device < 2
    → cnt ≤ 255 * 512
    → Addresses pos device 0x30 (hd_write pos device cnt pid)
      × Covers cnt (hd_write pos device cnt pid)
unfolding hd_write
hd_write-Addresses pos device cnt pid h d short =
    let count : ℕ = (cnt + 512 - 1) / 512 in
    let rest : List HdEvent = port_write cnt ∷ wait_interrupt ∷ finish pid ∷ [] in
    let (addresses, counted) =
      sector_cmd-Addresses pos device count 0x30 rest h d (λ port value. refl) in
    (addresses, (omega arith, omega arith))
