-- ===== src/Hd/Tests.antt =====
-- Runs of driver/hd.c at concrete inputs.
use krven_os.Common.{ℕ, ◌+◌, ◌%◌, ◌<◌, ◌≤◌, ◌⊎◌, ◌≡◌, refl, arith, none, some, if◌then◌else◌, ◌==◌}
use krven_os.Fs.{Sector}
use krven_os.Hd.{Hd, HdPart, HdRead, hd_read, hd_open, hd_info}
use krven_os.Hd.Command.{Addresses, Covers, hd_read-Addresses}
use krven_os.Hd.Table.{NoExtra, find_part, partitions, read_parts, hd_info-hd_open}

hd_read-Addresses_example :
    (r : HdRead) × (hd_read 0x0ABCDEF 1 511 3 (λ i. 7) (λ i. 0) (λ i. 0) ≡ some r)
    × Addresses 0x0ABCDEF 1 0x20 r.events
    × Covers 511 r.events
    × ((i : ℕ) → i < 511 → (i + 1 < 511) ⊎ (511 % 2 ≡ 0) → r.buf i ≡ 7)
    × (511 % 2 ≡ 1 → r.buf 510 ≡ 0)
    × ((i : ℕ) → 511 ≤ i → r.buf i ≡ 0)
hd_read-Addresses_example =
    hd_read-Addresses 0x0ABCDEF 1 511 3 (λ i. 7) (λ i. 0) (λ i. 0) (omega arith) (omega arith)
      (omega arith)

-- A Linux partition, an empty entry, and one more partition.
abbrev drive : ℕ → Sector
drive sector i = if i == 450 then 0x83 else if i == 454 then 63 else if i == 482 then 0x99 else 0

abbrev zero_part : HdPart
zero_part = record {
  status = 0;
  start_head = 0;
  start_sector = 0;
  start_cylinder = 0;
  type = 0;
  end_head = 0;
  end_sector = 0;
  end_cylinder = 0;
  start_lba = 0;
  sector_num = 0;
}

abbrev no_parts : Hd
no_parts = record { hdbuf = λ i. 0; hd_part_table = λ i. zero_part; hd_part_num = 0 }

drive-NoExtra : NoExtra (read_parts 4 (drive 0) 0x1BE)
drive-NoExtra = (omega arith, (omega arith, (omega arith, (omega arith, omega arith))))

hd_info-hd_open_example :
    (h' : Hd) × (hd_open 1 drive no_parts ≡ some h')
    × ((device : ℕ)
        → hd_info device h' ≡ find_part device (partitions 0 (read_parts 4 (drive 0) 0x1BE)))
hd_info-hd_open_example = hd_info-hd_open 0 drive no_parts drive-NoExtra refl

-- The partition behind the empty entry is not found.
hidden_part : find_part 0x99 (partitions 0 (read_parts 4 (drive 0) 0x1BE)) ≡ none
hidden_part = refl
