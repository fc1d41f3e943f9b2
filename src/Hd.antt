-- ===== src/Hd.antt =====
-- The hard disk task, driver/hd.c and include/hd.h: the commands that it gives to the controller, as the
-- sequence of what it does at the ports, and the table of partitions. `none` is an access outside `hdbuf`
-- or the table, or a chain of partition tables that is longer than the fuel.
pub mod Command
pub mod Table
mod Tests
use krven_os.Common.{
  ℕ, zero, suc, ◌+◌, ◌-◌, ◌*◌, ◌/◌, ◌%◌, ◌^◌, bit_and, bit_or, Bool, true, false, ◌&&◌, Option,
  none, some, List, [], ◌∷◌, ◌++◌, ltb, leb, ◌==◌, if◌then◌else◌, update,
}
use krven_os.Fs.{Sector}
use krven_os.Fs.Inode.{word_at}

-- `hd_cmd_t`, without `data`, which is not used.
pub record HdCmd : Type 0 where
  pub feature : ℕ
  pub count : ℕ
  pub lba_low : ℕ
  pub lba_mid : ℕ
  pub lba_high : ℕ
  pub device : ℕ
  pub command : ℕ

-- `MAKE_DEVICE_REG`
abbrev pub make_device_reg : (lba drv lba_highest : ℕ) → ℕ
make_device_reg lba drv lba_highest =
    bit_or (bit_or (bit_or (lba * 2 ^ 6) (drv * 2 ^ 4)) (bit_and lba_highest 0xF)) 0xA0

abbrev pub ata_read : ℕ
ata_read = 0x20

abbrev pub ata_write : ℕ
ata_write = 0x30

-- The command of `hd_read`, `hd_write` and `hd_get_part`, whose fields are bytes.
unfoldable pub sector_cmd : (sector_no drive count command : ℕ) → HdCmd
sector_cmd sector_no drive count command = record {
  feature = 0;
  count = count % 2 ^ 8;
  lba_low = bit_and sector_no 0xFF;
  lba_mid = bit_and (sector_no / 2 ^ 8) 0xFF;
  lba_high = bit_and (sector_no / 2 ^ 16) 0xFF;
  device = make_device_reg 1 drive (bit_and (sector_no / 2 ^ 24) 0xF) % 2 ^ 8;
  command = command;
}

-- What the task does, in its order.
pub data HdEvent : Type 0 where
  outb : (port value : ℕ) → HdEvent
  wait_interrupt : HdEvent
  port_read : (cnt : ℕ) → HdEvent
  port_write : (cnt : ℕ) → HdEvent
  finish : (pid : ℕ) → HdEvent

unfoldable pub hd_cmd_out : HdCmd → List HdEvent
hd_cmd_out cmd =
    outb 0x3F6 0
    ∷ outb 0x1F1 cmd.feature
    ∷ outb 0x1F2 cmd.count
    ∷ outb 0x1F3 cmd.lba_low
    ∷ outb 0x1F4 cmd.lba_mid
    ∷ outb 0x1F5 cmd.lba_high
    ∷ outb 0x1F6 cmd.device
    ∷ outb 0x1F7 cmd.command
    ∷ []

-- The first `cnt` bytes of a buffer.
abbrev pub fill_bytes : (cnt : ℕ) → (data_in buf : ℕ → ℕ) → ℕ → ℕ
fill_bytes cnt data_in buf i = if ltb i cnt then data_in i else buf i

-- The result of a read: what was done, `hdbuf`, and the buffer of the message.
pub record HdRead : Type 0 where
  pub events : List HdEvent
  pub hdbuf : ℕ → ℕ
  pub buf : ℕ → ℕ

-- `hd_read`, with the bytes that the controller gives. `hdbuf` has two sectors. `port_read` of
-- driver/common_s.s reads `cnt / 2` words, so that the last of an odd number of bytes is an old one.
unfoldable pub hd_read : (pos device cnt pid : ℕ) → (data_in hdbuf buf : ℕ → ℕ) → Option HdRead
unfolding hd_cmd_out sector_cmd
hd_read pos device cnt pid data_in hdbuf buf =
    if leb cnt 1024
    then some (record {
      events =
          hd_cmd_out (sector_cmd pos device ((cnt + 512 - 1) / 512) ata_read)
          ++ (wait_interrupt ∷ port_read cnt ∷ finish pid ∷ []);
      hdbuf = fill_bytes (cnt / 2 * 2) data_in hdbuf;
      buf = fill_bytes cnt (fill_bytes (cnt / 2 * 2) data_in hdbuf) buf;
    })
    else none

-- `hd_write`: the bytes go out from the buffer of the message.
unfoldable pub hd_write : (pos device cnt pid : ℕ) → List HdEvent
unfolding hd_cmd_out sector_cmd
hd_write pos device cnt pid =
    hd_cmd_out (sector_cmd pos device ((cnt + 512 - 1) / 512) ata_write)
    ++ (port_write cnt ∷ wait_interrupt ∷ finish pid ∷ [])

-- `hd_part_t`
pub record HdPart : Type 0 where
  pub status : ℕ
  pub start_head : ℕ
  pub start_sector : ℕ
  pub start_cylinder : ℕ
  pub type : ℕ
  pub end_head : ℕ
  pub end_sector : ℕ
  pub end_cylinder : ℕ
  pub start_lba : ℕ
  pub sector_num : ℕ

-- The `memcpy` of an entry.
abbrev pub read_part : (buf : ℕ → ℕ) (src : ℕ) → HdPart
read_part buf src = record {
  status = buf src;
  start_head = buf (src + 1);
  start_sector = buf (src + 2);
  start_cylinder = buf (src + 3);
  type = buf (src + 4);
  end_head = buf (src + 5);
  end_sector = buf (src + 6);
  end_cylinder = buf (src + 7);
  start_lba = word_at buf (src + 8);
  sector_num = word_at buf (src + 12);
}

-- The static variables of the task.
pub record Hd : Type 0 where
  pub hdbuf : ℕ → ℕ
  pub hd_part_table : ℕ → HdPart
  pub hd_part_num : ℕ

-- `hd_get_part` for the sectors of a drive: the command carries 28 bits.
unfoldable pub hd_get_part : (drive : ℕ → Sector) (sector_no : ℕ) → Hd → Hd
hd_get_part drive sector_no h = record h {
  hdbuf = fill_bytes 512 (drive (sector_no % 2 ^ 28)) h.hdbuf;
}

-- `hd_part_table[hd_part_num] = part`, or `none` outside the table of ten.
abbrev pub set_part : HdPart → Hd → Option Hd
set_part part h =
    if ltb h.hd_part_num 10
    then some (record h { hd_part_table = update h.hd_part_table h.hd_part_num part })
    else none

abbrev pub moved : (base : ℕ) → HdPart → HdPart
moved base part = record part { start_lba = (part.start_lba + base) % 2 ^ 32 }

-- After an extended partition: `descend` is the recursive call, with its base and its first extended
-- partition.
unfoldable pub enter_extra :
    (descend : (base_lba first_extra_lba : ℕ) → Hd → Option Hd)
    → (first_extra_lba start_lba : ℕ) → Option Hd
    → Option Hd
enter_extra descend first_extra_lba start_lba none = none
enter_extra descend first_extra_lba start_lba (some h) =
    if first_extra_lba == 0
    then descend start_lba start_lba (record h { hd_part_num = h.hd_part_num + 1 })
    else descend start_lba first_extra_lba h

abbrev pub count_part : Option Hd → Option Hd
count_part none = none
count_part (some h) = some (record h { hd_part_num = h.hd_part_num + 1 })

-- The place of the next entry with the state.
abbrev pub go_on : (src : ℕ) → Option Hd → Option (ℕ × Hd)
go_on src none = none
go_on src (some h) = some (src, h)

-- One entry. The place does not move on from an empty one.
unfoldable pub part_entry :
    (descend : (base_lba first_extra_lba : ℕ) → Hd → Option Hd)
    → (base_lba first_extra_lba src : ℕ) → Hd
    → Option (ℕ × Hd)
unfolding enter_extra
part_entry descend base_lba first_extra_lba src h =
    let part = read_part h.hdbuf src in
    let extra : HdPart = moved first_extra_lba part in
    if part.type == 5
    then go_on (src + 16) (enter_extra descend first_extra_lba extra.start_lba (set_part extra h))
    else if part.type == 0
    then go_on src (set_part part h)
    else go_on (src + 16) (count_part (set_part (moved base_lba part) h))

unfoldable pub part_loop : (n : ℕ) → (entry : ℕ → Hd → Option (ℕ × Hd)) → (src : ℕ) → Hd → Option Hd
part_loop zero entry src h = some h
part_loop (suc n) entry src h = elim (entry src h) [
  | none ↦ none
  | some (src', h') ↦ part_loop n entry src' h'
]

unfoldable pub hd_get_part_table :
    ℕ → (drive : ℕ → Sector) → (base_lba first_extra_lba : ℕ) → Hd → Option Hd
unfolding part_loop part_entry hd_get_part
hd_get_part_table zero drive base_lba first_extra_lba h = none
hd_get_part_table (suc n) drive base_lba first_extra_lba h =
    part_loop 4 (part_entry (hd_get_part_table n drive) base_lba first_extra_lba) 0x1BE
      (hd_get_part drive base_lba h)

-- `hd_open` without `debug`, which identifies the drive and prints, for a chain of partition tables of at most `n`.
unfoldable pub hd_open : (n : ℕ) → (drive : ℕ → Sector) → Hd → Option Hd
unfolding hd_get_part_table
hd_open n drive h = hd_get_part_table n drive 0 0 h

-- The rounds left of the loop of `hd_info`, and the partition that it copies to the message.
unfoldable pub info_loop : (n i device : ℕ) → Hd → Option HdPart
info_loop zero i device h = none
info_loop (suc n) i device h =
    let rest = info_loop n (suc i) device h in
    if (h.hd_part_table i).type == device then some (h.hd_part_table i) else rest

unfoldable pub hd_info : (device : ℕ) → Hd → Option HdPart
unfolding info_loop
hd_info device h = info_loop h.hd_part_num 0 device h
