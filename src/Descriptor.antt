-- ===== src/Descriptor.antt =====
-- Segment descriptors and interrupt gates: gdt/gdt.c, include/gdt.h, ldt/ldt.c, include/ldt.h,
-- idt/idt.c. The two descriptor structs have the same fields, and one record stands for both.
pub mod RoundTrip
mod Tests
use krven_os.Common.{ℕ, ◌+◌, ◌-◌, ◌*◌, ◌/◌, ◌%◌, ◌^◌, bit_and, bit_or, update, Option, none, some}

-- `gdt_descriptor_t` and `ldt_descriptor_t`
pub record SegDescriptor : Type 0 where
  pub limit_low : ℕ
  pub base_low : ℕ
  pub base_middle : ℕ
  pub access : ℕ
  pub granularity : ℕ
  pub base_high : ℕ

abbrev pub zero_descriptor : SegDescriptor
zero_descriptor = record {
  limit_low = 0;
  base_low = 0;
  base_middle = 0;
  access = 0;
  granularity = 0;
  base_high = 0;
}

-- The segment constants of include/const.h.
abbrev pub type_ldt : ℕ
type_ldt = 0x82

abbrev pub type_386tss : ℕ
type_386tss = 0x89

abbrev pub type_rw : ℕ
type_rw = 0x92

abbrev pub type_rc : ℕ
type_rc = 0x9A

abbrev pub dpl_0 : ℕ
dpl_0 = 0x00

abbrev pub dpl_1 : ℕ
dpl_1 = 0x20

abbrev pub dpl_3 : ℕ
dpl_3 = 0x60

abbrev pub db_32 : ℕ
db_32 = 0x40

abbrev pub g_1 : ℕ
g_1 = 0x00

abbrev pub g_4096 : ℕ
g_4096 = 0x80

-- `ldt_set_descriptor`, and the body of `gdt_set_gate`: the arguments are below 2 ^ 32 and 2 ^ 8.
unfoldable pub set_descriptor : ℕ → ℕ → ℕ → ℕ → SegDescriptor
set_descriptor base limit access gran = record {
  limit_low = bit_and limit 0xFFFF;
  base_low = bit_and base 0xFFFF;
  base_middle = bit_and (base / 2 ^ 16) 0xFF;
  access = access;
  granularity = bit_or (bit_and (limit / 2 ^ 16) 0x0F) gran;
  base_high = bit_and (base / 2 ^ 24) 0xFF;
}

-- What `gdt_debug` and `ldt_debug` read back: base, limit, type, privilege level, granularity.
unfoldable pub debug_base : SegDescriptor → ℕ
debug_base d = bit_or (bit_or d.base_low (d.base_middle * 2 ^ 16)) (d.base_high * 2 ^ 24)

unfoldable pub debug_limit : SegDescriptor → ℕ
debug_limit d = bit_or d.limit_low (bit_and d.granularity 0x0F * 2 ^ 16)

unfoldable pub debug_type : SegDescriptor → ℕ
debug_type d = bit_and d.access 0xF

unfoldable pub debug_dpl : SegDescriptor → ℕ
debug_dpl d = bit_and (d.access / 2 ^ 5) 0x03

unfoldable pub debug_g : SegDescriptor → ℕ
debug_g d = bit_and (d.granularity / 2 ^ 7) 0x01

-- The global table. `gdt_descriptors` has `gdt_length` entries; the model's array has no end.
pub record Gdt : Type 0 where
  pub gdt_descriptors : ℕ → SegDescriptor
  pub gdt_idx : ℕ

abbrev pub gdt_length : ℕ
gdt_length = 50

unfoldable pub gdt_set_gate : ℕ → ℕ → ℕ → ℕ → ℕ → Gdt → Gdt
unfolding set_descriptor
gdt_set_gate num base limit access gran g = record g {
  gdt_descriptors = update g.gdt_descriptors num (set_descriptor base limit access gran);
}

-- `init_gdt`, less the load of the table register.
unfoldable pub init_gdt : Gdt → Gdt
unfolding gdt_set_gate
init_gdt g₀ =
    let g₁ = gdt_set_gate 0 0 0 0 0 g₀ in
    let g₂ = gdt_set_gate 1 0 0xFFFFFFFF (bit_or type_rc dpl_0) (bit_or db_32 g_4096) g₁ in
    let g₃ = gdt_set_gate 2 0 0xFFFFFFFF (bit_or type_rw dpl_0) (bit_or db_32 g_4096) g₂ in
    let g₄ = gdt_set_gate 3 0xC00B8000 0xFFFF (bit_or type_rw dpl_3) (bit_or db_32 g_1) g₃ in
    record g₄ { gdt_idx = 4 }

-- A new system descriptor at `gdt_idx`; the result is `(gdt_idx - 1) << 3` in 16 bits, after the
-- 8-bit `gdt_idx++`.
new_descriptor : ℕ → ℕ → ℕ → Gdt → ℕ × Gdt
new_descriptor type base limit g =
    let g' = gdt_set_gate g.gdt_idx base limit type (bit_or g_1 db_32) g in
    let idx = (g.gdt_idx + 1) % 2 ^ 8 in
    ((2 ^ 16 + idx - 1) * 8 % 2 ^ 16, record g' { gdt_idx = idx })

unfoldable pub new_ldt_descriptor : ℕ → ℕ → Gdt → ℕ × Gdt
unfolding new_descriptor
new_ldt_descriptor base limit g = new_descriptor type_ldt base limit g

unfoldable pub new_tss_descriptor : ℕ → ℕ → Gdt → ℕ × Gdt
unfolding new_descriptor
new_tss_descriptor base limit g = new_descriptor type_386tss base limit g

-- `idt_entry_t`, and what `idt_set_gate` writes at an index.
pub record IdtEntry : Type 0 where
  pub base_lo : ℕ
  pub sel : ℕ
  pub always0 : ℕ
  pub flags : ℕ
  pub base_hi : ℕ

unfoldable pub idt_set_gate : ℕ → ℕ → ℕ → ℕ → (ℕ → IdtEntry) → ℕ → IdtEntry
idt_set_gate num base sel flags entries = update entries num (record {
  base_lo = bit_and base 0xFFFF;
  sel = sel;
  always0 = 0;
  flags = flags;
  base_hi = bit_and (base / 2 ^ 16) 0xFFFF;
})
