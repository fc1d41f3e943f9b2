-- ===== src/Descriptor/RoundTrip.antt =====
-- The setters of gdt/gdt.c, ldt/ldt.c and idt/idt.c against the readers of the debug functions.
use krven_os.Common.{
  ℕ, ◌+◌, ◌-◌, ◌*◌, ◌/◌, ◌%◌, ◌^◌, ◌<◌, ◌≡◌, bit_and, bit_or, update_self, arith, refl, ◌≢◌,
}
use krven_os.Common.Bits.{bit_or-high, bit_and-mask}
use krven_os.Descriptor.{
  set_descriptor, debug_base, debug_limit, Gdt, gdt_length, new_ldt_descriptor, gdt_set_gate,
  type_ldt, db_32, g_1, IdtEntry, idt_set_gate,
}

mask_16 : (x : ℕ) → bit_and x 0xFFFF ≡ x % 2 ^ 16
mask_16 x = bit_and-mask 16 (x / 2 ^ 16) (x % 2 ^ 16) x 0xFFFF (omega arith) (omega arith) refl

mask_8 : (x : ℕ) → bit_and x 0xFF ≡ x % 2 ^ 8
mask_8 x = bit_and-mask 8 (x / 2 ^ 8) (x % 2 ^ 8) x 0xFF (omega arith) (omega arith) refl

mask_4 : (x : ℕ) → bit_and x 0x0F ≡ x % 2 ^ 4
mask_4 x = bit_and-mask 4 (x / 2 ^ 4) (x % 2 ^ 4) x 0x0F (omega arith) (omega arith) refl

join : (k a x b : ℕ) → x ≡ a * 2 ^ k → b < 2 ^ k → bit_or b x ≡ b + x
join = bit_or-high

-- A base below 2 ^ 32 is read back from any descriptor made with it.
pub debug_base-set_descriptor :
    (base limit access gran : ℕ)
    → base < 2 ^ 32
    → debug_base (set_descriptor base limit access gran) ≡ base
unfolding debug_base set_descriptor
debug_base-set_descriptor base limit access gran h =
    rw
      (
        mask_16 base,
        mask_8 (base / 2 ^ 16),
        mask_8 (base / 2 ^ 24),
        join 16 (base / 2 ^ 16 % 2 ^ 8) (base / 2 ^ 16 % 2 ^ 8 * 2 ^ 16) (base % 2 ^ 16) refl
            (omega arith),
        join 24 (base / 2 ^ 24 % 2 ^ 8) (base / 2 ^ 24 % 2 ^ 8 * 2 ^ 24)
            (base % 2 ^ 16 + base / 2 ^ 16 % 2 ^ 8 * 2 ^ 16) refl (omega arith),
      )
      (omega arith)

-- The high and low half of the granularity byte do not mix.
granularity_low :
    (base limit access gran k : ℕ)
    → gran ≡ k * 2 ^ 4
    → bit_and (set_descriptor base limit access gran).granularity 0x0F ≡ limit / 2 ^ 16 % 2 ^ 4
unfolding set_descriptor
granularity_low base limit access gran k e =
    rw (mask_4 (limit / 2 ^ 16), join 4 k gran (limit / 2 ^ 16 % 2 ^ 4) e (omega arith), mask_4)
      (omega arith)

-- The low twenty bits of a limit are read back, if the flags leave the low half byte clear.
pub debug_limit-set_descriptor :
    (base limit access gran k : ℕ)
    → gran ≡ k * 2 ^ 4
    → debug_limit (set_descriptor base limit access gran) ≡ limit % 2 ^ 20
unfolding debug_limit
debug_limit-set_descriptor base limit access gran k e =
    rw (granularity_low base limit access gran k e) (
      unfold set_descriptor in
      rw
        (
          mask_16 limit,
          join 16 (limit / 2 ^ 16 % 2 ^ 4) (limit / 2 ^ 16 % 2 ^ 4 * 2 ^ 16) (limit % 2 ^ 16) refl
              (omega arith),
        )
        (omega arith))

-- The selector that `new_ldt_descriptor` returns names the entry that it filled: shifted right by
-- three it is an index whose descriptor has the base and the low twenty bits of the limit. Every
-- other entry is as before, and the next index is one higher.
pub new_ldt_descriptor_lem :
    (base limit : ℕ) (g : Gdt)
    → base < 2 ^ 32
    → g.gdt_idx < gdt_length
    → let (sel, g') = new_ldt_descriptor base limit g in
      (debug_base (g'.gdt_descriptors (sel / 2 ^ 3)) ≡ base)
      × (debug_limit (g'.gdt_descriptors (sel / 2 ^ 3)) ≡ limit % 2 ^ 20)
      × ((i : ℕ) → i ≢ sel / 2 ^ 3 → g'.gdt_descriptors i ≡ g.gdt_descriptors i)
      × (g'.gdt_idx ≡ g.gdt_idx + 1)
unfolding new_ldt_descriptor gdt_set_gate
new_ldt_descriptor_lem base limit g hb hi =
    let place : (2 ^ 16 + (g.gdt_idx + 1) % 2 ^ 8 - 1) * 8 % 2 ^ 16 / 2 ^ 3 ≡ g.gdt_idx =
      omega arith in
    (
      rw (place, update_self g.gdt_descriptors g.gdt_idx)
          (debug_base-set_descriptor base limit type_ldt (bit_or g_1 db_32) hb),
      rw (place, update_self g.gdt_descriptors g.gdt_idx)
          (debug_limit-set_descriptor base limit type_ldt (bit_or g_1 db_32) 4 refl),
      λ i ne. ground arith,
      omega arith,
    )

-- A gate holds the address that it was set to, in two halves, and the other gates are as before.
pub idt_set_gate_lem :
    (num base sel flags : ℕ) (entries : ℕ → IdtEntry)
    → base < 2 ^ 32
    → let e = idt_set_gate num base sel flags entries in
      ((e num).base_lo + (e num).base_hi * 2 ^ 16 ≡ base)
      × ((e num).sel ≡ sel)
      × ((e num).flags ≡ flags)
      × ((i : ℕ) → i ≢ num → e i ≡ entries i)
unfolding idt_set_gate
idt_set_gate_lem num base sel flags entries h = (
  ground (arith, mask_16 base, mask_16 (base / 2 ^ 16)),
  ground arith,
  ground arith,
  λ i ne. ground arith,
)
