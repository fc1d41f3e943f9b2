-- ===== src/Descriptor/Tests.antt =====
-- Runs of the descriptor functions, and their theorems at one input.
use krven_os.Common.{ℕ, ◌≡◌, bit_or, refl}
use krven_os.Descriptor.{
  zero_descriptor, set_descriptor, debug_base, debug_type, debug_dpl, debug_g, Gdt, init_gdt,
  IdtEntry, type_rc, dpl_3, db_32, g_4096,
}

abbrev empty_gdt : Gdt
empty_gdt = record { gdt_descriptors = λ _. zero_descriptor; gdt_idx = 0 }

abbrev booted_gdt : Gdt
booted_gdt = record { gdt_descriptors = λ _. zero_descriptor; gdt_idx = 4 }

abbrev no_gates : ℕ → IdtEntry
no_gates = λ _. record { base_lo = 0; sel = 0; always0 = 0; flags = 0; base_hi = 0 }

screen_segment : debug_base ((init_gdt empty_gdt).gdt_descriptors 3) ≡ 0xC00B8000
unfolding debug_base init_gdt
screen_segment = refl

user_code_privilege : debug_dpl (set_descriptor 0 0 (bit_or type_rc dpl_3) 0) ≡ 3
unfolding debug_dpl set_descriptor
user_code_privilege = refl

user_code_type : debug_type (set_descriptor 0 0 (bit_or type_rc dpl_3) 0) ≡ 0xA
unfolding debug_type set_descriptor
user_code_type = refl

page_granular : debug_g (set_descriptor 0 0 0 (bit_or db_32 g_4096)) ≡ 1
unfolding debug_g set_descriptor
page_granular = refl
