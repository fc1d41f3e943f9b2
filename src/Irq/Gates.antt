-- ===== src/Irq/Gates.antt =====
-- Which gate of the table of idt/idt.c leads where.
use krven_os.Common.{
  ℕ, zero, suc, ◌+◌, ◌-◌, ◌/◌, ◌^◌, ◌≡◌, ◌∙◌, ap, sym, refl, arith, bit_and, true, false, ◌&&◌,
  List, [], ◌∷◌, ◌++◌, leb, ltb, ◌==◌, if◌then◌else◌, eq_or_ne, inl, inr,
}
use krven_os.Descriptor.{IdtEntry, idt_set_gate}
use krven_os.Irq.{
  EntryPoints, kernel_gate, user_gate, kernel_cs_index, zero_entry, gates, set_gates, init_idt,
}

-- A gate to an entry point.
abbrev pub gate_to : (base flags : ℕ) → IdtEntry
gate_to base flags = record {
  base_lo = bit_and base 0xFFFF;
  sel = kernel_cs_index;
  always0 = 0;
  flags = flags;
  base_hi = bit_and (base / 2 ^ 16) 0xFFFF;
}

-- Gates of the kernel with consecutive numbers.
consecutive : (n start : ℕ) (base : ℕ → ℕ) → List (ℕ × ℕ × ℕ)
consecutive zero start base = []
consecutive (suc n) start base = (start, base start, kernel_gate) ∷ consecutive n (suc start) base

set_gates-append :
    (g h : List (ℕ × ℕ × ℕ)) (entries : ℕ → IdtEntry)
    → set_gates (g ++ h) entries ≡ set_gates h (set_gates g entries)
unfolding set_gates
set_gates-append [] h entries = refl
set_gates-append ((num, base, flags) ∷ g) h entries =
    set_gates-append g h (idt_set_gate num base kernel_cs_index flags entries)

first_gate :
    (n start : ℕ) (base : ℕ → ℕ) (entries : ℕ → IdtEntry) (i : ℕ)
    → (if leb (suc start) i && ltb i (suc start + n)
        then gate_to (base i) kernel_gate
        else idt_set_gate start (base start) kernel_cs_index kernel_gate entries i)
      ≡ (if leb start i && ltb i (start + suc n) then gate_to (base i) kernel_gate else entries i)
unfolding idt_set_gate
first_gate n start base entries i = elim (eq_or_ne i start) [
  | inl here ↦
      let later : (leb (suc start) i && ltb i (suc start + n)) ≡ false = ground arith in
      let all : (leb start i && ltb i (start + suc n)) ≡ true = ground arith in
      let this : (i == start) ≡ true = ground arith in
      rw (later, all, this) (ap (λ k. gate_to (base k) kernel_gate) (sym here))
  | inr other ↦
      let same : (leb (suc start) i && ltb i (suc start + n))
          ≡ (leb start i && ltb i (start + suc n)) =
        ground arith in
      let this : (i == start) ≡ false = ground arith in rw (same, this) refl
]

set_gates-consecutive :
    (n start : ℕ) (base : ℕ → ℕ) (entries : ℕ → IdtEntry) (i : ℕ)
    → set_gates (consecutive n start base) entries i
      ≡ (if leb start i && ltb i (start + n) then gate_to (base i) kernel_gate else entries i)
unfolding consecutive set_gates
set_gates-consecutive zero start base entries i =
    let none_left : (leb start i && ltb i (start + 0)) ≡ false = ground arith in rw none_left refl
set_gates-consecutive (suc n) start base entries i =
    set_gates-consecutive n (suc start) base
      (idt_set_gate start (base start) kernel_cs_index kernel_gate entries) i
    ∙ first_gate n start base entries i

gates-consecutive :
    (e : EntryPoints)
    → gates e
      ≡ consecutive 32 0 e.isr
        ++ (consecutive 16 32 (λ i. e.irq (i - 32))
            ++ ((48, e.sys_call, user_gate) ∷ (255, e.isr255, user_gate) ∷ []))
unfolding gates consecutive
gates-consecutive e = refl

-- The entry that a number should have.
abbrev pub entry_for : EntryPoints → (i : ℕ) → IdtEntry
entry_for e i =
    if ltb i 32
    then gate_to (e.isr i) kernel_gate
    else if ltb i 48
    then gate_to (e.irq (i - 32)) kernel_gate
    else if i == 48
    then gate_to e.sys_call user_gate
    else if i == 255
    then gate_to e.isr255 user_gate
    else zero_entry

tests_agree :
    (i : ℕ) (a b c d z : IdtEntry)
    → (if i == 255
        then d
        else if i == 48
        then c
        else if leb 32 i && ltb i (32 + 16)
        then b
        else if leb 0 i && ltb i (0 + 32)
        then a
        else z)
      ≡ (if ltb i 32
          then a
          else if ltb i 48
          then b
          else if i == 48
          then c
          else if i == 255
          then d
          else z)
tests_agree i a b c d z = ground arith

-- Every entry of the table of `init_idt`: the processor's exceptions below 32, the sixteen lines of the two
-- controllers from 32 to 47, the system calls at 48 and the last at 255 for the user's level too, and nothing
-- anywhere else.
pub init_idt-entry_for : (e : EntryPoints) (i : ℕ) → (init_idt e).2 i ≡ entry_for e i
unfolding init_idt idt_set_gate set_gates
init_idt-entry_for e i =
    let blank : ℕ → IdtEntry = λ _. zero_entry in
    let isrs = consecutive 32 0 e.isr in
    let irqs = consecutive 16 32 (λ i. e.irq (i - 32)) in
    let users = (48, e.sys_call, user_gate) ∷ (255, e.isr255, user_gate) ∷ [] in
    ap (λ g. set_gates g blank i) (gates-consecutive e)
    ∙ ap (λ (f : ℕ → IdtEntry). f i) (set_gates-append isrs (irqs ++ users) blank)
    ∙ ap (λ (f : ℕ → IdtEntry). f i) (set_gates-append irqs users (set_gates isrs blank))
    ∙ ap
        (λ r.
          if i == 255
          then gate_to e.isr255 user_gate
          else if i == 48
          then gate_to e.sys_call user_gate
          else r)
        (set_gates-consecutive 16 32 (λ i. e.irq (i - 32)) (set_gates isrs blank) i
          ∙ ap
              (λ r. if leb 32 i && ltb i (32 + 16) then gate_to (e.irq (i - 32)) kernel_gate else r)
              (set_gates-consecutive 32 0 e.isr blank i))
    ∙ tests_agree i (gate_to (e.isr i) kernel_gate) (gate_to (e.irq (i - 32)) kernel_gate)
        (gate_to e.sys_call user_gate) (gate_to e.isr255 user_gate) zero_entry
