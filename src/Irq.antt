-- ===== src/Irq.antt =====
-- Interrupts: the table of gates and the handlers of idt/idt.c, the clock of driver/timer.c, and the table of
-- system calls of sys/syscall.c. Writes to ports are lists of a port and a byte. The addresses of the entry
-- points of idt/idt_s.s are given.
pub mod Gates
pub mod Clock
mod Tests
use krven_os.Common.{
  ℕ, ◌+◌, ◌/◌, ◌^◌, bit_and, Option, none, some, List, [], ◌∷◌, leb, if◌then◌else◌, update,
}
use krven_os.Proc.{Kernel}
use krven_os.Proc.Create.{Layout}
use krven_os.Sched.{proc_line_schedule}
use krven_os.Sched.Tasks.{task_line_schedule}
use krven_os.Descriptor.{IdtEntry, idt_set_gate}

pub record EntryPoints : Type 0 where
  pub isr : ℕ → ℕ
  pub irq : ℕ → ℕ
  pub sys_call : ℕ
  pub isr255 : ℕ

-- `TYPE_386IGate | DPL_0` and `TYPE_386IGate | DPL_3`
abbrev pub kernel_gate : ℕ
kernel_gate = 0x8E

abbrev pub user_gate : ℕ
user_gate = 0xEE

abbrev pub kernel_cs_index : ℕ
kernel_cs_index = 0x08

abbrev pub zero_entry : IdtEntry
zero_entry = record { base_lo = 0; sel = 0; always0 = 0; flags = 0; base_hi = 0 }

-- The number, the entry point and the flags of each gate, in the order of `init_idt`.
unfoldable pub gates : EntryPoints → List (ℕ × ℕ × ℕ)
gates e =
    (0, e.isr 0, kernel_gate)
    ∷ (1, e.isr 1, kernel_gate)
    ∷ (2, e.isr 2, kernel_gate)
    ∷ (3, e.isr 3, kernel_gate)
    ∷ (4, e.isr 4, kernel_gate)
    ∷ (5, e.isr 5, kernel_gate)
    ∷ (6, e.isr 6, kernel_gate)
    ∷ (7, e.isr 7, kernel_gate)
    ∷ (8, e.isr 8, kernel_gate)
    ∷ (9, e.isr 9, kernel_gate)
    ∷ (10, e.isr 10, kernel_gate)
    ∷ (11, e.isr 11, kernel_gate)
    ∷ (12, e.isr 12, kernel_gate)
    ∷ (13, e.isr 13, kernel_gate)
    ∷ (14, e.isr 14, kernel_gate)
    ∷ (15, e.isr 15, kernel_gate)
    ∷ (16, e.isr 16, kernel_gate)
    ∷ (17, e.isr 17, kernel_gate)
    ∷ (18, e.isr 18, kernel_gate)
    ∷ (19, e.isr 19, kernel_gate)
    ∷ (20, e.isr 20, kernel_gate)
    ∷ (21, e.isr 21, kernel_gate)
    ∷ (22, e.isr 22, kernel_gate)
    ∷ (23, e.isr 23, kernel_gate)
    ∷ (24, e.isr 24, kernel_gate)
    ∷ (25, e.isr 25, kernel_gate)
    ∷ (26, e.isr 26, kernel_gate)
    ∷ (27, e.isr 27, kernel_gate)
    ∷ (28, e.isr 28, kernel_gate)
    ∷ (29, e.isr 29, kernel_gate)
    ∷ (30, e.isr 30, kernel_gate)
    ∷ (31, e.isr 31, kernel_gate)
    ∷ (32, e.irq 0, kernel_gate)
    ∷ (33, e.irq 1, kernel_gate)
    ∷ (34, e.irq 2, kernel_gate)
    ∷ (35, e.irq 3, kernel_gate)
    ∷ (36, e.irq 4, kernel_gate)
    ∷ (37, e.irq 5, kernel_gate)
    ∷ (38, e.irq 6, kernel_gate)
    ∷ (39, e.irq 7, kernel_gate)
    ∷ (40, e.irq 8, kernel_gate)
    ∷ (41, e.irq 9, kernel_gate)
    ∷ (42, e.irq 10, kernel_gate)
    ∷ (43, e.irq 11, kernel_gate)
    ∷ (44, e.irq 12, kernel_gate)
    ∷ (45, e.irq 13, kernel_gate)
    ∷ (46, e.irq 14, kernel_gate)
    ∷ (47, e.irq 15, kernel_gate)
    ∷ (48, e.sys_call, user_gate)
    ∷ (255, e.isr255, user_gate)
    ∷ []

unfoldable pub set_gates : List (ℕ × ℕ × ℕ) → (ℕ → IdtEntry) → ℕ → IdtEntry
unfolding idt_set_gate
set_gates [] entries = entries
set_gates ((num, base, flags) ∷ rest) entries =
    set_gates rest (idt_set_gate num base kernel_cs_index flags entries)

-- The two controllers: interrupts from 32 and from 40 on, the second at line 2 of the first, all allowed.
abbrev pub pic_outputs : List (ℕ × ℕ)
pic_outputs =
    (0x20, 0x11)
    ∷ (0xA0, 0x11)
    ∷ (0x21, 0x20)
    ∷ (0xA1, 0x28)
    ∷ (0x21, 0x04)
    ∷ (0xA1, 0x02)
    ∷ (0x21, 0x01)
    ∷ (0xA1, 0x01)
    ∷ (0x21, 0x00)
    ∷ (0xA1, 0x00)
    ∷ []

-- `interrupt_handlers`, where `none` is the null pointer.
abbrev pub InterruptHandlers : Type 0
InterruptHandlers = ℕ → Option (Kernel → Option Kernel)

-- `init_idt`: what it writes to ports, and the two tables, which are cleared first.
unfoldable pub init_idt : EntryPoints → List (ℕ × ℕ) × InterruptHandlers × (ℕ → IdtEntry)
unfolding gates set_gates
init_idt e = (pic_outputs, (λ _. none), set_gates (gates e) (λ _. zero_entry))

unfoldable pub register_interrupt_handler :
    (n : ℕ) → (Kernel → Option Kernel) → InterruptHandlers → InterruptHandlers
register_interrupt_handler n h handlers = update handlers n (some h)

-- The end of the interrupt is sent to the second controller too for a line of its own.
abbrev pub end_of_interrupt : (int_no : ℕ) → List (ℕ × ℕ)
end_of_interrupt int_no =
    if leb 40 int_no then (0xA0, 0x20) ∷ (0x20, 0x20) ∷ [] else (0x20, 0x20) ∷ []

unfoldable pub irq_handler :
    InterruptHandlers → (int_no : ℕ) → Kernel → List (ℕ × ℕ) × Option Kernel
irq_handler handlers int_no k =
    (end_of_interrupt int_no, elim (handlers int_no) [ none ↦ some k | some h ↦ h k ])

unfoldable pub clock_handler : Layout → Kernel → Option Kernel
unfolding task_line_schedule proc_line_schedule
clock_handler l k = proc_line_schedule (task_line_schedule l k)

-- `init_timer`: the handler of interrupt 32, the mode, and the two bytes of the divisor.
unfoldable pub init_timer :
    Layout → (frequency : ℕ) → InterruptHandlers → List (ℕ × ℕ) × InterruptHandlers
unfolding register_interrupt_handler clock_handler
init_timer l frequency handlers =
    let divisor = 1193180 / frequency in
    (
      (0x43, 0x36) ∷ (0x40, bit_and divisor 0xFF) ∷ (0x40, bit_and (divisor / 2 ^ 8) 0xFF) ∷ [],
      register_interrupt_handler 32 (clock_handler l) handlers,
    )

-- The functions of the table of system calls.
pub data SysCall : Type 0 where
  sys_get_proc_num sys_write_clear sys_exit sys_write sys_get_proc_pid sys_kill : SysCall
  sys_send_interrupt sys_recv_interrupt sys_write_color sys_send_message sys_recv_message : SysCall

unfoldable pub set_sys_call : (num : ℕ) → SysCall → (ℕ → Option SysCall) → ℕ → Option SysCall
set_sys_call num sys_call table = update table num (some sys_call)

unfoldable pub init_sys_call : (ℕ → Option SysCall) → ℕ → Option SysCall
unfolding set_sys_call
init_sys_call t0 =
    let t1 = set_sys_call 1 sys_get_proc_num t0 in
    let t2 = set_sys_call 2 sys_write_clear t1 in
    let t3 = set_sys_call 4 sys_exit t2 in
    let t4 = set_sys_call 51 sys_write t3 in
    let t5 = set_sys_call 52 sys_get_proc_pid t4 in
    let t6 = set_sys_call 53 sys_kill t5 in
    let t7 = set_sys_call 102 sys_send_interrupt t6 in
    let t8 = set_sys_call 103 sys_recv_interrupt t7 in
    let t9 = set_sys_call 151 sys_write_color t8 in
    let t10 = set_sys_call 152 sys_send_message t9 in set_sys_call 153 sys_recv_message t10
