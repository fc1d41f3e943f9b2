-- ===== src/Irq/Tests.antt =====
-- The theorems on interrupts at one input.
use krven_os.Common.{
  ℕ, ◌+◌, ◌*◌, ◌/◌, ◌<◌, ◌≡◌, refl, arith, none, [], ◌∷◌, ◌==◌, if◌then◌else◌, some,
}
use krven_os.Common.Int.{pos}
use krven_os.Proc.{Kernel, zero_proc, live_kernel}
use krven_os.Proc.Create.{Layout}
use krven_os.Sched.Line.{Scheduled}
use krven_os.Sched.Tasks.{task_line_schedule}
use krven_os.Irq.{
  EntryPoints, InterruptHandlers, irq_handler, init_timer, init_idt, init_sys_call, sys_exit,
}
use krven_os.Irq.Gates.{entry_for, init_idt-entry_for}
use krven_os.Irq.Clock.{init_timer-tick}

-- Only process 4 can run.
abbrev one_runs : Kernel
one_runs = record live_kernel {
  procs = λ i. record zero_proc { pid = pos i; take_up = 1; msg_block = if i == 4 then 0 else 1 };
}

abbrev layout : Layout
layout = record { proc_stack = 0xC0200000; ldts = λ _. 0xC0300000; ldts_lt = λ _. omega arith }

abbrev no_handlers : InterruptHandlers
no_handlers n = none

init_timer-tick_example :
    let (outputs, handlers') = init_timer layout 100 no_handlers in
    let (ended, k') = irq_handler handlers' 32 one_runs in
    (low high : ℕ) × (outputs ≡ (0x43, 0x36) ∷ (0x40, low) ∷ (0x40, high) ∷ [])
    × (low + 256 * high ≡ 1193180 / 100)
    × (low < 256)
    × (high < 256)
    × (ended ≡ (0x20, 0x20) ∷ [])
    × Scheduled 4 (task_line_schedule layout one_runs) k'
unfolding task_line_schedule
init_timer-tick_example =
    init_timer-tick layout 100 4 no_handlers one_runs (omega arith) (omega arith) (omega arith) refl

abbrev entry_points : EntryPoints
entry_points = record {
  isr = λ i. 0xC0100000 + i * 16;
  irq = λ i. 0xC0100200 + i * 16;
  sys_call = 0xC0100400;
  isr255 = 0xC0100500;
}

init_idt-entry_for_example : (init_idt entry_points).2 40 ≡ entry_for entry_points 40
init_idt-entry_for_example = init_idt-entry_for entry_points 40

exit_number : init_sys_call (λ _. none) 4 ≡ some sys_exit
unfolding init_sys_call
exit_number = refl
