-- ===== src/Irq/Clock.antt =====
-- A tick of the clock: driver/timer.c with idt/idt.c and proc/sched.c.
use native.Mathlib.Nat.{div-add-mod}
use krven_os.Common.{ℕ, ◌+◌, ◌*◌, ◌/◌, ◌%◌, ◌^◌, ◌<◌, ◌≤◌, ◌≡◌, refl, arith, bit_and, true, [], ◌∷◌}
use krven_os.Common.Bits.{bit_and-mask}
use krven_os.Proc.{Kernel, proc_max_num}
use krven_os.Proc.Create.{Layout}
use krven_os.Sched.{runnable}
use krven_os.Sched.Line.{Scheduled, proc_line_schedule_lem}
use krven_os.Sched.Tasks.{task_line_schedule}
use krven_os.Irq.{
  InterruptHandlers, register_interrupt_handler, irq_handler, clock_handler, init_timer,
}

low_byte : (x : ℕ) → bit_and x 0xFF ≡ x % 2 ^ 8
low_byte x = bit_and-mask 8 (x / 2 ^ 8) (x % 2 ^ 8) x 0xFF (omega arith) (omega arith) refl

divisor_fits : (f d : ℕ) → f * d + 1193180 % f ≡ 1193180 → 19 ≤ f → d < 65536
divisor_fits f d e h = let more : 19 * d ≤ f * d = grind arith in omega (arith, more)

-- With the clock started at 19 ticks a second or more, the two bytes that `init_timer` sends are those of the
-- divisor, the first the low one. A tick then ends the interrupt at the first controller only, and schedules:
-- if a process can run once the tasks that wait have theirs, the tick chooses a process that can run, and at
-- the latest that one.
pub init_timer-tick :
    (l : Layout) (frequency j : ℕ) (handlers : InterruptHandlers) (k : Kernel)
    → 19 ≤ frequency
    → (task_line_schedule l k).proc_ptr < proc_max_num
    → j < proc_max_num
    → runnable ((task_line_schedule l k).procs j) ≡ true
    → let (outputs, handlers') = init_timer l frequency handlers in
      let (ended, k') = irq_handler handlers' 32 k in
      (low high : ℕ) × (outputs ≡ (0x43, 0x36) ∷ (0x40, low) ∷ (0x40, high) ∷ [])
      × (low + 256 * high ≡ 1193180 / frequency)
      × (low < 256)
      × (high < 256)
      × (ended ≡ (0x20, 0x20) ∷ [])
      × Scheduled j (task_line_schedule l k) k'
unfolding init_timer irq_handler register_interrupt_handler clock_handler
init_timer-tick l frequency j handlers k fast inside below run =
    let divisor : ℕ = 1193180 / frequency in
    let small : divisor < 65536 =
      divisor_fits frequency divisor (div-add-mod 1193180 frequency) fast in
    let low = low_byte divisor in
    let high = low_byte (divisor / 2 ^ 8) in
    (
      bit_and divisor 0xFF,
      bit_and (divisor / 2 ^ 8) 0xFF,
      refl,
      omega arith,
      omega arith,
      omega arith,
      refl,
      proc_line_schedule_lem j (task_line_schedule l k) inside below run,
    )
