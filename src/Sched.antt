-- ===== src/Sched.antt =====
-- The choice of the next process: proc/sched.c, and the system calls of sys/proc/sys_call_proc.c that
-- choose one. The `while(1)` of the line scheduler takes fuel; `none` is a loop that has not ended.
pub mod Line
pub mod Calls
pub mod Tasks
mod Tests
use krven_os.Common.{
  ℕ, zero, suc, ◌+◌, ◌%◌, update, Bool, true, false, not, ◌&&◌, Option, none, some, ◌==◌,
  if◌then◌else◌,
}
use krven_os.Common.Int.{ℤ, pos, negsuc}
use krven_os.Proc.{
  Proc, Kernel, ProcStatus, proc_running, proc_block, proc_max_num, Task, task_stop,
}
use krven_os.Msg.{set_proc, msg_send, msg_receive, msg_send_interrupt, msg_recv_interrupt}

-- The test of both schedulers: not blocked, and not an empty block.
abbrev pub runnable : Proc → Bool
runnable p = not (p.msg_block == 1) && not (p.take_up == 0)

-- One round: the process at `proc_ptr` becomes the current one, and the pointer moves on.
abbrev pub advance : Kernel → Kernel
advance k = record k { current_proc = k.proc_ptr; proc_ptr = (k.proc_ptr + 1) % proc_max_num }

abbrev pub set_status : (i : ℕ) → ProcStatus → Kernel → Kernel
set_status i s k = set_proc i (record (k.procs i) { status = s }) k

unfoldable pub line_loop : ℕ → Kernel → Option Kernel
line_loop zero k = none
line_loop (suc n) k =
    let i = k.proc_ptr in
    let rest =
      line_loop n
        (if (k.procs i).msg_block == 1 then set_status i proc_block (advance k) else advance k) in
    if runnable (k.procs i) then some (set_status i proc_running (advance k)) else rest

-- `proc_line_schedule` with ten rounds: once round the table.
unfoldable pub proc_line_schedule : Kernel → Option Kernel
unfolding line_loop
proc_line_schedule k = line_loop proc_max_num k

-- "if(proc->msg_block == 1) proc_line_schedule();"
unfoldable pub reschedule : (pid : ℕ) → Kernel → Option Kernel
unfolding proc_line_schedule
reschedule pid k = if (k.procs pid).msg_block == 1 then proc_line_schedule k else some k

abbrev pub and_then : Option Kernel → (Kernel → Option Kernel) → Option Kernel
and_then none f = none
and_then (some k) f = f k

unfoldable pub sys_send_message : (recv_from send_to msg : ℕ) → Kernel → Option Kernel
unfolding msg_send reschedule
sys_send_message recv_from send_to msg k =
    and_then (msg_send recv_from send_to msg k) (reschedule recv_from)

unfoldable pub sys_recv_message : (recv_from : ℤ) → (send_to msg : ℕ) → Kernel → Option Kernel
unfolding msg_receive reschedule
sys_recv_message recv_from send_to msg k =
    and_then (msg_receive send_to recv_from msg k) (reschedule send_to)

unfoldable pub sys_send_interrupt : (pid interrupt_id : ℕ) → Kernel → Option Kernel
unfolding msg_send_interrupt reschedule
sys_send_interrupt pid interrupt_id k = reschedule pid (msg_send_interrupt pid interrupt_id k)

unfoldable pub sys_recv_interrupt : (pid interrupt_id : ℕ) → Kernel → Option Kernel
unfolding msg_recv_interrupt reschedule
sys_recv_interrupt pid interrupt_id k = reschedule pid (msg_recv_interrupt pid interrupt_id k)

-- `sys_get_proc_pid`: what is stored through the pointer.
unfoldable pub sys_get_proc_pid : Kernel → ℤ
sys_get_proc_pid k = (k.procs k.current_proc).pid

-- `sys_kill`: `none` is a write in front of the task table.
unfoldable pub sys_kill : (pid : ℕ) → Kernel → Option Kernel
sys_kill pid k =
    let k₁ = set_proc pid (record (k.procs pid) { take_up = 0 }) k in
    elim (k₁.procs pid).tid [
      | pos tid ↦ some (record k₁ {
        task_table = update k₁.task_table tid (record (k₁.task_table tid) { status = task_stop });
      })
      | negsuc _ ↦ none
    ]
