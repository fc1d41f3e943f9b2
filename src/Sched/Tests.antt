-- ===== src/Sched/Tests.antt =====
-- The theorems on scheduling at one input.
use krven_os.Common.{ℕ, zero, suc, ◌<◌, ◌≡◌, ◌⊎◌, refl, arith, none, some, ◌==◌, if◌then◌else◌}
use krven_os.Common.Int.{pos, negsuc}
use krven_os.Proc.{Kernel, zero_proc, zero_kernel, live_kernel, user_proc}
use krven_os.Proc.Create.{Layout}
use krven_os.Sched.{proc_line_schedule}
use krven_os.Sched.Line.{Scheduled, proc_line_schedule_lem}
use krven_os.Sched.Tasks.{add_new_task, task_line_schedule}
use krven_os.Sched.Tasks.Settled.{Runs, FindsNone}
use krven_os.Sched.Tasks.Starts.{task_line_schedule-starts}

-- Only process 4 can run, and process 2 waits in the queue of process 1.
abbrev one_runs : Kernel
one_runs = record live_kernel {
  procs = λ i. record zero_proc {
    pid = pos i;
    take_up = 1;
    msg_head = if i == 1 then some 2 else none;
    msg_block = if i == 4 then 0 else 1;
  };
}

abbrev layout : Layout
layout = record { proc_stack = 0xC0200000; ldts = λ _. 0xC0300000; ldts_lt = λ _. omega arith }

-- A user task that waits, in an empty process table.
abbrev one_task : Kernel
one_task = (add_new_task user_proc 0x1000 (λ _. 0) zero_kernel).1

proc_line_schedule_example : Scheduled 4 one_runs (proc_line_schedule one_runs)
proc_line_schedule_example = proc_line_schedule_lem 4 one_runs (omega arith) (omega arith) refl

one_task_new : (j : ℕ) → j < 1 → (one_task.task_table j).pid ≡ negsuc 0
unfolding add_new_task
one_task_new zero below = refl
one_task_new (suc j) below = absurd (omega arith)

task_line_schedule-starts_example :
    Runs 0 0x1000 (task_line_schedule layout one_task)
    ⊎ FindsNone 0 (task_line_schedule layout one_task)
unfolding add_new_task krven_os.Sched.Tasks.named
task_line_schedule-starts_example =
    task_line_schedule-starts layout one_task 0 (λ j below waiting. one_task_new j below)
      (omega arith) refl refl
