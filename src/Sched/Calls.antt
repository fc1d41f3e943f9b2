-- ===== src/Sched/Calls.antt =====
-- The system calls that may give the processor away.
use krven_os.Common.{
  ℕ, ◌<◌, ◌≡◌, ◌≢◌, ◌∙◌, ap, true, false, Option, none, some, List, arith, ◌==◌, length,
}
use mathlib.Core.Path.{subst}
use krven_os.Common.Int.{ℤ, pos}
use krven_os.Proc.{Kernel, task_stop, proc_max_num}
use krven_os.Msg.{rounds, msg_receive, set_proc}
use krven_os.Msg.Chain.{Chain, frame}
use krven_os.Msg.Receive.{Received, pick, wants, msg_receive_lem}
use krven_os.Sched.{runnable, reschedule, proc_line_schedule, sys_recv_message, sys_kill, and_then}
use krven_os.Sched.Line.{Scheduled, proc_line_schedule_lem}

-- The caller cannot run, and another process, which can, is the current one.
abbrev pub SwitchedFrom : ℕ → Option Kernel → Type 0
SwitchedFrom to none = ⊥
SwitchedFrom to (some k') =
    (runnable (k'.procs to) ≡ false)
    × (k'.current_proc ≢ to)
    × (runnable (k'.procs k'.current_proc) ≡ true)

blocked-SwitchedFrom :
    (to j : ℕ) (k : Kernel) (r : Option Kernel)
    → runnable (k.procs to) ≡ false
    → Scheduled j k r
    → SwitchedFrom to r
blocked-SwitchedFrom to j k none b s = s
blocked-SwitchedFrom to j k (some k') b (lt, run, status, near, next, kept) =
    (kept to ∙ b, (λ e. cc (ap (λ (i : ℕ). runnable (k.procs i)) e)), kept k'.current_proc ∙ run)

Received-SwitchedFrom :
    (to : ℕ) (r : ℤ) (msg j : ℕ) (xs : List ℕ) (k : Kernel) (o : Option Kernel)
    → Received to r msg xs k none o
    → k.proc_ptr < proc_max_num
    → j < proc_max_num
    → j ≢ to
    → runnable (k.procs j) ≡ true
    → SwitchedFrom to (and_then o (reschedule to))
unfolding reschedule
Received-SwitchedFrom to r msg j xs k none e hi hj ne run = e
Received-SwitchedFrom to r msg j xs k (some k₁) (b, from, buf, c, others, mem, ptr) hi hj ne run =
    let blocked : ((k₁.procs to).msg_block == 1) ≡ true = ground arith in
    let idle : runnable (k₁.procs to) ≡ false = ground arith in
    let run' : runnable (k₁.procs j) ≡ true = ap runnable (others j ne) ∙ run in
    rw blocked (
      blocked-SwitchedFrom to j k₁ (proc_line_schedule k₁) idle
        (proc_line_schedule_lem j k₁ (omega arith) hj run'))

-- A receive that finds no wanted sender ends with the caller unable to run and another process as the
-- current one, if some other process can run.
pub sys_recv_message-SwitchedFrom :
    (to : ℕ) (r : ℤ) (msg j : ℕ) (xs : List ℕ) (k : Kernel)
    → Chain k.procs (k.procs to).msg_head xs
    → length xs < rounds
    → pick (wants r k) xs ≡ none
    → k.proc_ptr < proc_max_num
    → j < proc_max_num
    → j ≢ to
    → runnable (k.procs j) ≡ true
    → SwitchedFrom to (sys_recv_message r to msg k)
unfolding sys_recv_message
sys_recv_message-SwitchedFrom to r msg j xs k c h e hi hj ne run =
    Received-SwitchedFrom to r msg j xs k (msg_receive to r msg k)
      (subst (λ t. Received to r msg xs k t (msg_receive to r msg k)) e
        (msg_receive_lem to r msg xs k c h))
      hi hj ne run

-- The block of `pid` is free, its task is stopped, all others stay, and so does the queue of `q`.
abbrev pub Killed : (pid tid q : ℕ) → List ℕ → Kernel → Option Kernel → Type 0
Killed pid tid q xs k none = ⊥
Killed pid tid q xs k (some k') =
    (runnable (k'.procs pid) ≡ false)
    × ((k'.procs pid).take_up ≡ 0)
    × ((k'.task_table tid).status ≡ task_stop)
    × ((p : ℕ) → p ≢ pid → k'.procs p ≡ k.procs p)
    × ((t : ℕ) → t ≢ tid → k'.task_table t ≡ k.task_table t)
    × Chain k'.procs (k'.procs q).msg_head xs

-- Killing a process that belongs to a task frees its block and stops its task, and changes no other
-- block and no other task. It leaves the process in every queue in which it waits.
pub sys_kill_lem :
    (pid tid q : ℕ) (xs : List ℕ) (k : Kernel)
    → (k.procs pid).tid ≡ pos tid
    → Chain k.procs (k.procs q).msg_head xs
    → Killed pid tid q xs k (sys_kill pid k)
unfolding sys_kill
sys_kill_lem pid tid q xs k e c =
    let k₁ : Kernel = set_proc pid (record (k.procs pid) { take_up = 0 }) k in
    let named : (k₁.procs pid).tid ≡ pos tid = ground arith in
    let head : (k₁.procs q).msg_head ≡ (k.procs q).msg_head = ground arith in
    rw (Killed, named)
      (
        ground arith,
        ground arith,
        ground arith,
        λ p ne. ground arith,
        λ t ne. ground arith,
        rw head (frame k.procs k₁.procs (k.procs q).msg_head xs (λ a h. ground arith) c),
      )
