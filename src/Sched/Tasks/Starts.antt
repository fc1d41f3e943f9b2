-- ===== src/Sched/Tasks/Starts.antt =====
-- Every task that waits gets a process from `task_line_schedule` of proc/sched.c, as long as there are free ones.
use mathlib.Core.Path.{subst}
use krven_os.Common.{
  ℕ, zero, suc, ◌+◌, ◌<◌, ◌≤◌, ◌≡◌, ◌⊎◌, ◌∙◌, inl, inr, Bool-cases, eq_or_ne, sym, ap, refl, arith,
  true, false, [], ◌∷◌,
}
use krven_os.Common.Int.{ℤ, negsuc}
use krven_os.Proc.{Kernel, Proc, ProcLevel, kernel_proc, sys_proc, user_proc, Task, task_waiting}
use krven_os.Proc.Create.{Layout, new_task_proc, new_user_proc}
use krven_os.Sched.Tasks.{
  named, is_waiting, note_pid, store_pid, adopt_as, adopt, start_task, scan_step, task_loop,
  task_line_schedule, scan_step-OnlyTask, task_loop-before,
}
use krven_os.Sched.Tasks.Settled.{
  is_started, Runs, FindsNone, KeepsTaken, Settled, waits, start_task-Settled,
}

module _ (l : Layout) where
  -- A task that is not started stays as it is.
  scan_step-stays :
      (i : ℕ) (k : Kernel)
      → is_started (k.task_table i) ≡ false
      → (k.task_table i).pid ≡ negsuc 0
      → adopt i (start_task l i k) ≡ k
  unfolding start_task adopt adopt_as
  scan_step-stays i k none' number =
      let task = k.task_table i in
      elim (Bool-cases (named task.name (73 ∷ 78 ∷ 73 ∷ 84 ∷ []) 0)) [
        | inl init ↦ let e : true ≡ false = rw init at none' in cc
        | inr other ↦ rw other (by_level task.level (rw other at none'))
      ]
    where
      made : ℤ × Kernel
      made = new_task_proc l (k.task_table i).entry k

      by_level :
          (level : ProcLevel)
          → (elim level [ kernel_proc ↦ false | sys_proc ↦ true | user_proc ↦ true ]) ≡ false
          → adopt i (elim level [
            | kernel_proc ↦ k
            | sys_proc ↦ note_pid (k.task_table i).name made.0 (store_pid i made)
            | user_proc ↦ store_pid i (new_user_proc l (k.task_table i).entry k)
          ])
            ≡ k
      by_level kernel_proc e = ap (λ n. adopt_as i n k) number
      by_level sys_proc e = cc
      by_level user_proc e = cc

  scan_step-KeepsTaken :
      (i : ℕ) (k : Kernel)
      → (is_waiting (k.task_table i).status ≡ true → (k.task_table i).pid ≡ negsuc 0)
      → KeepsTaken k (scan_step l i k)
  unfolding scan_step
  scan_step-KeepsTaken i k new = elim (Bool-cases (is_waiting (k.task_table i).status)) [
    | inl waiting ↦ rw waiting (elim (Bool-cases (is_started (k.task_table i))) [
      | inl starts ↦ (start_task-Settled l i k (waits (k.task_table i).status waiting) starts).0
      | inr none' ↦
          subst (KeepsTaken k) (sym (scan_step-stays i k none' (new waiting))) (λ p used. refl)
    ])
    | inr over ↦ rw over (λ p used. refl)
  ]

  -- The tasks from `i` on that wait have no process yet.
  abbrev AreNew : (n i : ℕ) → Kernel → Type 0
  AreNew n i k =
      (j : ℕ)
      → i ≤ j
      → j < i + n
      → is_waiting (k.task_table j).status ≡ true
      → (k.task_table j).pid ≡ negsuc 0

  AreNew-step : (n i : ℕ) (k : Kernel) → AreNew (suc n) i k → AreNew n (suc i) (scan_step l i k)
  AreNew-step n i k new j lo hi waiting =
      let same : (scan_step l i k).task_table j ≡ k.task_table j =
        (scan_step-OnlyTask l i k).0 j (omega arith) in
      ap (λ (t : Task). t.pid) same
      ∙ new j (omega arith) (omega arith)
          (sym (ap (λ (t : Task). is_waiting t.status) same) ∙ waiting)

  task_loop-KeepsTaken : (n i : ℕ) (k : Kernel) → AreNew n i k → KeepsTaken k (task_loop l n i k)
  unfolding task_loop
  task_loop-KeepsTaken zero i k new p used = refl
  task_loop-KeepsTaken (suc n) i k new p used =
      let first = scan_step-KeepsTaken i k (new i (omega arith) (omega arith)) p used in
      task_loop-KeepsTaken n (suc i) (scan_step l i k) (AreNew-step n i k new) p
        (λ z. used (sym (ap (λ (x : Proc). x.take_up) first) ∙ z))
      ∙ first

  -- What a task has come to stays.
  settled_kept :
      (i fun : ℕ) (k k' : Kernel)
      → k'.task_table i ≡ k.task_table i
      → KeepsTaken k k'
      → Runs i fun k ⊎ FindsNone i k
      → Runs i fun k' ⊎ FindsNone i k'
  settled_kept i fun k k' same kept (inl (p, below, status, number, taken, tid, entry)) =
      let proc : k'.procs p ≡ k.procs p = kept p (omega arith) in
      inl (
        p,
        below,
        ap (λ (t : Task). t.status) same ∙ status,
        ap (λ (t : Task). t.pid) same ∙ number,
        ap (λ (x : Proc). x.take_up) proc ∙ taken,
        ap (λ (x : Proc). x.tid) proc ∙ tid,
        ap (λ (x : Proc). x.regs.eip) proc ∙ entry,
      )
  settled_kept i fun k k' same kept (inr (status, number, full)) = inr (
    ap (λ (t : Task). t.status) same ∙ status,
    ap (λ (t : Task). t.pid) same ∙ number,
    λ p h z. full p h (sym (ap (λ (x : Proc). x.take_up) (kept p (full p h))) ∙ z),
  )

  task_loop-starts :
      (n i j : ℕ) (k : Kernel)
      → AreNew n i k
      → i ≤ j
      → j < i + n
      → (k.task_table j).status ≡ task_waiting
      → is_started (k.task_table j) ≡ true
      → Runs j (k.task_table j).entry (task_loop l n i k) ⊎ FindsNone j (task_loop l n i k)
  unfolding task_loop scan_step
  task_loop-starts zero i j k new lo hi waiting starts = absurd (omega arith)
  task_loop-starts (suc n) i j k new lo hi waiting starts = elim (eq_or_ne j i) [
    | inl here ↦
        let step : scan_step l j k ≡ adopt j (start_task l j k) = rw (ap is_waiting waiting) refl in
        let settled =
          subst (Settled j (k.task_table j).entry k) (sym step)
            (start_task-Settled l j k waiting starts) in
        let settled' : Runs j (k.task_table j).entry (scan_step l i k)
            ⊎ FindsNone j (scan_step l i k) =
          subst
            (λ m. Runs j (k.task_table j).entry (scan_step l m k) ⊎ FindsNone j (scan_step l m k))
            here (settled.1) in
        settled_kept j (k.task_table j).entry (scan_step l i k)
          (task_loop l n (suc i) (scan_step l i k))
          (task_loop-before l n (suc i) j (scan_step l i k) (omega arith))
          (task_loop-KeepsTaken n (suc i) (scan_step l i k) (AreNew-step n i k new)) settled'
    | inr later ↦
        let same : (scan_step l i k).task_table j ≡ k.task_table j =
          (scan_step-OnlyTask l i k).0 j later in
        subst
          (λ (t : Task).
            Runs j t.entry (task_loop l n (suc i) (scan_step l i k))
            ⊎ FindsNone j (task_loop l n (suc i) (scan_step l i k)))
          same
          (task_loop-starts n (suc i) j (scan_step l i k) (AreNew-step n i k new) (omega arith)
            (omega arith) (ap (λ (t : Task). t.status) same ∙ waiting)
            (ap is_started same ∙ starts))
  ]

  -- After the scan every task that waited, and that is called "INIT" or is not of the kernel's level, runs: its
  -- pid is that of a block that is taken up, starts at the task's entry point, and has the task's number. Or it
  -- waits still, and then no block is free. No task that waits has a process before, as `add_new_task` leaves it.
  pub task_line_schedule-starts :
      (k : Kernel) (i : ℕ)
      → ((j : ℕ)
          → j < k.task_size
          → (k.task_table j).status ≡ task_waiting
          → (k.task_table j).pid ≡ negsuc 0)
      → i < k.task_size
      → (k.task_table i).status ≡ task_waiting
      → is_started (k.task_table i) ≡ true
      → Runs i (k.task_table i).entry (task_line_schedule l k)
        ⊎ FindsNone i (task_line_schedule l k)
  unfolding task_line_schedule
  task_line_schedule-starts k i new below waiting starts =
      task_loop-starts k.task_size 0 i k
        (λ j lo hi w. new j (omega arith) (waits (k.task_table j).status w)) (omega arith)
        (omega arith) waiting starts
