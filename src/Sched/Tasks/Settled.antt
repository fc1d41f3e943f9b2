-- ===== src/Sched/Tasks/Settled.antt =====
-- What `task_line_schedule` of proc/sched.c makes of one task that waits.
use mathlib.Core.Path.{subst}
use krven_os.Common.{
  ℕ, ◌<◌, ◌≡◌, ◌≢◌, ◌⊎◌, ◌∙◌, inl, inr, Bool-cases, sym, ap, refl, arith, update_self, update_ne,
  Bool, true, false, ◌||◌, [], ◌∷◌,
}
use krven_os.Common.Int.{ℤ, pos, negsuc}
use krven_os.Proc.{
  Kernel, Proc, ProcLevel, kernel_proc, sys_proc, user_proc, proc_max_num, Task, TaskStatus,
  task_stop, task_running, task_waiting,
}
use krven_os.Proc.Create.{
  Layout, Made, new_init_proc, new_task_proc, new_user_proc, new_init_proc-Made, new_task_proc-Made,
  new_user_proc-Made, new_init_proc-KeepsTasks, new_task_proc-KeepsTasks, new_user_proc-KeepsTasks,
}
use krven_os.Sched.Tasks.{
  named, is_waiting, note_pid, store_pid, adopt_as, adopt, start_task, note_pid-tasks,
}

-- A task that gets a process: "INIT", and the others that are not of the kernel's level.
abbrev pub is_started : Task → Bool
is_started t =
    named t.name (73 ∷ 78 ∷ 73 ∷ 84 ∷ []) 0
    || elim t.level [ kernel_proc ↦ false | sys_proc ↦ true | user_proc ↦ true ]

-- The task runs as a process that starts at its entry point and has its number.
abbrev pub Runs : (i entry : ℕ) → Kernel → Type 0
Runs i entry k =
    (p : ℕ) × (p < proc_max_num)
    × ((k.task_table i).status ≡ task_running)
    × ((k.task_table i).pid ≡ pos p)
    × ((k.procs p).take_up ≡ 1)
    × ((k.procs p).tid ≡ pos i)
    × ((k.procs p).regs.eip ≡ entry)

-- The task waits, and no block of a process is free.
abbrev pub FindsNone : (i : ℕ) → Kernel → Type 0
FindsNone i k =
    ((k.task_table i).status ≡ task_waiting)
    × ((k.task_table i).pid ≡ negsuc 0)
    × ((p : ℕ) → p < proc_max_num → (k.procs p).take_up ≢ 0)

-- A step leaves the blocks that are taken.
abbrev pub KeepsTaken : Kernel → Kernel → Type 0
KeepsTaken k k' = (p : ℕ) → (k.procs p).take_up ≢ 0 → k'.procs p ≡ k.procs p

pub waits : (s : TaskStatus) → is_waiting s ≡ true → s ≡ task_waiting
waits task_stop e = cc
waits task_running e = cc
waits task_waiting e = refl

-- What a step makes of a task.
abbrev pub Settled : (i fun : ℕ) → Kernel → Kernel → Type 0
Settled i fun k k' = KeepsTaken k k' × (Runs i fun k' ⊎ FindsNone i k')

-- A task with the number and the state that a creation has left.
store-adopt :
    (i fun : ℕ) (k k2 : Kernel) (made : ℤ × Kernel)
    → Made fun k made
    → made.1.task_table ≡ k.task_table
    → k2.procs ≡ made.1.procs
    → k2.task_table ≡ (store_pid i made).task_table
    → (k.task_table i).status ≡ task_waiting
    → Settled i fun k (adopt i k2)
unfolding adopt adopt_as
store-adopt i fun k k2 (pos p, k1) (below, free, taken, entry, others) table procs stored waiting =
    let own : k2.task_table i ≡ record (k1.task_table i) { pid = pos p } =
      ap (λ t. t i) stored
      ∙ update_self k1.task_table i (record (k1.task_table i) { pid = pos p }) in
    let number : (k2.task_table i).pid ≡ pos p = ap (λ (t : Task). t.pid) own in
    let done : Kernel = adopt_as i (pos p) k2 in
    let same : adopt i k2 ≡ done = ap (λ n. adopt_as i n k2) number in
    let task = update_self k2.task_table i _ in
    let proc = update_self k2.procs p _ in
    let other = λ (q : ℕ) (used : (k.procs q).take_up ≢ 0) (e : q ≡ p).
      used (ap (λ j. (k.procs j).take_up) e ∙ free) in
    let settled : Settled i fun k done = (
      λ q used.
          update_ne k2.procs p q _ (other q used) ∙ ap (λ f. f q) procs ∙ others q (other q used),
      inl (
        p,
        below,
        ap (λ (t : Task). t.status) task,
        ap (λ (t : Task). t.pid) task ∙ number,
        ap (λ (x : Proc). x.take_up) proc ∙ ap (λ f. (f p).take_up) procs ∙ taken,
        ap (λ (x : Proc). x.tid) proc,
        ap (λ (x : Proc). x.regs.eip) proc ∙ ap (λ f. (f p).regs.eip) procs ∙ entry,
      ),
    ) in
    subst (Settled i fun k) (sym same) settled
store-adopt i fun k k2 (negsuc n, k1) (e, full, same) table procs stored waiting =
    let own : k2.task_table i ≡ record (k1.task_table i) { pid = negsuc n } =
      ap (λ t. t i) stored
      ∙ update_self k1.task_table i (record (k1.task_table i) { pid = negsuc n }) in
    let number : (k2.task_table i).pid ≡ negsuc 0 = ap (λ (t : Task). t.pid) own ∙ ap negsuc e in
    let left : adopt i k2 ≡ k2 = ap (λ n. adopt_as i n k2) number in
    let kept = λ (q : ℕ). ap (λ f. f q) procs ∙ ap (λ (k : Kernel). k.procs q) same in
    let settled : Settled i fun k k2 = (
      λ q used. kept q,
      inr (
        ap (λ (t : Task). t.status) own ∙ ap (λ t. (t i).status) table ∙ waiting,
        number,
        λ q h z. full q h (sym (ap (λ (x : Proc). x.take_up) (kept q)) ∙ z),
      ),
    ) in
    subst (Settled i fun k) (sym left) settled

-- Each way to start a task.
note_pid-procs : (name : ℕ → ℕ) (pid : ℤ) (k : Kernel) → (note_pid name pid k).procs ≡ k.procs
unfolding note_pid
note_pid-procs name pid k = grind arith

module _ (l : Layout) where
  pub start_task-Settled :
      (i : ℕ) (k : Kernel)
      → (k.task_table i).status ≡ task_waiting
      → is_started (k.task_table i) ≡ true
      → Settled i (k.task_table i).entry k (adopt i (start_task l i k))
  unfolding start_task
  start_task-Settled i k waiting starts =
      let task = k.task_table i in
      elim (Bool-cases (named task.name (73 ∷ 78 ∷ 73 ∷ 84 ∷ []) 0)) [
        | inl init ↦ rw init (
            store-adopt i task.entry k (store_pid i (new_init_proc l task.entry k))
              (new_init_proc l task.entry k) (new_init_proc-Made l task.entry k)
              ((new_init_proc-KeepsTasks l task.entry k).0) refl refl waiting)
        | inr other ↦ rw other (by_level task.level (rw other at starts))
      ]
    where
      made : ℤ × Kernel
      made = new_task_proc l (k.task_table i).entry k

      by_level :
          (level : ProcLevel)
          → (elim level [ kernel_proc ↦ false | sys_proc ↦ true | user_proc ↦ true ]) ≡ true
          → Settled i (k.task_table i).entry k (
              adopt i (elim level [
                | kernel_proc ↦ k
                | sys_proc ↦ note_pid (k.task_table i).name made.0 (store_pid i made)
                | user_proc ↦ store_pid i (new_user_proc l (k.task_table i).entry k)
              ]))
      by_level kernel_proc e = cc
      by_level sys_proc e =
          store-adopt i (k.task_table i).entry k
            (note_pid (k.task_table i).name made.0 (store_pid i made)) made
            (new_task_proc-Made l (k.task_table i).entry k)
            ((new_task_proc-KeepsTasks l (k.task_table i).entry k).0)
            (note_pid-procs (k.task_table i).name made.0 (store_pid i made))
            ((note_pid-tasks (k.task_table i).name made.0 (store_pid i made)).0) waiting
      by_level user_proc e =
          store-adopt i (k.task_table i).entry k
            (store_pid i (new_user_proc l (k.task_table i).entry k))
            (new_user_proc l (k.task_table i).entry k)
            (new_user_proc-Made l (k.task_table i).entry k)
            ((new_user_proc-KeepsTasks l (k.task_table i).entry k).0) refl refl waiting
