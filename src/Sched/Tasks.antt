-- ===== src/Sched/Tasks.antt =====
-- The task table: `add_new_task` of proc/task.c and `task_line_schedule` of proc/sched.c.
pub mod Settled
pub mod Starts
use mathlib.Core.Path.{subst}
use krven_os.Common.{
  ℕ, zero, suc, ◌+◌, ◌<◌, ◌≡◌, ◌≢◌, ◌⊎◌, ◌∙◌, inl, inr, Bool-cases, ◌≤◌, sym, ap, refl, arith,
  update, update_self, update_ne, Bool, true, false, ◌&&◌, ◌||◌, List, [], ◌∷◌, ◌==◌, if◌then◌else◌,
}
use krven_os.Common.Int.{ℤ, pos, negsuc}
use krven_os.Proc.{
  Kernel, ProcLevel, kernel_proc, sys_proc, user_proc, Task, TaskStatus, task_stop, task_running,
  task_waiting,
}
use krven_os.Proc.Create.{
  Layout, new_init_proc-KeepsTasks, new_task_proc-KeepsTasks, new_user_proc-KeepsTasks,
  new_init_proc, new_task_proc, new_user_proc,
}

-- Does the string at `s` end before place `i`?
ended : (ℕ → ℕ) → ℕ → Bool
ended s zero = false
ended s (suc i) = (s i == 0) || ended s i

-- `strcpy`: the characters with the closing zero; what is behind it stays.
abbrev strcpy : (to from : ℕ → ℕ) → ℕ → ℕ
strcpy to from i = if ended from i then to i else from i

-- `strcmp(s, literal) == 0`
unfoldable pub named : (ℕ → ℕ) → List ℕ → ℕ → Bool
named s [] i = s i == 0
named s (c ∷ literal) i = (s i == c) && named s literal (suc i)

abbrev waiting_task : ProcLevel → (entry : ℕ) → (name : ℕ → ℕ) → (tid : ℕ) → Task → Task
waiting_task level entry name tid old = record old {
  level = level;
  entry = entry;
  name = strcpy old.name name;
  status = task_waiting;
  pid = negsuc 0;
  tid = tid;
}

unfoldable pub add_new_task : ProcLevel → (entry : ℕ) → (name : ℕ → ℕ) → Kernel → ℕ × Kernel
unfolding ended
add_new_task level entry name k =
    let new = waiting_task level entry name k.task_size (k.task_table k.task_size) in
    (
      k.task_size,
      record k { task_table = update k.task_table k.task_size new; task_size = k.task_size + 1 },
    )

abbrev is_waiting : TaskStatus → Bool
is_waiting task_stop = false
is_waiting task_running = false
is_waiting task_waiting = true

abbrev set_task : ℕ → Task → Kernel → Kernel
set_task i t k = record k { task_table = update k.task_table i t }

-- The pids of the system tasks that others send to: "HD", "FS", "TTY", "MM".
unfoldable pub note_pid : (name : ℕ → ℕ) → ℤ → Kernel → Kernel
unfolding named
note_pid name pid k =
    if named name (72 ∷ 68 ∷ []) 0
    then record k { hd_pid = pid }
    else if named name (70 ∷ 83 ∷ []) 0
    then record k { fs_pid = pid }
    else if named name (84 ∷ 84 ∷ 89 ∷ []) 0
    then record k { tty_pid = pid }
    else if named name (77 ∷ 77 ∷ []) 0
    then record k { mm_pid = pid }
    else k

-- `task_table[i].pid = ...`
abbrev store_pid : (i : ℕ) → ℤ × Kernel → Kernel
store_pid i (pid, k) = set_task i (record (k.task_table i) { pid = pid }) k

-- The block under "task_table[i].pid != -1". What a number below -1 would write lies in front of the table of
-- processes, which is not part of the state.
unfoldable pub adopt_as : (i : ℕ) → (pid : ℤ) → Kernel → Kernel
unfolding ended
adopt_as i (negsuc zero) k = k
adopt_as i (negsuc (suc n)) k =
    set_task i (record (k.task_table i) { status = task_running; tid = i }) k
adopt_as i (pos p) k =
    let task = record (k.task_table i) { status = task_running; tid = i } in
    let proc = record (k.procs p) {
      name = strcpy (k.procs p).name task.name;
      tid = pos i;
      level = task.level;
    } in
    record k { task_table = update k.task_table i task; procs = update k.procs p proc }

unfoldable pub adopt : (i : ℕ) → Kernel → Kernel
unfolding adopt_as
adopt i k = adopt_as i (k.task_table i).pid k

module _ (l : Layout) where
  -- The process of a waiting task. A task of the kernel's level other than "INIT" gets none.
  pub start_task : (i : ℕ) → Kernel → Kernel
  unfolding named
  start_task i k =
      let task = k.task_table i in
      if named task.name (73 ∷ 78 ∷ 73 ∷ 84 ∷ []) 0
      then store_pid i (new_init_proc l task.entry k)
      else elim task.level [
        | kernel_proc ↦ k
        | sys_proc ↦
            note_pid task.name (new_task_proc l task.entry k).0
              (store_pid i (new_task_proc l task.entry k))
        | user_proc ↦ store_pid i (new_user_proc l task.entry k)
      ]

  pub scan_step : (i : ℕ) → Kernel → Kernel
  unfolding start_task
  scan_step i k = if is_waiting (k.task_table i).status then adopt i (start_task i k) else k

  pub task_loop : ℕ → (i : ℕ) → Kernel → Kernel
  unfolding scan_step
  task_loop zero i k = k
  task_loop (suc n) i k = task_loop n (suc i) (scan_step i k)

  unfoldable pub task_line_schedule : Kernel → Kernel
  unfolding task_loop
  task_line_schedule k = task_loop k.task_size 0 k

-- A new task gets the next number; it is waiting, without a process, under the given level and entry, and
-- the tasks before it stay.
pub add_new_task_lem :
    (level : ProcLevel) (entry : ℕ) (name : ℕ → ℕ) (k : Kernel)
    → ((add_new_task level entry name k).0 ≡ k.task_size)
      × ((add_new_task level entry name k).1.task_size ≡ k.task_size + 1)
      × (((add_new_task level entry name k).1.task_table k.task_size).status ≡ task_waiting)
      × (((add_new_task level entry name k).1.task_table k.task_size).pid ≡ negsuc 0)
      × (((add_new_task level entry name k).1.task_table k.task_size).entry ≡ entry)
      × ((i : ℕ)
          → i < k.task_size
          → (add_new_task level entry name k).1.task_table i ≡ k.task_table i)
unfolding add_new_task
add_new_task_lem level entry name k =
    let new =
      update_self k.task_table k.task_size
        (waiting_task level entry name k.task_size (k.task_table k.task_size)) in
    (
      refl,
      refl,
      ap (λ t. t.status) new,
      ap (λ t. t.pid) new,
      ap (λ t. t.entry) new,
      λ i below. ground arith,
    )

-- One step of the scan leaves the other tasks and the size.
abbrev OnlyTask : ℕ → Kernel → Kernel → Type 0
OnlyTask i k k' =
    ((j : ℕ) → j ≢ i → k'.task_table j ≡ k.task_table j) × (k'.task_size ≡ k.task_size)

pub if_both :
    (P : Kernel → Type 0) (b : Bool) {k k' : Kernel} → P k → P k' → P (if b then k else k')
if_both P true p q = p
if_both P false p q = q

pub note_pid-tasks :
    (name : ℕ → ℕ) (pid : ℤ) (k : Kernel)
    → ((note_pid name pid k).task_table ≡ k.task_table)
      × ((note_pid name pid k).task_size ≡ k.task_size)
unfolding note_pid
note_pid-tasks name pid k =
    if_both KeepsBoth (named name (72 ∷ 68 ∷ []) 0) (refl, refl)
      (if_both KeepsBoth (named name (70 ∷ 83 ∷ []) 0) (refl, refl)
        (if_both KeepsBoth (named name (84 ∷ 84 ∷ 89 ∷ []) 0) (refl, refl)
          (if_both KeepsBoth (named name (77 ∷ 77 ∷ []) 0) (refl, refl) (refl, refl))))
  where
    KeepsBoth : Kernel → Type 0
    KeepsBoth k' = (k'.task_table ≡ k.task_table) × (k'.task_size ≡ k.task_size)

adopt_as-OnlyTask : (i : ℕ) (pid : ℤ) (k : Kernel) → OnlyTask i k (adopt_as i pid k)
unfolding adopt_as
adopt_as-OnlyTask i (pos p) k = (λ j ne. update_ne k.task_table i j _ ne, refl)
adopt_as-OnlyTask i (negsuc zero) k = (λ j ne. refl, refl)
adopt_as-OnlyTask i (negsuc (suc n)) k = (λ j ne. update_ne k.task_table i j _ ne, refl)

store_pid-OnlyTask :
    (i : ℕ) (k : Kernel) (made : ℤ × Kernel)
    → (made.1.task_table ≡ k.task_table) × (made.1.task_size ≡ k.task_size)
    → OnlyTask i k (store_pid i made)
store_pid-OnlyTask i k (pid, k') (table, size) = (
  λ j ne.
      update_ne k'.task_table i j (record (k'.task_table i) { pid = pid }) ne ∙ ap (λ t. t j) table,
  size,
)

module _ (l : Layout) where
  start_task-OnlyTask : (i : ℕ) (k : Kernel) → OnlyTask i k (start_task l i k)
  unfolding start_task
  start_task-OnlyTask i k =
      if_both (OnlyTask i k) (named (k.task_table i).name (73 ∷ 78 ∷ 73 ∷ 84 ∷ []) 0)
        (store_pid-OnlyTask i k (new_init_proc l (k.task_table i).entry k)
          (new_init_proc-KeepsTasks l (k.task_table i).entry k))
        (by_level (k.task_table i).level)
    where
      made : ℤ × Kernel
      made = new_task_proc l (k.task_table i).entry k

      by_level :
          (level : ProcLevel)
          → OnlyTask i k (elim level [
            | kernel_proc ↦ k
            | sys_proc ↦ note_pid (k.task_table i).name made.0 (store_pid i made)
            | user_proc ↦ store_pid i (new_user_proc l (k.task_table i).entry k)
          ])
      by_level kernel_proc = (λ j ne. refl, refl)
      by_level sys_proc =
          let (others, size) =
            store_pid-OnlyTask i k (new_task_proc l (k.task_table i).entry k)
              (new_task_proc-KeepsTasks l (k.task_table i).entry k) in
          let (table, same) = note_pid-tasks (k.task_table i).name made.0 (store_pid i made) in
          (λ j ne. ap (λ t. t j) table ∙ others j ne, same ∙ size)
      by_level user_proc =
          store_pid-OnlyTask i k (new_user_proc l (k.task_table i).entry k)
            (new_user_proc-KeepsTasks l (k.task_table i).entry k)

  pub scan_step-OnlyTask : (i : ℕ) (k : Kernel) → OnlyTask i k (scan_step l i k)
  unfolding scan_step adopt
  scan_step-OnlyTask i k =
      if_both (OnlyTask i k) (is_waiting (k.task_table i).status)
        (λ j ne. then_others j ne ∙ first_others j ne, then_size ∙ first_size) (λ j ne. refl, refl)
    where
      started : Kernel
      started = start_task l i k

      then_others : (j : ℕ) → j ≢ i → (adopt i started).task_table j ≡ started.task_table j
      then_others = (adopt_as-OnlyTask i (started.task_table i).pid started).0

      then_size : (adopt i started).task_size ≡ started.task_size
      then_size = (adopt_as-OnlyTask i (started.task_table i).pid started).1

      first_others : (j : ℕ) → j ≢ i → started.task_table j ≡ k.task_table j
      first_others = (start_task-OnlyTask i k).0

      first_size : started.task_size ≡ k.task_size
      first_size = (start_task-OnlyTask i k).1

  pub task_loop-before :
      (n i j : ℕ) (k : Kernel) → j < i → (task_loop l n i k).task_table j ≡ k.task_table j
  unfolding task_loop
  task_loop-before zero i j k below = refl
  task_loop-before (suc n) i j k below =
      task_loop-before n (suc i) j (scan_step l i k) (omega arith)
      ∙ (scan_step-OnlyTask i k).0 j (omega arith)
