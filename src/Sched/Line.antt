-- ===== src/Sched/Line.antt =====
-- The line scheduler of proc/sched.c, by distances round the table.
use krven_os.Common.{
  ℕ, zero, suc, ◌+◌, ◌-◌, ◌%◌, ◌≤◌, ◌<◌, ◌≡◌, ◌≢◌, ◌⊎◌, refl, true, false, Option, none, some,
  arith, ◌==◌, if◌then◌else◌, sym, ap, ◌∙◌, Bool-cases, inl, inr,
}
use krven_os.Proc.{Kernel, proc_running, proc_block, proc_max_num}
use krven_os.Sched.{runnable, advance, set_status, line_loop, proc_line_schedule}

-- How many steps lead round the table from `i` to `j`.
abbrev pub distance : ℕ → ℕ → ℕ
distance i j = (j + proc_max_num - i) % proc_max_num

-- What a schedule leaves, if the process `j` can run: a current process that can run and is marked as
-- running, found no later than `j` from where the pointer was, with the pointer behind it, and
-- everybody's block flag and use of a block as before.
abbrev pub Scheduled : ℕ → Kernel → Option Kernel → Type 0
Scheduled j k none = ⊥
Scheduled j k (some k') =
    (k'.current_proc < proc_max_num)
    × (runnable (k.procs k'.current_proc) ≡ true)
    × ((k'.procs k'.current_proc).status ≡ proc_running)
    × (distance k.proc_ptr k'.current_proc ≤ distance k.proc_ptr j)
    × (k'.proc_ptr ≡ (k'.current_proc + 1) % proc_max_num)
    × ((p : ℕ) → runnable (k'.procs p) ≡ runnable (k.procs p))

-- A round that passes over the process at the pointer.
passed-Scheduled :
    (j : ℕ) (k k₁ : Kernel) (r : Option Kernel)
    → k.proc_ptr < proc_max_num
    → j < proc_max_num
    → runnable (k.procs j) ≡ true
    → runnable (k.procs k.proc_ptr) ≡ false
    → k₁.proc_ptr ≡ (k.proc_ptr + 1) % proc_max_num
    → ((p : ℕ) → runnable (k₁.procs p) ≡ runnable (k.procs p))
    → Scheduled j k₁ r
    → Scheduled j k r
passed-Scheduled j k k₁ none hi hj can cannot ptr same s = s
passed-Scheduled j k k₁ (some k') hi hj can cannot ptr same (lt, run, status, near, next, kept) =
    let run' : runnable (k.procs k'.current_proc) ≡ true = sym (same k'.current_proc) ∙ run in
    let apart : j ≢ k.proc_ptr = λ e. differ k can cannot e in
    let apart' : k'.current_proc ≢ k.proc_ptr = λ e. differ k run' cannot e in
    (lt, run', status, omega arith, next, λ p. kept p ∙ same p)
  where
    differ :
        {a : ℕ} (k : Kernel)
        → runnable (k.procs a) ≡ true
        → runnable (k.procs k.proc_ptr) ≡ false
        → a ≡ k.proc_ptr
        → ⊥
    differ {a} k yes_a no_b e = cc (ap (λ (i : ℕ). runnable (k.procs i)) e)

-- What one round changes for `runnable`.
abbrev passed : Kernel → Kernel
passed k =
    if (k.procs k.proc_ptr).msg_block == 1
    then set_status k.proc_ptr proc_block (advance k)
    else advance k

passed_ptr : (k : Kernel) → (passed k).proc_ptr ≡ (k.proc_ptr + 1) % proc_max_num
passed_ptr k = ground arith

passed-runnable : (k : Kernel) (p : ℕ) → runnable ((passed k).procs p) ≡ runnable (k.procs p)
passed-runnable k p = elim (Bool-cases ((k.procs k.proc_ptr).msg_block == 1)) [
  | inl b ↦ rw b (ground arith)
  | inr u ↦ rw u
]

chosen-Scheduled :
    (j : ℕ) (k : Kernel)
    → k.proc_ptr < proc_max_num
    → runnable (k.procs k.proc_ptr) ≡ true
    → Scheduled j k (some (set_status k.proc_ptr proc_running (advance k)))
chosen-Scheduled j k hi run = (hi, run, ground arith, omega arith, refl, λ p. ground arith)

line_loop-Scheduled :
    (n j : ℕ) (k : Kernel)
    → k.proc_ptr < proc_max_num
    → j < proc_max_num
    → runnable (k.procs j) ≡ true
    → distance k.proc_ptr j < n
    → Scheduled j k (line_loop n k)
unfolding line_loop
line_loop-Scheduled zero j k hi hj run h = absurd (omega arith)
line_loop-Scheduled (suc n) j k hi hj run h = elim (Bool-cases (runnable (k.procs k.proc_ptr))) [
  | inl here ↦ rw here (chosen-Scheduled j k hi here)
  | inr not_here ↦
      let apart : j ≢ k.proc_ptr = λ e. cc (ap (λ (i : ℕ). runnable (k.procs i)) e) in
      rw not_here (
        passed-Scheduled j k (passed k) (line_loop n (passed k)) hi hj run not_here (passed_ptr k)
          (passed-runnable k)
          (line_loop-Scheduled n j (passed k) (omega (arith, passed_ptr k)) hj
            (passed-runnable k j ∙ run) (omega (arith, passed_ptr k))))
]

-- If a process of the table can run, the line scheduler ends within one round of the table, at a
-- process that can run, and at the latest at that one.
pub proc_line_schedule_lem :
    (j : ℕ) (k : Kernel)
    → k.proc_ptr < proc_max_num
    → j < proc_max_num
    → runnable (k.procs j) ≡ true
    → Scheduled j k (proc_line_schedule k)
unfolding proc_line_schedule
proc_line_schedule_lem j k hi hj run = line_loop-Scheduled proc_max_num j k hi hj run (omega arith)

-- Round robin: a process that can run, and that a schedule does not choose, is nearer to the pointer
-- afterwards than before, so it is chosen after at most ten schedules.
abbrev pub Nearer : ℕ → Kernel → Option Kernel → Type 0
Nearer j k none = ⊥
Nearer j k (some k') = (k'.current_proc ≡ j) ⊎ (distance k'.proc_ptr j < distance k.proc_ptr j)

Scheduled-Nearer :
    (j : ℕ) (k : Kernel) (r : Option Kernel)
    → k.proc_ptr < proc_max_num
    → j < proc_max_num
    → Scheduled j k r
    → Nearer j k r
Scheduled-Nearer j k none hi hj s = s
Scheduled-Nearer j k (some k') hi hj (lt, run, status, near, next, kept) = grind arith

-- No process that can run is passed over for ever: a schedule chooses it, or leaves the pointer with
-- fewer steps to go to it round the table.
pub proc_line_schedule-Nearer :
    (j : ℕ) (k : Kernel)
    → k.proc_ptr < proc_max_num
    → j < proc_max_num
    → runnable (k.procs j) ≡ true
    → Nearer j k (proc_line_schedule k)
proc_line_schedule-Nearer j k hi hj run =
    Scheduled-Nearer j k (proc_line_schedule k) hi hj (proc_line_schedule_lem j k hi hj run)

-- With no process of the table able to run the loop never ends: no number of rounds is enough.
pub line_loop-spins :
    (n : ℕ) (k : Kernel)
    → k.proc_ptr < proc_max_num
    → ((p : ℕ) → p < proc_max_num → runnable (k.procs p) ≡ false)
    → line_loop n k ≡ none
unfolding line_loop
line_loop-spins zero k hi idle = refl
line_loop-spins (suc n) k hi idle = rw (idle k.proc_ptr hi) (
    line_loop-spins n (passed k) (omega (arith, passed_ptr k))
      (λ p h. passed-runnable k p ∙ idle p h))
