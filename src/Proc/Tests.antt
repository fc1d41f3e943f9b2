-- ===== src/Proc/Tests.antt =====
-- The theorems on the process table at one input.
use krven_os.Common.{ℕ, ◌≡◌, refl, arith, ltb, if◌then◌else◌}
use krven_os.Common.Int.{pos}
use krven_os.Proc.{Proc, zero_proc, zero_kernel, get_empty_proc_block}
use krven_os.Proc.Create.{Layout, Created, new_task_proc, new_task_proc_lem}

abbrev two_taken : ℕ → Proc
two_taken = λ i. record zero_proc { take_up = if ltb i 2 then 1 else 0 }

abbrev layout : Layout
layout = record { proc_stack = 0xC0200000; ldts = λ _. 0xC0300000; ldts_lt = λ _. omega arith }

third_block : get_empty_proc_block two_taken ≡ pos 2
unfolding get_empty_proc_block
third_block = refl

new_task_proc_example :
    Created layout 1 0x1000 zero_kernel (new_task_proc layout 0x1000 zero_kernel)
new_task_proc_example = new_task_proc_lem layout 0x1000 zero_kernel (omega arith)
