-- ===== src/Proc.antt =====
-- The process table and the kernel's state: include/proc.h, include/msg.h, include/task.h,
-- proc/proc.c, proc/task.c. A `proc_t *` is an index into `procs`, NULL is `none`; a `msg_t *` is an
-- address in `msgs`. The four task pids are the globals of driver/hd.c, fs/fs.c, tty/tty.c, mm/mm.c.
pub mod Create
pub mod Empty
mod Tests
use krven_os.Common.{
  ℕ, zero, suc, ◌+◌, ◌-◌, ◌*◌, ◌%◌, ◌^◌, bit_and, bit_or, update, Option, none, some, ◌==◌,
  if◌then◌else◌,
}
use krven_os.Common.Int.{ℤ, pos, negsuc, ◌==ℤ◌}
use krven_os.Descriptor.{SegDescriptor, zero_descriptor, Gdt}

-- `msg_t`
pub record Msg : Type 0 where
  pub type : ℤ
  pub device : ℤ
  pub debug : ℤ
  pub inode : ℤ
  pub mode : ℤ
  pub pid : ℤ
  pub buf : ℕ
  pub cnt : ℤ
  pub pos : ℕ

-- `proc_regs_t`
pub record ProcRegs : Type 0 where
  pub gs : ℕ
  pub fs : ℕ
  pub es : ℕ
  pub ds : ℕ
  pub edi : ℕ
  pub esi : ℕ
  pub ebp : ℕ
  pub kernel_esp : ℕ
  pub ebx : ℕ
  pub edx : ℕ
  pub ecx : ℕ
  pub eax : ℕ
  pub retaddr : ℕ
  pub int_no : ℕ
  pub err_code : ℕ
  pub eip : ℕ
  pub cs : ℕ
  pub eflags : ℕ
  pub esp : ℕ
  pub ss : ℕ

-- `proc_level`, which has the values of `task_level`
pub data ProcLevel : Type 0 where
  kernel_proc sys_proc user_proc : ProcLevel

-- `proc_status`
pub data ProcStatus : Type 0 where
  proc_exit proc_running proc_block : ProcStatus

-- `int_status`: `NO_INT`, `HAS_INT`, `WAIT_INT`
pub data IntStatus : Type 0 where
  no_int has_int wait_int : IntStatus

-- `proc_t`. A `char` array is a function of the index.
pub record Proc : Type 0 where
  pub regs : ProcRegs
  pub ldtr : ℕ
  pub code_ldt : SegDescriptor
  pub data_ldt : SegDescriptor
  pub pid : ℤ
  pub tid : ℤ
  pub name : ℕ → ℕ
  pub msg : ℕ
  pub int_status : IntStatus
  pub interrupt_id : ℕ
  pub send_to : ℤ
  pub recv_from : ℤ
  pub msg_block : ℕ
  pub msg_head : Option ℕ
  pub msg_next : Option ℕ
  pub take_up : ℕ
  pub level : ProcLevel
  pub status : ProcStatus
  pub priority : ℕ
  pub waiting : ℕ

-- `task_status`
pub data TaskStatus : Type 0 where
  task_stop task_running task_waiting : TaskStatus

-- `task_t`
pub record Task : Type 0 where
  pub pid : ℤ
  pub tid : ℕ
  pub status : TaskStatus
  pub level : ProcLevel
  pub entry : ℕ
  pub name : ℕ → ℕ

pub record Kernel : Type 0 where
  pub procs : ℕ → Proc
  pub gdt : Gdt
  pub msgs : ℕ → Msg
  -- how often the message code has printed "Error!"
  pub errors : ℕ
  pub proc_count : ℕ
  pub current_proc : ℕ
  pub proc_ptr : ℕ
  pub task_table : ℕ → Task
  pub task_size : ℕ
  pub hd_pid : ℤ
  pub fs_pid : ℤ
  pub tty_pid : ℤ
  pub mm_pid : ℤ

abbrev pub proc_max_num : ℕ
proc_max_num = 10

-- `ANY` and `PROC_TABLE_FULL`
abbrev pub any : ℤ
any = negsuc 0

abbrev pub proc_table_full : ℤ
proc_table_full = negsuc 0

-- The memory of a zeroed `proc_t`.
abbrev pub zero_regs : ProcRegs
zero_regs = record {
  gs = 0;
  fs = 0;
  es = 0;
  ds = 0;
  edi = 0;
  esi = 0;
  ebp = 0;
  kernel_esp = 0;
  ebx = 0;
  edx = 0;
  ecx = 0;
  eax = 0;
  retaddr = 0;
  int_no = 0;
  err_code = 0;
  eip = 0;
  cs = 0;
  eflags = 0;
  esp = 0;
  ss = 0;
}

abbrev pub zero_proc : Proc
zero_proc = record {
  regs = zero_regs;
  ldtr = 0;
  code_ldt = zero_descriptor;
  data_ldt = zero_descriptor;
  pid = pos 0;
  tid = pos 0;
  name = λ _. 0;
  msg = 0;
  int_status = no_int;
  interrupt_id = 0;
  send_to = pos 0;
  recv_from = pos 0;
  msg_block = 0;
  msg_head = none;
  msg_next = none;
  take_up = 0;
  level = kernel_proc;
  status = proc_exit;
  priority = 0;
  waiting = 0;
}

-- `init_proc_table`: the loop marks the `n` blocks from `i` on as free.
init_loop : ℕ → ℕ → (ℕ → Proc) → ℕ → Proc
init_loop zero i procs = procs
init_loop (suc n) i procs = init_loop n (suc i) (update procs i (record (procs i) { take_up = 0 }))

unfoldable pub init_proc_table : Kernel → Kernel
unfolding init_loop
init_proc_table k = record k { procs = init_loop proc_max_num 0 k.procs; proc_count = 0 }

-- `get_empty_proc_block`: the loop over the `n` blocks from `i` on.
unfoldable pub empty_loop : ℕ → ℕ → (ℕ → Proc) → ℤ
empty_loop zero i procs = negsuc 0
empty_loop (suc n) i procs =
    let rest = empty_loop n (suc i) procs in if (procs i).take_up == 0 then pos i else rest

unfoldable pub get_empty_proc_block : (ℕ → Proc) → ℤ
unfolding empty_loop
get_empty_proc_block procs = empty_loop proc_max_num 0 procs

-- The kernel's memory at boot, all zero.
abbrev zero_msg : Msg
zero_msg = record {
  type = pos 0;
  device = pos 0;
  debug = pos 0;
  inode = pos 0;
  mode = pos 0;
  pid = pos 0;
  buf = 0;
  cnt = pos 0;
  pos = 0;
}

abbrev zero_task : Task
zero_task = record {
  pid = pos 0;
  tid = 0;
  status = task_stop;
  level = kernel_proc;
  entry = 0;
  name = λ _. 0;
}

abbrev pub zero_kernel : Kernel
zero_kernel = record {
  procs = λ _. zero_proc;
  gdt = record { gdt_descriptors = λ _. zero_descriptor; gdt_idx = 0 };
  msgs = λ _. zero_msg;
  errors = 0;
  proc_count = 0;
  current_proc = 0;
  proc_ptr = 0;
  task_table = λ _. zero_task;
  task_size = 0;
  hd_pid = pos 0;
  fs_pid = pos 0;
  tty_pid = pos 0;
  mm_pid = pos 0;
}

-- A kernel with ten processes that can run.
abbrev pub live_kernel : Kernel
live_kernel = record zero_kernel { procs = λ i. record zero_proc { pid = pos i; take_up = 1 } }
