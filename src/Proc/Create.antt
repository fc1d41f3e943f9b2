-- ===== src/Proc/Create.antt =====
-- The creation of processes: `new_init_proc`, `new_task_proc` and `new_user_proc` of proc/proc.c.
use krven_os.Common.{
  ℕ, ◌+◌, ◌-◌, ◌*◌, ◌/◌, ◌%◌, ◌^◌, ◌<◌, ◌≡◌, ◌≢◌, bit_or, update, update_self, arith, refl, none,
}
use krven_os.Common.Int.{ℤ, pos, negsuc}
use krven_os.Descriptor.{
  set_descriptor, new_ldt_descriptor, type_rc, type_rw, dpl_1, dpl_3, db_32, g_4096, debug_base,
  debug_dpl, gdt_length,
}
use krven_os.Descriptor.RoundTrip.{new_ldt_descriptor_lem}
use krven_os.Proc.{Kernel, zero_proc, zero_regs, proc_max_num, get_empty_proc_block}
use krven_os.Proc.Empty.{FirstFree, get_empty_proc_block_lem}

-- The addresses that the linker gives to `proc_stack` and to the `ldts` of each process.
pub record Layout : Type 0 where
  pub proc_stack : ℕ
  pub ldts : ℕ → ℕ
  pub ldts_lt : (i : ℕ) → ldts i < 2 ^ 32

abbrev pub proc_stack_size : ℕ
proc_stack_size = 8192

-- `USER_CS_INDEX`, `USER_DA_INDEX`, `KERNEL_VIDEO_INDEX`, `TI_1`
abbrev user_cs_index : ℕ
user_cs_index = 0x00

abbrev user_da_index : ℕ
user_da_index = 0x08

abbrev kernel_video_index : ℕ
kernel_video_index = 0x18

abbrev ti_1 : ℕ
ti_1 = 0x04

-- The selector of the two local segments at a privilege level.
abbrev local_selector : ℕ → ℕ → ℕ
local_selector index rpl = bit_or (bit_or index ti_1) rpl

-- Creation from an entry point: a block that was free is taken up for it and no other changes, or there was no
-- free block and nothing changes.
abbrev pub Made : (fun : ℕ) → Kernel → ℤ × Kernel → Type 0
Made fun k (pos p, k') =
    (p < proc_max_num)
    × ((k.procs p).take_up ≡ 0)
    × ((k'.procs p).take_up ≡ 1)
    × ((k'.procs p).regs.eip ≡ fun)
    × ((j : ℕ) → j ≢ p → k'.procs j ≡ k.procs j)
Made fun k (negsuc n, k') =
    (n ≡ 0) × ((j : ℕ) → j < proc_max_num → (k.procs j).take_up ≢ 0) × (k' ≡ k)

module _ (l : Layout) where
  -- The three functions differ in the privilege level and in the flags register alone.
  fill_block : ℕ → ℕ → ℕ → ℕ → ℕ → Kernel → ℤ × Kernel
  fill_block dpl rpl eflags fun idx k =
      let (sel, gdt') = new_ldt_descriptor (l.ldts idx) (2 * 8 - 1) k.gdt in
      let block = record zero_proc {
        take_up = 1;
        code_ldt = set_descriptor 0 0xFFFFFFFF (bit_or type_rc dpl) (bit_or db_32 g_4096);
        data_ldt = set_descriptor 0 0xFFFFFFFF (bit_or type_rw dpl) (bit_or db_32 g_4096);
        ldtr = sel;
        regs = record zero_regs {
          cs = local_selector user_cs_index rpl;
          ds = local_selector user_da_index rpl;
          es = local_selector user_da_index rpl;
          fs = local_selector user_da_index rpl;
          ss = local_selector user_da_index rpl;
          gs = bit_or kernel_video_index rpl;
          eip = fun;
          esp = (l.proc_stack + idx * proc_stack_size + proc_stack_size - 1) % 2 ^ 32;
          eflags = eflags;
        };
        pid = pos idx;
        priority = 1;
        waiting = 0;
      } in
      (pos idx, record k { procs = update k.procs idx block; gdt = gdt' })

  new_proc : ℕ → ℕ → ℕ → ℕ → Kernel → ℤ × Kernel
  unfolding fill_block
  new_proc dpl rpl eflags fun k = elim (get_empty_proc_block k.procs) [
    | pos idx ↦ fill_block dpl rpl eflags fun idx k
    | negsuc _ ↦ (negsuc 0, k)
  ]

  unfoldable pub new_init_proc : ℕ → Kernel → ℤ × Kernel
  unfolding new_proc
  new_init_proc fun k = new_proc dpl_3 3 0x202 fun k

  unfoldable pub new_task_proc : ℕ → Kernel → ℤ × Kernel
  unfolding new_proc
  new_task_proc fun k = new_proc dpl_1 1 0x1202 fun k

  unfoldable pub new_user_proc : ℕ → Kernel → ℤ × Kernel
  unfolding new_proc
  new_user_proc fun k = new_proc dpl_3 3 0x202 fun k

  -- Creation leaves the task table and its size.
  abbrev pub KeepsTasks : Kernel → ℤ × Kernel → Type 0
  KeepsTasks k (pid, k') = (k'.task_table ≡ k.task_table) × (k'.task_size ≡ k.task_size)

  new_proc-KeepsTasks :
      (dpl ring flags fun : ℕ) (k : Kernel) → KeepsTasks k (new_proc dpl ring flags fun k)
  unfolding new_proc fill_block
  new_proc-KeepsTasks dpl ring flags fun k = by_search (get_empty_proc_block k.procs)
    where
      by_search :
          (r : ℤ)
          → KeepsTasks k
              (elim r [ pos idx ↦ fill_block dpl ring flags fun idx k | negsuc _ ↦ (negsuc 0, k) ])
      by_search (pos i) = (refl, refl)
      by_search (negsuc n) = (refl, refl)

  pub new_init_proc-KeepsTasks : (fun : ℕ) (k : Kernel) → KeepsTasks k (new_init_proc fun k)
  unfolding new_init_proc
  new_init_proc-KeepsTasks fun k = new_proc-KeepsTasks dpl_3 3 0x202 fun k

  pub new_task_proc-KeepsTasks : (fun : ℕ) (k : Kernel) → KeepsTasks k (new_task_proc fun k)
  unfolding new_task_proc
  new_task_proc-KeepsTasks fun k = new_proc-KeepsTasks dpl_1 1 0x1202 fun k

  pub new_user_proc-KeepsTasks : (fun : ℕ) (k : Kernel) → KeepsTasks k (new_user_proc fun k)
  unfolding new_user_proc
  new_user_proc-KeepsTasks fun k = new_proc-KeepsTasks dpl_3 3 0x202 fun k

  -- What creation at a ring leaves: a block that was free and is set up, and no other one changed;
  -- or, where there was no free block, the state as it was.
  abbrev pub Created : ℕ → ℕ → Kernel → ℤ × Kernel → Type 0
  Created ring fun k (pos i, k') =
      FirstFree k.procs 0 proc_max_num (pos i)
      × ((k'.procs i).take_up ≡ 1)
      × ((k'.procs i).pid ≡ pos i)
      × ((k'.procs i).regs.eip ≡ fun)
      × ((k'.procs i).regs.cs % 4 ≡ ring)
      × ((k'.procs i).regs.ss % 4 ≡ ring)
      × (debug_dpl (k'.procs i).code_ldt ≡ ring)
      × ((k'.procs i).msg_block ≡ 0)
      × ((k'.procs i).msg_head ≡ none)
      × (debug_base (k'.gdt.gdt_descriptors ((k'.procs i).ldtr / 2 ^ 3)) ≡ l.ldts i)
      × ((j : ℕ) → j ≢ i → k'.procs j ≡ k.procs j)
  Created ring fun k (negsuc n, k') = FirstFree k.procs 0 proc_max_num (negsuc n) × (k' ≡ k)

  filled :
      (i fun dpl ring flags : ℕ) (k : Kernel)
      → FirstFree k.procs 0 proc_max_num (pos i)
      → local_selector user_cs_index ring % 4 ≡ ring
      → local_selector user_da_index ring % 4 ≡ ring
      → debug_dpl (set_descriptor 0 0xFFFFFFFF (bit_or type_rc dpl) (bit_or db_32 g_4096)) ≡ ring
      → k.gdt.gdt_idx < gdt_length
      → Created ring fun k (fill_block dpl ring flags fun i k)
  unfolding fill_block
  filled i fun dpl ring flags k free cs ss d room =
      let made = new_ldt_descriptor_lem (l.ldts i) (2 * 8 - 1) k.gdt (l.ldts_lt i) room in
      (
        free,
        ground arith,
        ground arith,
        ground arith,
        ground arith,
        ground arith,
        rw (update_self k.procs i) d,
        ground arith,
        ground arith,
        rw (update_self k.procs i) made.0,
        λ j ne. ground arith,
      )

  -- Creation at a ring from the outcome of the search.
  new_proc-Created :
      (fun dpl ring flags : ℕ) (k : Kernel)
      → local_selector user_cs_index ring % 4 ≡ ring
      → local_selector user_da_index ring % 4 ≡ ring
      → debug_dpl (set_descriptor 0 0xFFFFFFFF (bit_or type_rc dpl) (bit_or db_32 g_4096)) ≡ ring
      → k.gdt.gdt_idx < gdt_length
      → Created ring fun k (new_proc dpl ring flags fun k)
  unfolding new_proc
  new_proc-Created fun dpl ring flags k cs ss d room =
      by_search (get_empty_proc_block k.procs) (get_empty_proc_block_lem k.procs)
    where
      by_search :
          (r : ℤ)
          → FirstFree k.procs 0 proc_max_num r
          → Created ring fun k
              (elim r [ pos idx ↦ fill_block dpl ring flags fun idx k | negsuc _ ↦ (negsuc 0, k) ])
      by_search (pos i) free = filled i fun dpl ring flags k free cs ss d room
      by_search (negsuc n) (e, full) = ((refl, full), refl)

  -- A task process is set up at ring 1: it is given the lowest free block, a local table that its
  -- selector leads to, ring 1 code and stack selectors, and no message state. No other block changes.
  -- Where all blocks are taken, -1 is returned and nothing changes. The global table must have room.
  pub new_task_proc_lem :
      (fun : ℕ) (k : Kernel) → k.gdt.gdt_idx < gdt_length → Created 1 fun k (new_task_proc fun k)
  unfolding new_task_proc set_descriptor debug_dpl
  new_task_proc_lem fun k room = new_proc-Created fun dpl_1 1 0x1202 k refl refl refl room

  -- A user process is set up in the same way at ring 3.
  pub new_user_proc_lem :
      (fun : ℕ) (k : Kernel) → k.gdt.gdt_idx < gdt_length → Created 3 fun k (new_user_proc fun k)
  unfolding new_user_proc set_descriptor debug_dpl
  new_user_proc_lem fun k room = new_proc-Created fun dpl_3 3 0x202 k refl refl refl room

  new_proc-Made : (dpl ring flags fun : ℕ) (k : Kernel) → Made fun k (new_proc dpl ring flags fun k)
  unfolding new_proc fill_block
  new_proc-Made dpl ring flags fun k =
      by_search (get_empty_proc_block k.procs) (get_empty_proc_block_lem k.procs)
    where
      by_search :
          (r : ℤ)
          → FirstFree k.procs 0 proc_max_num r
          → Made fun k
              (elim r [ pos idx ↦ fill_block dpl ring flags fun idx k | negsuc _ ↦ (negsuc 0, k) ])
      by_search (pos p) (lo, hi, free, all) =
          (hi, free, ground arith, ground arith, λ j ne. ground arith)
      by_search (negsuc n) (e, full) = (refl, λ j h. full j (omega arith) h, refl)

  pub new_init_proc-Made : (fun : ℕ) (k : Kernel) → Made fun k (new_init_proc fun k)
  unfolding new_init_proc
  new_init_proc-Made fun k = new_proc-Made dpl_3 3 0x202 fun k

  pub new_task_proc-Made : (fun : ℕ) (k : Kernel) → Made fun k (new_task_proc fun k)
  unfolding new_task_proc
  new_task_proc-Made fun k = new_proc-Made dpl_1 1 0x1202 fun k

  pub new_user_proc-Made : (fun : ℕ) (k : Kernel) → Made fun k (new_user_proc fun k)
  unfolding new_user_proc
  new_user_proc-Made fun k = new_proc-Made dpl_3 3 0x202 fun k
