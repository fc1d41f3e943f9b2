-- ===== src/Msg.antt =====
-- Messages and awaited interrupts between processes: msg/msg.c.
-- The queue of a process is a list linked through `msg_next` of the senders. A walk of it has one
-- round more than there are processes; `none` is a walk that has not ended by then, or a use of `tmp2`
-- before it is set.
pub mod Chain
pub mod Insert
pub mod Interrupt
pub mod Receive
pub mod Send
pub mod Overwritten
mod Tests
use krven_os.Common.{
  ℕ, zero, suc, ◌+◌, update, Bool, true, false, not, ◌&&◌, ◌||◌, Option, none, some, ◌==◌,
  if◌then◌else◌,
}
use krven_os.Common.Int.{ℤ, pos, negsuc, ◌==ℤ◌}
use krven_os.Proc.{Msg, Proc, Kernel, IntStatus, no_int, has_int, wait_int, proc_max_num, any}

abbrev pub rounds : ℕ
rounds = 11

-- `procs[i] = p`
abbrev pub set_proc : ℕ → Proc → Kernel → Kernel
set_proc i p k = record k { procs = update k.procs i p }

-- `msg_copy`
unfoldable pub msg_copy : (to from : ℕ) → Kernel → Kernel
msg_copy to from k = record k { msgs = update k.msgs to (k.msgs from) }

-- `msg_send_interrupt`
unfoldable pub msg_send_interrupt : (pid interrupt_id : ℕ) → Kernel → Kernel
msg_send_interrupt pid interrupt_id k =
    let p = k.procs pid in
    elim p.int_status [
      | no_int ↦ set_proc pid (record p { int_status = has_int; interrupt_id = interrupt_id }) k
      | has_int ↦ k
      | wait_int ↦
          if interrupt_id == p.interrupt_id
          then set_proc pid (record p { int_status = no_int; msg_block = 0 }) k
          else k
    ]

-- `msg_recv_interrupt`
unfoldable pub msg_recv_interrupt : (pid interrupt_id : ℕ) → Kernel → Kernel
msg_recv_interrupt pid interrupt_id k =
    let p = k.procs pid in
    elim p.int_status [
      | no_int ↦
          set_proc pid
            (record p { int_status = wait_int; interrupt_id = interrupt_id; msg_block = 1 }) k
      | has_int ↦
          if p.interrupt_id == interrupt_id
          then set_proc pid (record p { int_status = no_int }) k
          else k
      | wait_int ↦ record k { errors = k.errors + 1 }
    ]

-- The walk of `insert_msg_queue` to the last sender, which is the value of `tmp2`.
unfoldable pub last_loop : ℕ → (ℕ → Proc) → (tmp1 tmp2 : Option ℕ) → Option (Option ℕ)
last_loop zero procs tmp1 tmp2 = none
last_loop (suc n) procs tmp1 tmp2 = elim tmp1 [
  | none ↦ some tmp2
  | some t ↦ last_loop n procs (procs t).msg_next (some t)
]

-- `p->msg_head = v` and `p->msg_next = v`
abbrev pub set_head : (p : ℕ) → Option ℕ → Kernel → Kernel
set_head p v k = set_proc p (record (k.procs p) { msg_head = v }) k

abbrev pub set_next : (p : ℕ) → Option ℕ → Kernel → Kernel
set_next p v k = set_proc p (record (k.procs p) { msg_next = v }) k

-- `tmp2->msg_next = proc_from; proc_from->msg_next = NULL`
link_last : (from : ℕ) → Kernel → Option (Option ℕ) → Option Kernel
link_last from k none = none
link_last from k (some none) = none
link_last from k (some (some tmp2)) = some (set_next from none (set_next tmp2 (some from) k))

unfoldable pub insert_msg_queue : (from to : ℕ) → Kernel → Option Kernel
unfolding last_loop link_last
insert_msg_queue from to k = elim (k.procs to).msg_head [
  | none ↦ some (set_next from none (set_head to (some from) k))
  | some t ↦ link_last from k (last_loop rounds k.procs (some t) none)
]

-- The test of `msg_send`: the other side is blocked, awaits no interrupt, and wants this sender.
awaits_interrupt : IntStatus → Bool
awaits_interrupt no_int = false
awaits_interrupt has_int = false
awaits_interrupt wait_int = true

unfoldable pub can_deliver : (from to : Proc) → Bool
unfolding awaits_interrupt
can_deliver from to =
    not (awaits_interrupt to.int_status)
    && not (to.msg_block == 0)
    && ((to.recv_from ==ℤ from.pid) || (to.recv_from ==ℤ any))

-- `msg_send`: `from` and `send_to` are indices of processes.
unfoldable pub msg_send : (from send_to msg : ℕ) → Kernel → Option Kernel
unfolding can_deliver msg_copy insert_msg_queue
msg_send from send_to msg k =
    if can_deliver (k.procs from) (k.procs send_to)
    then (let k₁ = msg_copy (k.procs send_to).msg msg k in
        some (set_proc send_to (record (k₁.procs send_to) { msg_block = 0 }) k₁))
    else insert_msg_queue from send_to (
        set_proc from (record (k.procs from) { msg_block = 1; send_to = pos send_to; msg = msg }) k)

-- `recv_from == ANY || recv_from == tmp1->pid`
abbrev pub wanted : (recv_from : ℤ) → Proc → Bool
wanted recv_from p = (recv_from ==ℤ any) || (recv_from ==ℤ p.pid)

-- The relinking of `msg_receive` round the sender `t`.
unlink : (to t : ℕ) (tmp2 : Option ℕ) → Kernel → Bool → Option Kernel
unlink to t tmp2 k true = some (set_head to (k.procs t).msg_next k)
unlink to t none k false = none
unlink to t (some p) k false = some (set_next p (k.procs t).msg_next k)

-- `tmp1 == proc_to->msg_head`, where `tmp1` is `t`
abbrev pub at_head : (t : ℕ) → Option ℕ → Bool
at_head t none = false
at_head t (some h) = t == h

unfoldable pub take_message : (to msg t : ℕ) (tmp2 : Option ℕ) → Kernel → Option Kernel
unfolding msg_copy unlink
take_message to msg t tmp2 k =
    let k₁ = msg_copy msg (k.procs t).msg k in
    let k₂ = set_proc t (record (k₁.procs t) { msg_block = 0 }) k₁ in
    unlink to t tmp2 k₂ (at_head t (k₂.procs to).msg_head)

-- What follows the loop: nothing was there to receive.
unfoldable pub block_receiver : (to : ℕ) (recv_from : ℤ) (msg : ℕ) → Kernel → Kernel
block_receiver to recv_from msg k =
    set_proc to (record (k.procs to) { msg_block = 1; recv_from = recv_from; msg = msg }) k

unfoldable pub receive_loop :
    ℕ → (to : ℕ) (recv_from : ℤ) (msg : ℕ) (tmp1 tmp2 : Option ℕ) → Kernel → Option Kernel
receive_loop zero to recv_from msg tmp1 tmp2 k = none
receive_loop (suc n) to recv_from msg tmp1 tmp2 k = elim tmp1 [
  | none ↦ some (block_receiver to recv_from msg k)
  | some t ↦
      let rest = receive_loop n to recv_from msg (k.procs t).msg_next (some t) k in
      if wanted recv_from (k.procs t) then take_message to msg t tmp2 k else rest
]

-- `msg_receive`
unfoldable pub msg_receive : (to : ℕ) (recv_from : ℤ) (msg : ℕ) → Kernel → Option Kernel
unfolding receive_loop take_message block_receiver
msg_receive to recv_from msg k =
    let k' = if (k.procs to).msg_block == 1 then record k { errors = k.errors + 1 } else k in
    receive_loop rounds to recv_from msg (k'.procs to).msg_head none k'
