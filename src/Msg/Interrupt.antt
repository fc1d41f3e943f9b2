-- ===== src/Msg/Interrupt.antt =====
-- The hand-over of an interrupt between a device's handler and the process that awaits it.
use krven_os.Common.{ℕ, ◌≡◌, ◌≢◌, arith}
use krven_os.Proc.{Proc, Kernel, no_int, wait_int}
use krven_os.Msg.{msg_send_interrupt, msg_recv_interrupt}

-- A process awaits an interrupt only while it is blocked.
abbrev pub AwaitsBlocked : Proc → Type 0
AwaitsBlocked p = p.int_status ≡ wait_int → p.msg_block ≡ 1

-- If every process that awaits an interrupt is blocked, it is so after an interrupt is sent to any
-- process, and after any process waits for one.
pub interrupts-AwaitsBlocked :
    (pid id : ℕ) (k : Kernel)
    → ((p : ℕ) → AwaitsBlocked (k.procs p))
    → ((p : ℕ) → AwaitsBlocked ((msg_send_interrupt pid id k).procs p))
      × ((p : ℕ) → AwaitsBlocked ((msg_recv_interrupt pid id k).procs p))
unfolding msg_send_interrupt msg_recv_interrupt
interrupts-AwaitsBlocked pid id k h = (λ p e. ground (arith, h p), λ p e. ground (arith, h p))

-- With no interrupt pending or awaited, and the process running, one interrupt and one wait for it
-- leave, in either order, no interrupt pending and the process running: no wake-up is lost. The
-- process is blocked between the two if it waits first.
pub no_lost_wakeup :
    (pid id : ℕ) (k : Kernel)
    → (k.procs pid).int_status ≡ no_int
    → (k.procs pid).msg_block ≡ 0
    → let sent_first = (msg_recv_interrupt pid id (msg_send_interrupt pid id k)).procs pid in
      let waited = msg_recv_interrupt pid id k in
      let waited_first = (msg_send_interrupt pid id waited).procs pid in
      (sent_first.int_status ≡ no_int)
      × (sent_first.msg_block ≡ 0)
      × ((waited.procs pid).msg_block ≡ 1)
      × (waited_first.int_status ≡ no_int)
      × (waited_first.msg_block ≡ 0)
unfolding msg_send_interrupt msg_recv_interrupt
no_lost_wakeup pid id k e b = (ground arith, ground arith, ground arith, ground arith, ground arith)

-- An interrupt with another number does not wake a process that waits, and changes nothing.
pub other_interrupt :
    (pid id : ℕ) (k : Kernel)
    → (k.procs pid).int_status ≡ wait_int
    → (k.procs pid).interrupt_id ≢ id
    → msg_send_interrupt pid id k ≡ k
unfolding msg_send_interrupt
other_interrupt pid id k e ne = ground arith
