-- ===== src/Msg/Tests.antt =====
-- The theorems on messages and interrupts at one input.
use krven_os.Common.{◌≡◌, refl, arith, none, some, [], ◌∷◌, ◌==◌, if◌then◌else◌}
use krven_os.Common.Int.{pos}
use krven_os.Proc.{Kernel, no_int, wait_int, zero_proc, live_kernel, any}
use krven_os.Msg.{can_deliver, msg_receive, msg_send_interrupt, msg_recv_interrupt}
use krven_os.Msg.Receive.{Received, pick, wants, msg_receive_lem}
use krven_os.Msg.Send.{Exchanged, exchange, exchange_lem}
use krven_os.Msg.Interrupt.{no_lost_wakeup}

-- Process 2 waits in the queue of process 1.
abbrev queue_kernel : Kernel
queue_kernel = record live_kernel {
  procs = λ i. record zero_proc {
    pid = pos i;
    take_up = 1;
    msg_head = if i == 1 then some 2 else none;
    msg_block = if i == 2 then 1 else 0;
    recv_from = any;
  };
}

-- Every process waits for the interrupt 14.
abbrev waiting_kernel : Kernel
waiting_kernel = record live_kernel {
  procs = λ i. record zero_proc {
    pid = pos i;
    take_up = 1;
    int_status = wait_int;
    interrupt_id = 14;
    msg_block = 1;
  };
}

msg_receive_example :
    Received 1 any 7
      (2 ∷ [])
      queue_kernel
      (pick (wants any queue_kernel) (2 ∷ []))
      (msg_receive 1 any 7 queue_kernel)
msg_receive_example = msg_receive_lem 1 any 7 (2 ∷ []) queue_kernel (refl, refl, refl) (omega arith)

exchange_example : Exchanged 0 1 5 6 (2 ∷ []) queue_kernel (exchange 0 1 5 (pos 0) 6 queue_kernel)
unfolding can_deliver
exchange_example =
    exchange_lem 0 1 5 (pos 0) 6 (2 ∷ []) queue_kernel (refl, refl, refl) refl (omega arith) refl
      refl refl

no_lost_wakeup_example :
    let sent_first = (msg_recv_interrupt 3 14 (msg_send_interrupt 3 14 live_kernel)).procs 3 in
    let waited = msg_recv_interrupt 3 14 live_kernel in
    let waited_first = (msg_send_interrupt 3 14 waited).procs 3 in
    (sent_first.int_status ≡ no_int)
    × (sent_first.msg_block ≡ 0)
    × ((waited.procs 3).msg_block ≡ 1)
    × (waited_first.int_status ≡ no_int)
    × (waited_first.msg_block ≡ 0)
no_lost_wakeup_example = no_lost_wakeup 3 14 live_kernel refl refl
