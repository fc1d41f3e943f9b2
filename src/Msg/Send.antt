-- ===== src/Msg/Send.antt =====
-- `msg_send`: delivery to a process that waits, or a place in its queue; and the meeting of a queued
-- sender with its receiver.
use krven_os.Common.{
  ℕ, ◌+◌, ◌<◌, ◌≡◌, ◌≢◌, ◌∙◌, sym, ap, ◌||◌, Bool, true, false, Option, none, some, List, [], ◌∷◌,
  ◌++◌, arith, length, update, Bool-cases, inl, inr, length-append,
}
use mathlib.Core.Path.{subst}
use krven_os.Common.Int.{ℤ, pos, ◌==ℤ◌}
use krven_os.Proc.{Kernel, any}
use krven_os.Msg.{rounds, set_proc, can_deliver, insert_msg_queue, msg_send, msg_receive}
use krven_os.Msg.Chain.{has, Chain, frame}
use krven_os.Msg.Insert.{Inserted, insert_msg_queue-append}
use krven_os.Msg.Receive.{Received, pick, without, wants, msg_receive_lem}

-- The sender that has blocked itself, before it is queued.
abbrev pub waiting_sender : (from to msg : ℕ) → Kernel → Kernel
waiting_sender from to msg k =
    set_proc from (record (k.procs from) { msg_block = 1; send_to = pos to; msg = msg }) k

-- What `msg_send` leaves: with the receiver waiting for this sender, the message in its buffer and the
-- receiver alone unblocked; otherwise the sender blocked on its message, and last in the queue.
abbrev pub Sent : (from to msg : ℕ) → List ℕ → Kernel → Bool → Option Kernel → Type 0
Sent from to msg xs k b none = ⊥
Sent from to msg xs k true (some k') =
    (k'.msgs (k.procs to).msg ≡ k.msgs msg)
    × ((k'.procs to).msg_block ≡ 0)
    × ((p : ℕ) → p ≢ to → k'.procs p ≡ k.procs p)
    × Chain k'.procs (k'.procs to).msg_head xs
Sent from to msg xs k false (some k') =
    ((k'.procs from).msg_block ≡ 1)
    × ((k'.procs from).msg ≡ msg)
    × ((p : ℕ) → p ≢ from → (k'.procs p).msg_block ≡ (k.procs p).msg_block)
    × ((p : ℕ) → (k'.procs p).pid ≡ (k.procs p).pid)
    × (k'.msgs ≡ k.msgs)
    × Chain k'.procs (k'.procs to).msg_head (xs ++ from ∷ [])

queued-Sent :
    (from to msg : ℕ) (xs : List ℕ) (k : Kernel) (r : Option Kernel)
    → Inserted from to xs (waiting_sender from to msg k) r
    → Sent from to msg xs k false r
queued-Sent from to msg xs k none i = i
queued-Sent from to msg xs k (some k') (c, kept) = (
  kept.blocks from ∙ ground arith,
  kept.messages from ∙ ground arith,
  λ p ne. kept.blocks p ∙ ground arith,
  λ p. kept.pids p ∙ ground arith,
  kept.memory,
  c,
)

-- Sending to a process whose queue holds at most ten senders, and not this one, ends, and delivers
-- the message if the other side waits for it, or queues the blocked sender behind the others.
pub msg_send_lem :
    (from to msg : ℕ) (xs : List ℕ) (k : Kernel)
    → Chain k.procs (k.procs to).msg_head xs
    → has from xs ≡ false
    → length xs < rounds
    → Sent from to msg xs k (can_deliver (k.procs from) (k.procs to)) (msg_send from to msg k)
unfolding msg_send
msg_send_lem from to msg xs k c out h =
    elim (Bool-cases (can_deliver (k.procs from) (k.procs to))) [
      | inl ready ↦ rw ready (ground arith, ground arith, λ p ne. ground arith, delivered)
      | inr busy ↦ rw busy (
          queued-Sent from to msg xs k (insert_msg_queue from to (waiting_sender from to msg k))
            (insert_msg_queue-append from to xs (waiting_sender from to msg k) waiting out h))
    ]
  where
    k₁ : Kernel
    k₁ = record k { msgs = update k.msgs (k.procs to).msg (k.msgs msg) }

    done : Kernel
    done = set_proc to (record (k.procs to) { msg_block = 0 }) k₁

    head : (done.procs to).msg_head ≡ (k.procs to).msg_head
    head = ground arith

    delivered : Chain done.procs (done.procs to).msg_head xs
    delivered = rw head (frame k.procs done.procs (k.procs to).msg_head xs (λ a i. ground arith) c)

    k₂ : Kernel
    k₂ = waiting_sender from to msg k

    head₂ : (k₂.procs to).msg_head ≡ (k.procs to).msg_head
    head₂ = ground arith

    waiting : Chain k₂.procs (k₂.procs to).msg_head xs
    waiting = rw head₂ (frame k.procs k₂.procs (k.procs to).msg_head xs (λ a i. ground arith) c)

pub pick-append :
    (w w' : ℕ → Bool) (from : ℕ) (xs : List ℕ)
    → ((p : ℕ) → w' p ≡ w p)
    → pick w xs ≡ none
    → w from ≡ true
    → (pick w' (xs ++ from ∷ []) ≡ some from) × (without w' (xs ++ from ∷ []) ≡ xs)
pick-append w w' from [] same e hit = ground (arith, same from)
pick-append w w' from (x ∷ xs) same e hit =
    let skipped : w x ≡ false = ground arith in
    let (found, rest) = pick-append w w' from xs same (ground arith) hit in
    let skipped' : w' x ≡ false = same x ∙ skipped in rw (skipped') (found, ap (λ l. x ∷ l) rest)

-- A send, and then a receive by the other side.
abbrev pub exchange : (from to msg : ℕ) → ℤ → (buf : ℕ) → Kernel → Option Kernel
exchange from to msg r buf k = elim (msg_send from to msg k) [
  | none ↦ none
  | some k' ↦ msg_receive to r buf k'
]

-- The message has arrived, the sender runs again, and the queue is what it was before.
abbrev pub Exchanged : (from to msg buf : ℕ) → List ℕ → Kernel → Option Kernel → Type 0
Exchanged from to msg buf xs k none = ⊥
Exchanged from to msg buf xs k (some k') =
    (k'.msgs buf ≡ k.msgs msg)
    × ((k'.procs from).msg_block ≡ 0)
    × Chain k'.procs (k'.procs to).msg_head xs

Received-Exchanged :
    (from to msg : ℕ) (r : ℤ) (buf : ℕ) (xs : List ℕ) (k k₁ : Kernel) (t : Option ℕ)
    (k' : Option Kernel)
    → Received to r buf (xs ++ from ∷ []) k₁ t k'
    → t ≡ some from
    → without (wants r k₁) (xs ++ from ∷ []) ≡ xs
    → k₁.msgs ≡ k.msgs
    → (k₁.procs from).msg ≡ msg
    → Exchanged from to msg buf xs k k'
Received-Exchanged from to msg r buf xs k k₁ t none e i s m own = e
Received-Exchanged from to msg r buf xs k k₁ none (some k') e i s m own = cc
Received-Exchanged from to msg r buf xs k k₁ (some t) (some k') (got, others, woken, blocks, c, ptr)
      i s m own =
    let same : t ≡ from = ground arith in
    (
      got ∙ ap k₁.msgs (ap (λ p. (k₁.procs p).msg) same ∙ own) ∙ ap (λ f. f msg) m,
      ap (λ p. (k'.procs p).msg_block) (sym same) ∙ woken,
      subst (λ l. Chain k'.procs (k'.procs to).msg_head l) s c,
    )

Sent-Exchanged :
    (from to msg : ℕ) (r : ℤ) (buf : ℕ) (xs : List ℕ) (k : Kernel) (o : Option Kernel)
    → Sent from to msg xs k false o
    → length xs + 1 < rounds
    → pick (wants r k) xs ≡ none
    → wants r k from ≡ true
    → Exchanged from to msg buf xs k (elim o [ none ↦ none | some k' ↦ msg_receive to r buf k' ])
Sent-Exchanged from to msg r buf xs k none s h e hit = s
Sent-Exchanged from to msg r buf xs k (some k₁) (b, own, blocks, pids, mem, c) h e hit =
    let (found, rest) =
      pick-append (wants r k) (wants r k₁) from xs
        (λ p. ap (λ q. (r ==ℤ any) || (r ==ℤ q)) (pids p)) e hit in
    Received-Exchanged from to msg r buf xs k k₁ (pick (wants r k₁) (xs ++ from ∷ []))
      (msg_receive to r buf k₁)
      (msg_receive_lem to r buf (xs ++ from ∷ []) k₁ c
        (omega (arith, length-append xs (from ∷ []))))
      found rest mem own

-- A message sent to a process that does not wait for it is the one that this process gets from its
-- next receive, if that wants the sender and none of the nine or fewer that were in the queue before.
-- The sender is then unblocked, and the queue is as before the send.
pub exchange_lem :
    (from to msg : ℕ) (r : ℤ) (buf : ℕ) (xs : List ℕ) (k : Kernel)
    → Chain k.procs (k.procs to).msg_head xs
    → has from xs ≡ false
    → length xs + 1 < rounds
    → can_deliver (k.procs from) (k.procs to) ≡ false
    → pick (wants r k) xs ≡ none
    → wants r k from ≡ true
    → Exchanged from to msg buf xs k (exchange from to msg r buf k)
exchange_lem from to msg r buf xs k c out h busy e hit =
    Sent-Exchanged from to msg r buf xs k (msg_send from to msg k)
      (subst (λ b. Sent from to msg xs k b (msg_send from to msg k)) busy
        (msg_send_lem from to msg xs k c out (omega arith)))
      h e hit
