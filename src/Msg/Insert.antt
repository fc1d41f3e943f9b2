-- ===== src/Msg/Insert.antt =====
-- `insert_msg_queue` of msg/msg.c, against a queue as a list.
use krven_os.Common.{
  ℕ, ◌-◌, ◌<◌, ◌≡◌, ◌≢◌, refl, false, Option, none, some, List, [], ◌∷◌, ◌++◌, arith, length, ◌∙◌,
}
use krven_os.Proc.{Kernel}
use krven_os.Msg.{rounds, set_head, set_next, insert_msg_queue}
use krven_os.Msg.Chain.{has, Chain, last, last_loop-Chain, snoc, has-last}

-- What an insertion into the queue of `to` leaves alone.
pub record Kept (to : ℕ) (k k' : Kernel) : Type 0 where
  pub blocks : (p : ℕ) → (k'.procs p).msg_block ≡ (k.procs p).msg_block
  pub messages : (p : ℕ) → (k'.procs p).msg ≡ (k.procs p).msg
  pub pids : (p : ℕ) → (k'.procs p).pid ≡ (k.procs p).pid
  pub heads : (p : ℕ) → p ≢ to → (k'.procs p).msg_head ≡ (k.procs p).msg_head
  pub receives : (p : ℕ) → (k'.procs p).recv_from ≡ (k.procs p).recv_from
  pub interrupts : (p : ℕ) → (k'.procs p).int_status ≡ (k.procs p).int_status
  pub memory : k'.msgs ≡ k.msgs

abbrev pub Inserted : (from to : ℕ) → List ℕ → Kernel → Option Kernel → Type 0
Inserted from to xs k none = ⊥
Inserted from to xs k (some k') =
    Chain k'.procs (k'.procs to).msg_head (xs ++ from ∷ []) × Kept to k k'

to_empty :
    (from to : ℕ) (k : Kernel)
    → Inserted from to [] k (some (set_next from none (set_head to (some from) k)))
to_empty from to k = (
  (ground arith, refl, ground arith),
  record {
    blocks = λ p. ground arith;
    messages = λ p. ground arith;
    pids = λ p. ground arith;
    heads = λ p ne. ground arith;
    receives = λ p. ground arith;
    interrupts = λ p. ground arith;
    memory = refl;
  },
)

to_others :
    (from to x : ℕ) (xs : List ℕ) (k : Kernel)
    → (k.procs to).msg_head ≡ some x
    → has x xs ≡ false
    → Chain k.procs (k.procs x).msg_next xs
    → has from (x ∷ xs) ≡ false
    → Inserted from to (x ∷ xs) k (some (set_next from none (set_next (last x xs) (some from) k)))
to_others from to x xs k head new c out =
    let k' : Kernel = set_next from none (set_next (last x xs) (some from) k) in
    let other : from ≢ last x xs = λ e. ground (arith, has-last x xs) in
    let heads : (p : ℕ) → (k'.procs p).msg_head ≡ (k.procs p).msg_head = λ p. ground arith in
    let chain : Chain k'.procs (some x) (x ∷ (xs ++ from ∷ [])) =
      snoc k.procs k'.procs from x xs new c out (ground arith) (ground arith)
        (λ a h ne. ground arith) in
    (
      (heads to ∙ head, chain.1, chain.2),
      record {
        blocks = λ p. ground arith;
        messages = λ p. ground arith;
        pids = λ p. ground arith;
        heads = λ p ne. heads p;
        receives = λ p. ground arith;
        interrupts = λ p. ground arith;
        memory = refl;
      },
    )

-- A sender that is not in the queue of `to` is put behind all that are, the walk ends within its
-- rounds, and no message, block flag or other queue's head changes.
pub insert_msg_queue-append :
    (from to : ℕ) (xs : List ℕ) (k : Kernel)
    → Chain k.procs (k.procs to).msg_head xs
    → has from xs ≡ false
    → length xs < rounds
    → Inserted from to xs k (insert_msg_queue from to k)
unfolding insert_msg_queue
insert_msg_queue-append from to [] k e out h = rw (e, insert_msg_queue) (to_empty from to k)
insert_msg_queue-append from to (x ∷ xs) k (e, new, c) out h =
    rw (e, insert_msg_queue)
      (rw
        (
          last_loop-Chain (rounds - 1) k.procs (k.procs x).msg_next x xs c (omega arith),
          insert_msg_queue,
        )
        (to_others from to x xs k e new c out))
