-- ===== src/Msg/Receive.antt =====
-- `msg_receive` of msg/msg.c, against a queue as a list.
use krven_os.Common.{
  ℕ, zero, suc, ◌+◌, ◌<◌, ◌≡◌, ◌≢◌, ◌∙◌, sym, ap, refl, Bool, true, false, Option, none, some, List,
  [], ◌∷◌, arith, ◌==◌, length, update, if◌then◌else◌, Bool-cases, inl, inr,
}
use krven_os.Common.Int.{ℤ}
use krven_os.Proc.{Proc, Kernel}
use krven_os.Msg.{
  rounds, set_proc, set_head, set_next, wanted, take_message, block_receiver, receive_loop,
  msg_receive, at_head, unlink,
}
use krven_os.Msg.Chain.{has, Chain, frame}

module _ (w : ℕ → Bool) where
  -- The first wanted member, what is left without it, and the member before it.
  abbrev pub pick : List ℕ → Option ℕ
  pick [] = none
  pick (x ∷ xs) = if w x then some x else pick xs

  abbrev pub without : List ℕ → List ℕ
  without [] = []
  without (x ∷ xs) = if w x then xs else x ∷ without xs

  abbrev pub before : ℕ → List ℕ → ℕ
  before x [] = x
  before x (y ∷ ys) = if w y then x else before y ys

  has-before : (x : ℕ) (xs : List ℕ) → has (before x xs) (x ∷ xs) ≡ true
  has-before x [] = ground arith
  has-before x (y ∷ ys) = ground (arith, has-before y ys)

  has-pick : (t : ℕ) (xs : List ℕ) → pick xs ≡ some t → has t xs ≡ true
  has-pick t [] e = cc
  has-pick t (x ∷ xs) e = ground (arith, has-pick t xs)

  has-without : (a : ℕ) (xs : List ℕ) → has a xs ≡ false → has a (without xs) ≡ false
  has-without a [] h = refl
  has-without a (x ∷ xs) h = ground (arith, has-without a xs)

  -- A chain whose wanted member `t` is passed over by the member before it.
  relink :
      (procs procs' : ℕ → Proc) (x t : ℕ) (ys : List ℕ)
      → has x ys ≡ false
      → Chain procs (procs x).msg_next ys
      → pick ys ≡ some t
      → (procs' (before x ys)).msg_next ≡ (procs t).msg_next
      → ((a : ℕ)
          → has a (x ∷ ys) ≡ true
          → a ≢ before x ys
          → (procs' a).msg_next ≡ (procs a).msg_next)
      → has x (without ys) ≡ false × Chain procs' (procs' x).msg_next (without ys)
  relink procs procs' x t [] new c found link same = cc
  relink procs procs' x t (y ∷ ys) new (e, new', c) found link same = elim (Bool-cases (w y)) [
    | inl hit ↦
        let link' : (procs' x).msg_next ≡ (procs y).msg_next = ground arith in
        rw (hit, link')
          (
            ground arith,
            frame procs procs' (procs y).msg_next ys (λ a h. same a (ground arith) (ground arith))
                c,
          )
    | inr miss ↦
        let found' : pick ys ≡ some t = ground arith in
        let link' : (procs' (before y ys)).msg_next ≡ (procs t).msg_next = ground arith in
        let same' : (a : ℕ)
            → has a (y ∷ ys) ≡ true
            → a ≢ before y ys
            → (procs' a).msg_next ≡ (procs a).msg_next =
          λ a h ne. same a (ground arith) (ground arith) in
        let apart : x ≢ before y ys = λ eq. ground (arith, has-before y ys) in
        let kept : (procs' x).msg_next ≡ some y = same x (ground arith) (ground arith) ∙ e in
        let (out, rest) = relink procs procs' y t ys new' c found' link' same' in
        rw (miss, kept) (ground (arith, has-without x ys), (refl, out, rest))
  ]

abbrev pub wants : ℤ → Kernel → ℕ → Bool
wants recv_from k p = wanted recv_from (k.procs p)

-- What the loop does behind the member `x`, by the first wanted one of those that follow.
abbrev outcome : (to : ℕ) → ℤ → (msg x : ℕ) → List ℕ → Kernel → Option ℕ → Option Kernel
outcome to recv_from msg x ys k none = some (block_receiver to recv_from msg k)
outcome to recv_from msg x ys k (some t) =
    take_message to msg t (some (before (wants recv_from k) x ys)) k

outcome-miss :
    (to : ℕ) (r : ℤ) (msg x y : ℕ) (ys : List ℕ) (k : Kernel) (o : Option ℕ)
    → wants r k y ≡ false
    → outcome to r msg x (y ∷ ys) k o ≡ outcome to r msg y ys k o
outcome-miss to r msg x y ys k none miss = refl
outcome-miss to r msg x y ys k (some t) miss = rw (miss, before)

receive_loop-pick :
    (n to : ℕ) (recv_from : ℤ) (msg x : ℕ) (p : Option ℕ) (ys : List ℕ) (k : Kernel)
    → Chain k.procs p ys
    → length ys < n
    → receive_loop n to recv_from msg p (some x) k
      ≡ outcome to recv_from msg x ys k (pick (wants recv_from k) ys)
unfolding receive_loop
receive_loop-pick zero to r msg x p ys k c h = absurd (omega arith)
receive_loop-pick (suc n) to r msg x p [] k c h = rw (c, receive_loop)
receive_loop-pick (suc n) to r msg x p (y ∷ ys) k (e, new, c) h =
    rw (e, receive_loop)
      (elim (Bool-cases (wants r k y)) [
        | inl hit ↦ ground arith
        | inr miss ↦ rw miss (
            receive_loop-pick n to r msg y (k.procs y).msg_next ys k c (omega arith)
            ∙ sym (outcome-miss to r msg x y ys k (pick (wants r k) ys) miss))
      ])

-- What `msg_receive` leaves, by the first wanted sender of the queue `xs`. With none the receiver
-- blocks on its own buffer and the queue stays. Otherwise the message of that sender `t` is in the
-- buffer, `t` alone is unblocked, and `t` alone has left the queue.
abbrev pub Received : (to : ℕ) → ℤ → (msg : ℕ) → List ℕ → Kernel → Option ℕ → Option Kernel → Type 0
Received to recv_from msg xs k t none = ⊥
Received to recv_from msg xs k none (some k') =
    ((k'.procs to).msg_block ≡ 1)
    × ((k'.procs to).recv_from ≡ recv_from)
    × ((k'.procs to).msg ≡ msg)
    × Chain k'.procs (k'.procs to).msg_head xs
    × ((p : ℕ) → p ≢ to → k'.procs p ≡ k.procs p)
    × (k'.msgs ≡ k.msgs)
    × (k'.proc_ptr ≡ k.proc_ptr)
Received to recv_from msg xs k (some t) (some k') =
    (k'.msgs msg ≡ k.msgs (k.procs t).msg)
    × ((a : ℕ) → a ≢ msg → k'.msgs a ≡ k.msgs a)
    × ((k'.procs t).msg_block ≡ 0)
    × ((p : ℕ) → p ≢ t → (k'.procs p).msg_block ≡ (k.procs p).msg_block)
    × Chain k'.procs (k'.procs to).msg_head (without (wants recv_from k) xs)
    × (k'.proc_ptr ≡ k.proc_ptr)

blocked-Received :
    (to : ℕ) (r : ℤ) (msg : ℕ) (xs : List ℕ) (k : Kernel)
    → Chain k.procs (k.procs to).msg_head xs
    → Received to r msg xs k none (some (block_receiver to r msg k))
unfolding block_receiver
blocked-Received to r msg xs k c =
    let k' : Kernel =
      set_proc to (record (k.procs to) { msg_block = 1; recv_from = r; msg = msg }) k in
    let head : (k'.procs to).msg_head ≡ (k.procs to).msg_head = ground arith in
    (
      ground arith,
      ground arith,
      ground arith,
      rw head (frame k.procs k'.procs (k.procs to).msg_head xs (λ a h. ground arith) c),
      λ p ne. ground arith,
      refl,
      refl,
    )

-- The state in which `msg_receive` relinks: the message is copied and `t` is unblocked.
abbrev copied : (msg t : ℕ) → Kernel → Kernel
copied msg t k =
    set_proc t (record (k.procs t) { msg_block = 0 })
      (record k { msgs = update k.msgs msg (k.msgs (k.procs t).msg) })

take_message-first :
    (to msg x : ℕ) (k : Kernel)
    → (k.procs to).msg_head ≡ some x
    → take_message to msg x none k
      ≡ some (set_head to ((copied msg x k).procs x).msg_next (copied msg x k))
unfolding take_message
take_message-first to msg x k head =
    let head' : at_head x ((copied msg x k).procs to).msg_head ≡ true = ground arith in
    ap (unlink to x none (copied msg x k)) head'

take_message-later :
    (to msg x t b : ℕ) (k : Kernel)
    → (k.procs to).msg_head ≡ some x
    → t ≢ x
    → take_message to msg t (some b) k
      ≡ some (set_next b ((copied msg t k).procs t).msg_next (copied msg t k))
unfolding take_message
take_message-later to msg x t b k head ne =
    let other : at_head t ((copied msg t k).procs to).msg_head ≡ false = ground arith in
    ap (unlink to t (some b) (copied msg t k)) other

-- The first of the queue is taken.
first-Received :
    (to : ℕ) (r : ℤ) (msg x : ℕ) (ys : List ℕ) (k : Kernel)
    → (k.procs to).msg_head ≡ some x
    → has x ys ≡ false
    → Chain k.procs (k.procs x).msg_next ys
    → wants r k x ≡ true
    → Received to r msg (x ∷ ys) k (some x) (take_message to msg x none k)
first-Received to r msg x ys k head new c hit =
    let k' : Kernel = set_head to ((copied msg x k).procs x).msg_next (copied msg x k) in
    let head' : (k'.procs to).msg_head ≡ (k.procs x).msg_next = ground arith in
    rw (take_message-first to msg x k head) (
      ground arith,
      λ a ne. ground arith,
      ground arith,
      λ p ne. ground arith,
      rw (hit, head') (frame k.procs k'.procs (k.procs x).msg_next ys (λ a h. ground arith) c),
      refl,
    )

-- A later one is taken.
later-Received :
    (to : ℕ) (r : ℤ) (msg x t : ℕ) (ys : List ℕ) (k : Kernel)
    → (k.procs to).msg_head ≡ some x
    → has x ys ≡ false
    → Chain k.procs (k.procs x).msg_next ys
    → wants r k x ≡ false
    → pick (wants r k) ys ≡ some t
    → Received to r msg
        (x ∷ ys)
        k
        (some t)
        (take_message to msg t (some (before (wants r k) x ys)) k)
later-Received to r msg x t ys k head new c miss found =
    let b : ℕ = before (wants r k) x ys in
    let ne : t ≢ x = λ e. ground (arith, has-pick (wants r k) t ys found) in
    let k' : Kernel = set_next b ((copied msg t k).procs t).msg_next (copied msg t k) in
    let head' : (k'.procs to).msg_head ≡ some x = ground arith in
    let relinked : has x (without (wants r k) ys) ≡ false
        × Chain k'.procs (k'.procs x).msg_next (without (wants r k) ys) =
      relink (wants r k) k.procs k'.procs x t ys new c found (ground arith)
        (λ a h out. ground arith) in
    rw (take_message-later to msg x t b k head ne) (
      ground arith,
      λ a out. ground arith,
      ground arith,
      λ p out. ground arith,
      rw (miss, head') (refl, relinked.0, relinked.1),
      refl,
    )

-- With no `msg_block` in the way: the loop from the head of the queue.
loop-Received :
    (to : ℕ) (r : ℤ) (msg : ℕ) (xs : List ℕ) (k : Kernel)
    → Chain k.procs (k.procs to).msg_head xs
    → length xs < rounds
    → Received to r msg xs k
        (pick (wants r k) xs)
        (receive_loop rounds to r msg (k.procs to).msg_head none k)
unfolding receive_loop
loop-Received to r msg [] k c h = rw (c, receive_loop) (blocked-Received to r msg [] k c)
loop-Received to r msg (x ∷ ys) k (head, new, c) h =
    rw (head, receive_loop)
      (elim (Bool-cases (wants r k x)) [
        | inl hit ↦ rw hit (first-Received to r msg x ys k head new c hit)
        | inr miss ↦
            rw (miss, receive_loop-pick 10 to r msg x (k.procs x).msg_next ys k c (omega arith))
              (later (pick (wants r k) ys) refl miss)
      ])
  where
    later :
        (o : Option ℕ)
        → pick (wants r k) ys ≡ o
        → wants r k x ≡ false
        → Received to r msg (x ∷ ys) k o (outcome to r msg x ys k o)
    later none e miss = blocked-Received to r msg (x ∷ ys) k (head, new, c)
    later (some t) e miss = later-Received to r msg x t ys k head new c miss e

-- Receiving from a queue of at most ten senders ends within its rounds, and takes the first sender
-- that is wanted, or blocks the receiver when no sender is wanted.
pub msg_receive_lem :
    (to : ℕ) (r : ℤ) (msg : ℕ) (xs : List ℕ) (k : Kernel)
    → Chain k.procs (k.procs to).msg_head xs
    → length xs < rounds
    → Received to r msg xs k (pick (wants r k) xs) (msg_receive to r msg k)
unfolding msg_receive
msg_receive_lem to r msg xs k c h = elim (Bool-cases ((k.procs to).msg_block == 1)) [
  | inl busy ↦ rw busy (loop-Received to r msg xs (record k { errors = k.errors + 1 }) c h)
  | inr idle ↦ rw idle (loop-Received to r msg xs k c h)
]
