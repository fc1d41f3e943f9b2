-- ===== src/Msg/Chain.antt =====
-- The queue of a process as the list of its waiting senders, in the order of `msg_next`.
use krven_os.Common.{
  ℕ, zero, suc, ◌<◌, ◌≡◌, ◌≢◌, refl, Bool, true, false, ◌||◌, Option, none, some, List, [], ◌∷◌,
  ◌++◌, ◌∙◌, arith, ◌==◌, length,
}
use krven_os.Proc.{Proc}
use krven_os.Msg.{last_loop}

abbrev pub has : ℕ → List ℕ → Bool
has a [] = false
has a (x ∷ xs) = (a == x) || has a xs

-- From the pointer `p` the `msg_next` pointers lead through the distinct processes `xs` to NULL.
abbrev pub Chain : (ℕ → Proc) → Option ℕ → List ℕ → Type 0
Chain procs p [] = p ≡ none
Chain procs p (x ∷ xs) = (p ≡ some x) × (has x xs ≡ false) × Chain procs (procs x).msg_next xs

-- The last of a list, or what came before it.
abbrev pub last : ℕ → List ℕ → ℕ
last t [] = t
last t (x ∷ xs) = last x xs

pub has-append : (a : ℕ) (xs ys : List ℕ) → has a (xs ++ ys) ≡ (has a xs || has a ys)
has-append a [] ys = refl
has-append a (x ∷ xs) ys = ground (arith, has-append a xs ys)

pub has-last : (x : ℕ) (xs : List ℕ) → has (last x xs) (x ∷ xs) ≡ true
has-last x [] = ground arith
has-last x (y ∷ ys) = ground (arith, has-last y ys)

-- A chain depends on the links of its own members alone.
pub frame :
    (procs procs' : ℕ → Proc) (p : Option ℕ) (xs : List ℕ)
    → ((a : ℕ) → has a xs ≡ true → (procs' a).msg_next ≡ (procs a).msg_next)
    → Chain procs p xs
    → Chain procs' p xs
frame procs procs' p [] same c = c
frame procs procs' p (x ∷ xs) same (e, new, c) = (
  e,
  new,
  frame procs procs' (procs' x).msg_next xs (λ a h. same a (ground arith))
      (let eq : (procs' x).msg_next ≡ (procs x).msg_next = same x (ground arith) in rw eq c),
)

-- The walk of `insert_msg_queue` ends at the last member, if it has more rounds than members.
pub last_loop-Chain :
    (n : ℕ) (procs : ℕ → Proc) (p : Option ℕ) (t : ℕ) (xs : List ℕ)
    → Chain procs p xs
    → length xs < n
    → last_loop n procs p (some t) ≡ some (some (last t xs))
unfolding last_loop
last_loop-Chain zero procs p t xs c h = absurd (omega arith)
last_loop-Chain (suc n) procs p t [] c h = rw c
last_loop-Chain (suc n) procs p t (x ∷ xs) (e, new, c) h =
    rw e (last_loop-Chain n procs (procs x).msg_next x xs c (omega arith))

-- One more member behind the last.
pub snoc :
    (procs procs' : ℕ → Proc) (from x : ℕ) (xs : List ℕ)
    → has x xs ≡ false
    → Chain procs (procs x).msg_next xs
    → has from (x ∷ xs) ≡ false
    → (procs' (last x xs)).msg_next ≡ some from
    → (procs' from).msg_next ≡ none
    → ((a : ℕ) → has a (x ∷ xs) ≡ true → a ≢ last x xs → (procs' a).msg_next ≡ (procs a).msg_next)
    → Chain procs' (some x) (x ∷ (xs ++ from ∷ []))
snoc procs procs' from x [] new c out link end same = (refl, ground arith, (link, refl, end))
snoc procs procs' from x (y ∷ ys) new (e, new', c) out link end same =
    let apart : x ≢ last y ys = λ eq. ground (arith, has-last y ys) in
    let rest : Chain procs' (some y) (y ∷ (ys ++ from ∷ [])) =
      snoc procs procs' from y ys new' c (ground arith) link end
        (λ a h ne. same a (ground arith) ne) in
    (
      refl,
      ground (arith, has-append x (y ∷ ys) (from ∷ [])),
      (same x (ground arith) apart ∙ e, rest.1, rest.2),
    )
