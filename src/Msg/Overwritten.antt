-- ===== src/Msg/Overwritten.antt =====
-- `msg_send` to a process that is itself blocked on a send.
use krven_os.Common.{ℕ, ◌≡◌, Option, none, some, List, [], ◌∷◌, ◌++◌}
use krven_os.Common.Int.{ℤ}
use krven_os.Proc.{Kernel}
use krven_os.Msg.{msg_send, msg_receive}
use krven_os.Msg.Chain.{Chain}

-- `to` sends to `q`, another process sends to `to`, and then `q` receives.
abbrev then_receive : (q : ℕ) → ℤ → (buf : ℕ) → Option Kernel → Option (Kernel × Kernel)
then_receive q r buf none = none
then_receive q r buf (some k₂) = elim (msg_receive q r buf k₂) [
  | none ↦ none
  | some k₃ ↦ some (k₂, k₃)
]

abbrev then_send : (from to q msg' : ℕ) → ℤ → (buf : ℕ) → Option Kernel → Option (Kernel × Kernel)
then_send from to q msg' r buf none = none
then_send from to q msg' r buf (some k₁) = then_receive q r buf (msg_send from to msg' k₁)

abbrev pub intercepted :
    (from to q msg msg' : ℕ) → ℤ → (buf : ℕ) → Kernel → Option (Kernel × Kernel)
intercepted from to q msg msg' r buf k = then_send from to q msg' r buf (msg_send to q msg k)

-- After the second send `to` runs and is still in the queue; what `q` then receives is the second message.
abbrev pub Intercepted : (to q msg' buf : ℕ) → List ℕ → Kernel → Option (Kernel × Kernel) → Type 0
Intercepted to q msg' buf xs k none = ⊥
Intercepted to q msg' buf xs k (some (k₂, k₃)) =
    ((k₂.procs to).msg_block ≡ 0)
    × Chain k₂.procs (k₂.procs q).msg_head (xs ++ to ∷ [])
    × (k₃.msgs buf ≡ k.msgs msg')
