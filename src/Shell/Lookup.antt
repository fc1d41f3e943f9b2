-- ===== src/Shell/Lookup.antt =====
-- The table of commands of shell/shell.c, and the search in it.
use krven_os.Common.{
  ℕ, zero, suc, ◌<◌, ◌≡◌, ◌∙◌, ap, sym, refl, arith, Bool, true, false, ◌&&◌, Option, none, some,
  List, [], ◌∷◌, ◌==◌, if◌then◌else◌, length, Bool-cases, inl, inr,
}
use krven_os.Strings.{IsString, IsText}
use krven_os.Strings.Compare.{Compares, strcmp-Compares}
use krven_os.Shell.{
  Shell, ShellHandler, commands, init_shell, command_row, command_loop, Action, run, can_not_find,
  nothing,
}

-- The first command of this name.
abbrev pub same : (s t : List ℕ) → Bool
same [] [] = true
same [] (d ∷ t) = false
same (c ∷ s) [] = false
same (c ∷ s) (d ∷ t) = (c == d) && same s t

abbrev pub find_command : List (List ℕ × ShellHandler) → List ℕ → Option ShellHandler
find_command [] w = none
find_command ((name, handler) ∷ rest) w =
    let later = find_command rest w in if same name w then some handler else later

abbrev pub action_of : List (List ℕ) → Action
action_of [] = nothing
action_of (w ∷ ws) = elim (find_command commands w) [
  | some handler ↦ run handler
  | none ↦ can_not_find
]

pub same_self : (s : List ℕ) → same s s ≡ true
same_self [] = refl
same_self (c ∷ s) = let e : (c == c) ≡ true = ground arith in rw (e, same_self s) refl

pub same→≡ : (s t : List ℕ) → same s t ≡ true → s ≡ t
same→≡ [] [] h = refl
same→≡ [] (d ∷ t) h = absurd (grind arith)
same→≡ (c ∷ s) [] h = absurd (grind arith)
same→≡ (c ∷ s) (d ∷ t) h = elim (Bool-cases (c == d)) [
  | inl equal ↦
      let e : c ≡ d = ground arith in
      ap (λ x. x ∷ s) e ∙ ap (λ u. d ∷ u) (same→≡ s t (sym (rw equal refl) ∙ h))
  | inr other ↦ absurd (grind arith)
]

pub Compares-same : (s t : List ℕ) (r : ℕ) → Compares s t r → same s t ≡ (r == 0)
Compares-same s t r (inl (result, equal)) =
    let e : (r == 0) ≡ true = ground arith in ap (same s) (sym equal) ∙ same_self s ∙ sym e
Compares-same s t r (inr (result, differ)) = elim (Bool-cases (same s t)) [
  | inl yes' ↦ absurd (differ (same→≡ s t yes'))
  | inr no' ↦ let e : (r == 0) ≡ false = ground arith in no' ∙ sym e
]

-- The rows of the table from row `i` on are these commands, and there are no more.
abbrev pub Filled :
    (table : ℕ → ℕ) (handlers : ℕ → ShellHandler) (size i : ℕ)
    → List (List ℕ × ShellHandler)
    → Type 0
Filled table handlers size i [] = size ≡ i
Filled table handlers size i ((name, handler) ∷ rest) =
    IsString (command_row table i) 0 name
    × IsText name
    × (length name < 24)
    × (handlers i ≡ handler)
    × Filled table handlers size (suc i) rest

abbrev pub HasCommands : Shell → Type 0
HasCommands s = Filled s.command_table s.shell_handlers s.shell_handler_size 0 commands

-- The static variables before `init_shell`, all zero; a handler stands for the null pointer.
abbrev pub static_shell : ShellHandler → Shell
static_shell null = record {
  command_table = λ i. 0;
  shell_handlers = λ i. null;
  shell_handler_size = 0;
  shell_params = λ i. 0;
  shell_param_num = 0;
}

-- `init_shell` fills the table.
pub init_shell-HasCommands : (null : ShellHandler) → HasCommands (init_shell (static_shell null))
unfolding init_shell commands
init_shell-HasCommands null = (
  omega arith,
  omega arith,
  omega arith,
  refl,
  (
    omega arith,
    omega arith,
    omega arith,
    refl,
    (
      omega arith,
      omega arith,
      omega arith,
      refl,
      (
        omega arith,
        omega arith,
        omega arith,
        refl,
        (
          omega arith,
          omega arith,
          omega arith,
          refl,
          (
            omega arith,
            omega arith,
            omega arith,
            refl,
            (
              omega arith,
              omega arith,
              omega arith,
              refl,
              (
                omega arith,
                omega arith,
                omega arith,
                refl,
                (
                  omega arith,
                  omega arith,
                  omega arith,
                  refl,
                  (
                    omega arith,
                    omega arith,
                    omega arith,
                    refl,
                    (
                      omega arith,
                      omega arith,
                      omega arith,
                      refl,
                      (omega arith, omega arith, omega arith, refl, omega arith),
                    ),
                  ),
                ),
              ),
            ),
          ),
        ),
      ),
    ),
  ),
)

unfoldable pub handler_of : (ℕ → ShellHandler) → Option ℕ → Option ShellHandler
handler_of handlers none = none
handler_of handlers (some i) = some (handlers i)

pub command_loop-Filled :
    (n i : ℕ) (s : Shell) (cmds : List (List ℕ × ShellHandler)) (w : List ℕ)
    → Filled s.command_table s.shell_handlers s.shell_handler_size i cmds
    → IsString s.shell_params 0 w
    → IsText w
    → length w < 128
    → n ≡ length cmds
    → (r : Option ℕ) × (command_loop n i s ≡ some r)
      × (handler_of s.shell_handlers r ≡ find_command cmds w)
unfolding command_loop handler_of
command_loop-Filled zero i s [] w filled str text short h = (none, refl, refl)
command_loop-Filled (suc n) i s [] w filled str text short h = absurd (omega arith)
command_loop-Filled zero i s (row ∷ cmds) w filled str text short h = absurd (omega arith)
command_loop-Filled (suc n) i s ((name, handler) ∷ cmds) w
      (row, name_text, name_short, handler', filled) str text short h =
    let (r, result, compares) =
      strcmp-Compares 1280 (command_row s.command_table i) s.shell_params name w row str name_text
        text (omega arith) (omega arith) in
    let (r', rest, found) =
      command_loop-Filled n (suc i) s cmds w filled str text short (omega arith) in
    let agree = Compares-same name w r compares in
    elim (Bool-cases (r == 0)) [
      | inl yes' ↦ (some i, ap look result ∙ rw yes' refl, rw (agree, yes') (ap some handler'))
      | inr no' ↦ (r', ap look result ∙ rw no' rest, rw (agree, no') found)
    ]
  where
    look : Option ℕ → Option (Option ℕ)
    look c = elim c [
      | none ↦ none
      | some r ↦ if r == 0 then some (some i) else command_loop n (suc i) s
    ]
