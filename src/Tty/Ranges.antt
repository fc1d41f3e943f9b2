-- ===== src/Tty/Ranges.antt =====
-- The ranges of the numbers in tty/tty.c: the three bytes of a terminal, and the terminal that is shown, which
-- stays in the table as long as no other negative characters are written than -1, -2 and -3.
use mathlib.Core.Path.{subst}
use krven_os.Common.{
  ℕ, ◌+◌, ◌-◌, ◌%◌, ◌^◌, ◌<◌, ◌≡◌, sym, arith, Bool, true, false, if◌then◌else◌, Option, none, some,
  List, [], ◌∷◌, ◌==◌, ltb, leb, update, update_self, update_ne, Bool-cases, eq_or_ne, inl, inr,
  ◌⊎◌, ◌≤◌,
}
use krven_os.Strings.{string_text}
use krven_os.Console.{console_copy_to}
use krven_os.Format.Template.{Arg, int, str, vsprintf}
use krven_os.Shell.{Shell, ShellHandler, Action, run, can_not_find, nothing, shell_parse_command}
use krven_os.Tty.{
  Tty, Terminals, set_tty, print_text, printf, print_color, printc, ◌>>◌, tty_print_header,
  Handlers, perform, run_line, reset, tty_flush, tty_putc, tty_write, tty_switch, tty_char,
  tty_print,
}

-- A character, or one of the three that switch to a terminal of the table.
abbrev pub Typable : ℕ → Type 0
Typable c = (c < 128) ⊎ (253 ≤ c)

abbrev pub AreTypable : List ℕ → Type 0
AreTypable [] = 0 < 1
AreTypable (c ∷ cs) = Typable c × AreTypable cs

abbrev pub HasBytes : Tty → Type 0
HasBytes tty =
    (tty.buf_size < 256) × (tty.point < 256) × (tty.pos < 256) × ((i : ℕ) → Typable (tty.buf i))

abbrev pub InRange : Terminals → Type 0
InRange t = (t.current_tty < 3) × ((i : ℕ) → i < 3 → HasBytes (t.tty_table i))

-- The result, if there is one, is in range.
abbrev pub StaysInRange : Option Terminals → Type 0
StaysInRange none = 0 < 1
StaysInRange (some t) = InRange t

abbrev pub KeepRange : Handlers → Type 0
KeepRange handlers =
    (h : ShellHandler) (params : ℕ → ℕ) (tty : ℕ) (t : Terminals)
    → tty < 3
    → InRange t
    → StaysInRange (handlers h params tty t)

pub StaysInRange-then :
    (r : Option Terminals) (f : Terminals → Option Terminals)
    → StaysInRange r
    → ((t : Terminals) → InRange t → StaysInRange (f t))
    → StaysInRange (r >> f)
StaysInRange-then none f ranged next = omega arith
StaysInRange-then (some t) f ranged next = next t ranged

pub set_tty-InRange :
    (num : ℕ) (tty : Tty) (t : Terminals) → HasBytes tty → InRange t → InRange (set_tty num tty t)
set_tty-InRange num tty t bytes (shown, all) = (
  shown,
  λ i below. elim (eq_or_ne i num) [
    | inl this ↦
        subst (λ i. HasBytes (update t.tty_table num tty i)) (sym this)
          (subst HasBytes (sym (update_self t.tty_table num tty)) bytes)
    | inr ne ↦ subst HasBytes (sym (update_ne t.tty_table num i tty ne)) (all i below)
  ],
)

pub printf-StaysInRange :
    (format : List ℕ) (args : List Arg) (t : Terminals)
    → InRange t
    → StaysInRange (printf format args t)
unfolding printf print_text
printf-StaysInRange format args t ranged = go (vsprintf format args)
  where
    go : (r : Option (List ℕ)) → StaysInRange (print_text r t)
    go none = omega arith
    go (some text) = ranged

pub printc-StaysInRange :
    (bg font : ℕ) (format : List ℕ) (args : List Arg) (t : Terminals)
    → InRange t
    → StaysInRange (printc bg font format args t)
unfolding printc print_color
printc-StaysInRange bg font format args t ranged = go (vsprintf format args)
  where
    go : (r : Option (List ℕ)) → StaysInRange (print_color bg font r t)
    go none = omega arith
    go (some text) = ranged

-- A step on a value that may be missing.
pub StaysInRange-read {ℓ} :
    {A : Type ℓ} (f : A → Option Terminals) (read : Option A)
    → ((x : A) → StaysInRange (f x))
    → StaysInRange (elim read [ none ↦ none | some x ↦ f x ])
StaysInRange-read f none next = omega arith
StaysInRange-read f (some x) next = next x

pub StaysInRange-if :
    (b : Bool) (x y : Option Terminals)
    → StaysInRange x
    → StaysInRange y
    → StaysInRange (if b then x else y)
StaysInRange-if true x y first second = first
StaysInRange-if false x y first second = second

tty_print_header-StaysInRange :
    (num : ℕ) (t : Terminals) → InRange t → StaysInRange (tty_print_header num t)
unfolding tty_print_header
tty_print_header-StaysInRange num t ranged =
    StaysInRange-then _ (printf (62 ∷ []) [])
      (StaysInRange-then _ _ (printc-StaysInRange 0 14 _ _ t ranged) (λ u h.
        StaysInRange-read (λ name. printc 0 3 (37 ∷ 115 ∷ []) (str name ∷ []) u)
          (string_text 128 0 (u.tty_table num).dir_name)
          (λ name. printc-StaysInRange 0 3 (37 ∷ 115 ∷ []) (str name ∷ []) u h)))
      (λ u h. printf-StaysInRange (62 ∷ []) [] u h)

perform-StaysInRange :
    (handlers : Handlers) (action : Action) (t : Terminals)
    → KeepRange handlers
    → InRange t
    → StaysInRange (perform handlers action t)
unfolding perform
perform-StaysInRange handlers (run handler) t keep ranged =
    keep handler t.shell.shell_params t.current_tty t ranged.0 ranged
perform-StaysInRange handlers can_not_find t keep ranged =
    StaysInRange-read _ (string_text 1280 0 t.shell.shell_params)
      (λ name. printc-StaysInRange 0 12 _ (str name ∷ []) t ranged)
perform-StaysInRange handlers nothing t keep ranged = ranged

run_line-StaysInRange :
    (handlers : Handlers) (line : List ℕ) (t : Terminals)
    → KeepRange handlers
    → InRange t
    → StaysInRange (run_line handlers line t)
unfolding run_line
run_line-StaysInRange handlers line t keep ranged = go (shell_parse_command line t.shell)
  where
    go :
        (r : Option (Shell × Action))
        → StaysInRange (elim r [
          | none ↦ none
          | some (s, action) ↦
              printf (10 ∷ []) [] (record t { shell = s }) >> perform handlers action
        ])
    go none = omega arith
    go (some (s, action)) =
        StaysInRange-then (printf (10 ∷ []) [] (record t { shell = s })) (perform handlers action)
          (printf-StaysInRange (10 ∷ []) [] (record t { shell = s }) ranged)
          (λ u h. perform-StaysInRange handlers action u keep h)

tty_flush-StaysInRange :
    (handlers : Handlers) (num : ℕ) (t : Terminals)
    → KeepRange handlers
    → num < 3
    → InRange t
    → StaysInRange (tty_flush handlers num t)
unfolding tty_flush
tty_flush-StaysInRange handlers num t keep below (shown, all) =
    let tty = t.tty_table num in
    let cmd_buf : ℕ → ℕ = update tty.cmd_buf tty.pos 0 in
    let ended : Terminals = set_tty num (record tty { cmd_buf = cmd_buf }) t in
    let ranged : InRange ended =
      set_tty-InRange num (record tty { cmd_buf = cmd_buf }) t (all num below) (shown, all) in
    StaysInRange-read
      (λ line. run_line handlers line ended >> (λ t. tty_print_header num (reset num t)))
      (string_text 1024 0 cmd_buf)
      (λ line.
        StaysInRange-then (run_line handlers line ended) (λ t. tty_print_header num (reset num t))
          (run_line-StaysInRange handlers line ended keep ranged)
          (λ u h. tty_print_header-StaysInRange num (reset num u) (
            set_tty-InRange num (record (u.tty_table num) { buf_size = 0; point = 0; pos = 0 }) u
              (omega arith, omega arith, omega arith, (h.1 num below).3) h)))

tty_putc-InRange :
    (num c : ℕ) (t : Terminals) → num < 3 → Typable c → InRange t → InRange (tty_putc num c t)
unfolding tty_putc
tty_putc-InRange num c t below safe (shown, all) =
    let tty = t.tty_table num in
    let (size, point, pos, typed) = all num below in
    set_tty-InRange num
      (record tty { buf = update tty.buf tty.buf_size c; buf_size = (tty.buf_size + 1) % 2 ^ 8 }) t
      (
        omega arith,
        point,
        pos,
        λ i. elim (eq_or_ne i tty.buf_size) [
          | inl this ↦
              subst (λ i. Typable (update tty.buf tty.buf_size c i)) (sym this)
                (subst Typable (sym (update_self tty.buf tty.buf_size c)) safe)
          | inr ne ↦ subst Typable (sym (update_ne tty.buf tty.buf_size i c ne)) (typed i)
        ],
      )
      (shown, all)

pub tty_write-InRange :
    (num : ℕ) (cstr : List ℕ) (t : Terminals)
    → num < 3
    → AreTypable cstr
    → InRange t
    → InRange (tty_write num cstr t)
unfolding tty_write
tty_write-InRange num [] t below safe ranged = ranged
tty_write-InRange num (c ∷ cstr) t below (first, safe) ranged =
    tty_write-InRange num cstr (tty_putc num c t) below safe
      (tty_putc-InRange num c t below first ranged)

pub tty_switch-InRange :
    (switch_id : ℕ) (t : Terminals) → switch_id < 3 → InRange t → InRange (tty_switch switch_id t)
unfolding tty_switch
tty_switch-InRange switch_id t below (shown, all) =
    let tty = t.tty_table t.current_tty in
    let saved : Tty = record tty { console_buffer = console_copy_to tty.console_buffer t.screen } in
    let (old, others) =
      set_tty-InRange t.current_tty saved t (all t.current_tty shown) (shown, all) in
    (below, others)

switched_to : (c : ℕ) → Typable c → leb 128 c ≡ true → 255 - c < 3
switched_to c (inl small) negative = absurd (ground arith)
switched_to c (inr large) negative = omega arith

tty_char-StaysInRange :
    (handlers : Handlers) (num c : ℕ) (t : Terminals)
    → KeepRange handlers
    → num < 3
    → Typable c
    → InRange t
    → StaysInRange (tty_char handlers num c t)
unfolding tty_char
tty_char-StaysInRange handlers num c t keep below safe ranged =
    let (shown, all) = ranged in
    let tty = t.tty_table num in
    let (size, point, pos, typed) = all num below in
    let back =
      printf-StaysInRange (8 ∷ 32 ∷ 8 ∷ []) [] (set_tty num (record tty { pos = tty.pos - 1 }) t) (
        set_tty-InRange num (record tty { pos = tty.pos - 1 }) t (size, point, omega arith, typed)
          ranged) in
    let added =
      StaysInRange-then (printf (37 ∷ 99 ∷ []) (int c ∷ []) t) _
        (printf-StaysInRange (37 ∷ 99 ∷ []) (int c ∷ []) t ranged)
        (λ u h.
          let (size', point', pos', typed') = h.1 num below in
          set_tty-InRange num
            (record (u.tty_table num) {
              cmd_buf = update (u.tty_table num).cmd_buf (u.tty_table num).pos c;
              pos = ((u.tty_table num).pos + 1) % 2 ^ 8;
            })
            u (size', point', omega arith, typed') h) in
    StaysInRange-if (c == 10) _ _ (tty_flush-StaysInRange handlers num t keep below ranged) (
      StaysInRange-if (c == 8) _ _ (StaysInRange-if (ltb 0 tty.pos) _ (some t) back ranged)
        (elim (Bool-cases (leb 128 c)) [
          | inl negative ↦
              rw negative (tty_switch-InRange (255 - c) t (switched_to c safe negative) ranged)
          | inr other ↦ rw other added
        ]))

pub tty_print-StaysInRange :
    (handlers : Handlers) (num : ℕ) (t : Terminals)
    → KeepRange handlers
    → num < 3
    → InRange t
    → StaysInRange (tty_print handlers num t)
unfolding tty_print
tty_print-StaysInRange handlers num t keep below ranged =
    let tty = t.tty_table num in
    let (size, point, pos, typed) = ranged.1 num below in
    let taken : Tty = record tty { point = (tty.point + 1) % 2 ^ 8 } in
    StaysInRange-if (ltb tty.point tty.buf_size) _ (some t)
      (tty_char-StaysInRange handlers num (tty.buf tty.point) (set_tty num taken t) keep below
        (typed tty.point) (set_tty-InRange num taken t (size, omega arith, pos, typed) ranged))
      ranged
