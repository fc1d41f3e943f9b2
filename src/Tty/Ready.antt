-- ===== src/Tty/Ready.antt =====
-- The terminals after `init_tty` of tty/tty.c.
use mathlib.Core.Path.{subst}
use krven_os.Common.{
  ℕ, zero, suc, ◌+◌, ◌-◌, ◌/◌, ◌^◌, ◌<◌, ◌≤◌, ◌≡◌, ◌≢◌, ◌∙◌, ap, sym, refl, arith, Option, none,
  some, List, [], ◌∷◌, ◌++◌, length, update, update_self, update_ne, eq_or_ne, inl, inr,
}
use krven_os.Strings.{memcpy, string_text, IsString}
use krven_os.Console.{
  Console, ConsoleBuffer, console_write, console_write_color, console_copy_to, console_copy_from,
}
use krven_os.Format.Template.{Arg, int, str, vsprintf, prepend}
use krven_os.Format.Template.Prints.{Plain, vsprintf-str, vsprintf-text, vsprintf-int}
use krven_os.Tty.{
  Tty, Terminals, set_tty, printf, printc, print_text, print_color, ◌>>◌, tty_print_header,
  tty_switch,
}
use krven_os.Tty.Edit.{Typing}
use krven_os.Tty.Start.{
  ui_line, ui_blank, ui_welcome, fresh_tty, write_clear, save_screen, init_round, init_rounds,
  init_tty, welcome_str,
}

-- A step that succeeds and changes only the screen.
abbrev pub OnlyPrints : Option Terminals → Terminals → Type 0
OnlyPrints r t = (c : Console) × (r ≡ some (record t { screen = c }))

OnlyPrints-then :
    (r : Option Terminals) (f : Terminals → Option Terminals) (t : Terminals)
    → OnlyPrints r t
    → ((c : Console) → OnlyPrints (f (record t { screen = c })) (record t { screen = c }))
    → OnlyPrints (r >> f) t
OnlyPrints-then r f t (c, e) next = let (d, e') = next c in (d, ap (λ r. r >> f) e ∙ e')

printf-OnlyPrints :
    (format text : List ℕ) (args : List Arg) (t : Terminals)
    → vsprintf format args ≡ some text
    → OnlyPrints (printf format args t) t
unfolding printf print_text
printf-OnlyPrints format text args t e = (console_write text t.screen, ap (λ r. print_text r t) e)

printc-OnlyPrints :
    (bg font : ℕ) (format text : List ℕ) (args : List Arg) (t : Terminals)
    → vsprintf format args ≡ some text
    → OnlyPrints (printc bg font format args t) t
unfolding printc print_color
printc-OnlyPrints bg font format text args t e =
    (console_write_color text bg font t.screen, ap (λ r. print_color bg font r t) e)

one_char : (c : ℕ) (t : Terminals) → c ≢ 37 → OnlyPrints (printf (c ∷ []) [] t) t
one_char c t plain =
    printf-OnlyPrints (c ∷ []) (c ∷ []) [] t (vsprintf-text (c ∷ []) [] (plain, omega arith))

ui_line-OnlyPrints : (n : ℕ) (t : Terminals) → OnlyPrints (ui_line n t) t
unfolding ui_line
ui_line-OnlyPrints zero t = (t.screen, refl)
ui_line-OnlyPrints (suc n) t =
    OnlyPrints-then (printf (45 ∷ []) [] t) (ui_line n) t (one_char 45 t (omega arith))
      (λ c. ui_line-OnlyPrints n (record t { screen = c }))

ui_blank-OnlyPrints : (n : ℕ) (t : Terminals) → OnlyPrints (ui_blank n t) t
unfolding ui_blank
ui_blank-OnlyPrints zero t = (t.screen, refl)
ui_blank-OnlyPrints (suc n) t =
    OnlyPrints-then (printf (32 ∷ []) [] t) (ui_blank n) t (one_char 32 t (omega arith))
      (λ c. ui_blank-OnlyPrints n (record t { screen = c }))

ui_welcome-OnlyPrints : (t : Terminals) → OnlyPrints (ui_welcome t) t
unfolding ui_welcome
ui_welcome-OnlyPrints t =
    let blank : ℕ = (80 - length welcome_str) / 2 in
    let newline = λ (t : Terminals). one_char 10 t (omega arith) in
    let at = λ (c : Console). record t { screen = c } in
    let r1 = ui_line 79 t >> printf (10 ∷ []) [] in
    let r2 = r1 >> ui_blank blank in
    let r3 = r2 >> printc 0 12 (37 ∷ 115 ∷ []) (str welcome_str ∷ []) in
    let r4 = r3 >> printf (10 ∷ []) [] in
    let r5 = r4 >> ui_line 79 in
    let p1 =
      OnlyPrints-then (ui_line 79 t) (printf (10 ∷ []) []) t (ui_line-OnlyPrints 79 t)
        (λ c. newline (at c)) in
    let p2 = OnlyPrints-then r1 (ui_blank blank) t p1 (λ c. ui_blank-OnlyPrints blank (at c)) in
    let p3 = OnlyPrints-then r2 (printc 0 12 (37 ∷ 115 ∷ []) (str welcome_str ∷ [])) t p2 (λ c.
      printc-OnlyPrints 0 12 (37 ∷ 115 ∷ []) welcome_str (str welcome_str ∷ []) (at c)
        (vsprintf-str welcome_str)) in
    let p4 = OnlyPrints-then r3 (printf (10 ∷ []) []) t p3 (λ c. newline (at c)) in
    let p5 = OnlyPrints-then r4 (ui_line 79) t p4 (λ c. ui_line-OnlyPrints 79 (at c)) in
    OnlyPrints-then r5 (printf (10 ∷ []) []) t p5 (λ c. newline (at c))

-- "tty" and "@kinderriven:"
abbrev tty_name : List ℕ
tty_name = 116 ∷ 116 ∷ 121 ∷ []

abbrev user_name : List ℕ
user_name = 64 ∷ 107 ∷ 105 ∷ 110 ∷ 100 ∷ 101 ∷ 114 ∷ 114 ∷ 105 ∷ 118 ∷ 101 ∷ 110 ∷ 58 ∷ []

user_name-Plain : Plain user_name
user_name-Plain = omega arith

header_printed :
    (num : ℕ)
    → num + 1 < 2 ^ 32
    → (t : List ℕ) × (vsprintf (tty_name ++ (37 ∷ 100 ∷ user_name)) (int (num + 1) ∷ []) ≡ some t)
header_printed num h =
    let (t, printed, read) = vsprintf-int tty_name user_name (num + 1) [] (omega arith) h in
    (
      tty_name ++ (t ++ user_name),
      printed
          ∙ ap (λ r. prepend tty_name (prepend t r)) (vsprintf-text user_name [] user_name-Plain),
    )

tty_print_header-OnlyPrints :
    (num : ℕ) (name : List ℕ) (t : Terminals)
    → num + 1 < 2 ^ 32
    → string_text 128 0 (t.tty_table num).dir_name ≡ some name
    → OnlyPrints (tty_print_header num t) t
unfolding tty_print_header
tty_print_header-OnlyPrints num name t h read =
    let (text, printed) = header_printed num h in
    let p1 =
      printc-OnlyPrints 0 14 (tty_name ++ (37 ∷ 100 ∷ user_name)) text (int (num + 1) ∷ []) t
        printed in
    let r1 = printc 0 14 (tty_name ++ (37 ∷ 100 ∷ user_name)) (int (num + 1) ∷ []) t in
    let p2 = OnlyPrints-then r1 path t p1 (λ c.
      let u : Terminals = record t { screen = c } in
      let (d, e) =
        printc-OnlyPrints 0 3 (37 ∷ 115 ∷ []) name (str name ∷ []) u (vsprintf-str name) in
      (d, ap (shown u) read ∙ e)) in
    OnlyPrints-then (r1 >> path) (printf (62 ∷ []) []) t p2
      (λ c. one_char 62 (record t { screen = c }) (omega arith))
  where
    shown : Terminals → Option (List ℕ) → Option Terminals
    shown t r = elim r [ none ↦ none | some name ↦ printc 0 3 (37 ∷ 115 ∷ []) (str name ∷ []) t ]

    path : Terminals → Option Terminals
    path t = shown t (string_text 128 0 (t.tty_table num).dir_name)

-- A terminal that waits for a line: nothing typed, in the root directory by the path "/", and with a listing
-- that is to be read.
abbrev pub IsReady : Tty → Type 0
IsReady tty =
    Typing 0 [] [] tty
    × IsString tty.dir_name 0 (47 ∷ [])
    × (tty.current_dir_inode_id ≡ 1)
    × (tty.update_flag ≡ 1)
    × ((i : ℕ) → tty.buf i ≡ 0)

fresh_tty-IsReady : IsReady fresh_tty
unfolding fresh_tty memcpy
fresh_tty-IsReady =
    ((refl, refl, omega arith, refl, refl, omega arith, refl), (refl, refl), refl, refl, λ i. refl)

-- Saving a screen leaves a terminal ready.
IsReady-saved :
    (buffer : ConsoleBuffer) (tty : Tty)
    → IsReady tty
    → IsReady (record tty { console_buffer = buffer })
IsReady-saved buffer tty ready = ready

root_read : string_text 128 0 fresh_tty.dir_name ≡ some (47 ∷ [])
unfolding fresh_tty memcpy string_text
root_read = refl

init_round-IsReady :
    (i : ℕ) (t : Terminals)
    → i < 3
    → (t' : Terminals) × (init_round i t ≡ some t')
      × IsReady (t'.tty_table i)
      × ((j : ℕ) → j ≢ i → t'.tty_table j ≡ t.tty_table j)
unfolding init_round
init_round-IsReady i t h =
    let start : Terminals = write_clear (set_tty i fresh_tty t) in
    let self = update_self t.tty_table i fresh_tty in
    let read : string_text 128 0 (start.tty_table i).dir_name ≡ some (47 ∷ []) =
      ap (λ (x : Tty). string_text 128 0 x.dir_name) self ∙ root_read in
    let (c, e) =
      OnlyPrints-then (ui_welcome start) (tty_print_header i) start (ui_welcome-OnlyPrints start)
        (λ c.
          tty_print_header-OnlyPrints i (47 ∷ []) (record start { screen = c }) (omega arith)
            read) in
    let printed : Terminals = record start { screen = c } in
    let saved : Tty = record (start.tty_table i) {
      console_buffer = console_copy_to (start.tty_table i).console_buffer c;
    } in
    (
      save_screen i printed,
      ap (λ r. r >> (λ t. some (save_screen i t))) e,
      subst IsReady (sym (update_self start.tty_table i saved))
          (subst IsReady (sym self) fresh_tty-IsReady),
      λ j ne. update_ne start.tty_table i j saved ne ∙ update_ne t.tty_table i j fresh_tty ne,
    )

init_rounds-IsReady :
    (n : ℕ) (t : Terminals)
    → n ≤ 3
    → ((j : ℕ) → n ≤ j → j < 3 → IsReady (t.tty_table j))
    → (t' : Terminals) × (init_rounds n t ≡ some t') × ((j : ℕ) → j < 3 → IsReady (t'.tty_table j))
unfolding init_rounds
init_rounds-IsReady zero t h ready = (t, refl, λ j k. ready j (omega arith) k)
init_rounds-IsReady (suc i) t h ready =
    let (t1, done, ready1, same) = init_round-IsReady i t (omega arith) in
    let (t', runs, all) = init_rounds-IsReady i t1 (omega arith) (λ j low high.
      elim (eq_or_ne j i) [
        | inl this ↦ subst (λ k. IsReady (t1.tty_table k)) (sym this) ready1
        | inr ne ↦ subst IsReady (sym (same j ne)) (ready j (omega arith) high)
      ]) in
    (t', ap (λ r. r >> init_rounds i) done ∙ runs, all)

-- `init_tty` returns, shows terminal 0, and leaves each of the three terminals waiting for a line: nothing is
-- typed, the buffer is clear, its directory is the root by the path "/", and its listing is to be read.
pub init_tty-IsReady :
    (t : Terminals)
    → (t' : Terminals) × (init_tty t ≡ some t')
      × (t'.current_tty ≡ 0)
      × ((j : ℕ) → j < 3 → IsReady (t'.tty_table j))
unfolding init_tty tty_switch
init_tty-IsReady t =
    let (t1, done, ready) = init_rounds-IsReady 3 t (omega arith) (λ j h k. absurd (omega arith)) in
    let saved : Tty = record (t1.tty_table 0) {
      console_buffer = console_copy_to (t1.tty_table 0).console_buffer t1.screen;
    } in
    let table = update t1.tty_table 0 saved in
    (
      record t1 {
        tty_table = table;
        current_tty = 0;
        screen = console_copy_from (table 0).console_buffer t1.screen;
      },
      ap (λ r. r >> (λ t. some (tty_switch 0 (record t { current_tty = 0 })))) done,
      refl,
      λ j h. elim (eq_or_ne j 0) [
        | inl this ↦
            subst (λ k. IsReady (table k)) (sym this)
              (subst IsReady (sym (update_self t1.tty_table 0 saved)) (ready 0 (omega arith)))
        | inr ne ↦ subst IsReady (sym (update_ne t1.tty_table 0 j saved ne)) (ready j h)
      ],
    )
