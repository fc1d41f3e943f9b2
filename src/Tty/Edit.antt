-- ===== src/Tty/Edit.antt =====
-- A command line as it is typed, and one character of it in tty/tty.c.
use krven_os.Common.{
  ℕ, suc, ◌+◌, ◌-◌, ◌%◌, ◌^◌, ◌<◌, ◌≤◌, ◌≡◌, ◌≢◌, ap, refl, arith, true, false, some, List, [], ◌∷◌,
  ◌++◌, ltb, leb, ◌==◌, if◌then◌else◌, update, Holds, length,
}
use krven_os.Console.{console_write}
use krven_os.Format.Template.{int}
use krven_os.Format.Template.Prints.{vsprintf-char, vsprintf-text}
use krven_os.Tty.{Tty, Terminals, set_tty, printf, print_text, Handlers, tty_char, tty_print}

-- The line without its last character, if it has one.
abbrev pub drop_last : List ℕ → List ℕ
drop_last [] = []
drop_last (c ∷ []) = []
drop_last (c ∷ (d ∷ line)) = c ∷ drop_last (d ∷ line)

-- A backspace takes the last character back; every other character goes to the end.
abbrev pub edit : (line : List ℕ) (c : ℕ) → List ℕ
edit line c = if c == 8 then drop_last line else line ++ (c ∷ [])

abbrev pub edited : (line typed : List ℕ) → List ℕ
edited line [] = line
edited line (c ∷ typed) = edited (edit line c) typed

pub length-drop_last : (line : List ℕ) → length (drop_last line) ≡ length line - 1
length-drop_last [] = refl
length-drop_last (c ∷ []) = refl
length-drop_last (c ∷ (d ∷ line)) = omega (arith, length-drop_last (d ∷ line))

pub Holds-drop_last :
    (a : ℕ → ℕ) (i : ℕ) (line : List ℕ) → Holds a i line → Holds a i (drop_last line)
Holds-drop_last a i [] held = held
Holds-drop_last a i (c ∷ []) held = refl
Holds-drop_last a i (c ∷ (d ∷ line)) (here, later) =
    (here, Holds-drop_last a (suc i) (d ∷ line) later)

-- A character of a line: neither a line feed nor a request to switch.
abbrev pub IsTyped : List ℕ → Type 0
IsTyped [] = 0 < 1
IsTyped (c ∷ cs) = (0 < c) × (c < 128) × (c ≢ 10) × IsTyped cs

-- The terminal has these characters yet to print, after `p` that are printed, and this line.
abbrev pub Typing : (p : ℕ) (cs line : List ℕ) → Tty → Type 0
Typing p cs line tty =
    (tty.point ≡ p)
    × (tty.buf_size ≡ p + length cs)
    × (p + length cs ≤ 255)
    × Holds tty.buf p cs
    × (tty.pos ≡ length line)
    × (length line ≤ p)
    × Holds tty.cmd_buf 0 line

printf-char :
    (c : ℕ) (t : Terminals)
    → printf (37 ∷ 99 ∷ []) (int c ∷ []) t
      ≡ some (record t { screen = console_write (c % 256 ∷ []) t.screen })
unfolding printf print_text
printf-char c t = ap (λ r. print_text r t) (vsprintf-char c [])

printf-backspace :
    (t : Terminals)
    → printf (8 ∷ 32 ∷ 8 ∷ []) [] t
      ≡ some (record t { screen = console_write (8 ∷ 32 ∷ 8 ∷ []) t.screen })
unfolding printf print_text
printf-backspace t =
    ap (λ r. print_text r t)
      (vsprintf-text (8 ∷ 32 ∷ 8 ∷ []) [] (omega arith, (omega arith, (omega arith, omega arith))))

-- The terminal with one more character taken out, and with a character at the end of the line.
abbrev pub took : (num : ℕ) → Terminals → Terminals
took num t =
    set_tty num (record (t.tty_table num) { point = ((t.tty_table num).point + 1) % 2 ^ 8 }) t

pub tty_print-takes :
    (handlers : Handlers) (num c : ℕ) (t : Terminals)
    → ltb (t.tty_table num).point (t.tty_table num).buf_size ≡ true
    → (t.tty_table num).buf (t.tty_table num).point ≡ c
    → tty_print handlers num t ≡ tty_char handlers num c (took num t)
unfolding tty_print
tty_print-takes handlers num c t more e = rw (more, e) refl

pub tty_char-ordinary :
    (handlers : Handlers) (num c : ℕ) (t : Terminals)
    → c < 128
    → c ≢ 10
    → c ≢ 8
    → let tty = t.tty_table num in
      tty_char handlers num c t
      ≡ some (
          set_tty num
            (record tty { cmd_buf = update tty.cmd_buf tty.pos c; pos = (tty.pos + 1) % 2 ^ 8 })
            (record t { screen = console_write (c % 256 ∷ []) t.screen }))
unfolding tty_char
tty_char-ordinary handlers num c t low line back =
    let e : (c == 10) ≡ false = ground arith in
    let f : (c == 8) ≡ false = ground arith in
    let g : leb 128 c ≡ false = ground arith in rw (e, f, g, printf-char c t) refl

pub tty_char-back :
    (handlers : Handlers) (num : ℕ) (t : Terminals)
    → let tty = t.tty_table num in
      0 < tty.pos
      → tty_char handlers num 8 t
        ≡ some (record (set_tty num (record tty { pos = tty.pos - 1 }) t) {
          screen = console_write (8 ∷ 32 ∷ 8 ∷ []) t.screen;
        })
unfolding tty_char
tty_char-back handlers num t some_char =
    let e : ltb 0 (t.tty_table num).pos ≡ true = ground arith in
    rw e (
      printf-backspace
        (set_tty num (record (t.tty_table num) { pos = (t.tty_table num).pos - 1 }) t))

pub tty_char-back_empty :
    (handlers : Handlers) (num : ℕ) (t : Terminals)
    → (t.tty_table num).pos ≡ 0
    → tty_char handlers num 8 t ≡ some t
unfolding tty_char
tty_char-back_empty handlers num t none_left =
    let e : ltb 0 (t.tty_table num).pos ≡ false = ground arith in rw e refl
