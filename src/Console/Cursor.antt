-- ===== src/Console/Cursor.antt =====
-- Where the functions of driver/console.c leave the cursor, and where they write.
use krven_os.Common.{ℕ, ◌≤◌, ◌<◌, ◌≡◌, ◌∙◌, refl, arith, List, [], ◌∷◌}
use krven_os.Console.{
  Console, screen_size, scroll, put_char, wrap_row, console_putc_color, console_write_color,
}

pub record OnScreen (c : Console) : Type 0 where
  pub column : c.cursor_x < 80
  pub row : c.cursor_y < 25

-- No cell behind the screen differs.
abbrev pub SameBehind : (m m' : ℕ → ℕ) → Type 0
SameBehind m m' = (i : ℕ) → screen_size ≤ i → m' i ≡ m i

record Placed (c : Console) : Type 0 where
  column : c.cursor_x ≤ 80
  row : c.cursor_y ≤ 25
  corner : c.cursor_y ≡ 25 → c.cursor_x < 80

put_char-Placed : (ch bg font : ℕ) (c : Console) → OnScreen c → Placed (put_char ch bg font c)
unfolding put_char
put_char-Placed ch bg font c on = record {
  column = ground arith;
  row = ground arith;
  corner = ground arith;
}

put_char-SameBehind :
    (ch bg font : ℕ) (c : Console)
    → OnScreen c
    → SameBehind c.video_memory (put_char ch bg font c).video_memory
unfolding put_char
put_char-SameBehind ch bg font c on i h = ground arith

settle-OnScreen : (c : Console) → Placed c → OnScreen (scroll (wrap_row c))
unfolding scroll wrap_row
settle-OnScreen c p = record { column = ground arith; row = ground arith }

settle-SameBehind : (c : Console) → SameBehind c.video_memory (scroll (wrap_row c)).video_memory
unfolding scroll wrap_row
settle-SameBehind c i h = ground arith

-- Any character in any colour leaves the cursor on the screen, and changes no memory behind the
-- screen, if the cursor was on the screen.
pub console_putc_color-OnScreen :
    (ch bg font : ℕ) (c : Console)
    → OnScreen c
    → OnScreen (console_putc_color ch bg font c)
      × SameBehind c.video_memory (console_putc_color ch bg font c).video_memory
unfolding console_putc_color
console_putc_color-OnScreen ch bg font c on =
    let p : Console = put_char ch bg font c in
    let s : OnScreen (scroll (wrap_row p)) = settle-OnScreen p (put_char-Placed ch bg font c on) in
    (
      record { column = s.column; row = s.row },
      λ i h. settle-SameBehind p i h ∙ put_char-SameBehind ch bg font c on i h,
    )

-- Writing any string in any colour leaves the cursor on the screen, and changes no memory behind the
-- screen, if the cursor was on the screen.
pub console_write_color-OnScreen :
    (cstr : List ℕ) (bg font : ℕ) (c : Console)
    → OnScreen c
    → OnScreen (console_write_color cstr bg font c)
      × SameBehind c.video_memory (console_write_color cstr bg font c).video_memory
unfolding console_write_color
console_write_color-OnScreen [] bg font c on = (on, λ i h. refl)
console_write_color-OnScreen (ch ∷ cstr) bg font c on =
    let (on', same) = console_putc_color-OnScreen ch bg font c on in
    let (on'', same') =
      console_write_color-OnScreen cstr bg font (console_putc_color ch bg font c) on' in
    (on'', λ i h. same' i h ∙ same i h)
