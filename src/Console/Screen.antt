-- ===== src/Console/Screen.antt =====
-- What the screen shows.
use krven_os.Common.{ℕ, ◌+◌, ◌*◌, ◌≤◌, ◌<◌, ◌≡◌, ◌≢◌, refl, arith, bit_or, if◌then◌else◌, ltb}
use krven_os.Console.{
  Console, ConsoleBuffer, screen_size, console_putc_color, blank, attribute, console_copy_from,
  console_copy_to,
}
use krven_os.Console.Cursor.{OnScreen}

-- The cell at a row and a column.
abbrev pub cell : Console → (row column : ℕ) → ℕ
cell c row column = c.video_memory (row * 80 + column)

-- A line feed in the last row moves every row up by one and clears the last; the cursor stands at its
-- start.
pub newline_scrolls :
    (bg font row column : ℕ) (c : Console)
    → OnScreen c
    → c.cursor_y ≡ 24
    → row < 25
    → column < 80
    → let c' = console_putc_color 0x0A bg font c in
      (cell c' row column ≡ (if ltb row 24 then cell c (row + 1) column else blank))
      × (c'.cursor_x ≡ 0)
      × (c'.cursor_y ≡ 24)
unfolding console_putc_color
newline_scrolls bg font row column c on last hr hc =
    let place : row * 80 + column + 80 ≡ (row + 1) * 80 + column = omega arith in
    (ground arith, ground arith, ground arith)

-- A printable character that does not fill its row appears at the cursor, which moves one to the
-- right; every other cell stays.
pub printable_shown :
    (ch bg font i : ℕ) (c : Console)
    → OnScreen c
    → 0x20 ≤ ch
    → ch < 128
    → c.cursor_x < 79
    → let c' = console_putc_color ch bg font c in
      (cell c' c.cursor_y c.cursor_x ≡ bit_or ch (attribute bg font))
      × (i ≢ c.cursor_y * 80 + c.cursor_x → c'.video_memory i ≡ c.video_memory i)
      × (c'.cursor_x ≡ c.cursor_x + 1)
      × (c'.cursor_y ≡ c.cursor_y)
unfolding console_putc_color
printable_shown ch bg font i c on lo hi room =
    (ground arith, λ ne. ground arith, ground arith, ground arith)

-- A screen that is saved comes back when it is restored over any other screen.
pub console_copy_from-copy_to :
    (b : ConsoleBuffer) (c d : Console) (i : ℕ)
    → i < screen_size
    → let d' = console_copy_from (console_copy_to b c) d in
      (d'.video_memory i ≡ c.video_memory i)
      × (d'.cursor_x ≡ c.cursor_x)
      × (d'.cursor_y ≡ c.cursor_y)
unfolding console_copy_from console_copy_to
console_copy_from-copy_to b c d i h = (ground arith, refl, refl)
