-- ===== src/Console.antt =====
-- The text screen: driver/console.c. The screen memory is an array of cells, 80 in a row; a `char` is
-- given by its byte, and is negative from 128 on. The cursor's hardware port is not modelled.
pub mod Cursor
pub mod Screen
mod Tests
use krven_os.Common.{
  ℕ, zero, suc, ◌+◌, ◌-◌, ◌*◌, ◌/◌, ◌%◌, ◌^◌, bit_and, bit_or, update, Bool, true, false, not, ◌&&◌,
  List, [], ◌∷◌, ltb, leb, ◌==◌, if◌then◌else◌,
}

-- `video_memory`, the two cursors, and their copies for other files.
pub record Console : Type 0 where
  pub video_memory : ℕ → ℕ
  pub cursor_x : ℕ
  pub cursor_y : ℕ
  pub console_cursor_x : ℕ
  pub console_cursor_y : ℕ

-- `move_cursor`
abbrev pub move_cursor : Console → Console
move_cursor c = record c { console_cursor_x = c.cursor_x; console_cursor_y = c.cursor_y }

-- A space in white on black.
abbrev pub blank : ℕ
blank = 0x0F20

abbrev pub screen_size : ℕ
screen_size = 2000

-- `for (i = lo; i < hi; i++) video_memory[i] = v(i)`, where `v` does not read what the loop writes.
abbrev pub fill : (lo hi : ℕ) → (ℕ → ℕ) → (ℕ → ℕ) → ℕ → ℕ
fill lo hi v memory i = if leb lo i && ltb i hi then v i else memory i

unfoldable pub console_clear : Console → Console
console_clear c = move_cursor (record c {
  video_memory = fill 0 screen_size (λ _. blank) c.video_memory;
  cursor_x = 0;
  cursor_y = 0;
})

-- `console_error`: blue on blue.
unfoldable pub console_error : Console → Console
console_error c = move_cursor (record c {
  video_memory =
      fill 0 screen_size (λ _. bit_or 0x20 (bit_or (1 * 2 ^ 4) 1 * 2 ^ 8)) c.video_memory;
  cursor_x = 0;
  cursor_y = 0;
})

-- `scroll`: each row takes the one below it, and the last is cleared. The copy goes upwards in memory,
-- so a cell is read before it is written.
unfoldable pub scroll : Console → Console
scroll c =
    if leb 25 c.cursor_y
    then record c {
      video_memory =
          fill (24 * 80) (25 * 80) (λ _. blank)
            (fill 0 (24 * 80) (λ i. c.video_memory (i + 80)) c.video_memory);
      cursor_y = 24;
    }
    else c

-- The attribute byte of a background and a font colour, in the high byte of a cell.
unfoldable pub attribute : (bg font : ℕ) → ℕ
attribute bg font = bit_or (bg * 2 ^ 4 % 2 ^ 8) (bit_and font 0x0F) * 2 ^ 8 % 2 ^ 16

-- The chain of tests on the character.
unfoldable pub put_char : (ch bg font : ℕ) → Console → Console
unfolding attribute
put_char ch bg font c =
    if ch == 0x08 && not (c.cursor_x == 0)
    then record c { cursor_x = c.cursor_x - 1 }
    else if ch == 0x09
    then record c { cursor_x = (c.cursor_x + 8) / 8 * 8 % 2 ^ 8 }
    else if ch == 0x0D
    then record c { cursor_x = 0 }
    else if ch == 0x0A
    then record c { cursor_x = 0; cursor_y = (c.cursor_y + 1) % 2 ^ 8 }
    else if leb 0x20 ch && ltb ch 128
    then record c {
      video_memory =
          update c.video_memory (c.cursor_y * 80 + c.cursor_x) (bit_or ch (attribute bg font));
      cursor_x = (c.cursor_x + 1) % 2 ^ 8;
    }
    else c

-- The turn to a new row.
unfoldable pub wrap_row : Console → Console
wrap_row c =
    if leb 80 c.cursor_x then record c { cursor_x = 0; cursor_y = (c.cursor_y + 1) % 2 ^ 8 } else c

unfoldable pub console_putc_color : (ch bg font : ℕ) → Console → Console
unfolding put_char wrap_row scroll
console_putc_color ch bg font c = move_cursor (scroll (wrap_row (put_char ch bg font c)))

-- `console_putc`: white on black.
unfoldable pub console_putc : ℕ → Console → Console
unfolding console_putc_color
console_putc ch c = console_putc_color ch 0 15 c

-- `console_write` and `console_write_color`, on the characters before the end of the string.
unfoldable pub console_write_color : List ℕ → (bg font : ℕ) → Console → Console
unfolding console_putc_color
console_write_color [] bg font c = c
console_write_color (ch ∷ cstr) bg font c =
    console_write_color cstr bg font (console_putc_color ch bg font c)

unfoldable pub console_write : List ℕ → Console → Console
unfolding console_write_color
console_write cstr c = console_write_color cstr 0 15 c

-- `console_buffer_t` of include/tty.h
pub record ConsoleBuffer : Type 0 where
  pub cells : ℕ → ℕ
  pub saved_x : ℕ
  pub saved_y : ℕ

unfoldable pub console_copy_from : ConsoleBuffer → Console → Console
console_copy_from b c = move_cursor (record c {
  video_memory = fill 0 screen_size b.cells c.video_memory;
  cursor_x = b.saved_x;
  cursor_y = b.saved_y;
})

unfoldable pub console_copy_to : ConsoleBuffer → Console → ConsoleBuffer
console_copy_to b c = record {
  cells = fill 0 screen_size c.video_memory b.cells;
  saved_x = c.cursor_x;
  saved_y = c.cursor_y;
}
