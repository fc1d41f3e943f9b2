-- ===== src/Console/Tests.antt =====
-- The theorems on the screen at one input.
use krven_os.Common.{arith, [], ◌∷◌}
use krven_os.Console.{Console, ConsoleBuffer, console_write_color}
use krven_os.Console.Cursor.{OnScreen, SameBehind, console_write_color-OnScreen}

-- The cursor in the last place of the screen, and in the first.
abbrev at_end : Console
at_end = record {
  video_memory = λ i. i;
  cursor_x = 79;
  cursor_y = 24;
  console_cursor_x = 79;
  console_cursor_y = 24;
}

abbrev at_start : Console
at_start = record at_end { cursor_x = 0; cursor_y = 0 }

abbrev empty_buffer : ConsoleBuffer
empty_buffer = record { cells = λ _. 0; saved_x = 0; saved_y = 0 }

at_end-OnScreen : OnScreen at_end
at_end-OnScreen = record { column = omega arith; row = omega arith }

at_start-OnScreen : OnScreen at_start
at_start-OnScreen = record { column = omega arith; row = omega arith }

console_write_color-OnScreen_example :
    OnScreen (console_write_color (0x41 ∷ 0x0A ∷ 0x09 ∷ []) 0 15 at_end)
    × SameBehind at_end.video_memory
        (console_write_color (0x41 ∷ 0x0A ∷ 0x09 ∷ []) 0 15 at_end).video_memory
console_write_color-OnScreen_example =
    console_write_color-OnScreen (0x41 ∷ 0x0A ∷ 0x09 ∷ []) 0 15 at_end at_end-OnScreen
