-- ===== src/Keyboard.antt =====
-- The keyboard driver, driver/keyboard.c: the buffer between the interrupt handler and the reader, and
-- the translation of scan codes to characters. Characters and `int8_t` values are bytes; pointers into
-- the buffer are places in it; the bytes read from port 0x60 are arguments.
pub mod Queue
pub mod Typable
mod Tests
use krven_os.Common.{
  ℕ, zero, suc, ◌+◌, ◌-◌, ◌%◌, Bool, true, false, ◌&&◌, ◌||◌, Option, none, some, List, [], ◌∷◌,
  ltb, leb, ◌==◌, if◌then◌else◌, update,
}

-- `keymap_t`
pub record Keymap : Type 0 where
  pub ascii : ℕ
  pub make_1 : ℕ
  pub make_2 : ℕ
  break_1 : ℕ
  break_2 : ℕ

abbrev set_keyboard_map : (ascii make_1 make_2 break_1 break_2 : ℕ) → List Keymap → List Keymap
set_keyboard_map a m1 m2 b1 b2 rest =
    record { ascii = a; make_1 = m1; make_2 = m2; break_1 = b1; break_2 = b2 } ∷ rest

-- The table that `init_keyboard` fills, in its order.
keymap : List Keymap
keymap = set_keyboard_map 65 30 0 158 0 (
    set_keyboard_map 66 48 0 176 0 (
      set_keyboard_map 67 46 0 174 0 (
        set_keyboard_map 68 32 0 160 0 (
          set_keyboard_map 69 18 0 146 0 (
            set_keyboard_map 70 33 0 161 0 (
              set_keyboard_map 71 34 0 162 0 (
                set_keyboard_map 72 35 0 163 0 (
                  set_keyboard_map 73 23 0 151 0 (
                    set_keyboard_map 74 36 0 164 0 (
                      set_keyboard_map 75 37 0 165 0 (
                        set_keyboard_map 76 38 0 166 0 (
                          set_keyboard_map 77 50 0 178 0 (
                            set_keyboard_map 78 49 0 177 0 (
                              set_keyboard_map 79 24 0 152 0 (
                                set_keyboard_map 80 25 0 153 0 (
                                  set_keyboard_map 81 16 0 25 0 (
                                    set_keyboard_map 82 19 0 147 0 (
                                      set_keyboard_map 83 31 0 159 0 (
                                        set_keyboard_map 84 20 0 148 0 (
                                          set_keyboard_map 85 22 0 150 0 (
                                            set_keyboard_map 86 47 0 175 0 (
                                              set_keyboard_map 87 17 0 145 0 (
                                                set_keyboard_map 88 45 0 173 0 (
                                                  set_keyboard_map 89 21 0 149 0 (
                                                    set_keyboard_map 90 44 0 172 0 (
                                                      set_keyboard_map 48 11 0 139 0 (
                                                        set_keyboard_map 49 2 0 130 0 (
                                                          set_keyboard_map 50 3 0 131 0 (
                                                            set_keyboard_map 51 4 0 132 0 (
                                                            set_keyboard_map 52 5 0 133 0 (
                                                            set_keyboard_map 53 6 0 134 0 (
                                                            set_keyboard_map 54 7 0 135 0 (
                                                            set_keyboard_map 55 8 0 136 0 (
                                                            set_keyboard_map 56 9 0 137 0 (
                                                            set_keyboard_map 57 10 0 138 0 (
                                                            set_keyboard_map 45 12 0 140 0 (
                                                            set_keyboard_map 61 13 0 141 0 (
                                                            set_keyboard_map 47 53 0 181 0 (
                                                            set_keyboard_map 44 51 0 179 0 (
                                                            set_keyboard_map 46 52 0 180 0 (
                                                            set_keyboard_map 59 39 0 167 0 (
                                                            set_keyboard_map 39 40 0 168 0 (
                                                            set_keyboard_map 91 26 0 154 0 (
                                                            set_keyboard_map 93 27 0 155 0 (
                                                            set_keyboard_map 96 41 0 137 0 (
                                                            set_keyboard_map 92 43 0 171 0 (
                                                            set_keyboard_map 8 14 0 142 0 (
                                                            set_keyboard_map 9 15 0 143 0 (
                                                            set_keyboard_map 32 57 0 185 0 (
                                                            set_keyboard_map 32 58 0 186 0 (
                                                            set_keyboard_map 32 42 0 170 0 (
                                                            set_keyboard_map 32 54 0 182 0 (
                                                            set_keyboard_map 10 28 0 156 0 (
                                                            set_keyboard_map 255 59 0 187 0 (
                                                            set_keyboard_map 254 60 0 188 0
                                                            (set_keyboard_map 253 61 0 189 0 ([]))))
                                                            ))))))))))))))))))))))))))))))))))))))))
                                                            )))))))))))))

abbrev buffer_size : ℕ
buffer_size = 1024

-- `keyboard_buffer` with the two flags. `count` is a `uint8_t`.
pub record Keyboard : Type 0 where
  pub buf : ℕ → ℕ
  pub head : ℕ
  pub tail : ℕ
  pub count : ℕ
  pub caps_lock : ℕ
  pub shift : ℕ

-- What the reader sends to the current terminal.
pub data Output : Type 0 where
  putc : ℕ → Output
  write : List ℕ → Output

abbrev pub init_keyboard : Keyboard → Keyboard
init_keyboard kb = record kb { count = 0; head = 0; tail = 0 }

-- The interrupt handler, with the byte of the port.
unfoldable pub keyboard_handler : (byte : ℕ) → Keyboard → Keyboard
keyboard_handler byte kb =
    if ltb kb.count buffer_size
    then record kb {
      buf = update kb.buf kb.tail byte;
      count = (kb.count + 1) % 256;
      tail = if kb.tail + 1 == buffer_size then 0 else kb.tail + 1;
    }
    else kb

-- The character that a key gives with shift.
shift_case : List (ℕ × ℕ) → ℕ → ℕ
shift_case [] ascii = ascii
shift_case ((from, to) ∷ rest) ascii = if ascii == from then to else shift_case rest ascii

abbrev shift_cases : List (ℕ × ℕ)
shift_cases =
    (49, 33)
    ∷ (50, 64)
    ∷ (51, 35)
    ∷ (52, 36)
    ∷ (53, 94)
    ∷ (54, 94)
    ∷ (55, 38)
    ∷ (56, 42)
    ∷ (57, 40)
    ∷ (48, 41)
    ∷ (45, 95)
    ∷ (61, 43)
    ∷ (91, 123)
    ∷ (93, 125)
    ∷ (59, 58)
    ∷ (39, 34)
    ∷ (44, 60)
    ∷ (46, 62)
    ∷ (47, 63)
    ∷ (96, 126)
    ∷ (92, 124)
    ∷ []

unfoldable pub translate : (caps_lock shift ascii : ℕ) → ℕ
unfolding shift_case
translate caps_lock shift ascii =
    let lower =
      if leb 65 ascii && leb ascii 90 && (caps_lock == 0) then ascii - 65 + 97 else ascii in
    if shift == 0 then lower else shift_case shift_cases lower

-- The loop over the table: every entry with this make code is printed.
print_loop : List Keymap → (byte1 byte2 caps_lock shift : ℕ) → List Output
unfolding translate
print_loop [] byte1 byte2 caps_lock shift = []
print_loop (k ∷ rest) byte1 byte2 caps_lock shift =
    let later = print_loop rest byte1 byte2 caps_lock shift in
    if (k.make_1 == byte1) && (k.make_2 == byte2)
    then putc (translate caps_lock shift k.ascii) ∷ later
    else later

abbrev tab_blank : List ℕ
tab_blank = 32 ∷ 32 ∷ 32 ∷ 32 ∷ []

-- One byte other than 0xE0: the function keys, then the characters.
unfoldable pub press : (byte1 : ℕ) → Keyboard → Keyboard × List Output
unfolding print_loop keymap
press byte1 kb =
    if byte1 == 58
    then (record kb { caps_lock = if kb.caps_lock == 0 then 1 else 0 }, [])
    else if (byte1 == 42) || (byte1 == 54)
    then (record kb { shift = 1 }, [])
    else if (byte1 == 170) || (byte1 == 182)
    then (record kb { shift = 0 }, [])
    else if byte1 == 14
    then (kb, putc 8 ∷ [])
    else if byte1 == 15
    then (kb, write tab_blank ∷ [])
    else (kb, print_loop keymap byte1 0 kb.caps_lock kb.shift)

-- `*head++` and `count--`. The head is never moved back to the start: past the end of the buffer it
-- reads outside.
unfoldable pub next_byte : Keyboard → Option (ℕ × Keyboard)
next_byte kb =
    if ltb kb.head buffer_size
    then some (kb.buf kb.head, record kb { head = kb.head + 1; count = (kb.count + 255) % 256 })
    else none

-- After the first byte: 0xE0 takes a second byte with it, which is dropped.
after_first : Option (ℕ × Keyboard) → Option (Keyboard × List Output)
after_first none = none
after_first (some (byte1, kb)) =
    if byte1 == 224
    then elim (next_byte kb) [ none ↦ none | some second ↦ some (second.1, []) ]
    else some (press byte1 kb)

unfoldable pub keyboard_buffer_read : Keyboard → Option (Keyboard × List Output)
unfolding after_first
keyboard_buffer_read kb = if ltb 0 kb.count then after_first (next_byte kb) else some (kb, [])
