-- ===== src/Keyboard/Tests.antt =====
-- The keyboard at one input.
use krven_os.Common.{if◌then◌else◌, ◌==◌, ◌≡◌, refl, arith, some, [], ◌∷◌}
use krven_os.Keyboard.{Keyboard, putc, press, keyboard_buffer_read}
use krven_os.Keyboard.Queue.{Queued, taken, keyboard_buffer_read-Queued}

-- The scan codes of "A" and of "5" in the buffer.
abbrev two_keys : Keyboard
two_keys = record {
  buf = λ i. if i == 0 then 30 else 6;
  head = 0;
  tail = 2;
  count = 2;
  caps_lock = 0;
  shift = 1;
}

abbrev full : Keyboard
full = record two_keys { tail = 255; count = 255 }

two_keys-Queued : Queued (30 ∷ 6 ∷ []) two_keys
two_keys-Queued = (refl, refl, (refl, (refl, refl)))

-- "a" without caps lock, and with shift the character of "6" on the key "5".
small_a : (press 30 two_keys).1 ≡ putc 97 ∷ []
unfolding press
small_a = refl

shifted_five : (press 6 two_keys).1 ≡ putc 94 ∷ []
unfolding press
shifted_five = refl

keyboard_buffer_read-Queued_example :
    (keyboard_buffer_read two_keys ≡ some (press 30 (taken two_keys)))
    × Queued (6 ∷ []) (press 30 (taken two_keys)).0
keyboard_buffer_read-Queued_example =
    keyboard_buffer_read-Queued 30 (6 ∷ []) two_keys two_keys-Queued (omega arith) (omega arith)
      (omega arith)
