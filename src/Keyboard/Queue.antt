-- ===== src/Keyboard/Queue.antt =====
-- The keyboard buffer as a queue of bytes.
use mathlib.Core.Path.{subst}
use krven_os.Common.{
  ℕ, suc, ◌+◌, ◌%◌, ◌<◌, ◌≡◌, ◌≢◌, ◌∙◌, ap, sym, refl, arith, true, false, some, List, [], ◌∷◌,
  ◌++◌, ltb, ◌==◌, update, Holds, Holds-append, length, length-append, ◌||◌, Bool-cases, inl, inr,
}
use krven_os.Keyboard.{
  Keyboard, keyboard_handler, keyboard_buffer_read, press, next_byte, after_first,
}

-- The buffer holds these bytes between its head and its tail.
abbrev pub Queued : List ℕ → Keyboard → Type 0
Queued xs kb = (kb.count ≡ length xs) × (kb.head + length xs ≡ kb.tail) × Holds kb.buf kb.head xs

-- Let the buffer hold fewer than 255 bytes, with the tail before the last place. An interrupt puts its
-- byte behind the bytes that the buffer holds, and leaves the flags.
pub keyboard_handler-Queued :
    (byte : ℕ) (xs : List ℕ) (kb : Keyboard)
    → Queued xs kb
    → length xs < 255
    → kb.tail < 1023
    → Queued (xs ++ (byte ∷ [])) (keyboard_handler byte kb)
      × ((keyboard_handler byte kb).caps_lock ≡ kb.caps_lock)
      × ((keyboard_handler byte kb).shift ≡ kb.shift)
unfolding keyboard_handler
keyboard_handler-Queued byte xs kb (count, place, held) room before =
    let test : ltb kb.count 1024 ≡ true = ground arith in
    let inside : (kb.tail + 1 == 1024) ≡ false = ground arith in
    let more : length (xs ++ (byte ∷ [])) ≡ length xs + 1 = length-append xs (byte ∷ []) in
    rw (test, inside, more)
      (
        (
          omega arith,
          omega arith,
          subst (λ t. Holds (update kb.buf t byte) kb.head (xs ++ (byte ∷ []))) place
              (Holds-append kb.buf kb.head byte xs held),
        ),
        refl,
        refl,
      )

press-Queued : (byte : ℕ) (xs : List ℕ) (kb : Keyboard) → Queued xs kb → Queued xs (press byte kb).0
unfolding press
press-Queued byte xs kb q = elim (Bool-cases (byte == 58)) [
  | inl t ↦ rw t q
  | inr f ↦ rw f (elim (Bool-cases ((byte == 42) || (byte == 54))) [
    | inl t ↦ rw t q
    | inr f ↦ rw f (elim (Bool-cases ((byte == 170) || (byte == 182))) [
      | inl t ↦ rw t q
      | inr f ↦ rw f (elim (Bool-cases (byte == 14)) [
        | inl t ↦ rw t q
        | inr f ↦ rw f (elim (Bool-cases (byte == 15)) [ inl t ↦ rw t q | inr f ↦ rw f q ])
      ])
    ])
  ])
]

-- The keyboard after the first byte has been taken from the buffer.
abbrev pub taken : Keyboard → Keyboard
taken kb = record kb { head = kb.head + 1; count = (kb.count + 255) % 256 }

read-plain :
    (kb : Keyboard)
    → 0 < kb.count
    → kb.head < 1024
    → kb.buf kb.head ≢ 224
    → keyboard_buffer_read kb ≡ some (press (kb.buf kb.head) (taken kb))
unfolding keyboard_buffer_read next_byte after_first
read-plain kb some_there inside plain =
    let there : ltb 0 kb.count ≡ true = ground arith in
    let in_buf : ltb kb.head 1024 ≡ true = ground arith in
    let other : (kb.buf kb.head == 224) ≡ false = ground arith in rw (there, in_buf, other) refl

-- Let the buffer hold `byte` and then `xs`, at most 255 bytes, with `byte` not 0xE0 and the head inside
-- the buffer. A read takes `byte`, the oldest one, does what `press` does for it, and leaves `xs`.
pub keyboard_buffer_read-Queued :
    (byte : ℕ) (xs : List ℕ) (kb : Keyboard)
    → Queued (byte ∷ xs) kb
    → length xs < 255
    → byte ≢ 224
    → kb.head < 1024
    → (keyboard_buffer_read kb ≡ some (press byte (taken kb))) × Queued xs (press byte (taken kb)).0
keyboard_buffer_read-Queued byte xs kb (count, place, (first, held)) room plain inside =
    let less : (kb.count + 255) % 256 ≡ length xs = omega arith in
    let next : suc kb.head ≡ kb.head + 1 = omega arith in
    let not_extended : kb.buf kb.head ≢ 224 = λ e. plain (sym first ∙ e) in
    (
      read-plain kb (omega arith) inside not_extended ∙ ap (λ b. some (press b (taken kb))) first,
      press-Queued byte xs (taken kb) (less, omega arith, subst (λ i. Holds kb.buf i xs) next held),
    )

-- With 255 bytes in the buffer the next interrupt wraps `count` to 0, and until another interrupt a read
-- takes nothing: the 256 bytes are lost.
pub keyboard_handler-lost :
    (byte : ℕ) (kb : Keyboard)
    → kb.count ≡ 255
    → keyboard_buffer_read (keyboard_handler byte kb) ≡ some (keyboard_handler byte kb, [])
unfolding keyboard_buffer_read keyboard_handler
keyboard_handler-lost byte kb full = rw full refl
