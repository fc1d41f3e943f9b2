-- ===== src/Keyboard/Typable.antt =====
-- The characters that driver/keyboard.c sends to the terminals of tty/tty.c.
use krven_os.Common.{
  ℕ, ◌+◌, ◌-◌, ◌<◌, ◌≡◌, arith, Bool, true, false, ◌&&◌, ◌||◌, refl, List, [], ◌∷◌, ◌++◌, leb, ◌==◌,
  if◌then◌else◌, Bool-cases, inl, inr,
}
use krven_os.Keyboard.{
  Keymap, Keyboard, Output, putc, write, keymap, shift_case, shift_cases, translate, print_loop,
  tab_blank, press,
}
use krven_os.Tty.Ranges.{Typable, AreTypable}

-- The characters, one behind the other.
unfoldable pub typed_by : List Output → List ℕ
typed_by [] = []
typed_by (putc c ∷ outputs) = c ∷ typed_by outputs
typed_by (write cstr ∷ outputs) = cstr ++ typed_by outputs

ShiftTypable : List (ℕ × ℕ) → Type 0
ShiftTypable [] = 0 < 1
ShiftTypable ((from, to) ∷ rest) = (to < 128) × ShiftTypable rest

shift_case-Typable :
    (cases : List (ℕ × ℕ)) (ascii : ℕ)
    → ShiftTypable cases
    → Typable ascii
    → Typable (shift_case cases ascii)
unfolding shift_case ShiftTypable
shift_case-Typable [] ascii small safe = safe
shift_case-Typable ((from, to) ∷ rest) ascii (first, small) safe =
    elim (Bool-cases (ascii == from)) [
      | inl this ↦ rw this (inl first)
      | inr other ↦ rw other (shift_case-Typable rest ascii small safe)
    ]

shift_cases-ShiftTypable : ShiftTypable shift_cases
unfolding ShiftTypable
shift_cases-ShiftTypable = omega arith

translate-Typable :
    (caps_lock shift ascii : ℕ) → Typable ascii → Typable (translate caps_lock shift ascii)
unfolding translate
translate-Typable caps_lock shift ascii safe =
    let lower =
      if leb 65 ascii && leb ascii 90 && (caps_lock == 0) then ascii - 65 + 97 else ascii in
    let safe' : Typable lower =
      elim (Bool-cases (leb 65 ascii && leb ascii 90 && (caps_lock == 0))) [
        | inl upper ↦ rw upper (inl (ground arith))
        | inr other ↦ rw other safe
      ] in
    elim (Bool-cases (shift == 0)) [
      | inl plain ↦ rw plain safe'
      | inr shifted ↦
          rw shifted (shift_case-Typable shift_cases lower shift_cases-ShiftTypable safe')
    ]

KeysTypable : List Keymap → Type 0
KeysTypable [] = 0 < 1
KeysTypable (k ∷ rest) = Typable k.ascii × KeysTypable rest

print_loop-AreTypable :
    (keys : List Keymap) (byte1 byte2 caps_lock shift : ℕ)
    → KeysTypable keys
    → AreTypable (typed_by (print_loop keys byte1 byte2 caps_lock shift))
unfolding print_loop typed_by KeysTypable
print_loop-AreTypable [] byte1 byte2 caps_lock shift safe = safe
print_loop-AreTypable (k ∷ rest) byte1 byte2 caps_lock shift (first, safe) =
    let later = print_loop-AreTypable rest byte1 byte2 caps_lock shift safe in
    elim (Bool-cases ((k.make_1 == byte1) && (k.make_2 == byte2))) [
      | inl this ↦ rw this (translate-Typable caps_lock shift k.ascii first, later)
      | inr other ↦ rw other later
    ]

-- The test of the whole table.
all_typable : List Keymap → Bool
all_typable [] = true
all_typable (k ∷ rest) = (if leb 128 k.ascii then leb 253 k.ascii else true) && all_typable rest

all_typable-KeysTypable : (keys : List Keymap) → all_typable keys ≡ true → KeysTypable keys
unfolding all_typable KeysTypable
all_typable-KeysTypable [] e = omega arith
all_typable-KeysTypable (k ∷ rest) e = (
  elim (Bool-cases (leb 128 k.ascii)) [
    | inl negative ↦ inr (ground arith)
    | inr other ↦ inl (ground arith)
  ],
  all_typable-KeysTypable rest (ground arith),
)

keymap-KeysTypable : KeysTypable keymap
unfolding keymap all_typable
keymap-KeysTypable = all_typable-KeysTypable keymap refl

either_typable :
    (b : Bool) (x y : Keyboard × List Output)
    → AreTypable (typed_by x.1)
    → AreTypable (typed_by y.1)
    → AreTypable (typed_by (if b then x else y).1)
either_typable true x y first second = first
either_typable false x y first second = second

-- Whatever key is pressed, and in whatever state, what the keyboard sends are characters, or -1, -2 and -3.
pub press-AreTypable : (byte1 : ℕ) (kb : Keyboard) → AreTypable (typed_by (press byte1 kb).1)
unfolding press typed_by
press-AreTypable byte1 kb = either_typable (byte1 == 58) _ _ (omega arith) (
    either_typable ((byte1 == 42) || (byte1 == 54)) _ _ (omega arith) (
      either_typable ((byte1 == 170) || (byte1 == 182)) _ _ (omega arith) (
        either_typable (byte1 == 14) _ _ (inl (omega arith), omega arith)
          (either_typable (byte1 == 15) _ _ blanks
            (print_loop-AreTypable keymap byte1 0 kb.caps_lock kb.shift keymap-KeysTypable)))))
  where
    blanks : AreTypable (tab_blank ++ [])
    blanks = (
      inl (omega arith),
      (inl (omega arith), (inl (omega arith), (inl (omega arith), omega arith))),
    )
