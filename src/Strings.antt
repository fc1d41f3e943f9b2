-- ===== src/Strings.antt =====
-- The strings of libs/string.c. A `char *` is a function from the index to the byte; a loop to the closing
-- zero takes fuel, and `none` is a string that has not ended.
pub mod Compare
pub mod Join
mod Tests
use krven_os.Common.{
  ℕ, zero, suc, ◌+◌, ◌-◌, ◌%◌, ◌^◌, ◌<◌, ◌≡◌, max, Option, none, some, List, [], ◌∷◌, ◌==◌,
  if◌then◌else◌, update,
}
use krven_os.Format.{char_value}

-- The places from `dest` on, and those from `src` on.
unfoldable pub memcpy : (len dest src : ℕ) → (to from : ℕ → ℕ) → ℕ → ℕ
memcpy zero dest src to from = to
memcpy (suc len) dest src to from = memcpy len (suc dest) (suc src) (update to dest (from src)) from

unfoldable pub memset : (len dest val : ℕ) → (ℕ → ℕ) → ℕ → ℕ
memset zero dest val to = to
memset (suc len) dest val to = memset len (suc dest) val (update to dest val)

unfoldable pub strlen_loop : (n i : ℕ) (str : ℕ → ℕ) → Option ℕ
strlen_loop zero i str = none
strlen_loop (suc n) i str =
    let rest = strlen_loop n (suc i) str in if str i == 0 then some i else rest

unfoldable pub strlen : (n : ℕ) (str : ℕ → ℕ) → Option ℕ
unfolding strlen_loop
strlen n str = strlen_loop n 0 str

-- The characters of a string, within the fuel.
unfoldable pub string_text : (n i : ℕ) (cstr : ℕ → ℕ) → Option (List ℕ)
string_text zero i cstr = none
string_text (suc n) i cstr =
    let rest : Option (List ℕ) = elim (string_text n (suc i) cstr) [
      | none ↦ none
      | some t ↦ some (cstr i ∷ t)
    ] in
    if cstr i == 0 then some [] else rest

-- `tmp`, an `int` by its 32 bits.
abbrev pub difference : (c d : ℕ) → ℕ
difference c d = (char_value c + (2 ^ 32 - char_value d)) % 2 ^ 32

-- The rounds left of the loop of `strcmp`.
unfoldable pub strcmp_loop : (n i : ℕ) (str1 str2 : ℕ → ℕ) → ℕ
strcmp_loop zero i str1 str2 = 0
strcmp_loop (suc n) i str1 str2 =
    let rest = strcmp_loop n (suc i) str1 str2 in
    let tmp = difference (str1 i) (str2 i) in if tmp == 0 then rest else tmp

unfoldable pub compare_lengths : (str1 str2 : ℕ → ℕ) → Option ℕ → Option ℕ → Option ℕ
unfolding strcmp_loop
compare_lengths str1 str2 none l = none
compare_lengths str1 str2 (some len1) none = none
compare_lengths str1 str2 (some len1) (some len2) = some (strcmp_loop (max len1 len2) 0 str1 str2)

unfoldable pub strcmp : (n : ℕ) (str1 str2 : ℕ → ℕ) → Option ℕ
unfolding compare_lengths strlen
strcmp n str1 str2 = compare_lengths str1 str2 (strlen n str1) (strlen n str2)

unfoldable pub strcat_lengths : (str1 str2 : ℕ → ℕ) → Option ℕ → Option ℕ → Option (ℕ → ℕ)
unfolding memcpy
strcat_lengths str1 str2 none l = none
strcat_lengths str1 str2 (some l1) none = none
strcat_lengths str1 str2 (some l1) (some l2) = some (update (memcpy l2 l1 0 str1 str2) (l1 + l2) 0)

-- `strcat` of a string that lies elsewhere.
unfoldable pub strcat : (n : ℕ) (str1 str2 : ℕ → ℕ) → Option (ℕ → ℕ)
unfolding strcat_lengths strlen
strcat n str1 str2 = strcat_lengths str1 str2 (strlen n str1) (strlen n str2)

-- The string from a place on, up to its closing zero, is this text.
abbrev pub IsString : (str : ℕ → ℕ) (i : ℕ) → List ℕ → Type 0
IsString str i [] = str i ≡ 0
IsString str i (c ∷ t) = (str i ≡ c) × IsString str (suc i) t

-- The characters of a text: bytes other than zero.
abbrev pub IsText : List ℕ → Type 0
IsText [] = 0 < 1
IsText (c ∷ t) = (0 < c) × (c < 256) × IsText t
