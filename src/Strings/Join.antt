-- ===== src/Strings/Join.antt =====
-- `memcpy` and `strcat` of libs/string.c.
use mathlib.Core.Path.{subst, fun_ext}
use krven_os.Common.{
  ℕ, zero, suc, ◌+◌, ◌<◌, ◌≤◌, ◌≡◌, ◌∙◌, ap, refl, arith, some, List, [], ◌∷◌, ◌++◌, update,
  update_self, update_ne, length, ◌⊎◌, inl, inr, ltb, sym, Bool-cases,
}
use krven_os.Strings.{memcpy, strcat, strcat_lengths, IsString, IsText}
use krven_os.Strings.Compare.{strlen-IsString}

-- `memcpy` changes nothing outside the places that it fills.
pub memcpy-outside :
    (len dest src : ℕ) (to from : ℕ → ℕ) (j : ℕ)
    → (j < dest) ⊎ (dest + len ≤ j)
    → memcpy len dest src to from j ≡ to j
unfolding memcpy
memcpy-outside zero dest src to from j out = refl
memcpy-outside (suc len) dest src to from j (inl below) =
    memcpy-outside len (suc dest) (suc src) (update to dest (from src)) from j (inl (omega arith))
    ∙ update_ne to dest j (from src) (omega arith)
memcpy-outside (suc len) dest src to from j (inr above) =
    memcpy-outside len (suc dest) (suc src) (update to dest (from src)) from j (inr (omega arith))
    ∙ update_ne to dest j (from src) (omega arith)

-- Copied behind the characters that it has, with a zero behind it, a text is that of the string there.
memcpy-IsString :
    (dest src : ℕ) (to from : ℕ → ℕ) (t : List ℕ)
    → IsString from src t
    → IsString (update (memcpy (length t) dest src to from) (dest + length t) 0) dest t
unfolding memcpy
memcpy-IsString dest src to from [] s =
    let e : dest ≡ dest + 0 = omega arith in
    ap (update to (dest + 0) 0) e ∙ update_self to (dest + 0) 0
memcpy-IsString dest src to from (c ∷ t) (first, later) =
    let e : suc dest + length t ≡ dest + suc (length t) = omega arith in
    let to' : ℕ → ℕ = update to dest (from src) in
    (
      update_ne (memcpy (length t) (suc dest) (suc src) to' from) (dest + suc (length t)) dest 0
            (omega arith)
          ∙ memcpy-outside (length t) (suc dest) (suc src) to' from dest (inl (omega arith))
          ∙ update_self to dest (from src)
          ∙ first,
      subst
          (λ j.
            IsString (update (memcpy (length t) (suc dest) (suc src) to' from) j 0) (suc dest) t)
          e (memcpy-IsString (suc dest) (suc src) to' from t later),
    )

-- A text stays where only places outside it change.
IsString-prefix :
    (str str' : ℕ → ℕ) (i : ℕ) (s t : List ℕ)
    → IsString str i s
    → ((j : ℕ) → j < i + length s → str' j ≡ str j)
    → IsString str' (i + length s) t
    → IsString str' i (s ++ t)
IsString-prefix str str' i [] t first kept second =
    let e : i + 0 ≡ i = omega arith in subst (λ j. IsString str' j t) e second
IsString-prefix str str' i (c ∷ s) t (here, later) kept second =
    let e : i + suc (length s) ≡ suc i + length s = omega arith in
    (
      kept i (omega arith) ∙ here,
      IsString-prefix str str' (suc i) s t later (λ j h. kept j (omega arith))
          (subst (λ j. IsString str' j t) e second),
    )

-- For strings that end within the fuel, `strcat` makes the string of the one text followed by the other.
pub strcat-IsString :
    (n : ℕ) (str1 str2 : ℕ → ℕ) (s t : List ℕ)
    → IsString str1 0 s
    → IsString str2 0 t
    → IsText s
    → IsText t
    → length s < n
    → length t < n
    → (str : ℕ → ℕ) × (strcat n str1 str2 ≡ some str) × IsString str 0 (s ++ t)
unfolding strcat strcat_lengths
strcat-IsString n str1 str2 s t first second left right h k =
    let joined : ℕ → ℕ =
      update (memcpy (length t) (length s) 0 str1 str2) (length s + length t) 0 in
    let zero_start : length s ≡ 0 + length s = omega arith in
    (
      joined,
      rw (strlen-IsString n str1 s first left h, strlen-IsString n str2 t second right k) refl,
      IsString-prefix str1 joined 0 s t first
          (λ j below.
            update_ne (memcpy (length t) (length s) 0 str1 str2) (length s + length t) j 0
              (omega arith)
            ∙ memcpy-outside (length t) (length s) 0 str1 str2 j (inl (omega arith)))
          (subst (λ j. IsString joined j t) zero_start
            (memcpy-IsString (length s) 0 str1 str2 t second)),
    )

-- `memcpy` fills its places from the source.
pub memcpy-inside :
    (len dest src : ℕ) (to from : ℕ → ℕ) (k : ℕ)
    → k < len
    → memcpy len dest src to from (dest + k) ≡ from (src + k)
unfolding memcpy
memcpy-inside zero dest src to from k h = absurd (omega arith)
memcpy-inside (suc len) dest src to from zero h =
    let e : dest + 0 ≡ dest = omega arith in
    let f : src + 0 ≡ src = omega arith in
    rw (e, f)
      (memcpy-outside len (suc dest) (suc src) (update to dest (from src)) from dest
          (inl (omega arith))
        ∙ update_self to dest (from src))
memcpy-inside (suc len) dest src to from (suc k) h =
    let e : dest + suc k ≡ suc dest + k = omega arith in
    let f : src + suc k ≡ suc src + k = omega arith in
    rw (e, f)
      (memcpy-inside len (suc dest) (suc src) (update to dest (from src)) from k (omega arith))

pub memcpy-start : (len : ℕ) (to from : ℕ → ℕ) (k : ℕ) → k < len → memcpy len 0 0 to from k ≡ from k
memcpy-start len to from k h =
    let e : 0 + k ≡ k = omega arith in
    subst (λ i. memcpy len 0 0 to from i ≡ from i) e (memcpy-inside len 0 0 to from k h)

-- What a longer `memcpy` overwrites does not matter.
pub memcpy-covers :
    (n l l' : ℕ) (to from from' : ℕ → ℕ) (over : ℕ → ℕ)
    → l ≤ n
    → l' ≤ n
    → memcpy n 0 0 (memcpy l 0 0 to from) over ≡ memcpy n 0 0 (memcpy l' 0 0 to from') over
memcpy-covers n l l' to from from' over h h' = fun_ext λ (j : ℕ). elim (Bool-cases (ltb j n)) [
  | inl below ↦
      let k : j < n = ground arith in
      memcpy-start n (memcpy l 0 0 to from) over j k
      ∙ sym (memcpy-start n (memcpy l' 0 0 to from') over j k)
  | inr above ↦
      let k : n ≤ j = ground arith in
      memcpy-outside n 0 0 (memcpy l 0 0 to from) over j (inr (omega arith))
      ∙ memcpy-outside l 0 0 to from j (inr (omega arith))
      ∙ sym (memcpy-outside l' 0 0 to from' j (inr (omega arith)))
      ∙ sym (memcpy-outside n 0 0 (memcpy l' 0 0 to from') over j (inr (omega arith)))
]

-- A string stays where its characters and its zero do.
pub IsString-agree :
    (str str' : ℕ → ℕ) (i : ℕ) (t : List ℕ)
    → IsString str i t
    → ((j : ℕ) → j ≤ i + length t → str' j ≡ str j)
    → IsString str' i t
IsString-agree str str' i [] s kept = kept i (omega arith) ∙ s
IsString-agree str str' i (c ∷ t) (here, later) kept = (
  kept i (omega arith) ∙ here,
  IsString-agree str str' (suc i) t later (λ j h. kept j (omega arith)),
)

-- A string that is copied with its zero.
pub memcpy-IsString_copy :
    (l : ℕ) (to from : ℕ → ℕ) (t : List ℕ)
    → length t ≡ l
    → IsString from 0 t
    → IsString (memcpy (l + 1) 0 0 to from) 0 t
memcpy-IsString_copy l to from t e s =
    IsString-agree from (memcpy (l + 1) 0 0 to from) 0 t s
      (λ j h. memcpy-start (l + 1) to from j (omega arith))

pub IsText-append : (s t : List ℕ) → IsText s → IsText t → IsText (s ++ t)
IsText-append [] t first second = second
IsText-append (c ∷ s) t (low, high, first) second = (low, high, IsText-append s t first second)
