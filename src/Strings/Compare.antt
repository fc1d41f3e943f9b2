-- ===== src/Strings/Compare.antt =====
-- `strlen` and `strcmp` of libs/string.c on strings with a known text.
use krven_os.Common.{
  ℕ, zero, suc, ◌+◌, ◌<◌, ◌≡◌, ◌≢◌, ◌∙◌, ◌⊎◌, ap, refl, arith, max, some, List, [], ◌∷◌, ◌==◌,
  length, Bool-cases, true, false, inl, inr,
}
use krven_os.Strings.{
  strlen_loop, strlen, difference, strcmp_loop, compare_lengths, strcmp, IsString, IsText,
  string_text,
}

strlen_loop-IsString :
    (n i : ℕ) (str : ℕ → ℕ) (t : List ℕ)
    → IsString str i t
    → IsText t
    → length t < n
    → strlen_loop n i str ≡ some (i + length t)
unfolding strlen_loop
strlen_loop-IsString zero i str t s text h = absurd (omega arith)
strlen_loop-IsString (suc n) i str [] s text h =
    let e : (str i == 0) ≡ true = ground arith in rw e (ap some (omega arith))
strlen_loop-IsString (suc n) i str (c ∷ t) (first, later) (low, high, text) h =
    let e : (str i == 0) ≡ false = ground arith in
    rw e (strlen_loop-IsString n (suc i) str t later text (omega arith) ∙ ap some (omega arith))

-- The length that is found is that of the text.
pub strlen-IsString :
    (n : ℕ) (str : ℕ → ℕ) (t : List ℕ)
    → IsString str 0 t
    → IsText t
    → length t < n
    → strlen n str ≡ some (length t)
unfolding strlen
strlen-IsString n str t s text h = strlen_loop-IsString n 0 str t s text h ∙ ap some (omega arith)

difference-zero : (c d : ℕ) → c < 256 → d < 256 → difference c d ≡ 0 → c ≡ d
difference-zero c d h k e = ground arith

difference_self : (c : ℕ) → c < 256 → difference c c ≡ 0
difference_self c h = ground arith

-- The text of a string is read up to its closing zero.
pub string_text-IsString :
    (n i : ℕ) (cstr : ℕ → ℕ) (t : List ℕ)
    → IsString cstr i t
    → IsText t
    → length t < n
    → string_text n i cstr ≡ some t
unfolding string_text
string_text-IsString zero i cstr t s text h = absurd (omega arith)
string_text-IsString (suc n) i cstr [] s text h =
    let e : (cstr i == 0) ≡ true = ground arith in rw e refl
string_text-IsString (suc n) i cstr (c ∷ t) (first, later) (low, high, text) h =
    let e : (cstr i == 0) ≡ false = ground arith in
    rw (e, string_text-IsString n (suc i) cstr t later text (omega arith), first) refl

head : ℕ → List ℕ → ℕ
head d [] = d
head d (c ∷ t) = c

tail : List ℕ → List ℕ
tail [] = []
tail (c ∷ t) = t

-- The result is 0 for equal texts and another number for different ones.
abbrev pub Compares : (s t : List ℕ) → ℕ → Type 0
Compares s t r = ((r ≡ 0) × (s ≡ t)) ⊎ ((r ≢ 0) × (s ≢ t))

Compares-tail : (c d r : ℕ) (s t : List ℕ) → c ≡ d → Compares s t r → Compares (c ∷ s) (d ∷ t) r
unfolding tail
Compares-tail c d r s t e (inl (zero_result, same)) =
    inl (zero_result, ap (λ x. x ∷ s) e ∙ ap (λ u. d ∷ u) same)
Compares-tail c d r s t e (inr (result, differ)) = inr (result, λ same. differ (ap tail same))

strcmp_loop-Compares :
    (n i : ℕ) (str1 str2 : ℕ → ℕ) (s t : List ℕ)
    → IsString str1 i s
    → IsString str2 i t
    → IsText s
    → IsText t
    → max (length s) (length t) ≡ n
    → Compares s t (strcmp_loop n i str1 str2)
unfolding strcmp_loop head
strcmp_loop-Compares zero i str1 str2 [] [] first second left right h = inl (refl, refl)
strcmp_loop-Compares (suc n) i str1 str2 [] [] first second left right h = absurd (omega arith)
strcmp_loop-Compares zero i str1 str2 [] (d ∷ t) first second left right h = absurd (omega arith)
strcmp_loop-Compares zero i str1 str2 (c ∷ s) t first second left right h = absurd (omega arith)
strcmp_loop-Compares (suc n) i str1 str2 [] (d ∷ t) first (same, second) left (low, high, right) h =
    let differ : difference (str1 i) (str2 i) ≢ 0 = ground arith in
    let e : (difference (str1 i) (str2 i) == 0) ≡ false = ground arith in
    inr (rw e differ, λ same. absurd (omega (arith, ap length same)))
strcmp_loop-Compares (suc n) i str1 str2 (c ∷ s) [] (same, first) second (low, high, left) right h =
    let differ : difference (str1 i) (str2 i) ≢ 0 = ground arith in
    let e : (difference (str1 i) (str2 i) == 0) ≡ false = ground arith in
    inr (rw e differ, λ same. absurd (omega (arith, ap length same)))
strcmp_loop-Compares (suc n) i str1 str2 (c ∷ s) (d ∷ t) (at1, first) (at2, second)
      (low, high, left) (low', high', right) h =
    elim (Bool-cases (c == d)) [
      | inl equal ↦
          let same : c ≡ d = ground arith in
          let e : (difference (str1 i) (str2 i) == 0) ≡ true =
            rw (at1, at2, same, difference_self d high') refl in
          rw e (
            Compares-tail c d (strcmp_loop n (suc i) str1 str2) s t same
              (strcmp_loop-Compares n (suc i) str1 str2 s t first second left right (omega arith)))
      | inr other ↦
          let differ : difference (str1 i) (str2 i) ≢ 0 = ground arith in
          let e : (difference (str1 i) (str2 i) == 0) ≡ false = ground arith in
          let unequal : c ≢ d = ground arith in
          inr (rw e differ, λ same. unequal (ap (head 0) same))
    ]

-- For strings that end within the fuel, `strcmp` returns 0 exactly when the texts are equal.
pub strcmp-Compares :
    (n : ℕ) (str1 str2 : ℕ → ℕ) (s t : List ℕ)
    → IsString str1 0 s
    → IsString str2 0 t
    → IsText s
    → IsText t
    → length s < n
    → length t < n
    → (r : ℕ) × (strcmp n str1 str2 ≡ some r) × Compares s t r
unfolding strcmp compare_lengths
strcmp-Compares n str1 str2 s t first second left right h k =
    let rounds : ℕ = max (length s) (length t) in
    (
      strcmp_loop rounds 0 str1 str2,
      rw (strlen-IsString n str1 s first left h, strlen-IsString n str2 t second right k) refl,
      strcmp_loop-Compares rounds 0 str1 str2 s t first second left right refl,
    )
