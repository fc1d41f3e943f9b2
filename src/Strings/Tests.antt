-- ===== src/Strings/Tests.antt =====
-- Runs of libs/string.c at concrete inputs.
use krven_os.Common.{ℕ, zero, suc, ◌≡◌, refl, arith, some, [], ◌∷◌}
use krven_os.Strings.{strcmp, IsText}
use krven_os.Strings.Compare.{Compares, strcmp-Compares}

-- "ab" and "b"
abbrev str_ab : ℕ → ℕ
str_ab zero = 97
str_ab (suc zero) = 98
str_ab (suc (suc i)) = 0

abbrev str_b : ℕ → ℕ
str_b zero = 98
str_b (suc i) = 0

ab-IsText : IsText (97 ∷ 98 ∷ [])
ab-IsText = (omega arith, omega arith, (omega arith, omega arith, omega arith))

b-IsText : IsText (98 ∷ [])
b-IsText = (omega arith, omega arith, omega arith)

strcmp-Compares_example :
    (r : ℕ) × (strcmp 24 str_ab str_b ≡ some r) × Compares (97 ∷ 98 ∷ []) (98 ∷ []) r
strcmp-Compares_example =
    strcmp-Compares 24 str_ab str_b (97 ∷ 98 ∷ []) (98 ∷ []) (refl, (refl, refl)) (refl, refl)
      ab-IsText b-IsText (omega arith) (omega arith)
