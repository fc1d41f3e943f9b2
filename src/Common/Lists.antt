-- ===== src/Common/Lists.antt =====
-- C arrays: as functions of the index, and lists measured by native numbers.
use Prim.Native.Nat.{ℕ, zero, suc, ◌+◌}
use mathlib.Core.Path.{◌≡◌, ◌∙◌, refl, ap, subst}
use mathlib.Core.Logic.{◌≢◌}
use mathlib.Core.Option.{Option, none, some}
use mathlib.Core.List.{List, [], ◌∷◌, ◌++◌}
use native.Mathlib.Omega.{arith}
use krven_os.Common.Tests.{◌==◌, if◌then◌else◌}

module _ {ℓ} {A : Type ℓ} where
  -- `a[i] = v`
  abbrev pub update : (ℕ → A) → ℕ → A → ℕ → A
  update a i v j = if j == i then v else a j

  abbrev pub length : List A → ℕ
  length [] = 0
  length (x ∷ xs) = suc (length xs)

  abbrev pub get_elem? : List A → ℕ → Option A
  get_elem? [] i = none
  get_elem? (x ∷ xs) zero = some x
  get_elem? (x ∷ xs) (suc i) = get_elem? xs i

  pub length-append : (xs ys : List A) → length (xs ++ ys) ≡ length xs + length ys
  length-append [] ys = omega arith
  length-append (x ∷ xs) ys = omega (arith, length-append xs ys)

module _ {ℓ} {A : Type ℓ} where
  pub update_self : (a : ℕ → A) (i : ℕ) (v : A) → update a i v i ≡ v
  update_self a i v = ground arith

  pub update_ne : (a : ℕ → A) (i j : ℕ) (v : A) → j ≢ i → update a i v j ≡ a j
  update_ne a i j v h = ground arith

-- The elements from a place of an array on.
module _ {ℓ} {A : Type ℓ} where
  abbrev pub Holds : (ℕ → A) → ℕ → List A → Type ℓ
  Holds a i [] = a i ≡ a i
  Holds a i (x ∷ xs) = (a i ≡ x) × Holds a (suc i) xs

  pub Holds-append :
      (a : ℕ → A) (i : ℕ) (v : A) (xs : List A)
      → Holds a i xs
      → Holds (update a (i + length xs) v) i (xs ++ (v ∷ []))
  Holds-append a i v [] h =
      let e : i ≡ i + 0 = omega arith in (ap (update a (i + 0) v) e ∙ update_self a (i + 0) v, refl)
  Holds-append a i v (x ∷ xs) (here, later) =
      let e : suc i + length xs ≡ i + suc (length xs) = omega arith in
      let kept : update a (i + suc (length xs)) v i ≡ x =
        update_ne a (i + suc (length xs)) i v (omega arith) ∙ here in
      (
        kept,
        subst (λ t. Holds (update a t v) (suc i) (xs ++ (v ∷ []))) e
            (Holds-append a (suc i) v xs later),
      )
