-- ===== src/Pmm/Stack.antt =====
-- The allocator of mm/pmm.c as a stack of pages.
use krven_os.Common.{
  ℕ, zero, suc, ◌+◌, ◌-◌, ◌%◌, ◌^◌, ◌≤◌, ◌<◌, ◌≡◌, ap, refl, List, [], ◌∷◌, arith, update,
}
use krven_os.Pmm.{Pmm, page_max_size, pmm_alloc_page, pmm_free_page}

-- The count is the height of the stack, and the stack fits into its array.
pub record IsValid (s : Pmm) : Type 0 where
  pub counted : s.phy_page_count ≡ s.pmm_stack_top
  pub fits : s.pmm_stack_top ≤ page_max_size

-- The free pages, the next to be given out first.
abbrev pub stacked : (ℕ → ℕ) → ℕ → List ℕ
stacked stack zero = []
stacked stack (suc n) = stack (suc n) ∷ stacked stack n

abbrev pub pages : Pmm → List ℕ
pages s = stacked s.pmm_stack s.pmm_stack_top

-- A write above the top is not seen.
stacked-update :
    (stack : ℕ → ℕ) (n i p : ℕ) → n < i → stacked (update stack i p) n ≡ stacked stack n
stacked-update stack zero i p h = refl
stacked-update stack (suc n) i p h = ground (arith, stacked-update stack n i p)

-- Freeing a page puts it on top of the free pages and keeps the invariant, while there is room.
pub pmm_free_page_lem :
    (p : ℕ) (s : Pmm)
    → IsValid s
    → s.pmm_stack_top < page_max_size
    → (pages (pmm_free_page p s) ≡ p ∷ pages s) × IsValid (pmm_free_page p s)
unfolding pmm_free_page
pmm_free_page_lem p s v h =
    let top : (s.pmm_stack_top + 1) % 2 ^ 32 ≡ suc s.pmm_stack_top = omega arith in
    (
      rw top (ground (arith, stacked-update s.pmm_stack s.pmm_stack_top (suc s.pmm_stack_top) p)),
      omega arith,
    )

-- Allocating a page takes the top one of the free pages and keeps the invariant, while there is one.
pub pmm_alloc_page_lem :
    (s : Pmm)
    → IsValid s
    → 0 < s.phy_page_count
    → let (page, s') = pmm_alloc_page s in (pages s ≡ page ∷ pages s') × IsValid s'
unfolding pmm_alloc_page
pmm_alloc_page_lem s v h =
    let top : s.pmm_stack_top ≡ suc (s.pmm_stack_top - 1) = omega arith in
    let low : (s.pmm_stack_top + 2 ^ 32 - 1) % 2 ^ 32 ≡ s.pmm_stack_top - 1 = omega arith in
    (rw low (pop s.pmm_stack_top (omega arith)), omega arith)
  where
    pop : (n : ℕ) → 0 < n → stacked s.pmm_stack n ≡ s.pmm_stack n ∷ stacked s.pmm_stack (n - 1)
    pop zero lt = absurd (omega arith)
    pop (suc n) lt = ap (λ m. s.pmm_stack (suc n) ∷ stacked s.pmm_stack m) (omega arith)

-- Without a test for an empty stack: an allocation from it returns what stands at place 0, and leaves
-- a count and a top of 2 ^ 32 - 1, so the invariant is lost.
pub pmm_alloc_page_empty :
    (s : Pmm)
    → s.phy_page_count ≡ 0
    → s.pmm_stack_top ≡ 0
    → let (page, s') = pmm_alloc_page s in
      (page ≡ s.pmm_stack 0) × (s'.phy_page_count ≡ 2 ^ 32 - 1) × ¬ (IsValid s')
unfolding pmm_alloc_page
pmm_alloc_page_empty s c t = (ap s.pmm_stack t, omega arith, λ v. absurd (omega (arith, v.fits)))
