-- ===== src/Pmm/Alloc.antt =====
-- `alloc_pmm` of mm/pmm.c.
use krven_os.Common.{
  ℕ, zero, suc, ◌+◌, ◌-◌, ◌/◌, ◌^◌, ◌≤◌, ◌<◌, ◌≡◌, ◌≢◌, ◌∙◌, arith, ◌==◌, if◌then◌else◌, false,
  Option, some, Bool-cases, inl, inr,
}
use krven_os.Pmm.{Pmm, dec32, alloc_loop, alloc_pmm}
use krven_os.Pmm.Stack.{IsValid}

-- The pages that a size takes.
abbrev pub page_count : ℕ → ℕ
page_count size = (size + 4095) / 4096

alloc_loop-short :
    (n size addr mark cnt : ℕ) (s : Pmm)
    → size < n
    → s.phy_page_count < 2 ^ 32
    → s.phy_page_count < page_count size
    → alloc_loop n size addr mark cnt s
      ≡ some (0, record s { pmm_stack_top = mark; phy_page_count = cnt })
unfolding alloc_loop
alloc_loop-short zero size addr mark cnt s h small few = absurd (omega arith)
alloc_loop-short (suc n) size addr mark cnt s h small few =
    let more : (size == 0) ≡ false = ground arith in
    elim (Bool-cases (s.phy_page_count == 0)) [
      | inl out ↦ rw (more, out)
      | inr left ↦
          let some_left : s.phy_page_count ≢ 0 = ground arith in
          rw (more, left)
            (alloc_loop-short n (size - 4096) (s.pmm_stack s.pmm_stack_top) mark cnt
              (record s {
                pmm_stack_top = dec32 s.pmm_stack_top;
                phy_page_count = dec32 s.phy_page_count;
              })
              (omega arith) (omega arith) (omega arith))
    ]

-- With too few free pages `alloc_pmm` returns 0 and leaves the allocator as it was.
pub alloc_pmm_fail :
    (size : ℕ) (s : Pmm)
    → s.phy_page_count < 2 ^ 32
    → s.phy_page_count < page_count size
    → alloc_pmm size s ≡ some (0, s)
unfolding alloc_pmm
alloc_pmm_fail size s small few =
    alloc_loop-short (suc size) size 0 s.pmm_stack_top s.phy_page_count s (omega arith) small few

-- The allocator with `m` pages taken.
abbrev pub taken : ℕ → Pmm → Pmm
taken m s = record s { pmm_stack_top = s.pmm_stack_top - m; phy_page_count = s.phy_page_count - m }

abbrev pub last_page : (m addr : ℕ) → Pmm → ℕ
last_page m addr s = if m == 0 then addr else s.pmm_stack (s.pmm_stack_top + 1 - m)

-- What a successful call of `alloc_pmm` for `m` pages returns.
abbrev pub allocated : (m addr : ℕ) → Pmm → Option (ℕ × Pmm)
allocated m addr s = some (last_page m addr s, taken m s)

taken-step :
    (size addr : ℕ) (s : Pmm)
    → s.pmm_stack_top < 2 ^ 32
    → s.phy_page_count ≤ s.pmm_stack_top
    → size ≢ 0
    → page_count size ≤ s.phy_page_count
    → let m = page_count (size - 4096) in
      let s₁ : Pmm = record s {
        pmm_stack_top = dec32 s.pmm_stack_top;
        phy_page_count = dec32 s.phy_page_count;
      } in
      allocated m (s.pmm_stack s.pmm_stack_top) s₁ ≡ allocated (page_count size) addr s
taken-step size addr s small le some_wanted few =
    let m' : page_count size ≡ suc (page_count (size - 4096)) = omega arith in
    let top : dec32 s.pmm_stack_top ≡ s.pmm_stack_top - 1 = omega arith in
    let count : dec32 s.phy_page_count ≡ s.phy_page_count - 1 = omega arith in
    let at : s.pmm_stack_top - 1 + 1 - page_count (size - 4096)
        ≡ s.pmm_stack_top - page_count (size - 4096) =
      omega arith in
    rw (m', top, count) (ground arith)

alloc_loop-enough :
    (n size addr mark cnt : ℕ) (s : Pmm)
    → size < n
    → s.pmm_stack_top < 2 ^ 32
    → s.phy_page_count ≤ s.pmm_stack_top
    → page_count size ≤ s.phy_page_count
    → alloc_loop n size addr mark cnt s ≡ allocated (page_count size) addr s
unfolding alloc_loop
alloc_loop-enough zero size addr mark cnt s h small le few = absurd (omega arith)
alloc_loop-enough (suc n) size addr mark cnt s h small le few = elim (Bool-cases (size == 0)) [
  | inl done ↦
      let none_wanted : page_count size ≡ 0 = ground arith in rw (done, none_wanted) (ground arith)
  | inr more ↦
      let some_wanted : size ≢ 0 = ground arith in
      let left : (s.phy_page_count == 0) ≡ false = ground arith in
      rw (more, left)
        (alloc_loop-enough n (size - 4096) (s.pmm_stack s.pmm_stack_top) mark cnt
            (record s {
              pmm_stack_top = dec32 s.pmm_stack_top;
              phy_page_count = dec32 s.phy_page_count;
            })
            (omega arith) (omega arith) (omega arith) (omega arith)
          ∙ taken-step size addr s small le some_wanted few)
]

-- With enough free pages `alloc_pmm` takes one page for each 4096 bytes begun, from the top of the
-- stack, and returns the last that it takes (0 for a size of 0). The places of the stack stay.
pub alloc_pmm_enough :
    (size : ℕ) (s : Pmm)
    → IsValid s
    → page_count size ≤ s.phy_page_count
    → alloc_pmm size s ≡ allocated (page_count size) 0 s
unfolding alloc_pmm
alloc_pmm_enough size s v few =
    alloc_loop-enough (suc size) size 0 s.pmm_stack_top s.phy_page_count s (omega arith)
      (omega arith) (omega arith) few
