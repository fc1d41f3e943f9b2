-- ===== src/Pmm/Init.antt =====
-- What `init_pmm` of mm/pmm.c puts on the stack of pages.
use krven_os.Common.{
  ℕ, ◌+◌, ◌-◌, ◌*◌, ◌/◌, ◌≤◌, ◌<◌, ◌≡◌, ap, ◌∙◌, arith, ◌==◌, false, ◌&&◌, Option, none, some, ltb,
  leb,
}
use krven_os.Pmm.{Pmm, pmm_max_size, alloc_pmm}
use krven_os.Common.{◌↔◌}
use krven_os.Pmm.Stack.{IsValid}
use krven_os.Pmm.Alloc.{page_count, taken, alloc_pmm_enough}

-- `m` pages from `addr` on lie above what the stack held, the lowest address deepest.
abbrev pub Pushed : (addr m : ℕ) → Pmm → Pmm → Type 0
Pushed addr m s s' =
    (s'.pmm_stack_top ≡ s.pmm_stack_top + m)
    × (s'.phy_page_count ≡ s.phy_page_count + m)
    × ((i : ℕ) → i < m → s'.pmm_stack (s.pmm_stack_top + 1 + i) ≡ addr + i * 4096)
    × ((j : ℕ) → j ≤ s.pmm_stack_top → s'.pmm_stack j ≡ s.pmm_stack j)

-- The loop has pushed every page from `addr` on that starts below `length` and not above 512 MB.
abbrev pub PageRun : (addr length : ℕ) → Pmm → Option (ℕ × Pmm) → Type 0
PageRun addr length s none = ⊥
PageRun addr length s (some (end, s')) =
    (m : ℕ) × (end ≡ addr + m * 4096)
    × Pushed addr m s s'
    × ((i : ℕ) → i < m → (addr + i * 4096 < length) × (addr + i * 4096 ≤ pmm_max_size))
    × ((ltb end length && leb end pmm_max_size) ≡ false)

-- The state after the usable entry: one page for every page-aligned address from behind the kernel that lies
-- below the end of the entry and not above 512 MB, in ascending order from place 1 of the stack.
abbrev pub Initialised : (size length : ℕ) → Option Pmm → Type 0
Initialised size length none = ⊥
Initialised size length (some s) =
    IsValid s
    × (s.phy_addr_start ≡ (0x100000 + size + 4096) / 4096 * 4096)
    × (s.phy_addr_end ≡ s.phy_addr_start + s.pmm_stack_top * 4096)
    × ((i : ℕ) → i < s.pmm_stack_top → s.pmm_stack (1 + i) ≡ s.phy_addr_start + i * 4096)
    × ((i : ℕ)
        → (i < s.pmm_stack_top) ↔ (
            (s.phy_addr_start + i * 4096 < 0x100000 + length)
            × (s.phy_addr_start + i * 4096 ≤ pmm_max_size)))

-- From a stack of ascending pages, as initialisation leaves it, `alloc_pmm` gives out a contiguous
-- region, and returns its lowest address.
pub alloc_pmm_contiguous :
    (size start : ℕ) (s : Pmm)
    → IsValid s
    → ((i : ℕ) → i < s.pmm_stack_top → s.pmm_stack (1 + i) ≡ start + i * 4096)
    → 0 < size
    → page_count size ≤ s.phy_page_count
    → let m = page_count size in
      let base = start + (s.pmm_stack_top - m) * 4096 in
      (alloc_pmm size s ≡ some (base, taken m s))
      × ((i : ℕ) → i < m → s.pmm_stack (s.pmm_stack_top - m + 1 + i) ≡ base + i * 4096)
alloc_pmm_contiguous size start s v up pos few =
    let m : ℕ = page_count size in
    let some_wanted : (m == 0) ≡ false = ground arith in
    let place : s.pmm_stack_top + 1 - m ≡ 1 + (s.pmm_stack_top - m) = omega arith in
    let base : s.pmm_stack (s.pmm_stack_top + 1 - m) ≡ start + (s.pmm_stack_top - m) * 4096 =
      rw place (up (s.pmm_stack_top - m) (omega arith)) in
    (
      alloc_pmm_enough size s v few ∙ rw some_wanted (ap (λ a. some (a, taken m s)) base),
      λ i h.
          let at_i : s.pmm_stack_top - m + 1 + i ≡ 1 + (s.pmm_stack_top - m + i) = omega arith in
          rw at_i (up (s.pmm_stack_top - m + i) (omega arith) ∙ omega arith),
    )
