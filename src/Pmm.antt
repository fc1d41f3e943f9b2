-- ===== src/Pmm.antt =====
-- The physical page allocator: mm/pmm.c, include/pmm.h. All fields are `uint32_t`. The array
-- `pmm_stack` has `page_max_size + 1` places; the model's has no end. An `int` size that is negative is a size of zero here, as no loop runs.
pub mod Stack
pub mod Alloc
pub mod Init
mod Tests
use krven_os.Common.{
  ℕ, zero, suc, ◌+◌, ◌-◌, ◌*◌, ◌%◌, ◌^◌, bit_and, update, Bool, true, false, ◌&&◌, Option, none,
  some, ltb, leb, ◌==◌, if◌then◌else◌,
}

pub record Pmm : Type 0 where
  pub pmm_stack : ℕ → ℕ
  pub pmm_stack_top : ℕ
  pub phy_page_count : ℕ
  pub phy_page_total : ℕ
  pub phy_addr_start : ℕ
  pub phy_addr_end : ℕ

abbrev pub pmm_max_size : ℕ
pmm_max_size = 0x20000000

abbrev pub pmm_page_size : ℕ
pmm_page_size = 4096

abbrev pub page_max_size : ℕ
page_max_size = 131072

-- `x--` and `++x` on a `uint32_t`
abbrev pub dec32 : ℕ → ℕ
dec32 x = (x + 2 ^ 32 - 1) % 2 ^ 32

abbrev pub inc32 : ℕ → ℕ
inc32 x = (x + 1) % 2 ^ 32

unfoldable pub pmm_alloc_page : Pmm → ℕ × Pmm
pmm_alloc_page s = (
  s.pmm_stack s.pmm_stack_top,
  record s { pmm_stack_top = dec32 s.pmm_stack_top; phy_page_count = dec32 s.phy_page_count },
)

unfoldable pub pmm_free_page : ℕ → Pmm → Pmm
pmm_free_page p s = record s {
  pmm_stack_top = inc32 s.pmm_stack_top;
  pmm_stack = update s.pmm_stack (inc32 s.pmm_stack_top) p;
  phy_page_count = inc32 s.phy_page_count;
}

-- `get_kernel_mm`, as the `uint32_t` difference.
unfoldable pub get_kernel_mm : Pmm → ℕ
get_kernel_mm s = (s.phy_addr_end + 2 ^ 32 - s.phy_addr_start) % 2 ^ 32

-- The loop of `alloc_pmm`, with what it goes back to in `mark` and `cnt`.
unfoldable pub alloc_loop : ℕ → (size addr mark cnt : ℕ) → Pmm → Option (ℕ × Pmm)
alloc_loop zero size addr mark cnt s = none
alloc_loop (suc n) size addr mark cnt s =
    let rest =
      alloc_loop n (size - pmm_page_size) (s.pmm_stack s.pmm_stack_top) mark cnt (record s {
        pmm_stack_top = dec32 s.pmm_stack_top;
        phy_page_count = dec32 s.phy_page_count;
      }) in
    if size == 0
    then some (addr, s)
    else if s.phy_page_count == 0
    then some (0, record s { pmm_stack_top = mark; phy_page_count = cnt })
    else rest

-- One round more than bytes is enough, since a round takes a page.
unfoldable pub alloc_pmm : (size : ℕ) → Pmm → Option (ℕ × Pmm)
unfolding alloc_loop
alloc_pmm size s = alloc_loop (suc size) size 0 s.pmm_stack_top s.phy_page_count s

-- `mmap_entry_t`, the fields that `init_pmm` reads.
pub record MmapEntry : Type 0 where
  pub base_addr_low : ℕ
  pub length_low : ℕ
  pub type : ℕ

-- The inner loop of `init_pmm`: the address after the last page, and the allocator.
unfoldable pub page_loop : ℕ → (page_addr length : ℕ) → Pmm → Option (ℕ × Pmm)
unfolding pmm_free_page
page_loop zero page_addr length s = none
page_loop (suc n) page_addr length s =
    let rest =
      page_loop n ((page_addr + pmm_page_size) % 2 ^ 32) length (pmm_free_page page_addr s) in
    if ltb page_addr length && leb page_addr pmm_max_size then rest else some (page_addr, s)

-- An entry of the memory map: the usable one at 1 MB is cut into pages behind the kernel.
unfoldable pub init_entry : (kern_start kern_end : ℕ) → MmapEntry → Pmm → Option Pmm
init_entry kern_start kern_end e s =
    let page_addr =
      bit_and
        ((e.base_addr_low + (kern_end + 2 ^ 32 - kern_start) % 2 ^ 32 + pmm_page_size) % 2 ^ 32)
        0xFFFFF000 in
    let length = (e.base_addr_low + e.length_low) % 2 ^ 32 in
    let made : Option Pmm =
      elim (page_loop (page_max_size + 2) page_addr length
        (record s { phy_addr_start = page_addr })) [
          | none ↦ none
          | some (end, s') ↦ some (record s' { phy_addr_end = end })
        ] in
    if e.type == 1 && e.base_addr_low == 0x100000 then made else some s

-- The outer loop over the `n` entries from `i` on.
entry_loop : ℕ → ℕ → (kern_start kern_end : ℕ) → (ℕ → MmapEntry) → Pmm → Option Pmm
entry_loop zero i ks ke mmap s = some s
entry_loop (suc n) i ks ke mmap s = elim (init_entry ks ke (mmap i) s) [
  | none ↦ none
  | some s' ↦ entry_loop n (suc i) ks ke mmap s'
]

-- `init_pmm`. The bound of the loop is `mmap_addr + mmap_length` on a pointer to entries, so the
-- loop reads as many entries as the map has bytes.
unfoldable pub init_pmm : (kern_start kern_end mmap_length : ℕ) → (ℕ → MmapEntry) → Pmm → Option Pmm
unfolding entry_loop init_entry
init_pmm kern_start kern_end mmap_length mmap s =
    elim (entry_loop mmap_length 0 kern_start kern_end mmap (record s { phy_page_count = 0 })) [
      | none ↦ none
      | some s' ↦ some (record s' { phy_page_total = s'.phy_page_count })
    ]
