-- ===== src/Pmm/Tests.antt =====
-- The theorems on the page allocator at one input.
use krven_os.Common.{◌+◌, ◌*◌, ◌≡◌, refl, arith}
use krven_os.Pmm.{Pmm, MmapEntry, alloc_pmm}
use krven_os.Pmm.Stack.{IsValid}
use krven_os.Pmm.Alloc.{page_count, allocated, alloc_pmm_enough}

-- Three ascending pages.
abbrev three_pages : Pmm
three_pages = record {
  pmm_stack = λ i. 0x1FF000 + i * 4096;
  pmm_stack_top = 3;
  phy_page_count = 3;
  phy_page_total = 3;
  phy_addr_start = 0x200000;
  phy_addr_end = 0x203000;
}

abbrev no_pages : Pmm
no_pages = record three_pages { pmm_stack_top = 0; phy_page_count = 0 }

three_pages-IsValid : IsValid three_pages
three_pages-IsValid = record { counted = refl; fits = omega arith }

-- 64 KB behind 1 MB.
abbrev usable : MmapEntry
usable = record { base_addr_low = 0x100000; length_low = 0x10000; type = 1 }

alloc_pmm_enough_example : alloc_pmm 5000 three_pages ≡ allocated (page_count 5000) 0 three_pages
alloc_pmm_enough_example = alloc_pmm_enough 5000 three_pages three_pages-IsValid (omega arith)
