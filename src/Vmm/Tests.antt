-- ===== src/Vmm/Tests.antt =====
-- The theorems on page tables at one input.
use krven_os.Common.{◌+◌, ◌*◌, ◌/◌, ◌≡◌, refl, arith, some}
use krven_os.Pmm.{pmm_alloc_page}
use krven_os.Vmm.{Vmm, vmm_map, get_mapping}
use krven_os.Vmm.Mapping.{get_mapping-vmm_map}

abbrev no_tables : Vmm
no_tables = record {
  pgd = λ _. 0;
  memory = λ _. 0;
  pmm = record {
    pmm_stack = λ i. 0x1FF000 + i * 4096;
    pmm_stack_top = 3;
    phy_page_count = 3;
    phy_page_total = 3;
    phy_addr_start = 0x200000;
    phy_addr_end = 0x203000;
  };
}

-- A directory with one table, whose entries are all the page 0x300000.
abbrev one_table : Vmm
one_table = record no_tables { pgd = λ _. 0x400003; memory = λ _. 0x300003 }

get_mapping-vmm_map_example :
    get_mapping 0xE0001234 (vmm_map 0xE0001234 0x305678 7 no_tables) ≡ some (0x305678 / 4096 * 4096)
unfolding pmm_alloc_page
get_mapping-vmm_map_example =
    get_mapping-vmm_map 0xE0001234 0x305678 7 0x202 no_tables (omega arith) (omega arith)
      (omega arith) refl (omega arith) (omega arith)
