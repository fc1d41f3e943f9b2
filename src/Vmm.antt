-- ===== src/Vmm.antt =====
-- Page tables: mm/vmm.c, include/vmm.h. Memory is read and written in aligned 32-bit words, by the
-- linear address of a word; the directory `pgd_now` is an array of its own. The processor's caches
-- (`invlpg`, the load of cr3) are not modelled.
pub mod Mapping
mod Tests
use krven_os.Common.{
  ℕ, zero, suc, ◌+◌, ◌-◌, ◌*◌, ◌/◌, ◌%◌, ◌^◌, bit_and, bit_or, update, Bool, true, false, ◌&&◌,
  Option, none, some, ltb, leb, ◌==◌, if◌then◌else◌,
}
use krven_os.Pmm.{Pmm, pmm_alloc_page}

pub record Vmm : Type 0 where
  pub pgd : ℕ → ℕ
  pub memory : ℕ → ℕ
  pub pmm : Pmm

abbrev pub page_size : ℕ
page_size = 4096

abbrev pub page_offset : ℕ
page_offset = 0xC0000000

-- `PTE_PRESENT`, `PTE_WRITE`, `PTE_USER`, and the same bits of a directory entry.
abbrev pub pte_present : ℕ
pte_present = 1

abbrev pub pte_write : ℕ
pte_write = 2

abbrev pub pte_user : ℕ
pte_user = 4

-- `PGD_INDEX` and `PTE_INDEX`
unfoldable pub pgd_index : ℕ → ℕ
pgd_index x = bit_and (x / 2 ^ 22) 0x3FF

unfoldable pub pte_index : ℕ → ℕ
pte_index x = bit_and (x / 2 ^ 12) 0x3FF

-- `x & PAGE_MASK`
abbrev pub masked : ℕ → ℕ
masked x = bit_and x 0xFFFFF000

-- `&pte[i]`, where `pte` is the linear address of the table with the physical address `table`.
abbrev pub pte_addr : (table i : ℕ) → ℕ
pte_addr table i = ((table + page_offset) % 2 ^ 32 + 4 * i) % 2 ^ 32

-- `bzero(pte, PAGE_SIZE)`
abbrev pub bzero_page : (start : ℕ) → (ℕ → ℕ) → ℕ → ℕ
bzero_page start memory a = if leb start a && ltb a (start + page_size) then 0 else memory a

-- `map`, from the entry on: the table is there.
set_entry : (table va pa flags : ℕ) → Vmm → Vmm
unfolding pte_index
set_entry table va pa flags v = record v {
  memory = update v.memory (pte_addr table (pte_index va)) (bit_or (masked pa) flags);
}

-- A new table for the directory entry `i`, on a page from the allocator.
new_table : (i : ℕ) → Vmm → ℕ × Vmm
unfolding pmm_alloc_page
new_table i v =
    let (page, pmm') = pmm_alloc_page v.pmm in
    (
      page,
      record v {
        pgd = update v.pgd i (bit_or (bit_or page pte_present) pte_write);
        memory = bzero_page ((page + page_offset) % 2 ^ 32) v.memory;
        pmm = pmm';
      },
    )

unfoldable pub vmm_map : (va pa flags : ℕ) → Vmm → Vmm
unfolding set_entry new_table pgd_index
vmm_map va pa flags v =
    let table = masked (v.pgd (pgd_index va)) in
    let (page, v') = new_table (pgd_index va) v in
    if table == 0 then set_entry page va pa flags v' else set_entry table va pa flags v

-- `unmap`: both indices are `PGD_INDEX`.
unfoldable pub unmap : (va : ℕ) → Vmm → Vmm
unfolding pgd_index
unmap va v =
    let table = masked (v.pgd (pgd_index va)) in
    if table == 0
    then v
    else record v { memory = update v.memory (pte_addr table (pgd_index va)) 0 }

-- `get_mapping` with a pointer for the result: the physical address where it returns 1.
unfoldable pub get_mapping : (va : ℕ) → Vmm → Option ℕ
unfolding pgd_index pte_index
get_mapping va v =
    let table = masked (v.pgd (pgd_index va)) in
    let entry = v.memory (pte_addr table (pte_index va)) in
    if table == 0 then none else if entry == 0 then none else some (masked entry)

-- The two loops of `init_vmm`: `n` directory entries, `n` page entries of the linear array at `pte`.
pgd_loop : ℕ → (i j pte_kern : ℕ) → (ℕ → ℕ) → ℕ → ℕ
pgd_loop zero i j pte_kern pgd = pgd
pgd_loop (suc n) i j pte_kern pgd = pgd_loop n (suc i) (suc j) pte_kern (
    update pgd i (
      bit_or
        (bit_or
          (bit_or (masked ((pte_kern + j * page_size + 2 ^ 32 - page_offset) % 2 ^ 32)) pte_present)
          pte_write)
        pte_user))

pte_loop : ℕ → (i pte : ℕ) → (ℕ → ℕ) → ℕ → ℕ
pte_loop zero i pte memory = memory
pte_loop (suc n) i pte memory = pte_loop n (suc i) pte (
    update memory (pte + 4 * i)
      (bit_or (bit_or (bit_or (masked (i * 2 ^ 12 % 2 ^ 32)) pte_present) pte_write) pte_user))

abbrev pub pte_count : ℕ
pte_count = 128

-- `init_vmm`, less the switch to the directory; `pte_kern` is the address of the page tables.
unfoldable pub init_vmm : (pte_kern : ℕ) → Vmm → Vmm
unfolding pgd_index pgd_loop pte_loop
init_vmm pte_kern v = record v {
  pgd = pgd_loop pte_count (pgd_index page_offset) 0 pte_kern v.pgd;
  memory = pte_loop (pte_count * 1024 - 1) 1 pte_kern v.memory;
}
