-- ===== src/Vmm/Mapping.antt =====
-- `map`, `unmap` of mm/vmm.c and `get_mapping` against one another.
use krven_os.Common.{
  ℕ, ◌+◌, ◌*◌, ◌/◌, ◌%◌, ◌^◌, ◌<◌, ◌≡◌, ◌≢◌, ap, sym, ◌∙◌, refl, arith, update, update_self,
  update_ne, bit_or, ◌==◌, false, some, Bool-cases, inl, inr,
}
use krven_os.Common.Bits.{page_mask, bit_or-low, bit_or_step, bit_and-mask}
use krven_os.Pmm.{pmm_alloc_page}
use krven_os.Vmm.{
  Vmm, pgd_index, pte_index, masked, pte_addr, set_entry, new_table, vmm_map, unmap, get_mapping,
  pte_present, pte_write,
}

pub pgd_index_lem : (va : ℕ) → pgd_index va ≡ va / 2 ^ 22 % 1024
unfolding pgd_index
pgd_index_lem va =
    bit_and-mask 10 (va / 2 ^ 22 / 1024) (va / 2 ^ 22 % 1024) (va / 2 ^ 22) 0x3FF (omega arith)
      (omega arith) refl

pub pte_index_lem : (va : ℕ) → pte_index va ≡ va / 2 ^ 12 % 1024
unfolding pte_index
pte_index_lem va =
    bit_and-mask 10 (va / 2 ^ 12 / 1024) (va / 2 ^ 12 % 1024) (va / 2 ^ 12) 0x3FF (omega arith)
      (omega arith) refl

-- A page with flags in its offset is masked to the page again.
masked-flags :
    (page q flags : ℕ)
    → page ≡ q * 4096
    → page < 2 ^ 32
    → flags < 4096
    → masked (bit_or page flags) ≡ page
masked-flags page q flags e h f =
    rw (bit_or-low 12 q page flags e f) (omega (arith, page_mask (page + flags) (omega arith)))

masked-page : (x : ℕ) → x < 2 ^ 32 → (masked x ≡ x / 4096 * 4096) × (masked x < 2 ^ 32)
masked-page x h = (page_mask x h, omega (arith, page_mask x h))

present_write : (page m : ℕ) → page ≡ m * 4 → bit_or (bit_or page pte_present) pte_write ≡ page + 3
present_write page m e =
    let one : bit_or page 1 ≡ page + 1 = bit_or-low 1 (m * 2) page 1 (omega arith) (omega arith) in
    rw one (
      omega (
        arith,
        bit_or_step (page + 1) 2,
        halves,
        bit_or-low 1 m (m * 2) 1 (omega arith) (omega arith),
      ))
  where
    halves : bit_or ((page + 1) / 2) (2 / 2) ≡ bit_or (m * 2) 1
    halves = let e' : (page + 1) / 2 ≡ m * 2 = omega arith in rw e'

-- What a lookup finds in a table that is there.
get_mapping-entry :
    (va table entry : ℕ) (v : Vmm)
    → masked (v.pgd (pgd_index va)) ≡ table
    → table ≢ 0
    → v.memory (pte_addr table (pte_index va)) ≡ entry
    → entry ≢ 0
    → get_mapping va v ≡ some (masked entry)
unfolding get_mapping
get_mapping-entry va table entry v t ne m some_entry =
    let here : (table == 0) ≡ false = ground arith in
    let filled : (entry == 0) ≡ false = ground arith in rw (t, here) (rw (m, filled))

-- After `map` the address is mapped to the page of `pa`: in a table that is there, and in one on a
-- page from the allocator, which must be a page other than page 0. The flags are below 4096, and
-- not all are clear.
pub get_mapping-vmm_map :
    (va pa flags q : ℕ) (v : Vmm)
    → pa < 2 ^ 32
    → flags < 4096
    → flags ≢ 0
    → (pmm_alloc_page v.pmm).0 ≡ q * 4096
    → 0 < q
    → q < 2 ^ 20
    → get_mapping va (vmm_map va pa flags v) ≡ some (pa / 4096 * 4096)
unfolding vmm_map
get_mapping-vmm_map va pa flags q v pa_lt f_lt f_ne page pos small =
    elim (Bool-cases (masked (v.pgd (pgd_index va)) == 0)) [
      | inl missing ↦ rw missing (
          get_mapping-entry va ((pmm_alloc_page v.pmm).0) entry
            (set_entry ((pmm_alloc_page v.pmm).0) va pa flags (new_table (pgd_index va) v).1)
            (ap masked (
                update_self v.pgd (pgd_index va)
                  (bit_or (bit_or (pmm_alloc_page v.pmm).0 pte_present) pte_write))
              ∙ table)
            (omega arith)
            (update_self ((new_table (pgd_index va) v).1.memory)
              (pte_addr (pmm_alloc_page v.pmm).0 (pte_index va)) entry)
            entry_ne
          ∙ ap some stored)
      | inr there ↦ rw there (
          get_mapping-entry va (masked (v.pgd (pgd_index va))) entry
            (set_entry (masked (v.pgd (pgd_index va))) va pa flags v) refl (ground arith)
            (update_self v.memory (pte_addr (masked (v.pgd (pgd_index va))) (pte_index va)) entry)
            entry_ne
          ∙ ap some stored)
    ]
  where
    entry : ℕ
    entry = bit_or (masked pa) flags

    sum : entry ≡ pa / 4096 * 4096 + flags
    sum =
        bit_or-low 12 (pa / 4096) (masked pa) flags (page_mask pa pa_lt) f_lt
        ∙ omega (arith, page_mask pa pa_lt)

    entry_ne : entry ≢ 0
    entry_ne e = absurd (omega (arith, sum))

    stored : masked entry ≡ pa / 4096 * 4096
    stored = omega (arith, page_mask entry (omega (arith, sum)), sum)

    table :
        masked (bit_or (bit_or (pmm_alloc_page v.pmm).0 pte_present) pte_write)
        ≡ (pmm_alloc_page v.pmm).0
    table =
        ap masked (present_write (pmm_alloc_page v.pmm).0 (q * 1024) (omega arith))
        ∙ omega (arith, page_mask ((pmm_alloc_page v.pmm).0 + 3) (omega arith))

-- Two entries of one table stand at two addresses.
pte_addr_injective :
    (table i j : ℕ) → i < 1024 → j < 1024 → i ≢ j → pte_addr table i ≢ pte_addr table j
pte_addr_injective table i j hi hj ne e = absurd (omega arith)

-- `map` leaves the other entries of a table that is there.
pub get_mapping-vmm_map_ne :
    (va va' pa flags : ℕ) (v : Vmm)
    → masked (v.pgd (pgd_index va)) ≢ 0
    → pgd_index va' ≡ pgd_index va
    → pte_index va' ≢ pte_index va
    → get_mapping va' (vmm_map va pa flags v) ≡ get_mapping va' v
unfolding vmm_map get_mapping
get_mapping-vmm_map_ne va va' pa flags v there same ne =
    let table : ℕ = masked (v.pgd (pgd_index va)) in
    let present : (table == 0) ≡ false = ground arith in
    let kept : update v.memory (pte_addr table (pte_index va)) (bit_or (masked pa) flags)
          (pte_addr table (pte_index va'))
        ≡ v.memory (pte_addr table (pte_index va')) =
      update_ne v.memory (pte_addr table (pte_index va)) (pte_addr table (pte_index va'))
        (bit_or (masked pa) flags)
        (pte_addr_injective table (pte_index va') (pte_index va) (omega (arith, pte_index_lem va'))
          (omega (arith, pte_index_lem va)) ne) in
    rw (present, same) (rw kept)

-- `unmap` clears the entry of its table at the directory index of the address. Where the address has
-- another index in its table, its own mapping stays as it was.
pub unmap-keeps :
    (va : ℕ) (v : Vmm)
    → masked (v.pgd (pgd_index va)) ≢ 0
    → pgd_index va ≢ pte_index va
    → (get_mapping va (unmap va v) ≡ get_mapping va v)
      × ((unmap va v).memory (pte_addr (masked (v.pgd (pgd_index va))) (pgd_index va)) ≡ 0)
unfolding unmap get_mapping
unmap-keeps va v there ne =
    let table : ℕ = masked (v.pgd (pgd_index va)) in
    let present : (table == 0) ≡ false = ground arith in
    let kept : update v.memory (pte_addr table (pgd_index va)) 0 (pte_addr table (pte_index va))
        ≡ v.memory (pte_addr table (pte_index va)) =
      update_ne v.memory (pte_addr table (pgd_index va)) (pte_addr table (pte_index va)) 0 (
        pte_addr_injective table (pte_index va) (pgd_index va) (omega (arith, pte_index_lem va))
          (omega (arith, pgd_index_lem va)) (λ e. ne (sym e))) in
    rw present (rw (kept, present), update_self v.memory (pte_addr table (pgd_index va)) 0)
