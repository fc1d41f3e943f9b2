-- ===== src/Proc/Empty.antt =====
-- The search for a free process block.
use krven_os.Common.{ℕ, zero, suc, ◌+◌, ◌≤◌, ◌<◌, ◌≡◌, ◌≢◌, arith, refl, Bool-cases, inl, inr, ◌==◌}
use krven_os.Common.Int.{ℤ, pos, negsuc}
use krven_os.Proc.{Proc, proc_max_num, empty_loop, get_empty_proc_block}

-- The answer of a search of the blocks below `end` that has passed those below `start`.
abbrev pub FirstFree : (ℕ → Proc) → ℕ → ℕ → ℤ → Type 0
FirstFree procs start end (pos i) =
    (start ≤ i)
    × (i < end)
    × ((procs i).take_up ≡ 0)
    × ((j : ℕ) → start ≤ j → j < i → (procs j).take_up ≢ 0)
FirstFree procs start end (negsuc n) =
    (n ≡ 0) × ((j : ℕ) → start ≤ j → j < end → (procs j).take_up ≢ 0)

FirstFree-step :
    (procs : ℕ → Proc) (i end : ℕ) (r : ℤ)
    → (procs i).take_up ≢ 0
    → FirstFree procs (suc i) end r
    → FirstFree procs i end r
FirstFree-step procs i end (pos m) ne (lo, hi, free, all) =
    (omega arith, hi, free, λ j p q. later j p q)
  where
    later : (j : ℕ) → i ≤ j → j < m → (procs j).take_up ≢ 0
    later j p q z = ground (arith, all j)
FirstFree-step procs i end (negsuc n) ne (e, all) = (e, λ j p q z. ground (arith, all j))

empty_loop-FirstFree :
    (n i end : ℕ) (procs : ℕ → Proc) → i + n ≡ end → FirstFree procs i end (empty_loop n i procs)
unfolding empty_loop
empty_loop-FirstFree zero i end procs e = (refl, λ j p q. absurd (omega arith))
empty_loop-FirstFree (suc n) i end procs e = elim (Bool-cases ((procs i).take_up == 0)) [
  | inl free ↦ rw free (omega arith, omega arith, ground arith, λ j p q. absurd (omega arith))
  | inr taken ↦ rw taken (
      FirstFree-step procs i end (empty_loop n (suc i) procs) (ground arith)
        (empty_loop-FirstFree n (suc i) end procs (omega arith)))
]

-- `get_empty_proc_block` returns the lowest block that is not taken up, and -1 only if all ten are.
pub get_empty_proc_block_lem :
    (procs : ℕ → Proc) → FirstFree procs 0 proc_max_num (get_empty_proc_block procs)
unfolding get_empty_proc_block
get_empty_proc_block_lem procs = empty_loop-FirstFree proc_max_num 0 proc_max_num procs refl
