-- ===== src/Hd/Table.antt =====
-- The partitions that driver/hd.c finds on a disk without extended partitions.
use mathlib.Core.Path.{subst}
use krven_os.Common.{
  ℕ, zero, suc, ◌+◌, ◌<◌, ◌≤◌, ◌≡◌, ◌≢◌, ◌∙◌, ap, refl, arith, true, false, Option, none, some,
  List, [], ◌∷◌, ltb, ◌==◌, if◌then◌else◌, update, update_self, update_ne, Holds, length,
  Bool-cases, inl, inr,
}
use krven_os.Fs.{Sector}
use krven_os.Hd.{
  Hd, HdPart, read_part, moved, part_entry, part_loop, hd_get_part, hd_get_part_table, hd_open,
  info_loop, hd_info,
}

-- The entries from a place of a sector on.
abbrev pub read_parts : (n : ℕ) (buf : ℕ → ℕ) (src : ℕ) → List HdPart
read_parts zero buf src = []
read_parts (suc n) buf src = read_part buf src ∷ read_parts n buf (src + 16)

-- The partitions before the first empty entry, by their places on the disk.
abbrev pub partitions : (base : ℕ) → List HdPart → List HdPart
partitions base [] = []
partitions base (part ∷ parts) =
    let rest = partitions base parts in if part.type == 0 then [] else moved base part ∷ rest

-- None is an extended partition.
abbrev pub NoExtra : List HdPart → Type 0
NoExtra [] = 0 < 1
NoExtra (part ∷ parts) = (part.type ≢ 5) × NoExtra parts

-- The first partition of a type.
abbrev pub find_part : (type : ℕ) → List HdPart → Option HdPart
find_part type [] = none
find_part type (part ∷ parts) =
    let rest = find_part type parts in if part.type == type then some part else rest

abbrev Descend : Type 0
Descend = (base_lba first_extra_lba : ℕ) → Hd → Option Hd

-- An empty entry is copied to the place of the next partition.
abbrev emptied : (src : ℕ) → Hd → Hd
emptied src h = record h {
  hd_part_table = update h.hd_part_table h.hd_part_num (read_part h.hdbuf src);
}

abbrev listed : (base src : ℕ) → Hd → Hd
listed base src h = record h {
  hd_part_table = update h.hd_part_table h.hd_part_num (moved base (read_part h.hdbuf src));
  hd_part_num = h.hd_part_num + 1;
}

part_entry-empty :
    (descend : Descend) (base first src : ℕ) (h : Hd)
    → ((read_part h.hdbuf src).type == 0) ≡ true
    → h.hd_part_num < 10
    → part_entry descend base first src h ≡ some (src, emptied src h)
unfolding part_entry
part_entry-empty descend base first src h empty room =
    let no_extra : ((read_part h.hdbuf src).type == 5) ≡ false = ground arith in
    let f : ltb h.hd_part_num 10 ≡ true = ground arith in rw (no_extra, empty, f) refl

part_entry-listed :
    (descend : Descend) (base first src : ℕ) (h : Hd)
    → (read_part h.hdbuf src).type ≢ 5
    → ((read_part h.hdbuf src).type == 0) ≡ false
    → h.hd_part_num < 10
    → part_entry descend base first src h ≡ some (src + 16, listed base src h)
unfolding part_entry
part_entry-listed descend base first src h primary some_type room =
    let no_extra : ((read_part h.hdbuf src).type == 5) ≡ false = ground arith in
    let f : ltb h.hd_part_num 10 ≡ true = ground arith in rw (no_extra, some_type, f) refl

part_loop-step :
    (n : ℕ) (entry : ℕ → Hd → Option (ℕ × Hd)) (src src' : ℕ) (h h' : Hd)
    → entry src h ≡ some (src', h')
    → part_loop (suc n) entry src h ≡ part_loop n entry src' h'
unfolding part_loop
part_loop-step n entry src src' h h' e = ap next e
  where
    next : Option (ℕ × Hd) → Option Hd
    next r = elim r [ none ↦ none | some (src', h') ↦ part_loop n entry src' h' ]

-- What the loop has found from a state on.
abbrev Found : (h h' : Hd) → List HdPart → Type 0
Found h h' parts =
    (h'.hd_part_num ≡ h.hd_part_num + length parts)
    × ((j : ℕ) → j < h.hd_part_num → h'.hd_part_table j ≡ h.hd_part_table j)
    × Holds h'.hd_part_table h.hd_part_num parts

-- The rounds that are left after an empty entry find nothing.
part_loop-empty :
    (n : ℕ) (descend : Descend) (base first src : ℕ) (h : Hd)
    → ((read_part h.hdbuf src).type == 0) ≡ true
    → h.hd_part_num < 10
    → (h' : Hd) × (part_loop n (part_entry descend base first) src h ≡ some h') × Found h h' []
unfolding part_loop
part_loop-empty zero descend base first src h empty room =
    (h, refl, (omega arith, (λ j below. refl), refl))
part_loop-empty (suc n) descend base first src h empty room =
    let (h', run, (num, kept, held)) =
      part_loop-empty n descend base first src (emptied src h) empty room in
    (
      h',
      part_loop-step n (part_entry descend base first) src src h (emptied src h)
            (part_entry-empty descend base first src h empty room)
          ∙ run,
      (
        num,
        (λ j below.
            kept j below
            ∙ update_ne h.hd_part_table h.hd_part_num j (read_part h.hdbuf src) (omega arith)),
        refl,
      ),
    )

part_loop-Found :
    (n : ℕ) (descend : Descend) (base first src : ℕ) (h : Hd)
    → NoExtra (read_parts n h.hdbuf src)
    → h.hd_part_num + n ≤ 10
    → (h' : Hd) × (part_loop n (part_entry descend base first) src h ≡ some h')
      × Found h h' (partitions base (read_parts n h.hdbuf src))
unfolding part_loop
part_loop-Found zero descend base first src h primary room =
    (h, refl, (omega arith, (λ j below. refl), refl))
part_loop-Found (suc n) descend base first src h (first_primary, primary) room =
    let part : HdPart = read_part h.hdbuf src in
    elim (Bool-cases (part.type == 0)) [
      | inl empty ↦ rw empty (part_loop-empty (suc n) descend base first src h empty (omega arith))
      | inr some_type ↦
          let next : Hd = listed base src h in
          let (h', run, (num, kept, held)) =
            part_loop-Found n descend base first (src + 16) next primary (omega arith) in
          let parts : List HdPart = partitions base (read_parts n h.hdbuf (src + 16)) in
          let place : h.hd_part_num + 1 ≡ suc h.hd_part_num = omega arith in
          rw some_type (
            h',
            part_loop-step n (part_entry descend base first) src (src + 16) h next
                  (part_entry-listed descend base first src h first_primary some_type (omega arith))
                ∙ run,
            (
              omega arith,
              (λ j below.
                  kept j (omega arith)
                  ∙ update_ne h.hd_part_table h.hd_part_num j (moved base part) (omega arith)),
              (
                kept h.hd_part_num (omega arith)
                    ∙ update_self h.hd_part_table h.hd_part_num (moved base part),
                subst (λ i. Holds h'.hd_part_table i parts) place held,
              ),
            ),
          )
    ]

info_loop-find :
    (n i device : ℕ) (h : Hd) (parts : List HdPart)
    → n ≡ length parts
    → Holds h.hd_part_table i parts
    → info_loop n i device h ≡ find_part device parts
unfolding info_loop
info_loop-find zero i device h [] e held = refl
info_loop-find (suc n) i device h [] e held = absurd (omega arith)
info_loop-find zero i device h (part ∷ parts) e held = absurd (omega arith)
info_loop-find (suc n) i device h (part ∷ parts) e (here, later) =
    rw (here, info_loop-find n (suc i) device h parts (omega arith) later) refl

-- On a disk whose first sector names no extended partition, opening it with an empty table succeeds with
-- any fuel but 0, and every request for a type then gives the first partition of that type among those before
-- the first empty entry. What stands behind an empty entry is never found.
pub hd_info-hd_open :
    (n : ℕ) (drive : ℕ → Sector) (h : Hd)
    → NoExtra (read_parts 4 (drive 0) 0x1BE)
    → h.hd_part_num ≡ 0
    → (h' : Hd) × (hd_open (suc n) drive h ≡ some h')
      × ((device : ℕ)
          → hd_info device h' ≡ find_part device (partitions 0 (read_parts 4 (drive 0) 0x1BE)))
unfolding hd_open hd_get_part_table hd_get_part hd_info
hd_info-hd_open n drive h primary none_yet =
    let h1 : Hd = hd_get_part drive 0 h in
    let parts : List HdPart = partitions 0 (read_parts 4 (drive 0) 0x1BE) in
    let (h', run, (num, kept, held)) =
      part_loop-Found 4 (hd_get_part_table n drive) 0 0 0x1BE h1 primary (omega arith) in
    (
      h',
      run,
      λ device.
          info_loop-find h'.hd_part_num 0 device h' parts (omega arith)
            (subst (λ i. Holds h'.hd_part_table i parts) none_yet held),
    )
