-- ===== src/ShellFs/Entries.antt =====
-- A listing of shell/shell_fs.c as a list of entries, and the search in it.
use krven_os.Common.{
  ℕ, zero, suc, ◌<◌, ◌≡◌, ◌∙◌, ap, refl, arith, true, false, Option, none, some, List, [], ◌∷◌,
  ◌==◌, if◌then◌else◌, length, Bool-cases, inl, inr,
}
use krven_os.Strings.{strcmp, IsString, IsText}
use krven_os.Strings.Compare.{strcmp-Compares}
use krven_os.Shell.Lookup.{same, Compares-same}
use krven_os.ShellFs.{entry_inode, entry_name, entry_type, on_match, find_entry}

-- An entry with its name as a text.
pub record Listed : Type 0 where
  pub inode_id : ℕ
  pub name : List ℕ
  pub type : ℕ

-- The memory of an entry.
abbrev pub IsEntry : (fs_buf : ℕ → ℕ) (i : ℕ) → Listed → Type 0
IsEntry fs_buf i e =
    (0 < e.inode_id)
    × (entry_inode fs_buf i ≡ e.inode_id)
    × (entry_type fs_buf i ≡ e.type)
    × IsString (entry_name fs_buf i) 0 e.name
    × IsText e.name
    × (length e.name < 24)

-- Of the `n` places from number `i` on these are the entries, up to the first place without an inode.
abbrev pub Lists : (n i : ℕ) (fs_buf : ℕ → ℕ) → List Listed → Type 0
Lists zero i fs_buf [] = 0 < 1
Lists zero i fs_buf (e ∷ es) = 0 < 0
Lists (suc n) i fs_buf [] = entry_inode fs_buf i ≡ 0
Lists (suc n) i fs_buf (e ∷ es) = IsEntry fs_buf i e × Lists n (suc i) fs_buf es

-- The first entry of this name, with its number from `i` on.
abbrev pub first_named : (i : ℕ) → List Listed → List ℕ → Option (ℕ × Listed)
first_named i [] w = none
first_named i (e ∷ es) w =
    let later = first_named (suc i) es w in if same e.name w then some (i, e) else later

abbrev pub number_of : Option (ℕ × Listed) → Option ℕ
number_of none = none
number_of (some (i, e)) = some i

-- A comparison of strings with known texts.
pub on_match-same {ℓ} :
    {A : Type ℓ} (str1 str2 : ℕ → ℕ) (s t : List ℕ) (this other : Option A)
    → IsString str1 0 s
    → IsString str2 0 t
    → IsText s
    → IsText t
    → length s < 1024
    → length t < 1024
    → on_match (strcmp 1024 str1 str2) this other ≡ (if same s t then this else other)
on_match-same str1 str2 s t this other first second left right h k =
    let (r, compared, result) = strcmp-Compares 1024 str1 str2 s t first second left right h k in
    rw (compared, Compares-same s t r result) refl

number_of-here :
    (i : ℕ) (e : Listed) (es : List Listed) (w : List ℕ)
    → number_of (first_named i (e ∷ es) w)
      ≡ (if same e.name w then some i else number_of (first_named (suc i) es w))
number_of-here i e es w = elim (Bool-cases (same e.name w)) [
  | inl this ↦ rw this refl
  | inr other ↦ rw other refl
]

-- The search of the code finds the first entry of the name.
pub find_entry-Lists :
    (n i : ℕ) (fs_buf name : ℕ → ℕ) (es : List Listed) (w : List ℕ)
    → Lists n i fs_buf es
    → IsString name 0 w
    → IsText w
    → length w < 1024
    → find_entry n i fs_buf name ≡ some (number_of (first_named i es w))
unfolding find_entry
find_entry-Lists zero i fs_buf name [] w lists s text short = refl
find_entry-Lists zero i fs_buf name (e ∷ es) w lists s text short = absurd (omega arith)
find_entry-Lists (suc n) i fs_buf name [] w lists s text short =
    let ended : (entry_inode fs_buf i == 0) ≡ true = ground arith in rw ended refl
find_entry-Lists (suc n) i fs_buf name (e ∷ es) w ((inode, at, kind, named, letters, fits), lists) s
      text short =
    let used : (entry_inode fs_buf i == 0) ≡ false = ground arith in
    let later = find_entry-Lists n (suc i) fs_buf name es w lists s text short in
    let compared =
      on_match-same (entry_name fs_buf i) name e.name w (some (some i))
        (find_entry n (suc i) fs_buf name) named s letters text (omega arith) short in
    rw used (
      compared
      ∙ ap (λ (r : Option (Option ℕ)). if same e.name w then some (some i) else r) later
      ∙ elim (Bool-cases (same e.name w)) [ inl this ↦ rw this refl | inr other ↦ rw other refl ])
