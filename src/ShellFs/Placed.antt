-- ===== src/ShellFs/Placed.antt =====
-- An entry of a directory as fs/mk.c makes it, and the places of a listing of shell/shell_fs.c.
use mathlib.Core.Path.{subst}
use krven_os.Common.{
  ℕ, zero, suc, ◌+◌, ◌-◌, ◌*◌, ◌^◌, ◌<◌, ◌≡◌, ◌≢◌, ◌∙◌, ap, refl, arith, true, false, List, [], ◌∷◌,
  ltb, length,
}
use krven_os.Strings.{IsString, IsText}
use krven_os.Strings.Join.{IsString-agree}
use krven_os.Fs.Inode.{DirEntry, word_at, entry_bytes}
use krven_os.Fs.Inode.RoundTrip.{word_of_bytes}
use krven_os.Fs.Make.{copy_name}
use krven_os.ShellFs.{entry_inode, entry_name}
use krven_os.ShellFs.Entries.{Listed, IsEntry, Lists}
use krven_os.ShellFs.Listing.{word_at-agree}

IsString-shift :
    (str : ℕ → ℕ) (i : ℕ) (t : List ℕ) → IsString (λ k. str (suc k)) i t → IsString str (suc i) t
IsString-shift str i [] s = s
IsString-shift str i (c ∷ t) (here, later) = (here, IsString-shift str (suc i) t later)

copy_name-IsString : (w : List ℕ) (old : ℕ → ℕ) → IsString (copy_name w old) 0 w
unfolding copy_name
copy_name-IsString [] old = refl
copy_name-IsString (c ∷ w) old =
    (refl, IsString-shift (copy_name (c ∷ w) old) 0 w (copy_name-IsString w (λ k. old (suc k))))

-- The entry of a name, as `mk_file` and `mk_dir` make it.
abbrev pub named_entry : (inode_id type : ℕ) (w : List ℕ) (old : ℕ → ℕ) → DirEntry
named_entry inode_id type w old = record {
  inode_id = inode_id;
  name = copy_name w old;
  type = type;
}

abbrev pub listed : (inode_id type : ℕ) (w : List ℕ) → Listed
listed inode_id type w = record { inode_id = inode_id; name = w; type = type }

name_byte : (d : DirEntry) (j : ℕ) → j < 24 → entry_bytes d (4 + j) ≡ d.name j
unfolding entry_bytes
name_byte d j h =
    let e : ltb (4 + j) 4 ≡ false = ground arith in
    let f : ltb (4 + j) 28 ≡ true = ground arith in
    let g : 4 + j - 4 ≡ j = omega arith in rw (e, f, g) refl

entry_word : (d : DirEntry) → d.inode_id < 2 ^ 32 → word_at (entry_bytes d) 0 ≡ d.inode_id
unfolding entry_bytes
entry_word d h = word_of_bytes d.inode_id h

type_word : (d : DirEntry) → d.type < 2 ^ 32 → word_at (entry_bytes d) 28 ≡ d.type
unfolding entry_bytes
type_word d h = word_of_bytes d.type h

-- The bytes of such an entry are those of the listed one.
pub IsEntry-named :
    (b : ℕ → ℕ) (k inode_id type : ℕ) (w : List ℕ) (old : ℕ → ℕ)
    → 0 < inode_id
    → inode_id < 2 ^ 32
    → type < 2 ^ 32
    → IsText w
    → length w < 24
    → ((o : ℕ) → o < 32 → b (32 * k + o) ≡ entry_bytes (named_entry inode_id type w old) o)
    → IsEntry b k (listed inode_id type w)
IsEntry-named b k inode_id type w old pos fits fits' text short same =
    let d = named_entry inode_id type w old in
    (
      pos,
      word_at-agree b (entry_bytes d) (32 * k) 0 (λ o h.
            let shift : o ≡ 0 + o = omega arith in same o (omega arith) ∙ ap (entry_bytes d) shift)
          ∙ entry_word d fits,
      word_at-agree b (entry_bytes d) (32 * k + 28) 28 (λ o h.
            let shift : 32 * k + 28 + o ≡ 32 * k + (28 + o) = omega arith in
            ap b shift ∙ same (28 + o) (omega arith))
          ∙ type_word d fits',
      IsString-agree (copy_name w old) (entry_name b k) 0 w (copy_name-IsString w old) (λ j h.
          let shift : 32 * k + 4 + j ≡ 32 * k + (4 + j) = omega arith in
          ap b shift ∙ same (4 + j) (omega arith) ∙ name_byte d j (omega arith)),
      text,
      short,
    )

-- The places of a listing: used up to its length, and free there.
pub Lists-used :
    (n i k : ℕ) (b : ℕ → ℕ) (es : List Listed)
    → Lists n i b es
    → k < length es
    → entry_inode b (i + k) ≢ 0
Lists-used n i k b [] lists h = absurd (omega arith)
Lists-used zero i k b (e ∷ es) lists h = absurd (omega arith)
Lists-used (suc n) i zero b (e ∷ es) ((used, inode, kind, named, letters, fits), lists) h =
    let p : i ≡ i + 0 = omega arith in
    let here : entry_inode b i ≢ 0 = omega arith in subst (λ k. entry_inode b k ≢ 0) p here
Lists-used (suc n) i (suc k) b (e ∷ es) (entry, lists) h =
    let p : suc i + k ≡ i + suc k = omega arith in
    subst (λ k. entry_inode b k ≢ 0) p (Lists-used n (suc i) k b es lists (omega arith))

pub Lists-end :
    (n i : ℕ) (b : ℕ → ℕ) (es : List Listed)
    → Lists n i b es
    → length es < n
    → entry_inode b (i + length es) ≡ 0
Lists-end zero i b es lists h = absurd (omega arith)
Lists-end (suc n) i b [] lists h =
    let p : i ≡ i + 0 = omega arith in subst (λ k. entry_inode b k ≡ 0) p lists
Lists-end (suc n) i b (e ∷ es) (entry, lists) h =
    let p : suc i + length es ≡ i + suc (length es) = omega arith in
    subst (λ k. entry_inode b k ≡ 0) p (Lists-end n (suc i) b es lists (omega arith))
