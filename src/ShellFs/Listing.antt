-- ===== src/ShellFs/Listing.antt =====
-- The listing that shell/shell_fs.c gets of a directory of fs/mk.c, and an entry that is added to it.
use mathlib.Core.Path.{subst}
use krven_os.Common.{
  ℕ, zero, suc, ◌+◌, ◌*◌, ◌/◌, ◌%◌, ◌<◌, ◌≡◌, ◌∙◌, ap, sym, refl, arith, List, [], ◌∷◌, ◌++◌,
  length, inl,
}
use krven_os.Strings.{memcpy}
use krven_os.Strings.Join.{memcpy-outside, memcpy-inside, IsString-agree}
use krven_os.Fs.{Fs, Sector, fs_read}
use krven_os.Fs.Inode.{word_at}
use krven_os.Fs.Inode.Slots.{slot_inode}
use krven_os.Fs.Mkfs.{entries_loop}
use krven_os.Fs.Request.{copy_sectors}
use krven_os.ShellFs.{entry_inode, entry_name}
use krven_os.ShellFs.Entries.{Listed, IsEntry, Lists}

copy_sectors-below :
    (ss : List Sector) (ptr j : ℕ) (buf : ℕ → ℕ) → j < ptr → copy_sectors ss ptr buf j ≡ buf j
unfolding copy_sectors
copy_sectors-below [] ptr j buf h = refl
copy_sectors-below (s ∷ ss) ptr j buf h =
    copy_sectors-below ss (ptr + 512) j (memcpy 512 ptr 0 buf s) (omega arith)
    ∙ memcpy-outside 512 ptr 0 buf s j (inl h)

listing_byte :
    (n i ptr k o : ℕ) (buf : ℕ → ℕ) (fs : Fs)
    → k < n
    → o < 512
    → copy_sectors (entries_loop n i fs) ptr buf (ptr + 512 * k + o) ≡ fs_read (i + k) fs o
unfolding entries_loop copy_sectors
listing_byte zero i ptr k o buf fs h h' = absurd (omega arith)
listing_byte (suc n) i ptr zero o buf fs h h' =
    let e : ptr + 512 * 0 + o ≡ ptr + o = omega arith in
    let f : i + 0 ≡ i = omega arith in
    let g : 0 + o ≡ o = omega arith in
    ap (copy_sectors (entries_loop n (suc i) fs) (ptr + 512) (memcpy 512 ptr 0 buf (fs_read i fs)))
      e
    ∙ copy_sectors-below (entries_loop n (suc i) fs) (ptr + 512) (ptr + o)
        (memcpy 512 ptr 0 buf (fs_read i fs)) (omega arith)
    ∙ memcpy-inside 512 ptr 0 buf (fs_read i fs) o h'
    ∙ ap (fs_read i fs) g
    ∙ ap (λ s. fs_read s fs o) (sym f)
listing_byte (suc n) i ptr (suc k) o buf fs h h' =
    let e : ptr + 512 * suc k + o ≡ ptr + 512 + 512 * k + o = omega arith in
    let f : suc i + k ≡ i + suc k = omega arith in
    ap (copy_sectors (entries_loop n (suc i) fs) (ptr + 512) (memcpy 512 ptr 0 buf (fs_read i fs)))
      e
    ∙ listing_byte n (suc i) (ptr + 512) k o (memcpy 512 ptr 0 buf (fs_read i fs)) fs (omega arith)
        h'
    ∙ ap (λ s. fs_read s fs o) f

-- The listing of the `n` sectors from `i` on, in a buffer.
abbrev pub listing : (n i : ℕ) (buf : ℕ → ℕ) → Fs → ℕ → ℕ
listing n i buf fs = copy_sectors (entries_loop n i fs) 0 buf

-- Entry `k` of the listing is slot `k` of the directory.
pub listing_slot :
    (n i k o : ℕ) (buf : ℕ → ℕ) (fs : Fs)
    → k < 16 * n
    → o < 32
    → listing n i buf fs (32 * k + o) ≡ fs_read (i + k / 16) fs (32 * (k % 16) + o)
listing_slot n i k o buf fs h h' =
    let e : 32 * k + o ≡ 0 + 512 * (k / 16) + (32 * (k % 16) + o) = omega arith in
    ap (listing n i buf fs) e
    ∙ listing_byte n i 0 (k / 16) (32 * (k % 16) + o) buf fs (omega arith) (omega arith)

-- Two words with the same bytes.
pub word_at-agree :
    (a b : ℕ → ℕ) (p q : ℕ) → ((o : ℕ) → o < 4 → a (p + o) ≡ b (q + o)) → word_at a p ≡ word_at b q
word_at-agree a b p q same =
    let e : p + 0 ≡ p = omega arith in
    let f : q + 0 ≡ q = omega arith in
    let first : a p ≡ b q = ap a (sym e) ∙ same 0 (omega arith) ∙ ap b f in
    rw (first, same 1 (omega arith), same 2 (omega arith), same 3 (omega arith)) refl

pub listing_inode :
    (n i k : ℕ) (buf : ℕ → ℕ) (fs : Fs)
    → k < 16 * n
    → entry_inode (listing n i buf fs) k ≡ slot_inode i fs k
listing_inode n i k buf fs h =
    word_at-agree (listing n i buf fs) (fs_read (i + k / 16) fs) (32 * k) (32 * (k % 16))
      (λ o h'. listing_slot n i k o buf fs h (omega arith))

-- An entry depends on its 32 bytes.
pub IsEntry-agree :
    (a b : ℕ → ℕ) (k : ℕ) (e : Listed)
    → ((o : ℕ) → o < 32 → b (32 * k + o) ≡ a (32 * k + o))
    → IsEntry a k e
    → IsEntry b k e
IsEntry-agree a b k e same (used, inode, kind, named, letters, fits) = (
  used,
  word_at-agree b a (32 * k) (32 * k) (λ o h. same o (omega arith)) ∙ inode,
  word_at-agree b a (32 * k + 28) (32 * k + 28) (λ o h.
        let shift : 32 * k + 28 + o ≡ 32 * k + (28 + o) = omega arith in
        ap b shift ∙ same (28 + o) (omega arith) ∙ ap a (sym shift))
      ∙ kind,
  IsString-agree (entry_name a k) (entry_name b k) 0 e.name named (λ j h.
      let shift : 32 * k + 4 + j ≡ 32 * k + (4 + j) = omega arith in
      ap b shift ∙ same (4 + j) (omega arith) ∙ ap a (sym shift)),
  letters,
  fits,
)

-- One more entry behind those of a listing that otherwise stays.
pub Lists-append :
    (n i : ℕ) (a b : ℕ → ℕ) (es : List Listed) (e : Listed)
    → length es < n
    → Lists n i a es
    → ((k o : ℕ) → k < i + length es → o < 32 → b (32 * k + o) ≡ a (32 * k + o))
    → IsEntry b (i + length es) e
    → (i + length es + 1 < i + n → entry_inode b (i + length es + 1) ≡ 0)
    → Lists n i b (es ++ (e ∷ []))
Lists-append zero i a b es e room lists same last free = absurd (omega arith)
Lists-append (suc zero) i a b [] e room lists same last free =
    let p : i + 0 ≡ i = omega arith in (subst (λ k. IsEntry b k e) p last, omega arith)
Lists-append (suc (suc n)) i a b [] e room lists same last free =
    let p : i + 0 ≡ i = omega arith in
    let q : i + 0 + 1 ≡ suc i = omega arith in
    (subst (λ k. IsEntry b k e) p last, subst (λ k. entry_inode b k ≡ 0) q (free (omega arith)))
Lists-append (suc n) i a b (x ∷ es) e room (here, lists) same last free =
    let p : i + suc (length es) ≡ suc i + length es = omega arith in
    (
      IsEntry-agree a b i x (λ o h. same i o (omega arith) h) here,
      Lists-append n (suc i) a b es e (omega arith) lists (λ k o h h'. same k o (omega arith) h')
          (subst (λ k. IsEntry b k e) p last)
          (λ h. subst (λ k. entry_inode b (k + 1) ≡ 0) p (free (omega arith))),
    )
