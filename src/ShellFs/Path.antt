-- ===== src/ShellFs/Path.antt =====
-- The path that `cd` of shell/shell_fs.c keeps.
use mathlib.Core.Path.{subst}
use mathlib.Core.List.{append_assoc}
use krven_os.Common.{
  ℕ, zero, suc, ◌+◌, ◌-◌, ◌<◌, ◌≡◌, ◌≢◌, ◌∙◌, ap, sym, refl, arith, true, false, some, List, [],
  ◌∷◌, ◌++◌, ◌==◌, update, update_self, update_ne, length, length-append,
}
use krven_os.Strings.{strlen, IsString, IsText}
use krven_os.Strings.Compare.{strlen-IsString}
use krven_os.Strings.Join.{strcat-IsString, IsText-append}
use krven_os.Shell.{literal}
use krven_os.ShellFs.Folder.{up_loop, parent_path, join_name, in_array, child_path}

-- No "/" among the characters.
abbrev pub IsPlain : List ℕ → Type 0
IsPlain [] = 0 < 1
IsPlain (c ∷ t) = (c ≢ 47) × IsPlain t

-- A string of one text followed by another starts with the first, and has the second behind it.
IsString-rest :
    (str : ℕ → ℕ) (i : ℕ) (s t : List ℕ) → IsString str i (s ++ t) → IsString str (i + length s) t
IsString-rest str i [] t h = let e : i ≡ i + 0 = omega arith in subst (λ j. IsString str j t) e h
IsString-rest str i (c ∷ s) t (here, later) =
    let e : suc i + length s ≡ i + suc (length s) = omega arith in
    subst (λ j. IsString str j t) e (IsString-rest str (suc i) s t later)

IsString-cut :
    (str : ℕ → ℕ) (i : ℕ) (s t : List ℕ)
    → IsString str i (s ++ t)
    → IsString (update str (i + length s) 0) i s
IsString-cut str i [] t h =
    let e : i + 0 ≡ i = omega arith in
    subst (λ j. update str j 0 i ≡ 0) (sym e) (update_self str i 0)
IsString-cut str i (c ∷ s) t (here, later) =
    let e : suc i + length s ≡ i + suc (length s) = omega arith in
    (
      update_ne str (i + suc (length s)) i 0 (omega arith) ∙ here,
      subst (λ j. IsString (update str j 0) (suc i) s) e (IsString-cut str (suc i) s t later),
    )

-- A plain text and "/" behind it: no other "/" in front of the last.
plain_at :
    (str : ℕ → ℕ) (i j : ℕ) (t rest : List ℕ)
    → IsString str i (t ++ rest)
    → IsPlain t
    → j < length t
    → str (i + j) ≢ 47
plain_at str i j [] rest s plain h = absurd (omega arith)
plain_at str i zero (c ∷ t) rest (here, later) (first, plain) h =
    let e : i + 0 ≡ i = omega arith in rw (e, here) first
plain_at str i (suc j) (c ∷ t) rest (here, later) (first, plain) h =
    let e : i + suc j ≡ suc i + j = omega arith in
    rw e (plain_at str (suc i) j t rest later plain (omega arith))

-- The loop stops at the last "/" that it may look at.
up_loop-last :
    (m k n : ℕ) (dir_name : ℕ → ℕ)
    → n ≡ suc m + k
    → dir_name m ≡ 47
    → ((j : ℕ) → j < k → dir_name (suc m + j) ≢ 47)
    → up_loop n dir_name ≡ update dir_name (suc m) 0
unfolding up_loop
up_loop-last m k zero dir_name e slash plain = absurd (omega arith)
up_loop-last m zero (suc n) dir_name e slash plain =
    let last : n ≡ m = omega arith in
    let found : (dir_name m == 47) ≡ true = ground arith in rw (last, found) refl
up_loop-last m (suc k) (suc n) dir_name e slash plain =
    let here : n ≡ suc m + k = omega arith in
    let other : dir_name n ≢ 47 = rw here (plain k (omega arith)) in
    let passed : (dir_name n == 47) ≡ false = ground arith in
    rw passed (up_loop-last m k n dir_name here slash (λ j h. plain j (omega arith)))

-- A path: "/", or a path of folders that ends in "/".
abbrev pub IsPath : List ℕ → Type 0
IsPath p = (q : List ℕ) × (p ≡ q ++ (47 ∷ []))

abbrev pub folder_path : (p w : List ℕ) → List ℕ
folder_path p w = p ++ (w ++ (47 ∷ []))

-- The path of the parent of a folder.
pub parent_path-folder :
    (dir_name : ℕ → ℕ) (p w : List ℕ)
    → IsPath p
    → IsPlain w
    → IsText (folder_path p w)
    → length (folder_path p w) < 128
    → IsString dir_name 0 (folder_path p w)
    → (dir_name' : ℕ → ℕ) × (parent_path dir_name (strlen 128 dir_name) ≡ some dir_name')
      × IsString dir_name' 0 p
unfolding parent_path
parent_path-folder dir_name p w (q, e) plain text short s =
    let l = strlen-IsString 128 dir_name (folder_path p w) s text short in
    let size = length-append p (w ++ (47 ∷ [])) in
    let size' = length-append w (47 ∷ []) in
    let long : length p ≡ suc (length q) = ap length e ∙ length-append q (47 ∷ []) ∙ omega arith in
    let at_q : IsString dir_name 0 (q ++ ((47 ∷ []) ++ (w ++ (47 ∷ [])))) =
      subst (IsString dir_name 0)
        (ap (λ p. p ++ (w ++ (47 ∷ []))) e ∙ append_assoc q (47 ∷ []) (w ++ (47 ∷ []))) s in
    let slash : dir_name (0 + length q) ≡ 47 =
      (IsString-rest dir_name 0 q ((47 ∷ []) ++ (w ++ (47 ∷ []))) at_q).0 in
    let start : 0 + length q ≡ length q = omega arith in
    let slash' : dir_name (length q) ≡ 47 = ap dir_name (sym start) ∙ slash in
    let behind = IsString-rest dir_name 0 p (w ++ (47 ∷ [])) s in
    let place : 0 + length p ≡ suc (length q) = omega arith in
    let cut : up_loop (length (folder_path p w) - 1) dir_name ≡ update dir_name (suc (length q)) 0 =
      up_loop-last (length q) (length w) (length (folder_path p w) - 1) dir_name (omega arith)
        slash'
        (λ j h.
          plain_at dir_name (suc (length q)) j w (47 ∷ [])
            (subst (λ i. IsString dir_name i (w ++ (47 ∷ []))) place behind) plain h) in
    (
      update dir_name (suc (length q)) 0,
      ap (parent_path dir_name) l ∙ ap some cut,
      subst (λ i. IsString (update dir_name i 0) 0 p) place
          (IsString-cut dir_name 0 p (w ++ (47 ∷ [])) s),
    )

in_array-some :
    (dir_name : ℕ → ℕ) (l : ℕ)
    → strlen 128 dir_name ≡ some l
    → in_array (some dir_name) ≡ some dir_name
in_array-some dir_name l e = rw (e, in_array) refl

-- The path of a folder.
pub child_path-folder :
    (dir_name name : ℕ → ℕ) (p w : List ℕ)
    → IsString dir_name 0 p
    → IsString name 0 w
    → IsText p
    → IsText w
    → length (folder_path p w) < 128
    → (dir_name' : ℕ → ℕ) × (child_path dir_name name ≡ some dir_name')
      × IsString dir_name' 0 (folder_path p w)
unfolding child_path
child_path-folder dir_name name p w s named text letters short =
    let size = length-append p (w ++ (47 ∷ [])) in
    let size' = length-append w (47 ∷ []) in
    let size2 = length-append p w in
    let slash_text : IsText (47 ∷ []) = (omega arith, omega arith, omega arith) in
    let (first, joined, s1) =
      strcat-IsString 128 dir_name name p w s named text letters (omega arith) (omega arith) in
    let (path, joined', s2) =
      strcat-IsString 128 first (literal (47 ∷ [])) (p ++ w) (47 ∷ []) s1 (refl, refl)
        (IsText-append p w text letters) slash_text (omega arith) (omega arith) in
    let s3 : IsString path 0 (folder_path p w) =
      subst (IsString path 0) (append_assoc p w (47 ∷ [])) s2 in
    let ended =
      strlen-IsString 128 path (folder_path p w) s3
        (IsText-append p (w ++ (47 ∷ [])) text (IsText-append w (47 ∷ []) letters slash_text))
        short in
    (
      path,
      ap (λ r. in_array (join_name (literal (47 ∷ [])) r)) joined
          ∙ ap in_array joined'
          ∙ in_array-some path (length (folder_path p w)) ended,
      s3,
    )
