-- ===== src/Shell/Words.antt =====
-- The words of a command line, said without the loop of shell/shell.c.
use krven_os.Common.{
  ℕ, suc, ◌*◌, ◌<◌, ◌≤◌, ◌≡◌, Bool, true, false, List, [], ◌∷◌, ◌==◌, if◌then◌else◌, length,
}
use krven_os.Strings.{IsString}

-- The characters up to the first space.
abbrev pub first_word : List ℕ → List ℕ
first_word [] = []
first_word (c ∷ s) = if c == 32 then [] else c ∷ first_word s

-- A word begins at a character other than a space, unless the character before is one of the word.
abbrev pub words_from : (inside : Bool) → List ℕ → List (List ℕ)
words_from inside [] = []
words_from inside (c ∷ s) =
    if c == 32
    then words_from false s
    else if inside
    then words_from true s
    else (c ∷ first_word s) ∷ words_from true s

abbrev pub words : List ℕ → List (List ℕ)
words s = words_from false s

-- There are words of fewer than 128 characters, from row `k` to row `10` at most.
abbrev pub Fit : (k : ℕ) → List (List ℕ) → Type 0
Fit k [] = k ≤ 10
Fit k (w ∷ ws) = (length w < 128) × Fit (suc k) ws

-- The rows of the parameters from row `k` on hold these words.
abbrev pub Rows : (params : ℕ → ℕ) (k : ℕ) → List (List ℕ) → Type 0
Rows params k [] = k ≡ k
Rows params k (w ∷ ws) = IsString params (128 * k) w × Rows params (suc k) ws
