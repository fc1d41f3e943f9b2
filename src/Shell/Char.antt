-- ===== src/Shell/Char.antt =====
-- One character of a line in `shell_split_command` of shell/shell.c, and the words of what follows it.
use krven_os.Common.{
  ℕ, suc, ◌+◌, ◌*◌, ◌<◌, ◌≤◌, ◌≡◌, ◌≢◌, ap, refl, arith, Bool, true, false, ◌||◌, Option, none,
  some, List, [], ◌∷◌, ◌++◌, ltb, ◌==◌, update, length,
}
use krven_os.Strings.{IsString}
use krven_os.Shell.{Splitting, split_char, split_loop}
use krven_os.Shell.Words.{first_word, words_from, Fit, Rows}

pub Fit-le : (k : ℕ) (ws : List (List ℕ)) → Fit k ws → k ≤ 10
Fit-le k [] fit = fit
Fit-le k (w ∷ ws) (short, fit) = omega (arith, Fit-le (suc k) ws fit)

-- The first place that the loop writes next.
abbrev pub here : Splitting → ℕ
here st = 128 * st.shell_param_num + st.pos

abbrev pub Ready : (inside : Bool) → Splitting → List ℕ → Type 0
Ready false st args =
    (st.flag ≡ false) × (st.pos ≡ 0) × Fit st.shell_param_num (words_from false args)
Ready true st args =
    (st.flag ≡ true)
    × (st.pos + length (first_word args) < 128)
    × Fit (suc st.shell_param_num) (words_from true args)

abbrev pub Kept : (st st' : Splitting) → Type 0
Kept st st' = (j : ℕ) → j < here st → st'.shell_params j ≡ st.shell_params j

abbrev pub After : (inside : Bool) → (st st' : Splitting) → List ℕ → Type 0
After false st st' args =
    (st'.shell_param_num ≡ st.shell_param_num + length (words_from false args))
    × Kept st st'
    × Rows st'.shell_params st.shell_param_num (words_from false args)
After true st st' args =
    (st'.shell_param_num ≡ suc st.shell_param_num + length (words_from true args))
    × Kept st st'
    × IsString st'.shell_params (here st) (first_word args)
    × Rows st'.shell_params (suc st.shell_param_num) (words_from true args)

abbrev pub Splits : (inside : Bool) → Splitting → List ℕ → Type 0
Splits inside st args =
    (st' : Splitting) × (split_loop (args ++ (0 ∷ [])) st ≡ some st') × After inside st st' args

-- The states after a character of a word and after the end of one.
abbrev pub stored : (c : ℕ) → Splitting → Splitting
stored c st = record st {
  shell_params = update st.shell_params (here st) c;
  pos = st.pos + 1;
  flag = true;
}

abbrev pub ended_word : Splitting → Splitting
ended_word st = record st {
  shell_params = update st.shell_params (here st) 0;
  shell_param_num = st.shell_param_num + 1;
  pos = 0;
  flag = false;
}

pub split_char-stored :
    (c : ℕ) (st : Splitting)
    → c ≢ 32
    → c ≢ 0
    → here st < 1280
    → split_char c st ≡ some (stored c st)
unfolding split_char
split_char-stored c st space nul room =
    let e : ((c == 32) || (c == 0)) ≡ false = ground arith in
    let f : ltb (here st) 1280 ≡ true = ground arith in rw (e, f) refl

pub split_char-ended :
    (c : ℕ) (st : Splitting)
    → ((c == 32) || (c == 0)) ≡ true
    → st.flag ≡ true
    → here st < 1280
    → split_char c st ≡ some (ended_word st)
unfolding split_char
split_char-ended c st e flag room =
    let f : ltb (here st) 1280 ≡ true = ground arith in rw (e, flag, f) refl

pub split_char-between :
    (c : ℕ) (st : Splitting)
    → ((c == 32) || (c == 0)) ≡ true
    → st.flag ≡ false
    → split_char c st ≡ some st
unfolding split_char
split_char-between c st e flag = rw (e, flag) refl

pub split_loop-step :
    (c : ℕ) (args : List ℕ) (st st' : Splitting)
    → split_char c st ≡ some st'
    → split_loop (c ∷ args) st ≡ split_loop args st'
unfolding split_loop
split_loop-step c args st st' e = ap go e
  where
    go : Option Splitting → Option Splitting
    go r = elim r [ none ↦ none | some st ↦ split_loop args st ]

pub split_loop-nil : (st : Splitting) → split_loop [] st ≡ some st
unfolding split_loop
split_loop-nil st = refl

pub words_from-space :
    (inside : Bool) (c : ℕ) (args : List ℕ)
    → (c == 32) ≡ true
    → words_from inside (c ∷ args) ≡ words_from false args
words_from-space inside c args e = rw e refl

pub words_from-outside :
    (c : ℕ) (args : List ℕ)
    → (c == 32) ≡ false
    → words_from false (c ∷ args) ≡ (c ∷ first_word args) ∷ words_from true args
words_from-outside c args e = rw e refl

pub words_from-inside :
    (c : ℕ) (args : List ℕ) → (c == 32) ≡ false → words_from true (c ∷ args) ≡ words_from true args
words_from-inside c args e = rw e refl

pub first_word-more :
    (c : ℕ) (args : List ℕ) → (c == 32) ≡ false → first_word (c ∷ args) ≡ c ∷ first_word args
first_word-more c args e = rw e refl
