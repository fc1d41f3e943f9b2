-- ===== src/Shell/Split.antt =====
-- `shell_split_command` of shell/shell.c stores the words of the line.
use mathlib.Core.Path.{subst}
use krven_os.Common.{
  ℕ, suc, ◌+◌, ◌*◌, ◌≡◌, ◌∙◌, ap, sym, refl, arith, Bool, true, false, Option, none, some, List, [],
  ◌∷◌, ◌++◌, ◌==◌, update_self, update_ne, length, Bool-cases, inl, inr,
}
use krven_os.Strings.{IsString, IsText}
use krven_os.Shell.{Shell, Splitting, shell_split_command}
use krven_os.Shell.Words.{first_word, words_from, words, Fit, Rows}
use krven_os.Shell.Char.{
  Fit-le, here, Ready, Kept, Splits, stored, ended_word, split_char-stored, split_char-ended,
  split_char-between, split_loop-step, split_loop-nil, words_from-space, words_from-outside,
  words_from-inside, first_word-more,
}

split_loop-Splits :
    (inside : Bool) (args : List ℕ) (st : Splitting)
    → IsText args
    → Ready inside st args
    → Splits inside st args
split_loop-Splits false [] st text (flag, pos, fit) = (
  st,
  split_loop-step 0 [] st st (split_char-between 0 st refl flag) ∙ split_loop-nil st,
  (omega arith, (λ j h. refl), refl),
)
split_loop-Splits true [] st text (flag, pos, fit) = (
  ended_word st,
  split_loop-step 0 [] st (ended_word st) (split_char-ended 0 st refl flag (omega arith))
      ∙ split_loop-nil (ended_word st),
  (
    omega arith,
    (λ j h. update_ne st.shell_params (here st) j 0 (omega arith)),
    update_self st.shell_params (here st) 0,
    refl,
  ),
)
split_loop-Splits false (c ∷ args) st (low, high, text) (flag, pos, fit) =
    elim (Bool-cases (c == 32)) [
      | inl space ↦
          let words' = words_from-space false c args space in
          let between = split_char-between c st (rw space refl) flag in
          let (st', run, (count, kept, rows)) =
            split_loop-Splits false args st text
              (flag, pos, subst (Fit st.shell_param_num) words' fit) in
          (
            st',
            split_loop-step c (args ++ (0 ∷ [])) st st between ∙ run,
            subst
                (λ ws.
                  (st'.shell_param_num ≡ st.shell_param_num + length ws)
                  × Kept st st'
                  × Rows st'.shell_params st.shell_param_num ws)
                (sym words') (count, kept, rows),
          )
      | inr other ↦
          let words' = words_from-outside c args other in
          let (short, more) = subst (Fit st.shell_param_num) words' fit in
          let low_row = Fit-le (suc st.shell_param_num) (words_from true args) more in
          let store = split_char-stored c st (ground arith) (omega arith) (omega arith) in
          let next = stored c st in
          let (st', run, (count, kept, text', rows)) =
            split_loop-Splits true args next text (refl, omega arith, more) in
          let row : here st ≡ 128 * st.shell_param_num = omega arith in
          let first : st'.shell_params (here st) ≡ c =
            kept (here st) (omega arith) ∙ update_self st.shell_params (here st) c in
          let place : here next ≡ suc (here st) = omega arith in
          (
            st',
            split_loop-step c (args ++ (0 ∷ [])) st next store ∙ run,
            subst
                (λ ws.
                  (st'.shell_param_num ≡ st.shell_param_num + length ws)
                  × Kept st st'
                  × Rows st'.shell_params st.shell_param_num ws)
                (sym words')
                (
                  omega arith,
                  (λ j h.
                      kept j (omega arith) ∙ update_ne st.shell_params (here st) j c (omega arith)),
                  (
                    subst (λ j. IsString st'.shell_params j (c ∷ first_word args)) row
                        (
                          first,
                          subst (λ j. IsString st'.shell_params j (first_word args)) place text',
                        ),
                    rows,
                  ),
                ),
          )
    ]
split_loop-Splits true (c ∷ args) st (low, high, text) (flag, pos, fit) =
    elim (Bool-cases (c == 32)) [
      | inl space ↦
          let words' = words_from-space true c args space in
          let none_left : first_word (c ∷ args) ≡ [] = rw space refl in
          let row : st.shell_param_num + 1 ≡ suc st.shell_param_num = omega arith in
          let more = subst (Fit (suc st.shell_param_num)) words' fit in
          let low_row = Fit-le (suc st.shell_param_num) (words_from false args) more in
          let end_of = split_char-ended c st (rw space refl) flag (omega arith) in
          let next = ended_word st in
          let (st', run, (count, kept, rows)) =
            split_loop-Splits false args next text
              (refl, refl, subst (λ k. Fit k (words_from false args)) (sym row) more) in
          let zero_end : st'.shell_params (here st) ≡ 0 =
            kept (here st) (omega arith) ∙ update_self st.shell_params (here st) 0 in
          (
            st',
            split_loop-step c (args ++ (0 ∷ [])) st next end_of ∙ run,
            subst
                (λ ws.
                  (st'.shell_param_num ≡ suc st.shell_param_num + length ws)
                  × Kept st st'
                  × IsString st'.shell_params (here st) (first_word (c ∷ args))
                  × Rows st'.shell_params (suc st.shell_param_num) ws)
                (sym words')
                (
                  omega arith,
                  (λ j h.
                      kept j (omega arith) ∙ update_ne st.shell_params (here st) j 0 (omega arith)),
                  subst (IsString st'.shell_params (here st)) (sym none_left) zero_end,
                  subst (λ k. Rows st'.shell_params k (words_from false args)) row rows,
                ),
          )
      | inr other ↦
          let words' = words_from-inside c args other in
          let one_more = first_word-more c args other in
          let longer : length (first_word (c ∷ args)) ≡ suc (length (first_word args)) =
            ap length one_more in
          let more = subst (Fit (suc st.shell_param_num)) words' fit in
          let low_row = Fit-le (suc st.shell_param_num) (words_from true args) more in
          let store = split_char-stored c st (ground arith) (omega arith) (omega arith) in
          let next = stored c st in
          let (st', run, (count, kept, text', rows)) =
            split_loop-Splits true args next text (refl, omega arith, more) in
          let first : st'.shell_params (here st) ≡ c =
            kept (here st) (omega arith) ∙ update_self st.shell_params (here st) c in
          let place : here next ≡ suc (here st) = omega arith in
          (
            st',
            split_loop-step c (args ++ (0 ∷ [])) st next store ∙ run,
            subst
                (λ ws.
                  (st'.shell_param_num ≡ suc st.shell_param_num + length ws)
                  × Kept st st'
                  × IsString st'.shell_params (here st) (first_word (c ∷ args))
                  × Rows st'.shell_params (suc st.shell_param_num) ws)
                (sym words')
                (
                  count,
                  (λ j h.
                      kept j (omega arith) ∙ update_ne st.shell_params (here st) j c (omega arith)),
                  subst (IsString st'.shell_params (here st)) (sym one_more) (
                    first,
                    subst (λ j. IsString st'.shell_params j (first_word args)) place text',
                  ),
                  rows,
                ),
          )
    ]

-- A line of bytes other than zero, with at most ten words of fewer than 128 characters, is split into its
-- words: they are in the rows of the parameters, from the first on, and counted.
pub shell_split_command-words :
    (args : List ℕ) (s : Shell)
    → IsText args
    → Fit 0 (words args)
    → (s' : Shell) × (shell_split_command args s ≡ some s')
      × (s'.shell_param_num ≡ length (words args))
      × Rows s'.shell_params 0 (words args)
      × (s'.command_table ≡ s.command_table)
      × (s'.shell_handler_size ≡ s.shell_handler_size)
      × (s'.shell_handlers ≡ s.shell_handlers)
unfolding shell_split_command
shell_split_command-words args s text fit =
    let start : Splitting = record {
      shell_params = s.shell_params;
      shell_param_num = 0;
      pos = 0;
      flag = false;
    } in
    let (st', run, (count, kept, rows)) =
      split_loop-Splits false args start text (refl, refl, fit) in
    (
      record s { shell_params = st'.shell_params; shell_param_num = st'.shell_param_num },
      ap finish run,
      omega arith,
      rows,
      refl,
      refl,
      refl,
    )
  where
    finish : Option Splitting → Option Shell
    finish r = elim r [
      | none ↦ none
      | some st ↦
          some (record s { shell_params = st.shell_params; shell_param_num = st.shell_param_num })
    ]
