-- ===== src/Tty/Stuck.antt =====
-- A terminal of tty/tty.c whose buffer is full.
use krven_os.Common.{
  ℕ, ◌+◌, ◌%◌, ◌^◌, ◌<◌, ◌≡◌, sym, refl, arith, false, some, List, [], ◌∷◌, ltb, update,
  update_self, length,
}
use mathlib.Core.Path.{subst}
use mathlib.Core.List.{append-nil}
use krven_os.Tty.{Tty, Terminals, Handlers, tty_print, tty_prints, tty_putc, tty_write}
use krven_os.Tty.Edit.{IsTyped, Typing}
use krven_os.Tty.Line.{tty_prints-Typing, tty_write-Typing}

abbrev Full : Tty → Type 0
Full tty = (tty.point ≡ 255) × (tty.buf_size < 2 ^ 8)

tty_write-Full :
    (num : ℕ) (cs : List ℕ) (t : Terminals)
    → Full (t.tty_table num)
    → Full ((tty_write num cs t).tty_table num)
unfolding tty_write tty_putc
tty_write-Full num [] t full = full
tty_write-Full num (c ∷ cs) t (point, size) =
    let tty = t.tty_table num in
    let tty' : Tty = record tty {
      buf = update tty.buf tty.buf_size c;
      buf_size = (tty.buf_size + 1) % 2 ^ 8;
    } in
    tty_write-Full num cs (tty_putc num c t)
      (subst Full (sym (update_self t.tty_table num tty')) (point, omega arith))

tty_print-Full :
    (handlers : Handlers) (num : ℕ) (t : Terminals)
    → Full (t.tty_table num)
    → tty_print handlers num t ≡ some t
unfolding tty_print
tty_print-Full handlers num t (point, size) =
    let tty = t.tty_table num in
    let e : ltb tty.point tty.buf_size ≡ false = ground arith in rw e refl

-- Once 255 characters without a line feed are typed into an idle terminal and printed, the terminal is dead:
-- whatever is written to it afterwards, line feeds included, a round of the loop does nothing.
pub tty_print-stuck :
    (handlers : Handlers) (num : ℕ) (cs after : List ℕ) (t : Terminals)
    → Typing 0 [] [] (t.tty_table num)
    → IsTyped cs
    → length cs ≡ 255
    → (t1 : Terminals) × (tty_prints handlers (length cs) num (tty_write num cs t) ≡ some t1)
      × (tty_print handlers num (tty_write num after t1) ≡ some (tty_write num after t1))
tty_print-stuck handlers num cs after t idle typed full =
    let (typing0, current0, shell0) = tty_write-Typing num 0 [] cs [] t idle (omega arith) in
    let typing0' =
      subst (λ w. Typing 0 w [] ((tty_write num cs t).tty_table num)) (sym (append-nil cs))
        typing0 in
    let (t1, runs, (point, size, room, rest, pos, below, line), current, others) =
      tty_prints-Typing handlers num 0 cs [] [] (tty_write num cs t) typed typing0' in
    (
      t1,
      runs,
      tty_print-Full handlers num (tty_write num after t1)
          (tty_write-Full num after t1 (omega arith, omega arith)),
    )
