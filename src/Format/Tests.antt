-- ===== src/Format/Tests.antt =====
-- Runs of kernel/printk.c and libs/number.c at concrete inputs.
use krven_os.Common.{ℕ, ◌-◌, ◌^◌, ◌≡◌, arith, List, [], ◌∷◌, ◌++◌}
use krven_os.Format.{number, cstr_to_int32}
use krven_os.Format.Print.{padded_int}
use krven_os.Format.Width.{Fills, number-Fills}
use krven_os.Format.Template.{int, prepend, template_loop, vsprintf}
use krven_os.Format.Template.Ends.{Ends, vsprintf-Ends}
use krven_os.Format.Template.Prints.{vsprintf-int}

-- "a=%d;" with 7
vsprintf-int_example :
    (t : List ℕ) × (vsprintf ((97 ∷ 61 ∷ []) ++ (37 ∷ 100 ∷ 59 ∷ [])) (int 7 ∷ [])
      ≡ prepend (97 ∷ 61 ∷ []) (prepend t (vsprintf (59 ∷ []) [])))
    × (cstr_to_int32 t ≡ 7)
vsprintf-int_example =
    vsprintf-int (97 ∷ 61 ∷ []) (59 ∷ []) 7 [] (omega arith, (omega arith, omega arith))
      (omega arith)

number-Fills_example : Fills 6 4 (number (2 ^ 32 - 42) 16 6 4 padded_int)
number-Fills_example =
    number-Fills padded_int (2 ^ 32 - 42) 16 6 4 (omega arith) (omega arith) (omega arith)

-- "%d%" with 7: the second "%" is at the end of the template.
vsprintf-Ends_example :
    Ends (37 ∷ 100 ∷ 37 ∷ []) (int 7 ∷ []) (vsprintf (37 ∷ 100 ∷ 37 ∷ []) (int 7 ∷ []))
    × (template_loop 9 (37 ∷ 100 ∷ 37 ∷ []) (int 7 ∷ [])
        ≡ vsprintf (37 ∷ 100 ∷ 37 ∷ []) (int 7 ∷ []))
vsprintf-Ends_example = vsprintf-Ends 9 (37 ∷ 100 ∷ 37 ∷ []) (int 7 ∷ []) (omega arith)
