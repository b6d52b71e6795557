-- ===== src/Console/Tests.antt =====
-- The theorems of the graphics console on a screen of 640 by 480 pixels.
use libre_win.Prelude.{ℕ, ◌≡◌, refl, arith, some, List, [], ◌∷◌, get_or}
use libre_win.Memory.{Mem}
use libre_win.Console.{Console, print_char, console_print}
use libre_win.Console.Cursor.{OnGrid, IsAt, cell_after, print_char-OnGrid, console_print-cell_after}

-- "a", a newline and "b" at 0.
abbrev text : List ℕ
text = b'a' ∷ 10 ∷ b'b' ∷ []

abbrev memory : Mem
memory x = get_or text x 0

abbrev console : Console
console = record {
  cursor_x = 632;
  cursor_y = 32;
  width = 640;
  height = 480;
  screen = record { n_width = 640; n_height = 480 };
  buffer = λ i. 0;
}

-- A backspace in the last column.
print_char-OnGrid_example : OnGrid (print_char memory 0x1000 8 console)
print_char-OnGrid_example =
    print_char-OnGrid memory 0x1000 8 console (omega arith) (omega arith) refl
      (refl, omega arith, refl)

console_print-cell_after_example :
    (k' : Console) × (console_print 4 memory 0x1000 0 console ≡ some k')
    × IsAt 80 (cell_after 80 text (79, 2)) k'
console_print-cell_after_example =
    console_print-cell_after 4 memory 0x1000 0 text 80 (79, 2) console (omega arith)
      (
        refl,
        (λ e. omega (arith, e)),
        (refl, (λ e. omega (arith, e)), (refl, (λ e. omega (arith, e)), refl)),
      )
      (omega arith) (refl, omega arith, refl, refl)
