-- ===== src/Console/Cursor.antt =====
-- kernel.c: where the cursor of the graphics console stands.
use libre_win.Prelude.{
  ℕ, zero, suc, ◌+◌, ◌*◌, ◌%◌, ◌^◌, ◌≤◌, ◌<◌, ◌≡◌, refl, ◌∙◌, arith, false, ◌==◌, if◌then◌else◌,
  if_prop, Option, some, List, [], ◌∷◌, length,
}
use libre_win.Config.{u32}
use libre_win.Memory.{Mem}
use libre_win.Str.Text.{HasString}
use libre_win.Graphics.{Screen}
use libre_win.Console.{
  Console, white, with_buffer, advance_cursor, step_back, print_char, cursor_loop, render_loop,
  render_string, console_print,
}

-- The cursor stands on a cell of 8 by 16 pixels, of which the whole width is on the screen.
abbrev pub OnGrid : Console → Type 0
OnGrid k = (k.cursor_x % 8 ≡ 0) × (k.cursor_x + 8 ≤ k.width) × (k.cursor_y % 16 ≡ 0)

advance_cursor-OnGrid :
    (c : ℕ) (k : Console) → 8 ≤ k.width → k.width < 2 ^ 31 → OnGrid k → OnGrid (advance_cursor c k)
unfolding advance_cursor
advance_cursor-OnGrid c k wide narrow (cell, inside, row) = ground (arith, cell, inside, row)

step_back-OnGrid :
    (k : Console)
    → 8 ≤ k.width
    → k.width < 2 ^ 31
    → k.width % 8 ≡ 0
    → OnGrid k
    → OnGrid (step_back k)
unfolding step_back
step_back-OnGrid k wide narrow even (cell, inside, row) = ground (arith, cell, inside, row)

-- On a screen whose width is a number of characters, at least one, PrintChar of any character, the backspace included,
-- leaves the cursor on a cell of the grid, with the whole character on the screen's width.
pub print_char-OnGrid :
    (m : Mem) (fontdata c : ℕ) (k : Console)
    → 8 ≤ k.width
    → k.width < 2 ^ 31
    → k.width % 8 ≡ 0
    → OnGrid k
    → OnGrid (print_char m fontdata c k)
unfolding print_char
print_char-OnGrid m fontdata c k wide narrow even grid =
    if_prop OnGrid (c == 8) _ _ (λ _. step_back-OnGrid k wide narrow even grid)
      (λ _. advance_cursor-OnGrid c (with_buffer k _) wide narrow grid)

-- The column and the row of the next character, on a screen of `cols` columns.
abbrev pub next_cell : ℕ → ℕ → ℕ × ℕ → ℕ × ℕ
next_cell cols c (col, row) =
    if c == 10 then (0, row + 1) else if (col + 1) == cols then (0, row + 1) else (col + 1, row)

unfoldable pub cell_after : ℕ → List ℕ → ℕ × ℕ → ℕ × ℕ
cell_after cols [] p = p
cell_after cols (c ∷ text) p = cell_after cols text (next_cell cols c p)

-- The cursor stands on a cell of a screen of `cols` columns.
abbrev pub IsAt : ℕ → ℕ × ℕ → Console → Type 0
IsAt cols (col, row) k =
    (k.width ≡ 8 * cols) × (col < cols) × (k.cursor_x ≡ 8 * col) × (k.cursor_y ≡ u32 (16 * row))

next_cell-IsAt :
    (cols c : ℕ) (p : ℕ × ℕ) (k : Console)
    → 8 * cols < 2 ^ 31
    → IsAt cols p k
    → IsAt cols (next_cell cols c p) (advance_cursor c k)
unfolding advance_cursor
next_cell-IsAt cols c (col, row) k narrow (wide, inside, x, y) = ground (arith, wide, inside, x, y)

cursor_loop-IsAt :
    (fuel : ℕ) (m : Mem) (str : ℕ) (text : List ℕ) (cols : ℕ) (p : ℕ × ℕ) (k : Console)
    → 8 * cols < 2 ^ 31
    → HasString m str text
    → length text < fuel
    → IsAt cols p k
    → (k' : Console) × (cursor_loop fuel m str k ≡ some k') × IsAt cols (cell_after cols text p) k'
unfolding cursor_loop cell_after
cursor_loop-IsAt zero m str text cols p k narrow h f at = absurd (omega arith)
cursor_loop-IsAt (suc fuel) m str [] cols p k narrow h f at = (k, rw h refl, at)
cursor_loop-IsAt (suc fuel) m str (c ∷ text) cols p k narrow (byte, not_end, rest) f at =
    let go_on : (c == 0) ≡ false = ground arith in
    let (k', e, at') =
      cursor_loop-IsAt fuel m (str + 1) text cols (next_cell cols c p) (advance_cursor c k) narrow
        rest (omega arith) (next_cell-IsAt cols c p k narrow at) in
    (k', rw (byte, go_on) e, at')

render_loop-some :
    (fuel : ℕ) (m : Mem) (fontdata : ℕ) (s : Screen) (x cursor_x cursor_y color : ℕ) (b : Mem)
    (str screen_width : ℕ) (text : List ℕ)
    → HasString m str text
    → length text < fuel
    → (b' : Mem) × (render_loop fuel m fontdata s x cursor_x cursor_y color b str screen_width
        ≡ some b')
unfolding render_loop
render_loop-some zero m fontdata s x cursor_x cursor_y color b str screen_width text h f =
    absurd (omega arith)
render_loop-some (suc fuel) m fontdata s x cursor_x cursor_y color b str screen_width [] h f =
    (b, rw h refl)
render_loop-some (suc fuel) m fontdata s x cursor_x cursor_y color b str screen_width (c ∷ text)
      (byte, not_end, rest) f =
    let go_on : (c == 0) ≡ false = ground arith in
    rw (byte, go_on)
      (if_prop (λ (o : Option Mem). (b' : Mem) × (o ≡ some b')) (c == 10) _ _
        (λ _.
          render_loop-some fuel m fontdata s x x _ color b (str + 1) screen_width text rest
            (omega arith))
        (λ _.
          render_loop-some fuel m fontdata s x _ _ color _ (str + 1) screen_width text rest
            (omega arith)))

print_step :
    (fuel : ℕ) (m : Mem) (fontdata str : ℕ) (k : Console) (b : Mem)
    → render_string fuel m fontdata k.screen k.cursor_x k.cursor_y white k.buffer str k.width
      ≡ some b
    → console_print fuel m fontdata str k ≡ cursor_loop fuel m str (with_buffer k b)
unfolding console_print
print_step fuel m fontdata str k b e = rw (console_print, e) refl

-- Print of a string, with any fuel above its length, ends; it moves the cursor as many cells on as the text has
-- characters, to the next row at each newline and at the end of each row, however many rows the screen has. The screen
-- is a number of characters wide.
pub console_print-cell_after :
    (fuel : ℕ) (m : Mem) (fontdata str : ℕ) (text : List ℕ) (cols : ℕ) (p : ℕ × ℕ) (k : Console)
    → 8 * cols < 2 ^ 31
    → HasString m str text
    → length text < fuel
    → IsAt cols p k
    → (k' : Console) × (console_print fuel m fontdata str k ≡ some k')
      × IsAt cols (cell_after cols text p) k'
unfolding render_string
console_print-cell_after fuel m fontdata str text cols p k narrow h f at =
    let (b, drawn) =
      render_loop-some fuel m fontdata k.screen k.cursor_x k.cursor_x k.cursor_y white k.buffer str
        k.width text h f in
    let (k', e, at') = cursor_loop-IsAt fuel m str text cols p (with_buffer k b) narrow h f at in
    (k', print_step fuel m fontdata str k b drawn ∙ e, at')
