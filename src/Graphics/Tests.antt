-- ===== src/Graphics/Tests.antt =====
-- The theorem of FillRectangle on a screen of 320 by 200 pixels.
use libre_win.Prelude.{◌+◌, ◌*◌, ◌≡◌, arith}
use libre_win.Graphics.{Screen, fill_rectangle}
use libre_win.Graphics.Rectangle.{fill_rectangle_lem}

abbrev screen : Screen
screen = record { n_width = 320; n_height = 200 }

-- Row 15 and column 12, in a rectangle of 20 by 30 pixels at column 10 and row 5.
fill_rectangle_lem_example : fill_rectangle screen 10 5 20 30 7 (λ i. 0) (15 * 320 + 12) ≡ 7
fill_rectangle_lem_example =
    fill_rectangle_lem screen 10 5 20 30 7 (λ i. 0) 12 15 (omega arith) (omega arith) (omega arith)
      (omega arith) (omega arith)
