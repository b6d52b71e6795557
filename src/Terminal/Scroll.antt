-- ===== src/Terminal/Scroll.antt =====
-- The terminal of kernel.c: terminal_scroll cell by cell.
use libre_win.Prelude.{ℕ, zero, suc, ◌+◌, ◌-◌, ◌*◌, ◌≤◌, ◌≡◌, refl, arith, ltb, if◌then◌else◌}
use libre_win.Memory.{Mem, write}
use libre_win.Terminal.{
  Terminal, move_row, move_rows, clear_row, terminal_scroll, terminal_make_char, vga_entry_color,
  vga_white, vga_blue,
}
use libre_win.Memory.Laws.{within}

-- Row `y` is copied to the row above it, from column `x` on.
move_row_lem :
    (left x y : ℕ) (m : Mem) (k : ℕ)
    → x + left ≡ 80
    → 1 ≤ y
    → move_row left x y m k ≡ (if within ((y - 1) * 80 + x) left k then m (k + 80) else m k)
unfolding move_row write
move_row_lem zero x y m k e h = ground arith
move_row_lem (suc left) x y m k e h = ground (
  arith,
  move_row_lem left (x + 1) y (write m ((y - 1) * 80 + x) (m (y * 80 + x))) k (omega arith) h,
)

move_rows_lem :
    (left y : ℕ) (m : Mem) (k : ℕ)
    → y + left ≡ 20
    → 1 ≤ y
    → move_rows left y m k ≡ (if within ((y - 1) * 80) (left * 80) k then m (k + 80) else m k)
unfolding move_rows
move_rows_lem zero y m k e h = ground arith
move_rows_lem (suc left) y m k e h = ground (
  arith,
  move_rows_lem left (y + 1) (move_row 80 0 y m) k (omega arith) (omega arith),
  move_row_lem 80 0 y m k refl h,
  move_row_lem 80 0 y m (k + 80) refl h,
)

clear_row_lem :
    (left x cell : ℕ) (m : Mem) (k : ℕ)
    → clear_row left x cell m k ≡ (if within (1520 + x) left k then cell else m k)
unfolding clear_row write
clear_row_lem zero x cell m k = ground arith
clear_row_lem (suc left) x cell m k =
    ground (arith, clear_row_lem left (x + 1) cell (write m (1520 + x) cell) k)

blank-eq : terminal_make_char b' ' (vga_entry_color vga_white vga_blue) ≡ 0x1f20
unfolding terminal_make_char vga_entry_color
blank-eq = refl

scroll_cell :
    (m : Mem) (cell k : ℕ)
    → clear_row 80 0 cell (move_rows 19 1 m) k
      ≡ (if ltb k 1520 then m (k + 80) else if ltb k 1600 then cell else m k)
scroll_cell m cell k =
    ground (
      arith,
      clear_row_lem 80 0 cell (move_rows 19 1 m) k,
      move_rows_lem 19 1 m k refl (omega arith),
    )

-- Scrolling moves every row but the first one up, clears the last row with white on blue blanks, and leaves
-- the memory behind the screen and the cursor alone.
pub terminal_scroll_lem :
    (t : Terminal)
    → ((terminal_scroll t).terminal_row ≡ t.terminal_row)
      × ((terminal_scroll t).terminal_col ≡ t.terminal_col)
      × ((k : ℕ)
          → (terminal_scroll t).video_mem k ≡ (
              if ltb k 1520
              then t.video_mem (k + 80)
              else if ltb k 1600
              then 0x1f20
              else t.video_mem k))
unfolding terminal_scroll
terminal_scroll_lem t = (refl, refl, λ k. rw blank-eq (scroll_cell t.video_mem 0x1f20 k))
