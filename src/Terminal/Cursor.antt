-- ===== src/Terminal/Cursor.antt =====
-- The terminal of kernel.c: the cursor stays on the screen, and so does what it writes.
use libre_win.Prelude.{
  ℕ, zero, suc, ◌+◌, ◌≤◌, ◌<◌, ◌≡◌, refl, false, arith, ltb, leb, if◌then◌else◌, some, ◌∙◌, ap,
  List, length, if_prop,
}
use libre_win.Memory.{Mem, write}
use libre_win.Terminal.{
  Terminal, advance, terminal_writechar, terminal_putchar, print_loop, print, keep_on_screen,
  vga_entry_color, vga_white, vga_blue,
}
use libre_win.Terminal.Scroll.{terminal_scroll_lem}
use libre_win.Str.Text.{HasString}
use libre_win.Str.Scan.{strlen-length}
use mathlib.Core.Option

-- The cursor is on the screen.
unfoldable pub IsOnScreen : Terminal → Type 0
IsOnScreen t = (t.terminal_row < 20) × (t.terminal_col < 80)

advance_cursor :
    (t : Terminal) (c colour : ℕ) → IsOnScreen t → (advance t c colour).terminal_col < 80
unfolding advance IsOnScreen terminal_putchar
advance_cursor t c colour h = ground arith

-- What a character leaves alone: everything behind the screen.
advance_frame :
    (t : Terminal) (c colour k : ℕ)
    → IsOnScreen t
    → 1600 ≤ k
    → (advance t c colour).video_mem k ≡ t.video_mem k
unfolding advance IsOnScreen terminal_putchar write
advance_frame t c colour k h h' = ground arith

leb-false : (n : ℕ) → leb 20 n ≡ false → n < 20
leb-false n e = ground arith

keep_cursor : (t : Terminal) → t.terminal_col < 80 → IsOnScreen (keep_on_screen t)
unfolding keep_on_screen IsOnScreen
keep_cursor t h =
    if_prop IsOnScreen (leb 20 t.terminal_row) _ t
      (λ e. (omega arith, rw ((terminal_scroll_lem t).1) h)) (λ e. (leb-false t.terminal_row e, h))

keep_frame : (t : Terminal) (k : ℕ) → 1600 ≤ k → (keep_on_screen t).video_mem k ≡ t.video_mem k
unfolding keep_on_screen
keep_frame t k h =
    if_prop (λ t'. t'.video_mem k ≡ t.video_mem k) (leb 20 t.terminal_row) _ t
      (λ e. behind (t.video_mem (k + 80)) (t.video_mem k) k h ((terminal_scroll_lem t).2 k))
      (λ e. refl)
  where
    behind :
        (x y k : ℕ) {z : ℕ}
        → 1600 ≤ k
        → z ≡ (if ltb k 1520 then x else if ltb k 1600 then 0x1f20 else y)
        → z ≡ y
    behind x y k h e = ground arith

-- Where the cursor is on the screen, writing a character leaves it there and writes no cell behind the screen.
pub terminal_writechar_lem :
    (t : Terminal) (c colour : ℕ)
    → IsOnScreen t
    → IsOnScreen (terminal_writechar t c colour)
      × ((k : ℕ) → 1600 ≤ k → (terminal_writechar t c colour).video_mem k ≡ t.video_mem k)
unfolding terminal_writechar
terminal_writechar_lem t c colour h =
    let col = advance_cursor t c colour h in
    (
      keep_cursor (advance t c colour) col,
      λ k e. keep_frame (advance t c colour) k e ∙ advance_frame t c colour k h e,
    )

print_loop_lem :
    (left i : ℕ) (m : Mem) (str : ℕ) (t : Terminal)
    → IsOnScreen t
    → IsOnScreen (print_loop left i m str t)
      × ((k : ℕ) → 1600 ≤ k → (print_loop left i m str t).video_mem k ≡ t.video_mem k)
unfolding print_loop
print_loop_lem zero i m str t h = (h, λ k e. refl)
print_loop_lem (suc left) i m str t h =
    let c = m (str + i) in
    let colour = vga_entry_color vga_white vga_blue in
    let (h', cells) = terminal_writechar_lem t c colour h in
    let (h'', cells') = print_loop_lem left (i + 1) m str (terminal_writechar t c colour) h' in
    (h'', λ k e. cells' k e ∙ cells k e)

-- Printing the string `s` at `str` ends, with the cursor on the screen and no cell behind it written, when the
-- cursor starts on the screen and the fuel is more than the length of the string.
pub print_lem :
    (fuel : ℕ) (m : Mem) (str : ℕ) (s : List ℕ) (t : Terminal)
    → HasString m str s
    → length s < fuel
    → IsOnScreen t
    → (t' : Terminal) × (print fuel m str t ≡ some t')
      × IsOnScreen t'
      × ((k : ℕ) → 1600 ≤ k → t'.video_mem k ≡ t.video_mem k)
unfolding print
print_lem fuel m str s t hs hf h =
    let (h', cells) = print_loop_lem (length s) 0 m str t h in
    (
      print_loop (length s) 0 m str t,
      ap (Option.map (λ len. print_loop len 0 m str t)) (strlen-length fuel m str s hs hf),
      h',
      cells,
    )
