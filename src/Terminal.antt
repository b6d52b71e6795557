-- ===== src/Terminal.antt =====
-- librewin/base/txos/init/kernel.c: the text terminal, 20 rows of 80 cells in video memory.
pub mod Scroll
pub mod Cursor
mod Tests
use libre_win.Prelude.{
  ℕ, zero, suc, ◌+◌, ◌-◌, ◌*◌, ◌%◌, ◌^◌, bit_or, Bool, Option, none, some, ltb, leb, ◌==◌,
  if◌then◌else◌,
}
use mathlib.Core.Option
use libre_win.Memory.{Mem, write}
use libre_win.Str.{strlen}

abbrev pub vga_width : ℕ
vga_width = 80

abbrev pub vga_height : ℕ
vga_height = 20

-- The three variables of the terminal. A cell of `video_mem` is a 16-bit word, by its number.
pub record Terminal : Type 0 where
  pub video_mem : Mem
  pub terminal_row : ℕ
  pub terminal_col : ℕ

-- VGA_COLOR_BLUE and VGA_COLOR_WHITE
abbrev pub vga_blue : ℕ
vga_blue = 1

abbrev pub vga_white : ℕ
vga_white = 15

unfoldable pub vga_entry_color : ℕ → ℕ → ℕ
vga_entry_color fg bg = bit_or fg (bg * 2 ^ 4) % 2 ^ 8

-- A negative character fills the upper byte with ones.
unfoldable pub terminal_make_char : ℕ → ℕ → ℕ
terminal_make_char c colour = bit_or (colour * 2 ^ 8) (if ltb c 128 then c else c + 0xff00) % 2 ^ 16

pub terminal_putchar : Terminal → ℕ → ℕ → ℕ → ℕ → Terminal
terminal_putchar t x y c colour = record t {
  video_mem = write t.video_mem (y * vga_width + x) (terminal_make_char c colour);
}

-- One row moves up: the cells that are left, from column `x` on.
pub move_row : ℕ → ℕ → ℕ → Mem → Mem
move_row zero x y m = m
move_row (suc left) x y m =
    move_row left (x + 1) y (write m ((y - 1) * vga_width + x) (m (y * vga_width + x)))

-- The rows that are left, from row `y` on.
pub move_rows : ℕ → ℕ → Mem → Mem
unfolding move_row
move_rows zero y m = m
move_rows (suc left) y m = move_rows left (y + 1) (move_row vga_width 0 y m)

pub clear_row : ℕ → ℕ → ℕ → Mem → Mem
clear_row zero x cell m = m
clear_row (suc left) x cell m =
    clear_row left (x + 1) cell (write m ((vga_height - 1) * vga_width + x) cell)

pub terminal_scroll : Terminal → Terminal
unfolding move_rows clear_row
terminal_scroll t =
    let blank = terminal_make_char b' ' (vga_entry_color vga_white vga_blue) in
    record t { video_mem = clear_row vga_width 0 blank (move_rows (vga_height - 1) 1 t.video_mem) }

-- The cursor after a character, before the scroll.
pub advance : Terminal → ℕ → ℕ → Terminal
unfolding terminal_putchar
advance t c colour =
    if c == 10
    then record t { terminal_col = 0; terminal_row = t.terminal_row + 1 }
    else (let t' = terminal_putchar t t.terminal_col t.terminal_row c colour in
        let col = t.terminal_col + 1 in
        if leb vga_width col
        then record t' { terminal_col = 0; terminal_row = t.terminal_row + 1 }
        else record t' { terminal_col = col })

-- A cursor below the last row scrolls the screen.
pub keep_on_screen : Terminal → Terminal
unfolding terminal_scroll
keep_on_screen t =
    if leb vga_height t.terminal_row
    then record (terminal_scroll t) { terminal_row = vga_height - 1 }
    else t

pub terminal_writechar : Terminal → ℕ → ℕ → Terminal
unfolding advance keep_on_screen
terminal_writechar t c colour = keep_on_screen (advance t c colour)

-- The characters that are left of the string at `str`, from number `i` on.
pub print_loop : ℕ → ℕ → Mem → ℕ → Terminal → Terminal
unfolding terminal_writechar
print_loop zero i m str t = t
print_loop (suc left) i m str t =
    print_loop left (i + 1) m str
      (terminal_writechar t (m (str + i)) (vga_entry_color vga_white vga_blue))

-- `none` where the fuel of strlen runs out.
pub print : ℕ → Mem → ℕ → Terminal → Option Terminal
unfolding print_loop
print fuel m str t = Option.map (λ len. print_loop len 0 m str t) (strlen fuel m str)

-- The rows and columns that are left of the screen, which terminal_initialize fills with blue.
pub fill_row : ℕ → ℕ → ℕ → Terminal → Terminal
unfolding terminal_putchar
fill_row zero x y t = t
fill_row (suc left) x y t =
    fill_row left (x + 1) y (terminal_putchar t x y b' ' (vga_entry_color vga_blue vga_blue))

pub fill_rows : ℕ → ℕ → Terminal → Terminal
unfolding fill_row
fill_rows zero y t = t
fill_rows (suc left) y t = fill_rows left (y + 1) (fill_row vga_width 0 y t)

-- FirstTimeBootInit has the same body. The rows run ten past the height.
pub terminal_initialize : Terminal → Terminal
unfolding fill_rows
terminal_initialize t =
    fill_rows (vga_height + 10) 0 (record t { terminal_row = 0; terminal_col = 0 })
