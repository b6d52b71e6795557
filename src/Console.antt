-- ===== src/Console.antt =====
-- librewin/base/txos/init/kernel.c: text on the graphics screen, which is RenderChar, RenderString, PrintChar, Print and
-- ClearScreen. A position is in pixels, by its 32 bits; the double buffer is a function from the number of a pixel to its
-- color. The font lies in memory, whose address is a parameter. A loop over a string takes fuel.
pub mod Cursor
mod Tests
use libre_win.Prelude.{
  ℕ, zero, suc, ◌+◌, ◌-◌, ◌*◌, ◌/◌, ◌%◌, ◌^◌, bit_and, Bool, ◌||◌, not, ltb, leb, ◌==◌,
  if◌then◌else◌, Option, none, some,
}
use libre_win.Config.{u32, sub32}
use libre_win.Memory.{Mem}
use libre_win.Graphics.{Screen, put_pixel, fill_rectangle}

-- The cursor and the double buffer. `width` and `height` are `w` and `h`; the screen of the graphics driver is beside
-- them, since the driver keeps its own.
pub record Console : Type 0 where
  pub cursor_x : ℕ
  pub cursor_y : ℕ
  pub width : ℕ
  pub height : ℕ
  pub screen : Screen
  pub buffer : Mem

abbrev pub with_buffer : Console → Mem → Console
with_buffer k b = record k { buffer = b }

abbrev pub at_cursor : Console → ℕ → ℕ → Console
at_cursor k x y = record k { cursor_x = x; cursor_y = y }

abbrev pub white : ℕ
white = 0xFFFFFFFF

abbrev pub blue : ℕ
blue = 0xFF0000FF

-- The columns of a line of a glyph that are left.
pub line_loop : ℕ → ℕ → Screen → ℕ → ℕ → ℕ → ℕ → Mem → Mem
line_loop zero col s line x y color framebuffer = framebuffer
line_loop (suc left) col s line x y color framebuffer = line_loop left (col + 1) s line x y color (
    if bit_and line (0x80 / 2 ^ col) == 0
    then framebuffer
    else put_pixel s (u32 (x + col)) y color framebuffer)

pub glyph_loop : ℕ → ℕ → Mem → ℕ → Screen → ℕ → ℕ → ℕ → Mem → Mem
glyph_loop zero row m glyph s x y color framebuffer = framebuffer
glyph_loop (suc left) row m glyph s x y color framebuffer =
    glyph_loop left (row + 1) m glyph s x y color
      (line_loop 8 0 s (m (u32 (glyph + row))) x (u32 (y + row)) color framebuffer)

-- A character from 128 on is negative. The header of a font has four bytes: two magic ones, its mode and its size.
pub render_char : Mem → ℕ → Screen → ℕ → ℕ → ℕ → Mem → ℕ → Mem
render_char m fontdata s x y color framebuffer c =
    let charsize = m (fontdata + 3) in
    let start = u32 (fontdata + 4) in
    let glyph =
      (if ltb c 128 then u32 (start + c * charsize) else sub32 start ((256 - c) * charsize)) in
    if not (m fontdata == 0x36) || not (m (fontdata + 1) == 0x04)
    then framebuffer
    else glyph_loop 16 0 m glyph s x y color framebuffer

-- `x` and the cursor.
pub render_loop : ℕ → Mem → ℕ → Screen → ℕ → ℕ → ℕ → ℕ → Mem → ℕ → ℕ → Option Mem
render_loop zero m fontdata s x cursor_x cursor_y color framebuffer str screen_width = none
render_loop (suc fuel) m fontdata s x cursor_x cursor_y color framebuffer str screen_width =
    let drawn = render_char m fontdata s cursor_x cursor_y color framebuffer (m str) in
    let next_x = u32 (cursor_x + 8) in
    let wraps = ltb screen_width (u32 (next_x + 8)) in
    let line =
      render_loop fuel m fontdata s x x (u32 (cursor_y + 16)) color framebuffer (str + 1)
        screen_width in
    let more =
      render_loop fuel m fontdata s x (if wraps then x else next_x)
        (if wraps then u32 (cursor_y + 16) else cursor_y) color drawn (str + 1) screen_width in
    if m str == 0 then some framebuffer else if m str == 10 then line else more

pub render_string : ℕ → Mem → ℕ → Screen → ℕ → ℕ → ℕ → Mem → ℕ → ℕ → Option Mem
render_string fuel m fontdata s x y color framebuffer str screen_width =
    render_loop fuel m fontdata s x x y color framebuffer str screen_width

-- Where the cursor goes after a character.
pub advance_cursor : ℕ → Console → Console
advance_cursor c k =
    let next_x = u32 (k.cursor_x + 8) in
    if c == 10
    then at_cursor k 0 (u32 (k.cursor_y + 16))
    else if ltb k.width (u32 (next_x + 8))
    then at_cursor k 0 (u32 (k.cursor_y + 16))
    else at_cursor k next_x k.cursor_y

pub step_back : Console → Console
step_back k =
    if leb 8 k.cursor_x
    then at_cursor k (k.cursor_x - 8) k.cursor_y
    else if leb 16 k.cursor_y
    then at_cursor k (u32 (k.width + (2 ^ 32 - 8))) (k.cursor_y - 16)
    else k

-- The pixels of a row of a character that are left, and its rows that are left.
pub blank_row : ℕ → ℕ → Screen → ℕ → ℕ → Mem → Mem
blank_row zero col s x y buf = buf
blank_row (suc left) col s x y buf =
    blank_row left (col + 1) s x y (put_pixel s (u32 (x + col)) y blue buf)

pub blank_rows : ℕ → ℕ → Screen → ℕ → ℕ → Mem → Mem
blank_rows zero row s x y buf = buf
blank_rows (suc left) row s x y buf =
    blank_rows left (row + 1) s x y (blank_row 8 0 s x (u32 (y + row)) buf)

pub print_char : Mem → ℕ → ℕ → Console → Console
print_char m fontdata c k =
    let back = step_back k in
    let drawn = render_char m fontdata k.screen k.cursor_x k.cursor_y white k.buffer c in
    if c == 8
    then with_buffer back (blank_rows 16 0 k.screen back.cursor_x back.cursor_y k.buffer)
    else advance_cursor c (with_buffer k drawn)

-- The cursor after the characters that are left.
pub cursor_loop : ℕ → Mem → ℕ → Console → Option Console
cursor_loop zero m str k = none
cursor_loop (suc fuel) m str k =
    let more = cursor_loop fuel m (str + 1) (advance_cursor (m str) k) in
    if m str == 0 then some k else more

-- Print.
pub console_print : ℕ → Mem → ℕ → ℕ → Console → Option Console
console_print fuel m fontdata str k =
    elim (render_string fuel m fontdata k.screen k.cursor_x k.cursor_y white k.buffer str k.width) [
      | none ↦ none
      | some b ↦ cursor_loop fuel m str (with_buffer k b)
    ]

pub clear_screen : Console → Console
clear_screen k = with_buffer k (fill_rectangle k.screen 0 0 k.width k.height blue k.buffer)
