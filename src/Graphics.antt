-- ===== src/Graphics.antt =====
-- librewin/base/txos/ke/graphics/graphics.c: the registers of the display adapter, and pixels in a buffer of 32-bit
-- words. What is written to ports are pairs of a port and a 16-bit word, in order.
pub mod Rectangle
mod Tests
use libre_win.Prelude.{
  ℕ, zero, suc, ◌+◌, ◌-◌, ◌*◌, ◌%◌, ◌^◌, bit_or, Bool, true, ◌==◌, if◌then◌else◌, List, [], ◌∷◌,
  ◌++◌,
}
use libre_win.Config.{u32}
use libre_win.Memory.{Mem, write}

-- The width and the height of the screen.
pub record Screen : Type 0 where
  pub n_width : ℕ
  pub n_height : ℕ

abbrev pub dispi_ioport_index : ℕ
dispi_ioport_index = 0x01CE

abbrev pub dispi_ioport_data : ℕ
dispi_ioport_data = 0x01CF

abbrev pub dispi_index_id : ℕ
dispi_index_id = 0x0

abbrev pub dispi_index_xres : ℕ
dispi_index_xres = 0x1

abbrev pub dispi_index_yres : ℕ
dispi_index_yres = 0x2

abbrev pub dispi_index_bpp : ℕ
dispi_index_bpp = 0x3

abbrev pub dispi_index_enable : ℕ
dispi_index_enable = 0x4

abbrev pub dispi_id5 : ℕ
dispi_id5 = 0xB0C4

abbrev pub dispi_disabled : ℕ
dispi_disabled = 0x00

abbrev pub dispi_enabled : ℕ
dispi_enabled = 0x01

abbrev pub dispi_lfb_enabled : ℕ
dispi_lfb_enabled = 0x40

abbrev pub dispi_noclearmem : ℕ
dispi_noclearmem = 0x80

unfoldable pub bga_write_register : ℕ → ℕ → List (ℕ × ℕ)
bga_write_register index_value data_value =
    (dispi_ioport_index, index_value % 2 ^ 16) ∷ (dispi_ioport_data, data_value % 2 ^ 16) ∷ []

-- What is written, and the word that is read; `registers` is what the adapter answers at an index.
unfoldable pub bga_read_register : (ℕ → ℕ) → ℕ → ℕ × List (ℕ × ℕ)
bga_read_register registers index_value =
    (registers (index_value % 2 ^ 16), (dispi_ioport_index, index_value % 2 ^ 16) ∷ [])

unfoldable pub bga_is_available : (ℕ → ℕ) → Bool
unfolding bga_read_register
bga_is_available registers = (bga_read_register registers dispi_index_id).0 == dispi_id5

unfoldable pub bga_set_video_mode : ℕ → ℕ → ℕ → Bool → Bool → List (ℕ × ℕ)
unfolding bga_write_register
bga_set_video_mode width height bit_depth use_linear_frame_buffer clear_video_memory =
    let linear = (if use_linear_frame_buffer then dispi_lfb_enabled else 0) in
    let clear = (if clear_video_memory then 0 else dispi_noclearmem) in
    bga_write_register dispi_index_enable dispi_disabled
    ++ bga_write_register dispi_index_xres width
    ++ bga_write_register dispi_index_yres height
    ++ bga_write_register dispi_index_bpp bit_depth
    ++ bga_write_register dispi_index_enable (bit_or (bit_or dispi_enabled linear) clear)

unfoldable pub bga_disable : List (ℕ × ℕ)
unfolding bga_write_register
bga_disable = bga_write_register dispi_index_enable dispi_disabled

-- The buffer is a function from the number of a pixel to its color.
unfoldable pub put_pixel : Screen → ℕ → ℕ → ℕ → Mem → Mem
put_pixel s x y color framebuffer = write framebuffer (u32 (y * s.n_width + x)) color

-- The pixels of column `i` that are left, from row `j` on.
unfoldable pub column_loop : ℕ → Screen → ℕ → ℕ → ℕ → Mem → Mem
unfolding put_pixel
column_loop zero s i j color buf = buf
column_loop (suc left) s i j color buf =
    column_loop left s i (u32 (j + 1)) color (put_pixel s i j color buf)

-- The columns that are left, from column `i` on. A bound that wraps around ends a loop at once.
unfoldable pub columns_loop : ℕ → Screen → ℕ → ℕ → ℕ → ℕ → Mem → Mem
unfolding column_loop
columns_loop zero s i y height color buf = buf
columns_loop (suc left) s i y height color buf =
    columns_loop left s (u32 (i + 1)) y height color
      (column_loop (u32 (y + height) - y) s i y color buf)

unfoldable pub fill_rectangle : Screen → ℕ → ℕ → ℕ → ℕ → ℕ → Mem → Mem
unfolding columns_loop
fill_rectangle s x y width height color buf =
    columns_loop (u32 (x + width) - x) s x y height color buf

unfoldable pub vdi_set_screen_res : Screen → ℕ → ℕ → Screen
vdi_set_screen_res s w h = record { n_width = w; n_height = h }

unfoldable pub vdi_init : Screen → List (ℕ × ℕ)
unfolding bga_set_video_mode
vdi_init s = bga_set_video_mode s.n_width s.n_height 0x20 true true
