-- ===== src/Boot/Resolution.antt =====
-- kernel_main: the resolution in the settings of boot.ini.
use libre_win.Prelude.{
  ℕ, ◌+◌, ◌^◌, ◌<◌, leb, ◌*◌, ◌≡◌, ◌≢◌, refl, arith, false, ◌==◌, some, List, [], ◌∷◌, ◌++◌, length,
  drop, length-drop,
}
use libre_win.Memory.{Mem, write}
use libre_win.Str.Text.{HasString, HasString-drop}
use libre_win.Debug.{decimal_digits}
use libre_win.Settings.{strstr, fetchwh}
use libre_win.Settings.Search.{first_occurrence, first_occurrence-le, strstr-first_occurrence}
use libre_win.Settings.Resolution.{HasResolution, fetchwh-decimal_digits}
use libre_win.Boot.{
  read_settings, settings_of, extracted, Asked, kernel_main, start_up, buffer_size, print_cpu_model,
  terminal_initialize, vdi_set_screen_res, vdi_init, kmalloc_buffer, load_psf_font, jump_usermode,
}

-- The bytes of "[settings]" and of "res=".
abbrev pub section_text : List ℕ
section_text = b'[' ∷ b's' ∷ b'e' ∷ b't' ∷ b't' ∷ b'i' ∷ b'n' ∷ b'g' ∷ b's' ∷ b']' ∷ []

abbrev pub key_text : List ℕ
key_text = b'r' ∷ b'e' ∷ b's' ∷ b'=' ∷ []

settings_step :
    (fuel : ℕ) (m : Mem) (section key buf w h found start width height : ℕ)
    → strstr fuel m buf section ≡ some (some found)
    → strstr fuel m found key ≡ some (some start)
    → fetchwh fuel m (start + 4) ≡ some (2, width, height)
    → read_settings fuel m section key buf w h ≡ some (settings_of extracted width height)
unfolding read_settings
settings_step fuel m section key buf w h found start width height e f g = rw (e, f, g) refl

module _ (fuel : ℕ) (m : Mem) (section key buf width height i j : ℕ) (text : List ℕ)
    (has_text : HasString m buf text) (has_section : HasString m section section_text)
    (has_key : HasString m key key_text) (long : length text + 10 < fuel)
    (at_section : first_occurrence section_text text ≡ some i)
    (at_key : first_occurrence key_text (drop i text) ≡ some j)
    (resolution : HasResolution m (buf + i + j + 4) width height) (small_width : width < 2 ^ 32)
    (small_height : height < 2 ^ 32) (long_width : length (decimal_digits width) < fuel)
    (long_height : length (decimal_digits height) < fuel) where
  read_settings-HasResolution :
      (w h : ℕ)
      → read_settings fuel m section key buf w h ≡ some (settings_of extracted width height)
  read_settings-HasResolution w h =
      let first =
        strstr-first_occurrence fuel m buf section text section_text has_text has_section
          (omega arith) in
      let rest =
        HasString-drop m buf i text (first_occurrence-le section_text text i at_section) has_text in
      let second =
        strstr-first_occurrence fuel m (buf + i) key (drop i text) key_text rest has_key
          (omega (arith, length-drop i text)) in
      settings_step fuel m section key buf w h (buf + i) (buf + i + j) width height
        (rw at_section at first) (rw at_key at second)
        (fetchwh-decimal_digits fuel m (buf + i + j + 4) width height small_width small_height
          long_width long_height resolution)

kernel_main_step :
    (fuel : ℕ) (q : Asked) (width height : ℕ)
    → q.fd ≢ 0
    → q.double_buffer (buffer_size width height) ≢ 0
    → width * height * 32 < 2 ^ 31
    → read_settings fuel (write q.mem (q.buf + 500) 0) q.section q.key q.buf 640 480
      ≡ some (settings_of extracted width height)
    → kernel_main fuel q
      ≡ some (
          start_up
          ++ (terminal_initialize
              ∷ vdi_set_screen_res width height
              ∷ vdi_init
              ∷ kmalloc_buffer (buffer_size width height)
              ∷ print_cpu_model
              ∷ load_psf_font
              ∷ jump_usermode
              ∷ []))
unfolding kernel_main
kernel_main_step fuel q width height opened allocated small e =
    let no_overflow : leb (2 ^ 31) (width * height * 32) ≡ false = ground arith in
    let there : (q.fd == 0) ≡ false = ground arith in
    let room : (q.double_buffer (buffer_size width height) == 0) ≡ false = ground arith in
    rw (e, there, no_overflow, room) refl

-- Where boot.ini opens, its text has "[settings]", and behind its first one the first "res=" is followed by two 32-bit
-- numbers with an x between them and then the end of a line or of the text, where the size of the double buffer is no overflow of an
-- `int`, and where it is allocated,
-- kernel_main sets the screen to these two numbers, allocates the buffer for it and ends in user mode; any fuel
-- above the lengths is enough.
pub kernel_main-HasResolution :
    (fuel : ℕ) (q : Asked) (width height i j : ℕ) (text : List ℕ)
    → let m = write q.mem (q.buf + 500) 0 in
      (q.fd ≢ 0)
      → (q.double_buffer (buffer_size width height) ≢ 0)
      → (width * height * 32 < 2 ^ 31)
      → (HasString m q.buf text)
      → (HasString m q.section section_text)
      → (HasString m q.key key_text)
      → (length text + 10 < fuel)
      → (first_occurrence section_text text ≡ some i)
      → (first_occurrence key_text (drop i text) ≡ some j)
      → (HasResolution m (q.buf + i + j + 4) width height)
      → (width < 2 ^ 32)
      → (height < 2 ^ 32)
      → (length (decimal_digits width) < fuel)
      → (length (decimal_digits height) < fuel)
      → kernel_main fuel q
        ≡ some (
            start_up
            ++ (terminal_initialize
                ∷ vdi_set_screen_res width height
                ∷ vdi_init
                ∷ kmalloc_buffer (buffer_size width height)
                ∷ print_cpu_model
                ∷ load_psf_font
                ∷ jump_usermode
                ∷ []))
kernel_main-HasResolution fuel q width height i j text opened allocated small has_text has_section
      has_key long at_section at_key resolution small_width small_height long_width long_height =
    kernel_main_step fuel q width height opened allocated small (
      read_settings-HasResolution fuel (write q.mem (q.buf + 500) 0) q.section q.key q.buf width
        height i j text has_text has_section has_key long at_section at_key resolution small_width
        small_height long_width long_height 640 480)
