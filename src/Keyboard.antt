-- ===== src/Keyboard.antt =====
-- librewin/base/txos/ke/idt/idt.c: the keyboard interrupt, which edits one line of input, and the string
-- functions beside it.
pub mod Line
mod Tests
use libre_win.Prelude.{
  ℕ, zero, suc, ◌+◌, ◌-◌, ◌/◌, ◌%◌, ◌^◌, Bool, ◌&&◌, not, ltb, leb, ◌==◌, if◌then◌else◌, Option,
  none, some, List, [], ◌∷◌,
}
use libre_win.Memory.{Mem, write}

-- The table of keys, by scancode.
pub kb : List ℕ
kb =
    0 ∷ 27 ∷ b'1' ∷ b'2' ∷ b'3' ∷ b'4' ∷ b'5' ∷ b'6' ∷ b'7' ∷ b'8' ∷ b'9' ∷ b'0' ∷ b'-' ∷ b'=' ∷ 8
    ∷ 9 ∷ b'q' ∷ b'w' ∷ b'e' ∷ b'r' ∷ b't' ∷ b'y' ∷ b'u' ∷ b'i' ∷ b'o' ∷ b'p' ∷ b'[' ∷ b']' ∷ 10 ∷ 0
    ∷ b'a' ∷ b's' ∷ b'd' ∷ b'f' ∷ b'g' ∷ b'h' ∷ b'j' ∷ b'k' ∷ b'l' ∷ b';' ∷ b'\'' ∷ b'`' ∷ 0 ∷ b'\\'
    ∷ b'z' ∷ b'x' ∷ b'c' ∷ b'v' ∷ b'b' ∷ b'n' ∷ b'm' ∷ b',' ∷ b'.' ∷ b'/' ∷ 0 ∷ b'*' ∷ 0 ∷ b' ' ∷ 0
    ∷ 0 ∷ 0 ∷ 0 ∷ 0 ∷ 0 ∷ 0 ∷ 0 ∷ 0 ∷ 0 ∷ 0 ∷ 0 ∷ 0 ∷ []

-- The entry of a C array, `none` past its end.
pub entry : List ℕ → ℕ → Option ℕ
entry [] i = none
entry (x ∷ xs) zero = some x
entry (x ∷ xs) (suc i) = entry xs i

-- What the handler calls, with its arguments: SetExecBuffer has the buffer as it is at the call.
pub data Effect : Type 0 where
  print_char : ℕ → Effect
  dbg_putc : ℕ → Effect
  set_exec_buffer : Mem → Effect
  outb : ℕ → ℕ → Effect

-- input_buffer, by index, and input_pos
pub record Keyboard : Type 0 where
  pub input_buffer : Mem
  pub input_pos : ℕ

-- The handler after the key is read, and what it calls, in order.
pub on_key : Keyboard → ℕ → List Effect × Keyboard
on_key s key =
    if (key == 8) && ltb 0 s.input_pos
    then (let pos = s.input_pos - 1 in
        (
          print_char 8 ∷ outb 0x20 0x20 ∷ [],
          record { input_buffer = write s.input_buffer pos 0; input_pos = pos },
        ))
    else if key == 10
    then (let buffer = write s.input_buffer s.input_pos 0 in
        (
          set_exec_buffer buffer ∷ outb 0x20 0x20 ∷ [],
          record { input_buffer = buffer; input_pos = 0 },
        ))
    else if not (key == 0) && ltb s.input_pos (256 - 1)
    then (
      dbg_putc key ∷ print_char key ∷ outb 0x20 0x20 ∷ [],
      record { input_buffer = write s.input_buffer s.input_pos key; input_pos = s.input_pos + 1 },
    )
    else (outb 0x20 0x20 ∷ [], s)

-- The handler on the scancode that the data port gives. `none` where the code reads past the end of `kb`.
pub int21h_handler : Keyboard → ℕ → Option (List Effect × Keyboard)
unfolding kb entry on_key
int21h_handler s scancode = with_key s (entry kb scancode)
  where
    with_key : Keyboard → Option ℕ → Option (List Effect × Keyboard)
    with_key s none = none
    with_key s (some key) = some (on_key s key)
