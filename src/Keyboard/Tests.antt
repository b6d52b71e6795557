-- ===== src/Keyboard/Tests.antt =====
-- The theorems of the keyboard handler on a line of one key.
use libre_win.Prelude.{◌≡◌, refl, arith, [], ◌∷◌}
use libre_win.Memory.{Mem}
use libre_win.Keyboard.{Keyboard, set_exec_buffer, outb, on_key}
use libre_win.Keyboard.Line.{Holds, HasLine, drop_key, edit, on_key-HasLine, on_key_enter}

-- The line is "a".
abbrev typed : Keyboard
typed = record { input_buffer = λ i. b'a'; input_pos = 1 }

typed-HasLine : HasLine typed (b'a' ∷ [])
unfolding HasLine Holds
typed-HasLine = (refl, omega arith, (refl, tt))

on_key-HasLine_example : HasLine (on_key typed 8).1 []
unfolding edit drop_key
on_key-HasLine_example = on_key-HasLine typed (b'a' ∷ []) 8 typed-HasLine

on_key_enter_example :
    (buffer : Mem) × (on_key typed 10 ≡ (
      set_exec_buffer buffer ∷ outb 0x20 0x20 ∷ [],
      record { input_buffer = buffer; input_pos = 0 },
    ))
    × Holds buffer (b'a' ∷ [])
    × (buffer 1 ≡ 0)
on_key_enter_example = on_key_enter typed (b'a' ∷ []) typed-HasLine
