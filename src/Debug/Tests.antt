-- ===== src/Debug/Tests.antt =====
-- The numbers that DbgPrint writes read back.
use libre_win.Prelude.{◌-◌, ◌^◌, ◌≡◌, refl, [], ◌∷◌, some, get_or}
use libre_win.Debug.{dbg_print, digit_loop, decimal_digit}

-- "w=%d" with the argument -20.
minus_twenty :
    dbg_print 9 (λ x. get_or (b'w' ∷ b'=' ∷ b'%' ∷ b'd' ∷ []) x 0) 0 ((2 ^ 32 - 20) ∷ [])
    ≡ some (b'w' ∷ b'=' ∷ b'-' ∷ b'2' ∷ b'0' ∷ [])
unfolding dbg_print digit_loop decimal_digit
minus_twenty = refl
