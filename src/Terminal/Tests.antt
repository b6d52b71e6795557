-- ===== src/Terminal/Tests.antt =====
-- The theorems of the terminal on a screen whose cell `k` is `k`.
use libre_win.Prelude.{ℕ, ◌≤◌, ◌≡◌, refl, arith, [], ◌∷◌, some, if◌then◌else◌, ◌==◌}
use libre_win.Memory.{Mem}
use libre_win.Terminal.{Terminal, print}
use libre_win.Terminal.Cursor.{IsOnScreen, print_lem}

-- The cursor is in the last column of the last row.
abbrev full : Terminal
full = record { video_mem = λ k. k; terminal_row = 19; terminal_col = 79 }

full-IsOnScreen : IsOnScreen full
unfolding IsOnScreen
full-IsOnScreen = (omega arith, omega arith)

-- "a" at 100
abbrev text : Mem
text x = if x == 100 then b'a' else 0

print_lem_example :
    (t' : Terminal) × (print 2 text 100 full ≡ some t')
    × IsOnScreen t'
    × ((k : ℕ) → 1600 ≤ k → t'.video_mem k ≡ k)
print_lem_example =
    print_lem 2 text 100 (b'a' ∷ []) full (refl, omega arith, refl) (omega arith) full-IsOnScreen
