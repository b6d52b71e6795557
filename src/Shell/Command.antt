-- ===== src/Shell/Command.antt =====
-- kernel.c: what NsExec does with a command that is no batch script.
use libre_win.Prelude.{
  ℕ, zero, suc, ◌+◌, ◌<◌, ◌≡◌, refl, ap, arith, Bool, true, false, ◌&&◌, ◌==◌, if◌then◌else◌, some,
  List, [], ◌∷◌, ◌++◌, length,
}
use libre_win.Memory.{Mem}
use libre_win.Str.Text.{HasString}
use libre_win.Str.Compare.{NoZero, HasString-NoZero, first_diff, same, strcmp-first_diff}
use libre_win.Vfs.{is_zero}
use libre_win.Debug.{string_loop}
use libre_win.Shell.{
  Output, cleared, prompt, help_message, newline, Texts, Services, same_string, run_command,
  exec_line,
}

-- The bytes of "cls" and of "help".
abbrev pub cls_text : List ℕ
cls_text = b'c' ∷ b'l' ∷ b's' ∷ []

abbrev pub help_text : List ℕ
help_text = b'h' ∷ b'e' ∷ b'l' ∷ b'p' ∷ []

abbrev pub same_text : List ℕ → List ℕ → Bool
same_text [] [] = true
same_text [] (d ∷ t) = false
same_text (c ∷ s) [] = false
same_text (c ∷ s) (d ∷ t) = c == d && same_text s t

is_zero-first_diff :
    (s t : List ℕ) → NoZero s → NoZero t → is_zero (first_diff same s t) ≡ same_text s t
unfolding first_diff
is_zero-first_diff [] [] h k = refl
is_zero-first_diff [] (d ∷ t) h k = ground arith
is_zero-first_diff (c ∷ s) [] h k = ground arith
is_zero-first_diff (c ∷ s) (d ∷ t) h k = ground (arith, is_zero-first_diff s t)

pub same_string-same_text :
    (fuel : ℕ) (m : Mem) (p q : ℕ) (s t : List ℕ)
    → HasString m p s
    → HasString m q t
    → length s < fuel
    → same_string fuel m p q ≡ some (same_text s t)
unfolding same_string
same_string-same_text fuel m p q s t h k lt =
    rw (strcmp-first_diff fuel m p q s t h k lt)
      (ap some (is_zero-first_diff s t (HasString-NoZero m p s h) (HasString-NoZero m q t k)))

pub string_loop-HasString :
    (fuel : ℕ) (m : Mem) (p : ℕ) (s : List ℕ)
    → HasString m p s
    → length s < fuel
    → string_loop fuel m p ≡ some s
unfolding string_loop
string_loop-HasString zero m p s h lt = absurd (omega arith)
string_loop-HasString (suc fuel) m p [] h lt = rw h refl
string_loop-HasString (suc fuel) m p (c ∷ s) (byte, not_end, rest) lt =
    let go_on : (c == 0) ≡ false = ground arith in
    rw (byte, go_on, string_loop-HasString fuel m (p + 1) s rest (omega arith)) refl

-- What a command shows and runs, by its text.
unfoldable pub command_output : Services → List ℕ → List Output
command_output s text =
    if same_text text cls_text
    then cleared ∷ prompt ∷ []
    else if same_text text help_text
    then help_message ∷ prompt ∷ []
    else if same_text text []
    then newline ∷ prompt ∷ []
    else newline ∷ (run_command s text ++ (prompt ∷ []))

empty_text : (m : Mem) (p : ℕ) (text : List ℕ) → HasString m p text → (m p == 0) ≡ same_text text []
empty_text m p [] h = ground arith
empty_text m p (c ∷ text) h = ground (arith, h.0, h.1)

-- NsExec of a string that is no batch script, with any fuel above its length, clears the screen for "cls", gives help for
-- "help", and otherwise loads the program of that name and runs it or says that it is unknown.
pub exec_line-command_output :
    (fuel : ℕ) (s : Services) (t : Texts) (m : Mem) (ex_buffer : ℕ) (text : List ℕ)
    → HasString m ex_buffer text
    → HasString m t.cls cls_text
    → HasString m t.help help_text
    → length text < fuel
    → exec_line fuel s t m ex_buffer ≡ some (command_output s text)
unfolding exec_line command_output
exec_line-command_output fuel s t m ex_buffer text h cls help lt =
    rw
      (
        same_string-same_text fuel m ex_buffer t.cls text cls_text h cls lt,
        same_string-same_text fuel m ex_buffer t.help text help_text h help lt,
        string_loop-HasString fuel m ex_buffer text h lt,
        empty_text m ex_buffer text h,
      )
      refl
