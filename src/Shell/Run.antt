-- ===== src/Shell/Run.antt =====
-- loader.c: LdrExecBat from the name of a batch script to what its lines do.
use libre_win.Prelude.{
  ℕ, ◌+◌, ◌^◌, ◌≤◌, ◌<◌, ◌≡◌, ◌≢◌, refl, arith, true, false, ◌==◌, some, List, [], ◌∷◌, length,
}
use libre_win.Memory.{Mem}
use libre_win.Str.Text.{HasString}
use libre_win.Str.Copy.{SameOutside}
use libre_win.Str.Token.{Token, strtok}
use libre_win.Str.Words.{words}
use libre_win.Settings.Format.{Away}
use libre_win.Shell.{Output, Texts, Services, join_paths, batch_loop, ldr_exec_bat}
use libre_win.Shell.Paths.{joined_format, slashed_format, path_after, join_paths-path_after}
use libre_win.Shell.Script.{TextsApart, line_ends_text, script_output, batch_loop-script_output}

-- The bytes of "0:/".
abbrev pub drive_text : List ℕ
drive_text = b'0' ∷ b':' ∷ b'/' ∷ []

ldr_exec_bat_step :
    (fuel : ℕ) (s : Services) (t : Texts) (m n : Mem) (file_path buf path fd : ℕ) (token : Token)
    (shown : List Output)
    → join_paths fuel t m t.drive path file_path 20 ≡ some (true, n)
    → s.fopen n file_path ≡ fd
    → fd ≢ 0
    → strtok fuel (s.fread n buf fd) 0 buf t.line_ends ≡ some token
    → batch_loop fuel s t token.mem token.next_token token.start ≡ some shown
    → ldr_exec_bat fuel s t m file_path buf path ≡ some (record { found = true; shown = shown })
unfolding ldr_exec_bat
ldr_exec_bat_step fuel s t m n file_path buf path fd token shown e f opened g h =
    let there : (fd == 0) ≡ false = ground arith in rw e (rw f (rw (there, g) (rw h refl)))

-- What the files of the kernel answer for a script, in the memory with the path put in: the path opens, and the read puts
-- its text, with an end, into the buffer, apart from the texts of the kernel.
pub record HasScript (s : Services) (t : Texts) (m : Mem) (file_path buf : ℕ) (path text : List ℕ)
    : Type 0 where
  pub fd : ℕ
  pub opened : fd ≢ 0
  pub opens : (n : Mem) → HasString n file_path path → s.fopen n file_path ≡ fd
  pub reads :
      (n : Mem)
      → HasString n file_path path
      → SameOutside m n file_path (length path + 1)
      → HasString (s.fread n buf fd) buf text
        × TextsApart (s.fread n buf fd) t buf (buf + length text)

-- LdrExecBat of a name of at most 15 bytes under which, on drive 0 and with one slash, the files have a script: it
-- succeeds, and shows and runs what the lines of the script do, in order, each without the spaces at its start, and
-- none that is blank; any fuel above the length of the script by 30 is enough.
pub ldr_exec_bat-script_output :
    (fuel : ℕ) (s : Services) (t : Texts) (m : Mem) (file_path buf path : ℕ) (name text : List ℕ)
    → 0 < buf
    → t.drive + 3 < 2 ^ 32
    → Away m file_path 20 t.drive drive_text
    → Away m file_path 20 path name
    → Away m file_path 20 t.joined joined_format
    → Away m file_path 20 t.slashed slashed_format
    → length name ≤ 15
    → length text + 30 < fuel
    → HasScript s t m file_path buf (path_after drive_text name) text
    → ldr_exec_bat fuel s t m file_path buf path
      ≡ some (record { found = true; shown = script_output s (words line_ends_text text) })
ldr_exec_bat-script_output fuel s t m file_path buf path name text there at_drive drive named joined
      slashed short lt script =
    let (n, e, h, same) =
      join_paths-path_after fuel t m t.drive path file_path 20 drive_text (omega arith) at_drive
        drive joined slashed name named (omega arith) (omega arith) (omega arith) in
    let (read, apart) = script.reads n h same in
    let (token, f, g) =
      batch_loop-script_output fuel s t (s.fread n buf script.fd) buf text there read apart
        (omega arith) in
    ldr_exec_bat_step fuel s t m n file_path buf path script.fd token
      (script_output s (words line_ends_text text)) e (script.opens n h) script.opened f g
