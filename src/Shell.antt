-- ===== src/Shell.antt =====
-- librewin/base/txos/init/kernel.c: NsExec and KiUserInit; and LdrExecBat, LdrLoadPe's path and join_paths of
-- init/loader.c. What a command does is a trace of what it shows and runs. The loading of a program and the files are
-- interfaces; a program that runs leaves the kernel's memory as it is.
mod Tests
pub mod Command
pub mod Paths
pub mod Run
pub mod Script
use libre_win.Prelude.{
  ℕ, zero, suc, ◌+◌, ◌-◌, Bool, true, false, ◌&&◌, not, ltb, ◌==◌, if◌then◌else◌, Option, none,
  some, List, [], ◌∷◌, ◌++◌,
}
use libre_win.Config.{u32, sub32}
use libre_win.Memory.{Mem}
use libre_win.Path.{and_then}
use libre_win.Str.{strlen, strcmp}
use libre_win.Str.Token.{strtok, Token}
use libre_win.Vfs.{is_zero}
use libre_win.Debug.{string_loop}
use libre_win.Settings.{snprintf, is_bat_file}

-- The screen is cleared and the cursor set to its start; the message of help; the line that says that a command, whose
-- text is given, is unknown; a program that is run; the messages of a batch script that does not open.
pub data Output : Type 0 where
  cleared help_message newline prompt too_long : Output
  unknown : List ℕ → Output
  ran : List ℕ → ℕ → Output

-- The addresses of the texts "cls", "help", "0:/", "\r\n", "%s%s", "%s/%s" and ".bat".
pub record Texts : Type 0 where
  pub cls : ℕ
  pub help : ℕ
  pub drive : ℕ
  pub line_ends : ℕ
  pub joined : ℕ
  pub slashed : ℕ
  pub bat : ℕ

-- LdrLoadPe by the text of its path: the entry point, 0 for NULL. fopen by the memory and the address of the path, and
-- fread into an address, as the memory afterwards.
pub record Services : Type 0 where
  pub load_pe : List ℕ → ℕ
  pub fopen : Mem → ℕ → ℕ
  pub fread : Mem → ℕ → ℕ → Mem

-- Whether two strings are the same.
pub same_string : ℕ → Mem → ℕ → ℕ → Option Bool
same_string fuel m a b = and_then (strcmp fuel m a b) (λ r. some (is_zero r))

unfoldable pub run_command : Services → List ℕ → List Output
run_command s text =
    let entry = s.load_pe text in if entry == 0 then unknown text ∷ [] else ran text entry ∷ []

-- NsExec with `isBat` 0, which any but a batch script is given.
unfoldable pub exec_line : ℕ → Services → Texts → Mem → ℕ → Option (List Output)
unfolding run_command same_string
exec_line fuel s t m ex_buffer = and_then (same_string fuel m ex_buffer t.cls) (λ (is_cls : Bool).
    and_then (same_string fuel m ex_buffer t.help) (λ (is_help : Bool).
      and_then (string_loop fuel m ex_buffer) (λ (text : List ℕ). some (
        if is_cls
        then cleared ∷ prompt ∷ []
        else if is_help
        then help_message ∷ prompt ∷ []
        else if m ex_buffer == 0
        then newline ∷ prompt ∷ []
        else newline ∷ (run_command s text ++ (prompt ∷ []))))))

-- Past the spaces from `line` on.
unfoldable pub space_loop : ℕ → Mem → ℕ → Option ℕ
space_loop zero m line = none
space_loop (suc fuel) m line =
    let rest = space_loop fuel m (line + 1) in if m line == b' ' then rest else some line

-- The loop over the lines of a batch script, from `line` on, 0 for NULL.
unfoldable pub batch_loop : ℕ → Services → Texts → Mem → ℕ → ℕ → Option (List Output)
batch_loop zero s t m next_token line = none
batch_loop (suc fuel) s t m next_token line =
    let body = and_then (space_loop fuel m line) (λ (start : ℕ).
      and_then (if m start == 0 then some [] else exec_line fuel s t m start)
        (λ (shown : List Output).
          and_then (strtok fuel m next_token 0 t.line_ends) (λ (token : Token).
            and_then (batch_loop fuel s t token.mem token.next_token token.start)
              (λ (rest : List Output). some (shown ++ rest))))) in
    if line == 0 then some [] else body

-- The memory afterwards; where `result_size` is too small, nothing is written.
unfoldable pub join_paths : ℕ → Texts → Mem → ℕ → ℕ → ℕ → ℕ → Option (Bool × Mem)
join_paths fuel t m str1 str2 result result_size = and_then (strlen fuel m str1) (λ (len1 : ℕ).
    and_then (strlen fuel m str2) (λ (len2 : ℕ).
      let last = m (sub32 (str1 + len1) 1) in
      let print = λ (format second : ℕ).
        and_then {B = Bool × Mem} (snprintf fuel m result result_size format (str1 ∷ second ∷ []))
          (λ (m' : Mem). some (true, m')) in
      if ltb result_size (u32 (len1 + len2 + 2))
      then some (false, m)
      else if (last == b'/') && (m str2 == b'/')
      then print t.joined (str2 + 1)
      else if not (last == b'/') && not (m str2 == b'/')
      then print t.slashed str2
      else print t.joined str2))

-- LdrExecBat: `file_path` has 20 bytes and `buf` 100, of which 99 are read. The status is 0 for success.
pub record ScriptRun : Type 0 where
  pub found : Bool
  pub shown : List Output

unfoldable pub ldr_exec_bat : ℕ → Services → Texts → Mem → ℕ → ℕ → ℕ → Option ScriptRun
ldr_exec_bat fuel s t m file_path buf path =
    and_then (join_paths fuel t m t.drive path file_path 20) (λ (joined : Bool × Mem).
      let note = (if joined.0 then [] else too_long ∷ []) in
      let fd = s.fopen joined.1 file_path in
      let run =
        and_then (strtok fuel (s.fread joined.1 buf fd) 0 buf t.line_ends) (λ (token : Token).
          and_then (batch_loop fuel s t token.mem token.next_token token.start)
            (λ (shown : List Output). some (record { found = true; shown = note ++ shown }))) in
      if fd == 0 then some (record { found = false; shown = note }) else run)

-- NsExec with `isBat` 1.
unfoldable pub exec_batch : ℕ → Services → Texts → Mem → ℕ → ℕ → ℕ → Option (List Output)
unfolding same_string
exec_batch fuel s t m file_path buf ex_buffer =
    and_then (same_string fuel m ex_buffer t.cls) (λ (is_cls : Bool).
      and_then (same_string fuel m ex_buffer t.help) (λ (is_help : Bool).
        and_then (string_loop fuel m ex_buffer) (λ (text : List ℕ).
          let script =
            and_then (ldr_exec_bat fuel s t m file_path buf ex_buffer) (λ (b : ScriptRun).
              let answer = (if b.found then [] else unknown text ∷ []) in
              some (newline ∷ (b.shown ++ answer ++ (prompt ∷ [])))) in
          if is_cls
          then some (cleared ∷ prompt ∷ [])
          else if is_help
          then some (help_message ∷ prompt ∷ [])
          else if m ex_buffer == 0
          then some (newline ∷ prompt ∷ [])
          else script)))

-- A round of the loop of KiUserInit with the flag `exec`: what is shown, and the flag afterwards.
unfoldable pub user_round : ℕ → Services → Texts → Mem → ℕ → ℕ → ℕ → ℕ → Option (List Output × ℕ)
user_round fuel s t m file_path buf ex_buffer exec =
    let command =
      and_then {B = List Output × ℕ} (is_bat_file fuel m ex_buffer t.bat) (λ (is_bat : Bool).
        and_then {B = List Output × ℕ}
          (if is_bat
            then exec_batch fuel s t m file_path buf ex_buffer
            else exec_line fuel s t m ex_buffer)
          (λ (shown : List Output). some (shown, 0))) in
    if exec == 0 then some ([], exec) else command
