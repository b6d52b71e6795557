-- ===== src/Shell/Tests.antt =====
-- The theorem of LdrExecBat on the script "cls\r\n x" under the name "a": the texts stand from 0 on, the path is put at 50,
-- and the text is read to 100.
use libre_win.Prelude.{
  ℕ, ◌+◌, ◌-◌, ◌≡◌, inl, refl, arith, true, ltb, if◌then◌else◌, some, List, [], ◌∷◌,
}
use libre_win.Memory.{Mem}
use libre_win.Str.Text.{HasString-frame, byte_at}
use libre_win.Str.Copy.{SameOutside}
use libre_win.Str.Words.{words, skip, word, after_word}
use libre_win.Shell.{Texts, Services, cleared, prompt, newline, ran, ldr_exec_bat, run_command}
use libre_win.Shell.Paths.{path_after, ends_with_slash}
use libre_win.Shell.Script.{TextsApart, line_ends_text, script_output, trim}
use libre_win.Shell.Command.{cls_text, help_text, command_output}
use libre_win.Shell.Run.{drive_text, HasScript, ldr_exec_bat-script_output}

-- Each with its end: "cls", "help", "\r\n", "%s%s", "%s/%s", "0:/" and "a".
abbrev texts_data : List ℕ
texts_data =
    b'c' ∷ b'l' ∷ b's' ∷ 0 ∷ b'h' ∷ b'e' ∷ b'l' ∷ b'p' ∷ 0 ∷ 13 ∷ 10 ∷ 0 ∷ b'%' ∷ b's' ∷ b'%' ∷ b's'
    ∷ 0 ∷ b'%' ∷ b's' ∷ b'/' ∷ b'%' ∷ b's' ∷ 0 ∷ b'0' ∷ b':' ∷ b'/' ∷ 0 ∷ b'a' ∷ []

abbrev memory : Mem
memory = byte_at texts_data

abbrev texts : Texts
texts = record { cls = 0; help = 4; line_ends = 9; joined = 12; slashed = 17; drive = 23; bat = 28 }

abbrev script : List ℕ
script = b'c' ∷ b'l' ∷ b's' ∷ 13 ∷ 10 ∷ b' ' ∷ b'x' ∷ []

-- A file that opens as 1 and is read whole, and a program at 0x400000 for every path.
abbrev services : Services
services = record {
  load_pe = λ path. 0x400000;
  fopen = λ m path. 1;
  fread = λ m buf fd x. if ltb x 100 then m x else byte_at script (x - 100);
}

read_apart :
    (n : Mem) → SameOutside memory n 50 5 → TextsApart (services.fread n 100 1) texts 100 107
unfolding byte_at
read_apart n same = record {
  has_cls =
      HasString-frame memory (services.fread n 100 1) 0 cls_text
        (λ i le. ground (arith, same (0 + i) (inl (omega arith))))
        (refl, (omega arith), (refl, omega arith, (refl, omega arith, refl)));
  has_help =
      HasString-frame memory (services.fread n 100 1) 4 help_text
        (λ i le. ground (arith, same (4 + i) (inl (omega arith))))
        (refl, omega arith, (refl, omega arith, (refl, omega arith, (refl, omega arith, refl))));
  has_ends =
      HasString-frame memory (services.fread n 100 1) 9 line_ends_text
        (λ i le. ground (arith, same (9 + i) (inl (omega arith))))
        (refl, omega arith, (refl, omega arith, refl));
  cls_apart = inl (omega arith);
  help_apart = inl (omega arith);
  ends_apart = inl (omega arith);
}

script-HasScript : HasScript services texts memory 50 100 (path_after drive_text (b'a' ∷ [])) script
unfolding path_after ends_with_slash byte_at
script-HasScript = record {
  fd = 1;
  opened = omega arith;
  opens = λ n h. refl;
  reads = λ n h same. (
    (
      refl,
      omega arith,
      (
        refl,
        omega arith,
        (
          refl,
          omega arith,
          (refl, omega arith, (refl, omega arith, (refl, omega arith, (refl, omega arith, refl)))),
        ),
      ),
    ),
    read_apart n same,
  );
}

ldr_exec_bat-script_output_example :
    ldr_exec_bat 40 services texts memory 50 100 27
    ≡ some (record {
      found = true;
      shown = cleared ∷ prompt ∷ newline ∷ ran (b'x' ∷ []) 0x400000 ∷ prompt ∷ [];
    })
unfolding byte_at script_output words skip word after_word trim run_command command_output
ldr_exec_bat-script_output_example =
    ldr_exec_bat-script_output 40 services texts memory 50 100 27 (b'a' ∷ []) script (omega arith)
      (omega arith)
      ((refl, omega arith, (refl, omega arith, (refl, omega arith, refl))), inl (omega arith))
      ((refl, omega arith, refl), inl (omega arith))
      (
        (refl, omega arith, (refl, omega arith, (refl, omega arith, (refl, omega arith, refl)))),
        inl (omega arith),
      )
      (
        (
          refl,
          omega arith,
          (refl, omega arith, (refl, omega arith, (refl, omega arith, (refl, omega arith, refl)))),
        ),
        inl (omega arith),
      )
      (omega arith) (omega arith) script-HasScript
