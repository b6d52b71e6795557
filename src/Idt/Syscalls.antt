-- ===== src/Idt/Syscalls.antt =====
-- idt.c: the system calls, and PrintStatus.
use libre_win.Prelude.{
  ℕ, ◌+◌, ◌-◌, ◌*◌, ◌/◌, ◌%◌, ◌^◌, ◌<◌, ◌≡◌, bit_and, refl, ◌∙◌, Bool-cases, false, inl, inr, arith,
  ltb, ◌==◌, not, if◌then◌else◌, List, [], ◌∷◌, ◌++◌,
}
use libre_win.Prelude.Bits.{bit_and_mask}
use libre_win.Port.{status_success, status_invalid_parameter}

abbrev pub status_invalid_system_service : ℕ
status_invalid_system_service = 0xC000001C

abbrev pub status_object_name_not_found : ℕ
status_object_name_not_found = 0xC0000034

abbrev pub status_not_supported : ℕ
status_not_supported = 0xC00000BB

-- The hexadecimal digit of a number below 16.
abbrev pub hex_digit : ℕ → ℕ
hex_digit n = if ltb n 10 then 48 + n else 55 + n

-- The text: "0x", eight digits and "L".
pub print_status : ℕ → List ℕ
print_status status =
    b'0'
    ∷ b'x'
    ∷ hex_digit (bit_and (status / 2 ^ 28) 0xF)
    ∷ hex_digit (bit_and (status / 2 ^ 24) 0xF)
    ∷ hex_digit (bit_and (status / 2 ^ 20) 0xF)
    ∷ hex_digit (bit_and (status / 2 ^ 16) 0xF)
    ∷ hex_digit (bit_and (status / 2 ^ 12) 0xF)
    ∷ hex_digit (bit_and (status / 2 ^ 8) 0xF)
    ∷ hex_digit (bit_and (status / 2 ^ 4) 0xF)
    ∷ hex_digit (bit_and (status / 2 ^ 0) 0xF)
    ∷ b'L'
    ∷ []

-- What a system call does besides answering.
pub data Action : Type 0 where
  outw : ℕ → ℕ → Action
  outb : ℕ → ℕ → Action
  print_text : List ℕ → Action
  display_string : ℕ → Action
  open_path : ℕ → Action
  load_pe : ℕ → Action
  exec_bat : ℕ → Action
  print_shutdown_failed : Action
  print_syscall_failed : Action
  print_example : Action
  print_test : Action

-- ShutdownNoReboot, ShutdownReboot and ShutdownPowerOff are 0, 1 and 2.
pub nt_shutdown_system : ℕ → ℕ × List Action
nt_shutdown_system action =
    if action == 2
    then (status_success, outw 0x604 0x2000 ∷ [])
    else if action == 0
    then (status_not_supported, [])
    else if action == 1
    then (status_success, outb 0x64 0xFE ∷ [])
    else (status_invalid_parameter, [])

-- The handle that fopen answers is lost.
pub nt_open_file : (ℕ → ℕ) → ℕ → ℕ × List Action
nt_open_file fopen attributes = (
  if fopen attributes == 0 then status_object_name_not_found else status_success,
  open_path attributes ∷ [],
)

pub nt_display_string : ℕ → ℕ × List Action
nt_display_string string = (status_success, display_string string ∷ [])

-- What the loader and fopen answer is a parameter.
pub record Answers : Type 0 where
  pub load : ℕ → ℕ
  pub exec : ℕ → ℕ
  pub fopen : ℕ → ℕ

pub report_shutdown : ℕ × List Action → ℕ × List Action
unfolding print_status
report_shutdown (result, actions) =
    if not (result == status_success)
    then (
      result,
      actions
          ++ (print_shutdown_failed ∷ print_text (print_status result) ∷ print_text (10 ∷ []) ∷ []),
    )
    else (result, actions)

pub syscall_dispatcher : Answers → ℕ → ℕ → ℕ → ℕ × List Action
unfolding nt_shutdown_system nt_open_file nt_display_string report_shutdown
syscall_dispatcher a syscall_number arg1 arg3 =
    if syscall_number == 0x01
    then (status_success, (if arg1 == 5 then print_example else print_test) ∷ [])
    else if syscall_number == 0x02
    then (a.load arg1, load_pe arg1 ∷ [])
    else if syscall_number == 0x03
    then (status_invalid_system_service, [])
    else if syscall_number == 0x04
    then (a.exec arg1, exec_bat arg1 ∷ [])
    else if syscall_number == 0x2e
    then nt_display_string arg1
    else if syscall_number == 0x4f
    then nt_open_file a.fopen arg3
    else if syscall_number == 0xb4
    then report_shutdown (nt_shutdown_system arg1)
    else (status_invalid_system_service, print_syscall_failed ∷ [])

-- The number that a text of "0x", digits from 0 to F and "L" stands for.
unfoldable pub digit_value : ℕ → ℕ
digit_value c = if ltb c 58 then c - 48 else c - 55

unfoldable pub hex_value : ℕ → List ℕ → ℕ
unfolding digit_value
hex_value acc [] = acc
hex_value acc (c ∷ digits) =
    if c == b'L'
    then acc
    else if c == b'x'
    then hex_value 0 digits
    else hex_value (acc * 16 + digit_value c) digits

hex_value-digit :
    (acc n : ℕ) (digits : List ℕ)
    → hex_value acc (hex_digit (bit_and n 0xF) ∷ digits) ≡ hex_value (acc * 16 + n % 16) digits
unfolding hex_value digit_value
hex_value-digit acc n digits =
    let mask : bit_and n 0xF ≡ n % 16 = ground (arith, bit_and_mask 4 n) in
    let no_end : (hex_digit (n % 16) == b'L') ≡ false = ground arith in
    let no_x : (hex_digit (n % 16) == b'x') ≡ false = ground arith in
    let back : digit_value (hex_digit (n % 16)) ≡ n % 16 = ground arith in
    rw (mask, no_end, no_x, back) refl

hex_value-prefix : (digits : List ℕ) → hex_value 0 (b'0' ∷ b'x' ∷ digits) ≡ hex_value 0 digits
unfolding hex_value digit_value
hex_value-prefix digits = refl

hex_value-suffix : (acc : ℕ) → hex_value acc (b'L' ∷ []) ≡ acc
unfolding hex_value
hex_value-suffix acc = refl

-- PrintStatus prints a 32-bit status in hexadecimal: the text reads back as the status.
pub hex_value-print_status :
    (status : ℕ) → status < 2 ^ 32 → hex_value 0 (print_status status) ≡ status
unfolding print_status
hex_value-print_status status h =
    hex_value-prefix _
    ∙ hex_value-digit 0 (status / 2 ^ 28) _
    ∙ hex_value-digit _ (status / 2 ^ 24) _
    ∙ hex_value-digit _ (status / 2 ^ 20) _
    ∙ hex_value-digit _ (status / 2 ^ 16) _
    ∙ hex_value-digit _ (status / 2 ^ 12) _
    ∙ hex_value-digit _ (status / 2 ^ 8) _
    ∙ hex_value-digit _ (status / 2 ^ 4) _
    ∙ hex_value-digit _ (status / 2 ^ 0) _
    ∙ hex_value-suffix _
    ∙ omega arith

-- The shutdown call with the action 2 or 1 writes a port of the machine, prints nothing and answers success; with
-- every other number it writes no port, and answers and prints a status of failure.
pub shutdown_lem :
    (a : Answers) (action arg3 : ℕ)
    → syscall_dispatcher a 0xb4 action arg3 ≡ (
        if action == 2
        then (status_success, outw 0x604 0x2000 ∷ [])
        else if action == 1
        then (status_success, outb 0x64 0xFE ∷ [])
        else (let status =
              (if action == 0 then status_not_supported else status_invalid_parameter) in
            (
              status,
              print_shutdown_failed ∷ print_text (print_status status) ∷ print_text (10 ∷ []) ∷ [],
            )))
unfolding syscall_dispatcher nt_shutdown_system report_shutdown
shutdown_lem a action arg3 = elim (Bool-cases (action == 2)) [
  | inl e ↦ rw e refl
  | inr e ↦ rw e (elim (Bool-cases (action == 0)) [
    | inl f ↦ let other : (action == 1) ≡ false = ground arith in rw (f, other) refl
    | inr f ↦ rw f (elim (Bool-cases (action == 1)) [ inl g ↦ rw g refl | inr g ↦ rw g refl ])
  ])
]
