-- ===== src/Ntdll/Stubs.antt =====
-- ntdll.c: the stubs that make a system call with their arguments on the stack, as compiled for a 32-bit processor, as
-- the instructions of their templates. An operand is named by its number, which the output counts in as 0: this is the
-- register eax, the inputs follow, and the number of the call is the last. The inputs of a stub lie where no push moves
-- them. The kernel is what interrupt 0x2e answers in eax to eax and the words of the stack.
use libre_win.Prelude.{ℕ, zero, suc, ◌/◌, ◌≡◌, refl, List, [], ◌∷◌, ◌++◌, drop, get_or}

pub data Instruction : Type 0 where
  push : ℕ → Instruction
  set_eax : ℕ → Instruction
  move_to_eax : ℕ → Instruction
  interrupt : Instruction
  add_esp : ℕ → Instruction

-- A call of a stub, with its arguments in the order of its prototype.
pub data Stub : Type 0 where
  nt_accept_connect_port :
      (port_handle port_context connection_request accept write read : ℕ) → Stub
  nt_access_check_and_audit_alarm :
      (subsystem handle type_name object_name descriptor access mapping creation granted status
        close : ℕ)
      → Stub
  nt_access_check_by_type :
      (descriptor sid token access types type_count mapping privileges privilege_length granted
        status : ℕ)
      → Stub
  nt_access_check_by_type_and_audit_alarm :
      (subsystem handle type_name object_name descriptor sid access audit flags types type_count
        mapping creation granted status close : ℕ)
      → Stub

-- The inputs, in order.
unfoldable pub inputs : Stub → List ℕ
inputs (nt_accept_connect_port a b c d e f) = a ∷ b ∷ c ∷ d ∷ e ∷ f ∷ []
inputs (nt_access_check_and_audit_alarm a0 a1 a2 a3 a4 a5 a6 a7 a8 a9 a10) =
    a0 ∷ a1 ∷ a2 ∷ a3 ∷ a4 ∷ a5 ∷ a6 ∷ a7 ∷ a8 ∷ a9 ∷ a10 ∷ 2 ∷ []
inputs (nt_access_check_by_type a0 a1 a2 a3 a4 a5 a6 a7 a8 a9 a10) =
    a0 ∷ a1 ∷ a2 ∷ a3 ∷ a4 ∷ a5 ∷ a6 ∷ a7 ∷ a8 ∷ a9 ∷ a10 ∷ 3 ∷ []
inputs
      (nt_access_check_by_type_and_audit_alarm a0 a1 a2 a3 a4 a5 a6 a7 a8 a9 a10 a11 a12 a13 a14
        a15) =
    a0 ∷ a1 ∷ a2 ∷ a3 ∷ a4 ∷ a5 ∷ a6 ∷ a7 ∷ a8 ∷ a9 ∷ a10 ∷ a11 ∷ a12 ∷ a13 ∷ a14 ∷ a15 ∷ 4 ∷ []

abbrev pub eleven_pushes : List Instruction
eleven_pushes =
    push 10
    ∷ push 9
    ∷ push 8
    ∷ push 7
    ∷ push 6
    ∷ push 5
    ∷ push 4
    ∷ push 3
    ∷ push 2
    ∷ push 1
    ∷ push 0
    ∷ []

unfoldable pub template : Stub → List Instruction
template (nt_accept_connect_port a b c d e f) =
    push 6 ∷ push 5 ∷ push 4 ∷ push 3 ∷ push 2 ∷ push 1 ∷ set_eax 0 ∷ interrupt ∷ add_esp 24 ∷ []
template (nt_access_check_and_audit_alarm a0 a1 a2 a3 a4 a5 a6 a7 a8 a9 a10) =
    eleven_pushes ++ (move_to_eax 11 ∷ interrupt ∷ add_esp 44 ∷ [])
template (nt_access_check_by_type a0 a1 a2 a3 a4 a5 a6 a7 a8 a9 a10) =
    eleven_pushes ++ (move_to_eax 11 ∷ interrupt ∷ add_esp 44 ∷ [])
template
      (nt_access_check_by_type_and_audit_alarm a0 a1 a2 a3 a4 a5 a6 a7 a8 a9 a10 a11 a12 a13 a14
        a15) =
    push 15
    ∷ push 14
    ∷ push 13
    ∷ push 12
    ∷ push 11
    ∷ (eleven_pushes ++ (move_to_eax 16 ∷ interrupt ∷ add_esp 64 ∷ []))

pub record Cpu : Type 0 where
  pub eax : ℕ
  pub stack : List ℕ

abbrev pub operand : Cpu → List ℕ → ℕ → ℕ
operand k given zero = k.eax
operand k given (suc n) = get_or given n 0

unfoldable pub step : (ℕ → List ℕ → ℕ) → List ℕ → Instruction → Cpu → Cpu
step kernel given (push n) k = record { eax = k.eax; stack = operand k given n ∷ k.stack }
step kernel given (set_eax v) k = record { eax = v; stack = k.stack }
step kernel given (move_to_eax n) k = record { eax = operand k given n; stack = k.stack }
step kernel given interrupt k = record { eax = kernel k.eax k.stack; stack = k.stack }
step kernel given (add_esp n) k = record { eax = k.eax; stack = drop (n / 4) k.stack }

unfoldable pub run : (ℕ → List ℕ → ℕ) → List ℕ → List Instruction → Cpu → Cpu
unfolding step
run kernel given [] k = k
run kernel given (i ∷ rest) k = run kernel given rest (step kernel given i k)

-- The status is in eax afterwards.
unfoldable pub call : (ℕ → List ℕ → ℕ) → Stub → Cpu → Cpu
unfolding inputs template run
call kernel stub k = run kernel (inputs stub) (template stub) k

-- What the kernel gets in eax.
abbrev pub number_given : Stub → ℕ
number_given (nt_accept_connect_port a b c d e f) = 0
number_given (nt_access_check_and_audit_alarm a0 a1 a2 a3 a4 a5 a6 a7 a8 a9 a10) = a10
number_given (nt_access_check_by_type a0 a1 a2 a3 a4 a5 a6 a7 a8 a9 a10) = a10
number_given
      (nt_access_check_by_type_and_audit_alarm a0 a1 a2 a3 a4 a5 a6 a7 a8 a9 a10 a11 a12 a13 a14
        a15) =
    a15

-- What the kernel gets on top of the stack, of which the first is what was in eax before, but for the first stub.
abbrev pub words_given : Stub → ℕ → List ℕ
words_given (nt_accept_connect_port a b c d e f) eax = a ∷ b ∷ c ∷ d ∷ e ∷ f ∷ []
words_given (nt_access_check_and_audit_alarm a0 a1 a2 a3 a4 a5 a6 a7 a8 a9 a10) eax =
    eax ∷ a0 ∷ a1 ∷ a2 ∷ a3 ∷ a4 ∷ a5 ∷ a6 ∷ a7 ∷ a8 ∷ a9 ∷ []
words_given (nt_access_check_by_type a0 a1 a2 a3 a4 a5 a6 a7 a8 a9 a10) eax =
    eax ∷ a0 ∷ a1 ∷ a2 ∷ a3 ∷ a4 ∷ a5 ∷ a6 ∷ a7 ∷ a8 ∷ a9 ∷ []
words_given
      (nt_access_check_by_type_and_audit_alarm a0 a1 a2 a3 a4 a5 a6 a7 a8 a9 a10 a11 a12 a13 a14
        a15)
      eax =
    eax ∷ a0 ∷ a1 ∷ a2 ∷ a3 ∷ a4 ∷ a5 ∷ a6 ∷ a7 ∷ a8 ∷ a9 ∷ a10 ∷ a11 ∷ a12 ∷ a13 ∷ a14 ∷ []

-- Each of the four stubs leaves the stack as it was and answers what the kernel answers. NtAcceptConnectPort makes call 0
-- with its arguments in the order of the prototype; the three others make the call whose number is their last argument,
-- with what was in eax on top of the stack and their other arguments behind it.
pub call_lem :
    (kernel : ℕ → List ℕ → ℕ) (stub : Stub) (k : Cpu)
    → call kernel stub k ≡ record {
      eax = kernel (number_given stub) (words_given stub k.eax ++ k.stack);
      stack = k.stack;
    }
unfolding call
call_lem kernel (nt_accept_connect_port a b c d e f) k = refl
call_lem kernel (nt_access_check_and_audit_alarm a0 a1 a2 a3 a4 a5 a6 a7 a8 a9 a10) k = refl
call_lem kernel (nt_access_check_by_type a0 a1 a2 a3 a4 a5 a6 a7 a8 a9 a10) k = refl
call_lem kernel
      (nt_access_check_by_type_and_audit_alarm a0 a1 a2 a3 a4 a5 a6 a7 a8 a9 a10 a11 a12 a13 a14
        a15)
      k =
    refl
