-- ===== src/Ntdll.antt =====
-- librewin/ntdll.c and basetsd.h, as compiled for 32-bit Windows: NtQuerySystemInformation over the caller's memory, and
-- SystemPrint. A message is its text or format with what is formatted; the characters that it gives are a parameter.
pub mod Query
pub mod Print
pub mod Stubs
mod Tests
use Prim.Native.String.{String}
use libre_win.Prelude.{
  ℕ, zero, suc, ◌+◌, ◌-◌, ◌*◌, ◌/◌, ◌%◌, ◌^◌, bit_or, Bool, ltb, leb, ◌==◌, if◌then◌else◌, List, [],
  ◌∷◌, ◌++◌, length, take,
}
use libre_win.Config.{u32}
use libre_win.Memory.{Mem, write, memset}
use libre_win.Memory.Words.{load32, store32}

abbrev pub status_success : ℕ
status_success = 0

abbrev pub status_info_length_mismatch : ℕ
status_info_length_mismatch = 0xC0000004

abbrev pub status_invalid_info_class : ℕ
status_invalid_info_class = 0xC0000003

-- The classes that have a case of their own.
pub data InformationClass : Type 0 where
  exceptions leap_second lookaside code_integrity va_shadow performance interrupts :
      InformationClass
  policy processes processor_performance performance_counter registry_quota : InformationClass
  speculation time_of_day other : InformationClass

unfoldable pub class_of : ℕ → InformationClass
class_of n =
    if n == 33
    then exceptions
    else if n == 46
    then leap_second
    else if n == 45
    then lookaside
    else if n == 103
    then code_integrity
    else if n == 196
    then va_shadow
    else if n == 2
    then performance
    else if n == 23
    then interrupts
    else if n == 47
    then policy
    else if n == 5
    then processes
    else if n == 8
    then processor_performance
    else if n == 48
    then performance_counter
    else if n == 37
    then registry_quota
    else if n == 49
    then speculation
    else if n == 3
    then time_of_day
    else other

pub data Message : Type 0 where
  text : String → Message
  formatted : String → List ℕ → Message

pub record Answer : Type 0 where
  pub status : ℕ
  pub mem : Mem
  pub shown : List Message

abbrev pub store16 : Mem → ℕ → ℕ → Mem
store16 m a v = write (write m a (v % 256)) (a + 1) (v / 256 % 256)

abbrev pub store64 : Mem → ℕ → ℕ → Mem
store64 m a v = store32 (store32 m a (v % 2 ^ 32)) (a + 4) (v / 2 ^ 32)

abbrev pub bytes_from : Mem → ℕ → ℕ → List ℕ
bytes_from m a zero = []
bytes_from m a (suc n) = m a ∷ bytes_from m (a + 1) n

abbrev pub mismatch : Mem → Answer
mismatch m = record { status = status_info_length_mismatch; mem = m; shown = [] }

-- What the machine has: the number of processors of GetSystemInfo, where the name of the process and `fname_buffer` stand,
-- and the wide characters that swprintf makes of a message.
pub record Machine : Type 0 where
  pub processors : ℕ
  pub dummy_name : ℕ
  pub fname_buffer : ℕ
  pub characters : Message → List ℕ

-- SystemPrint by the wide characters of the message: the buffer's and the length in bytes, which are then shown. A buffer
-- of less than two bytes is not modelled.
unfoldable pub system_print : ℕ → List ℕ → List ℕ × ℕ
system_print maximum_length msg =
    let len =
      (if leb maximum_length (length msg * 2) then maximum_length / 2 - 1 else length msg) in
    (take len msg ++ (0 ∷ []), len * 2 % 2 ^ 16)

unfoldable pub put_wide : Mem → ℕ → List ℕ → Mem
put_wide m a [] = m
put_wide m a (c ∷ cs) = put_wide (store16 m a c) (a + 2) cs

-- SystemPrint on `fname_struct`, whose buffer is `fname_buffer` with its 512 characters.
unfoldable pub print_message : Machine → Message → Mem → Mem
unfolding put_wide system_print
print_message k shown m = put_wide m k.fname_buffer (system_print 1024 (k.characters shown)).0

-- `SystemPrint(&fname_struct, ...); if (ReturnLength) *ReturnLength = n; return STATUS_SUCCESS;`
abbrev pub success : Machine → Mem → ℕ → ℕ → Message → Answer
success k m return_length n shown = record {
  status = status_success;
  mem =
      (let printed = print_message k shown m in
        if return_length == 0 then printed else store32 printed return_length n);
  shown = shown ∷ [];
}

-- The entries that are left, and the number of the next one.
unfoldable pub processors_loop : ℕ → ℕ → ℕ → Mem → Mem
processors_loop zero i ppi m = m
processors_loop (suc left) i ppi m =
    let entry = ppi + 48 * i in
    let idle = store64 m entry (u32 (1000 * i)) in
    let kernel = store64 idle (entry + 8) (u32 (2000 * i)) in
    let user = store64 kernel (entry + 16) (u32 (1500 * i)) in
    let dpc = store64 user (entry + 24) (u32 (50 * i)) in
    let interrupt = store64 dpc (entry + 32) (u32 (25 * i)) in
    processors_loop left (i + 1) ppi (store32 interrupt (entry + 40) (u32 (100 + i)))

-- `dummy_name` is the address of L"DummyProcess.exe", which has 17 characters of two bytes with its end.
abbrev pub process_entry : Mem → ℕ → ℕ → Mem
process_entry m info dummy_name =
    let next = store32 m info 0 in
    let id = store32 next (info + 4) 1234 in
    let parent = store32 id (info + 8) 1 in
    let sequence = store64 parent (info + 16) 1 in
    let buffer = store32 sequence (info + 28) dummy_name in
    store16 (store16 buffer (info + 24) 32) (info + 26) 34

abbrev pub time_entry : Mem → ℕ → Mem
time_entry m info =
    let current = store64 m info 1324567890123456 in
    let boot = store64 current (info + 8) 1324560000000000 in
    let bias = store64 boot (info + 16) 0 in
    let zone = store32 bias (info + 24) 0 in
    store32 (store32 (store32 zone (info + 28) 0) (info + 32) 0) (info + 36) 0

-- The case of a class, with the number of the class for the message of the default.
unfoldable pub query_class : Machine → InformationClass → ℕ → Mem → ℕ → ℕ → ℕ → Answer
unfolding processors_loop
query_class k exceptions n m info len ret =
    if ltb len 16
    then mismatch m
    else success k m ret 16
        (formatted "[SystemExceptionInformation] Raw data: " (bytes_from m info 16))
query_class k leap_second n m info len ret =
    if ltb len 16
    then mismatch m
    else success k m ret 16
        (formatted "[SystemLeapSecondInformation] Raw data: " (bytes_from m info 16))
query_class k lookaside n m info len ret =
    success k m ret 0 (text "[SystemLookasideInformation] Queried (opaque data)")
query_class k code_integrity n m info len ret =
    let flags = bit_or 0x1 0x400 in
    if ltb len 8
    then mismatch m
    else success k (store32 (store32 m info 8) (info + 4) flags) ret 8
        (formatted "[SystemCodeIntegrityInformation] Flags: 0x%08lX" (flags ∷ []))
query_class k va_shadow n m info len ret =
    let flags = bit_or (bit_or 0x1 0x4) 0x2000 in
    if ltb len 4
    then mismatch m
    else success k (store32 m info flags) ret 4
        (formatted "[SystemKernelVaShadowInformation] Flags: 0x%08lX" (flags ∷ []))
query_class k performance n m info len ret =
    let zeroed = memset m info 0 296 in
    let idle = store64 zeroed info 12345678 in
    let faults = store32 idle (info + 60) 42 in
    if ltb len 296
    then mismatch m
    else success k (store32 faults (info + 44) 8192) ret 296 (
        formatted
          "[SystemPerformanceInformation] IdleTime: %lld, PageFaults: %lu, AvailablePages: %lu"
          (12345678 ∷ 42 ∷ 8192 ∷ []))
query_class k interrupts n m info len ret = success k m ret 24 (
    formatted
      "[SystemInterruptInformation] ContextSwitches=%lu, DpcCount=%lu, DpcRate=%lu, TimeIncrement=%lu, DpcBypassCount=%lu, ApcBypassCount=%lu"
      (load32 m info
        ∷ load32 m (info + 4)
        ∷ load32 m (info + 8)
        ∷ load32 m (info + 12)
        ∷ load32 m (info + 16)
        ∷ load32 m (info + 20)
        ∷ []))
query_class k policy n m info len ret =
    if ltb len 16
    then mismatch m
    else success k (memset m info 0 16) ret 16
        (text "[SystemPolicyInformation] Queried (dummy policy data)")
query_class k processes n m info len ret =
    if ltb len 32
    then mismatch m
    else success k (process_entry m info k.dummy_name) ret 32
        (text "[SystemProcessInformation] Single dummy process entry filled")
query_class k processor_performance n m info len ret =
    if ltb len (u32 (k.processors * 48))
    then mismatch m
    else success k (processors_loop k.processors 0 info m) ret (u32 (k.processors * 48))
        (text "[SystemProcessorPerformanceInformation] Dummy CPU stats filled")
query_class k performance_counter n m info len ret =
    if ltb len 16
    then mismatch m
    else success k (store64 (store64 m info 1234567890) (info + 8) 10000000) ret 16
        (text "[SystemQueryPerformanceCounterInformation] Dummy performance counter filled")
query_class k registry_quota n m info len ret =
    if ltb len 16
    then mismatch m
    else success k (memset m info 0 16) ret 16
        (text "[SystemRegistryQuotaInformation] Queried (dummy data)")
query_class k speculation n m info len ret =
    if ltb len 4
    then mismatch m
    else success k (store32 m info (bit_or (load32 m info % 2 ^ 16) 353)) ret 4
        (text "[SystemSpeculationControlInformation] Dummy speculative execution flags set")
query_class k time_of_day n m info len ret =
    if ltb len 40
    then mismatch m
    else success k (time_entry m info) ret 40
        (text "[SystemTimeOfDayInformation] Dummy system time filled")
query_class k other n m info len ret = record {
  status = status_invalid_info_class;
  mem = print_message k (formatted "[NtQuerySystemInformation] Unsupported class: %lu" (n ∷ [])) m;
  shown = formatted "[NtQuerySystemInformation] Unsupported class: %lu" (n ∷ []) ∷ [];
}

unfoldable pub nt_query_system_information : Machine → ℕ → Mem → ℕ → ℕ → ℕ → Answer
unfolding class_of query_class
nt_query_system_information k n m info len ret =
    if info == 0 then mismatch m else query_class k (class_of n) n m info len ret
