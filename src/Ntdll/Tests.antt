-- ===== src/Ntdll/Tests.antt =====
-- The theorems of ntdll.c: a query of the performance counter into 16 bytes at 4096 with its length at 8192, on two
-- processors, and a call of a stub.
use libre_win.Prelude.{◌⊎◌, ◌≤◌, ◌≡◌, refl, arith, [], ◌∷◌}
use libre_win.Memory.{Mem}
use libre_win.Memory.Words.{load32}
use libre_win.Ntdll.{interrupts, Machine, class_of, query_class, nt_query_system_information}
use libre_win.Ntdll.Query.{
  Keeps, nt_query_system_information-Keeps, nt_query_system_information-TellsLength,
}
use libre_win.Ntdll.Stubs.{nt_access_check_by_type, call, call_lem}

abbrev machine : Machine
machine = record {
  processors = 2;
  dummy_name = 0x500000;
  fname_buffer = 0x600000;
  characters = λ shown. b'a' ∷ [];
}

abbrev blank : Mem
blank x = 0

nt_query_system_information-Keeps_example :
    Keeps machine blank 4096 96 8192 (nt_query_system_information machine 8 blank 4096 96 8192)
nt_query_system_information-Keeps_example =
    nt_query_system_information-Keeps machine 8 blank 4096 96 8192 (omega arith)

nt_query_system_information-TellsLength_example :
    (load32 (nt_query_system_information machine 48 blank 4096 16 8192).mem 8192 ≤ 16)
    ⊎ ((class_of 48 ≡ interrupts)
        × (load32 (nt_query_system_information machine 48 blank 4096 16 8192).mem 8192 ≡ 24))
unfolding nt_query_system_information query_class class_of
nt_query_system_information-TellsLength_example =
    nt_query_system_information-TellsLength machine 48 blank 4096 16 8192 (omega arith) refl

-- The kernel's answer here is the number of the call.
call_lem_example :
    call
      (λ eax words. eax)
      (nt_access_check_by_type 1 2 3 4 5 6 7 8 9 10 11)
      (record { eax = 77; stack = [] })
    ≡ record { eax = 11; stack = [] }
call_lem_example =
    call_lem (λ eax words. eax) (nt_access_check_by_type 1 2 3 4 5 6 7 8 9 10 11)
      (record { eax = 77; stack = [] })
