-- ===== src/Idt.antt =====
-- librewin/base/txos/ke/idt/idt.c and ke/bug.c: the gates of the interrupts, the system calls, and the bug check. The
-- addresses of the assembly stubs and of the handlers are parameters.
pub mod Gates
pub mod Syscalls
mod Tests
use libre_win.Prelude.{
  ℕ, zero, suc, ◌+◌, ◌-◌, ◌*◌, ◌/◌, ◌%◌, ◌^◌, bit_and, Bool, true, false, ◌==◌, if◌then◌else◌,
  Option, none, some, List, [], ◌∷◌, ◌++◌,
}
use libre_win.Memory.{Mem, write}

-- LIBREWIN_TOTAL_INTERRUPTS and KERNEL_CODE_SELECTOR
abbrev pub total_interrupts : ℕ
total_interrupts = 512

abbrev pub kernel_code_selector : ℕ
kernel_code_selector = 0x08

abbrev pub ring3 : ℕ
ring3 = 0xEE

pub record IdtDesc : Type 0 where
  pub offset_1 : ℕ
  pub selector : ℕ
  pub zero_byte : ℕ
  pub type_attr : ℕ
  pub offset_2 : ℕ

abbrev pub blank_desc : IdtDesc
blank_desc = record { offset_1 = 0; selector = 0; zero_byte = 0; type_attr = 0; offset_2 = 0 }

-- The table, its pointer as it is loaded, and whether it is loaded.
pub record Idt : Type 0 where
  pub descriptors : ℕ → IdtDesc
  pub limit : ℕ
  pub base : ℕ
  pub is_loaded : Bool

pub idt_set : (ℕ → IdtDesc) → ℕ → ℕ → ℕ → IdtDesc
idt_set descriptors interrupt_no address i =
    if i == interrupt_no
    then record {
      offset_1 = bit_and address 0x0000ffff;
      selector = kernel_code_selector;
      zero_byte = 0x00;
      type_attr = ring3;
      offset_2 = address / 2 ^ 16 % 2 ^ 16;
    }
    else descriptors i

-- The gates that are left, from number `i` on.
pub no_interrupt_loop : ℕ → ℕ → ℕ → (ℕ → IdtDesc) → ℕ → IdtDesc
unfolding idt_set
no_interrupt_loop zero i address descriptors = descriptors
no_interrupt_loop (suc left) i address descriptors =
    no_interrupt_loop left (i + 1) address (idt_set descriptors i address)

-- The addresses of the functions that the gates name.
pub record Handlers : Type 0 where
  pub no_interrupt : ℕ
  pub int2eh : ℕ
  pub idt_zero : ℕ
  pub idt_pf : ℕ
  pub idt_gpf : ℕ
  pub idt_inv : ℕ
  pub idt_df : ℕ
  pub idt_snp : ℕ
  pub int21h : ℕ

-- `at` is the address of the table; a descriptor is 8 bytes.
pub idt_init : Handlers → ℕ → Idt
unfolding no_interrupt_loop
idt_init h at =
    let d0 = no_interrupt_loop total_interrupts 0 h.no_interrupt (λ i. blank_desc) in
    let d1 = idt_set d0 0x002e h.int2eh in
    let d2 = idt_set d1 0 h.idt_zero in
    let d3 = idt_set d2 14 h.idt_pf in
    let d4 = idt_set d3 13 h.idt_gpf in
    let d5 = idt_set d4 6 h.idt_inv in
    let d6 = idt_set d5 8 h.idt_df in
    let d7 = idt_set d6 11 h.idt_snp in
    let d8 = idt_set d7 0x21 h.int21h in
    record { descriptors = d8; limit = 8 * total_interrupts - 1; base = at; is_loaded = true }

-- The bug codes of ke/bug.h
abbrev pub kmode_div_zero : ℕ
kmode_div_zero = 0x00000000

abbrev pub kmode_page_fault : ℕ
kmode_page_fault = 0x0000001E

abbrev pub kmode_gpf : ℕ
kmode_gpf = 0x000001EF

abbrev pub kmode_invop : ℕ
kmode_invop = 0x00000FF0

abbrev pub kmode_df : ℕ
kmode_df = 0x000000EE

abbrev pub kmode_snp : ℕ
kmode_snp = 0x00000001

abbrev pub imp_crash : ℕ
imp_crash = 0xFFFFFFFF

abbrev pub kmode_gdtfail : ℕ
kmode_gdtfail = 0x0000FF00

-- The messages of KeBugCheck.
pub data Message : Type 0 where
  division_error : Message
  page_fault : Message
  general_protection_fault : Message
  invalid_opcode : Message
  double_fault : Message
  segment_not_present : Message
  how_did_we_get_here : Message
  gdt_argument : Message
  not_handled : Message

-- The message that the bug check prints before it stops the machine.
pub ke_bug_check : ℕ → Message
ke_bug_check code =
    if code == kmode_div_zero
    then division_error
    else if code == kmode_page_fault
    then page_fault
    else if code == kmode_gpf
    then general_protection_fault
    else if code == kmode_invop
    then invalid_opcode
    else if code == kmode_df
    then double_fault
    else if code == kmode_snp
    then segment_not_present
    else if code == imp_crash
    then how_did_we_get_here
    else if code == kmode_gdtfail
    then gdt_argument
    else not_handled

-- What the handlers of the exceptions raise.
abbrev pub idt_zero_code : ℕ
idt_zero_code = kmode_div_zero

abbrev pub idt_pf_code : ℕ
idt_pf_code = kmode_page_fault

abbrev pub idt_gpf_code : ℕ
idt_gpf_code = kmode_gpf

abbrev pub idt_df_code : ℕ
idt_df_code = kmode_df

abbrev pub idt_snp_code : ℕ
idt_snp_code = kmode_invop

abbrev pub idt_inv_code : ℕ
idt_inv_code = kmode_snp
