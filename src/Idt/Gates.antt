-- ===== src/Idt/Gates.antt =====
-- idt.c: what the processor finds at every interrupt after idt_init.
use libre_win.Prelude.{
  ℕ, zero, suc, ◌+◌, ◌*◌, ◌/◌, ◌%◌, ◌^◌, ◌<◌, ◌≡◌, refl, bit_and, true, arith, ◌==◌, if◌then◌else◌,
  Bool-cases, inl, inr,
}
use libre_win.Prelude.Bits.{bit_and_mask}
use libre_win.Memory.Laws.{within}
use libre_win.Idt.{IdtDesc, Handlers, idt_set, no_interrupt_loop, idt_init}

-- The address of a gate, from its two halves.
abbrev pub gate : IdtDesc → ℕ
gate d = d.offset_1 + d.offset_2 * 2 ^ 16

pub record AreAddresses (h : Handlers) : Type 0 where
  pub no_interrupt : h.no_interrupt < 2 ^ 32
  pub int2eh : h.int2eh < 2 ^ 32
  pub idt_zero : h.idt_zero < 2 ^ 32
  pub idt_pf : h.idt_pf < 2 ^ 32
  pub idt_gpf : h.idt_gpf < 2 ^ 32
  pub idt_inv : h.idt_inv < 2 ^ 32
  pub idt_df : h.idt_df < 2 ^ 32
  pub idt_snp : h.idt_snp < 2 ^ 32
  pub int21h : h.int21h < 2 ^ 32

halves : (a : ℕ) → a < 2 ^ 32 → bit_and a 0xffff + a / 2 ^ 16 % 2 ^ 16 * 2 ^ 16 ≡ a
halves a h = ground (arith, bit_and_mask 16 a)

gate-idt_set :
    (descriptors : ℕ → IdtDesc) (n a i : ℕ)
    → a < 2 ^ 32
    → gate (idt_set descriptors n a i) ≡ (if i == n then a else gate (descriptors i))
unfolding idt_set
gate-idt_set descriptors n a i h = elim (Bool-cases (i == n)) [
  | inl e ↦ rw e (halves a h)
  | inr e ↦ rw e refl
]

gate-no_interrupt_loop :
    (left i a : ℕ) (descriptors : ℕ → IdtDesc) (k : ℕ)
    → a < 2 ^ 32
    → gate (no_interrupt_loop left i a descriptors k)
      ≡ (if within i left k then a else gate (descriptors k))
unfolding no_interrupt_loop
gate-no_interrupt_loop zero i a descriptors k h = ground arith
gate-no_interrupt_loop (suc left) i a descriptors k h = ground (
  arith,
  gate-no_interrupt_loop left (i + 1) a (idt_set descriptors i a) k h,
  gate-idt_set descriptors i a k h,
)

-- With handlers at 32-bit addresses, after idt_init the keyboard interrupt, the system call and the six exceptions
-- lead to their handlers, and every other interrupt below 512 to no_interrupt.
pub idt_init_lem :
    (h : Handlers) (at i : ℕ)
    → AreAddresses h
    → i < 512
    → gate ((idt_init h at).descriptors i) ≡ (
        if i == 0x21
        then h.int21h
        else if i == 11
        then h.idt_snp
        else if i == 8
        then h.idt_df
        else if i == 6
        then h.idt_inv
        else if i == 13
        then h.idt_gpf
        else if i == 14
        then h.idt_pf
        else if i == 0
        then h.idt_zero
        else if i == 0x2e
        then h.int2eh
        else h.no_interrupt)
unfolding idt_init
idt_init_lem h at i v lt =
    let inside : within 0 512 i ≡ true = ground arith in
    rw
      (
        gate-idt_set _ 0x21 h.int21h i v.int21h,
        gate-idt_set _ 11 h.idt_snp i v.idt_snp,
        gate-idt_set _ 8 h.idt_df i v.idt_df,
        gate-idt_set _ 6 h.idt_inv i v.idt_inv,
        gate-idt_set _ 13 h.idt_gpf i v.idt_gpf,
        gate-idt_set _ 14 h.idt_pf i v.idt_pf,
        gate-idt_set _ 0 h.idt_zero i v.idt_zero,
        gate-idt_set _ 0x2e h.int2eh i v.int2eh,
        gate-no_interrupt_loop 512 0 h.no_interrupt _ i v.no_interrupt,
        inside,
      )
      refl
