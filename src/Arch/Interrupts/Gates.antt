-- ===== src/Arch/Interrupts/Gates.antt =====
-- The descriptor table after `interrupts_init`.
use arcane_os.Prelude.{
  ℕ, zero, suc, ◌+◌, ◌-◌, ◌*◌, ◌^◌, ◌≤◌, ◌<◌, ◌≡◌, refl, sym, inl, inr, Bool-cases, ltb, ◌∙◌, arith,
  shr, Cells, write_self, write-ne,
}
use mathlib.Core.Path.{subst}
use arcane_os.Prelude.Bits.{bit_and-ones}
use arcane_os.Arch.Interrupts.{
  IdtEntry, Interrupts, gate, interrupts_set_entry, set_entries, interrupts_init,
}

-- The address that the processor puts together from the three parts of a gate.
abbrev pub offset_of : IdtEntry → ℕ
offset_of e = e.off_low + e.off_mid * 2 ^ 16 + e.off_high * 2 ^ 32

-- A present 64-bit interrupt gate to `isr` in the kernel's code segment, without a stack switch.
pub record IsGate (isr : ℕ) (e : IdtEntry) : Type 0 where
  pub offset : offset_of e ≡ isr
  pub segment : e.selector ≡ 0x08
  pub stack : e.ist ≡ 0
  pub kind : e.flags ≡ 0x8E
  pub reserved : e.zero_word ≡ 0

gate-IsGate : (isr : ℕ) → isr < 2 ^ 64 → IsGate isr (gate isr 0x8E)
gate-IsGate isr lt = record {
  offset =
      omega
        (arith, bit_and-ones 16 isr, bit_and-ones 16 (shr isr 16), bit_and-ones 32 (shr isr 32));
  segment = refl;
  stack = refl;
  kind = refl;
  reserved = refl;
}

-- The loop leaves the entries below its first vector and fills the next `n`.
set_entries-below :
    (n v : ℕ) (isr_table : Cells ℕ) (s : Interrupts) (w : ℕ)
    → w < v
    → (set_entries n v isr_table s).idt_entries w ≡ s.idt_entries w
unfolding set_entries interrupts_set_entry
set_entries-below zero v isr_table s w lt = refl
set_entries-below (suc n) v isr_table s w lt =
    set_entries-below n (v + 1) isr_table (interrupts_set_entry v (isr_table v) 0x8E s) w
      (omega arith)
    ∙ write-ne s.idt_entries (gate (isr_table v) 0x8E) (omega arith)

set_entries-gate :
    (n v : ℕ) (isr_table : Cells ℕ) (s : Interrupts) (w : ℕ)
    → v ≤ w
    → w < v + n
    → (set_entries n v isr_table s).idt_entries w ≡ gate (isr_table w) 0x8E
unfolding set_entries interrupts_set_entry
set_entries-gate zero v isr_table s w le lt = absurd (omega arith)
set_entries-gate (suc n) v isr_table s w le lt =
    let entered = interrupts_set_entry v (isr_table v) 0x8E s in
    elim (Bool-cases (ltb v w)) [
      | inl more ↦ set_entries-gate n (v + 1) isr_table entered w (ground arith) (omega arith)
      | inr last ↦
          let here : w ≡ v = ground arith in
          set_entries-below n (v + 1) isr_table entered w (omega arith)
          ∙ rw here (write_self s.idt_entries v (gate (isr_table v) 0x8E))
    ]

-- After interrupts_init each of the 256 vectors has a present interrupt gate, in the kernel's
-- code segment, whose three parts make up the address of its stub, and the register describes
-- the whole table of 16-byte entries.
pub interrupts_init-IsGate :
    (isr_table : Cells ℕ) (base : ℕ) (s : Interrupts)
    → ((v : ℕ) → isr_table v < 2 ^ 64)
    → (v : ℕ) → v < 256
    → IsGate (isr_table v) ((interrupts_init isr_table base s).idt_entries v)
      × ((interrupts_init isr_table base s).idt_register
          ≡ record { size = 256 * 16 - 1; addr = base })
unfolding interrupts_init
interrupts_init-IsGate isr_table base s fits v lt = (
  subst (IsGate (isr_table v)) (sym (set_entries-gate 256 0 isr_table s v (omega arith) lt))
      (gate-IsGate (isr_table v) (fits v)),
  refl,
)
