-- ===== src/Arch/Interrupts.antt =====
-- The interrupt descriptor table and the handlers, kernel/src/arch/x86_64/interrupts.c. The
-- instructions of interrupts_init and interrupts_set are left out, and so is the log.
pub mod Gates
pub mod Vectors
mod Tests
use arcane_os.Prelude.{
  ℕ, zero, suc, ◌+◌, ◌-◌, ◌^◌, Bool, true, false, Option, none, some, List, [], ◌∷◌, bit_and, shr,
  u8, u16, u32, ltb, leb, ◌&&◌, ◌==◌, if◌then◌else◌, Cells, write,
}
use arcane_os.Arch.Apic.{Apic, Action, apic_eoi}
use arcane_os.Arch.Ioapic.{Madt, Store, ioapic_map_irq}

pub record IdtEntry : Type 0 where
  pub off_low : ℕ
  pub selector : ℕ
  pub ist : ℕ
  pub flags : ℕ
  pub off_mid : ℕ
  pub off_high : ℕ
  pub zero_word : ℕ

pub record IdtDesc : Type 0 where
  pub size : ℕ
  pub addr : ℕ

-- `idt_entries`, `idt_register`, `idt_handlers` with 0 for NULL, and the static `free_vector`.
pub record Interrupts : Type 0 where
  pub idt_entries : Cells IdtEntry
  pub idt_register : IdtDesc
  pub idt_handlers : Cells ℕ
  pub free_vector : ℕ

-- The entry that `interrupts_set_entry` fills in.
abbrev pub gate : (isr flags : ℕ) → IdtEntry
gate isr flags = record {
  off_low = u16 (bit_and isr 0xffff);
  selector = 0x08;
  ist = 0;
  flags = flags;
  off_mid = u16 (bit_and (shr isr 16) 0xffff);
  off_high = u32 (bit_and (shr isr 32) 0xffffffff);
  zero_word = 0;
}

unfoldable pub interrupts_set_entry : (vector isr flags : ℕ) → Interrupts → Interrupts
interrupts_set_entry vector isr flags s = record s {
  idt_entries = write s.idt_entries vector (gate isr flags);
}

-- `for (vector = 0; vector < 256; vector++)`, from `vector` on, with `n` rounds left
unfoldable pub set_entries : (n vector : ℕ) → Cells ℕ → Interrupts → Interrupts
set_entries zero vector isr_table s = s
set_entries (suc n) vector isr_table s =
    set_entries n (vector + 1) isr_table (interrupts_set_entry vector (isr_table vector) 0x8e s)

-- The entries are 16 bytes each; `base` is the address of `idt_entries`.
unfoldable pub interrupts_init : Cells ℕ → (base : ℕ) → Interrupts → Interrupts
interrupts_init isr_table base s = record (set_entries 256 0 isr_table s) {
  idt_register = record { size = 4095; addr = base };
}

-- What interrupts_set_handler has the I/O APICs told: the sixteen legacy lines are routed, to
-- processor 0. `none`: there is no I/O APIC to write to.
unfoldable pub route_line : Madt → (hhdm vector : ℕ) → Option (List Store)
route_line madt hhdm vector =
    if leb 32 vector && ltb vector 48
    then ioapic_map_irq madt hhdm 0 (u8 (vector - 32)) vector false
    else some []

-- The handler is stored, then the line routed.
unfoldable pub interrupts_set_handler :
    Madt → (hhdm vector handler : ℕ) → Interrupts → Option (Interrupts × List Store)
interrupts_set_handler madt hhdm vector handler s = elim (route_line madt hhdm vector) [
  | none ↦ none
  | some stores ↦ some (record s { idt_handlers = write s.idt_handlers vector handler }, stores)
]

-- `none`: the assertion fails and the kernel stops.
unfoldable pub interrupts_alloc_vec : Interrupts → Option (ℕ × Interrupts)
interrupts_alloc_vec s =
    if ltb s.free_vector 255
    then some (s.free_vector, record s { free_vector = u8 (s.free_vector + 1) })
    else none

-- The start value of the static.
abbrev pub first_vector : ℕ
first_vector = 48

-- What `interrupts_handle_int` does with the context at `ctx`: call the handler, with the trap
-- frame of this processor set first if others run, or stop.
pub data Outcome : Type 0 where
  call : (handler ctx : ℕ) → (trap_frame : Option ℕ) → Outcome
  die : (int_no : ℕ) → Outcome

unfoldable pub interrupts_handle_int : Bool → (int_no ctx : ℕ) → Interrupts → Outcome
interrupts_handle_int smp_enabled int_no ctx s =
    if s.idt_handlers int_no == 0
    then die int_no
    else call (s.idt_handlers int_no) ctx (if smp_enabled then some ctx else none)

-- The status of this processor as it was, and as it is set; the machine's own flag follows it.
unfoldable pub interrupts_set : (state interrupt_status : ℕ) → ℕ × ℕ
interrupts_set state interrupt_status = (interrupt_status, state)

-- The instructions of interrupts_reload.
pub data Instruction : Type 0 where
  lidt : IdtDesc → Instruction
  sti : Instruction

unfoldable pub interrupts_reload : Interrupts → List Instruction
interrupts_reload s = lidt s.idt_register ∷ sti ∷ []

unfoldable pub interrupts_eoi : Apic → List Action
interrupts_eoi a = apic_eoi a
