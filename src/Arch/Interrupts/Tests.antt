-- ===== src/Arch/Interrupts/Tests.antt =====
-- An empty table, and the theorems of `Gates` and `Vectors` at it.
use arcane_os.Prelude.{ℕ, ◌*◌, ◌-◌, ◌≡◌, refl, some, [], arith, write}
use arcane_os.Arch.Ioapic.{Madt}
use arcane_os.Arch.Interrupts.{
  IdtEntry, Interrupts, first_vector, interrupts_init, interrupts_set_handler, route_line,
}
use arcane_os.Arch.Interrupts.Gates.{IsGate, interrupts_init-IsGate}

abbrev no_gate : IdtEntry
no_gate = record {
  off_low = 0;
  selector = 0;
  ist = 0;
  flags = 0;
  off_mid = 0;
  off_high = 0;
  zero_word = 0;
}

abbrev start : Interrupts
start = record {
  idt_entries = λ v. no_gate;
  idt_register = record { size = 0; addr = 0 };
  idt_handlers = λ v. 0;
  free_vector = first_vector;
}

abbrev stub : ℕ
stub = 0xFFFFFFFF80123456

interrupts_init-IsGate_example :
    IsGate stub ((interrupts_init (λ w. stub) 4096 start).idt_entries 200)
    × ((interrupts_init (λ w. stub) 4096 start).idt_register
        ≡ record { size = 256 * 16 - 1; addr = 4096 })
interrupts_init-IsGate_example =
    interrupts_init-IsGate (λ w. stub) 4096 start (λ v. omega arith) 200 (omega arith)

abbrev no_madt : Madt
no_madt = record { ioapics = []; isos = [] }

abbrev handled : Interrupts
handled = record start { idt_handlers = write start.idt_handlers 64 7 }

sets_handler : interrupts_set_handler no_madt 0 64 7 start ≡ some (handled, [])
unfolding interrupts_set_handler route_line
sets_handler = refl
