-- ===== src/Arch/Ioapic/Tests.antt =====
-- Two I/O APICs, one source override, and the theorems of `Routing` at them.
use arcane_os.Prelude.{ℕ, ◌+◌, ◌*◌, ◌^◌, ◌≡◌, ◌≢◌, ◌⊎◌, refl, [], ◌∷◌, false, some, arith}
use arcane_os.Arch.Ioapic.{Ioapic, Iso, Madt, find_iso, ioapic_map_irq}
use arcane_os.Arch.Ioapic.Routing.{Serves, single, link, programs, ioapic_map_irq-programs}

abbrev first : Ioapic
first = record { ioapic_id = 0; ioapic_addr = 0xFEC00000; gsi_base = 0 }

abbrev second : Ioapic
second = record { ioapic_id = 1; ioapic_addr = 0xFEC01000; gsi_base = 24 }

abbrev timer_line : Iso
timer_line = record { bus_src = 0; irq_src = 0; gsi = 2; flags = 0xF }

abbrev two : Madt
two = record { ioapics = first ∷ second ∷ []; isos = timer_line ∷ [] }

ioapic_map_irq-programs_example :
    (io : Ioapic) × (n : ℕ) × Serves (first ∷ second ∷ []) 2 io
    × (io.gsi_base + n ≡ 2)
    × (ioapic_map_irq two 0xFFFF800000000000 0 0 32 false
        ≡ some (programs 0xFFFF800000000000 io.ioapic_addr 0 2 (32 + 5 * 2 ^ 13)))
    × (((io.gsi_base ≡ 0)
          × (ioapic_map_irq two 0xFFFF800000000000 0 0 32 false
              ≡ some (programs 0xFFFF800000000000 io.ioapic_addr 0 n (32 + 5 * 2 ^ 13))))
        ⊎ ((io.gsi_base ≢ 0)
            × (ioapic_map_irq two 0xFFFF800000000000 0 0 32 false
                ≢ some (programs 0xFFFF800000000000 io.ioapic_addr 0 n (32 + 5 * 2 ^ 13)))))
unfolding find_iso
ioapic_map_irq-programs_example =
    ioapic_map_irq-programs two 0xFFFF800000000000 0 0 32 false first (second ∷ []) refl
      (link (omega arith) single) (omega arith) (omega arith) (omega arith)
