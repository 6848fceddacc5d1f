-- ===== src/Arch/Apic/Tests.antt =====
-- A local APIC in its older mode, and the theorem of `Ipi` at it.
use arcane_os.Prelude.{ℕ, ◌+◌, ◌*◌, ◌^◌, ◌≡◌, List, [], ◌∷◌, false, arith}
use arcane_os.Arch.Apic.{Apic, apic_ipi}
use arcane_os.Arch.Apic.Ipi.{sent, apic_ipi-sent}

abbrev older : Apic
older = record { apic_addr = 0xFFFF8000FEE00000; x2apic_enabled = false }

abbrev one_sent : List (ℕ × ℕ)
one_sent = (5, 48 + 3 * 2 ^ 18) ∷ []

apic_ipi-sent_example : sent 0xFFFF8000FEE00000 0 (apic_ipi 5 48 (3 * 2 ^ 18) older) ≡ one_sent
apic_ipi-sent_example =
    apic_ipi-sent 5 48 3 0 older (omega arith) (omega arith) (omega arith) (omega arith)
