-- ===== src/Arch.antt =====
-- The x86-64 part of the kernel, kernel/src/arch/x86_64.
pub mod Mmu
pub mod Gdt
pub mod Ioapic
pub mod Interrupts
pub mod Madt
pub mod Apic
pub mod Acpi
pub mod Pit
pub mod Ports
pub mod Msr
