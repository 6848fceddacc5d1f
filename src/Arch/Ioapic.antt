-- ===== src/Arch/Ioapic.antt =====
-- The I/O APICs, the second half of kernel/src/arch/x86_64/apic.c, with the structures of
-- kernel/src/include/arch/x86_64/madt.h that it reads. What the code writes to the devices is a
-- list of stores, in order.
pub mod Routing
mod Tests
use arcane_os.Prelude.{
  ℕ, ◌+◌, ◌*◌, ◌/◌, ◌^◌, Bool, Option, none, some, List, [], ◌∷◌, ◌++◌, bit_and, bit_or, u8, u32,
  u64, shl, shr, ltb, leb, ◌&&◌, ◌==◌, if◌then◌else◌,
}
use arcane_os.Mm.Page.{higher_half}

pub record Ioapic : Type 0 where
  pub ioapic_id : ℕ
  pub ioapic_addr : ℕ
  pub gsi_base : ℕ

pub record Iso : Type 0 where
  pub bus_src : ℕ
  pub irq_src : ℕ
  pub gsi : ℕ
  pub flags : ℕ

-- The tables `madt_ioapic_vec` and `madt_iso_vec`, up to their counts.
pub record Madt : Type 0 where
  pub ioapics : List Ioapic
  pub isos : List Iso

-- A 32-bit store of a value to a device register at an address.
pub data Store : Type 0 where
  store : (at value : ℕ) → Store

unfoldable pub ioapic_write : (hhdm base reg value : ℕ) → List Store
ioapic_write hhdm base reg value =
    store (higher_half hhdm base) reg ∷ store (u64 (higher_half hhdm base + 0x10)) value ∷ []

-- The loop of `ioapic_map_gsi`; `none` is the null pointer of an empty table.
unfoldable pub find_ioapic : List Ioapic → (gsi : ℕ) → Option Ioapic
find_ioapic [] gsi = none
find_ioapic (ioapic ∷ []) gsi = some ioapic
find_ioapic (ioapic ∷ next ∷ rest) gsi =
    if leb ioapic.gsi_base gsi && ltb gsi next.gsi_base
    then some ioapic
    else find_ioapic (next ∷ rest) gsi

-- IOAPIC_REDIR_TABLE, in 32 bits
unfoldable pub ioapic_redir_table : ℕ → ℕ
ioapic_redir_table n = u32 (0x10 + 2 * n)

-- The redirection entry.
unfoldable pub redirection : (apic_id vec flags : ℕ) → ℕ
redirection apic_id vec flags = bit_or (bit_or vec flags) (u64 (shl apic_id 56))

-- The two writes of `ioapic_map_gsi`, the low word before the high one.
unfoldable pub write_entry : Ioapic → (hhdm apic_id gsi vec flags : ℕ) → List Store
unfolding ioapic_redir_table
write_entry ioapic hhdm apic_id gsi vec flags =
    let entry = redirection apic_id vec flags in
    let reg = u8 (ioapic_redir_table gsi) in
    ioapic_write hhdm ioapic.ioapic_addr reg (u32 entry)
    ++ ioapic_write hhdm ioapic.ioapic_addr (u8 (reg + 1)) (u32 (shr entry 32))

unfoldable pub ioapic_map_gsi : List Ioapic → (hhdm apic_id gsi vec flags : ℕ) → Option (List Store)
ioapic_map_gsi ioapics hhdm apic_id gsi vec flags = elim (find_ioapic ioapics gsi) [
  | none ↦ none
  | some ioapic ↦ some (write_entry ioapic hhdm apic_id gsi vec flags)
]

unfoldable pub find_iso : List Iso → (irq : ℕ) → Option Iso
find_iso [] irq = none
find_iso (iso ∷ rest) irq =
    let later = find_iso rest irq in if iso.irq_src == irq then some iso else later

-- The flags of a redirection entry, from those of the source override.
unfoldable pub iso_flags : (flags : ℕ) (mask : Bool) → ℕ
iso_flags flags mask =
    let polarity = if bit_and flags (2 ^ 1) == 0 then 0 else bit_or 0 (2 ^ 13) in
    let trigger = if bit_and flags (2 ^ 3) == 0 then polarity else bit_or polarity (2 ^ 15) in
    if mask then bit_or trigger (2 ^ 16) else trigger

unfoldable pub ioapic_map_irq :
    Madt → (hhdm apic_id irq vec : ℕ) → (mask : Bool) → Option (List Store)
ioapic_map_irq madt hhdm apic_id irq vec mask = elim (find_iso madt.isos irq) [
  | none ↦ ioapic_map_gsi madt.ioapics hhdm apic_id irq vec (if mask then 2 ^ 16 else 0)
  | some iso ↦ ioapic_map_gsi madt.ioapics hhdm apic_id iso.gsi vec (iso_flags iso.flags mask)
]
