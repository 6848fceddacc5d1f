-- ===== src/Arch/Madt.antt =====
-- The interrupt controllers listed in the ACPI tables, kernel/src/arch/x86_64/madt.c, over the
-- bytes of memory. The vectors hold the addresses of the entries.
pub mod Listing
mod Tests
use arcane_os.Prelude.{
  ℕ, zero, suc, ◌+◌, ◌*◌, ◌^◌, Option, none, some, load, u8, u64, sub64, ltb, ◌==◌, if◌then◌else◌,
  Cells, write,
}
use arcane_os.Mm.Page.{lower_half}

-- The places of `madt_ioapic_vec` and of `madt_iso_vec`.
abbrev pub vec_places : ℕ
vec_places = 32

-- `madt_ioapic_vec`, `madt_iso_vec`, their counts, and `madt_apic_addr`. Up to `vec_places` entries
-- of a kind this is what the code keeps; the code does not test the count, and with more entries
-- it writes behind the vector, which is outside this state.
pub record MadtState : Type 0 where
  pub ioapic_vec : Cells ℕ
  pub ioapic_count : ℕ
  pub iso_vec : Cells ℕ
  pub iso_count : ℕ
  pub apic_addr : ℕ

-- The switch of madt_init on the entry at `entry_data`. `madt_lapic_override_t` is not packed, so
-- its address field lies at 8.
unfoldable pub madt_entry : (entry_type entry_data : ℕ) → Cells ℕ → MadtState → MadtState
madt_entry entry_type entry_data m s =
    if entry_type == 1
    then record s {
      ioapic_vec = write s.ioapic_vec s.ioapic_count entry_data;
      ioapic_count = s.ioapic_count + 1;
    }
    else if entry_type == 2
    then record s { iso_vec = write s.iso_vec s.iso_count entry_data; iso_count = s.iso_count + 1 }
    else if entry_type == 5
    then record s { apic_addr = load 8 m (entry_data + 8) }
    else s

-- The loop of madt_init, on fuel.
unfoldable pub madt_loop :
    (fuel entry_table table_size offset : ℕ) → Cells ℕ → MadtState → Option MadtState
madt_loop zero entry_table table_size offset m s = none
madt_loop (suc fuel) entry_table table_size offset m s =
    let entry_type = u8 (m (entry_table + offset)) in
    let entry_len = u8 (m (entry_table + (offset + 1))) in
    let rest =
      madt_loop fuel entry_table table_size (u64 (offset + entry_len)) m
        (madt_entry entry_type (entry_table + offset) m s) in
    if ltb offset table_size then rest else some s

abbrev pub table_limit : ℕ
table_limit = 2 ^ 64

-- sizeof(madt_t)
abbrev pub sizeof_madt : ℕ
sizeof_madt = 44

-- `madt->sdt_header.len - sizeof(madt_t)`
abbrev pub table_size : (madt : ℕ) → Cells ℕ → ℕ
table_size madt m = sub64 (load 4 m (madt + 4)) sizeof_madt

-- `madt` is what acpi_find_table returned. `none`: the assertion fails, or the loop does not end.
unfoldable pub madt_init : (hhdm madt : ℕ) → Cells ℕ → MadtState → Option MadtState
madt_init hhdm madt m s =
    if lower_half hhdm madt == 0
    then none
    else madt_loop table_limit (madt + sizeof_madt) (table_size madt m) 0 m
        (record s { apic_addr = load 4 m (madt + 36) })
