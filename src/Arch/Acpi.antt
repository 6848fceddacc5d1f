-- ===== src/Arch/Acpi.antt =====
-- The search of the ACPI tables, kernel/src/arch/x86_64/acpi.c, over the bytes of memory.
pub mod Search
mod Tests
use arcane_os.Prelude.{
  ℕ, zero, suc, ◌+◌, ◌*◌, ◌/◌, ◌%◌, ◌^◌, Bool, Option, none, some, load, u8, u32, u64, sub64, ltb,
  ◌==◌, if◌then◌else◌, Cells,
}
use arcane_os.Strings.{Sign, minus_one, nought, one, memcmp}
use arcane_os.Mm.Page.{higher_half}

-- `sdt_address` and `use_xsdt`
pub record Acpi : Type 0 where
  pub sdt_address : ℕ
  pub use_xsdt : Bool

-- The offsets of the fields of `xsdp_t`, and of `len` in `sdt_header_t`, which has `sizeof_header`
-- bytes.
abbrev pub rev_at : ℕ
rev_at = 15

abbrev pub rsdt_addr_at : ℕ
rsdt_addr_at = 16

abbrev pub xsdt_addr_at : ℕ
xsdt_addr_at = 24

abbrev pub len_at : ℕ
len_at = 4

abbrev pub sizeof_header : ℕ
sizeof_header = 36

-- The address of the structure is the boot loader's, and "RSD PTR" stands at `sign`. `none`: the
-- assertion fails.
unfoldable pub acpi_init : (hhdm address sign : ℕ) → Cells ℕ → Option Acpi
acpi_init hhdm address sign m =
    let rsdp = higher_half hhdm address in
    let use_xsdt = u8 (m (rsdp + rev_at)) == 2 in
    let sdt = if use_xsdt then load 8 m (rsdp + xsdt_addr_at) else load 4 m (rsdp + rsdt_addr_at) in
    elim (memcmp m rsdp sign 7) [
      | minus_one ↦ none
      | one ↦ none
      | nought ↦ some (record { sdt_address = higher_half hhdm sdt; use_xsdt = use_xsdt })
    ]

abbrev pub entry_size : Acpi → ℕ
entry_size a = if a.use_xsdt then 8 else 4

-- The rounds of a loop up to an `int` that a number is cast to: none if it is negative.
abbrev pub int_rounds : ℕ → ℕ
int_rounds n = if ltb (u32 n) (2 ^ 31) then u32 n else 0

unfoldable pub entry_count : Acpi → Cells ℕ → ℕ
entry_count a m =
    int_rounds (sub64 (load 4 m (a.sdt_address + len_at)) sizeof_header / entry_size a)

-- The header that entry `i` leads to.
unfoldable pub header_at : (hhdm : ℕ) → Acpi → Cells ℕ → (i : ℕ) → ℕ
header_at hhdm a m i =
    higher_half hhdm (load (entry_size a) m (a.sdt_address + sizeof_header + i * entry_size a))

-- The loop of acpi_find_table, from entry `i` on with `n` left.
unfoldable pub find_loop : (n i hhdm sign : ℕ) → Acpi → Cells ℕ → ℕ
unfolding header_at
find_loop zero i hhdm sign a m = 0
find_loop (suc n) i hhdm sign a m =
    let rest = find_loop n (i + 1) hhdm sign a m in
    elim (memcmp m (header_at hhdm a m i) sign 4) [
      | minus_one ↦ rest
      | one ↦ rest
      | nought ↦ header_at hhdm a m i
    ]

unfoldable pub acpi_find_table : (hhdm sign : ℕ) → Acpi → Cells ℕ → ℕ
unfolding find_loop entry_count
acpi_find_table hhdm sign a m = find_loop (entry_count a m) 0 hhdm sign a m
