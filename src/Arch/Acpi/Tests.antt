-- ===== src/Arch/Acpi/Tests.antt =====
-- A root table with one entry, and the theorem on the search in it.
use arcane_os.Prelude.{ℕ, ◌≤◌, true, ◌==◌, if◌then◌else◌, arith, Cells, load}
use arcane_os.Arch.Acpi.{acpi_find_table}
use arcane_os.Arch.Acpi.Search.{IsFirst, sdt_length, acpi_find_table-IsFirst}

-- The root table of 44 bytes at 1000, the address 2000 in it, and "A" at 50 and 2000.
abbrev memory : Cells ℕ
memory a =
    if a == 1004
    then 44
    else if a == 1036
    then 208
    else if a == 1037
    then 7
    else if a == 50
    then 65
    else if a == 2000
    then 65
    else 0

covers : 36 ≤ sdt_length 0 1000 true memory
unfolding load
covers = omega arith

acpi_find_table-IsFirst_example :
    IsFirst 0 1000 true memory 50
      (acpi_find_table 0 50 (record { sdt_address = 1000; use_xsdt = true }) memory)
acpi_find_table-IsFirst_example = acpi_find_table-IsFirst 0 1000 true memory 50 covers
