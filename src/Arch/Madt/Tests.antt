-- ===== src/Arch/Madt/Tests.antt =====
-- A table with one I/O APIC and one source override, and the theorems of `Listing` at it.
use arcane_os.Prelude.{
  load, ℕ, ◌≡◌, ◌≢◌, refl, [], ◌∷◌, none, some, arith, ◌==◌, if◌then◌else◌, Cells,
}
use arcane_os.Mm.Page.{lower_half}
use arcane_os.Arch.Madt.{MadtState, madt_loop, madt_init, table_size}
use arcane_os.Arch.Madt.Listing.{Table, ends, entry, Lists, madt_init-Lists, madt_loop-zero_length}

abbrev bytes : Cells ℕ
bytes a =
    if a == 4100
    then 66
    else if a == 4140
    then 1
    else if a == 4141
    then 12
    else if a == 4152
    then 2
    else if a == 4153
    then 10
    else 0

abbrev empty : MadtState
empty = record {
  ioapic_vec = λ i. 0;
  ioapic_count = 0;
  iso_vec = λ i. 0;
  iso_count = 0;
  apic_addr = 0;
}

size_here : table_size 4096 bytes ≡ 22
unfolding load
size_here = refl

two_entries : Table bytes 4140 22 0 ((1, 4140) ∷ (2, 4152) ∷ [])
two_entries =
    entry (omega arith) (omega arith) (entry (omega arith) (omega arith) (ends (omega arith)))

found : lower_half 0 4096 ≢ 0
unfolding lower_half
found = omega arith

madt_init-Lists_example :
    (t : MadtState) × (madt_init 0 4096 bytes empty ≡ some t)
    × Lists t.ioapic_vec t.ioapic_count 0 (4140 ∷ [])
    × Lists t.iso_vec t.iso_count 0 (4152 ∷ [])
madt_init-Lists_example =
    madt_init-Lists 0 4096 bytes empty ((1, 4140) ∷ (2, 4152) ∷ []) found refl refl
      (omega (arith, size_here)) (omega arith) (omega arith) (rw size_here two_entries)

madt_loop-zero_length_example : madt_loop 1000 0 22 0 (λ a. 0) empty ≡ none
madt_loop-zero_length_example =
    madt_loop-zero_length 1000 0 22 0 (λ a. 0) empty (omega arith) (omega arith) refl
