-- ===== src/Arch/Gdt/Tests.antt =====
-- Zeroed tables, and the theorem of `TaskState` for processor 1.
use arcane_os.Prelude.{ℕ, ◌+◌, ◌*◌, ◌≡◌, arith}
use arcane_os.Arch.Gdt.{TssEntry, Gdt, sizeof_tss, gdt_init}
use arcane_os.Arch.Gdt.TaskState.{Describes, segments_of, gdt_init-Describes}

abbrev no_tss : TssEntry
no_tss = record {
  len = 0;
  base = 0;
  base1 = 0;
  flags = 0;
  flags1 = 0;
  base2 = 0;
  base3 = 0;
  resv = 0;
}

abbrev zeroed : Gdt
zeroed = record {
  table_vec = λ i. record { entries = λ j. 0; tss_entry = no_tss };
  desc_vec = λ i. record { size = 0; addr = 0 };
  tss_vec = λ i. record { rsp = λ j. 0; ist = λ j. 0; iopb = 0 };
}

abbrev tss_at : ℕ
tss_at = 0xFFFFFFFF80200000

gdt_init-Describes_example :
    Describes
      (tss_at + 1 * sizeof_tss)
      ((gdt_init tss_at 8192 1 zeroed).tss_vec 1).iopb
      ((gdt_init tss_at 8192 1 zeroed).table_vec 1).tss_entry
    × (segments_of ((gdt_init tss_at 8192 1 zeroed).table_vec 1)
        ≡ (0, 0x00af9b000000ffff, 0x00af93000000ffff, 0x00aff3000000ffff, 0x00affb000000ffff))
    × ((gdt_init tss_at 8192 1 zeroed).table_vec 0 ≡ zeroed.table_vec 0)
gdt_init-Describes_example = gdt_init-Describes tss_at 8192 1 zeroed (omega arith) 0 (omega arith)
