-- ===== src/Arch/Gdt.antt =====
-- Segment descriptors, kernel/src/arch/x86_64/gdt.c: one table for each processor. Loading the
-- table, the task register and the segments are instructions and left out.
pub mod TaskState
mod Tests
use arcane_os.Prelude.{ℕ, ◌+◌, ◌-◌, ◌*◌, ◌^◌, u8, u16, u32, bit_and, shr, Cells, write}

pub record TssEntry : Type 0 where
  pub len : ℕ
  pub base : ℕ
  pub base1 : ℕ
  pub flags : ℕ
  pub flags1 : ℕ
  pub base2 : ℕ
  pub base3 : ℕ
  pub resv : ℕ

-- The task state: only `iopb` is written.
pub record TssDesc : Type 0 where
  pub rsp : Cells ℕ
  pub ist : Cells ℕ
  pub iopb : ℕ

pub record GdtTable : Type 0 where
  pub entries : Cells ℕ
  pub tss_entry : TssEntry

pub record GdtDesc : Type 0 where
  pub size : ℕ
  pub addr : ℕ

-- The vectors `gdt_table_vec`, `gdt_desc_vec` and `tss_desc_vec`, by processor.
pub record Gdt : Type 0 where
  pub table_vec : Cells GdtTable
  pub desc_vec : Cells GdtDesc
  pub tss_vec : Cells TssDesc

-- sizeof(tss_desc_t) and sizeof(gdt_table_t), both packed
abbrev pub sizeof_tss : ℕ
sizeof_tss = 104

abbrev pub sizeof_table : ℕ
sizeof_table = 56

-- The five entries that gdt_init writes over those of a table.
unfoldable pub set_segments : Cells ℕ → Cells ℕ
set_segments e =
    write
      (write (write (write (write e 0 0) 1 0x00af9b000000ffff) 2 0x00af93000000ffff) 3
        0x00aff3000000ffff)
      4 0x00affb000000ffff

-- The entry of the task state at `tss_base`.
unfoldable pub tss_entry_of : (tss_base : ℕ) → TssEntry
tss_entry_of tss_base = record {
  len = sizeof_tss - 1;
  base = u16 (bit_and tss_base 0xffff);
  base1 = u8 (bit_and (shr tss_base 16) 0xff);
  flags = 0x89;
  flags1 = 0;
  base2 = u8 (bit_and (shr tss_base 24) 0xff);
  base3 = u32 (shr tss_base 32);
  resv = 0;
}

-- `tss_addr` and `table_addr` are the addresses of the two vectors.
unfoldable pub gdt_init : (tss_addr table_addr cpu_id : ℕ) → Gdt → Gdt
unfolding set_segments tss_entry_of
gdt_init tss_addr table_addr cpu_id g = record {
  table_vec = write g.table_vec cpu_id (record {
    entries = set_segments (g.table_vec cpu_id).entries;
    tss_entry = tss_entry_of (tss_addr + cpu_id * sizeof_tss);
  });
  desc_vec =
      write g.desc_vec cpu_id
        (record { size = sizeof_table - 1; addr = table_addr + cpu_id * sizeof_table });
  tss_vec = write g.tss_vec cpu_id (record (g.tss_vec cpu_id) { iopb = sizeof_tss });
}
