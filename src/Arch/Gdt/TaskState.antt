-- ===== src/Arch/Gdt/TaskState.antt =====
-- The task state entry and the tables of the other processors after `gdt_init`.
use arcane_os.Prelude.{
  ℕ, ◌+◌, ◌*◌, ◌^◌, ◌<◌, ◌≡◌, ◌≢◌, refl, arith, shr, write, write_self, write-ne, sym,
}
use arcane_os.Prelude.Bits.{bit_and-ones}
use arcane_os.Arch.Gdt.{TssEntry, GdtTable, Gdt, sizeof_tss, tss_entry_of, gdt_init, set_segments}

-- The address that the processor puts together from the four parts of a system entry, and the
-- bytes it covers.
abbrev pub base_of : TssEntry → ℕ
base_of e = e.base + e.base1 * 2 ^ 16 + e.base2 * 2 ^ 24 + e.base3 * 2 ^ 32

pub record Describes (addr size : ℕ) (e : TssEntry) : Type 0 where
  pub based : base_of e ≡ addr
  pub limit : e.len + 1 ≡ size
  pub available : e.flags ≡ 0x89
  pub upper : e.flags1 ≡ 0

tss_entry_of-Describes : (a : ℕ) → a < 2 ^ 64 → Describes a sizeof_tss (tss_entry_of a)
unfolding tss_entry_of
tss_entry_of-Describes a lt = record {
  based = omega (arith, bit_and-ones 16 a, bit_and-ones 8 (shr a 16), bit_and-ones 8 (shr a 24));
  limit = refl;
  available = refl;
  upper = refl;
}

-- The segments of a table, at 0x00, 0x08, 0x10, 0x18 and 0x20.
abbrev pub segments_of : GdtTable → ℕ × ℕ × ℕ × ℕ × ℕ
segments_of t = (t.entries 0, t.entries 1, t.entries 2, t.entries 3, t.entries 4)

-- gdt_init gives a processor a task state entry that describes its own task state, whose
-- address fits 64 bits, code and data segments at 0x08 and 0x10 and those of user mode at 0x18
-- and 0x20; it changes no table of another processor.
pub gdt_init-Describes :
    (tss_addr table_addr cpu_id : ℕ) (g : Gdt)
    → tss_addr + cpu_id * sizeof_tss < 2 ^ 64
    → (w : ℕ) → w ≢ cpu_id
    → Describes
        (tss_addr + cpu_id * sizeof_tss)
        ((gdt_init tss_addr table_addr cpu_id g).tss_vec cpu_id).iopb
        ((gdt_init tss_addr table_addr cpu_id g).table_vec cpu_id).tss_entry
      × (segments_of ((gdt_init tss_addr table_addr cpu_id g).table_vec cpu_id)
          ≡ (0, 0x00af9b000000ffff, 0x00af93000000ffff, 0x00aff3000000ffff, 0x00affb000000ffff))
      × ((gdt_init tss_addr table_addr cpu_id g).table_vec w ≡ g.table_vec w)
unfolding gdt_init set_segments write
gdt_init-Describes tss_addr table_addr cpu_id g lt w away =
    let a = tss_addr + cpu_id * sizeof_tss in
    let table : GdtTable = record {
      entries = set_segments (g.table_vec cpu_id).entries;
      tss_entry = tss_entry_of a;
    } in
    let here = write_self g.table_vec cpu_id table in
    let tss = write_self g.tss_vec cpu_id (record (g.tss_vec cpu_id) { iopb = sizeof_tss }) in
    (
      rw (here, tss) (tss_entry_of-Describes a lt),
      rw here refl,
      write-ne g.table_vec table (λ same. away (sym same)),
    )
