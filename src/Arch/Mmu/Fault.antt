-- ===== src/Arch/Mmu/Fault.antt =====
-- What the kernel says of a page fault before it stops, mmu_handle_fault of
-- kernel/src/arch/x86_64/mmu.c.
use arcane_os.Prelude.{ℕ, List, [], ◌∷◌, bit_and}
use arcane_os.Sys.Thread.{Context}

-- The lines of the report, with their numbers.
pub data Line : Type 0 where
  page_fault : Line
  address present writable user instruction : ℕ → Line

-- With what cr2 holds, the address; the kernel stops after the last line.
unfoldable pub mmu_handle_fault : (cr2 : ℕ) → Context → List Line
mmu_handle_fault cr2 ctx =
    page_fault
    ∷ address cr2
    ∷ present (bit_and ctx.err_code 1)
    ∷ writable (bit_and ctx.err_code 2)
    ∷ user (bit_and ctx.err_code 4)
    ∷ instruction (bit_and ctx.err_code 8)
    ∷ []
