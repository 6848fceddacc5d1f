-- ===== src/Mm/Vmm/Init.antt =====
-- vmm_init and vmm_new_pagemap of kernel/src/mm/vmm.c. The bounds of the kernel's sections come from
-- the linker, its own addresses and the memory map from the boot loader; the page fault handler
-- is registered with the interrupts and left out.
use arcane_os.Prelude.{
  ℕ, zero, suc, ◌+◌, ◌*◌, ◌^◌, none, some, List, [], ◌∷◌, bit_or, u64, sub64, ltb, if◌then◌else◌,
  Cells, write,
}
use arcane_os.Prelude.State.{State, pure, ◌>>=◌, ◌>>◌, gets, modify}
use arcane_os.Strings.{memset}
use arcane_os.Mm.Page.{
  page_size, map_read, map_write, map_nx, higher_half, lower_half, align_up, align_down,
}
use arcane_os.Mm.Pmm.Init.{Entry}
use arcane_os.Mm.Vmm.{Vmm, take_frame, map_frame, vmm_setup_vma}

-- `ld_text_start` and the others, and the response of the boot loader.
pub record Image : Type 0 where
  pub text_start : ℕ
  pub text_end : ℕ
  pub rodata_start : ℕ
  pub rodata_end : ℕ
  pub data_start : ℕ
  pub data_end : ℕ
  pub virt_base : ℕ
  pub phys_base : ℕ

-- `memset((uint64_t*)HIGHER_HALF(page), 0, PAGE_SIZE)`, by words, and its address
abbrev pub clear_table : (page : ℕ) → State Vmm ℕ
clear_table page s =
    let table = higher_half s.machine.hhdm page in
    some (
      table,
      record s { machine = record s.machine { cells = memset s.machine.cells table 0 page_size } },
    )

-- `for (addr = start; addr < end; addr += PAGE_SIZE)` over a section, on fuel
unfoldable pub map_section : (fuel pagemap addr end flags : ℕ) → Image → State Vmm (Unit {0})
unfolding map_frame
map_section zero pagemap addr end flags image s = none
map_section (suc fuel) pagemap addr end flags image s =
    let phys = u64 (sub64 addr image.virt_base + image.phys_base) in
    let rest =
      (do
        map_frame pagemap addr phys flags
        map_section fuel pagemap (u64 (addr + page_size)) end flags image)
        s in
    if ltb addr end then rest else some (tt, s)

-- `for (j = 0; j < ALIGN_UP(length, PAGE_SIZE); j += PAGE_SIZE)` over an entry, on fuel
unfoldable pub map_entry : (fuel pagemap j : ℕ) → Entry → State Vmm (Unit {0})
unfolding map_frame
map_entry zero pagemap j e s = none
map_entry (suc fuel) pagemap j e s =
    let addr = u64 (e.base + j) in
    let virt = higher_half s.machine.hhdm addr in
    let rest =
      (do
        map_frame pagemap virt addr (bit_or map_read map_write)
        map_entry fuel pagemap (u64 (j + page_size)) e)
        s in
    if ltb j (align_up e.length page_size) then rest else some (tt, s)

-- A section or an entry has fewer pages than this.
abbrev pub page_limit : ℕ
page_limit = 2 ^ 52

unfoldable pub map_entries : (pagemap : ℕ) → List Entry → State Vmm (Unit {0})
unfolding map_entry
map_entries pagemap [] = pure tt
map_entries pagemap (e ∷ es) = map_entry page_limit pagemap 0 e >> map_entries pagemap es

abbrev pub map_bounds : (pagemap start end flags : ℕ) → Image → State Vmm (Unit {0})
map_bounds pagemap start end flags image =
    map_section page_limit pagemap (align_down start page_size) (align_up end page_size) flags image

-- `mov cr3`
unfoldable pub mmu_load_pagemap : (pagemap : ℕ) → State Vmm (Unit {0})
mmu_load_pagemap pagemap s =
    some (tt, record s { cr3 = lower_half s.machine.hhdm (s.top_level pagemap) })

unfoldable pub vmm_init : Image → List Entry → State Vmm (Unit {0})
unfolding map_section map_entries mmu_load_pagemap vmm_setup_vma take_frame
vmm_init image entries = do
  page ← take_frame
  pagemap ← gets (λ s. higher_half s.machine.hhdm page)
  modify (λ s. record s { kernel_pagemap = pagemap })
  top ← take_frame
  table ← clear_table top
  modify (λ s. record s { top_level = write s.top_level pagemap table })
  base ← gets (λ s. higher_half s.machine.hhdm 0x100000000000)
  vmm_setup_vma pagemap base 1
  map_bounds pagemap image.text_start image.text_end map_read image
  map_bounds pagemap image.rodata_start image.rodata_end (bit_or map_read map_nx) image
  map_bounds pagemap image.data_start image.data_end (bit_or (bit_or map_read map_write) map_nx)
      image
  map_entries pagemap entries
  mmu_load_pagemap pagemap

-- `for (i = 256; i < 512; i++)` of vmm_new_pagemap, from `i` on with `n` entries left
unfoldable pub copy_upper : (n i from to : ℕ) → Cells ℕ → Cells ℕ
copy_upper zero i from to m = m
copy_upper (suc n) i from to m =
    copy_upper n (i + 1) from to (write m (to + 8 * i) (m (from + 8 * i)))

-- `alloc` is the kernel's heap.
unfoldable pub vmm_new_pagemap : (alloc : ℕ → State Vmm ℕ) → State Vmm ℕ
unfolding take_frame copy_upper
vmm_new_pagemap alloc = do
  pagemap ← alloc 16
  page ← take_frame
  table ← clear_table page
  modify (λ s. record s { top_level = write s.top_level pagemap table })
  kernel ← gets (λ s. s.top_level s.kernel_pagemap)
  modify (λ s. record s {
    machine = record s.machine { cells = copy_upper 256 256 kernel table s.machine.cells };
  })
  pure pagemap
