-- ===== src/Mm/Pmm/Init.antt =====
-- `pmm_init` of kernel/src/mm/pmm.c. The memory map, and the type LIMINE_MEMMAP_USABLE in it, come
-- from the boot loader; `ram` is physical memory, byte by byte.
pub mod Clear
pub mod Covers
pub mod Usable
use arcane_os.Prelude.{
  ℕ, zero, suc, ◌+◌, ◌*◌, ◌/◌, ◌^◌, Bool, Option, none, some, List, [], ◌∷◌, u64, sub64, ltb, ◌==◌,
  if◌then◌else◌, Cells,
}
use arcane_os.Strings.{memset}
use arcane_os.Mm.Page.{page_size, align_up, align_down}
use arcane_os.Mm.Pmm.{Pmm, pmm_bitmap_clear}

-- `struct limine_memmap_entry`
pub record Entry : Type 0 where
  pub base : ℕ
  pub length : ℕ
  pub kind : ℕ

unfoldable pub sum_lengths : List Entry → (bitmap_size : ℕ) → ℕ
sum_lengths [] n = n
sum_lengths (e ∷ es) n = sum_lengths es (u64 (n + e.length))

-- Each bit is a page; the size is rounded up to whole pages.
unfoldable pub size_of : List Entry → ℕ
unfolding sum_lengths align_up
size_of es = align_up (sum_lengths es 0 / page_size / 8) page_size

-- `for (j = 0; j < length; j += PAGE_SIZE) pmm_bitmap_clear((base + j) / PAGE_SIZE);`
unfoldable pub clear_pages : (rounds base length j : ℕ) → Pmm → Pmm
clear_pages zero base length j s = s
clear_pages (suc r) base length j s =
    let rest =
      clear_pages r base length (u64 (j + page_size))
        (pmm_bitmap_clear s (u64 (base + j) / page_size)) in
    if ltb j length then rest else s

-- `if (pmm_last_free == 0) pmm_last_free = ALIGN_DOWN(base, PAGE_SIZE) / PAGE_SIZE;`
unfoldable pub start_search : (base : ℕ) → Pmm → Pmm
start_search base s =
    if s.last_free == 0 then record s { last_free = align_down base page_size / page_size } else s

unfoldable pub clear_from : (base length : ℕ) → Pmm → Pmm
unfolding clear_pages start_search
clear_from base length s = clear_pages (length / page_size + 1) base length 0 (start_search base s)

module _ (usable : ℕ) where
  -- The first usable entry with room for the bitmap, with its index.
  unfoldable pub find_entry : (size i : ℕ) → List Entry → Option (ℕ × Entry)
  find_entry size i [] = none
  find_entry size i (e ∷ es) =
      if e.kind == usable
      then (if ltb e.length size then find_entry size (i + 1) es else some (i, e))
      else find_entry size (i + 1) es

  -- One round of the last loop; `own` says that the entry is the one that holds the bitmap.
  unfoldable pub clear_entry : (size : ℕ) → (own : Bool) → Entry → Pmm → Pmm
  unfolding clear_from
  clear_entry size own e s =
      if e.kind == usable
      then (if own
          then clear_from (u64 (e.base + size)) (sub64 e.length size) s
          else clear_from e.base e.length s)
      else s

  unfoldable pub clear_entries : (size chosen i : ℕ) → List Entry → Pmm → Pmm
  unfolding clear_entry
  clear_entries size chosen i [] s = s
  clear_entries size chosen i (e ∷ es) s =
      clear_entries size chosen (i + 1) es (clear_entry size (i == chosen) e s)

  -- All pages taken: `pmm_bitmap = HIGHER_HALF(base)` of the entry that was found, and
  -- `memset(pmm_bitmap, 0xFF, pmm_bitmap_size)` there.
  unfoldable pub full_bitmap : Cells ℕ → (size base : ℕ) → Pmm
  full_bitmap ram size base = record {
    bitmap = λ b. memset ram base 0xff size (base + b);
    bitmap_base = base;
    bitmap_size = size;
    last_free = 0;
  }

  -- `none`: the assertion that an entry was found fails, and the kernel stops.
  unfoldable pub pmm_init : Cells ℕ → List Entry → Option Pmm
  unfolding size_of find_entry clear_entries full_bitmap
  pmm_init ram es = elim (find_entry (size_of es) 0 es) [
    | none ↦ none
    | some (chosen, e) ↦
        some (clear_entries (size_of es) chosen 0 es (full_bitmap ram (size_of es) e.base))
  ]
