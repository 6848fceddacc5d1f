-- ===== src/Mm/Pmm.antt =====
-- The physical page allocator, kernel/src/mm/pmm.c: a bitmap with one bit for each page, set
-- while the page is taken, and the index from which the next search starts.
pub mod Bitmap
pub mod Scan
pub mod Init
mod Tests
use arcane_os.Prelude.{
  ℕ, zero, suc, ◌+◌, ◌-◌, ◌*◌, ◌/◌, ◌%◌, ◌^◌, Bool, Option, none, some, bit_and, bit_or, u8, u64,
  ◌==◌, if◌then◌else◌, Cells, write,
}
use arcane_os.Mm.Page.{page_size}

-- `bitmap` is memory from the address `pmm_bitmap` on, byte by byte: the first `bitmap_size`
-- bytes are the bitmap, and the code can reach the bytes behind them. `bitmap_base` is the physical
-- address of the first, which `pmm_bitmap` holds in the higher half.
pub record Pmm : Type 0 where
  pub bitmap : Cells ℕ
  pub bitmap_base : ℕ
  pub bitmap_size : ℕ
  pub last_free : ℕ

unfoldable pub pmm_bitmap_get : Pmm → ℕ → ℕ
pmm_bitmap_get s bit = u8 (bit_and (s.bitmap (bit / 8)) (2 ^ (bit % 8)))

unfoldable pub pmm_bitmap_set : Pmm → ℕ → Pmm
pmm_bitmap_set s bit = record s {
  bitmap = write s.bitmap (bit / 8) (u8 (bit_or (s.bitmap (bit / 8)) (2 ^ (bit % 8))));
}

-- `~(1 << k)` is computed at width 32.
unfoldable pub pmm_bitmap_clear : Pmm → ℕ → Pmm
pmm_bitmap_clear s bit = record s {
  bitmap =
      write s.bitmap (bit / 8) (u8 (bit_and (s.bitmap (bit / 8)) (2 ^ 32 - 1 - 2 ^ (bit % 8))));
}

-- `while (pmm_bitmap_get(idx) != 0) idx++;`, on fuel
unfoldable pub scan : ℕ → Pmm → ℕ → Option ℕ
scan zero s idx = none
scan (suc fuel) s idx =
    let rest = scan fuel s (u64 (idx + 1)) in if pmm_bitmap_get s idx == 0 then some idx else rest

-- There are fewer pages than this: the index of a page times 4096 fits 64 bits. A search of so
-- many rounds that finds nothing has wrapped into other memory, and the model gives `none`.
abbrev pub page_limit : ℕ
page_limit = 2 ^ 52

unfoldable pub take_page : Pmm → ℕ → ℕ × Pmm
take_page s idx = (u64 (idx * page_size), pmm_bitmap_set (record s { last_free = idx }) idx)

unfoldable pub pmm_alloc : Pmm → Option (ℕ × Pmm)
unfolding take_page
pmm_alloc s = elim (scan page_limit s s.last_free) [
  | none ↦ none
  | some idx ↦ some (take_page s idx)
]

unfoldable pub pmm_free : Pmm → ℕ → Pmm
pmm_free s page = pmm_bitmap_clear s (page / page_size)
