-- ===== src/Mm/Pmm/Tests.antt =====
-- A bitmap with pages 0 and 1 taken, a small memory map, and the theorems of `Pmm` at them.
use arcane_os.Prelude.{
  ℕ, zero, suc, ◌*◌, ◌/◌, ◌<◌, ◌≤◌, ◌≡◌, refl, List, [], ◌∷◌, true, false, some, arith, ◌==◌,
  if◌then◌else◌, Cells, write, ◌+◌, ◌&&◌, not, inl, get_elem?,
}
use arcane_os.Mm.Page.{page_size}
use arcane_os.Mm.Pmm.{
  Pmm, pmm_bitmap_get, pmm_bitmap_set, pmm_bitmap_clear, pmm_alloc, pmm_free, scan,
}
use arcane_os.Mm.Pmm.Bitmap.{IsBytes, is_free, is_free-set, set-IsBytes}
use arcane_os.Mm.Pmm.Scan.{
  Allocates, pmm_alloc-Allocates, pmm_free-is_free, pmm_free-pmm_alloc, pmm_alloc_skips_below,
}
use arcane_os.Mm.Pmm.Init.{Entry, size_of, pmm_init}
use arcane_os.Mm.Pmm.Init.Clear.{page_in}
use arcane_os.Mm.Pmm.Init.Usable.{Separate, usable_page, pmm_init-usable_page}

abbrev two_taken : Cells ℕ
two_taken i = if i == 0 then 3 else 0

abbrev small : Pmm
small = record { bitmap = two_taken; bitmap_base = 0; bitmap_size = 4096; last_free = 0 }

small-IsBytes : IsBytes two_taken
small-IsBytes i = ground arith

two_free : is_free small 2 ≡ true
unfolding is_free pmm_bitmap_get
two_free = refl

pmm_alloc-Allocates_example : (p : ℕ) × (t : Pmm) × Allocates small p t × (p ≤ 2)
pmm_alloc-Allocates_example =
    pmm_alloc-Allocates small 2 small-IsBytes (omega arith) (omega arith) two_free

abbrev after : Pmm
after = record { bitmap = write two_taken 0 7; bitmap_base = 0; bitmap_size = 4096; last_free = 2 }

takes_page_two : pmm_alloc small ≡ some (2 * page_size, after)
unfolding pmm_alloc scan pmm_bitmap_get pmm_bitmap_set
takes_page_two = refl

pages_below : (q : ℕ) → q < 2 → is_free small q ≡ false
unfolding is_free pmm_bitmap_get
pages_below zero lt = refl
pages_below (suc zero) lt = refl
pages_below (suc (suc q)) lt = absurd (omega arith)

after-Allocates : Allocates small 2 after
unfolding is_free pmm_bitmap_get pmm_bitmap_set
after-Allocates = record {
  returns = takes_page_two;
  first = record { from = omega arith; free = two_free; taken = λ q a b. pages_below q b };
  cursor = refl;
  view = λ q. is_free-set small 2 q small-IsBytes;
  bytes = set-IsBytes small 2 small-IsBytes;
}

pmm_free-pmm_alloc_example : is_free (pmm_free after (2 * page_size)) 2 ≡ is_free small 2
pmm_free-pmm_alloc_example = pmm_free-pmm_alloc 2 after-Allocates (omega arith)

-- The cursor at 2, and page 1 given back.
abbrev low_page_freed : Pmm
low_page_freed = record {
  bitmap = write two_taken 0 3;
  bitmap_base = 0;
  bitmap_size = 4096;
  last_free = 2;
}

-- 64 MiB of memory: a reserved first page, and a usable region behind it.
abbrev memory_map : List Entry
memory_map =
    record { base = 0; length = 0x1000; kind = 1 }
    ∷ record { base = 0x1000; length = 0x3fff000; kind = 0 }
    ∷ []

abbrev ram : Cells ℕ
ram a = 0

bitmap_of_one_page : size_of memory_map ≡ 4096
unfolding size_of
bitmap_of_one_page = refl

memory_map-Separate : Separate 0 memory_map
memory_map-Separate = ((λ i j. inl (omega arith), tt), (tt, tt))

pmm_init-usable_page_example :
    (s : Pmm) × (pmm_init 0 ram memory_map ≡ some s)
    × ((j : ℕ) × (own : Entry) × (get_elem? memory_map j ≡ some own)
        × (own.kind ≡ 0)
        × (size_of memory_map ≤ own.length)
        × (s.bitmap_base ≡ own.base))
    × ((q : ℕ)
        → q / 8 < size_of memory_map
        → is_free s q ≡ (
            usable_page 0 memory_map q
            && not (page_in s.bitmap_base (s.bitmap_base + size_of memory_map) q)))
pmm_init-usable_page_example =
    pmm_init-usable_page 0 ram memory_map 1 (record { base = 0x1000; length = 0x3fff000; kind = 0 })
      (λ i. omega arith) (omega arith) memory_map-Separate refl refl
      (rw bitmap_of_one_page (omega arith))

-- Page 1 is given back while the cursor stands at 2.
abbrev freed_below : Pmm
freed_below = pmm_free after (1 * page_size)

three_free : is_free freed_below 3 ≡ true
unfolding is_free pmm_bitmap_get pmm_free pmm_bitmap_clear write
three_free = refl

cursor_stays : freed_below.last_free ≡ 2
cursor_stays = (pmm_free-is_free after (1 * page_size) 0 after-Allocates.bytes).1

abbrev again : (p : ℕ) × (t : Pmm) × Allocates freed_below p t × (p ≤ 3)
again =
    pmm_alloc-Allocates freed_below 3
      (pmm_free-is_free after (1 * page_size) 0 after-Allocates.bytes).2
      (omega (arith, cursor_stays)) (omega arith) three_free

pmm_alloc_skips_below_example : (is_free freed_below 1 ≡ true) × (1 < again.0)
pmm_alloc_skips_below_example =
    pmm_alloc_skips_below after 1 again.0 again.2 after-Allocates.bytes (omega arith)
