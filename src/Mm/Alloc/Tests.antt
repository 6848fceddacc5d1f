-- ===== src/Mm/Alloc/Tests.antt =====
-- A size class of the heap.
use arcane_os.Prelude.{◌-◌, ◌*◌, ◌^◌, ◌≤◌, ◌<◌, ◌≡◌, ◌⊎◌, arith}
use arcane_os.Mm.Alloc.{bin_index}
use arcane_os.Mm.Alloc.Bins.{bin_index-fits}

bin_index-fits_example :
    (bin_index 104 < 8)
    × (104 ≤ 8 * 2 ^ bin_index 104)
    × ((bin_index 104 ≡ 0) ⊎ (8 * 2 ^ (bin_index 104 - 1) < 104))
bin_index-fits_example = bin_index-fits 104 (omega arith)
