-- ===== src/Mm/Vmm/Tests.antt =====
-- An address space with one region and its root table on page 1, and the theorems at it.
use arcane_os.Prelude.{
  ℕ, ◌/◌, ◌%◌, ◌^◌, ltb, ◌≡◌, refl, false, none, some, [], ◌∷◌, ◌++◌, arith, ◌==◌, ◌&&◌,
  if◌then◌else◌,
}
use arcane_os.Prelude.State.{State}
use arcane_os.Mm.Pmm.{pmm_bitmap_get}
use arcane_os.Mm.Pmm.Bitmap.{is_free}
use arcane_os.Mm.Pmm.Scan.{Supply}
use arcane_os.Rings.Seg.{Seg, NotIn, Distinct, Ring}
use arcane_os.Arch.Mmu.{Machine, mmu_get_page, get_from, exists}
use arcane_os.Arch.Mmu.Entries.{exists-mod}
use arcane_os.Arch.Mmu.Tree.{at, Tab, IsTree}
use arcane_os.Arch.Mmu.Step.{Reachable}
use arcane_os.Mm.Vmm.{Vmm, vmm_alloc, vmm_free, find_gap}
use arcane_os.Mm.Vmm.Search.{limit, Spaced, first_fit, first_at, find_gap-first_fit}
use arcane_os.Mm.Vmm.Space.{Owned, IsSpace, Allocated, vmm_alloc-Allocated}
use arcane_os.Mm.Vmm.Init.{vmm_new_pagemap}
use arcane_os.Mm.Vmm.Shares.{entry_at, vmm_new_pagemap-mmu_get_page}
use arcane_os.Mm.Vmm.Frames.{page_at}
use arcane_os.Mm.Vmm.Free.{Freed, vmm_free-absent, vmm_free-Freed}

abbrev fresh : Machine
fresh = record {
  cells = λ a. 0;
  pmm = record {
    bitmap = λ i. if i == 0 then 7 else 0;
    bitmap_base = 0;
    bitmap_size = 4096;
    last_free = 1;
  };
  hhdm = 0xffff800000000000;
}

abbrev head_here : ℕ
head_here = at fresh.hhdm 2

-- One region of one page at 0x100000, on page 2.
abbrev one_region : Vmm
one_region = record {
  machine = fresh;
  base_of = λ a. 0x100000;
  pages_of = λ a. 1;
  links = record { next = λ a. head_here; prev = λ a. head_here };
  top_level = λ a. at fresh.hhdm 1;
  region_head = λ a. head_here;
  kernel_pagemap = 0;
  cr3 = 0;
}

abbrev root_only : Tab
root_only l pre = if l == 3 && pre == 0 then some 1 else none

one_taken : is_free fresh.pmm 1 ≡ false
unfolding is_free pmm_bitmap_get
one_taken = refl

two_taken : is_free fresh.pmm 2 ≡ false
unfolding is_free pmm_bitmap_get
two_taken = refl

fresh-IsTree : IsTree fresh 1 root_only
unfolding is_free pmm_bitmap_get
fresh-IsTree = record {
  root_at = refl;
  entry = λ l pre p i here lt. ground (arith, exists-mod 0);
  absent = λ l pre i low gone lt. ground arith;
  levels = λ l pre p here. ground arith;
  one = λ l l' pre pre' p a b. ground arith;
  table = λ l pre p here. ground (arith, one_taken);
  zero_taken = refl;
  bytes = λ i. ground arith;
}

fresh-Reachable : Reachable fresh 16
fresh-Reachable = record { named = omega arith; mapped = omega arith }

one_region-Ring : Ring one_region.links head_here []
unfolding Seg NotIn Distinct
one_region-Ring = record { around = (refl, refl); distinct = (tt, tt) }

one_region-Spaced : Spaced one_region head_here []
unfolding Spaced
one_region-Spaced = omega arith

one_region-IsSpace : IsSpace one_region 0 1 head_here []
unfolding Owned
one_region-IsSpace = record {
  head = refl;
  ring = one_region-Ring;
  spaced = one_region-Spaced;
  owned = ((2, refl, two_taken), tt);
  top = refl;
  tables = root_only;
  tree = fresh-IsTree;
}

five : Supply 16 fresh.pmm 1 5
unfolding is_free pmm_bitmap_get
five = (
  3,
  omega arith,
  omega arith,
  refl,
  (
    4,
    omega arith,
    omega arith,
    refl,
    (
      5,
      omega arith,
      omega arith,
      refl,
      (6, omega arith, omega arith, refl, (7, omega arith, omega arith, refl, tt)),
    ),
  ),
)

only_fit : first_fit one_region 1 head_here [] ≡ head_here
unfolding first_fit
only_fit = refl

find_gap-first_fit_example :
    find_gap 1 head_here head_here 1 one_region ≡ some (first_fit one_region 1 head_here [])
find_gap-first_fit_example =
    find_gap-first_fit 1 head_here 1 [] one_region one_region-Ring one_region-Spaced (omega arith)
      (omega arith)

vmm_alloc-Allocated_example :
    (t : Vmm) × (vmm_alloc 0 1 3 one_region
      ≡ some (limit one_region (first_fit one_region 1 head_here []), t))
    × Allocated one_region t 0 1 head_here [] 16 0 1 3
vmm_alloc-Allocated_example =
    vmm_alloc-Allocated one_region 0 1 head_here 1 3 0 [] one_region-IsSpace fresh-Reachable five
      (omega arith) (omega arith) (omega (arith, only_fit))

-- Two regions, the second at 0x200000 on page 3, with no page mapped.
abbrev second : ℕ
second = at fresh.hhdm 3

abbrev two_regions : Vmm
two_regions = record one_region {
  base_of = λ a. if a == second then 0x200000 else 0x100000;
  links = record {
    next = λ a. if a == head_here then second else head_here;
    prev = λ a. if a == head_here then second else head_here;
  };
}

two_regions-Ring : Ring two_regions.links head_here ([] ++ second ∷ [])
unfolding Seg NotIn Distinct
two_regions-Ring = record {
  around = (refl, refl, (refl, refl));
  distinct = ((omega arith, tt), (tt, tt));
}

second_found : first_at two_regions 0x200000 head_here ([] ++ second ∷ []) ≡ second
unfolding first_at
second_found = refl

-- The same regions, with tables in which every address leads to page 5.
abbrev all_mapped : Vmm
all_mapped = record two_regions { machine = record fresh { cells = λ a. 0x5007 } }

mapped_found : first_at all_mapped 0x200000 head_here ([] ++ second ∷ []) ≡ second
unfolding first_at
mapped_found = refl

none_found : first_at two_regions 0x300000 head_here ([] ++ second ∷ []) ≡ head_here
unfolding first_at
none_found = refl

vmm_free-absent_example : vmm_free 0 0x300000 two_regions ≡ some (tt, two_regions)
vmm_free-absent_example =
    vmm_free-absent two_regions 0 head_here 0x300000 ([] ++ second ∷ []) refl two_regions-Ring
      (omega arith) none_found

vmm_free-Freed_example :
    (t : Vmm) × (vmm_free 0 0x200000 all_mapped ≡ some (tt, t))
    × Freed all_mapped t (at fresh.hhdm 1) head_here 0x200000 second [] []
vmm_free-Freed_example =
    vmm_free-Freed all_mapped 0 head_here 0x200000 second [] [] refl two_regions-Ring (omega arith)
      mapped_found (λ i. ground arith)

page_five : page_at (at fresh.hhdm 1) 0x200000 all_mapped.machine 0 ≡ 0x5007
unfolding mmu_get_page get_from exists
page_five = refl

abbrev next_object : ℕ → State Vmm ℕ
next_object size s = some (0x9000, s)

one_page : Supply 16 fresh.pmm 1 1
one_page = (five.0, five.1, five.2, five.3, tt)

vmm_new_pagemap-mmu_get_page_example :
    (t : Vmm) × (vmm_new_pagemap next_object one_region ≡ some (0x9000, t))
    × ((v : ℕ)
        → entry_at t 0x9000 v ≡ (if ltb (v / 2 ^ 39 % 512) 256 then 0 else entry_at one_region 0 v))
    × ((v : ℕ) → entry_at t t.kernel_pagemap v ≡ entry_at one_region 0 v)
vmm_new_pagemap-mmu_get_page_example =
    vmm_new_pagemap-mmu_get_page next_object one_region one_region 0x9000 refl
      (λ e. omega (arith, e)) refl fresh-IsTree fresh-Reachable one_page
