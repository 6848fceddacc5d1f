-- ===== src/Arch/Mmu/Tests.antt =====
-- An address space with an empty root table on page 1, and the theorems of `Mmu` at it.
use arcane_os.Prelude.{
  ℕ, ◌/◌, ◌%◌, ◌^◌, ◌≡◌, refl, false, none, some, arith, ◌==◌, ◌&&◌, if◌then◌else◌, bit_or,
}
use arcane_os.Mm.Pmm.{pmm_bitmap_get}
use arcane_os.Mm.Pmm.Bitmap.{is_free}
use arcane_os.Mm.Pmm.Scan.{Supply}
use arcane_os.Arch.Mmu.{Machine, mmu_map, mmu_get_page}
use arcane_os.Arch.Mmu.Entries.{exists-mod}
use arcane_os.Arch.Mmu.Tree.{at, Tab, IsTree}
use arcane_os.Arch.Mmu.Step.{Reachable}
use arcane_os.Arch.Mmu.Map.{mmu_map-mmu_get_page}

abbrev fresh : Machine
fresh = record {
  cells = λ a. 0;
  pmm = record {
    bitmap = λ i. if i == 0 then 3 else 0;
    bitmap_base = 0;
    bitmap_size = 4096;
    last_free = 1;
  };
  hhdm = 0xffff800000000000;
}

abbrev root_only : Tab
root_only l pre = if l == 3 && pre == 0 then some 1 else none

one_taken : is_free fresh.pmm 1 ≡ false
unfolding is_free pmm_bitmap_get
one_taken = refl

fresh-IsTree : IsTree fresh 1 root_only
unfolding is_free pmm_bitmap_get
fresh-IsTree = record {
  root_at = refl;
  entry = λ l pre p i here lt. ground (arith, exists-mod 0);
  absent = λ l pre i low gone lt. ground arith;
  levels = λ l pre p here. ground arith;
  one = λ l l' pre pre' p a b. ground arith;
  table = λ l pre p here. ground (arith, one_taken);
  zero_taken = refl;
  bytes = λ i. ground arith;
}

fresh-Reachable : Reachable fresh 16
fresh-Reachable = record { named = omega arith; mapped = omega arith }

fresh-Supply : Supply 16 fresh.pmm 1 3
unfolding is_free pmm_bitmap_get
fresh-Supply = (
  2,
  omega arith,
  omega arith,
  refl,
  (3, omega arith, omega arith, refl, (4, omega arith, omega arith, refl, tt)),
)

-- A page of text at 0x400000.
mmu_map-mmu_get_page_example :
    (m' : Machine) × (tab' : Tab) × (mmu_map (at fresh.hhdm 1) 0x400000 0x7000 1 fresh ≡ some m')
    × IsTree m' 1 tab'
    × (m'.hhdm ≡ fresh.hhdm)
    × ((v : ℕ)
        → mmu_get_page (at fresh.hhdm 1) v m' ≡ (
            if v / 4096 % 2 ^ 36 == 0x400000 / 4096 % 2 ^ 36
            then bit_or 0x7000 1
            else mmu_get_page (at fresh.hhdm 1) v fresh))
mmu_map-mmu_get_page_example =
    mmu_map-mmu_get_page 0x400000 0x7000 1 fresh-IsTree fresh-Reachable fresh-Supply
