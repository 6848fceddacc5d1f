-- ===== src/Arch/Mmu.antt =====
-- Page tables, kernel/src/arch/x86_64/mmu.c. A table is a page of 512 entries of eight bytes; an
-- entry holds the physical address of the next table, or of the mapped page, beside its flags.
pub mod Entries
pub mod Tree
pub mod Store
pub mod Grow
pub mod Step
pub mod Map
pub mod Fault
mod Tests
use arcane_os.Prelude.{
  ℕ, zero, suc, ◌+◌, ◌*◌, ◌^◌, Bool, true, false, Option, none, some, bit_and, bit_or, shr, ◌==◌,
  if◌then◌else◌, Cells, write,
}
use arcane_os.Strings.{memset}
use arcane_os.Mm.Page.{page_size, map_read, map_write, map_user, higher_half, get_addr_from_page}
use arcane_os.Mm.Pmm.{Pmm, pmm_alloc}

-- `cells` are the 64-bit words of memory by their virtual addresses, multiples of 8; all access
-- here is by such words, a `memset` of a page included.
pub record Machine : Type 0 where
  pub cells : Cells ℕ
  pub pmm : Pmm
  pub hhdm : ℕ

-- GET_LEVEL
unfoldable pub get_level : (addr level : ℕ) → ℕ
get_level addr level = bit_and (shr addr (12 + level * 9)) 0x1ff

-- EXISTS
unfoldable pub exists : ℕ → Bool
exists x = if bit_and x map_read == 0 then false else true

-- `level[entry]`
abbrev pub slot : (level entry : ℕ) → ℕ
slot level entry = level + 8 * entry

-- `none`: there is no page, or the assertion that it is not NULL fails and the kernel stops.
unfoldable pub mmu_new_level : (level entry : ℕ) → Machine → Option (ℕ × Machine)
mmu_new_level level entry m = elim (pmm_alloc m.pmm) [
  | none ↦ none
  | some (new_level, pmm) ↦
      if new_level == 0
      then none
      else some (
        new_level,
        record m {
          cells =
              write (memset m.cells (higher_half m.hhdm new_level) 0 page_size) (slot level entry)
                (bit_or (bit_or (bit_or new_level map_read) map_write) map_user);
          pmm = pmm;
        },
      )
]

-- `next_level` in the loop of `mmu_map`: the entry, or a new level.
unfoldable pub next_level : (level entry : ℕ) → Machine → Option (ℕ × Machine)
unfolding mmu_new_level exists
next_level level entry m =
    if exists (m.cells (slot level entry))
    then some (m.cells (slot level entry), m)
    else mmu_new_level level entry m

-- `for (level = 3; level > 0; level--)` of `mmu_map`: the lowest table on the way to `virt`.
unfoldable pub walk : (level current virt : ℕ) → Machine → Option (ℕ × Machine)
walk zero current virt m = some (current, m)
walk (suc l) current virt m = elim (next_level current (get_level virt (suc l)) m) [
  | none ↦ none
  | some (next, m') ↦ walk l (higher_half m.hhdm (get_addr_from_page next)) virt m'
]

unfoldable pub mmu_map : (top virt phys flags : ℕ) → Machine → Option Machine
mmu_map top virt phys flags m = elim (walk 3 top virt m) [
  | none ↦ none
  | some (current, m') ↦
      some
        (record m' { cells = write m'.cells (slot current (get_level virt 0)) (bit_or phys flags) })
]

-- The loop of `mmu_get_page`, with the read at its end.
unfoldable pub get_from : (level current virt : ℕ) → Machine → ℕ
get_from zero current virt m = m.cells (slot current (get_level virt 0))
get_from (suc l) current virt m =
    let next = m.cells (slot current (get_level virt (suc l))) in
    let rest = get_from l (higher_half m.hhdm (get_addr_from_page next)) virt m in
    if exists next then rest else 0

unfoldable pub mmu_get_page : (top virt : ℕ) → Machine → ℕ
mmu_get_page top virt m = get_from 3 top virt m
