-- ===== src/Mm/Vmm.antt =====
-- Virtual regions, kernel/src/mm/vmm.c: each address space has a ring of regions in order of
-- address, and tables that map their pages. The log is left out.
pub mod Regions
pub mod Search
pub mod Pages
pub mod Space
pub mod Frames
pub mod Free
pub mod Init
pub mod Shares
mod Tests
use arcane_os.Prelude.{
  ℕ, zero, suc, ◌+◌, ◌-◌, ◌*◌, ◌/◌, ◌^◌, Bool, true, false, Option, none, some, List, [], ◌∷◌,
  bit_or, u64, sub64, ltb, ◌==◌, not, if◌then◌else◌, Cells, write,
}
use arcane_os.Prelude.State.{State, pure, ◌>>=◌, ◌>>◌, gets, modify, fail, when}
use arcane_os.Strings.{memset}
use arcane_os.Rings.{Links, set_next, set_prev}
use arcane_os.Mm.Page.{page_size, higher_half, lower_half, get_addr_from_page}
use arcane_os.Mm.Pmm.{pmm_alloc, pmm_free}
use arcane_os.Arch.Mmu.{Machine, mmu_map, mmu_get_page}

-- Memory and its pages, and the fields of `vm_region_t` and `pagemap_t` by the addresses of the
-- objects, which lie in pages of their own. `cr3` is what was loaded last.
pub record Vmm : Type 0 where
  pub machine : Machine
  pub base_of : Cells ℕ
  pub pages_of : Cells ℕ
  pub links : Links
  pub top_level : Cells ℕ
  pub region_head : Cells ℕ
  pub kernel_pagemap : ℕ
  pub cr3 : ℕ

-- `pmm_alloc()`
unfoldable pub take_frame : State Vmm ℕ
take_frame s = elim (pmm_alloc s.machine.pmm) [
  | none ↦ none
  | some (page, pmm) ↦ some (page, record s { machine = record s.machine { pmm = pmm } })
]

-- `mmu_map(pagemap, virt, phys, flags)`
unfoldable pub map_frame : (pagemap virt phys flags : ℕ) → State Vmm (Unit {0})
map_frame pagemap virt phys flags s =
    elim (mmu_map (s.top_level pagemap) virt phys flags s.machine) [
      | none ↦ none
      | some machine ↦ some (tt, record s { machine = machine })
    ]

abbrev pub set_links : (Links → Links) → State Vmm (Unit {0})
set_links f = modify (λ s. record s { links = f s.links })

unfoldable pub vmm_new_region : (base pages : ℕ) → State Vmm ℕ
unfolding take_frame
vmm_new_region base pages = do
  page ← take_frame
  region ← gets (λ s. higher_half s.machine.hhdm page)
  modify (λ s. record s { base_of = write s.base_of region base })
  modify (λ s. record s { pages_of = write s.pages_of region pages })
  set_links (λ l. set_next region 0 (set_prev region 0 l))
  pure region

unfoldable pub vmm_setup_vma : (pagemap base pages : ℕ) → State Vmm (Unit {0})
unfolding vmm_new_region
vmm_setup_vma pagemap base pages = do
  region ← vmm_new_region base pages
  set_links (λ l. set_next region region (set_prev region region l))
  modify (λ s. record s { region_head = write s.region_head pagemap region })

-- The four assignments of vmm_insert.
unfoldable pub vmm_insert : (prev region : ℕ) → Links → Links
vmm_insert prev region l =
    let l1 = set_next region (l.next prev) l in
    let l2 = set_prev region prev l1 in
    let l3 = set_prev (l2.next prev) region l2 in set_next prev region l3

-- `region->base + region->pages * PAGE_SIZE`
unfoldable pub end_of : Vmm → (region : ℕ) → ℕ
end_of s region = u64 (s.base_of region + u64 (s.pages_of region * page_size))

-- The loop of vmm_alloc, on fuel: the region behind which the new one goes.
unfoldable pub find_gap : (fuel head region pages : ℕ) → Vmm → Option ℕ
unfolding end_of
find_gap zero head region pages s = none
find_gap (suc fuel) head region pages s =
    let next = s.links.next region in
    let gap_length = sub64 (s.base_of next) (end_of s region) in
    let rest = find_gap fuel head next pages s in
    if next == head
    then some region
    else if end_of s region == s.base_of next
    then rest
    else if ltb gap_length (u64 (pages * page_size))
    then rest
    else some region

-- A region takes a page, and there are fewer pages than this.
abbrev pub region_limit : ℕ
region_limit = 2 ^ 52

-- The last loop of vmm_alloc, from page `i` on with `n` pages left.
unfoldable pub map_pages : (n i pagemap base flags : ℕ) → State Vmm (Unit {0})
unfolding take_frame map_frame
map_pages zero i pagemap base flags = pure tt
map_pages (suc n) i pagemap base flags = do
  phys ← take_frame
  map_frame pagemap (u64 (base + u64 (i * page_size))) phys flags
  map_pages n (i + 1) pagemap base flags

-- A search that must end.
abbrev pub found : Option ℕ → State Vmm ℕ
found none = fail
found (some region) = pure region

-- The rest of vmm_alloc: the new region behind the one that was found, and its pages.
unfoldable pub place_region : (pagemap region base pages flags : ℕ) → State Vmm ℕ
unfolding vmm_new_region vmm_insert map_pages
place_region pagemap region base pages flags = do
  new_region ← vmm_new_region base pages
  set_links (vmm_insert region new_region)
  map_pages pages 0 pagemap base flags
  pure base

-- The search of vmm_alloc, from the head of the ring.
unfoldable pub search_gap : (pagemap pages : ℕ) → State Vmm ℕ
unfolding find_gap
search_gap pagemap pages s =
    found (find_gap region_limit (s.region_head pagemap) (s.region_head pagemap) pages s) s

unfoldable pub vmm_alloc : (pagemap pages flags : ℕ) → State Vmm ℕ
unfolding search_gap place_region end_of
vmm_alloc pagemap pages flags = do
  region ← search_gap pagemap pages
  base ← gets (λ s. end_of s region)
  place_region pagemap region base pages flags

-- The search of vmm_free, on fuel: the region that begins at `base`, or the head.
unfoldable pub find_region : (fuel head region base : ℕ) → Vmm → Option ℕ
find_region zero head region base s = none
find_region (suc fuel) head region base s =
    let rest = find_region fuel head (s.links.next region) base s in
    if region == head then some head else if s.base_of region == base then some region else rest

-- The loop of vmm_free over the pages; `false` if a page is missing, which ends the call.
unfoldable pub free_pages : (n i top base : ℕ) → Machine → Bool × Machine
free_pages zero i top base m = (true, m)
free_pages (suc n) i top base m =
    let page = mmu_get_page top (u64 (base + u64 (i * page_size))) m in
    let rest =
      free_pages n (i + 1) top base (record m { pmm = pmm_free m.pmm (get_addr_from_page page) }) in
    if page == 0 then (false, m) else rest

-- `region->prev->next = region->next; region->next->prev = region->prev;`
abbrev pub unlink : ℕ → Links → Links
unlink region l =
    let l1 = set_next (l.prev region) (l.next region) l in
    set_prev (l1.next region) (l1.prev region) l1

unfoldable pub remove_region : ℕ → State Vmm (Unit {0})
remove_region region s = some (
  tt,
  record s {
    links = unlink region s.links;
    machine = record s.machine { pmm = pmm_free s.machine.pmm (lower_half s.machine.hhdm region) };
  },
)

-- What vmm_free does with a region that it has found.
unfoldable pub free_region : (pagemap region base : ℕ) → State Vmm (Unit {0})
unfolding free_pages remove_region
free_region pagemap region base s =
    let (whole, machine) = free_pages (s.pages_of region) 0 (s.top_level pagemap) base s.machine in
    when whole (remove_region region) (record s { machine = machine })

-- The search of vmm_free, from the region behind the head.
unfoldable pub search_region : (pagemap base : ℕ) → State Vmm ℕ
unfolding find_region
search_region pagemap base s =
    let head = s.region_head pagemap in
    found (find_region region_limit head (s.links.next head) base s) s

unfoldable pub vmm_free : (pagemap ptr : ℕ) → State Vmm (Unit {0})
unfolding search_region free_region
vmm_free pagemap base = do
  region ← search_region pagemap base
  head ← gets (λ s. s.region_head pagemap)
  when (not (region == head)) (free_region pagemap region base)
