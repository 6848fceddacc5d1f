-- ===== src/Mm/Vmm/Shares.antt =====
-- What a new address space shares with the kernel's, vmm_new_pagemap.
pub mod Tables
use mathlib.Core.Path.{subst}
use arcane_os.Prelude.{
  ℕ, zero, suc, ◌+◌, ◌*◌, ◌/◌, ◌%◌, ◌^◌, ◌≤◌, ◌<◌, ◌≡◌, ◌≢◌, ◌⊎◌, inl, inr, refl, ◌∙◌, sym, ap,
  arith, true, false, Bool-cases, some, none, ltb, ◌==◌, if◌then◌else◌, u64, Cells, write,
  write_self, write-ne,
}
use arcane_os.Prelude.State.{State, pure, gets, modify, ◌>>=◌, ◌>>◌, >>=-run}
use arcane_os.Strings.{memset}
use arcane_os.Strings.Copy.{memset-block}
use arcane_os.Mm.Page.{page_size, higher_half}
use arcane_os.Mm.Pmm.{Pmm, pmm_alloc}
use arcane_os.Mm.Pmm.Scan.{Allocates, Supply, Supply-pmm_alloc}
use arcane_os.Arch.Mmu.{Machine, exists, get_from, mmu_get_page}
use arcane_os.Arch.Mmu.Entries.{get_level-mod, exists-mod, page_of}
use arcane_os.Arch.Mmu.Tree.{index, at, cell, Tab, IsTree, higher_half-at, get_from-zero}
use arcane_os.Arch.Mmu.Step.{Reachable}
use arcane_os.Mm.Vmm.{Vmm, take_frame}
use arcane_os.Mm.Vmm.Init.{clear_table, copy_upper, vmm_new_pagemap}
use arcane_os.Mm.Vmm.Shares.Tables.{shared, get_from-kept, get_from-half, shared-kept, shared-half}

higher_half-page :
    (hhdm n : ℕ) → at hhdm n + 4096 ≤ 2 ^ 64 → higher_half hhdm (n * page_size) ≡ at hhdm n
unfolding higher_half
higher_half-page hhdm n fits = omega arith

-- The tables of an address space, as mmu_get_page walks them.
abbrev pub entry_at : (s : Vmm) (pagemap virt : ℕ) → ℕ
entry_at s pagemap virt = mmu_get_page (s.top_level pagemap) virt s.machine

-- The state that vmm_new_pagemap leaves.
abbrev with_table : (s : Vmm) (pagemap root n : ℕ) → Pmm → Vmm
with_table s pagemap root n pmm = record s {
  machine = record s.machine { cells = shared s.machine root n; pmm = pmm };
  top_level = write s.top_level pagemap (at s.machine.hhdm n);
}

-- What vmm_new_pagemap does with the new table.
abbrev install : (pagemap table : ℕ) → State Vmm ℕ
install pagemap table = do
  modify (λ s. record s { top_level = write s.top_level pagemap table })
  kernel ← gets (λ s. s.top_level s.kernel_pagemap)
  modify (λ s. record s {
    machine = record s.machine { cells = copy_upper 256 256 kernel table s.machine.cells };
  })
  pure pagemap

-- The state that clear_table leaves.
abbrev cleared : (s : Vmm) (n : ℕ) → Pmm → Vmm
cleared s n pmm = record s {
  machine = record s.machine {
    cells = memset s.machine.cells (at s.machine.hhdm n) 0 page_size;
    pmm = pmm;
  };
}

clear_table-cleared :
    (s : Vmm) (n : ℕ) {pmm : Pmm}
    → higher_half s.machine.hhdm (n * page_size) ≡ at s.machine.hhdm n
    → clear_table (n * page_size) (record s { machine = record s.machine { pmm = pmm } })
      ≡ some (at s.machine.hhdm n, cleared s n pmm)
clear_table-cleared s n {pmm} there =
    ap
      (λ a. some (
        a,
        record s {
          machine = record s.machine { cells = memset s.machine.cells a 0 page_size; pmm = pmm };
        },
      ))
      there

install-with_table :
    (s : Vmm) (pagemap root n : ℕ) {pmm : Pmm}
    → pagemap ≢ s.kernel_pagemap
    → s.top_level s.kernel_pagemap ≡ at s.machine.hhdm root
    → install pagemap (at s.machine.hhdm n) (cleared s n pmm)
      ≡ some (pagemap, with_table s pagemap root n pmm)
install-with_table s pagemap root n {pmm} ne kernel =
    let same : write s.top_level pagemap (at s.machine.hhdm n) s.kernel_pagemap
        ≡ at s.machine.hhdm root =
      write-ne s.top_level (at s.machine.hhdm n) ne ∙ kernel in
    rw same refl

vmm_new_pagemap-with_table :
    (alloc : ℕ → State Vmm ℕ) (s s1 : Vmm) (pagemap root n : ℕ) {pmm : Pmm}
    → alloc 16 s ≡ some (pagemap, s1)
    → pagemap ≢ s1.kernel_pagemap
    → s1.top_level s1.kernel_pagemap ≡ at s1.machine.hhdm root
    → pmm_alloc s1.machine.pmm ≡ some (n * page_size, pmm)
    → higher_half s1.machine.hhdm (n * page_size) ≡ at s1.machine.hhdm n
    → vmm_new_pagemap alloc s ≡ some (pagemap, with_table s1 pagemap root n pmm)
unfolding vmm_new_pagemap
vmm_new_pagemap-with_table alloc s s1 pagemap root n {pmm} made ne kernel takes there =
    let taken : take_frame s1
        ≡ some (n * page_size, record s1 { machine = record s1.machine { pmm = pmm } }) =
      rw (take_frame, takes) refl in
    >>=-run (alloc 16) (λ p. take_frame >>= λ page. clear_table page >>= install p) {s = s} {t = s1}
      {a = pagemap} made
    ∙ >>=-run take_frame (λ page. clear_table page >>= install pagemap) {s = s1}
        {t = record s1 { machine = record s1.machine { pmm = pmm } }} {a = n * page_size} taken
    ∙ >>=-run (clear_table (n * page_size)) (install pagemap)
        {s = record s1 { machine = record s1.machine { pmm = pmm } }} {t = cleared s1 n pmm}
        {a = at s1.machine.hhdm n} (clear_table-cleared s1 n there)
    ∙ install-with_table s1 pagemap root n ne kernel

pub vmm_new_pagemap-mmu_get_page :
    (alloc : ℕ → State Vmm ℕ) (s s1 : Vmm) (pagemap : ℕ) {root lim : ℕ} {tab : Tab}
    → alloc 16 s ≡ some (pagemap, s1)
    → pagemap ≢ s1.kernel_pagemap
    → s1.top_level s1.kernel_pagemap ≡ at s1.machine.hhdm root
    → IsTree s1.machine root tab
    → Reachable s1.machine lim
    → Supply lim s1.machine.pmm s1.machine.pmm.last_free 1
    → (t : Vmm) × (vmm_new_pagemap alloc s ≡ some (pagemap, t))
      × ((v : ℕ)
          → entry_at t pagemap v
            ≡ (if ltb (v / 2 ^ 39 % 512) 256 then 0 else entry_at s1 s1.kernel_pagemap v))
      × ((v : ℕ) → entry_at t t.kernel_pagemap v ≡ entry_at s1 s1.kernel_pagemap v)
unfolding mmu_get_page
vmm_new_pagemap-mmu_get_page alloc s s1 pagemap {root} {lim} {tab} made ne kernel tree reach
      supply =
    let m = s1.machine in
    let (n, pmm, got, lt, _) =
      Supply-pmm_alloc lim 0 tree.bytes (omega (arith, reach.named)) supply in
    let fresh : (l pre q : ℕ) → tab l pre ≡ some q → q ≢ n =
      λ l pre q there. ground (arith, (tree.table l pre q there).taken, got.first.free) in
    let kept : (l pre q j : ℕ)
        → tab l pre ≡ some q
        → j < 512
        → shared m root n (cell m.hhdm q j) ≡ m.cells (cell m.hhdm q j) =
      λ l pre q j here small. shared-kept m root n q j (fresh l pre q here) small in
    let there : higher_half m.hhdm (n * page_size) ≡ at m.hhdm n =
      higher_half-page m.hhdm n (omega (arith, reach.named, reach.mapped)) in
    let same : write s1.top_level pagemap (at m.hhdm n) s1.kernel_pagemap ≡ at m.hhdm root =
      write-ne s1.top_level (at m.hhdm n) ne ∙ kernel in
    (
      with_table s1 pagemap root n pmm,
      vmm_new_pagemap-with_table alloc s s1 pagemap root n made ne kernel got.returns there,
      λ v.
          rw (write_self s1.top_level pagemap (at m.hhdm n), kernel)
            (get_from-half tree (shared m root n) pmm kept n v
              (λ i small. shared-half m root n i (fresh 3 0 root tree.root_at) small)),
      λ v.
          rw (same, kernel) (get_from-kept tree (shared m root n) pmm kept 3 0 root v tree.root_at),
    )
