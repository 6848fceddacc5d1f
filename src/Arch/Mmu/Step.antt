-- ===== src/Arch/Mmu/Step.antt =====
-- One round of the loop of `mmu_map`, kernel/src/arch/x86_64/mmu.c.
use arcane_os.Prelude.{
  ℕ, suc, ◌+◌, ◌*◌, ◌^◌, ◌≤◌, ◌<◌, ◌≡◌, refl, inl, inr, true, false, none, some, arith, ◌==◌, ◌∙◌,
  ap, Bool-cases, u64,
}
use arcane_os.Mm.Page.{higher_half, get_addr_from_page}
use arcane_os.Mm.Pmm.{Pmm}
use arcane_os.Mm.Pmm.Bitmap.{is_free}
use arcane_os.Mm.Pmm.Scan.{Allocates, Supply, Supply-mono, Supply-pmm_alloc}
use arcane_os.Arch.Mmu.{Machine, exists, get_from, mmu_new_level, next_level}
use arcane_os.Arch.Mmu.Entries.{new_entry, page_of}
use arcane_os.Arch.Mmu.Tree.{index, at, cell, Tab, IsTree, higher_half-at}
use arcane_os.Arch.Mmu.Grow.{grown, added, grow-IsTree, extends, get_from-grow}

-- Pages below `lim` can be reached through the higher half and named in an entry.
pub record Reachable (m : Machine) (lim : ℕ) : Type 0 where
  pub named : lim ≤ 2 ^ 40
  pub mapped : m.hhdm + lim * 4096 ≤ 2 ^ 64

module _ {m : Machine} {root : ℕ} {tab : Tab} (tree : IsTree m root tab) {lim : ℕ}
    (reach : Reachable m lim) where
  -- The branch of the loop that makes a table.
  next_level-grown :
      (l pre p i n : ℕ) {pmm : Pmm}
      → tab (suc l) pre ≡ some p
      → exists (m.cells (cell m.hhdm p i)) ≡ false
      → Allocates m.pmm n pmm
      → n < lim
      → next_level (at m.hhdm p) i m ≡ some (n * 4096, grown m p i n pmm)
  unfolding next_level mmu_new_level higher_half
  next_level-grown l pre p i n {pmm} here empty got lt =
      let there : u64 (n * 4096 + m.hhdm) ≡ at m.hhdm n =
        omega (arith, reach.mapped, reach.named) in
      let some_page : (n * 4096 == 0) ≡ false = ground (arith, tree.zero_taken, got.first.free) in
      rw (empty, got.returns, mmu_new_level, some_page, there, new_entry n)

  -- One round of the loop: the table under the entry, which is there or is made.
  pub record Stepped (l k pre p virt : ℕ) : Type 0 where
    pub next : ℕ
    pub page : ℕ
    pub after : Machine
    pub tables : Tab
    pub found : next_level (at m.hhdm p) (index (suc l) virt) m ≡ some (next, after)
    pub leads : higher_half m.hhdm (get_addr_from_page next) ≡ at m.hhdm page
    pub tree' : IsTree after root tables
    pub offset : after.hhdm ≡ m.hhdm
    pub below : tables l (pre * 512 + index (suc l) virt) ≡ some page
    pub supply : Supply lim after.pmm after.pmm.last_free k
    pub shrinks : (q : ℕ) → is_free m.pmm q ≡ false → is_free after.pmm q ≡ false
    pub extended : (j u q : ℕ) → tab j u ≡ some q → tables j u ≡ some q
    pub keeps :
        (k u q v : ℕ)
        → tab k u ≡ some q
        → get_from k (at m.hhdm q) v after ≡ get_from k (at m.hhdm q) v m

  step_old :
      (l k pre p virt : ℕ)
      → tab (suc l) pre ≡ some p
      → exists (m.cells (cell m.hhdm p (index (suc l) virt))) ≡ true
      → Supply lim m.pmm m.pmm.last_free (suc k)
      → Stepped l k pre p virt
  unfolding next_level
  step_old l k pre p virt here full (f, low, high, free, rest) =
      let e : ℕ = m.cells (cell m.hhdm p (index (suc l) virt)) in
      let below : tab l (pre * 512 + index (suc l) virt) ≡ some (page_of e) =
        tree.entry l pre p (index (suc l) virt) here (omega arith) ∙ rw full in
      record {
        next = e;
        page = page_of e;
        after = m;
        tables = tab;
        found = rw full;
        leads = higher_half-at m.hhdm e (tree.table l _ (page_of e) below).mapped;
        tree' = tree;
        offset = refl;
        below = below;
        supply =
            Supply-mono lim m.pmm m.pmm (f + 1) m.pmm.last_free k (omega arith) (λ q h. refl) rest;
        shrinks = λ q h. h;
        extended = λ k u q h. h;
        keeps = λ k u q v h. refl;
      }

  step_new :
      (l k pre p virt n : ℕ) {pmm : Pmm}
      → tab (suc l) pre ≡ some p
      → exists (m.cells (cell m.hhdm p (index (suc l) virt))) ≡ false
      → Allocates m.pmm n pmm
      → n < lim
      → Supply lim pmm pmm.last_free k
      → Stepped l k pre p virt
  step_new l k pre p virt n {pmm} here empty got lt supply =
      let i : ℕ = index (suc l) virt in
      let missing : tab l (pre * 512 + i) ≡ none =
        tree.entry l pre p i here (omega arith) ∙ rw empty in
      let low : n < 2 ^ 40 = omega (arith, reach.named) in
      let fits : at m.hhdm n + 4096 ≤ 2 ^ 64 = omega (arith, reach.mapped) in
      let named : page_of (n * 4096) ≡ n = omega arith in
      record {
        next = n * 4096;
        page = n;
        after = grown m p i n pmm;
        tables = added tab l (pre * 512 + i) n;
        found = next_level-grown l pre p i n here empty got lt;
        leads = higher_half-at m.hhdm (n * 4096) (rw named fits) ∙ ap (at m.hhdm) named;
        tree' = grow-IsTree tree l pre p i n here (omega arith) missing got low fits;
        offset = refl;
        below = ground arith;
        supply = supply;
        shrinks = λ q h. ground (arith, got.view q, h);
        extended = extends tree l pre p i n here (omega arith) missing got low fits;
        keeps = get_from-grow tree l pre p i n here (omega arith) missing got low fits;
      }

  pub step :
      (l k pre p virt : ℕ)
      → tab (suc l) pre ≡ some p
      → Supply lim m.pmm m.pmm.last_free (suc k)
      → Stepped l k pre p virt
  step l k pre p virt here supply =
      elim (Bool-cases (exists (m.cells (cell m.hhdm p (index (suc l) virt))))) [
        | inl full ↦ step_old l k pre p virt here full supply
        | inr empty ↦
            let (n, pmm, got, lt, rest) =
              Supply-pmm_alloc lim k tree.bytes (omega (arith, reach.named)) supply in
            step_new l k pre p virt n here empty got lt rest
      ]
