-- ===== src/Arch/Mmu/Map.antt =====
-- `mmu_map` against `mmu_get_page`, kernel/src/arch/x86_64/mmu.c.
use arcane_os.Prelude.{
  ℕ, zero, suc, ◌+◌, ◌*◌, ◌/◌, ◌%◌, ◌^◌, ◌≡◌, refl, false, some, arith, ◌==◌, if◌then◌else◌, ◌∙◌,
  sym, ap, write, bit_or,
}
use native.Mathlib.Nat.{zero-add, suc-add}
use arcane_os.Mm.Pmm.Bitmap.{is_free}
use arcane_os.Mm.Pmm.Scan.{Supply}
use arcane_os.Arch.Mmu.{Machine, get_from, walk, mmu_map, mmu_get_page}
use arcane_os.Arch.Mmu.Entries.{get_level-mod}
use arcane_os.Arch.Mmu.Tree.{index, at, cell, Tab, IsTree}
use arcane_os.Arch.Mmu.Store.{number, store-IsTree, get_from-store}
use arcane_os.Arch.Mmu.Step.{Reachable, step}

number-mod : (v : ℕ) → number 3 0 v ≡ v / 4096 % 2 ^ 36
unfolding number
number-mod v = omega arith

number-low : (l pre v : ℕ) → number l pre v % 512 ≡ index 0 v
unfolding number
number-low zero pre v = omega arith
number-low (suc l) pre v = number-low l (pre * 512 + index (suc l) v) v

-- A walk leaves a tree that has the lowest table of `virt`, and finds what was found before.
record Walked (m : Machine) (root : ℕ) (tab : Tab) (lim l k pre p virt : ℕ) : Type 0 where
  last : Machine
  tables : Tab
  leaf : ℕ
  ends : walk l (at m.hhdm p) virt m ≡ some (at m.hhdm leaf, last)
  tree : IsTree last root tables
  offset : last.hhdm ≡ m.hhdm
  lowest : tables 0 (number l pre virt / 512) ≡ some leaf
  left : Supply lim last.pmm last.pmm.last_free k
  shrinks : (q : ℕ) → is_free m.pmm q ≡ false → is_free last.pmm q ≡ false
  keeps :
      (j u q v : ℕ)
      → tab j u ≡ some q
      → get_from j (at m.hhdm q) v last ≡ get_from j (at m.hhdm q) v m

walk-Walked :
    (l k : ℕ) {m : Machine} {root : ℕ} {tab : Tab} {lim : ℕ} (pre p virt : ℕ)
    → IsTree m root tab
    → Reachable m lim
    → tab l pre ≡ some p
    → Supply lim m.pmm m.pmm.last_free (l + k)
    → Walked m root tab lim l k pre p virt
unfolding walk number
walk-Walked zero k {m} {tab} pre p virt tree reach here supply = record {
  last = m;
  tables = tab;
  leaf = p;
  ends = refl;
  tree = tree;
  offset = refl;
  lowest = let e : (pre * 512 + index 0 virt) / 512 ≡ pre = omega arith in rw e here;
  left = rw (zero-add k) at supply;
  shrinks = λ q h. h;
  keeps = λ j u q v h. refl;
}
walk-Walked (suc l) k {m} {root} {tab} {lim} pre p virt tree reach here supply =
    let s = step tree reach l (l + k) pre p virt here (rw (suc-add l k) at supply) in
    let w =
      walk-Walked l k {lim = lim} (pre * 512 + index (suc l) virt) s.page virt s.tree'
        (record { named = reach.named; mapped = rw s.offset reach.mapped }) s.below s.supply in
    record {
      last = w.last;
      tables = w.tables;
      leaf = w.leaf;
      ends = rw (get_level-mod virt (suc l), s.found, walk, s.leads) (rw s.offset at w.ends);
      tree = w.tree;
      offset = w.offset ∙ s.offset;
      lowest = w.lowest;
      left = w.left;
      shrinks = λ q h. w.shrinks q (s.shrinks q h);
      keeps =
          λ j u q v h. (rw s.offset at (w.keeps j u q v (s.extended j u q h))) ∙ s.keeps j u q v h;
    }

mmu_map-walk :
    (m last : Machine) (root leaf virt phys flags : ℕ)
    → walk 3 (at m.hhdm root) virt m ≡ some (at last.hhdm leaf, last)
    → mmu_map (at m.hhdm root) virt phys flags m
      ≡ some (record last {
        cells = write last.cells (cell last.hhdm leaf (index 0 virt)) (bit_or phys flags);
      })
unfolding mmu_map
mmu_map-walk m last root leaf virt phys flags ends = rw (ends, mmu_map, get_level-mod virt 0)

-- What `mmu_map` leaves: a tree in which `mmu_get_page` finds the new entry at every address of
-- the page of `virt`, and at every other address what it found before; pages that were taken stay
-- taken, and `k` pages are still to be had.
pub record Mapped (m : Machine) (root lim k virt entry : ℕ) (m' : Machine) : Type 0 where
  pub tables : Tab
  pub tree : IsTree m' root tables
  pub offset : m'.hhdm ≡ m.hhdm
  pub left : Supply lim m'.pmm m'.pmm.last_free k
  pub shrinks : (q : ℕ) → is_free m.pmm q ≡ false → is_free m'.pmm q ≡ false
  pub finds :
      (v : ℕ)
      → mmu_get_page (at m.hhdm root) v m' ≡ (
          if v / 4096 % 2 ^ 36 == virt / 4096 % 2 ^ 36
          then entry
          else mmu_get_page (at m.hhdm root) v m)

-- With three pages more than `k` at hand `mmu_map` returns.
pub mmu_map-Mapped :
    {m : Machine} {root : ℕ} {tab : Tab} {lim : ℕ} (k virt phys flags : ℕ)
    → IsTree m root tab
    → Reachable m lim
    → Supply lim m.pmm m.pmm.last_free (3 + k)
    → (m' : Machine) × (mmu_map (at m.hhdm root) virt phys flags m ≡ some m')
      × Mapped m root lim k virt (bit_or phys flags) m'
unfolding mmu_get_page
mmu_map-Mapped {m} {root} {tab} {lim} k virt phys flags tree reach supply =
    let w = walk-Walked 3 k {lim = lim} 0 root virt tree reach tree.root_at supply in
    let i : ℕ = index 0 virt in
    let pre : ℕ = number 3 0 virt / 512 in
    let w' : ℕ = bit_or phys flags in
    let last : Machine = w.last in
    let full : pre * 512 + i ≡ virt / 4096 % 2 ^ 36 =
      omega (arith, number-low 3 0 virt, number-mod virt) in
    (
      record last { cells = write last.cells (cell last.hhdm w.leaf i) w' },
      mmu_map-walk m last root w.leaf virt phys flags
          (w.ends ∙ ap (λ h. some (at h w.leaf, last)) (sym w.offset)),
      record {
        tables = w.tables;
        tree = store-IsTree w.tree pre w.leaf i w' w.lowest (omega arith);
        offset = w.offset;
        left = w.left;
        shrinks = w.shrinks;
        finds = λ v.
            let found =
              get_from-store w.tree pre w.leaf i w' w.lowest (omega arith) 3 0 root v
                w.tree.root_at in
            let old = w.keeps 3 0 root v tree.root_at in
            let m' : Machine = record last {
              cells = write last.cells (cell last.hhdm w.leaf i) w';
            } in
            ap (λ h. get_from 3 (at h root) v m') (sym w.offset)
            ∙ found
            ∙ ap (λ h. if number 3 0 v == pre * 512 + i then w' else get_from 3 (at h root) v last)
                w.offset
            ∙ rw (number-mod v, full, old);
      },
    )

-- From a tree of tables with three free pages at hand, `mmu_map` returns and leaves a tree, in
-- which `mmu_get_page` finds the new entry at every address of the page of `virt`, and at every
-- other address what it found before.
pub mmu_map-mmu_get_page :
    {m : Machine} {root : ℕ} {tab : Tab} {lim : ℕ} (virt phys flags : ℕ)
    → IsTree m root tab
    → Reachable m lim
    → Supply lim m.pmm m.pmm.last_free 3
    → (m' : Machine) × (tab' : Tab) × (mmu_map (at m.hhdm root) virt phys flags m ≡ some m')
      × IsTree m' root tab'
      × (m'.hhdm ≡ m.hhdm)
      × ((v : ℕ)
          → mmu_get_page (at m.hhdm root) v m' ≡ (
              if v / 4096 % 2 ^ 36 == virt / 4096 % 2 ^ 36
              then bit_or phys flags
              else mmu_get_page (at m.hhdm root) v m))
mmu_map-mmu_get_page virt phys flags tree reach supply =
    let (m', returns, done) = mmu_map-Mapped 0 virt phys flags tree reach supply in
    (m', done.tables, returns, done.tree, done.offset, done.finds)
