-- ===== src/Mm/Vmm/Shares/Tables.antt =====
-- A table with an empty lower half whose upper half is that of another one.
use arcane_os.Prelude.{
  ℕ, zero, suc, ◌+◌, ◌*◌, ◌≤◌, ◌<◌, ◌≡◌, ◌≢◌, ◌⊎◌, inl, inr, refl, ◌∙◌, sym, ap, arith, false,
  Bool-cases, some, ltb, ◌==◌, if◌then◌else◌, Cells, write, write_self, write-ne,
}
use arcane_os.Strings.{memset}
use arcane_os.Strings.Copy.{memset-block}
use arcane_os.Mm.Page.{page_size}
use arcane_os.Mm.Pmm.{Pmm}
use arcane_os.Arch.Mmu.{Machine, exists, get_from}
use arcane_os.Arch.Mmu.Entries.{get_level-mod, exists-mod, page_of}
use arcane_os.Arch.Mmu.Tree.{index, at, cell, Tab, IsTree, higher_half-at, get_from-zero}
use arcane_os.Mm.Vmm.Init.{copy_upper}

copy_upper-outside :
    (n i from to : ℕ) (m : Cells ℕ) (a : ℕ)
    → (a < to + 8 * i) ⊎ (to + 8 * (i + n) ≤ a)
    → copy_upper n i from to m a ≡ m a
unfolding copy_upper
copy_upper-outside zero i from to m a out = refl
copy_upper-outside (suc n) i from to m a (inl low) =
    copy_upper-outside n (i + 1) from to (write m (to + 8 * i) (m (from + 8 * i))) a
      (inl (omega arith))
    ∙ write-ne m (m (from + 8 * i)) (omega arith)
copy_upper-outside (suc n) i from to m a (inr high) =
    copy_upper-outside n (i + 1) from to (write m (to + 8 * i) (m (from + 8 * i))) a
      (inr (omega arith))
    ∙ write-ne m (m (from + 8 * i)) (omega arith)

copy_upper-inside :
    (n i from to : ℕ) (m : Cells ℕ) (j : ℕ)
    → i ≤ j
    → j < i + n
    → (from + 4096 ≤ to) ⊎ (to + 4096 ≤ from)
    → i + n ≤ 512
    → copy_upper n i from to m (to + 8 * j) ≡ m (from + 8 * j)
unfolding copy_upper
copy_upper-inside zero i from to m j lo hi apart room = absurd (omega arith)
copy_upper-inside (suc n) i from to m j lo hi apart room =
    let m1 = write m (to + 8 * i) (m (from + 8 * i)) in
    elim (Bool-cases (j == i)) [
      | inl here ↦
          let e : j ≡ i = ground arith in
          copy_upper-outside n (i + 1) from to m1 (to + 8 * j) (inl (omega (arith, e)))
          ∙ ap (λ k. m1 (to + 8 * k)) e
          ∙ write_self m (to + 8 * i) (m (from + 8 * i))
          ∙ ap (λ k. m (from + 8 * k)) (sym e)
      | inr later ↦
          let ne : j ≢ i = ground arith in
          copy_upper-inside n (i + 1) from to m1 j (omega (arith, ne)) (omega arith) apart
            (omega arith)
          ∙ write-ne m (m (from + 8 * i)) (ground (arith, apart, room, hi))
    ]

module _ {m : Machine} {root : ℕ} {tab : Tab} (tree : IsTree m root tab) (cells : Cells ℕ)
    (pmm : Pmm)
    (kept : (l pre q j : ℕ)
      → tab l pre ≡ some q
      → j < 512
      → cells (cell m.hhdm q j) ≡ m.cells (cell m.hhdm q j)) where
  abbrev pub m' : Machine
  m' = record m { cells = cells; pmm = pmm }

  -- What is found from a table does not change where no table does.
  pub get_from-kept :
      (k pre q v : ℕ)
      → tab k pre ≡ some q
      → get_from k (at m.hhdm q) v m' ≡ get_from k (at m.hhdm q) v m
  unfolding get_from
  get_from-kept zero pre q v here =
      get_from-zero m' (at m.hhdm q) v
      ∙ kept 0 pre q (index 0 v) here (omega arith)
      ∙ sym (get_from-zero m (at m.hhdm q) v)
  get_from-kept (suc l) pre q v here =
      let i : ℕ = index (suc l) v in
      let e : ℕ = m.cells (cell m.hhdm q i) in
      let same : cells (cell m.hhdm q i) ≡ e = kept (suc l) pre q i here (omega arith) in
      let says = tree.entry l pre q i here (omega arith) in
      elim (Bool-cases (exists e)) [
        | inl yes_it_does ↦
            let next : tab l (pre * 512 + i) ≡ some (page_of e) = says ∙ rw yes_it_does refl in
            let fits = (tree.table l (pre * 512 + i) (page_of e) next).mapped in
            rw (get_level-mod v (suc l), same, yes_it_does, higher_half-at m.hhdm e fits)
              (get_from-kept l (pre * 512 + i) (page_of e) v next)
        | inr no_it_does_not ↦ rw (get_level-mod v (suc l), same, no_it_does_not) refl
      ]

  -- A table whose upper half is that of the root, and whose lower half is empty.
  pub get_from-half :
      (n v : ℕ)
      → ((i : ℕ)
          → i < 512
          → cells (cell m.hhdm n i) ≡ (if ltb i 256 then 0 else m.cells (cell m.hhdm root i)))
      → get_from 3 (at m.hhdm n) v m'
        ≡ (if ltb (index 3 v) 256 then 0 else get_from 3 (at m.hhdm root) v m)
  unfolding get_from
  get_from-half n v half =
      let i : ℕ = index 3 v in
      let entry = half i (omega arith) in
      elim (Bool-cases (ltb i 256)) [
        | inl low ↦
            let empty : cells (cell m.hhdm n i) ≡ 0 = entry ∙ rw low refl in
            let gone : exists 0 ≡ false = exists-mod 0 in
            rw (low, get_level-mod v 3, empty, gone) refl
        | inr high ↦
            let same : cells (cell m.hhdm n i) ≡ cells (cell m.hhdm root i) =
              entry ∙ rw high refl ∙ sym (kept 3 0 root i tree.root_at (omega arith)) in
            rw (high, get_level-mod v 3, same)
              (rw (get_level-mod v 3) at (get_from-kept 3 0 root v tree.root_at))
      ]

-- The memory behind vmm_new_pagemap, where page `n` becomes the new table.
abbrev pub shared : (m : Machine) (root n : ℕ) → Cells ℕ
shared m root n =
    copy_upper 256 256 (at m.hhdm root) (at m.hhdm n) (memset m.cells (at m.hhdm n) 0 page_size)

pub shared-kept :
    (m : Machine) (root n q j : ℕ)
    → q ≢ n
    → j < 512
    → shared m root n (cell m.hhdm q j) ≡ m.cells (cell m.hhdm q j)
shared-kept m root n q j ne lt =
    let out : (cell m.hhdm q j < at m.hhdm n + 8 * 256)
        ⊎ (at m.hhdm n + 8 * (256 + 256) ≤ cell m.hhdm q j) =
      ground (arith, ne, lt) in
    copy_upper-outside 256 256 (at m.hhdm root) (at m.hhdm n)
      (memset m.cells (at m.hhdm n) 0 page_size) (cell m.hhdm q j) out
    ∙ ground (arith, memset-block m.cells (at m.hhdm n) 0 page_size (cell m.hhdm q j), ne, lt)

pub shared-half :
    (m : Machine) (root n i : ℕ)
    → root ≢ n
    → i < 512
    → shared m root n (cell m.hhdm n i) ≡ (if ltb i 256 then 0 else m.cells (cell m.hhdm root i))
shared-half m root n i ne lt =
    let cleared = memset m.cells (at m.hhdm n) 0 page_size in
    elim (Bool-cases (ltb i 256)) [
      | inl low ↦
          let below : i < 256 = ground arith in
          copy_upper-outside 256 256 (at m.hhdm root) (at m.hhdm n) cleared (cell m.hhdm n i)
            (inl (omega arith))
          ∙ ground (arith, memset-block m.cells (at m.hhdm n) 0 page_size (cell m.hhdm n i), below)
      | inr high ↦
          let above : 256 ≤ i = ground arith in
          let apart : (at m.hhdm root + 4096 ≤ at m.hhdm n)
              ⊎ (at m.hhdm n + 4096 ≤ at m.hhdm root) =
            ground (arith, ne) in
          copy_upper-inside 256 256 (at m.hhdm root) (at m.hhdm n) cleared i above (omega arith)
            apart (omega arith)
          ∙ ground (
            arith,
            memset-block m.cells (at m.hhdm n) 0 page_size (cell m.hhdm root i),
            ne,
            high,
            lt,
          )
    ]
