-- ===== src/Arch/Mmu/Store.antt =====
-- The last store of `mmu_map`, kernel/src/arch/x86_64/mmu.c: an entry of a lowest table.
use arcane_os.Prelude.{
  ℕ, zero, suc, ◌+◌, ◌*◌, ◌/◌, ◌≤◌, ◌<◌, ◌≡◌, inl, inr, false, none, some, arith, ◌==◌,
  if◌then◌else◌, ◌∙◌, sym, write, write_self, write-ne, ap, Bool-cases, ==_iff, ==→ne, ne→==,
  Option-cases,
}
use arcane_os.Arch.Mmu.{Machine, get_from}
use arcane_os.Arch.Mmu.Tree.{
  index, at, cell, target, Tab, IsTree, get_from-zero, get_from-some, get_from-none,
}

-- The number of the page of `v`, from the indices at a level and below, after those above.
unfoldable pub number : (level pre v : ℕ) → ℕ
number zero pre v = pre * 512 + index 0 v
number (suc l) pre v = number l (pre * 512 + index (suc l) v) v

module _ {m : Machine} {root : ℕ} {tab : Tab} (tree : IsTree m root tab) where
  -- Where a table is missing there is no lowest table behind it.
  pub absent_below : (l pre v : ℕ) → l ≤ 3 → tab l pre ≡ none → tab 0 (number l pre v / 512) ≡ none
  unfolding number
  absent_below zero pre v le gone =
      let e : (pre * 512 + index 0 v) / 512 ≡ pre = omega arith in rw e gone
  absent_below (suc l) pre v le gone =
      absent_below l (pre * 512 + index (suc l) v) v (omega arith)
        (tree.absent l pre (index (suc l) v) (omega arith) gone (omega arith))

  -- Entry `i` of the lowest table `p`, at the indices `pre`, set to `w`.
  module _ (pre p i w : ℕ) (low : tab 0 pre ≡ some p) (small : i < 512) where
    elsewhere :
        (l pre' q j : ℕ)
        → tab (suc l) pre' ≡ some q
        → j < 512
        → write m.cells (cell m.hhdm p i) w (cell m.hhdm q j) ≡ m.cells (cell m.hhdm q j)
    elsewhere l pre' q j here lt = write-ne m.cells w λ e.
        let same : q ≡ p = omega arith in
        absurd (omega (arith, (tree.one 0 (suc l) pre pre' p low (here ∙ rw same)).0))

    pub store-IsTree : IsTree (record m { cells = write m.cells (cell m.hhdm p i) w }) root tab
    store-IsTree = record {
      root_at = tree.root_at;
      entry = λ l pre' q j here lt.
          tree.entry l pre' q j here lt ∙ ap target (sym (elsewhere l pre' q j here lt));
      absent = tree.absent;
      levels = tree.levels;
      one = tree.one;
      table = λ l pre' q here.
          let t = tree.table l pre' q here in
          record { taken = t.taken; addressed = t.addressed; mapped = t.mapped };
      zero_taken = tree.zero_taken;
      bytes = tree.bytes;
    }

    store-cell :
        (pre' q j : ℕ)
        → tab 0 pre' ≡ some q
        → j < 512
        → write m.cells (cell m.hhdm p i) w (cell m.hhdm q j)
          ≡ (if pre' * 512 + j == pre * 512 + i then w else m.cells (cell m.hhdm q j))
    store-cell pre' q j here lt = elim (Bool-cases (pre' * 512 + j == pre * 512 + i)) [
      | inl hit ↦
          let n : pre' * 512 + j ≡ pre * 512 + i = (==_iff _ _).0 hit in
          let up : pre' ≡ pre = omega arith in
          let across : j ≡ i = omega arith in
          let same : q ≡ p = ground arith in
          rw (hit, same, across) (write_self m.cells (cell m.hhdm p i) w)
      | inr miss ↦ rw miss (
          write-ne m.cells w λ e.
            let same : q ≡ p = omega arith in
            let up : pre ≡ pre' = (tree.one 0 0 pre pre' p low (here ∙ rw same)).1 in
            ==→ne _ _ miss (omega arith))
    ]

    pub get_from-store :
        (l pre' q v : ℕ)
        → tab l pre' ≡ some q
        → get_from l (at m.hhdm q) v (record m { cells = write m.cells (cell m.hhdm p i) w })
          ≡ (if number l pre' v == pre * 512 + i then w else get_from l (at m.hhdm q) v m)
    unfolding number
    get_from-store zero pre' q v here =
        rw
          (
            get_from-zero m (at m.hhdm q) v,
            get_from-zero (record m { cells = write m.cells (cell m.hhdm p i) w }) (at m.hhdm q) v,
          )
          (store-cell pre' q (index 0 v) here (omega arith))
    get_from-store (suc l) pre' q v here =
        let j : ℕ = pre' * 512 + index (suc l) v in
        elim (Option-cases (tab l j)) [
          | inl gone ↦
              let far : (number l j v == pre * 512 + i) ≡ false = ne→== _ _ λ e.
                let up : number l j v / 512 ≡ pre = omega arith in
                ground (
                  arith,
                  absent_below l j v (omega (arith, tree.levels (suc l) pre' q here)) gone,
                ) in
              rw (
                get_from-none tree l pre' q v here gone,
                get_from-none store-IsTree l pre' q v here gone,
                far,
              )
          | inr (r, next) ↦
              rw
                (
                  get_from-some tree l pre' q v here next,
                  get_from-some store-IsTree l pre' q v here next,
                )
                (get_from-store l j r v next)
        ]
