-- ===== src/Arch/Mmu/Grow.antt =====
-- `mmu_new_level` of kernel/src/arch/x86_64/mmu.c: a new table below an entry that has none.
use arcane_os.Prelude.{
  ℕ, zero, suc, ◌+◌, ◌*◌, ◌%◌, ◌^◌, ◌≤◌, ◌<◌, ◌≡◌, ◌≢◌, inl, inr, true, none, some, arith, ◌==◌,
  ◌&&◌, if◌then◌else◌, ◌∙◌, sym, ap, write, Bool-cases, Option-cases,
}
use arcane_os.Strings.{memset}
use arcane_os.Strings.Copy.{memset-block}
use arcane_os.Mm.Page.{page_size}
use arcane_os.Mm.Pmm.{Pmm}
use arcane_os.Mm.Pmm.Scan.{Allocates}
use arcane_os.Arch.Mmu.{Machine, exists, get_from}
use arcane_os.Arch.Mmu.Entries.{exists-mod, page_of}
use arcane_os.Arch.Mmu.Tree.{
  index, at, cell, target, Tab, IsTable, IsTree, get_from-zero, get_from-some, get_from-none,
}

-- The machine after `mmu_new_level` took page `n` for entry `i` of table `p`.
abbrev pub grown : (m : Machine) (p i n : ℕ) → Pmm → Machine
grown m p i n pmm = record m {
  cells = write (memset m.cells (at m.hhdm n) 0 page_size) (cell m.hhdm p i) (n * 4096 + 7);
  pmm = pmm;
}

abbrev pub added : Tab → (l pre n : ℕ) → Tab
added tab l pre n l' pre' = if l' == l && pre' == pre then some n else tab l' pre'

target-new : (n : ℕ) → n < 2 ^ 40 → target (n * 4096 + 7) ≡ some n
target-new n lt =
    let odd : exists (n * 4096 + 7) ≡ true =
      exists-mod (n * 4096 + 7) ∙ (let e : (n * 4096 + 7) % 2 ≡ 1 = omega arith in rw e) in
    let page : page_of (n * 4096 + 7) ≡ n = omega arith in rw (odd, page)

target-zero : target 0 ≡ none
target-zero = rw (exists-mod 0)

grown-cell :
    (m : Machine) (p i n : ℕ) (pmm : Pmm) (q j : ℕ)
    → i < 512
    → j < 512
    → (grown m p i n pmm).cells (cell m.hhdm q j)
      ≡ (if q == p && j == i then n * 4096 + 7 else if q == n then 0 else m.cells (cell m.hhdm q j))
unfolding write
grown-cell m p i n pmm q j hi hj =
    ground (arith, memset-block m.cells (at m.hhdm n) 0 page_size (cell m.hhdm q j))

module _ {m : Machine} {root : ℕ} {tab : Tab} (tree : IsTree m root tab) (l pre p i n : ℕ)
    {pmm : Pmm} (here : tab (suc l) pre ≡ some p) (small : i < 512)
    (missing : tab l (pre * 512 + i) ≡ none) (got : Allocates m.pmm n pmm) (low : n < 2 ^ 40)
    (fits : at m.hhdm n + 4096 ≤ 2 ^ 64) where
  abbrev tab' : Tab
  tab' = added tab l (pre * 512 + i) n

  abbrev m' : Machine
  m' = grown m p i n pmm

  fresh : (l' pre' q : ℕ) → tab l' pre' ≡ some q → q ≢ n
  fresh l' pre' q there = ground (arith, (tree.table l' pre' q there).taken, got.first.free)

  grow-entry :
      (k pre' q j : ℕ)
      → tab' (suc k) pre' ≡ some q
      → j < 512
      → tab' k (pre' * 512 + j) ≡ target (m'.cells (cell m.hhdm q j))
  grow-entry k pre' q j there lt =
      let c = grown-cell m p i n pmm q j small lt in
      let apart : p ≢ n = fresh (suc l) pre p here in
      elim (Bool-cases (suc k == l && pre' == pre * 512 + i)) [
        | inl new ↦
            let empty : m'.cells (cell m.hhdm q j) ≡ 0 = ground (arith, c) in
            let none_here : tab (suc k) pre' ≡ none = ground arith in
            let below : k < 3 = ground (arith, tree.levels (suc l) pre p) in
            let none_below : tab' k (pre' * 512 + j) ≡ none =
              ground (arith, tree.absent k pre' j below none_here lt) in
            none_below ∙ sym (ap target empty ∙ target-zero)
        | inr old ↦
            let was : tab (suc k) pre' ≡ some q = ground arith in
            elim (Bool-cases (q == p && j == i)) [
              | inl hit ↦
                  let set : m'.cells (cell m.hhdm q j) ≡ n * 4096 + 7 = ground (arith, c) in
                  let now : tab' k (pre' * 512 + j) ≡ some n =
                    ground (arith, tree.one (suc k) (suc l) pre' pre p) in
                  now ∙ sym (ap target set ∙ target-new n low)
              | inr miss ↦
                  let kept : m'.cells (cell m.hhdm q j) ≡ m.cells (cell m.hhdm q j) =
                    ground (arith, c, fresh (suc k) pre' q was) in
                  let still : tab' k (pre' * 512 + j) ≡ tab k (pre' * 512 + j) = ground arith in
                  still ∙ tree.entry k pre' q j was lt ∙ ap target (sym kept)
            ]
      ]

  grow-absent :
      (k pre' j : ℕ) → k < 3 → tab' (suc k) pre' ≡ none → j < 512 → tab' k (pre' * 512 + j) ≡ none
  grow-absent k pre' j low_level gone lt = ground (arith, tree.absent k pre' j)

  grow-one : (a b u v q : ℕ) → tab' a u ≡ some q → tab' b v ≡ some q → (a ≡ b) × (u ≡ v)
  grow-one a b u v q x y = ground (arith, fresh a u q, fresh b v q, tree.one a b u v q)

  grow-IsTable : (k pre' q : ℕ) → tab' k pre' ≡ some q → IsTable m' q
  grow-IsTable k pre' q there = record {
    taken = ground (arith, got.view q, tree.table k pre' q);
    addressed = ground (arith, tree.table k pre' q);
    mapped = ground (arith, tree.table k pre' q);
  }

  pub grow-IsTree : IsTree (grown m p i n pmm) root (added tab l (pre * 512 + i) n)
  grow-IsTree = record {
    root_at = ground (arith, tree.root_at);
    entry = grow-entry;
    absent = grow-absent;
    levels = λ k u q there. ground (arith, tree.levels k u q, tree.levels (suc l) pre p);
    one = grow-one;
    table = grow-IsTable;
    zero_taken = ground (arith, got.view 0, tree.zero_taken);
    bytes = got.bytes;
  }

  -- What a lookup finds is the same before and after: the new table is empty.
  grow-nothing : (k q v : ℕ) → k ≡ l → q ≡ n → get_from k (at m.hhdm q) v m' ≡ 0
  grow-nothing zero q v e f =
      get_from-zero m' (at m.hhdm q) v
      ∙ ground (arith, grown-cell m p i n pmm q (index 0 v) small, fresh (suc l) pre p here)
  grow-nothing (suc k) q v e f =
      get_from-none grow-IsTree k (pre * 512 + i) q v (ground arith)
        (ground (arith, tree.levels (suc l) pre p, tree.absent k (pre * 512 + i) (index (suc k) v)))

  pub extends : (k u q : ℕ) → tab k u ≡ some q → added tab l (pre * 512 + i) n k u ≡ some q
  extends k u q there = ground arith

  pub get_from-grow :
      (k pre' q v : ℕ)
      → tab k pre' ≡ some q
      → get_from k (at m.hhdm q) v (grown m p i n pmm) ≡ get_from k (at m.hhdm q) v m
  get_from-grow zero pre' q v there =
      get_from-zero m' (at m.hhdm q) v
      ∙ ground (
        arith,
        grown-cell m p i n pmm q (index 0 v) small,
        fresh 0 pre' q there,
        tree.one 0 (suc l) pre' pre p,
      )
      ∙ sym (get_from-zero m (at m.hhdm q) v)
  get_from-grow (suc k) pre' q v there =
      let j : ℕ = index (suc k) v in
      let kept : tab' (suc k) pre' ≡ some q = extends (suc k) pre' q there in
      elim (Option-cases (tab k (pre' * 512 + j))) [
        | inl gone ↦ elim (Option-cases (tab' k (pre' * 512 + j))) [
          | inl still ↦
              get_from-none grow-IsTree k pre' q v kept still
              ∙ sym (get_from-none tree k pre' q v there gone)
          | inr (r, new) ↦
              get_from-some grow-IsTree k pre' q v kept new
              ∙ grow-nothing k r v (ground arith) (ground arith)
              ∙ sym (get_from-none tree k pre' q v there gone)
        ]
        | inr (r, next) ↦
            let next' : tab' k (pre' * 512 + j) ≡ some r = extends k (pre' * 512 + j) r next in
            get_from-some grow-IsTree k pre' q v kept next'
            ∙ get_from-grow k (pre' * 512 + j) r v next
            ∙ sym (get_from-some tree k pre' q v there next)
      ]
