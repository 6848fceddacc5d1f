-- ===== src/Mm/Vmm/Pages.antt =====
-- The loop of vmm_alloc that maps the pages of a new region.
use mathlib.Core.Path.{subst}
use mathlib.Core.Bool.{true≢false}
use arcane_os.Prelude.{
  ℕ, zero, suc, ◌+◌, ◌*◌, ◌/◌, ◌%◌, ◌^◌, ◌≤◌, ◌<◌, ◌≡◌, ◌≢◌, inl, inr, refl, ◌∙◌, sym, ap, arith,
  true, false, Bool-cases, some, u64, ◌==◌, if◌then◌else◌, Cells, bit_or,
}
use arcane_os.Prelude.State.{>>=-run}
use arcane_os.Mm.Page.{page_size}
use arcane_os.Mm.Pmm.{Pmm}
use arcane_os.Mm.Pmm.Bitmap.{is_free}
use arcane_os.Mm.Pmm.Scan.{Allocates, Supply, Supply-pmm_alloc}
use arcane_os.Arch.Mmu.{Machine, mmu_get_page, get_from}
use arcane_os.Arch.Mmu.Tree.{at, Tab, IsTree}
use arcane_os.Arch.Mmu.Step.{Reachable}
use arcane_os.Arch.Mmu.Map.{mmu_map-Mapped}
use arcane_os.Mm.Vmm.{Vmm, take_frame, map_frame, map_pages}

-- The number of the page of an address, of 48 bits.
abbrev pub page_number : ℕ → ℕ
page_number v = v / 4096 % 2 ^ 36

-- `t` is `s` with the pages `i` to `i + n` of a region at `base` mapped to frames that were free and
-- are now taken, no two alike; no other address is mapped anew, and `k` pages are still to be had.
pub record Paged (s t : Vmm) (root lim k i n base flags : ℕ) : Type 0 where
  pub only : t ≡ record s { machine = t.machine }
  pub tables : Tab
  pub tree : IsTree t.machine root tables
  pub offset : t.machine.hhdm ≡ s.machine.hhdm
  pub left : Supply lim t.machine.pmm t.machine.pmm.last_free k
  pub shrinks : (q : ℕ) → is_free s.machine.pmm q ≡ false → is_free t.machine.pmm q ≡ false
  pub frame : Cells ℕ
  pub free : (j : ℕ) → i ≤ j → j < i + n → is_free s.machine.pmm (frame j) ≡ true
  pub taken : (j : ℕ) → i ≤ j → j < i + n → is_free t.machine.pmm (frame j) ≡ false
  pub alone : (j j' : ℕ) → i ≤ j → j < j' → j' < i + n → frame j ≢ frame j'
  pub finds :
      (j v : ℕ)
      → i ≤ j
      → j < i + n
      → page_number v ≡ (base / 4096 + j) % 2 ^ 36
      → mmu_get_page (at s.machine.hhdm root) v t.machine ≡ bit_or (frame j * page_size) flags
  pub others :
      (v : ℕ)
      → ((j : ℕ) → i ≤ j → j < i + n → page_number v ≢ (base / 4096 + j) % 2 ^ 36)
      → mmu_get_page (at s.machine.hhdm root) v t.machine
        ≡ mmu_get_page (at s.machine.hhdm root) v s.machine

-- Taking a page leaves the tree.
pub Allocates-IsTree :
    {m : Machine} {root p : ℕ} {tab : Tab} {pmm : Pmm}
    → IsTree m root tab
    → Allocates m.pmm p pmm
    → IsTree (record m { pmm = pmm }) root tab
Allocates-IsTree {m} {root} {p} {tab} {pmm} tree got =
    let keep : (q : ℕ) → is_free m.pmm q ≡ false → is_free pmm q ≡ false =
      λ q h. ground (arith, got.view q, h) in
    record {
      root_at = tree.root_at;
      entry = tree.entry;
      absent = tree.absent;
      levels = tree.levels;
      one = tree.one;
      table = λ l pre q here. record {
        taken = keep q (tree.table l pre q here).taken;
        addressed = (tree.table l pre q here).addressed;
        mapped = (tree.table l pre q here).mapped;
      };
      zero_taken = keep 0 tree.zero_taken;
      bytes = got.bytes;
    }

-- One page: a frame is taken and mapped.
record OnePage (s t : Vmm) (pagemap root lim k virt flags : ℕ) : Type 0 where
  q : ℕ
  between : Vmm
  takes : take_frame s ≡ some (q * page_size, between)
  maps : map_frame pagemap virt (q * page_size) flags between ≡ some (tt, t)
  only : t ≡ record s { machine = t.machine }
  tables : Tab
  tree : IsTree t.machine root tables
  offset : t.machine.hhdm ≡ s.machine.hhdm
  left : Supply lim t.machine.pmm t.machine.pmm.last_free k
  shrinks : (p : ℕ) → is_free s.machine.pmm p ≡ false → is_free t.machine.pmm p ≡ false
  free : is_free s.machine.pmm q ≡ true
  taken : is_free t.machine.pmm q ≡ false
  finds :
      (v : ℕ)
      → mmu_get_page (at s.machine.hhdm root) v t.machine ≡ (
          if page_number v == page_number virt
          then bit_or (q * page_size) flags
          else mmu_get_page (at s.machine.hhdm root) v s.machine)

one_page :
    (s : Vmm) {root : ℕ} {tab : Tab} {lim : ℕ} (pagemap k virt flags : ℕ)
    → s.top_level pagemap ≡ at s.machine.hhdm root
    → IsTree s.machine root tab
    → Reachable s.machine lim
    → Supply lim s.machine.pmm s.machine.pmm.last_free (4 + k)
    → (t : Vmm) × OnePage s t pagemap root lim k virt flags
unfolding take_frame map_frame mmu_get_page get_from
one_page s {root} {tab} {lim} pagemap k virt flags top tree reach supply =
    let four : 4 + k ≡ suc (3 + k) = omega arith in
    let enough = subst (Supply lim s.machine.pmm s.machine.pmm.last_free) four supply in
    let (q, pmm, got, lt, rest) =
      Supply-pmm_alloc {s = s.machine.pmm} lim (3 + k) tree.bytes (omega (arith, reach.named))
        enough in
    let m1 : Machine = record s.machine { pmm = pmm } in
    let s1 : Vmm = record s { machine = m1 } in
    let reach1 : Reachable m1 lim = record { named = reach.named; mapped = reach.mapped } in
    let (m2, returns, done) =
      mmu_map-Mapped k virt (q * page_size) flags (Allocates-IsTree tree got) reach1 rest in
    (
      record s { machine = m2 },
      record {
        q = q;
        between = s1;
        takes = rw (take_frame, got.returns) refl;
        maps = rw (map_frame, top, returns) refl;
        only = refl;
        tables = done.tables;
        tree = done.tree;
        offset = done.offset;
        left = done.left;
        shrinks = λ p h. done.shrinks p (ground (arith, got.view p, h));
        free = got.first.free;
        taken = done.shrinks q (ground (arith, got.view q));
        finds = done.finds;
      },
    )

module _ {s t u : Vmm} {pagemap root lim k flags : ℕ} (n i base : ℕ)
    (one : OnePage s t pagemap root lim (n * 4 + k) (base + i * 4096) flags)
    (rest : Paged t u root lim k (i + 1) n base flags) where
  first_or_rest : Cells ℕ
  first_or_rest j = if j == i then one.q else rest.frame j

  was_free : (q : ℕ) → is_free t.machine.pmm q ≡ true → is_free s.machine.pmm q ≡ true
  was_free q h = elim (Bool-cases (is_free s.machine.pmm q)) [
    | inl free ↦ free
    | inr busy ↦ absurd (true≢false (sym h ∙ one.shrinks q busy))
  ]

  abbrev lookup : (v : ℕ) (m : Machine) → ℕ → ℕ
  lookup v m h = mmu_get_page (at h root) v m

  -- What the other pages do to an address, as seen from the start.
  rest-others :
      (v : ℕ)
      → ((j : ℕ) → i + 1 ≤ j → j < i + 1 + n → page_number v ≢ (base / 4096 + j) % 2 ^ 36)
      → lookup v u.machine s.machine.hhdm ≡ lookup v t.machine s.machine.hhdm
  rest-others v none =
      subst (λ h. mmu_get_page (at h root) v u.machine ≡ mmu_get_page (at h root) v t.machine)
        one.offset (rest.others v none)

  frame_free : (j : ℕ) → i ≤ j → j < i + suc n → is_free s.machine.pmm (first_or_rest j) ≡ true
  unfolding first_or_rest
  frame_free j le lt = elim (Bool-cases (j == i)) [
    | inl e ↦ rw (first_or_rest, e) one.free
    | inr e ↦
        rw (first_or_rest, e) (was_free (rest.frame j) (rest.free j (ground arith) (omega arith)))
  ]

  frame_taken : (j : ℕ) → i ≤ j → j < i + suc n → is_free u.machine.pmm (first_or_rest j) ≡ false
  unfolding first_or_rest
  frame_taken j le lt = elim (Bool-cases (j == i)) [
    | inl e ↦ rw (first_or_rest, e) (rest.shrinks one.q one.taken)
    | inr e ↦ rw (first_or_rest, e) (rest.taken j (ground arith) (omega arith))
  ]

  frame_alone : (j j' : ℕ) → i ≤ j → j < j' → j' < i + suc n → first_or_rest j ≢ first_or_rest j'
  unfolding first_or_rest
  frame_alone j j' le lt end =
      let later : (j' == i) ≡ false = ground arith in
      let fresh = rest.free j' (omega arith) (omega arith) in
      elim (Bool-cases (j == i)) [
        | inl e ↦
            rw (first_or_rest, e, later)
              (λ same. true≢false (sym fresh ∙ ap (is_free t.machine.pmm) (sym same) ∙ one.taken))
        | inr e ↦ rw (first_or_rest, e, later) (rest.alone j j' (ground arith) lt (omega arith))
      ]

  frame_finds :
      (j v : ℕ)
      → i + suc n ≤ 2 ^ 36
      → i ≤ j
      → j < i + suc n
      → page_number v ≡ (base / 4096 + j) % 2 ^ 36
      → lookup v u.machine s.machine.hhdm ≡ bit_or (first_or_rest j * page_size) flags
  unfolding first_or_rest
  frame_finds j v few le lt here = elim (Bool-cases (j == i)) [
    | inl e ↦
        let same : (page_number v == page_number (base + i * 4096)) ≡ true = ground arith in
        let is : j ≡ i = ground arith in
        rest-others v (λ l a b. omega (arith, is)) ∙ one.finds v ∙ rw (same, first_or_rest, e) refl
    | inr e ↦
        rw (first_or_rest, e)
          (subst
            (λ h. mmu_get_page (at h root) v u.machine ≡ bit_or (rest.frame j * page_size) flags)
            one.offset (rest.finds j v (ground arith) (omega arith) here))
  ]

  frame_others :
      (v : ℕ)
      → ((j : ℕ) → i ≤ j → j < i + suc n → page_number v ≢ (base / 4096 + j) % 2 ^ 36)
      → lookup v u.machine s.machine.hhdm ≡ lookup v s.machine s.machine.hhdm
  frame_others v none =
      let away = none i (omega arith) (omega arith) in
      let other : (page_number v == page_number (base + i * 4096)) ≡ false = ground arith in
      rest-others v (λ j a b. none j (omega arith) (omega arith)) ∙ one.finds v ∙ rw other refl

  -- One page and then the others.
  Paged-cons : i + suc n ≤ 2 ^ 36 → Paged s u root lim k i (suc n) base flags
  Paged-cons few = record {
    only = rest.only ∙ ap (λ (x : Vmm). record x { machine = u.machine }) one.only;
    tables = rest.tables;
    tree = rest.tree;
    offset = rest.offset ∙ one.offset;
    left = rest.left;
    shrinks = λ q h. rest.shrinks q (one.shrinks q h);
    frame = first_or_rest;
    free = frame_free;
    taken = frame_taken;
    alone = frame_alone;
    finds = λ j v le lt here. frame_finds j v few le lt here;
    others = frame_others;
  }

-- With four pages at hand for each page of the region, the loop of vmm_alloc returns and maps them.
pub map_pages-Paged :
    (n i : ℕ) (s : Vmm) {root : ℕ} {tab : Tab} {lim : ℕ} (pagemap base flags k : ℕ)
    → s.top_level pagemap ≡ at s.machine.hhdm root
    → IsTree s.machine root tab
    → Reachable s.machine lim
    → Supply lim s.machine.pmm s.machine.pmm.last_free (n * 4 + k)
    → i + n ≤ 2 ^ 36
    → base + (i + n) * 4096 ≤ 2 ^ 64
    → (t : Vmm) × (map_pages n i pagemap base flags s ≡ some (tt, t))
      × Paged s t root lim k i n base flags
unfolding map_pages
map_pages-Paged zero i s {tab} {lim} pagemap base flags k top tree reach supply few fits = (
  s,
  refl,
  record {
    only = refl;
    tables = tab;
    tree = tree;
    offset = refl;
    left = subst (Supply lim s.machine.pmm s.machine.pmm.last_free) (omega arith) supply;
    shrinks = λ q h. h;
    frame = λ j. 0;
    free = λ j le lt. absurd (omega arith);
    taken = λ j le lt. absurd (omega arith);
    alone = λ j j' le lt end. absurd (omega arith);
    finds = λ j v le lt here. absurd (omega arith);
    others = λ v none. refl;
  },
)
map_pages-Paged (suc n) i s {root} {tab} {lim} pagemap base flags k top tree reach supply few fits =
    let more : suc n * 4 + k ≡ 4 + (n * 4 + k) = omega arith in
    let supply' = subst (Supply lim s.machine.pmm s.machine.pmm.last_free) more supply in
    let (t, one) =
      one_page s {lim = lim} pagemap (n * 4 + k) (base + i * 4096) flags top tree reach supply' in
    let top' : t.top_level pagemap ≡ at t.machine.hhdm root =
      ap (λ (x : Vmm). x.top_level pagemap) one.only ∙ top ∙ ap (λ h. at h root) (sym one.offset) in
    let reach' : Reachable t.machine lim = record {
      named = reach.named;
      mapped = omega (arith, one.offset, reach.mapped);
    } in
    let (u, returns, rest) =
      map_pages-Paged n (i + 1) t {lim = lim} pagemap base flags k top' one.tree reach' one.left
        (omega arith) (omega arith) in
    let virt : u64 (base + u64 (i * page_size)) ≡ base + i * 4096 = omega arith in
    (
      u,
      >>=-run take_frame _ one.takes
          ∙ >>=-run (map_frame pagemap (u64 (base + u64 (i * page_size))) (one.q * page_size) flags)
              (λ x. map_pages n (i + 1) pagemap base flags) {s = one.between} {t = t} {a = tt}
              (rw virt one.maps)
          ∙ returns,
      Paged-cons n i base one rest (omega arith),
    )
