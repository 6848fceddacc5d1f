-- ===== src/Mm/Vmm/Frames.antt =====
-- The loop of `vmm_free` over the pages of a region, kernel/src/mm/vmm.c: which frames it gives
-- back, and where it stops.
use arcane_os.Prelude.{
  ℕ, zero, suc, ◌+◌, ◌*◌, ◌/◌, ◌≤◌, ◌<◌, ◌≡◌, ◌≢◌, refl, ◌∙◌, sym, ap, arith, Bool, true, false,
  inl, inr, Bool-cases, u64, ◌==◌, ◌||◌,
}
use arcane_os.Mm.Page.{page_size, get_addr_from_page, higher_half}
use arcane_os.Mm.Pmm.{Pmm, pmm_free}
use arcane_os.Mm.Pmm.Bitmap.{IsBytes, is_free}
use arcane_os.Mm.Pmm.Scan.{pmm_free-is_free}
use arcane_os.Arch.Mmu.{Machine, mmu_get_page, get_from, slot, get_level}
use arcane_os.Mm.Vmm.{free_pages}

-- What the allocator holds is not part of what a look-up reads.
pub get_from-pmm :
    (l current virt : ℕ) (m : Machine) (p : Pmm)
    → get_from l current virt (record m { pmm = p }) ≡ get_from l current virt m
unfolding get_from
get_from-pmm zero current virt m p = refl
get_from-pmm (suc l) current virt m p =
    let next = m.cells (slot current (get_level virt (suc l))) in
    let rest = get_from-pmm l (higher_half m.hhdm (get_addr_from_page next)) virt m p in
    rw rest refl

module _ (top base : ℕ) (m : Machine) where
  -- The entry that the tables hold for page `j` of the region.
  abbrev pub page_at : ℕ → ℕ
  page_at j = mmu_get_page top (u64 (base + u64 (j * page_size))) m

  -- `q` is the frame of one of the `n` pages from page `i` on.
  unfoldable pub frame_among : (n i q : ℕ) → Bool
  frame_among zero i q = false
  frame_among (suc n) i q =
      (get_addr_from_page (page_at i) / page_size == q) || frame_among n (i + 1) q

  -- The state is `m` with another bitmap, of bytes.
  pub record Same (m' : Machine) : Type 0 where
    pub cells : m'.cells ≡ m.cells
    pub hhdm : m'.hhdm ≡ m.hhdm
    pub looks : (v : ℕ) → mmu_get_page top v m' ≡ mmu_get_page top v m
    pub bytes : IsBytes m'.pmm.bitmap

  -- The frames of the first `n` pages from page `i` on are free in `t`, and the others as in `s`.
  abbrev pub Given : (n i : ℕ) (s t : Machine) → Type 0
  Given n i s t = (q : ℕ) → is_free t.pmm q ≡ (frame_among n i q || is_free s.pmm q)

  pub data Stops (n i : ℕ) (s : Machine) : Bool × Machine → Type 0 where
    at_end :
        {t : Machine}
        → ((j : ℕ) → i ≤ j → j < i + n → page_at j ≢ 0)
        → Same t
        → Given n i s t
        → Stops n i s (true, t)
    at_hole :
        {t : Machine}
        → (d : ℕ) → d < n
        → page_at (i + d) ≡ 0
        → ((j : ℕ) → i ≤ j → j < i + d → page_at j ≢ 0)
        → Same t
        → Given d i s t
        → Stops n i s (false, t)

  freed_one : (i : ℕ) → Machine → Machine
  freed_one i s = record s { pmm = pmm_free s.pmm (get_addr_from_page (page_at i)) }

  freed_one-Same : (i : ℕ) (s : Machine) → Same s → Same (freed_one i s)
  unfolding freed_one mmu_get_page
  freed_one-Same i s same =
      let p : Pmm = pmm_free s.pmm (get_addr_from_page (page_at i)) in
      record {
        cells = same.cells;
        hhdm = same.hhdm;
        looks = λ v. get_from-pmm 3 top v s p ∙ same.looks v;
        bytes = (pmm_free-is_free s.pmm (get_addr_from_page (page_at i)) 0 same.bytes).2;
      }

  Given-cons :
      (n i : ℕ) (s t : Machine)
      → IsBytes s.pmm.bitmap
      → Given n (i + 1) (freed_one i s) t
      → Given (suc n) i s t
  unfolding freed_one frame_among
  Given-cons n i s t bytes rest q =
      let one = (pmm_free-is_free s.pmm (get_addr_from_page (page_at i)) q bytes).0 in
      ground (arith, rest q, one)

  mapped_from :
      (i d : ℕ)
      → page_at i ≢ 0
      → ((j : ℕ) → i + 1 ≤ j → j < i + 1 + d → page_at j ≢ 0)
      → (j : ℕ) → i ≤ j
      → j < i + suc d
      → page_at j ≢ 0
  mapped_from i d here rest j le lt = elim (Bool-cases (j == i)) [
    | inl e ↦ λ h. let at : j ≡ i = ground arith in here (ap (λ k. page_at k) (sym at) ∙ h)
    | inr ne ↦ rest j (ground arith) (omega arith)
  ]

  Stops-cons :
      (n i : ℕ) (s : Machine) (r : Bool × Machine)
      → page_at i ≢ 0
      → IsBytes s.pmm.bitmap
      → Stops n (i + 1) (freed_one i s) r
      → Stops (suc n) i s r
  Stops-cons n i s (true, t) here bytes (at_end all same given) =
      at_end (mapped_from i n here all) same (Given-cons n i s t bytes given)
  Stops-cons n i s (false, t) here bytes (at_hole d lt hole before same given) =
      let up : i + suc d ≡ i + 1 + d = omega arith in
      at_hole (suc d) (omega arith) (ap (λ k. page_at k) up ∙ hole) (mapped_from i d here before)
        same (Given-cons d i s t bytes given)

  pub free_pages-Stops : (n i : ℕ) (s : Machine) → Same s → Stops n i s (free_pages n i top base s)
  unfolding free_pages freed_one frame_among
  free_pages-Stops zero i s same = at_end (λ j le lt. absurd (omega arith)) same (λ q. refl)
  free_pages-Stops (suc n) i s same =
      let look = same.looks (u64 (base + u64 (i * page_size))) in
      elim (Bool-cases (page_at i == 0)) [
        | inl hole ↦
            let at : page_at (i + 0) ≡ 0 = ground arith in
            rw (look, hole)
              (at_hole 0 (omega arith) at (λ j le lt. absurd (omega arith)) same (λ q. refl))
        | inr here ↦
            rw (look, here)
              (Stops-cons n i s _ (ground arith) same.bytes
                (free_pages-Stops n (i + 1) (freed_one i s) (freed_one-Same i s same)))
      ]
