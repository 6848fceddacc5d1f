-- ===== src/Mm/Vmm/Free.antt =====
-- What vmm_free leaves.
use arcane_os.Prelude.{
  ℕ, ◌+◌, ◌/◌, ◌<◌, ◌≡◌, ◌≢◌, refl, ◌∙◌, sym, ap, true, false, Bool, not, some, List, ◌∷◌, ◌++◌,
  length, ◌==◌, ◌||◌, ==_refl, ne→==, arith,
}
use arcane_os.Prelude.State.{>>=-run, ◌>>=◌, gets, when}
use arcane_os.Rings.{Links}
use arcane_os.Rings.Seg.{Distinct, NotIn, Ring, NotIn-split}
use arcane_os.Mm.Page.{page_size, lower_half}
use arcane_os.Mm.Pmm.{Pmm, pmm_free}
use arcane_os.Mm.Pmm.Bitmap.{IsBytes, is_free}
use arcane_os.Mm.Pmm.Scan.{pmm_free-is_free}
use arcane_os.Arch.Mmu.{Machine, mmu_get_page}
use arcane_os.Mm.Vmm.Frames.{
  Stops, page_at, frame_among, at_end, at_hole, free_pages-Stops, get_from-pmm,
}
use arcane_os.Mm.Vmm.{
  Vmm, find_region, found, region_limit, search_region, free_region, free_pages, remove_region,
  unlink, vmm_free,
}
use arcane_os.Mm.Vmm.Search.{first_at, find_region-first_at}
use arcane_os.Mm.Vmm.Regions.{unlink-Ring}

behind : {l : Links} (h n : ℕ) (us vs : List ℕ) → Ring l h (us ++ n ∷ vs) → n ≢ h
unfolding NotIn Distinct
behind h n us vs ring same = (NotIn-split h us (n ∷ vs) ring.distinct.0).1.0 (sym same)

search_region-run :
    (s : Vmm) (pagemap h base : ℕ) (xs : List ℕ)
    → s.region_head pagemap ≡ h
    → Ring s.links h xs
    → length xs < region_limit
    → search_region pagemap base s ≡ some (first_at s base h xs, s)
unfolding search_region Distinct
search_region-run s pagemap h base xs head ring few =
    ap (λ o. found o s)
      (ap (λ k. find_region region_limit k (s.links.next k) base s) head
        ∙ find_region-first_at region_limit h h base xs s ring.around ring.distinct.0 few)

-- Where no region but the head begins at the address, vmm_free changes nothing.
pub vmm_free-absent :
    (s : Vmm) (pagemap h ptr : ℕ) (xs : List ℕ)
    → s.region_head pagemap ≡ h
    → Ring s.links h xs
    → length xs < region_limit
    → first_at s ptr h xs ≡ h
    → vmm_free pagemap ptr s ≡ some (tt, s)
unfolding vmm_free
vmm_free-absent s pagemap h ptr xs head ring few none =
    >>=-run (search_region pagemap ptr)
      (λ r.
        gets (λ x. x.region_head pagemap) >>= λ k. when (not (r == k)) (free_region pagemap r ptr))
      {s = s} {t = s} {a = h}
      (search_region-run s pagemap h ptr xs head ring few ∙ ap (λ r. some (r, s)) none)
    ∙ ap (λ k. when (not (h == k)) (free_region pagemap h ptr) s) head
    ∙ ap (λ b. when (not b) (free_region pagemap h ptr) s) (==_refl h)

-- What vmm_free leaves of a region `n` of `pages` pages at `ptr`, the ring being `us`, `n`, `vs`
-- before, with every address mapped as it was. If all pages are mapped, the region is out of the
-- ring, and the frames of its pages and the frame of the region object are free now. Otherwise the
-- ring is as before, and only the frames of the pages before the first one missing are free now.
pub data Freed (s t : Vmm) (top h ptr n : ℕ) (us vs : List ℕ) : Type 0 where
  whole :
      ((j : ℕ) → j < s.pages_of n → page_at top ptr s.machine j ≢ 0)
      → Ring t.links h (us ++ vs)
      → ((q : ℕ)
          → is_free t.machine.pmm q ≡ (
              (lower_half s.machine.hhdm n / page_size == q)
              || (frame_among top ptr s.machine (s.pages_of n) 0 q || is_free s.machine.pmm q)))
      → ((v : ℕ) → mmu_get_page top v t.machine ≡ mmu_get_page top v s.machine)
      → Freed s t top h ptr n us vs
  broken_off :
      (k : ℕ)
      → k < s.pages_of n
      → page_at top ptr s.machine k ≡ 0
      → ((j : ℕ) → j < k → page_at top ptr s.machine j ≢ 0)
      → t.links ≡ s.links
      → ((q : ℕ)
          → is_free t.machine.pmm q
            ≡ (frame_among top ptr s.machine k 0 q || is_free s.machine.pmm q))
      → ((v : ℕ) → mmu_get_page top v t.machine ≡ mmu_get_page top v s.machine)
      → Freed s t top h ptr n us vs

free_region-Freed :
    (s : Vmm) (pagemap h ptr n : ℕ) (us vs : List ℕ)
    → Ring s.links h (us ++ n ∷ vs)
    → IsBytes s.machine.pmm.bitmap
    → (t : Vmm) × (free_region pagemap n ptr s ≡ some (tt, t))
      × Freed s t (s.top_level pagemap) h ptr n us vs
unfolding free_region remove_region mmu_get_page
free_region-Freed s pagemap h ptr n us vs ring bytes =
    go (free_pages (s.pages_of n) 0 top ptr s.machine) (
      free_pages-Stops top ptr s.machine (s.pages_of n) 0 s.machine
        (record { cells = refl; hhdm = refl; looks = λ v. refl; bytes = bytes }))
  where
    top : ℕ
    top = s.top_level pagemap

    go :
        (r : Bool × Machine)
        → Stops top ptr s.machine (s.pages_of n) 0 s.machine r
        → (t : Vmm) × (when r.0 (remove_region n) (record s { machine = r.1 }) ≡ some (tt, t))
          × Freed s t top h ptr n us vs
    go (true, m) (at_end all same given) =
        let addr = lower_half m.hhdm n in
        let addr_here : addr ≡ lower_half s.machine.hhdm n = ap (λ o. lower_half o n) same.hhdm in
        let p : Pmm = pmm_free m.pmm addr in
        let one = λ (q : ℕ). (pmm_free-is_free m.pmm addr q same.bytes).0 in
        (
          record s { links = unlink n s.links; machine = record m { pmm = p } },
          refl,
          whole (λ j lt. all j (omega arith) (omega arith)) (unlink-Ring s.links h n us vs ring)
              (λ q. ground (arith, one q, given q, addr_here))
              (λ v. get_from-pmm 3 top v m p ∙ same.looks v),
        )
    go (false, m) (at_hole d lt hole before same given) =
        let zero_add : d ≡ 0 + d = omega arith in
        (
          record s { machine = m },
          refl,
          broken_off d lt (ap (λ k. page_at top ptr s.machine k) zero_add ∙ hole)
              (λ j below. before j (omega arith) (omega arith)) refl given same.looks,
        )

-- Where `n` is the first region of the ring that begins at `ptr`, and the ring has fewer than
-- 2 ^ 52 regions, vmm_free returns. If all pages of the region are mapped, it takes the region out
-- of the ring and frees the frames of its pages and that of the region object. If one is missing,
-- it frees the frames of the pages before the first one missing and leaves the ring as it was. No
-- other frame changes in either case, and every address is mapped as before.
pub vmm_free-Freed :
    (s : Vmm) (pagemap h ptr n : ℕ) (us vs : List ℕ)
    → s.region_head pagemap ≡ h
    → Ring s.links h (us ++ n ∷ vs)
    → length (us ++ n ∷ vs) < region_limit
    → first_at s ptr h (us ++ n ∷ vs) ≡ n
    → IsBytes s.machine.pmm.bitmap
    → (t : Vmm) × (vmm_free pagemap ptr s ≡ some (tt, t))
      × Freed s t (s.top_level pagemap) h ptr n us vs
unfolding vmm_free
vmm_free-Freed s pagemap h ptr n us vs head ring few here bytes =
    let (t, returns, left) = free_region-Freed s pagemap h ptr n us vs ring bytes in
    (
      t,
      >>=-run (search_region pagemap ptr)
            (λ r. gets (λ x. x.region_head pagemap) >>= λ k.
              when (not (r == k)) (free_region pagemap r ptr))
            {s = s} {t = s} {a = n}
            (search_region-run s pagemap h ptr (us ++ n ∷ vs) head ring few
              ∙ ap (λ r. some (r, s)) here)
          ∙ ap (λ k. when (not (n == k)) (free_region pagemap n ptr) s) head
          ∙ ap (λ b. when (not b) (free_region pagemap n ptr) s) (ne→== n h (behind h n us vs ring))
          ∙ returns,
      left,
    )
