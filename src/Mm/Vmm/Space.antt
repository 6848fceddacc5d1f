-- ===== src/Mm/Vmm/Space.antt =====
-- An address space before and after vmm_alloc.
use mathlib.Core.Path.{subst}
use mathlib.Core.Bool.{true≢false}
use arcane_os.Prelude.{
  ℕ, suc, ◌+◌, ◌*◌, ◌^◌, ◌≤◌, ◌<◌, ◌≡◌, refl, ◌∙◌, sym, ap, arith, true, false, Bool-cases, inl,
  inr, some, List, [], ◌∷◌, ◌++◌, length, u64, write, write_self, write-ne,
}
use arcane_os.Prelude.State.{>>=-run, ◌>>=◌, gets}
use arcane_os.Mm.Page.{page_size, higher_half}
use arcane_os.Mm.Pmm.{Pmm}
use arcane_os.Mm.Pmm.Bitmap.{is_free}
use arcane_os.Mm.Pmm.Scan.{Allocates, Supply, Supply-pmm_alloc}
use arcane_os.Rings.{Links, set_next, set_prev}
use arcane_os.Rings.Seg.{NotIn, Ring, Seg-frame, NotIn-append}
use arcane_os.Arch.Mmu.{Machine}
use arcane_os.Arch.Mmu.Tree.{at, Tab, IsTree}
use arcane_os.Arch.Mmu.Step.{Reachable}
use arcane_os.Mm.Vmm.{
  Vmm, take_frame, find_gap, search_gap, found, end_of, region_limit, map_pages, place_region,
  vmm_alloc, vmm_insert, vmm_new_region,
}
use arcane_os.Mm.Vmm.Search.{limit, Spaced, has_gap, first_fit, find_gap-first_fit, limit-end_of}
use arcane_os.Mm.Vmm.Regions.{placed, placed-Behind, vmm_insert-Ring, Fitted, placed-Spaced}
use arcane_os.Mm.Vmm.Pages.{Paged, map_pages-Paged, Allocates-IsTree}

-- The region objects lie at the start of taken pages.
unfoldable pub Owned : Machine → List ℕ → Type 0
Owned m [] = Unit {0}
Owned m (x ∷ xs) = ((q : ℕ) × (x ≡ at m.hhdm q) × (is_free m.pmm q ≡ false)) × Owned m xs

-- The address space at `pagemap`, with its root table on page `root` and the regions `h ∷ xs`.
pub record IsSpace (s : Vmm) (pagemap root h : ℕ) (xs : List ℕ) : Type 0 where
  pub head : s.region_head pagemap ≡ h
  pub ring : Ring s.links h xs
  pub spaced : Spaced s h xs
  pub owned : Owned s.machine (h ∷ xs)
  pub top : s.top_level pagemap ≡ at s.machine.hhdm root
  pub tables : Tab
  pub tree : IsTree s.machine root tables

-- A free page holds no region.
Owned-NotIn :
    (m : Machine) (p : ℕ) (xs : List ℕ)
    → is_free m.pmm p ≡ true
    → Owned m xs
    → NotIn (at m.hhdm p) xs
unfolding Owned NotIn
Owned-NotIn m p [] free owned = tt
Owned-NotIn m p (x ∷ xs) free ((q, e, busy), owned) = (
  λ same.
      let here : p ≡ q = omega (arith, same ∙ e) in
      true≢false (sym free ∙ ap (is_free m.pmm) here ∙ busy),
  Owned-NotIn m p xs free owned,
)

-- Regions keep their pages while no page is given back.
Owned-mono :
    (m m' : Machine) (xs : List ℕ)
    → m'.hhdm ≡ m.hhdm
    → ((q : ℕ) → is_free m.pmm q ≡ false → is_free m'.pmm q ≡ false)
    → Owned m xs
    → Owned m' xs
unfolding Owned
Owned-mono m m' [] same keep owned = tt
Owned-mono m m' (x ∷ xs) same keep ((q, e, busy), owned) =
    ((q, e ∙ ap (λ h. at h q) (sym same), keep q busy), Owned-mono m m' xs same keep owned)

Owned-append : (m : Machine) (xs ys : List ℕ) → Owned m xs → Owned m ys → Owned m (xs ++ ys)
unfolding Owned
Owned-append m [] ys a b = b
Owned-append m (x ∷ xs) ys (e, a) b = (e, Owned-append m xs ys a b)

-- The fields of a node that is in no ring may change.
Ring-touch :
    (l : Links) (h n a b : ℕ) (xs : List ℕ)
    → Ring l h xs
    → NotIn n (h ∷ xs)
    → Ring (set_next n a (set_prev n b l)) h xs
unfolding NotIn
Ring-touch l h n a b xs ring (nh, nxs) = record {
  around =
      Seg-frame l (set_next n a (set_prev n b l)) h xs h n n n
        (λ x e f. write-ne l.next a (λ s. e (sym s))) (λ x e f. write-ne l.prev b (λ s. e (sym s)))
        (nh, nxs) (nh, nxs) (NotIn-append n xs (h ∷ []) nxs (nh, tt))
        (NotIn-append n xs (h ∷ []) nxs (nh, tt)) ring.around;
  distinct = ring.distinct;
}

-- The state after vmm_new_region, with the page `p` taken.
abbrev pub with_region : Vmm → Pmm → (n base pages : ℕ) → Vmm
with_region s pmm n base pages = record s {
  machine = record s.machine { pmm = pmm };
  base_of = write s.base_of n base;
  pages_of = write s.pages_of n pages;
  links = set_next n 0 (set_prev n 0 s.links);
}

-- The state from which the pages of the new region are mapped.
abbrev pub with_new : Vmm → Pmm → (n p pages : ℕ) → Vmm
with_new s pmm n p pages = record (with_region s pmm n (limit s p) pages) {
  links = vmm_insert p n (with_region s pmm n (limit s p) pages).links;
}

vmm_new_region-run :
    (s : Vmm) (pmm : Pmm) (p base pages : ℕ)
    → Allocates s.machine.pmm p pmm
    → s.machine.hhdm + p * 4096 < 2 ^ 64
    → vmm_new_region base pages s
      ≡ some (at s.machine.hhdm p, with_region s pmm (at s.machine.hhdm p) base pages)
unfolding vmm_new_region take_frame higher_half
vmm_new_region-run s pmm p base pages got fits =
    let takes : take_frame s
        ≡ some (p * page_size, record s { machine = record s.machine { pmm = pmm } }) =
      rw (take_frame, got.returns) refl in
    let there : u64 (p * page_size + s.machine.hhdm) ≡ at s.machine.hhdm p = omega arith in
    >>=-run take_frame _ takes ∙ ap (λ n. some (n, with_region s pmm n base pages)) there

Owned-placed :
    (s : Vmm) (m : Machine) (pages n r : ℕ) (xs : List ℕ)
    → Owned m (n ∷ [])
    → Owned m xs
    → Owned m (placed s pages n r xs)
unfolding Owned placed
Owned-placed s m pages n r [] new owned = new
Owned-placed s m pages n r (x ∷ xs) (new, _) (e, owned) = elim (Bool-cases (has_gap s pages r x)) [
  | inl gap ↦ rw (placed, gap) (new, (e, owned))
  | inr full ↦ rw (placed, full) (e, Owned-placed s m pages n x xs (new, tt) owned)
]

-- What vmm_alloc returns and leaves: the base is the end of the first fit, the new region `n` stands
-- behind it in a well-formed address space, and its pages are mapped to frames of their own, from a
-- state `between` with the memory of `s`.
pub record Allocated (s t : Vmm) (pagemap root h : ℕ) (xs : List ℕ) (lim k pages flags : ℕ)
    : Type 0 where
  pub n : ℕ
  pub space : IsSpace t pagemap root h (placed s pages n h xs)
  pub base : t.base_of n ≡ limit s (first_fit s pages h xs)
  pub size : t.pages_of n ≡ pages
  pub between : Vmm
  pub memory : between.machine ≡ record s.machine { pmm = between.machine.pmm }
  pub paged : Paged between t root lim k 0 pages (limit s (first_fit s pages h xs)) flags

find-run :
    (s : Vmm) (pagemap root h pages : ℕ) (xs : List ℕ)
    → IsSpace s pagemap root h xs
    → pages * page_size < 2 ^ 64
    → length xs < region_limit
    → search_gap pagemap pages s ≡ some (first_fit s pages h xs, s)
unfolding search_gap
find-run s pagemap root h pages xs space small few =
    ap (λ o. found o s)
      (ap (λ x. find_gap region_limit x x pages s) space.head
        ∙ find_gap-first_fit region_limit h pages xs s space.ring space.spaced small few)

allocated :
    (s t : Vmm) (pmm : Pmm) (pagemap root h : ℕ) (xs : List ℕ) (lim k pages flags q : ℕ)
    → IsSpace s pagemap root h xs
    → Allocates s.machine.pmm q pmm
    → NotIn (at s.machine.hhdm q) (h ∷ xs)
    → limit s (first_fit s pages h xs) + pages * page_size < 2 ^ 64
    → Paged
        (with_new s pmm (at s.machine.hhdm q) (first_fit s pages h xs) pages)
        t
        root
        lim
        k
        0
        pages
        (limit s (first_fit s pages h xs))
        flags
    → Allocated s t pagemap root h xs lim k pages flags
unfolding Owned
allocated s t pmm pagemap root h xs lim k pages flags q space got away room paged =
    let p = first_fit s pages h xs in
    let n = at s.machine.hhdm q in
    let s2 = with_new s pmm n p pages in
    let touched = Ring-touch s.links h n 0 0 xs space.ring away in
    let ring =
      vmm_insert-Ring (with_region s pmm n (limit s p) pages).links h n p xs _ touched away
        (placed-Behind s pages n h xs) in
    let base : t.base_of n ≡ limit s p =
      ap (λ (x : Vmm). x.base_of n) paged.only ∙ write_self s.base_of n (limit s p) in
    let size : t.pages_of n ≡ pages =
      ap (λ (x : Vmm). x.pages_of n) paged.only ∙ write_self s.pages_of n pages in
    let keep : (r : ℕ) → is_free s.machine.pmm r ≡ false → is_free t.machine.pmm r ≡ false =
      λ r busy. paged.shrinks r (ground (arith, got.view r, busy)) in
    let fit : Fitted s t pages n p = record {
      same = λ x ne. (
        ap (λ (y : Vmm). y.base_of x) paged.only ∙ write-ne s.base_of (limit s p) (λ e. ne (sym e)),
        ap (λ (y : Vmm). y.pages_of x) paged.only ∙ write-ne s.pages_of pages (λ e. ne (sym e)),
      );
      base = base;
      size = size;
      room = room;
    } in
    let (eh, exs) = Owned-mono s.machine t.machine (h ∷ xs) paged.offset keep space.owned in
    let held : is_free t.machine.pmm q ≡ false = paged.shrinks q (ground (arith, got.view q)) in
    let owned : Owned t.machine (h ∷ placed s pages n h xs) = (
      eh,
      Owned-placed s t.machine pages n h xs ((q, ap (λ o. at o q) (sym paged.offset), held), tt)
          exs,
    ) in
    record {
      n = n;
      space = record {
        head = ap (λ (x : Vmm). x.region_head pagemap) paged.only ∙ space.head;
        ring = subst (λ (x : Vmm). Ring x.links h (placed s pages n h xs)) (sym paged.only) ring;
        spaced = placed-Spaced s t pages n h xs space.spaced away fit;
        owned = owned;
        top =
            ap (λ (x : Vmm). x.top_level pagemap) paged.only
            ∙ space.top
            ∙ ap (λ o. at o root) (sym paged.offset);
        tables = paged.tables;
        tree = paged.tree;
      };
      base = base;
      size = size;
      between = s2;
      memory = refl;
      paged = paged;
    }

place_region-Allocated :
    (s : Vmm) {lim : ℕ} (pagemap root h pages flags k : ℕ) (xs : List ℕ)
    → IsSpace s pagemap root h xs
    → Reachable s.machine lim
    → Supply lim s.machine.pmm s.machine.pmm.last_free (suc (pages * 4 + k))
    → pages ≤ 2 ^ 36
    → limit s (first_fit s pages h xs) + pages * page_size < 2 ^ 64
    → (t : Vmm) × (place_region pagemap
          (first_fit s pages h xs)
          (limit s (first_fit s pages h xs))
          pages
          flags
          s
        ≡ some (limit s (first_fit s pages h xs), t))
      × Allocated s t pagemap root h xs lim k pages flags
unfolding place_region
place_region-Allocated s {lim} pagemap root h pages flags k xs space reach supply small room =
    let p = first_fit s pages h xs in
    let base = limit s p in
    let (q, pmm, got, lt, rest) =
      Supply-pmm_alloc {s = s.machine.pmm} lim (pages * 4 + k) space.tree.bytes
        (omega (arith, reach.named)) supply in
    let n = at s.machine.hhdm q in
    let mapped : s.machine.hhdm + q * 4096 < 2 ^ 64 = omega (arith, reach.mapped) in
    let new = vmm_new_region-run s pmm q base pages got mapped in
    let away = Owned-NotIn s.machine q (h ∷ xs) got.first.free space.owned in
    let s2 = with_new s pmm n p pages in
    let tree = Allocates-IsTree space.tree got in
    let reach' : Reachable s2.machine lim = record { named = reach.named; mapped = reach.mapped } in
    let (t, maps, paged) =
      map_pages-Paged pages 0 s2 {lim = lim} pagemap base flags k space.top tree reach' rest
        (omega arith) (omega arith) in
    (
      t,
      >>=-run (vmm_new_region base pages) _ new
          ∙ >>=-run (map_pages pages 0 pagemap base flags) _ maps,
      allocated s t pmm pagemap root h xs lim k pages flags q space got away room paged,
    )

-- In a well-formed address space of fewer than 2 ^ 52 regions, with room behind the first fit and
-- with a page and four more for each page of the region at hand, vmm_alloc returns the end of the
-- first fit and leaves a well-formed address space that has the new region there.
pub vmm_alloc-Allocated :
    (s : Vmm) {lim : ℕ} (pagemap root h pages flags k : ℕ) (xs : List ℕ)
    → IsSpace s pagemap root h xs
    → Reachable s.machine lim
    → Supply lim s.machine.pmm s.machine.pmm.last_free (suc (pages * 4 + k))
    → length xs < region_limit
    → pages ≤ 2 ^ 36
    → limit s (first_fit s pages h xs) + pages * page_size < 2 ^ 64
    → (t : Vmm) × (vmm_alloc pagemap pages flags s ≡ some (limit s (first_fit s pages h xs), t))
      × Allocated s t pagemap root h xs lim k pages flags
unfolding vmm_alloc
vmm_alloc-Allocated s pagemap root h pages flags k xs space reach supply few small room =
    let p = first_fit s pages h xs in
    let (t, placed_at, done) =
      place_region-Allocated s pagemap root h pages flags k xs space reach supply small room in
    (
      t,
      >>=-run (search_gap pagemap pages)
            (λ r. gets (λ x. end_of x r) >>= λ b. place_region pagemap r b pages flags) {s = s}
            {t = s} {a = p} (find-run s pagemap root h pages xs space (omega arith) few)
          ∙ ap (λ b. place_region pagemap p b pages flags s) (limit-end_of s p (omega arith))
          ∙ placed_at,
      done,
    )
