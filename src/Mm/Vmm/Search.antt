-- ===== src/Mm/Vmm/Search.antt =====
-- The searches of vmm_alloc and vmm_free against searches of a list.
use arcane_os.Prelude.{
  ℕ, zero, suc, ◌+◌, ◌-◌, ◌*◌, ◌^◌, ◌≤◌, ◌<◌, ◌≡◌, ◌≢◌, refl, ◌∙◌, sym, ap, arith, Bool, true,
  false, some, List, [], ◌∷◌, length, u64, sub64, ltb, leb, ◌&&◌, ◌==◌, if◌then◌else◌, ne→==,
  ==_refl,
}
use arcane_os.Mm.Page.{page_size}
use arcane_os.Rings.Seg.{Seg, NotIn, Distinct, Ring}
use arcane_os.Mm.Vmm.{Vmm, find_gap, find_region, end_of}

-- The first address behind a region.
abbrev pub limit : Vmm → ℕ → ℕ
limit s r = s.base_of r + s.pages_of r * page_size

-- From `r` on the regions are in order of address, none overlaps the next, and all end below
-- `2 ^ 64`.
unfoldable pub Spaced : Vmm → ℕ → List ℕ → Type 0
Spaced s r [] = limit s r < 2 ^ 64
Spaced s r (x ∷ xs) = (limit s r ≤ s.base_of x) × (s.base_of x < 2 ^ 64) × Spaced s x xs

-- Whether there is a gap of `pages` between `r` and `x`.
abbrev pub has_gap : Vmm → (pages r x : ℕ) → Bool
has_gap s pages r x =
    ltb (limit s r) (s.base_of x) && leb (limit s r + pages * page_size) (s.base_of x)

-- First fit: the region before the first gap that is wide enough, or the last one.
unfoldable pub first_fit : Vmm → (pages r : ℕ) → List ℕ → ℕ
first_fit s pages r [] = r
first_fit s pages r (x ∷ xs) =
    let rest = first_fit s pages x xs in if has_gap s pages r x then r else rest

pub limit-end_of : (s : Vmm) (r : ℕ) → limit s r < 2 ^ 64 → end_of s r ≡ limit s r
unfolding end_of
limit-end_of s r lt = omega arith

find_gap-more :
    (fuel head r x pages : ℕ) (s : Vmm)
    → s.links.next r ≡ x
    → x ≢ head
    → limit s r ≤ s.base_of x
    → s.base_of x < 2 ^ 64
    → pages * page_size < 2 ^ 64
    → find_gap (suc fuel) head r pages s
      ≡ (if has_gap s pages r x then some r else find_gap fuel head x pages s)
unfolding find_gap
find_gap-more fuel head r x pages s e ne le lt small =
    let there = limit-end_of s r (omega arith) in
    let size : u64 (pages * page_size) ≡ pages * page_size = omega arith in
    let other = ne→== x head ne in
    let gap : sub64 (s.base_of x) (limit s r) ≡ s.base_of x - limit s r = omega arith in
    rw (e, find_gap, there, size, gap, other) (ground arith)

if-some : (c : Bool) (a b : ℕ) → (if c then some a else some b) ≡ some (if c then a else b)
if-some true a b = refl
if-some false a b = refl

-- In a ring of spaced regions the loop of vmm_alloc ends, at the first fit.
find_gap-Seg :
    (fuel head r pages : ℕ) (xs : List ℕ) (s : Vmm)
    → Seg s.links r xs head
    → NotIn head xs
    → Spaced s r xs
    → pages * page_size < 2 ^ 64
    → length xs < fuel
    → find_gap fuel head r pages s ≡ some (first_fit s pages r xs)
unfolding Seg NotIn Spaced first_fit find_gap
find_gap-Seg zero head r pages xs s seg away spaced small lt = absurd (omega arith)
find_gap-Seg (suc fuel) head r pages [] s (e, f) away spaced small lt =
    let last : (s.links.next r == head) ≡ true = rw e (==_refl head) in rw (find_gap, last) refl
find_gap-Seg (suc fuel) head r pages (x ∷ xs) s (e, f, seg) (hx, away) (le, fits, spaced) small lt =
    find_gap-more fuel head r x pages s e (λ h. hx (sym h)) le fits small
    ∙ ap (λ o. if has_gap s pages r x then some r else o)
        (find_gap-Seg fuel head x pages xs s seg away spaced small (omega arith))
    ∙ if-some (has_gap s pages r x) r (first_fit s pages x xs)

-- On a ring of spaced regions, of fewer than 2 ^ 52, the search of vmm_alloc from the head returns
-- what a first-fit search of the list of regions finds.
pub find_gap-first_fit :
    (fuel head pages : ℕ) (xs : List ℕ) (s : Vmm)
    → Ring s.links head xs
    → Spaced s head xs
    → pages * page_size < 2 ^ 64
    → length xs < fuel
    → find_gap fuel head head pages s ≡ some (first_fit s pages head xs)
unfolding Distinct
find_gap-first_fit fuel head pages xs s ring spaced small lt =
    find_gap-Seg fuel head head pages xs s ring.around ring.distinct.0 spaced small lt

-- The first region of a list that begins at an address, or the head.
unfoldable pub first_at : Vmm → (base head : ℕ) → List ℕ → ℕ
first_at s base head [] = head
first_at s base head (x ∷ xs) =
    let rest = first_at s base head xs in if s.base_of x == base then x else rest

pub find_region-first_at :
    (fuel head r base : ℕ) (xs : List ℕ) (s : Vmm)
    → Seg s.links r xs head
    → NotIn head xs
    → length xs < fuel
    → find_region fuel head (s.links.next r) base s ≡ some (first_at s base head xs)
unfolding Seg NotIn first_at find_region
find_region-first_at zero head r base xs s seg away lt = absurd (omega arith)
find_region-first_at (suc fuel) head r base [] s (e, f) away lt =
    rw (e, find_region, ==_refl head) refl
find_region-first_at (suc fuel) head r base (x ∷ xs) s (e, f, seg) (hx, away) lt =
    let other : (x == head) ≡ false = ne→== x head (λ h. hx (sym h)) in
    let rest = find_region-first_at fuel head x base xs s seg away (omega arith) in
    rw (e, find_region, other, rest) (if-some (s.base_of x == base) x (first_at s base head xs))
