-- ===== src/Mm/Vmm/Regions.antt =====
-- The ring of regions after a region is added or taken out, and that it stays spaced.
use mathlib.Core.Path.{subst}
use arcane_os.Prelude.{
  ℕ, ◌+◌, ◌*◌, ◌^◌, ◌≤◌, ◌<◌, ◌≡◌, ◌≢◌, ◌⊎◌, inl, inr, refl, ◌∙◌, sym, ap, arith, Bool-cases, List,
  [], ◌∷◌, ◌++◌, if◌then◌else◌, write, write-ne,
}
use arcane_os.Mm.Page.{page_size}
use arcane_os.Rings.{Links}
use arcane_os.Rings.Seg.{NotIn, Ring, Ring-rotate, NotIn-split, NotIn-append}
use arcane_os.Rings.Link.{linked, joined, Ring-linked, Ring-Unlinked}
use arcane_os.Mm.Vmm.{Vmm, vmm_insert, unlink}
use arcane_os.Mm.Vmm.Search.{limit, Spaced, has_gap, first_fit}

-- The list of regions behind `r`, with `n` added behind the first fit.
unfoldable pub placed : Vmm → (pages n r : ℕ) → List ℕ → List ℕ
placed s pages n r [] = n ∷ []
placed s pages n r (x ∷ xs) =
    let rest = placed s pages n x xs in if has_gap s pages r x then n ∷ x ∷ xs else x ∷ rest

-- Where the new region stands: behind `r`, or behind a later one.
abbrev pub Behind : (n p r : ℕ) → (xs ys : List ℕ) → Type 0
Behind n p r xs ys =
    ((p ≡ r) × (ys ≡ n ∷ xs)) ⊎ ((us vs : List ℕ) × (xs ≡ us ++ p ∷ vs) × (ys ≡ us ++ p ∷ n ∷ vs))

Behind-cons : (n p r x : ℕ) (xs ys : List ℕ) → Behind n p x xs ys → Behind n p r (x ∷ xs) (x ∷ ys)
Behind-cons n p r x xs ys (inl (e, f)) =
    inr ([], xs, ap (λ y. y ∷ xs) (sym e), ap (λ z. x ∷ z) f ∙ ap (λ y. y ∷ n ∷ xs) (sym e))
Behind-cons n p r x xs ys (inr (us, vs, e, f)) =
    inr (x ∷ us, vs, ap (λ z. x ∷ z) e, ap (λ z. x ∷ z) f)

pub placed-Behind :
    (s : Vmm) (pages n r : ℕ) (xs : List ℕ)
    → Behind n (first_fit s pages r xs) r xs (placed s pages n r xs)
unfolding placed first_fit
placed-Behind s pages n r [] = inl (refl, refl)
placed-Behind s pages n r (x ∷ xs) = elim (Bool-cases (has_gap s pages r x)) [
  | inl gap ↦ rw (gap, placed, first_fit) (inl (refl, refl))
  | inr full ↦
      rw (full, placed, first_fit)
        (Behind-cons n (first_fit s pages x xs) r x xs (placed s pages n x xs)
          (placed-Behind s pages n x xs))
]

vmm_insert-linked : (p n : ℕ) (l : Links) → n ≢ p → vmm_insert p n l ≡ linked p n (l.next p) l
unfolding vmm_insert
vmm_insert-linked p n l ne =
    let same : write l.next n (l.next p) p ≡ l.next p = write-ne l.next (l.next p) ne in
    rw same refl

-- vmm_insert links a new region into the ring behind any region of it.
pub vmm_insert-Ring :
    (l : Links) (h n p : ℕ) (xs ys : List ℕ)
    → Ring l h xs
    → NotIn n (h ∷ xs)
    → Behind n p h xs ys
    → Ring (vmm_insert p n l) h ys
unfolding NotIn
vmm_insert-Ring l h n p xs ys ring (nh, nxs) (inl (e, f)) =
    let same = vmm_insert-linked h n l nh in
    subst (λ z. Ring (vmm_insert p n l) h z) (sym f)
      (subst (λ q. Ring (vmm_insert q n l) h (n ∷ xs)) (sym e)
        (subst (λ k. Ring k h (n ∷ xs)) (sym same) (Ring-linked l h n xs ring (nh, nxs))))
vmm_insert-Ring l h n p xs ys ring (nh, nxs) (inr (us, vs, e, f)) =
    let (nus, (np, nvs)) = NotIn-split n us (p ∷ vs) (subst (NotIn n) e nxs) in
    let turned = Ring-rotate l h us p vs (subst (Ring l h) e ring) in
    let away : NotIn n (p ∷ (vs ++ h ∷ us)) = (np, NotIn-append n vs (h ∷ us) nvs (nh, nus)) in
    let inserted = Ring-linked l p n (vs ++ h ∷ us) turned away in
    let l' = linked p n (l.next p) l in
    let back : Ring l' h (us ++ p ∷ n ∷ vs) = Ring-rotate l' p (n ∷ vs) h us inserted in
    subst (λ k. Ring k h ys) (sym (vmm_insert-linked p n l np)) (subst (Ring l' h) (sym f) back)

unlink-joined : (n : ℕ) (l : Links) → l.prev n ≢ n → unlink n l ≡ joined (l.prev n) (l.next n) l
unlink-joined n l ne =
    let same : write l.next (l.prev n) (l.next n) n ≡ l.next n = write-ne l.next (l.next n) ne in
    rw same refl

-- The two assignments at the end of vmm_free take a region out of the ring.
pub unlink-Ring :
    (l : Links) (h n : ℕ) (us vs : List ℕ)
    → Ring l h (us ++ n ∷ vs)
    → Ring (unlink n l) h (us ++ vs)
unlink-Ring l h n us vs ring =
    let out = Ring-Unlinked l h n us vs ring in
    subst (λ k. Ring k h (us ++ vs)) (sym (unlink-joined n l out.other)) out.ring

-- The bounds of the other regions are left.
Spaced-frame :
    (s t : Vmm) (n r : ℕ) (xs : List ℕ)
    → ((x : ℕ) → x ≢ n → (t.base_of x ≡ s.base_of x) × (t.pages_of x ≡ s.pages_of x))
    → NotIn n (r ∷ xs)
    → Spaced s r xs
    → Spaced t r xs
unfolding Spaced NotIn
Spaced-frame s t n r [] same (nr, _) lt = let (b, p) = same r (λ e. nr (sym e)) in rw (b, p) lt
Spaced-frame s t n r (x ∷ xs) same (nr, (nx, away)) (le, fits, spaced) =
    let (b, p) = same r (λ e. nr (sym e)) in
    let (b', p') = same x (λ e. nx (sym e)) in
    (rw (b, p, b') le, rw b' fits, Spaced-frame s t n x xs same (nx, away) spaced)

-- A region that begins at the end of the first fit and has the pages asked for.
pub record Fitted (s t : Vmm) (pages n p : ℕ) : Type 0 where
  pub same : (x : ℕ) → x ≢ n → (t.base_of x ≡ s.base_of x) × (t.pages_of x ≡ s.pages_of x)
  pub base : t.base_of n ≡ limit s p
  pub size : t.pages_of n ≡ pages
  pub room : limit s p + pages * page_size < 2 ^ 64

-- The regions stay in order and apart when such a region is placed.
pub placed-Spaced :
    (s t : Vmm) (pages n r : ℕ) (xs : List ℕ)
    → Spaced s r xs
    → NotIn n (r ∷ xs)
    → Fitted s t pages n (first_fit s pages r xs)
    → Spaced t r (placed s pages n r xs)
unfolding placed first_fit Spaced NotIn
placed-Spaced s t pages n r [] lt (nr, _) fit =
    let (b, p) = fit.same r (λ e. nr (sym e)) in
    (
      omega (arith, b, ap (λ (k : ℕ). k * 4096) p, fit.base),
      omega (arith, fit.base),
      omega (arith, fit.base, ap (λ (k : ℕ). k * 4096) fit.size, fit.room),
    )
placed-Spaced s t pages n r (x ∷ xs) (le, fits, spaced) (nr, (nx, away)) fit =
    let (b, p) = fit.same r (λ e. nr (sym e)) in
    let (b', p') = fit.same x (λ e. nx (sym e)) in
    elim (Bool-cases (has_gap s pages r x)) [
      | inl gap ↦
          let at_r : first_fit s pages r (x ∷ xs) ≡ r = rw (first_fit, gap) refl in
          let base : t.base_of n ≡ limit s r = fit.base ∙ ap (limit s) at_r in
          let wide : limit s r + pages * page_size ≤ s.base_of x = ground (arith, gap) in
          rw (placed, gap)
            (
              omega (arith, b, ap (λ (k : ℕ). k * 4096) p, base),
              omega (arith, base),
              (
                omega (arith, base, ap (λ (k : ℕ). k * 4096) fit.size, b', wide),
                rw b' fits,
                Spaced-frame s t n x xs fit.same (nx, away) spaced,
              ),
            )
      | inr full ↦
          let on : first_fit s pages r (x ∷ xs) ≡ first_fit s pages x xs =
            rw (first_fit, full) refl in
          rw (placed, full)
            (
              rw (b, p, b') le,
              rw b' fits,
              placed-Spaced s t pages n x xs spaced (nx, away) (subst (Fitted s t pages n) on fit),
            )
    ]
