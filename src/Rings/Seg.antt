-- ===== src/Rings/Seg.antt =====
-- Segments of a ring and whole rings as lists of nodes.
use arcane_os.Prelude.{ℕ, ◌≡◌, ◌≢◌, List, [], ◌∷◌, ◌++◌, sym, ◌∙◌}
use arcane_os.Rings.{Links}

-- From `a` the links lead through `xs` to `b`, and back.
unfoldable pub Seg : Links → ℕ → List ℕ → ℕ → Type 0
Seg l a [] b = (l.next a ≡ b) × (l.prev b ≡ a)
Seg l a (x ∷ xs) b = (l.next a ≡ x) × (l.prev x ≡ a) × Seg l x xs b

unfoldable pub NotIn : ℕ → List ℕ → Type 0
NotIn n [] = Unit {0}
NotIn n (x ∷ xs) = (n ≢ x) × NotIn n xs

unfoldable pub Distinct : List ℕ → Type 0
unfolding NotIn
Distinct [] = Unit {0}
Distinct (x ∷ xs) = NotIn x xs × Distinct xs

-- The ring of `h` and the nodes `xs` that follow it.
pub record Ring (l : Links) (h : ℕ) (xs : List ℕ) : Type 0 where
  pub around : Seg l h xs h
  pub distinct : Distinct (h ∷ xs)

pub Seg-append :
    (l : Links) (a : ℕ) (xs : List ℕ) (y : ℕ) (ys : List ℕ) (b : ℕ)
    → Seg l a xs y
    → Seg l y ys b
    → Seg l a (xs ++ y ∷ ys) b
unfolding Seg
Seg-append l a [] y ys b (n, p) s = (n, p, s)
Seg-append l a (x ∷ xs) y ys b (n, p, r) s = (n, p, Seg-append l x xs y ys b r s)

pub Seg-split :
    (l : Links) (a : ℕ) (xs : List ℕ) (y : ℕ) (ys : List ℕ) (b : ℕ)
    → Seg l a (xs ++ y ∷ ys) b
    → Seg l a xs y × Seg l y ys b
unfolding Seg
Seg-split l a [] y ys b (n, p, s) = ((n, p), s)
Seg-split l a (x ∷ xs) y ys b (n, p, s) =
    let (first, second) = Seg-split l x xs y ys b s in ((n, p, first), second)

-- A change of links elsewhere leaves a segment.
pub Seg-frame :
    (l l' : Links) (a : ℕ) (xs : List ℕ) (b : ℕ) (p n q : ℕ)
    → ((x : ℕ) → x ≢ p → x ≢ n → l'.next x ≡ l.next x)
    → ((x : ℕ) → x ≢ q → x ≢ n → l'.prev x ≡ l.prev x)
    → NotIn p (a ∷ xs)
    → NotIn n (a ∷ xs)
    → NotIn q (xs ++ b ∷ [])
    → NotIn n (xs ++ b ∷ [])
    → Seg l a xs b
    → Seg l' a xs b
unfolding Seg NotIn
Seg-frame l l' a [] b p n q nexts prevs (pa, _) (na, _) (qb, _) (nb, _) (e, f) = (
  nexts a (λ s. pa (sym s)) (λ s. na (sym s)) ∙ e,
  prevs b (λ s. qb (sym s)) (λ s. nb (sym s)) ∙ f,
)
Seg-frame l l' a (x ∷ xs) b p n q nexts prevs (pa, px) (na, nx) (qx, qs) (nx', ns) (e, f, s) = (
  nexts a (λ s. pa (sym s)) (λ s. na (sym s)) ∙ e,
  prevs x (λ s. qx (sym s)) (λ s. nx' (sym s)) ∙ f,
  Seg-frame l l' x xs b p n q nexts prevs px nx qs ns s,
)

pub NotIn-append : (n : ℕ) (xs ys : List ℕ) → NotIn n xs → NotIn n ys → NotIn n (xs ++ ys)
unfolding NotIn
NotIn-append n [] ys a b = b
NotIn-append n (x ∷ xs) ys (a, more) b = (a, NotIn-append n xs ys more b)

pub NotIn-split : (n : ℕ) (xs ys : List ℕ) → NotIn n (xs ++ ys) → NotIn n xs × NotIn n ys
unfolding NotIn
NotIn-split n [] ys b = (tt, b)
NotIn-split n (x ∷ xs) ys (a, more) =
    let (left, right) = NotIn-split n xs ys more in ((a, left), right)

-- Every node of the first list is absent from the second.
unfoldable Apart : List ℕ → List ℕ → Type 0
Apart [] ys = Unit {0}
Apart (x ∷ xs) ys = NotIn x ys × Apart xs ys

Apart-nil : (ys : List ℕ) → Apart ys []
unfolding Apart NotIn
Apart-nil [] = tt
Apart-nil (y ∷ ys) = (tt, Apart-nil ys)

Apart-cons : (x : ℕ) (xs ys : List ℕ) → NotIn x ys → Apart ys xs → Apart ys (x ∷ xs)
unfolding Apart NotIn
Apart-cons x xs [] n a = tt
Apart-cons x xs (y ∷ ys) (e, n) (m, a) = ((λ s. e (sym s), m), Apart-cons x xs ys n a)

Apart-sym : (xs ys : List ℕ) → Apart xs ys → Apart ys xs
unfolding Apart
Apart-sym [] ys a = Apart-nil ys
Apart-sym (x ∷ xs) ys (n, a) = Apart-cons x xs ys n (Apart-sym xs ys a)

Distinct-split : (xs ys : List ℕ) → Distinct (xs ++ ys) → Distinct xs × Distinct ys × Apart xs ys
unfolding Distinct Apart
Distinct-split [] ys d = (tt, d, tt)
Distinct-split (x ∷ xs) ys (n, d) =
    let (dx, dy, a) = Distinct-split xs ys d in
    let (nx, ny) = NotIn-split x xs ys n in ((nx, dx), dy, (ny, a))

Distinct-append : (xs ys : List ℕ) → Distinct xs → Distinct ys → Apart xs ys → Distinct (xs ++ ys)
unfolding Distinct Apart
Distinct-append [] ys dx dy a = dy
Distinct-append (x ∷ xs) ys (n, dx) dy (ny, a) =
    (NotIn-append x xs ys n ny, Distinct-append xs ys dx dy a)

pub Distinct-swap : (xs ys : List ℕ) → Distinct (xs ++ ys) → Distinct (ys ++ xs)
Distinct-swap xs ys d =
    let (dx, dy, a) = Distinct-split xs ys d in Distinct-append ys xs dy dx (Apart-sym xs ys a)

-- A ring can be entered at any of its nodes.
pub Ring-rotate :
    (l : Links) (h : ℕ) (us : List ℕ) (p : ℕ) (vs : List ℕ)
    → Ring l h (us ++ p ∷ vs)
    → Ring l p (vs ++ h ∷ us)
Ring-rotate l h us p vs r =
    let (first, second) = Seg-split l h us p vs h r.around in
    record {
      around = Seg-append l p vs h us p second first;
      distinct = Distinct-swap (h ∷ us) (p ∷ vs) r.distinct;
    }
