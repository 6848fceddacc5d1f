-- ===== src/Mm/Slab/Lists.antt =====
-- The two lists of a cache: rings of slabs, whose first one the cache holds.
use mathlib.Core.Path.{subst}
use mathlib.Core.List.{append-nil}
use arcane_os.Prelude.{
  ℕ, ◌≡◌, ◌≢◌, refl, List, [], ◌∷◌, ◌++◌, sym, arith, write, write_self, write-ne,
}
use arcane_os.Rings.{Links, set_next, set_prev}
use arcane_os.Rings.Seg.{
  Seg, NotIn, Distinct, Ring, NotIn-append, NotIn-split, Seg-frame, Ring-rotate,
}
use arcane_os.Rings.Link.{linked, joined, Ring-Unlinked}
use arcane_os.Mm.Slab.{unlink_slab, link_slab}

-- The list at `first` holds these slabs, in this order.
unfoldable pub SlabList : Links → (first : ℕ) → List ℕ → Type 0
unfolding NotIn
SlabList l first [] = first ≡ 0
SlabList l first (h ∷ xs) = (first ≡ h) × NotIn 0 (h ∷ xs) × Ring l h xs

-- The links with those of `n` set to NULL.
abbrev pub cleared : ℕ → Links → Links
cleared n l = set_next n 0 (set_prev n 0 l)

cleared-Ring :
    (l : Links) (h n : ℕ) (xs : List ℕ) → NotIn n (h ∷ xs) → Ring l h xs → Ring (cleared n l) h xs
unfolding NotIn
cleared-Ring l h n xs away ring =
    let end = NotIn-append n xs (h ∷ []) away.1 (away.0, tt) in
    record {
      around =
          Seg-frame l (cleared n l) h xs h n n n (λ x xn _. write-ne l.next 0 (λ e. xn (sym e)))
            (λ x xn _. write-ne l.prev 0 (λ e. xn (sym e))) away away end end ring.around;
      distinct = ring.distinct;
    }

pub single : (l : Links) (n : ℕ) → Ring (set_next n n (set_prev n n l)) n []
unfolding Seg Distinct NotIn
single l n = record { around = (write_self l.next n n, write_self l.prev n n); distinct = (tt, tt) }

pub link_slab-linked :
    (n first : ℕ) (l : Links) → n ≢ first → link_slab n first l ≡ linked (l.prev first) n first l
link_slab-linked n first l ne =
    let same : write l.prev n (l.prev first) first ≡ l.prev first =
      write-ne l.prev (l.prev first) ne in
    rw same refl

unlink_slab-joined : (n : ℕ) (l : Links) → unlink_slab n l ≡ joined (l.prev n) (l.next n) l
unfolding write
unlink_slab-joined n l =
    let same : write l.prev (l.next n) (l.prev n) n ≡ l.prev n = ground arith in rw same refl

-- A slab of a ring is in it once.
pub once :
    (l : Links) (h n : ℕ) (us vs : List ℕ) → Ring l h (us ++ n ∷ vs) → NotIn n (h ∷ (us ++ vs))
unfolding NotIn Distinct
once l h n us vs ring =
    let (nvs, (nh, nus)) = NotIn-split n vs (h ∷ us) (Ring-rotate l h us n vs ring).distinct.0 in
    (nh, NotIn-append n us vs nus nvs)

-- A slab behind the first one leaves the ring.
pub unlink_slab-Ring :
    (l : Links) (h n : ℕ) (us vs : List ℕ)
    → Ring l h (us ++ n ∷ vs)
    → Ring (cleared n (unlink_slab n l)) h (us ++ vs)
unlink_slab-Ring l h n us vs ring =
    let out = Ring-Unlinked l h n us vs ring in
    cleared-Ring (unlink_slab n l) h n (us ++ vs) (once l h n us vs ring)
      (subst (λ k. Ring k h (us ++ vs)) (sym (unlink_slab-joined n l)) out.ring)

-- The first slab leaves the ring, and the next one is the first.
pub unlink_first-Ring :
    (l : Links) (n v : ℕ) (vs : List ℕ)
    → Ring l n (v ∷ vs)
    → Ring (cleared n (unlink_slab n l)) v vs
unlink_first-Ring l n v vs ring =
    subst (Ring (cleared n (unlink_slab n l)) v) (append-nil vs)
      (unlink_slab-Ring l v n vs [] (Ring-rotate l n [] v vs ring))

pub next-unlink_slab : (n : ℕ) (l : Links) → (unlink_slab n l).next n ≡ l.next n
unfolding write
next-unlink_slab n l = ground arith
