-- ===== src/Rings/Link.antt =====
-- Linking a node into a ring and out of it.
use mathlib.Core.Path.{subst}
use mathlib.Core.List.{append_assoc}
use arcane_os.Prelude.{
  ℕ, ◌≡◌, ◌≢◌, ◌⊎◌, inl, inr, refl, List, [], ◌∷◌, ◌++◌, sym, ap, ◌∙◌, write, write_self, write-ne,
}
use arcane_os.Rings.{Links}
use arcane_os.Rings.Seg.{
  Seg, NotIn, Distinct, Ring, NotIn-append, NotIn-split, Seg-frame, Seg-split, Ring-rotate,
}

-- The links with `n` between `p` and `q`.
abbrev pub linked : (p n q : ℕ) → Links → Links
linked p n q l = record { next = write (write l.next n q) p n; prev = write (write l.prev n p) q n }

-- The links with `p` and `q` joined.
abbrev pub joined : (p q : ℕ) → Links → Links
joined p q l = record { next = write l.next p q; prev = write l.prev q p }

NotIn-last : (n y : ℕ) (xs : List ℕ) → NotIn n xs → n ≢ y → NotIn n (xs ++ y ∷ [])
unfolding NotIn
NotIn-last n y xs away ne = NotIn-append n xs (y ∷ []) away (ne, tt)

linked-Seg :
    (l : Links) (p n : ℕ) (ws : List ℕ)
    → Seg l p ws p
    → Distinct (p ∷ ws)
    → NotIn n (p ∷ ws)
    → Seg (linked p n (l.next p) l) p (n ∷ ws) p
unfolding Seg NotIn Distinct
linked-Seg l p n [] (e, f) d (np, _) =
    subst (λ q. Seg (linked p n q l) p (n ∷ []) p) (sym e)
      (
        write_self (write l.next n p) p n,
        write-ne (write l.prev n p) n (λ s. np (sym s)) ∙ write_self l.prev n p,
        (
          write-ne (write l.next n p) n (λ s. np (sym s)) ∙ write_self l.next n p,
          write_self (write l.prev n p) p n,
        ),
      )
linked-Seg l p n (x ∷ xs) (e, f, s) ((px, pxs), (xx, d)) (np, (nx, nxs)) =
    let l' = linked p n x l in
    subst (λ q. Seg (linked p n q l) p (n ∷ x ∷ xs) p) (sym e)
      (
        write_self (write l.next n x) p n,
        write-ne (write l.prev n p) n (λ s. nx (sym s)) ∙ write_self l.prev n p,
        (
          write-ne (write l.next n x) n (λ s. np (sym s)) ∙ write_self l.next n x,
          write_self (write l.prev n p) x n,
          Seg-frame l l' x xs p p n x
              (λ y yp yn.
                write-ne (write l.next n x) n (λ s. yp (sym s))
                ∙ write-ne l.next x (λ s. yn (sym s)))
              (λ y yx yn.
                write-ne (write l.prev n p) n (λ s. yx (sym s))
                ∙ write-ne l.prev p (λ s. yn (sym s)))
              (px, pxs) (nx, nxs) (NotIn-last x p xs xx (λ s. px (sym s)))
              (NotIn-last n p xs nxs np) s,
        ),
      )

-- Linking a new node in behind `p`.
pub Ring-linked :
    (l : Links) (p n : ℕ) (ws : List ℕ)
    → Ring l p ws
    → NotIn n (p ∷ ws)
    → Ring (linked p n (l.next p) l) p (n ∷ ws)
unfolding NotIn Distinct
Ring-linked l p n ws r (np, nws) = record {
  around = linked-Seg l p n ws r.around r.distinct (np, nws);
  distinct = ((λ s. np (sym s), r.distinct.0), (nws, r.distinct.1));
}

joined-Seg :
    (l : Links) (p n : ℕ) (ws : List ℕ)
    → Seg l p (n ∷ ws) p
    → Distinct (p ∷ n ∷ ws)
    → Seg (joined p (l.next n) l) p ws p
unfolding Seg NotIn Distinct
joined-Seg l p n [] (e, f, (g, h)) d =
    subst (λ q. Seg (joined p q l) p [] p) (sym g) (write_self l.next p p, write_self l.prev p p)
joined-Seg l p n (x ∷ xs) (e, f, (g, h, s)) ((pn, (px, pxs)), ((nx, nxs), (xx, d))) =
    subst (λ q. Seg (joined p q l) p (x ∷ xs) p) (sym g)
      (
        write_self l.next p x,
        write_self l.prev x p,
        Seg-frame l (joined p x l) x xs p p n x (λ y yp yn. write-ne l.next x (λ s. yp (sym s)))
            (λ y yx yn. write-ne l.prev p (λ s. yx (sym s))) (px, pxs) (nx, nxs)
            (NotIn-last x p xs xx (λ s. px (sym s))) (NotIn-last n p xs nxs (λ s. pn (sym s))) s,
      )

-- Linking the node behind `p` out.
pub Ring-joined :
    (l : Links) (p n : ℕ) (ws : List ℕ) → Ring l p (n ∷ ws) → Ring (joined p (l.next n) l) p ws
unfolding Distinct NotIn
Ring-joined l p n ws r = record {
  around = joined-Seg l p n ws r.around r.distinct;
  distinct = (r.distinct.0.1, r.distinct.1.1);
}

-- A list is empty or has a last element.
snoc_cases : (xs : List ℕ) → (xs ≡ []) ⊎ ((us : List ℕ) × (p : ℕ) × (xs ≡ us ++ p ∷ []))
snoc_cases [] = inl refl
snoc_cases (x ∷ xs) = elim (snoc_cases xs) [
  | inl empty ↦ inr ([], x, ap (λ ys. x ∷ ys) empty)
  | inr (us, p, e) ↦ inr (x ∷ us, p, ap (λ ys. x ∷ ys) e)
]

append_first :
    (l : Links) (h n : ℕ)
    → Ring l h []
    → NotIn n (h ∷ [])
    → Ring (linked (l.prev h) n h l) h (n ∷ [])
unfolding Seg
append_first l h n r away =
    let (e, f) = r.around in
    subst (λ p. Ring (linked p n h l) h (n ∷ [])) (sym f)
      (subst (λ q. Ring (linked h n q l) h (n ∷ [])) e (Ring-linked l h n [] r away))

append_later :
    (l : Links) (h n : ℕ) (us : List ℕ) (p : ℕ)
    → Ring l h (us ++ p ∷ [])
    → NotIn n (h ∷ (us ++ p ∷ []))
    → Ring (linked (l.prev h) n h l) h (us ++ p ∷ n ∷ [])
unfolding Seg NotIn
append_later l h n us p r (nh, more) =
    let (nu, (np, _)) = NotIn-split n us (p ∷ []) more in
    let (e, f) = (Seg-split l h us p [] h r.around).1 in
    let turned : Ring l p (h ∷ us) = Ring-rotate l h us p [] r in
    let inserted : Ring (linked p n (l.next p) l) p (n ∷ h ∷ us) =
      Ring-linked l p n (h ∷ us) turned (np, (nh, nu)) in
    let back = Ring-rotate (linked p n (l.next p) l) p (n ∷ []) h us inserted in
    subst (λ x. Ring (linked x n h l) h (us ++ p ∷ n ∷ [])) (sym f)
      (subst (λ q. Ring (linked p n q l) h (us ++ p ∷ n ∷ [])) e back)

-- Linking a new node in before the first one makes it the last of the ring.
pub Ring-append :
    (l : Links) (h n : ℕ) (xs : List ℕ)
    → Ring l h xs
    → NotIn n (h ∷ xs)
    → Ring (linked (l.prev h) n h l) h (xs ++ n ∷ [])
Ring-append l h n xs r away = elim (snoc_cases xs) [
  | inl empty ↦
      subst (λ ys. Ring (linked (l.prev h) n h l) h (ys ++ n ∷ [])) (sym empty)
        (append_first l h n (rw empty at r) (rw empty at away))
  | inr (us, p, e) ↦
      let later = append_later l h n us p (rw e at r) (rw e at away) in
      subst (λ ys. Ring (linked (l.prev h) n h l) h ys)
        (sym (ap (λ ys. ys ++ n ∷ []) e ∙ append_assoc us (p ∷ []) (n ∷ []))) later
]

-- A node behind the first one of a ring, and its neighbours joined.
pub record Unlinked (l : Links) (h n : ℕ) (rest : List ℕ) : Type 0 where
  pub other : l.prev n ≢ n
  pub ring : Ring (joined (l.prev n) (l.next n) l) h rest

first-Unlinked : (l : Links) (h n : ℕ) (vs : List ℕ) → Ring l h (n ∷ vs) → Unlinked l h n vs
unfolding Seg NotIn Distinct
first-Unlinked l h n vs ring =
    let back : l.prev n ≡ h = ring.around.1 in
    record {
      other = λ e. ring.distinct.0.0 (sym back ∙ e);
      ring = subst (λ p. Ring (joined p (l.next n) l) h vs) (sym back) (Ring-joined l h n vs ring);
    }

later-Unlinked :
    (l : Links) (h n p : ℕ) (ws vs : List ℕ)
    → Ring l h (ws ++ p ∷ n ∷ vs)
    → Unlinked l h n (ws ++ p ∷ vs)
unfolding Seg NotIn Distinct
later-Unlinked l h n p ws vs ring =
    let turned = Ring-rotate l h ws p (n ∷ vs) ring in
    let back : l.prev n ≡ p = turned.around.1 in
    let without = Ring-joined l p n (vs ++ h ∷ ws) turned in
    let l' = joined p (l.next n) l in
    record {
      other = λ e. turned.distinct.0.0 (sym back ∙ e);
      ring =
          subst (λ q. Ring (joined q (l.next n) l) h (ws ++ p ∷ vs)) (sym back)
            (Ring-rotate l' p vs h ws without);
    }

pub Ring-Unlinked :
    (l : Links) (h n : ℕ) (us vs : List ℕ) → Ring l h (us ++ n ∷ vs) → Unlinked l h n (us ++ vs)
Ring-Unlinked l h n us vs ring = elim (snoc_cases us) [
  | inl empty ↦
      subst (λ z. Unlinked l h n (z ++ vs)) (sym empty)
        (first-Unlinked l h n vs (subst (λ z. Ring l h (z ++ n ∷ vs)) empty ring))
  | inr (ws, p, e) ↦
      let split : us ++ n ∷ vs ≡ ws ++ p ∷ n ∷ vs =
        ap (λ z. z ++ n ∷ vs) e ∙ append_assoc ws (p ∷ []) (n ∷ vs) in
      let whole : us ++ vs ≡ ws ++ p ∷ vs = ap (λ z. z ++ vs) e ∙ append_assoc ws (p ∷ []) vs in
      subst (λ z. Unlinked l h n z) (sym whole)
        (later-Unlinked l h n p ws vs (subst (Ring l h) split ring))
]
