-- ===== src/Mm/Slab/Moves.antt =====
-- slab_add_to and slab_remove_from keep the lists of a cache, whose lock they take and release.
use mathlib.Core.Path.{subst}
use mathlib.Core.Bool.{true, false}
use arcane_os.Prelude.{
  ℕ, ◌≡◌, ◌≢◌, refl, List, [], ◌∷◌, ◌++◌, sym, ◌∙◌, some, arith, ◌==◌, if◌then◌else◌, write,
  write_self,
}
use arcane_os.Prelude.State.{State, pure, ◌>>◌, >>=-run}
use arcane_os.Rings.{Links, set_next, set_prev}
use arcane_os.Rings.Seg.{Seg, NotIn, Distinct, Ring, NotIn-append, NotIn-split}
use arcane_os.Rings.Link.{Ring-append}
use arcane_os.Mm.Slab.{
  Slabs, release_cache, add_locked, remove_locked, CacheFields, Which, full, usable, first_of,
  set_first, acquire_cache, unlink_slab, link_slab, slab_remove_from, slab_add_to,
}
use arcane_os.Mm.Slab.Lists.{
  SlabList, cleared, single, link_slab-linked, unlink_slab-Ring, unlink_first-Ring,
  next-unlink_slab, once,
}

-- `t` is `s` with one list of a cache changed to these slabs, and the lock free again.
pub record Relisted {S : Type 0} (s t : Slabs S) (which : Which) (cache : ℕ) (nodes : List ℕ)
    : Type 0 where
  pub list : SlabList t.slab.links (first_of which t.caches cache) nodes
  pub unlocked : t.caches.cache_lock cache ≡ 0
  pub slabs : t.slab ≡ record s.slab { links = t.slab.links }
  pub magazines : t.caches.loaded_mag ≡ s.caches.loaded_mag

module _ {S : Type 0} (cache slab : ℕ) (s : Slabs S) (of : s.slab.cache slab ≡ cache)
    (free : (s.caches.cache_lock cache == 0) ≡ true) where
  abbrev locked : Slabs S
  locked = record s { caches = record s.caches { cache_lock = write s.caches.cache_lock cache 1 } }

  acquire_cache-free : acquire_cache (s.slab.cache slab) s ≡ some (tt, locked)
  unfolding acquire_cache
  acquire_cache-free = rw (of, free) refl

  -- A body that changes no lock, under the lock.
  under_lock :
      (body : State (Slabs S) (Unit {0})) (t : Slabs S)
      → body locked ≡ some (tt, t)
      → (acquire_cache (s.slab.cache slab)
            >> (body >> (release_cache (s.slab.cache slab) >> pure slab)))
          s
        ≡ some (
          slab,
          record t { caches = record t.caches { cache_lock = write t.caches.cache_lock cache 0 } },
        )
  under_lock body t does =
      >>=-run (acquire_cache (s.slab.cache slab))
        (λ x. body >> (release_cache (s.slab.cache slab) >> pure slab)) acquire_cache-free
      ∙ >>=-run body (λ x. release_cache (s.slab.cache slab) >> pure slab) does
      ∙ rw of refl

  -- The state under the lock with new links and other fields of the caches, and when it is free.
  abbrev changed : Links → CacheFields → Slabs S
  changed l c = record s { slab = record s.slab { links = l }; caches = c }

  abbrev unlocked_again : Slabs S → Slabs S
  unlocked_again t = record t {
    caches = record t.caches { cache_lock = write t.caches.cache_lock cache 0 };
  }

  set_first-Relisted :
      (which : Which) (l : Links) (first : ℕ) (nodes : List ℕ)
      → SlabList l first nodes
      → Relisted s
          (unlocked_again (changed l (set_first which cache first locked.caches)))
          which
          cache
          nodes
  set_first-Relisted full l first nodes list = record {
    list =
        subst (λ x. SlabList l x nodes) (sym (write_self s.caches.full_slab_list cache first)) list;
    unlocked = write_self (write s.caches.cache_lock cache 1) cache 0;
    slabs = refl;
    magazines = refl;
  }
  set_first-Relisted usable l first nodes list = record {
    list =
        subst (λ x. SlabList l x nodes) (sym (write_self s.caches.usable_slab_list cache first))
          list;
    unlocked = write_self (write s.caches.cache_lock cache 1) cache 0;
    slabs = refl;
    magazines = refl;
  }

  same_first-Relisted :
      (which : Which) (l : Links) (nodes : List ℕ)
      → SlabList l (first_of which s.caches cache) nodes
      → Relisted s (unlocked_again (changed l locked.caches)) which cache nodes
  same_first-Relisted full l nodes list = record {
    list = list;
    unlocked = write_self (write s.caches.cache_lock cache 1) cache 0;
    slabs = refl;
    magazines = refl;
  }
  same_first-Relisted usable l nodes list = record {
    list = list;
    unlocked = write_self (write s.caches.cache_lock cache 1) cache 0;
    slabs = refl;
    magazines = refl;
  }

  first_of-locked :
      (which : Which) → first_of which locked.caches cache ≡ first_of which s.caches cache
  first_of-locked full = refl
  first_of-locked usable = refl

  add_empty :
      (which : Which)
      → first_of which s.caches cache ≡ 0
      → add_locked which cache slab locked
        ≡ some (
          tt,
          changed
              (set_next slab slab (set_prev slab slab s.slab.links))
              (set_first which cache slab locked.caches),
        )
  unfolding add_locked
  add_empty which e = rw (first_of-locked which, e) refl

  add_more :
      (which : Which) (h : ℕ)
      → first_of which s.caches cache ≡ h
      → h ≢ 0
      → add_locked which cache slab locked
        ≡ some (tt, changed (link_slab slab h s.slab.links) locked.caches)
  unfolding add_locked
  add_more which h e ne =
      let some_slab : (h == 0) ≡ false = ground arith in
      rw (first_of-locked which, e, some_slab) refl

  -- Where the lock of the cache is free, a slab that is in no list becomes the last of the list.
  pub slab_add_to-Relisted :
      (which : Which) (nodes : List ℕ)
      → SlabList s.slab.links (first_of which s.caches cache) nodes
      → NotIn slab nodes
      → slab ≢ 0
      → (t : Slabs S) × (slab_add_to which cache slab s ≡ some (slab, t))
        × Relisted s t which cache (nodes ++ slab ∷ [])
  unfolding slab_add_to SlabList NotIn
  slab_add_to-Relisted which [] list away ne =
      let l = set_next slab slab (set_prev slab slab s.slab.links) in
      let t = changed l (set_first which cache slab locked.caches) in
      (
        unlocked_again t,
        under_lock (add_locked which cache slab) t (add_empty which list),
        set_first-Relisted which l slab (slab ∷ [])
            (refl, ((λ e. ne (sym e)), tt), single s.slab.links slab),
      )
  slab_add_to-Relisted which (h ∷ xs) (first, positive, ring) away ne =
      let l = link_slab slab h s.slab.links in
      let t = changed l locked.caches in
      let longer = Ring-append s.slab.links h slab xs ring away in
      (
        unlocked_again t,
        under_lock (add_locked which cache slab) t
            (add_more which h first (λ e. positive.0 (sym e))),
        same_first-Relisted which l (h ∷ (xs ++ slab ∷ [])) (
          first,
          (positive.0, NotIn-append 0 xs (slab ∷ []) positive.1 ((λ e. ne (sym e)), tt)),
          subst (λ k. Ring k h (xs ++ slab ∷ []))
              (sym (link_slab-linked slab h s.slab.links away.0)) longer,
        ),
      )

  remove_first :
      (which : Which) (n : ℕ)
      → first_of which s.caches cache ≡ slab
      → s.slab.links.next slab ≡ n
      → remove_locked which cache slab locked
        ≡ some (
          tt,
          changed
              (cleared slab (unlink_slab slab s.slab.links))
              (set_first which cache (if n == slab then 0 else n) locked.caches),
        )
  unfolding remove_locked
  remove_first which n e next =
      let same : (slab == slab) ≡ true = ground arith in
      rw (first_of-locked which, e, next-unlink_slab slab s.slab.links ∙ next, same) refl

  remove_later :
      (which : Which) (h : ℕ)
      → first_of which s.caches cache ≡ h
      → h ≢ slab
      → remove_locked which cache slab locked
        ≡ some (tt, changed (cleared slab (unlink_slab slab s.slab.links)) locked.caches)
  unfolding remove_locked
  remove_later which h e ne =
      let other : (h == slab) ≡ false = ground arith in rw (first_of-locked which, e, other) refl

  -- Where the lock of the cache is free, a slab of the list leaves it, and its own links are NULL.
  pub slab_remove_from-Relisted :
      (which : Which) (us vs : List ℕ)
      → SlabList s.slab.links (first_of which s.caches cache) (us ++ slab ∷ vs)
      → (t : Slabs S) × (slab_remove_from which cache slab s ≡ some (slab, t))
        × Relisted s t which cache (us ++ vs)
        × (t.slab.links.next slab ≡ 0)
        × (t.slab.links.prev slab ≡ 0)
  unfolding slab_remove_from SlabList Seg NotIn Distinct
  slab_remove_from-Relisted which [] [] (first, positive, ring) =
      let l = cleared slab (unlink_slab slab s.slab.links) in
      let same : (slab == slab) ≡ true = ground arith in
      let t = changed l (set_first which cache (if slab == slab then 0 else slab) locked.caches) in
      (
        unlocked_again t,
        under_lock (remove_locked which cache slab) t (remove_first which slab first ring.around.0),
        set_first-Relisted which l (if slab == slab then 0 else slab) [] (rw same refl),
        write_self _ slab 0,
        write_self _ slab 0,
      )
  slab_remove_from-Relisted which [] (v ∷ vs) (first, positive, ring) =
      let l = cleared slab (unlink_slab slab s.slab.links) in
      let t = changed l (set_first which cache (if v == slab then 0 else v) locked.caches) in
      let other : (v == slab) ≡ false = let apart = ring.distinct.0.0 in ground (arith, apart) in
      (
        unlocked_again t,
        under_lock (remove_locked which cache slab) t (remove_first which v first ring.around.0),
        set_first-Relisted which l (if v == slab then 0 else v) (v ∷ vs)
            (rw other (refl, positive.1, unlink_first-Ring s.slab.links slab v vs ring)),
        write_self _ slab 0,
        write_self _ slab 0,
      )
  slab_remove_from-Relisted which (h ∷ us) vs (first, positive, ring) =
      let l = cleared slab (unlink_slab slab s.slab.links) in
      let t = changed l locked.caches in
      let away = once s.slab.links h slab us vs ring in
      let (before, after) = NotIn-split 0 us (slab ∷ vs) positive.1 in
      (
        unlocked_again t,
        under_lock (remove_locked which cache slab) t
            (remove_later which h first (λ e. away.0 (sym e))),
        same_first-Relisted which l (h ∷ (us ++ vs)) (
          first,
          (positive.0, NotIn-append 0 us vs before after.1),
          unlink_slab-Ring s.slab.links h slab us vs ring,
        ),
        write_self _ slab 0,
        write_self _ slab 0,
      )
