-- ===== src/Mm/Slab/Reuse.antt =====
-- slab_free and the slab_alloc that follows it, on the first processor.
use arcane_os.Prelude.{
  ℕ, suc, ◌+◌, ◌-◌, ◌%◌, ◌<◌, ◌≡◌, refl, ◌∙◌, ap, arith, true, false, ◌&&◌, Option, some, ◌==◌, ltb,
  write, write_self, write-ne, sub64, u64,
}
use arcane_os.Prelude.State.{State}
use arcane_os.Mm.Page.{page_size, align_down}
use arcane_os.Mm.Slab.{Slabs, Magazine, slab_magic, set_mag}
use arcane_os.Mm.Slab.Magazines.{mag_of, set_mag-same, set_mag-other}
use arcane_os.Mm.Slab.Caches.{mag_cpu, push_mag, pop_mag, slab_free, slab_alloc}

-- `t` is `s`, but for what the magazine holds behind its count.
pub record SameObjects {S : Type 0} (s t : Slabs S) (cache cpu : ℕ) : Type 0 where
  pub only : t ≡ record s { caches = record s.caches { loaded_mag = t.caches.loaded_mag } }
  pub count : (mag_of t cache cpu).count ≡ (mag_of s cache cpu).count
  pub objects :
      (j : ℕ)
      → j < (mag_of s cache cpu).count
      → (mag_of t cache cpu).objects j ≡ (mag_of s cache cpu).objects j
  pub others : (c p : ℕ) → ((cache == c) && (cpu == p)) ≡ false → mag_of t c p ≡ mag_of s c p

-- What is put into a magazine is taken from it next.
push_mag-pop_mag :
    {S : Type 0} (s : Slabs S) (cache cpu ptr : ℕ)
    → (t : Slabs S) × (pop_mag cache cpu (push_mag cache cpu ptr s) ≡ some (ptr, t))
      × SameObjects s t cache cpu
unfolding push_mag pop_mag
push_mag-pop_mag {S} s cache cpu ptr =
    let old = mag_of s cache cpu in
    let more : Magazine = record old {
      objects = write old.objects old.count ptr;
      count = old.count + 1;
    } in
    let pushed = push_mag cache cpu ptr s in
    let same = set_mag-same cache cpu more s.caches in
    let less : Magazine = record more { count = old.count } in
    let t : Slabs S = record s { caches = set_mag cache cpu less (pushed.caches) } in
    let back = set_mag-same cache cpu less pushed.caches in
    let taken : Magazine → ℕ → Option (ℕ × Slabs S) = λ m n. some (
      m.objects n,
      record pushed { caches = set_mag cache cpu (record m { count = n }) pushed.caches },
    ) in
    (
      t,
      ap (λ (m : Magazine). taken m (m.count - 1)) same
          ∙ ap (taken more) (omega arith)
          ∙ ap (λ o. some (o, t)) (write_self old.objects old.count ptr),
      record {
        only = refl;
        count = ap (λ (m : Magazine). m.count) back;
        objects = λ j lt.
            ap (λ (m : Magazine). m.objects j) back ∙ write-ne old.objects ptr (omega arith);
        others = λ c p h.
            set_mag-other cache cpu less pushed.caches c p h
            ∙ set_mag-other cache cpu more s.caches c p h;
      },
    )

push_mag-cpu :
    {S : Type 0} (s : Slabs S) (cache ptr : ℕ) → mag_cpu (push_mag cache 0 ptr s) ≡ mag_cpu s
unfolding push_mag
push_mag-cpu s cache ptr = refl

push_mag-some :
    {S : Type 0} (s : Slabs S) (cache ptr : ℕ)
    → ltb 0 (mag_of (push_mag cache 0 ptr s) cache 0).count ≡ true
unfolding push_mag
push_mag-some s cache ptr =
    let old = mag_of s cache 0 in
    let more : Magazine = record {
      objects = write old.objects old.count ptr;
      count = old.count + 1;
    } in
    ap (λ (m : Magazine). ltb 0 m.count) (set_mag-same cache 0 more s.caches) ∙ ground arith

-- An object that goes back to a magazine with room is the next one that the first processor takes
-- from the cache of its slab, and nothing else has changed then. For an address on a page with the
-- poison of the slab, at a multiple of the size of its objects.
pub slab_free-slab_alloc :
    {S : Type 0} (vmm_alloc : ℕ → ℕ → State (Slabs S) ℕ) (alloc : ℕ → State (Slabs S) ℕ)
    (construct : ℕ → ℕ → State (Slabs S) (Unit {0})) (fuel ptr slab cache : ℕ) (s : Slabs S)
    → s.words (u64 (align_down ptr page_size + page_size - 8)) ≡ slab
    → s.slab.magic slab ≡ slab_magic
    → s.slab.cache slab ≡ cache
    → (s.caches.obj_size cache == 0) ≡ false
    → (sub64 ptr (align_down ptr page_size) % s.caches.obj_size cache == 0) ≡ true
    → ltb (mag_of s cache 0).count (s.slab.objs_per_mag slab) ≡ true
    → mag_cpu s ≡ 0
    → (t : Slabs S) × (u : Slabs S) × (slab_free ptr s ≡ some (tt, t))
      × (slab_alloc vmm_alloc alloc construct (suc fuel) cache t ≡ some (ptr, u))
      × SameObjects s u cache 0
unfolding slab_free slab_alloc
slab_free-slab_alloc vmm_alloc alloc construct fuel ptr slab cache s poison magic of some_size whole
      room cpu =
    let (u, takes, same) = push_mag-pop_mag s cache 0 ptr in
    (
      push_mag cache 0 ptr s,
      u,
      rw (poison, magic, of, some_size, whole, room) refl,
      rw (push_mag-cpu s cache ptr ∙ cpu, push_mag-some s cache ptr) takes,
      same,
    )
