-- ===== src/Mm/Slab/Magazines.antt =====
-- Loading a magazine from a slab, and giving an object back to the magazine of the first processor.
use mathlib.Core.Bool.{false}
use arcane_os.Prelude.{
  ℕ, zero, suc, ◌+◌, ◌-◌, ◌^◌, ◌≤◌, ◌<◌, ◌≡◌, inl, inr, refl, ◌∙◌, sym, ap, arith, Bool-cases, ◌&&◌,
  some, u32, ltb, ◌==◌, write, write_self, write-ne, sub64,
}
use arcane_os.Mm.Slab.{
  mag_objs, Slabs, Magazine, CacheFields, object_at, load_one, load_loop, slab_load_mag, set_mag,
}

abbrev pub mag_of : {S : Type 0} → Slabs S → (cache cpu : ℕ) → Magazine
mag_of s cache cpu = s.caches.loaded_mag cache cpu

-- `t` is `s` with the last `n` of the free objects of the slab moved to the magazine, from its place
-- `i` on, the last one first.
pub record Loaded {S : Type 0} (s t : Slabs S) (slab cache cpu i n : ℕ) : Type 0 where
  pub only : t ≡ record s {
    slab = record s.slab { free_count = t.slab.free_count };
    caches = record s.caches { loaded_mag = t.caches.loaded_mag };
  }
  pub left : t.slab.free_count slab ≡ s.slab.free_count slab - n
  pub other_slabs : (x : ℕ) → (slab == x) ≡ false → t.slab.free_count x ≡ s.slab.free_count x
  pub loaded :
      (j : ℕ)
      → j < n
      → (mag_of t cache cpu).objects (i + j)
        ≡ object_at s slab (s.slab.free_objs slab (s.slab.free_count slab - 1 - j))
  pub kept : (j : ℕ) → j < i → (mag_of t cache cpu).objects j ≡ (mag_of s cache cpu).objects j
  pub count : (mag_of t cache cpu).count ≡ (mag_of s cache cpu).count
  pub others : (c p : ℕ) → ((cache == c) && (cpu == p)) ≡ false → mag_of t c p ≡ mag_of s c p

-- The magazine that was set, and the others.
pub set_mag-same :
    (cache cpu : ℕ) (m : Magazine) (c : CacheFields)
    → (set_mag cache cpu m c).loaded_mag cache cpu ≡ m
set_mag-same cache cpu m c =
    ap (λ f. f cpu) (write_self c.loaded_mag cache (write (c.loaded_mag cache) cpu m))
    ∙ write_self (c.loaded_mag cache) cpu m

pub set_mag-other :
    (cache cpu : ℕ) (m : Magazine) (c : CacheFields) (d p : ℕ)
    → ((cache == d) && (cpu == p)) ≡ false
    → (set_mag cache cpu m c).loaded_mag d p ≡ c.loaded_mag d p
unfolding write
set_mag-other cache cpu m c d p h = elim (Bool-cases (cache == d)) [
  | inl e ↦
      let same : cache ≡ d = ground arith in
      let other : (cpu == p) ≡ false = ap (λ b. b && (cpu == p)) (sym e) ∙ h in
      rw (e, other) (ap (λ x. c.loaded_mag x p) same)
  | inr e ↦ rw e refl
]

module _ {S : Type 0} (slab cache cpu : ℕ) where
  load_one-Loaded :
      (s : Slabs S) (i : ℕ)
      → 1 ≤ s.slab.free_count slab
      → s.slab.free_count slab < 2 ^ 64
      → Loaded s (load_one slab cache cpu i s) slab cache cpu i 1
  unfolding load_one
  load_one-Loaded s i some_free lt =
      let left : sub64 (s.slab.free_count slab) 1 ≡ s.slab.free_count slab - 1 = omega arith in
      let object = object_at s slab (s.slab.free_objs slab (sub64 (s.slab.free_count slab) 1)) in
      let old = mag_of s cache cpu in
      let new : Magazine = record old { objects = write old.objects i object } in
      let mag = set_mag-same cache cpu new s.caches in
      record {
        only = refl;
        left = write_self s.slab.free_count slab (sub64 (s.slab.free_count slab) 1) ∙ left;
        other_slabs =
            λ x h. write-ne s.slab.free_count (sub64 (s.slab.free_count slab) 1) (ground arith);
        loaded = λ j h.
            ap (λ (m : Magazine). m.objects (i + j)) mag
            ∙ ap (write old.objects i object) (omega arith)
            ∙ write_self old.objects i object
            ∙ ap (λ k. object_at s slab (s.slab.free_objs slab k)) (omega (arith, left));
        kept = λ j h.
            ap (λ (m : Magazine). m.objects j) mag ∙ write-ne old.objects object (omega arith);
        count = ap (λ (m : Magazine). m.count) mag;
        others = set_mag-other cache cpu new s.caches;
      }

  next-Loaded :
      {s t u : Slabs S} {i n : ℕ}
      → Loaded s t slab cache cpu i 1
      → Loaded t u slab cache cpu (i + 1) n
      → (j : ℕ) → j < suc n
      → (mag_of u cache cpu).objects (i + j)
        ≡ object_at s slab (s.slab.free_objs slab (s.slab.free_count slab - 1 - j))
  next-Loaded {s} {t} {u} {i} {n} one rest j lt = elim (Bool-cases (j == 0)) [
    | inl e ↦ rest.kept (i + j) (ground arith) ∙ one.loaded j (ground arith)
    | inr e ↦
        let place : i + j ≡ i + 1 + (j - 1) = ground arith in
        let which : t.slab.free_count slab - 1 - (j - 1) ≡ s.slab.free_count slab - 1 - j =
          ground (arith, one.left) in
        ap (mag_of u cache cpu).objects place
        ∙ rest.loaded (j - 1) (ground arith)
        ∙ ap (λ k. object_at t slab (t.slab.free_objs slab k)) which
        ∙ ap
            (λ (x : Slabs S).
              object_at x slab (x.slab.free_objs slab (s.slab.free_count slab - 1 - j)))
            one.only
  ]

  -- One object and then the others.
  Loaded-cons :
      {s t u : Slabs S} {i n : ℕ}
      → Loaded s t slab cache cpu i 1
      → Loaded t u slab cache cpu (i + 1) n
      → Loaded s u slab cache cpu i (suc n)
  Loaded-cons {s} {t} {u} {i} {n} one rest = record {
    only =
        rest.only
        ∙ ap
            (λ (x : Slabs S). record x {
              slab = record x.slab { free_count = u.slab.free_count };
              caches = record x.caches { loaded_mag = u.caches.loaded_mag };
            })
            one.only;
    left = omega (arith, rest.left, one.left);
    other_slabs = λ x h. rest.other_slabs x h ∙ one.other_slabs x h;
    loaded = next-Loaded one rest;
    kept = λ j h. rest.kept j (omega arith) ∙ one.kept j h;
    count = rest.count ∙ one.count;
    others = λ c p h. rest.others c p h ∙ one.others c p h;
  }

  load_loop-Loaded :
      (n i : ℕ) (s : Slabs S)
      → n ≤ s.slab.free_count slab
      → s.slab.free_count slab < 2 ^ 64
      → Loaded s (load_loop n i slab cache cpu s) slab cache cpu i n
  unfolding load_loop
  load_loop-Loaded zero i s enough lt = record {
    only = refl;
    left = omega arith;
    other_slabs = λ x h. refl;
    loaded = λ j h. absurd (omega arith);
    kept = λ j h. refl;
    count = refl;
    others = λ c p h. refl;
  }
  load_loop-Loaded (suc n) i s enough lt =
      let one = load_one-Loaded s i (omega arith) lt in
      Loaded-cons one (
        load_loop-Loaded n (i + 1) (load_one slab cache cpu i s) (omega (arith, one.left))
          (omega (arith, one.left)))

  -- Where `obj_count` is at most the number of places of a magazine and not below its count, and the
  -- slab has that many free objects, slab_load_mag moves the last `obj_count - count` of the free
  -- objects of the slab behind the `count` objects of the magazine, the last one first, keeps those,
  -- and adds `obj_count` to the count: it is the number of the objects that are there if the
  -- magazine was empty.
  pub slab_load_mag-Loaded :
      (s : Slabs S) (obj_count : ℕ)
      → obj_count ≤ mag_objs
      → (mag_of s cache cpu).count ≤ obj_count
      → obj_count - (mag_of s cache cpu).count ≤ s.slab.free_count slab
      → s.slab.free_count slab < 2 ^ 64
      → (t : Slabs S) × (slab_load_mag slab cache cpu obj_count s
          ≡ some (
            tt,
            record t {
              caches =
                  set_mag cache cpu
                    (record (mag_of t cache cpu) { count = (mag_of s cache cpu).count + obj_count })
                    t.caches;
            },
          ))
        × Loaded s t slab cache cpu
            (mag_of s cache cpu).count
            (obj_count - (mag_of s cache cpu).count)
  unfolding slab_load_mag
  slab_load_mag-Loaded s obj_count places le enough lt =
      let start = (mag_of s cache cpu).count in
      let t = load_loop (obj_count - start) start slab cache cpu s in
      let done = load_loop-Loaded (obj_count - start) start s enough lt in
      let counted : ℕ → Slabs S = λ n. record t {
        caches = set_mag cache cpu (record (mag_of t cache cpu) { count = n }) t.caches;
      } in
      let held : (ltb mag_objs obj_count && ltb start obj_count) ≡ false = ground arith in
      let sum : u32 ((mag_of t cache cpu).count + obj_count) ≡ start + obj_count =
        omega (arith, done.count) in
      (t, rw held (ap (λ n. some (tt, counted n)) sum), done)
