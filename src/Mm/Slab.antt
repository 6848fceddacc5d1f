-- ===== src/Mm/Slab.antt =====
-- Slab caches, kernel/src/mm/slab.c: the objects of a slab, the magazines of the processors and the
-- two rings of slabs of a cache. The fields of the structures are maps from the addresses of the
-- objects. What creates and uses caches is in `Caches`.
pub mod Objects
pub mod Magazines
pub mod Lists
pub mod Moves
pub mod Reuse
pub mod Caches
mod Tests
use arcane_os.Prelude.{
  ℕ, zero, suc, ◌+◌, ◌-◌, ◌*◌, ◌/◌, ◌%◌, ◌^◌, Bool, true, false, none, some, u32, u64, ◌&&◌, sub64,
  ltb, ◌==◌, if◌then◌else◌, Cells, write,
}
use arcane_os.Prelude.State.{State, pure, ◌>>=◌, ◌>>◌, gets, modify, fail, when}
use arcane_os.Rings.{Links, set_next, set_prev}
use arcane_os.Mm.Page.{page_size}

-- SLAB_MAG_OBJS
abbrev pub mag_objs : ℕ
mag_objs = 32

-- `magazine_t`: `mag_objs` places, and a count of 32 bits.
pub record Magazine : Type 0 where
  pub objects : Cells ℕ
  pub count : ℕ

-- `slab_t`, with the array of `free_objs`
pub record SlabFields : Type 0 where
  pub magic : Cells ℕ
  pub cache : Cells ℕ
  pub links : Links
  pub lock : Cells ℕ
  pub objs_per_page : Cells ℕ
  pub objs_per_mag : Cells ℕ
  pub total_count : Cells ℕ
  pub free_count : Cells ℕ
  pub free_objs : ℕ → Cells ℕ
  pub buffer : Cells ℕ

-- `slab_cache_t`, with the array of `loaded_mag` by processor
pub record CacheFields : Type 0 where
  pub name : ℕ → Cells ℕ
  pub obj_size : Cells ℕ
  pub cache_lock : Cells ℕ
  pub constructor_of : Cells ℕ
  pub destructor_of : Cells ℕ
  pub full_slab_list : Cells ℕ
  pub usable_slab_list : Cells ℕ
  pub loaded_mag : ℕ → Cells Magazine

-- The slabs and caches with `slab_mem` and `slab_cache_mem`, what they read of the processors, the
-- words of memory, and the state `rest` of the allocators below.
pub record Slabs (S : Type 0) : Type 0 where
  pub slab : SlabFields
  pub caches : CacheFields
  pub slab_mem : ℕ
  pub slab_cache_mem : ℕ
  pub smp_enabled : Bool
  pub smp_bsp_id : ℕ
  pub smp_cpu_count : ℕ
  pub this_cpu : ℕ
  pub words : Cells ℕ
  pub rest : S

abbrev pub slab_magic : ℕ
slab_magic = 0xDEADBEEFC0FFEEDD

abbrev pub slab_page_count : ℕ
slab_page_count = 4

-- SLAB_OBJ, with the fields that it reads
unfoldable pub slab_obj : (buffer per_page size idx : ℕ) → ℕ
slab_obj buffer per_page size idx =
    u64 (u64 (buffer + u64 (idx / per_page * page_size)) + u64 (idx % per_page * size))

-- `clamp` of kernel/src/include/lib/math.h
unfoldable pub clamp : (x a b : ℕ) → ℕ
clamp x a b = if ltb x a then a else if ltb b x then b else x

-- A magazine of a cache.
abbrev pub set_mag : (cache cpu : ℕ) → Magazine → CacheFields → CacheFields
set_mag cache cpu mag c = record c {
  loaded_mag = write c.loaded_mag cache (write (c.loaded_mag cache) cpu mag);
}

-- The two lists of a cache.
pub data Which : Type 0 where
  full usable : Which

abbrev pub first_of : Which → CacheFields → Cells ℕ
first_of full c = c.full_slab_list
first_of usable c = c.usable_slab_list

abbrev pub set_first : Which → (cache slab : ℕ) → CacheFields → CacheFields
set_first full cache slab c = record c { full_slab_list = write c.full_slab_list cache slab }
set_first usable cache slab c = record c { usable_slab_list = write c.usable_slab_list cache slab }

-- `slab->next->prev = slab->prev; slab->prev->next = slab->next;`
abbrev pub unlink_slab : ℕ → Links → Links
unlink_slab slab l =
    let l1 = set_prev (l.next slab) (l.prev slab) l in set_next (l1.prev slab) (l1.next slab) l1

-- `slab->next = *list; slab->prev = (*list)->prev; ...`
abbrev pub link_slab : (slab first : ℕ) → Links → Links
link_slab slab first l =
    let l1 = set_next slab first l in
    let l2 = set_prev slab (l1.prev first) l1 in
    let l3 = set_next (l2.prev first) slab l2 in set_prev first slab l3

module _ {S : Type 0} where
  abbrev pub set_slab : (SlabFields → SlabFields) → State (Slabs S) (Unit {0})
  set_slab f = modify (λ s. record s { slab = f s.slab })

  abbrev pub set_caches : (CacheFields → CacheFields) → State (Slabs S) (Unit {0})
  set_caches f = modify (λ s. record s { caches = f s.caches })

  -- `SLAB_OBJ(slab, idx)`
  abbrev pub object_at : Slabs S → (slab idx : ℕ) → ℕ
  object_at s slab idx =
      slab_obj (s.slab.buffer slab) (s.slab.objs_per_page slab)
        (s.caches.obj_size (s.slab.cache slab)) idx

  -- One round of slab_load_mag.
  unfoldable pub load_one : (slab cache cpu i : ℕ) → Slabs S → Slabs S
  unfolding slab_obj
  load_one slab cache cpu i s =
      let left = sub64 (s.slab.free_count slab) 1 in
      let mag = s.caches.loaded_mag cache cpu in
      let object = object_at s slab (s.slab.free_objs slab left) in
      record s {
        slab = record s.slab { free_count = write s.slab.free_count slab left };
        caches = set_mag cache cpu (record mag { objects = write mag.objects i object }) s.caches;
      }

  -- `for (i = mag->count; i < obj_count; i++)`, from `i` on with `n` rounds left
  unfoldable pub load_loop : (n i slab cache cpu : ℕ) → Slabs S → Slabs S
  unfolding load_one
  load_loop zero i slab cache cpu s = s
  load_loop (suc n) i slab cache cpu s =
      load_loop n (i + 1) slab cache cpu (load_one slab cache cpu i s)

  -- A store behind the places of a magazine is undefined, and fails here.
  unfoldable pub slab_load_mag : (slab cache cpu obj_count : ℕ) → State (Slabs S) (Unit {0})
  unfolding load_loop
  slab_load_mag slab cache cpu obj_count s =
      let start = (s.caches.loaded_mag cache cpu).count in
      let t = load_loop (obj_count - start) start slab cache cpu s in
      let mag = t.caches.loaded_mag cache cpu in
      if ltb mag_objs obj_count && ltb start obj_count
      then none
      else some (
        tt,
        record t {
          caches = set_mag cache cpu (record mag { count = u32 (mag.count + obj_count) }) t.caches;
        },
      )

  -- `for (i = 0; i < smp_cpu_count; i++)`, from `i` on with `n` processors left
  unfoldable pub setup_loop : (n i slab cache : ℕ) → State (Slabs S) (Unit {0})
  unfolding slab_load_mag clamp
  setup_loop zero i slab cache s = some (tt, s)
  setup_loop (suc n) i slab cache s =
      let obj_count = clamp (s.slab.free_count slab) 0 (s.slab.objs_per_mag slab) in
      let rest = (slab_load_mag slab cache i obj_count >> setup_loop n (i + 1) slab cache) s in
      if obj_count == 0 then some (tt, s) else rest

  unfoldable pub slab_setup_mag : (cache slab : ℕ) → State (Slabs S) (Unit {0})
  unfolding setup_loop
  slab_setup_mag cache slab = do n ← gets (λ s. s.smp_cpu_count); setup_loop n 0 slab cache

  -- spinlock_acquire on one processor: a lock that is held is never released meanwhile.
  unfoldable pub acquire_cache : (cache : ℕ) → State (Slabs S) (Unit {0})
  acquire_cache cache s =
      if s.caches.cache_lock cache == 0
      then some (
        tt,
        record s { caches = record s.caches { cache_lock = write s.caches.cache_lock cache 1 } },
      )
      else none

  abbrev pub release_cache : (cache : ℕ) → State (Slabs S) (Unit {0})
  release_cache cache = set_caches (λ c. record c { cache_lock = write c.cache_lock cache 0 })

  unfoldable pub acquire_slab : (slab : ℕ) → State (Slabs S) (Unit {0})
  acquire_slab slab s =
      if s.slab.lock slab == 0
      then some (tt, record s { slab = record s.slab { lock = write s.slab.lock slab 1 } })
      else none

  abbrev pub release_slab : (slab : ℕ) → State (Slabs S) (Unit {0})
  release_slab slab = set_slab (λ f. record f { lock = write f.lock slab 0 })

  abbrev pub set_slab_links : (Links → Links) → State (Slabs S) (Unit {0})
  set_slab_links g = set_slab (λ f. record f { links = g f.links })

  -- What slab_remove_from does under the lock.
  unfoldable pub remove_locked : Which → (list_cache slab : ℕ) → State (Slabs S) (Unit {0})
  remove_locked which list_cache slab = do
    set_slab_links (unlink_slab slab)
    first ← gets (λ s. first_of which s.caches list_cache)
    next ← gets (λ s. s.slab.links.next slab)
    when (first == slab)
        (set_caches (set_first which list_cache (if next == slab then 0 else next)))
    set_slab_links (λ l. set_next slab 0 (set_prev slab 0 l))

  unfoldable pub slab_remove_from : Which → (list_cache slab : ℕ) → State (Slabs S) ℕ
  unfolding acquire_cache remove_locked
  slab_remove_from which list_cache slab = do
    cache ← gets (λ s. s.slab.cache slab)
    acquire_cache cache
    remove_locked which list_cache slab
    release_cache cache
    pure slab

  -- What slab_add_to does under the lock.
  unfoldable pub add_locked : Which → (list_cache slab : ℕ) → State (Slabs S) (Unit {0})
  add_locked which list_cache slab = do
    first ← gets (λ s. first_of which s.caches list_cache)
    when (first == 0) (set_caches (set_first which list_cache slab))
    set_slab_links (
        if first == 0
        then (λ l. set_next slab slab (set_prev slab slab l))
        else link_slab slab first)

  unfoldable pub slab_add_to : Which → (list_cache slab : ℕ) → State (Slabs S) ℕ
  unfolding acquire_cache add_locked
  slab_add_to which list_cache slab = do
    cache ← gets (λ s. s.slab.cache slab)
    acquire_cache cache
    add_locked which list_cache slab
    release_cache cache
    pure slab
