-- ===== src/Mm/Slab/Caches.antt =====
-- Creating caches, taking objects and giving them back, kernel/src/mm/slab.c. The calls of the other
-- allocators and of the constructors are parameters.
use arcane_os.Prelude.{
  ℕ, zero, suc, ◌+◌, ◌-◌, ◌*◌, ◌/◌, ◌%◌, none, some, u16, u64, sub64, ltb, ◌==◌, not, if◌then◌else◌,
  Cells, write,
}
use arcane_os.Prelude.State.{State, pure, ◌>>=◌, ◌>>◌, gets, modify, assert, when}
use arcane_os.Strings.{strlen}
use arcane_os.Mm.Page.{page_size, align_down, map_read, map_write}
use arcane_os.Mm.Slab.{
  SlabFields, CacheFields, Slabs, slab_magic, slab_page_count, clamp, set_slab, set_caches, set_mag,
  object_at, slab_load_mag, slab_setup_mag, full, usable, acquire_slab, release_slab,
  slab_remove_from, slab_add_to,
}

-- `free_objs[i] = (uint16_t)i` for the objects of a slab
unfoldable pub fill : (n i : ℕ) → Cells ℕ → Cells ℕ
fill zero i objs = objs
fill (suc n) i objs = fill n (i + 1) (write objs i (u16 i))

-- The poison words of the pages from `i` on, with `n` pages left.
unfoldable pub poison : (n i buffer slab : ℕ) → Cells ℕ → Cells ℕ
poison zero i buffer slab words = words
poison (suc n) i buffer slab words =
    let current_page = u64 (buffer + page_size * i) in
    poison n (i + 1) buffer slab (write words (u64 (current_page + page_size - 8)) slab)

-- The number of an object by its address.
unfoldable pub object_index : (buffer per_page size ptr : ℕ) → ℕ
object_index buffer per_page size ptr =
    let off = sub64 ptr buffer in u64 (off / page_size * per_page + off % page_size / size)

-- The result of strlen, which is an int.
abbrev pub length_at : (text : Cells ℕ) (name : ℕ) {S : Type 0} → State S ℕ
length_at text name s = elim (strlen text name) [ none ↦ none | some n ↦ some (n, s) ]

-- sizeof
abbrev pub sizeof_slab : ℕ
sizeof_slab = 88

abbrev pub sizeof_slab_cache : ℕ
sizeof_slab_cache = 120

abbrev pub sizeof_magazine : ℕ
sizeof_magazine = 264

-- The fields of a new slab, up to its buffer.
unfoldable pub new_slab : (slab cache size : ℕ) → SlabFields → SlabFields
unfolding clamp
new_slab slab cache size f =
    let objs_per_page = (page_size - 8) / size in
    let total = u64 (objs_per_page * slab_page_count) in
    record f {
      cache = write f.cache slab cache;
      magic = write f.magic slab slab_magic;
      lock = write f.lock slab 0;
      total_count = write f.total_count slab total;
      objs_per_page = write f.objs_per_page slab objs_per_page;
      objs_per_mag = write f.objs_per_mag slab (clamp (total / 2) 1 32);
    }

-- `mag->objects[--mag->count]`
unfoldable pub pop_mag : {S : Type 0} → (cache cpu : ℕ) → State (Slabs S) ℕ
pop_mag cache cpu s =
    let mag = s.caches.loaded_mag cache cpu in
    let left = mag.count - 1 in
    some (
      mag.objects left,
      record s { caches = set_mag cache cpu (record mag { count = left }) s.caches },
    )

-- The processor whose magazine slab_alloc uses.
abbrev pub mag_cpu : {S : Type 0} → Slabs S → ℕ
mag_cpu s = if s.smp_enabled then s.this_cpu else s.smp_bsp_id

-- The fields of a new cache, whose magazines stay as they were in memory.
unfoldable pub new_cache :
    (cache : ℕ) (text : Cells ℕ) (name name_len obj_size f g : ℕ) → CacheFields → CacheFields
new_cache cache text name name_len obj_size f g c = record c {
  name = write c.name cache (λ i. if ltb i name_len then text (name + i) else c.name cache i);
  obj_size = write c.obj_size cache obj_size;
  cache_lock = write c.cache_lock cache 0;
  constructor_of = write c.constructor_of cache f;
  destructor_of = write c.destructor_of cache g;
  full_slab_list = write c.full_slab_list cache 0;
  usable_slab_list = write c.usable_slab_list cache 0;
}

-- `vmm_alloc(kernel_pagemap, pages, flags)`, `alloc(size)` and the call of the constructor at an
-- address on an object.
module _ {S : Type 0} (vmm_alloc : (pages flags : ℕ) → State (Slabs S) ℕ)
    (alloc : ℕ → State (Slabs S) ℕ) (construct : (f obj : ℕ) → State (Slabs S) (Unit {0})) where
  -- The constructor on the objects from `i` on, with `n` left.
  unfoldable pub construct_loop : (n i slab f : ℕ) → State (Slabs S) (Unit {0})
  construct_loop zero i slab f = pure tt
  construct_loop (suc n) i slab f = do
    obj ← gets (λ s. object_at s slab i)
    construct f obj
    construct_loop n (i + 1) slab f

  -- The second half of slab_create_slab: the buffer, the free objects, and the list. A size of 0
  -- is a division by 0.
  unfoldable pub setup_slab : (slab cache : ℕ) → State (Slabs S) ℕ
  unfolding new_slab fill construct_loop poison slab_add_to
  setup_slab slab cache = do
    size ← gets (λ s. s.caches.obj_size cache)
    assert (not (size == 0))
    set_slab (new_slab slab cache size)
    buffer ← vmm_alloc slab_page_count (map_read + map_write)
    set_slab (λ f. record f { buffer = write f.buffer slab buffer })
    total ← gets (λ s. s.slab.total_count slab)
    array ← alloc (u64 (2 * total))
    set_slab (λ f. record f { free_count = write f.free_count slab total })
    set_slab
        (λ f. record f { free_objs = write f.free_objs slab (fill total 0 (f.free_objs slab)) })
    f ← gets (λ s. s.caches.constructor_of cache)
    when (not (f == 0)) (construct_loop total 0 slab f)
    modify (λ s. record s { words = poison slab_page_count 0 (s.slab.buffer slab) slab s.words })
    slab_add_to usable cache slab

  -- `take` is `slab_alloc(slab_mem)`.
  unfoldable pub slab_create_slab : (take : ℕ → State (Slabs S) ℕ) (cache : ℕ) → State (Slabs S) ℕ
  unfolding setup_slab
  slab_create_slab take cache = do
    mem ← gets (λ s. s.slab_mem)
    slab ← if mem == 0 then vmm_alloc 1 (map_read + map_write) else take mem
    setup_slab slab cache

  -- A slab with too few objects gives what it has, and another one is used for the rest.
  unfoldable pub next_slab : (create : State (Slabs S) ℕ) (cache cpu slab : ℕ) → State (Slabs S) ℕ
  unfolding slab_load_mag slab_remove_from slab_add_to
  next_slab create cache cpu slab = do
    count ← gets (λ s. s.slab.free_count slab)
    slab_load_mag slab cache cpu count
    slab_remove_from usable cache slab
    slab_add_to full cache slab
    first ← gets (λ s. s.caches.usable_slab_list cache)
    if first == 0 then create else pure first

  -- slab_alloc with an empty magazine
  unfoldable pub refill : (create : State (Slabs S) ℕ) (cache cpu : ℕ) → State (Slabs S) ℕ
  unfolding next_slab acquire_slab slab_load_mag pop_mag
  refill create cache cpu = do
    slab ← gets (λ s. s.caches.usable_slab_list cache)
    assert (not (slab == 0))
    acquire_slab slab
    count ← gets (λ s. s.slab.objs_per_mag slab)
    free ← gets (λ s. s.slab.free_count slab)
    from ← if ltb free count then next_slab create cache cpu slab else pure slab
    slab_load_mag from cache cpu (if ltb free count then sub64 count free else count)
    release_slab from
    pop_mag cache cpu

  -- On fuel, since a new slab takes its structure from a cache.
  unfoldable pub slab_alloc : (fuel cache : ℕ) → State (Slabs S) ℕ
  unfolding refill slab_create_slab pop_mag
  slab_alloc zero cache s = none
  slab_alloc (suc fuel) cache s =
      let cpu = mag_cpu s in
      let again = refill (slab_create_slab (slab_alloc fuel) cache) cache cpu s in
      if ltb 0 (s.caches.loaded_mag cache cpu).count then pop_mag cache cpu s else again

  unfoldable pub slab_create_cache :
      (fuel : ℕ) (text : Cells ℕ) (name obj_size f g : ℕ) → State (Slabs S) ℕ
  unfolding slab_create_slab slab_alloc new_cache slab_setup_mag
  slab_create_cache fuel text name obj_size f g = do
    mem ← gets (λ s. s.slab_cache_mem)
    cache ← if mem == 0 then vmm_alloc 1 (map_read + map_write) else slab_alloc fuel mem
    len ← length_at text name
    set_caches (new_cache cache text name (if ltb 64 len then 64 else len) obj_size f g)
    cpus ← gets (λ s. s.smp_cpu_count)
    array ← alloc (u64 (sizeof_magazine * cpus))
    slab ← slab_create_slab (slab_alloc fuel) cache
    slab_setup_mag cache slab
    pure cache

  -- The texts "slab_mem" and "cache_mem" are at two addresses.
  unfoldable pub slab_init :
      (fuel : ℕ) (text : Cells ℕ) (name1 name2 : ℕ) → State (Slabs S) (Unit {0})
  unfolding slab_create_cache
  slab_init fuel text name1 name2 = do
    mem ← slab_create_cache fuel text name1 sizeof_slab 0 0
    modify (λ s. record s { slab_mem = mem })
    cache_mem ← slab_create_cache fuel text name2 sizeof_slab_cache 0 0
    modify (λ s. record s { slab_cache_mem = cache_mem })

-- `mag->objects[mag->count++] = ptr`
unfoldable pub push_mag : {S : Type 0} (cache cpu ptr : ℕ) → Slabs S → Slabs S
push_mag cache cpu ptr s =
    let mag = s.caches.loaded_mag cache cpu in
    let new = record mag { objects = write mag.objects mag.count ptr; count = mag.count + 1 } in
    record s { caches = set_mag cache cpu new s.caches }

-- slab_free with a full magazine
unfoldable pub give_back : {S : Type 0} (slab cache ptr : ℕ) → State (Slabs S) (Unit {0})
unfolding object_index slab_remove_from slab_add_to
give_back slab cache ptr = do
  count ← gets (λ s. s.slab.free_count slab)
  size ← gets (λ s. s.caches.obj_size cache)
  set_slab (λ f.
      let idx = object_index (f.buffer slab) (f.objs_per_page slab) size ptr in
      record f {
        free_objs = write f.free_objs slab (write (f.free_objs slab) count (u16 idx));
        free_count = write f.free_count slab (u64 (count + 1));
      })
  when (count == 0) (slab_remove_from full cache slab >> slab_add_to usable cache slab >> pure tt)

unfoldable pub slab_free : {S : Type 0} (ptr : ℕ) → State (Slabs S) (Unit {0})
unfolding push_mag give_back
slab_free ptr = do
  slab ← gets (λ s. s.words (u64 (align_down ptr page_size + page_size - 8)))
  magic ← gets (λ s. s.slab.magic slab)
  assert (magic == slab_magic)
  cache ← gets (λ s. s.slab.cache slab)
  size ← gets (λ s. s.caches.obj_size cache)
  assert (not (size == 0))
  assert (sub64 ptr (align_down ptr page_size) % size == 0)
  count ← gets (λ s. (s.caches.loaded_mag cache 0).count)
  most ← gets (λ s. s.slab.objs_per_mag slab)
  if ltb count most then modify (push_mag cache 0 ptr) else give_back slab cache ptr
