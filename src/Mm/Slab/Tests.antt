-- ===== src/Mm/Slab/Tests.antt =====
-- A cache with one slab of objects of 88 bytes, and the theorems on slabs at it.
use arcane_os.Prelude.{ℕ, ◌+◌, ◌-◌, ◌/◌, ◌≤◌, ◌≡◌, refl, false, some, [], ◌∷◌, arith}
use arcane_os.Prelude.State.{fail, pure}
use arcane_os.Rings.Seg.{Seg, NotIn, Distinct}
use arcane_os.Mm.Page.{page_size, align_down}
use arcane_os.Mm.Slab.{
  Slabs, slab_obj, slab_magic, slab_load_mag, slab_add_to, slab_remove_from, set_mag, usable,
}
use arcane_os.Mm.Slab.Objects.{slab_obj-ordered}
use arcane_os.Mm.Slab.Magazines.{mag_of, Loaded, slab_load_mag-Loaded}
use arcane_os.Mm.Slab.Lists.{SlabList}
use arcane_os.Mm.Slab.Moves.{Relisted, slab_add_to-Relisted, slab_remove_from-Relisted}
use arcane_os.Mm.Slab.Reuse.{SameObjects, slab_free-slab_alloc}
use arcane_os.Mm.Slab.Caches.{slab_free, slab_alloc}

-- The cache at 0x1000 and its slab at 0x2000.
abbrev one_slab : Slabs ℕ
one_slab = record {
  slab = record {
    magic = λ a. slab_magic;
    cache = λ a. 0x1000;
    links = record { next = λ a. 0x2000; prev = λ a. 0x2000 };
    lock = λ a. 0;
    objs_per_page = λ a. 46;
    objs_per_mag = λ a. 32;
    total_count = λ a. 184;
    free_count = λ a. 184;
    free_objs = λ a i. i;
    buffer = λ a. 0x10000;
  };
  caches = record {
    name = λ a i. 0;
    obj_size = λ a. 88;
    cache_lock = λ a. 0;
    constructor_of = λ a. 0;
    destructor_of = λ a. 0;
    full_slab_list = λ a. 0;
    usable_slab_list = λ a. 0x2000;
    loaded_mag = λ a cpu. record { objects = λ i. 0; count = 5 };
  };
  slab_mem = 0;
  slab_cache_mem = 0;
  smp_enabled = false;
  smp_bsp_id = 0;
  smp_cpu_count = 1;
  this_cpu = 0;
  words = λ a. 0x2000;
  rest = 0;
}

only-SlabList : SlabList one_slab.slab.links 0x2000 (0x2000 ∷ [])
unfolding SlabList Seg NotIn Distinct
only-SlabList =
    (refl, ((λ e. omega (arith, e)), tt), record { around = (refl, refl); distinct = (tt, tt) })

apart : NotIn 0x3000 (0x2000 ∷ [])
unfolding NotIn
apart = ((λ e. omega (arith, e)), tt)

slab_obj-ordered_example :
    slab_obj 0x10000 ((page_size - 8) / 88) 88 45 + 88
    ≤ slab_obj 0x10000 ((page_size - 8) / 88) 88 46
slab_obj-ordered_example =
    slab_obj-ordered 0x10000 88 45 46 (omega arith) (omega arith) (omega arith) (omega arith)
      (omega arith)

slab_load_mag-Loaded_example :
    (t : Slabs ℕ) × (slab_load_mag 0x2000 0x1000 0 27 one_slab
      ≡ some (
        tt,
        record t {
          caches = set_mag 0x1000 0 (record (mag_of t 0x1000 0) { count = 5 + 27 }) t.caches;
        },
      ))
    × Loaded one_slab t 0x2000 0x1000 0 5 (27 - 5)
slab_load_mag-Loaded_example =
    slab_load_mag-Loaded 0x2000 0x1000 0 one_slab 27 (omega arith) (omega arith) (omega arith)
      (omega arith)

slab_add_to-Relisted_example :
    (t : Slabs ℕ) × (slab_add_to usable 0x1000 0x3000 one_slab ≡ some (0x3000, t))
    × Relisted one_slab t usable 0x1000 (0x2000 ∷ 0x3000 ∷ [])
slab_add_to-Relisted_example =
    slab_add_to-Relisted 0x1000 0x3000 one_slab refl refl usable (0x2000 ∷ []) only-SlabList apart
      (λ e. omega (arith, e))

slab_remove_from-Relisted_example :
    (t : Slabs ℕ) × (slab_remove_from usable 0x1000 0x2000 one_slab ≡ some (0x2000, t))
    × Relisted one_slab t usable 0x1000 []
    × (t.slab.links.next 0x2000 ≡ 0)
    × (t.slab.links.prev 0x2000 ≡ 0)
slab_remove_from-Relisted_example =
    slab_remove_from-Relisted 0x1000 0x2000 one_slab refl refl usable [] [] only-SlabList

slab_free-slab_alloc_example :
    (t : Slabs ℕ) × (u : Slabs ℕ) × (slab_free 0x10058 one_slab ≡ some (tt, t))
    × (slab_alloc (λ n f. fail) (λ n. fail) (λ f o. pure tt) 1 0x1000 t ≡ some (0x10058, u))
    × SameObjects one_slab u 0x1000 0
unfolding align_down
slab_free-slab_alloc_example =
    slab_free-slab_alloc (λ n f. fail) (λ n. fail) (λ f o. pure tt) 0 0x10058 0x2000 0x1000 one_slab
      refl refl refl refl refl refl refl
