-- ===== src/Mm/Alloc.antt =====
-- The heap, kernel/src/mm/alloc.c: eight caches by size class, whole pages for the rest, and a
-- 32-bit header before each block that says which of the two it is.
pub mod Bins
mod Tests
use arcane_os.Prelude.{
  ℕ, zero, suc, ◌+◌, ◌-◌, ◌*◌, ◌/◌, ◌^◌, Bool, true, false, Option, none, some, not, ◌||◌, u32, u64,
  bit_or, sub64, ltb, leb, ◌==◌, ◌≡◌, ◌<◌, if◌then◌else◌, Cells, write,
}
use arcane_os.Mm.Page.{page_size, div_round_up, map_read, map_write}

-- The calls of the slab caches and the virtual regions, and access to memory, on a state `S`; `none`
-- is a call that does not return. `obj_size` is the field of a cache.
pub record Backing {ℓ} (S Cache : Type ℓ) : Type ℓ where
  pub slab_create_cache : (size : ℕ) → S → Option (Cache × S)
  pub obj_size : Cache → ℕ
  pub slab_alloc : Cache → S → Option (ℕ × S)
  pub slab_free : (ptr : ℕ) → S → Option S
  pub vmm_alloc : (pages flags : ℕ) → S → Option (ℕ × S)
  pub vmm_free : (ptr : ℕ) → S → Option S
  pub load32 : S → (addr : ℕ) → ℕ
  pub store32 : (addr value : ℕ) → S → S

-- The number of binary digits, `64 - __builtin_clzll(x)` for x > 0
unfoldable pub digits : (fuel x : ℕ) → ℕ
digits zero x = 0
digits (suc k) x = let rest = digits k (x / 2) in if x == 0 then 0 else suc rest

-- `cache_bins` and `alloc_initialized`, with the state below.
pub record Heap {ℓ} (S Cache : Type ℓ) : Type ℓ where
  pub cache_bins : Cells Cache
  pub alloc_initialized : Bool
  pub mem : S

-- The index of alloc_get_bin.
unfoldable pub bin_index : (size : ℕ) → ℕ
unfolding digits
bin_index size = if leb size 8 then 0 else sub64 (digits 64 (u64 (size - 1))) 3

-- The flags of the heap's pages
abbrev pub heap_flags : ℕ
heap_flags = bit_or map_read map_write

module _ {ℓ} {S Cache : Type ℓ} (B : Backing S Cache) where
  -- The loop of alloc_init, from bin `i` on, with `n` rounds left.
  unfoldable pub create_bins : (n i obj_size : ℕ) → Heap S Cache → Option (Heap S Cache)
  create_bins zero i size h = some h
  create_bins (suc n) i size h = elim (B.slab_create_cache (size + 4) h.mem) [
    | none ↦ none
    | some (c, mem) ↦
        create_bins n (i + 1) (size * 2)
          (record h { cache_bins = write h.cache_bins i c; mem = mem })
  ]

  unfoldable pub alloc_init : Heap S Cache → Option (Heap S Cache)
  alloc_init h = elim (create_bins 8 0 8 h) [
    | none ↦ none
    | some h' ↦ some (record h' { alloc_initialized = true })
  ]

  unfoldable pub alloc_get_bin : (size : ℕ) → Heap S Cache → Cache
  alloc_get_bin size h = h.cache_bins (bin_index size)

  -- Stores the header at the start of the block that was given, and passes on what follows it.
  unfoldable pub with_header :
      (header : ℕ) → Heap S Cache → Option (ℕ × S) → Option (ℕ × Heap S Cache)
  with_header header h none = none
  with_header header h (some (ptr, mem)) =
      some (u64 (ptr + 4), record h { mem = B.store32 ptr header mem })

  unfoldable pub alloc : (size : ℕ) → Heap S Cache → Option (ℕ × Heap S Cache)
  unfolding with_header alloc_get_bin
  alloc n h =
      let size = u64 (n + 4) in
      let pages = div_round_up size page_size in
      let cache = alloc_get_bin size h in
      if ltb 1024 size || not h.alloc_initialized
      then with_header (pages * page_size) h (B.vmm_alloc pages heap_flags h.mem)
      else with_header (B.obj_size cache) h (B.slab_alloc cache h.mem)

  unfoldable pub free : (ptr : ℕ) → Heap S Cache → Option (Heap S Cache)
  free ptr h =
      let off_ptr = sub64 ptr 4 in
      elim (if ltb 1024 (B.load32 h.mem off_ptr)
        then B.vmm_free off_ptr h.mem
        else B.slab_free off_ptr h.mem) [ none ↦ none | some mem ↦ some (record h { mem = mem }) ]
