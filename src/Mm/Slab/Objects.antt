-- ===== src/Mm/Slab/Objects.antt =====
-- Where the objects of a slab lie, and how slab_free finds the number of one.
use native.Mathlib.Nat.{
  mod-lt, div-add-mod', div-mul-le_self, div-lt_iff_lt-mul, mul-le-mul_right, mul-div_cancel,
  le-div_iff_mul-le, div-le_self,
}
use arcane_os.Prelude.{
  ℕ, ◌+◌, ◌-◌, ◌*◌, ◌/◌, ◌%◌, ◌^◌, ◌≤◌, ◌<◌, ◌≡◌, inl, inr, ap, arith, sub64, ltb, Bool-cases,
}
use arcane_os.Mm.Page.{page_size}
use arcane_os.Mm.Slab.{slab_obj, slab_page_count}
use arcane_os.Mm.Slab.Caches.{object_index}

module _ (buffer size : ℕ) (some_size : 1 ≤ size) (small : size ≤ 4088)
    (fits : buffer + 4 * 4096 ≤ 2 ^ 64) where
  -- `objs_per_page`
  abbrev per : ℕ
  per = (page_size - 8) / size

  -- The number of the page, and the offset in it.
  record Place (idx : ℕ) : Type 0 where
    page : idx / per ≤ 3
    inner : idx % per * size + size ≤ 4088
    adds : idx / per * per + idx % per ≡ idx
    address : slab_obj buffer per size idx ≡ buffer + (idx / per * 4096 + idx % per * size)

  Place-of : (idx : ℕ) → idx < per * slab_page_count → Place idx
  unfolding slab_obj
  Place-of idx lt =
      let positive : 0 < per = (le-div_iff_mul-le some_size).1 (omega arith) in
      let page : idx / per < 4 = (div-lt_iff_lt-mul positive).1 (omega arith) in
      let in_page : idx % per < per = mod-lt idx positive in
      let inner : idx % per * size + size ≤ 4088 =
        omega (arith, mul-le-mul_right size in_page, div-mul-le_self 4088 size) in
      record {
        page = omega (arith, page);
        inner = inner;
        adds = div-add-mod' idx per;
        address = omega (arith, page, inner);
      }

  -- What slab_free computes from the address of an object.
  index_of :
      (idx : ℕ)
      → idx < per * slab_page_count
      → object_index buffer per size (slab_obj buffer per size idx) ≡ idx
  unfolding object_index
  index_of idx lt =
      let place = Place-of idx lt in
      let few : per ≤ 4088 = div-le_self 4088 size in
      let offset : sub64 (slab_obj buffer per size idx) buffer
          ≡ idx / per * 4096 + idx % per * size =
        omega (arith, place.address, place.page, place.inner) in
      let page : (idx / per * 4096 + idx % per * size) / page_size ≡ idx / per =
        omega (arith, place.inner) in
      let inner : (idx / per * 4096 + idx % per * size) % page_size ≡ idx % per * size =
        omega (arith, place.inner) in
      rw (offset, page, inner, mul-div_cancel (idx % per) some_size) (omega (arith, place.adds))

  -- Pages are numbered in the order of the objects.
  page_order : (i j : ℕ) → i < j → 0 < per → i / per ≤ j / per
  page_order i j lt positive = elim (Bool-cases (ltb (j / per) (i / per))) [
    | inl less ↦
        let below : j / per + 1 ≤ i / per = ground arith in
        absurd (
          omega (
            arith,
            mul-le-mul_right per below,
            mod-lt j positive,
            div-add-mod' i per,
            div-add-mod' j per,
          ))
    | inr e ↦ ground arith
  ]

  -- An object ends before the next one begins.
  ordered :
      (i j : ℕ)
      → i < j
      → j < per * slab_page_count
      → slab_obj buffer per size i + size ≤ slab_obj buffer per size j
  ordered i j lt end =
      let a = Place-of i (omega arith) in
      let b = Place-of j end in
      let positive : 0 < per = (le-div_iff_mul-le some_size).1 (omega arith) in
      elim (Bool-cases (ltb (i / per) (j / per))) [
        | inl less ↦
            let below : i / per < j / per = ground arith in
            omega (arith, a.address, b.address, a.inner)
        | inr e ↦
            let same : i / per ≡ j / per = ground (arith, page_order i j lt positive) in
            let later : i % per < j % per = omega (arith, a.adds, b.adds, ap (λ p. p * per) same) in
            omega (arith, a.address, b.address, same, mul-le-mul_right size later)
      ]

-- The address of an object of a slab leads back to its number; the object lies within one page of
-- the buffer, below the word at its end that holds the slab. For objects of 1 to 4088 bytes and a
-- buffer that does not wrap.
pub slab_obj-object_index :
    (buffer size idx : ℕ)
    → 1 ≤ size
    → size ≤ 4088
    → buffer + 4 * 4096 ≤ 2 ^ 64
    → idx < (page_size - 8) / size * slab_page_count
    → let ptr = slab_obj buffer ((page_size - 8) / size) size idx in
      (object_index buffer ((page_size - 8) / size) size ptr ≡ idx)
      × (buffer ≤ ptr)
      × ((sub64 ptr buffer) % page_size + size ≤ page_size - 8)
      × (ptr + size ≤ buffer + slab_page_count * page_size)
slab_obj-object_index buffer size idx some_size small fits lt =
    let place = Place-of buffer size some_size small fits idx lt in
    (
      index_of buffer size some_size small fits idx lt,
      omega (arith, place.address),
      omega (arith, place.address, place.page, place.inner),
      omega (arith, place.address, place.page, place.inner),
    )

-- The objects of a slab do not overlap: each ends before the next one begins. For objects of 1 to
-- 4088 bytes and a buffer that does not wrap.
pub slab_obj-ordered :
    (buffer size i j : ℕ)
    → 1 ≤ size
    → size ≤ 4088
    → buffer + 4 * 4096 ≤ 2 ^ 64
    → i < j
    → j < (page_size - 8) / size * slab_page_count
    → slab_obj buffer ((page_size - 8) / size) size i + size
      ≤ slab_obj buffer ((page_size - 8) / size) size j
slab_obj-ordered buffer size i j some_size small fits lt end =
    ordered buffer size some_size small fits i j lt end
