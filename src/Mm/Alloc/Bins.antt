-- ===== src/Mm/Alloc/Bins.antt =====
-- The size classes of the heap.
use arcane_os.Prelude.{
  ℕ, ◌-◌, ◌*◌, ◌^◌, ◌≤◌, ◌<◌, ◌≡◌, ◌⊎◌, inl, inr, refl, Bool, Bool-cases, true, arith, ltb, leb,
  ◌&&◌, ◌||◌, ◌==◌,
}
use arcane_os.Prelude.Bits.{all_below, all_below-true}
use arcane_os.Mm.Alloc.{bin_index, digits}

-- Bin `i` holds blocks of `8 * 2 ^ i` bytes with their header: it is there, it is large enough,
-- and the one before it is not.
abbrev fits : ℕ → Bool
fits size =
    ltb (bin_index size) 8
    && leb size (8 * 2 ^ bin_index size)
    && ((bin_index size == 0) || ltb (8 * 2 ^ (bin_index size - 1)) size)

fits_all : all_below 1025 fits ≡ true
unfolding all_below bin_index digits
fits_all = refl

pub bin_index-fits :
    (size : ℕ)
    → size ≤ 1024
    → (bin_index size < 8)
      × (size ≤ 8 * 2 ^ bin_index size)
      × ((bin_index size ≡ 0) ⊎ (8 * 2 ^ (bin_index size - 1) < size))
bin_index-fits size le =
    let test : fits size ≡ true = all_below-true 1025 fits size fits_all (omega arith) in
    (
      ground (arith, test),
      ground (arith, test),
      elim (Bool-cases (bin_index size == 0)) [
        | inl first ↦ inl (ground (arith, first))
        | inr later ↦ inr (ground (arith, test, later))
      ],
    )
