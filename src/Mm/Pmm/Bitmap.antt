-- ===== src/Mm/Pmm/Bitmap.antt =====
-- The bitmap of kernel/src/mm/pmm.c as a set of free pages.
use arcane_os.Prelude.{
  ℕ, ◌-◌, ◌/◌, ◌%◌, ◌^◌, ◌<◌, ◌≡◌, refl, ◌&&◌, Bool, true, false, bit_and, bit_or, arith, u8, ◌==◌,
  if◌then◌else◌, Cells, write,
}
use arcane_os.Prelude.Bits.{all_below, all_below-true}
use arcane_os.Mm.Pmm.{Pmm, pmm_bitmap_get, pmm_bitmap_set, pmm_bitmap_clear}

abbrev pub IsBytes : Cells ℕ → Type 0
IsBytes m = (i : ℕ) → m i < 256

unfoldable pub is_free : Pmm → ℕ → Bool
is_free s page = pmm_bitmap_get s page == 0

-- Bit j of a byte after bit k is set or cleared: all bytes and all pairs of bits.
get_bit : ℕ → ℕ → Bool
get_bit b j = u8 (bit_and b (2 ^ j)) == 0

set_bit : ℕ → ℕ → ℕ
set_bit b k = u8 (bit_or b (2 ^ k))

clear_bit : ℕ → ℕ → ℕ
clear_bit b k = u8 (bit_and b (2 ^ 32 - 1 - 2 ^ k))

same : Bool → Bool → Bool
same true b = b
same false true = false
same false false = true

row : ℕ → ℕ → ℕ → Bool
unfolding get_bit set_bit clear_bit same
row b k j =
    same (get_bit (set_bit b k) j) (if k == j then false else get_bit b j)
    && same (get_bit (clear_bit b k) j) (if k == j then true else get_bit b j)

rows : ℕ → Bool
unfolding all_below row
rows b = all_below 8 (λ k. all_below 8 (row b k))

table : all_below 256 rows ≡ true
unfolding rows
table = refl

row-true : (b k j : ℕ) → b < 256 → k < 8 → j < 8 → row b k j ≡ true
unfolding rows
row-true b k j hb hk hj =
    all_below-true 8 (row b k) j
      (all_below-true 8 (λ k. all_below 8 (row b k)) k (all_below-true 256 rows b table hb) hk) hj

row-holds :
    (b k j : ℕ)
    → b < 256
    → k < 8
    → j < 8
    → (get_bit (set_bit b k) j ≡ (if k == j then false else get_bit b j))
      × (get_bit (clear_bit b k) j ≡ (if k == j then true else get_bit b j))
unfolding row
row-holds b k j hb hk hj = ground (arith, row-true b k j hb hk hj)

-- Setting or clearing a bit changes the state of that page and of no other.
pub is_free-set :
    (s : Pmm) (p q : ℕ)
    → IsBytes s.bitmap
    → is_free (pmm_bitmap_set s p) q ≡ (if p == q then false else is_free s q)
unfolding is_free pmm_bitmap_get pmm_bitmap_set write get_bit set_bit
is_free-set s p q bytes = ground (
  arith,
  (row-holds (s.bitmap (p / 8)) (p % 8) (q % 8) (bytes (p / 8)) (omega arith) (omega arith)).0,
)

pub is_free-clear :
    (s : Pmm) (p q : ℕ)
    → IsBytes s.bitmap
    → is_free (pmm_bitmap_clear s p) q ≡ (if p == q then true else is_free s q)
unfolding is_free pmm_bitmap_get pmm_bitmap_clear write get_bit clear_bit
is_free-clear s p q bytes = ground (
  arith,
  (row-holds (s.bitmap (p / 8)) (p % 8) (q % 8) (bytes (p / 8)) (omega arith) (omega arith)).1,
)

pub set-IsBytes : (s : Pmm) (p : ℕ) → IsBytes s.bitmap → IsBytes (pmm_bitmap_set s p).bitmap
unfolding pmm_bitmap_set write
set-IsBytes s p bytes i = ground (arith, bytes i)

pub clear-IsBytes : (s : Pmm) (p : ℕ) → IsBytes s.bitmap → IsBytes (pmm_bitmap_clear s p).bitmap
unfolding pmm_bitmap_clear write
clear-IsBytes s p bytes i = ground (arith, bytes i)
