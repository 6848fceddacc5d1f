-- ===== src/Mm/Page.antt =====
-- Page arithmetic: the macros of kernel/src/include/mm/pmm.h and the x86-64 constants of
-- kernel/src/include/arch/mmu.h. uint64_t wraps at 2 ^ 64.
use arcane_os.Prelude.{
  ℕ, ◌+◌, ◌-◌, ◌*◌, ◌/◌, ◌%◌, ◌^◌, ◌≤◌, ◌<◌, ◌≡◌, ◌∙◌, arith, u64, sub64, bit_and, ap,
}
use arcane_os.Prelude.Bits.{bit_and-ones, bit_and-shl}

abbrev pub page_size : ℕ
page_size = 4096

abbrev pub map_read : ℕ
map_read = 1

abbrev pub map_write : ℕ
map_write = 2

abbrev pub map_user : ℕ
map_user = 4

abbrev pub map_nx : ℕ
map_nx = 2 ^ 63

-- HIGHER_HALF and LOWER_HALF at the offset `hhdm_offset`
unfoldable pub higher_half : ℕ → ℕ → ℕ
higher_half hhdm x = u64 (x + hhdm)

unfoldable pub lower_half : ℕ → ℕ → ℕ
lower_half hhdm x = sub64 x hhdm

unfoldable pub div_round_up : ℕ → ℕ → ℕ
div_round_up x y = u64 (x + (y - 1)) / y

unfoldable pub align_up : ℕ → ℕ → ℕ
unfolding div_round_up
align_up x y = u64 (div_round_up x y * y)

unfoldable pub align_down : ℕ → ℕ → ℕ
align_down x y = x / y * y

-- GET_ADDR_FROM_PAGE
unfoldable pub get_addr_from_page : ℕ → ℕ
get_addr_from_page x = bit_and x 0x000ffffffffff000

-- The address bits of an entry, without the flags below bit 12 and the bits from 52 up.
pub get_addr_from_page-mod : (x : ℕ) → get_addr_from_page x ≡ x / 4096 % 2 ^ 40 * 4096
unfolding get_addr_from_page
get_addr_from_page-mod x =
    bit_and-shl 12 x (2 ^ 40 - 1) ∙ ap (λ n. n * 4096) (bit_and-ones 40 (x / 2 ^ 12))

-- ALIGN_UP gives the least multiple of a page that is not below its argument, ALIGN_DOWN the
-- greatest that is not above it, unless the sum wraps.
pub align_bounds :
    (x : ℕ)
    → x + 4095 < 2 ^ 64
    → (x ≤ align_up x page_size)
      × (align_up x page_size < x + page_size)
      × (align_up x page_size % page_size ≡ 0)
      × (align_down x page_size ≤ x)
      × (x < align_down x page_size + page_size)
      × (align_down x page_size % page_size ≡ 0)
unfolding align_up align_down
align_bounds x h = omega arith

pub lower_half-higher_half :
    (hhdm x : ℕ) → x < 2 ^ 64 → hhdm < 2 ^ 64 → lower_half hhdm (higher_half hhdm x) ≡ x
unfolding lower_half higher_half
lower_half-higher_half hhdm x hx hh = omega arith
