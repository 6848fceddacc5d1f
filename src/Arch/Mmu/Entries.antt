-- ===== src/Arch/Mmu/Entries.antt =====
-- The arithmetic of table entries and addresses.
use arcane_os.Prelude.{
  ℕ, ◌+◌, ◌*◌, ◌/◌, ◌%◌, ◌^◌, ◌≡◌, true, false, arith, bit_or, ◌==◌, if◌then◌else◌,
}
use arcane_os.Prelude.Bits.{bit_and-ones, bit_or-shl, bit_or-shl_add}
use arcane_os.Mm.Page.{map_read, map_write, map_user}
use arcane_os.Arch.Mmu.{get_level, exists}

pub get_level-mod : (addr level : ℕ) → get_level addr level ≡ addr / 2 ^ (12 + level * 9) % 512
unfolding get_level
get_level-mod addr level = bit_and-ones 9 (addr / 2 ^ (12 + level * 9))

pub exists-mod : (x : ℕ) → exists x ≡ (if x % 2 == 0 then false else true)
unfolding exists
exists-mod x = rw (bit_and-ones 1 x)

-- The entry that `mmu_new_level` stores: the address and three flags.
pub new_entry :
    (n : ℕ) → bit_or (bit_or (bit_or (n * 4096) map_read) map_write) map_user ≡ n * 4096 + 7
new_entry n = rw (
  bit_or-shl 12 n 1 (omega arith),
  bit_or-shl_add 12 n 1 2 (omega arith) (omega arith),
  bit_or-shl_add 12 n 3 4 (omega arith) (omega arith),
)

-- The page that an entry points to.
abbrev pub page_of : ℕ → ℕ
page_of x = x / 4096 % 2 ^ 40
