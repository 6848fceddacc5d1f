-- ===== src/Prelude/Words.antt =====
-- Machine words: casts to the fixed widths, shifts, and the memory that words are read from.
use Prim.Native.Nat.{ℕ, zero, suc, ◌+◌, ◌-◌, ◌*◌, ◌/◌, ◌%◌, ◌^◌}
use mathlib.Core.Path.{◌≡◌}
use mathlib.Core.Logic.{◌≢◌}
use native.Mathlib.Omega.{arith}
use arcane_os.Prelude.Tests.{◌==◌, if◌then◌else◌}

abbrev pub u8 : ℕ → ℕ
u8 n = n % 2 ^ 8

abbrev pub u16 : ℕ → ℕ
u16 n = n % 2 ^ 16

abbrev pub u32 : ℕ → ℕ
u32 n = n % 2 ^ 32

abbrev pub u64 : ℕ → ℕ
u64 n = n % 2 ^ 64

-- `a - b` on uint64_t
abbrev pub sub64 : ℕ → ℕ → ℕ
sub64 a b = (a + 2 ^ 64 - b) % 2 ^ 64

abbrev pub shr : ℕ → ℕ → ℕ
shr x k = x / 2 ^ k

abbrev pub shl : ℕ → ℕ → ℕ
shl x k = x * 2 ^ k

-- Memory of cells, and one write. A map from identifiers is the same thing.
abbrev pub Cells {ℓ} : Type ℓ → Type ℓ
Cells A = ℕ → A

-- A number of `n` bytes at `a`, the lowest first.
unfoldable pub load : (n : ℕ) → Cells ℕ → (a : ℕ) → ℕ
load zero m a = 0
load (suc n) m a = u8 (m a) + 2 ^ 8 * load n m (a + 1)

module _ {ℓ} {A : Type ℓ} where
  unfoldable pub write : Cells A → ℕ → A → Cells A
  write m a v b = if a == b then v else m b

  pub write_self : (m : Cells A) (a : ℕ) (v : A) → write m a v a ≡ v
  unfolding write
  write_self m a v = ground arith

  pub write-ne : (m : Cells A) {a b : ℕ} (v : A) → a ≢ b → write m a v b ≡ m b
  unfolding write
  write-ne m v h = ground arith
