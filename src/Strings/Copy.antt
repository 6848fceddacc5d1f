-- ===== src/Strings/Copy.antt =====
-- What the memory functions of kernel/src/lib/string.c leave in memory, byte by byte.
use arcane_os.Prelude.{
  ℕ, zero, suc, ◌+◌, ◌-◌, ◌≤◌, ◌≡◌, ◌⊎◌, inl, inr, Bool, Bool-cases, arith, u8, ltb, leb, ◌&&◌,
  if◌then◌else◌, Cells, write,
}
use arcane_os.Strings.{copy_up, copy_down, memcpy, memmove, memset, set_loop}

-- `b` is one of the `n` addresses from `a` on.
abbrev pub in_block : (a n b : ℕ) → Bool
in_block a n b = leb a b && ltb b (a + n)

copy_up-block :
    (r i : ℕ) (m : Cells ℕ) (dest src b : ℕ)
    → (dest ≤ src) ⊎ (src + i + r ≤ dest)
    → copy_up r i m dest src b ≡ (if in_block (dest + i) r b then m (src + (b - dest)) else m b)
unfolding copy_up write
copy_up-block zero i m dest src b apart = ground arith
copy_up-block (suc r) i m dest src b apart =
    let m' : Cells ℕ = write m (dest + i) (m (src + i)) in
    ground (arith, copy_up-block r (i + 1) m' dest src b)

copy_down-block :
    (i : ℕ) (m : Cells ℕ) (dest src b : ℕ)
    → src ≤ dest
    → copy_down i m dest src b ≡ (if in_block dest i b then m (src + (b - dest)) else m b)
unfolding copy_down write
copy_down-block zero m dest src b low = ground arith
copy_down-block (suc i) m dest src b low =
    let m' : Cells ℕ = write m (dest + i) (m (src + i)) in
    ground (arith, copy_down-block i m' dest src b)

-- `memmove` copies the block as it was before the call, however source and destination overlap,
-- and changes nothing outside the destination.
pub memmove-block :
    (m : Cells ℕ) (dest src n b : ℕ)
    → memmove m dest src n b ≡ (if in_block dest n b then m (src + (b - dest)) else m b)
unfolding memmove
memmove-block m dest src n b = elim (Bool-cases (ltb dest src)) [
  | inl up ↦ ground (arith, copy_up-block n 0 m dest src b)
  | inr down ↦ ground (arith, copy_down-block n m dest src b)
]

-- `memcpy` does the same where the destination does not begin inside the source block.
pub memcpy-block :
    (m : Cells ℕ) (dest src n b : ℕ)
    → (dest ≤ src) ⊎ (src + n ≤ dest)
    → memcpy m dest src n b ≡ (if in_block dest n b then m (src + (b - dest)) else m b)
unfolding memcpy
memcpy-block m dest src n b apart = ground (arith, copy_up-block n 0 m dest src b)

set_loop-block :
    (r i : ℕ) (m : Cells ℕ) (dest val b : ℕ)
    → set_loop r i m dest val b ≡ (if in_block (dest + i) r b then u8 val else m b)
unfolding set_loop write
set_loop-block zero i m dest val b = ground arith
set_loop-block (suc r) i m dest val b =
    ground (arith, set_loop-block r (i + 1) (write m (dest + i) (u8 val)) dest val b)

-- `memset` stores the low byte of `val` at each address of the block, and nothing elsewhere.
pub memset-block :
    (m : Cells ℕ) (dest val n b : ℕ)
    → memset m dest val n b ≡ (if in_block dest n b then u8 val else m b)
unfolding memset
memset-block m dest val n b = ground (arith, set_loop-block n 0 m dest val b)
