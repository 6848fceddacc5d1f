-- ===== src/Prelude/Bits.antt =====
-- Laws of `&` and `|` at variables: masks of low bits, fields above and below a cut.
use Prim.Native.Nat.{
  ℕ, zero, suc, ◌+◌, ◌-◌, ◌*◌, ◌/◌, ◌%◌, ◌^◌, ◌≤◌, ◌<◌, min, max, digits, bit_and, bit_or,
  bit_and-bitwise, bit_or-bitwise,
}
use mathlib.Core.Path.{◌≡◌, refl, sym, ap, ◌∙◌}
use mathlib.Core.Bool.{Bool, true, ◌&&◌}
use native.Mathlib.Omega.{arith}
use native.Mathlib.Nat.{
  le_refl, pow-suc, mod-lt, mod-eq_of_lt, mul-one, add-zero, div-one, add-mul-mod_self_right,
  div-div-eq-div-mul, div-add-mod',
}

-- Every value below a bound, by evaluation.
unfoldable pub all_below : ℕ → (ℕ → Bool) → Bool
all_below zero p = true
all_below (suc n) p = p n && all_below n p

pub all_below-true : (n : ℕ) (p : ℕ → Bool) (x : ℕ) → all_below n p ≡ true → x < n → p x ≡ true
unfolding all_below
all_below-true zero p x h lt = elim lt [ ]
all_below-true (suc n) p x h lt = ground (arith, all_below-true n p x)

-- The native operations on digits, without the count of digits that their recursion runs on:
-- `base` is the equation at 0.
module _ (last : ℕ → ℕ) (op : ℕ → ℕ → ℕ)
    (base : (b : ℕ) → last b ≡ last (b / 2) * 2 + op 0 (b % 2)) where
  no_digits : (k b : ℕ) → digits last op k 0 b ≡ last b
  no_digits zero b = refl
  no_digits (suc k) b = refl

  any_count : (k a b : ℕ) → a ≤ k → (j : ℕ) → a ≤ j → digits last op k a b ≡ digits last op j a b
  any_count k zero b le j le' = no_digits k b ∙ sym (no_digits j b)
  any_count zero (suc a) b le j le' = absurd (omega arith)
  any_count (suc k) (suc a) b le zero le' = absurd (omega arith)
  any_count (suc k) (suc a) b le (suc j) le' =
      let deeper = any_count k (suc a / 2) (b / 2) (omega arith) j (omega arith) in
      ap (λ n. n * 2 + op (suc a % 2) (b % 2)) deeper

  lowest_digit :
      (a b : ℕ)
      → digits last op a a b ≡ digits last op (a / 2) (a / 2) (b / 2) * 2 + op (a % 2) (b % 2)
  lowest_digit zero b = base b
  lowest_digit (suc a) b =
      let deeper = any_count a (suc a / 2) (b / 2) (omega arith) (suc a / 2) (omega arith) in
      ap (λ n. n * 2 + op (suc a % 2) (b % 2)) deeper

pub bit_and_step : (a b : ℕ) → bit_and a b ≡ bit_and (a / 2) (b / 2) * 2 + min (a % 2) (b % 2)
bit_and_step a b =
    let here = lowest_digit (λ _. 0) min (λ b. omega arith) a b in
    rw (bit_and-bitwise a b, bit_and-bitwise (a / 2) (b / 2)) here

pub bit_or_step : (a b : ℕ) → bit_or a b ≡ bit_or (a / 2) (b / 2) * 2 + max (a % 2) (b % 2)
bit_or_step a b =
    let here = lowest_digit (λ y. y) max (λ b. omega arith) a b in
    rw (bit_or-bitwise a b, bit_or-bitwise (a / 2) (b / 2)) here

zero-bit_and : (b : ℕ) → bit_and 0 b ≡ 0
zero-bit_and b = bit_and-bitwise 0 b

pub zero-bit_or : (b : ℕ) → bit_or 0 b ≡ b
zero-bit_or b = bit_or-bitwise 0 b

bit_or-zero_upto : (n a : ℕ) → a ≤ n → bit_or a 0 ≡ a
bit_or-zero_upto zero zero h = refl
bit_or-zero_upto zero (suc a) h = elim h [ ]
bit_or-zero_upto (suc n) a h =
    omega (arith, bit_or_step a 0, bit_or-zero_upto n (a / 2) (omega arith))

pub bit_or-zero : (a : ℕ) → bit_or a 0 ≡ a
bit_or-zero a = bit_or-zero_upto a a (le_refl a)

bit_and-zero_upto : (n a : ℕ) → a ≤ n → bit_and a 0 ≡ 0
bit_and-zero_upto zero zero h = refl
bit_and-zero_upto zero (suc a) h = elim h [ ]
bit_and-zero_upto (suc n) a h =
    omega (arith, bit_and_step a 0, bit_and-zero_upto n (a / 2) (omega arith))

pub bit_and-zero : (a : ℕ) → bit_and a 0 ≡ 0
bit_and-zero a = bit_and-zero_upto a a (le_refl a)

two_pow-pos : (k : ℕ) → 0 < 2 ^ k
two_pow-pos zero = omega arith
two_pow-pos (suc k) = omega (arith, pow-suc 2 k, two_pow-pos k)

mod-double : (a m : ℕ) → 0 < m → a % (m * 2) ≡ (a / 2 % m) * 2 + a % 2
mod-double a m pos =
    let r : ℕ = (a / 2 % m) * 2 + a % 2 in
    let split : a ≡ r + (a / 2 / m) * (m * 2) =
      omega (arith, div-add-mod' (a / 2) m, ap (λ (t : ℕ). t * 2) (div-add-mod' (a / 2) m)) in
    ap (λ n. n % (m * 2)) split
    ∙ add-mul-mod_self_right r (a / 2 / m) (m * 2)
    ∙ mod-eq_of_lt (omega (arith, mod-lt (a / 2) pos))

-- `x & ((1 << k) - 1)` keeps the low k bits.
pub bit_and-ones : (k a : ℕ) → bit_and a (2 ^ k - 1) ≡ a % 2 ^ k
bit_and-ones zero a = omega (arith, bit_and-zero a)
bit_and-ones (suc k) a =
    let half : (2 ^ suc k - 1) / 2 ≡ 2 ^ k - 1 = omega (arith, pow-suc 2 k, two_pow-pos k) in
    let odd : (2 ^ suc k - 1) % 2 ≡ 1 = omega (arith, pow-suc 2 k, two_pow-pos k) in
    bit_and_step a (2 ^ suc k - 1)
    ∙ rw (half, odd, bit_and-ones k (a / 2), pow-suc 2 k, mod-double a (2 ^ k) (two_pow-pos k))
        (omega arith)

-- A mask that is zero below bit k.
pub bit_and-shl : (k a m : ℕ) → bit_and a (m * 2 ^ k) ≡ bit_and (a / 2 ^ k) m * 2 ^ k
bit_and-shl zero a m = rw (mul-one, mul-one, div-one)
bit_and-shl (suc k) a m =
    let even : m * 2 ^ suc k ≡ m * 2 ^ k * 2 = omega (arith, ap (λ (t : ℕ). m * t) (pow-suc 2 k)) in
    let half : m * 2 ^ k * 2 / 2 ≡ m * 2 ^ k = omega arith in
    let low : m * 2 ^ k * 2 % 2 ≡ 0 = omega arith in
    let deep : a / 2 / 2 ^ k ≡ a / 2 ^ suc k =
      div-div-eq-div-mul a 2 (2 ^ k) ∙ ap (λ n. a / n) (omega (arith, pow-suc 2 k)) in
    rw (even, bit_and_step a (m * 2 ^ k * 2), half, low, bit_and-shl k (a / 2) m, deep)
      (omega (arith, ap (λ (t : ℕ). bit_and (a / 2 ^ suc k) m * t) (pow-suc 2 k)))

-- The bits from k up of a number do not take part in an `|` with a number below bit k.
pub bit_or-shl_add :
    (k a g f : ℕ) → g < 2 ^ k → f < 2 ^ k → bit_or (a * 2 ^ k + g) f ≡ a * 2 ^ k + bit_or g f
bit_or-shl_add zero a g f hg hf =
    let no_g : g ≡ 0 = omega arith in
    let no_f : f ≡ 0 = omega arith in
    rw (no_g, no_f, bit_or-zero) (omega (arith, bit_or-zero (a * 1 + 0)))
bit_or-shl_add (suc k) a g f hg hf =
    let even : a * 2 ^ suc k ≡ a * 2 ^ k * 2 = omega (arith, ap (λ (t : ℕ). a * t) (pow-suc 2 k)) in
    let half : (a * 2 ^ k * 2 + g) / 2 ≡ a * 2 ^ k + g / 2 = omega arith in
    let low : (a * 2 ^ k * 2 + g) % 2 ≡ g % 2 = omega arith in
    rw (even, bit_or_step (a * 2 ^ k * 2 + g) f, half, low)
      (omega (
        arith,
        bit_or_step g f,
        bit_or-shl_add k a (g / 2) (f / 2) (omega (arith, pow-suc 2 k))
            (omega (arith, pow-suc 2 k)),
      ))

-- Two fields that do not overlap: `|` is `+`.
pub bit_or-shl : (k a f : ℕ) → f < 2 ^ k → bit_or (a * 2 ^ k) f ≡ a * 2 ^ k + f
bit_or-shl k a f h = omega (
  arith,
  bit_or-shl_add k a 0 f (two_pow-pos k) h,
  ap (λ x. bit_or x f) (add-zero (a * 2 ^ k)),
  zero-bit_or f,
)

bit_or_comm_upto : (n a b : ℕ) → a ≤ n → bit_or a b ≡ bit_or b a
bit_or_comm_upto n zero b h = zero-bit_or b ∙ sym (bit_or-zero b)
bit_or_comm_upto zero (suc a) b h = elim h [ ]
bit_or_comm_upto (suc n) (suc a) b h = omega (
  arith,
  bit_or_step (suc a) b,
  bit_or_step b (suc a),
  bit_or_comm_upto n (suc a / 2) (b / 2) (omega arith),
)

pub bit_or_comm : (a b : ℕ) → bit_or a b ≡ bit_or b a
bit_or_comm a b = bit_or_comm_upto a a b (le_refl a)

-- Bits below `k` and bits from `k` on: the bitwise or is a sum.
pub bit_or_disjoint : (k f a : ℕ) → f < 2 ^ k → bit_or f (a * 2 ^ k) ≡ a * 2 ^ k + f
bit_or_disjoint k f a h = bit_or_comm f (a * 2 ^ k) ∙ bit_or-shl k a f h
