-- ===== src/Strings/Compare.antt =====
-- `memcmp` of kernel/src/lib/string.c against the first position where two blocks differ.
use arcane_os.Prelude.{
  ℕ, zero, suc, ◌+◌, ◌<◌, ◌≤◌, ◌≡◌, ◌≢◌, refl, inl, inr, Bool-cases, arith, ltb, ◌==◌, Cells,
}
use arcane_os.Strings.{Sign, minus_one, nought, one, cmp_loop, memcmp}

-- From offset `i` on the blocks agree for `n` bytes.
abbrev pub Agree : Cells ℕ → (s1 s2 i n : ℕ) → Type 0
Agree m s1 s2 i n = (j : ℕ) → i ≤ j → j < i + n → m (s1 + j) ≡ m (s2 + j)

-- What a result says: all bytes agree, or the first that differ are in the order of the sign.
abbrev pub Compares : Cells ℕ → (s1 s2 i n : ℕ) → Sign → Type 0
Compares m s1 s2 i n minus_one =
    (k : ℕ) × (k < n) × Agree m s1 s2 i k × (m (s1 + (i + k)) < m (s2 + (i + k)))
Compares m s1 s2 i n nought = Agree m s1 s2 i n
Compares m s1 s2 i n one =
    (k : ℕ) × (k < n) × Agree m s1 s2 i k × (m (s2 + (i + k)) < m (s1 + (i + k)))

Agree-cons :
    (m : Cells ℕ) (s1 s2 i n : ℕ)
    → m (s1 + i) ≡ m (s2 + i)
    → Agree m s1 s2 (i + 1) n
    → Agree m s1 s2 i (suc n)
Agree-cons m s1 s2 i n e all j lo hi = ground (arith, all j)

Compares-cons :
    (m : Cells ℕ) (s1 s2 i n : ℕ) (r : Sign)
    → m (s1 + i) ≡ m (s2 + i)
    → Compares m s1 s2 (i + 1) n r
    → Compares m s1 s2 i (suc n) r
Compares-cons m s1 s2 i n minus_one e (k, lt, all, diff) =
    (suc k, omega arith, Agree-cons m s1 s2 i k e all, ground arith)
Compares-cons m s1 s2 i n nought e all = Agree-cons m s1 s2 i n e all
Compares-cons m s1 s2 i n one e (k, lt, all, diff) =
    (suc k, omega arith, Agree-cons m s1 s2 i k e all, ground arith)

cmp_loop-Compares :
    (n i : ℕ) (m : Cells ℕ) (s1 s2 : ℕ) → Compares m s1 s2 i n (cmp_loop n i m s1 s2)
unfolding cmp_loop
cmp_loop-Compares zero i m s1 s2 = λ j lo hi. absurd (omega arith)
cmp_loop-Compares (suc n) i m s1 s2 = elim (Bool-cases (m (s1 + i) == m (s2 + i))) [
  | inl e ↦ rw e (Compares-cons m s1 s2 i n _ (ground arith) (cmp_loop-Compares n (i + 1) m s1 s2))
  | inr ne ↦ elim (Bool-cases (ltb (m (s1 + i)) (m (s2 + i)))) [
    | inl less ↦ rw (ne, less) (0, omega arith, λ j lo hi. absurd (omega arith), ground arith)
    | inr more ↦ rw (ne, more) (0, omega arith, λ j lo hi. absurd (omega arith), ground arith)
  ]
]

-- `memcmp` gives 0 exactly if the blocks agree, and otherwise the order of the first two bytes
-- that differ.
pub memcmp-Compares : (m : Cells ℕ) (s1 s2 n : ℕ) → Compares m s1 s2 0 n (memcmp m s1 s2 n)
unfolding memcmp
memcmp-Compares m s1 s2 n = cmp_loop-Compares n 0 m s1 s2

-- A choice that treats blocks that differ alike.
pub stops :
    {A : Type 0} (sign : Sign) (more : A) {end : A}
    → sign ≢ nought
    → (elim sign [ minus_one ↦ end | nought ↦ more | one ↦ end ]) ≡ end
stops minus_one more ne = refl
stops nought more ne = absurd (ne refl)
stops one more ne = refl
