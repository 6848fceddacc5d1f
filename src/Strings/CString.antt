-- ===== src/Strings/CString.antt =====
-- Strings that end in a zero byte, and the string functions of kernel/src/lib/string.c on them.
pub mod Copies
pub mod Span
use arcane_os.Prelude.{
  ℕ, zero, suc, ◌+◌, ◌≤◌, ◌<◌, ◌≡◌, ◌≢◌, ◌⊎◌, inl, inr, List, [], ◌∷◌, length, Bool, true, false,
  Bool-cases, some, arith, ◌==◌, Cells, ◌∙◌, ap, refl,
}
use arcane_os.Strings.{int_limit, len_loop, strlen, strcmp_loop, strcmp}

-- At offset `i` from `s` stand the bytes `xs`, none of them zero, and then a zero byte.
abbrev pub IsString : Cells ℕ → (s i : ℕ) → List ℕ → Type 0
IsString m s i [] = m (s + i) ≡ 0
IsString m s i (x ∷ xs) = (m (s + i) ≡ x) × (x ≢ 0) × IsString m s (i + 1) xs

len_loop-length :
    (f i : ℕ) (m : Cells ℕ) (s : ℕ) (xs : List ℕ)
    → IsString m s i xs
    → length xs < f
    → len_loop f i m s ≡ some (i + length xs)
unfolding len_loop
len_loop-length zero i m s xs str lt = absurd (omega arith)
len_loop-length (suc f) i m s [] str lt = ground arith
len_loop-length (suc f) i m s (x ∷ xs) (e, ne, str) lt =
    ground (arith, len_loop-length f (i + 1) m s xs str)

-- `strlen` counts the bytes before the terminator.
pub strlen-length :
    (m : Cells ℕ) (s : ℕ) (xs : List ℕ)
    → IsString m s 0 xs
    → length xs < int_limit
    → strlen m s ≡ some (length xs)
unfolding strlen
strlen-length m s xs str lt = len_loop-length int_limit 0 m s xs str lt ∙ ap some (omega arith)

-- What `strcmp` says of two texts.
abbrev pub Decides : List ℕ → List ℕ → ℕ → Type 0
Decides xs ys r = ((r ≡ 0) × (xs ≡ ys)) ⊎ ((r ≡ 1) × (xs ≢ ys))

Decides-cons :
    (x y : ℕ) (xs ys : List ℕ) (r : ℕ) → x ≡ y → Decides xs ys r → Decides (x ∷ xs) (y ∷ ys) r
Decides-cons x y xs ys r h (inl (e, same)) = inl (e, cc)
Decides-cons x y xs ys r h (inr (e, differ)) = inr (e, λ q. differ (cc))

strcmp_loop-Decides :
    (f i : ℕ) (m : Cells ℕ) (s1 s2 : ℕ) (xs ys : List ℕ)
    → IsString m s1 i xs
    → IsString m s2 i ys
    → length xs < f
    → (r : ℕ) × (strcmp_loop f i m s1 s2 ≡ some r) × Decides xs ys r
unfolding strcmp_loop
strcmp_loop-Decides zero i m s1 s2 xs ys a b lt = absurd (omega arith)
strcmp_loop-Decides (suc f) i m s1 s2 [] [] a b lt = (0, ground arith, inl (refl, refl))
strcmp_loop-Decides (suc f) i m s1 s2 [] (y ∷ ys) a (e, ne, b) lt =
    (1, ground arith, inr (refl, λ q. cc))
strcmp_loop-Decides (suc f) i m s1 s2 (x ∷ xs) [] (e, ne, a) b lt =
    (1, ground arith, inr (refl, λ q. cc))
strcmp_loop-Decides (suc f) i m s1 s2 (x ∷ xs) (y ∷ ys) (ea, na, a) (eb, nb, b) lt =
    elim (Bool-cases (x == y)) [
      | inl same ↦
          let (r, found, says) = strcmp_loop-Decides f (i + 1) m s1 s2 xs ys a b (omega arith) in
          (r, ground arith, Decides-cons x y xs ys r (ground arith) says)
      | inr differ ↦ (1, ground arith, inr (refl, λ q. ground arith))
    ]

-- `strcmp` of two strings returns: 0 if they are the same text, and 1 if they are not.
pub strcmp-Decides :
    (m : Cells ℕ) (s1 s2 : ℕ) (xs ys : List ℕ)
    → IsString m s1 0 xs
    → IsString m s2 0 ys
    → length xs < int_limit
    → (r : ℕ) × (strcmp m s1 s2 ≡ some r) × Decides xs ys r
unfolding strcmp
strcmp-Decides m s1 s2 xs ys a b lt = strcmp_loop-Decides int_limit 0 m s1 s2 xs ys a b lt
