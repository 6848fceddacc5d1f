-- ===== src/Strings/CString/Span.antt =====
-- `strncmp` and `strcspn` of kernel/src/lib/string.c.
use arcane_os.Prelude.{
  ℕ, zero, suc, ◌+◌, ◌-◌, ◌≤◌, ◌<◌, ◌≡◌, ◌≢◌, List, [], ◌∷◌, length, Bool, true, false, some, arith,
  ◌==◌, ◌&&◌, if◌then◌else◌, Cells, ap, ◌∙◌, refl,
}
use mathlib.Core.Path.{subst}
use arcane_os.Strings.{int_limit, strncmp_loop, strncmp, cspn_loop, strcspn}
use arcane_os.Strings.CString.{IsString, strlen-length}

unfoldable pub is_prefix : List ℕ → List ℕ → Bool
is_prefix [] xs = true
is_prefix (c ∷ cs) [] = false
is_prefix (c ∷ cs) (x ∷ xs) = (x == c) && is_prefix cs xs

-- The length of the text before the first place where `cs` stands in it, or of the whole text.
unfoldable pub span_to : List ℕ → List ℕ → ℕ
span_to cs [] = 0
span_to cs (x ∷ xs) = if is_prefix cs (x ∷ xs) then 0 else suc (span_to cs xs)

pub IsString-rebase :
    (m : Cells ℕ) (s i j : ℕ) (xs : List ℕ) → IsString m s (i + j) xs → IsString m (s + i) j xs
IsString-rebase m s i j [] str = ap m (omega arith) ∙ str
IsString-rebase m s i j (x ∷ xs) (e, ne, str) = (
  ap m (omega arith) ∙ e,
  ne,
  IsString-rebase m s i (j + 1) xs (subst (λ k. IsString m s k xs) (omega arith) str),
)

strncmp_loop-is_prefix :
    (m : Cells ℕ) (s t i : ℕ) (cs xs : List ℕ)
    → IsString m s i xs
    → IsString m t i cs
    → (strncmp_loop (length cs) i m s t == 0) ≡ is_prefix cs xs
unfolding strncmp_loop is_prefix
strncmp_loop-is_prefix m s t i [] xs str pat = refl
strncmp_loop-is_prefix m s t i (c ∷ cs) [] str (e, ne, pat) = ground arith
strncmp_loop-is_prefix m s t i (c ∷ cs) (x ∷ xs) (e, ne, str) (e', ne', pat) =
    ground (arith, strncmp_loop-is_prefix m s t (i + 1) cs xs str pat)

starts :
    (m : Cells ℕ) (s t i : ℕ) (cs xs : List ℕ)
    → IsString m s i xs
    → IsString m t 0 cs
    → (strncmp m (s + i) t (length cs) == 0) ≡ is_prefix cs xs
unfolding strncmp
starts m s t i cs xs str pat =
    strncmp_loop-is_prefix m (s + i) t 0 cs xs
      (IsString-rebase m s i 0 xs (subst (λ k. IsString m s k xs) (omega arith) str)) pat

cspn_loop-span_to :
    (f i : ℕ) (m : Cells ℕ) (s t : ℕ) (cs : List ℕ) (x : ℕ) (xs : List ℕ)
    → IsString m s i (x ∷ xs)
    → IsString m t 0 cs
    → length (x ∷ xs) < f
    → cspn_loop f i m s t (length cs) ≡ some (i + span_to cs (x ∷ xs))
unfolding cspn_loop span_to
cspn_loop-span_to zero i m s t cs x xs str pat lt = absurd (omega arith)
cspn_loop-span_to (suc f) i m s t cs x [] str pat lt =
    ground (arith, starts m s t i cs (x ∷ []) str pat)
cspn_loop-span_to (suc f) i m s t cs x (y ∷ ys) str pat lt = ground (
  arith,
  starts m s t i cs (x ∷ y ∷ ys) str pat,
  cspn_loop-span_to f (i + 1) m s t cs y ys str.2 pat,
)

-- On a text that is not empty, `strcspn` returns the length of the text before the first place
-- where the whole of `charset` stands, or the length of the text if there is none.
pub strcspn-span_to :
    (m : Cells ℕ) (s t : ℕ) (cs xs : List ℕ)
    → IsString m s 0 xs
    → IsString m t 0 cs
    → xs ≢ []
    → length xs < int_limit
    → length cs < int_limit
    → strcspn m s t ≡ some (span_to cs xs)
unfolding strcspn
strcspn-span_to m s t cs [] str pat ne lt lt' = absurd (ne refl)
strcspn-span_to m s t cs (x ∷ xs) str pat ne lt lt' =
    rw (strlen-length m t cs pat lt', strcspn)
      (cspn_loop-span_to int_limit 0 m s t cs x xs str pat lt ∙ ap some (omega arith))

le-cspn_loop : (f i : ℕ) (m : Cells ℕ) (s t n r : ℕ) → cspn_loop f i m s t n ≡ some r → i ≤ r
unfolding cspn_loop
le-cspn_loop zero i m s t n r e = cc
le-cspn_loop (suc f) i m s t n r e = ground (arith, le-cspn_loop f (i + 1) m s t n r)

cspn_loop-empty :
    (f : ℕ) (m : Cells ℕ) (s t n : ℕ)
    → (strncmp m (s + 0) t n == 0) ≡ false
    → cspn_loop (suc f) 0 m s t n ≢ some 0
unfolding cspn_loop
cspn_loop-empty f m s t n miss e = ground (arith, le-cspn_loop f (0 + 1) m s t n 0)

-- On the empty text, with a charset that is not, `strcspn` does not return 0, the length of the
-- text: it steps past the terminator before it looks.
pub strcspn-empty :
    (m : Cells ℕ) (s t : ℕ) (c : ℕ) (cs : List ℕ)
    → IsString m s 0 []
    → IsString m t 0 (c ∷ cs)
    → length (c ∷ cs) < int_limit
    → strcspn m s t ≢ some 0
unfolding strcspn is_prefix
strcspn-empty m s t c cs str pat lt =
    rw (strlen-length m t (c ∷ cs) pat lt, strcspn)
      (cspn_loop-empty (int_limit - 1) m s t (length (c ∷ cs)) (starts m s t 0 (c ∷ cs) [] str pat))
