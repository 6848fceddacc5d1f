-- ===== src/Fs/Vfs/Paths.antt =====
-- Paths in memory: names with a slash between each two.
use mathlib.Core.Path.{subst}
use arcane_os.Prelude.{
  ℕ, suc, ◌+◌, ◌≡◌, ◌≢◌, refl, ◌∙◌, ap, arith, true, false, List, [], ◌∷◌, ◌++◌, length,
  length-append, ◌==◌, Cells, write, write_self, write-ne,
}
use arcane_os.Rings.Seg.{NotIn}
use arcane_os.Strings.CString.{IsString}
use arcane_os.Strings.CString.Span.{is_prefix, span_to}

abbrev pub slash_byte : ℕ
slash_byte = 47

-- The text of a path.
abbrev pub join : List (List ℕ) → List ℕ
join [] = []
join (c ∷ []) = c
join (c ∷ d ∷ cs) = c ++ slash_byte ∷ join (d ∷ cs)

-- Names that are not empty and have no slash.
abbrev pub IsNames : List (List ℕ) → Type 0
IsNames [] = Unit {0}
IsNames (c ∷ cs) = (c ≢ []) × NotIn slash_byte c × IsNames cs

-- The names that the walk of vfs_find meets from address `b` on: their text, and one more zero byte
-- behind its terminator.
abbrev pub IsPath : Cells ℕ → (b : ℕ) → List (List ℕ) → Type 0
IsPath m b [] = m b ≡ 0
IsPath m b (c ∷ cs) = IsString m b 0 (join (c ∷ cs)) × (m (b + (length (join (c ∷ cs)) + 1)) ≡ 0)

pub span_to-plain : (sep : ℕ) (c : List ℕ) → NotIn sep c → span_to (sep ∷ []) c ≡ length c
unfolding span_to is_prefix NotIn
span_to-plain sep [] away = refl
span_to-plain sep (x ∷ c) (ne, away) =
    let other : (x == sep) ≡ false = ground arith in rw other (ap suc (span_to-plain sep c away))

pub span_to-sep :
    (sep : ℕ) (c r : List ℕ) → NotIn sep c → span_to (sep ∷ []) (c ++ sep ∷ r) ≡ length c
unfolding span_to is_prefix NotIn
span_to-sep sep [] r away = let same : (sep == sep) ≡ true = ground arith in rw same refl
span_to-sep sep (x ∷ c) r (ne, away) =
    let other : (x == sep) ≡ false = ground arith in rw other (ap suc (span_to-sep sep c r away))

-- A text that is cut off by a zero byte.
pub IsString-cut :
    (m : Cells ℕ) (b i a : ℕ) (c r : List ℕ)
    → IsString m b i (c ++ r)
    → a ≡ b + (i + length c)
    → IsString (write m a 0) b i c
IsString-cut m b i a [] r str e = ap (write m a 0) (omega (arith, e)) ∙ write_self m a 0
IsString-cut m b i a (x ∷ c) r (here, ne, str) e =
    (write-ne m 0 (omega (arith, e)) ∙ here, ne, IsString-cut m b (i + 1) a c r str (omega arith))

-- The text behind a prefix and one byte.
pub IsString-behind :
    (m : Cells ℕ) (b i : ℕ) (c : List ℕ) (x : ℕ) (r : List ℕ)
    → IsString m b i (c ++ x ∷ r)
    → IsString m b (i + (length c + 1)) r
IsString-behind m b i [] x r (_, _, str) = subst (λ k. IsString m b k r) (omega arith) str
IsString-behind m b i (y ∷ c) x r (_, _, str) =
    subst (λ k. IsString m b k r) (omega arith) (IsString-behind m b (i + 1) c x r str)

-- How many bytes of memory a path takes.
abbrev pub path_size : List (List ℕ) → ℕ
path_size [] = 1
path_size (c ∷ cs) = length (join (c ∷ cs)) + 2

pub path_size-cons :
    (c : List ℕ) (cs : List (List ℕ)) → path_size (c ∷ cs) ≡ length c + (1 + path_size cs)
path_size-cons c [] = omega arith
path_size-cons c (d ∷ cs) = omega (arith, length-append c (slash_byte ∷ join (d ∷ cs)))

pub join-ne : (c : List ℕ) (cs : List (List ℕ)) → c ≢ [] → join (c ∷ cs) ≢ []
join-ne [] cs ne = absurd (ne refl)
join-ne (x ∷ c) [] ne = λ e. cc
join-ne (x ∷ c) (d ∷ cs) ne = λ e. cc

-- What strcspn finds at the start of a path.
pub span_to-join :
    (c : List ℕ) (cs : List (List ℕ))
    → NotIn slash_byte c
    → span_to (slash_byte ∷ []) (join (c ∷ cs)) ≡ length c
span_to-join c [] away = span_to-plain slash_byte c away
span_to-join c (d ∷ cs) away = span_to-sep slash_byte c (join (d ∷ cs)) away
