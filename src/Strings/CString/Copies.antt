-- ===== src/Strings/CString/Copies.antt =====
-- `strcpy` of kernel/src/lib/string.c.
use arcane_os.Prelude.{
  ℕ, zero, suc, ◌+◌, ◌-◌, ◌≤◌, ◌<◌, ◌≡◌, ◌⊎◌, List, [], ◌∷◌, length, some, arith, ◌==◌,
  if◌then◌else◌, Cells, write, write-ne, ne→==, Option, false, ◌∙◌, sym,
}
use arcane_os.Strings.{int_limit, strcpy_loop, strcpy}
use arcane_os.Strings.Copy.{in_block}
use arcane_os.Strings.CString.{IsString}

-- A string survives a change elsewhere.
pub IsString-frame :
    (m m' : Cells ℕ) (s t i : ℕ) (xs : List ℕ)
    → ((k : ℕ) → i ≤ k → k ≤ i + length xs → m' (t + k) ≡ m (s + k))
    → IsString m s i xs
    → IsString m' t i xs
IsString-frame m m' s t i [] same str = same i (omega arith) (omega arith) ∙ str
IsString-frame m m' s t i (x ∷ xs) same (e, ne, str) = (
  same i (omega arith) (omega arith) ∙ e,
  ne,
  IsString-frame m m' s t (i + 1) xs (λ k lo hi. same k (omega arith) (omega arith)) str,
)

-- `m'` is `m` with the block of `n` bytes from `src + i` copied to `dest + i`.
abbrev pub Copied : (m m' : Cells ℕ) (dest src i n : ℕ) → Type 0
Copied m m' dest src i n =
    (b : ℕ) → m' b ≡ (if in_block (dest + i) n b then m (src + (b - dest)) else m b)

Copied-end :
    (m : Cells ℕ) (dest src i : ℕ) → m (src + i) ≡ 0 → Copied m (write m (dest + i) 0) dest src i 1
unfolding write
Copied-end m dest src i e b = ground arith

Copied-cons :
    (m m' : Cells ℕ) (dest src i n : ℕ)
    → (dest ≤ src) ⊎ (src + i + n < dest)
    → Copied (write m (dest + i) (m (src + i))) m' dest src (i + 1) n
    → Copied m m' dest src i (suc n)
unfolding write
Copied-cons m m' dest src i n apart rest b = ground (arith, rest b)

strcpy_loop-Copied :
    (f i : ℕ) (m : Cells ℕ) (dest src : ℕ) (xs : List ℕ)
    → IsString m src i xs
    → (dest ≤ src) ⊎ (src + i + length xs < dest)
    → length xs < f
    → (m' : Cells ℕ) × (strcpy_loop f i m dest src ≡ some m')
      × Copied m m' dest src i (suc (length xs))
unfolding strcpy_loop
strcpy_loop-Copied zero i m dest src xs str apart lt = absurd (omega arith)
strcpy_loop-Copied (suc f) i m dest src [] str apart lt =
    (write m (dest + i) 0, ground arith, Copied-end m dest src i str)
strcpy_loop-Copied (suc f) i m dest src (x ∷ xs) (e, ne, str) apart lt =
    let m1 : Cells ℕ = write m (dest + i) (m (src + i)) in
    let str1 : IsString m1 src (i + 1) xs =
      IsString-frame m m1 src src (i + 1) xs (λ k lo hi. write-ne m (m (src + i)) (ground arith))
        str in
    let (m', done, copied) =
      strcpy_loop-Copied f (i + 1) m1 dest src xs str1 (omega arith) (omega arith) in
    (
      m',
      miss (strcpy_loop f (i + 1) m1 dest src) done,
      Copied-cons m m' dest src i (suc (length xs)) (omega arith) copied,
    )
  where
    miss :
        (r : Option (Cells ℕ)) {m' : Cells ℕ}
        → r ≡ some m'
        → (if m (src + i) == 0 then some (write m (dest + i) 0) else r) ≡ some m'
    miss r done = rw (ne→== (m (src + i)) 0 (λ z. ne (sym e ∙ z))) done

IsString-Copied :
    (m m' : Cells ℕ) (dest src : ℕ) (xs : List ℕ)
    → IsString m src 0 xs
    → Copied m m' dest src 0 (suc (length xs))
    → IsString m' dest 0 xs
IsString-Copied m m' dest src xs str copied =
    IsString-frame m m' src dest 0 xs (λ k lo hi. ground (arith, copied (dest + k))) str

-- `strcpy` returns: it copies the text and its terminator to `dest` and changes nothing else,
-- where the destination does not begin inside the source string.
pub strcpy-IsString :
    (m : Cells ℕ) (dest src : ℕ) (xs : List ℕ)
    → IsString m src 0 xs
    → (dest ≤ src) ⊎ (src + length xs < dest)
    → length xs < int_limit
    → (m' : Cells ℕ) × (strcpy m dest src ≡ some m')
      × IsString m' dest 0 xs
      × ((b : ℕ) → in_block dest (suc (length xs)) b ≡ false → m' b ≡ m b)
unfolding strcpy
strcpy-IsString m dest src xs str apart lt =
    let (m', done, copied) = strcpy_loop-Copied int_limit 0 m dest src xs str (omega arith) lt in
    (m', done, IsString-Copied m m' dest src xs str copied, λ b out. ground (arith, copied b))
