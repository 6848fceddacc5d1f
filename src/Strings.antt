-- ===== src/Strings.antt =====
-- kernel/src/lib/string.c over byte memory. Addresses are numbers; a store gives the memory after
-- it. `memcpy`, `memset`, `memmove` and `strcpy` return `dest` in C, and here the new memory.
pub mod Copy
pub mod Compare
pub mod CString
mod Tests
use arcane_os.Prelude.{
  ℕ, zero, suc, ◌+◌, ◌-◌, ◌^◌, Bool, Option, none, some, u8, ltb, not, ◌==◌, ◌&&◌, if◌then◌else◌,
  Cells, write,
}

-- `for (i = 0; i < n; i++) dest8[i] = src8[i];`, with the rounds left and `i`
unfoldable pub copy_up : (rounds i : ℕ) → Cells ℕ → (dest src : ℕ) → Cells ℕ
copy_up zero i m dest src = m
copy_up (suc r) i m dest src = copy_up r (i + 1) (write m (dest + i) (m (src + i))) dest src

-- `for (i = n; i > 0; i--) dest8[i-1] = src8[i-1];`
unfoldable pub copy_down : (i : ℕ) → Cells ℕ → (dest src : ℕ) → Cells ℕ
copy_down zero m dest src = m
copy_down (suc i) m dest src = copy_down i (write m (dest + i) (m (src + i))) dest src

unfoldable pub memcpy : Cells ℕ → (dest src n : ℕ) → Cells ℕ
unfolding copy_up
memcpy m dest src n = copy_up n 0 m dest src

set_loop : (rounds i : ℕ) → Cells ℕ → (dest val : ℕ) → Cells ℕ
set_loop zero i m dest val = m
set_loop (suc r) i m dest val = set_loop r (i + 1) (write m (dest + i) (u8 val)) dest val

unfoldable pub memset : Cells ℕ → (dest val n : ℕ) → Cells ℕ
unfolding set_loop
memset m dest val n = set_loop n 0 m dest val

unfoldable pub memmove : Cells ℕ → (dest src n : ℕ) → Cells ℕ
unfolding copy_up copy_down
memmove m dest src n = if ltb dest src then copy_up n 0 m dest src else copy_down n m dest src

-- The three results of `memcmp`: -1, 0 and 1.
pub data Sign : Type 0 where
  minus_one nought one : Sign

unfoldable pub cmp_loop : (rounds i : ℕ) → Cells ℕ → (s1 s2 : ℕ) → Sign
cmp_loop zero i m s1 s2 = nought
cmp_loop (suc r) i m s1 s2 =
    let rest = cmp_loop r (i + 1) m s1 s2 in
    if m (s1 + i) == m (s2 + i)
    then rest
    else if ltb (m (s1 + i)) (m (s2 + i))
    then minus_one
    else one

unfoldable pub memcmp : Cells ℕ → (s1 s2 n : ℕ) → Sign
unfolding cmp_loop
memcmp m s1 s2 n = cmp_loop n 0 m s1 s2

-- The loops over strings count in `int`. A string that they can walk is shorter than this, which
-- is the fuel; `none` means that the walk went on past it.
abbrev pub int_limit : ℕ
int_limit = 2 ^ 31

unfoldable pub len_loop : (fuel i : ℕ) → Cells ℕ → (s1 : ℕ) → Option ℕ
len_loop zero i m s1 = none
len_loop (suc f) i m s1 =
    let rest = len_loop f (i + 1) m s1 in if m (s1 + i) == 0 then some i else rest

unfoldable pub strlen : Cells ℕ → ℕ → Option ℕ
strlen m s1 = len_loop int_limit 0 m s1

-- 0 if the strings are equal, otherwise 1
unfoldable pub strcmp_loop : (fuel i : ℕ) → Cells ℕ → (s1 s2 : ℕ) → Option ℕ
strcmp_loop zero i m s1 s2 = none
strcmp_loop (suc f) i m s1 s2 =
    let rest = strcmp_loop f (i + 1) m s1 s2 in
    if m (s1 + i) == 0 && m (s2 + i) == 0
    then some 0
    else if m (s1 + i) == m (s2 + i)
    then rest
    else some 1

unfoldable pub strcmp : Cells ℕ → (s1 s2 : ℕ) → Option ℕ
strcmp m s1 s2 = strcmp_loop int_limit 0 m s1 s2

unfoldable pub strncmp_loop : (rounds i : ℕ) → Cells ℕ → (s1 s2 : ℕ) → ℕ
strncmp_loop zero i m s1 s2 = 0
strncmp_loop (suc r) i m s1 s2 =
    let rest = strncmp_loop r (i + 1) m s1 s2 in if m (s1 + i) == m (s2 + i) then rest else 1

unfoldable pub strncmp : Cells ℕ → (s1 s2 n : ℕ) → ℕ
unfolding strncmp_loop
strncmp m s1 s2 n = strncmp_loop n 0 m s1 s2

unfoldable pub strcpy_loop : (fuel i : ℕ) → Cells ℕ → (dest src : ℕ) → Option (Cells ℕ)
strcpy_loop zero i m dest src = none
strcpy_loop (suc f) i m dest src =
    let rest = strcpy_loop f (i + 1) (write m (dest + i) (m (src + i))) dest src in
    if m (src + i) == 0 then some (write m (dest + i) 0) else rest

unfoldable pub strcpy : Cells ℕ → (dest src : ℕ) → Option (Cells ℕ)
strcpy m dest src = strcpy_loop int_limit 0 m dest src

-- `while (strncmp(s + i, charset, set_len) != 0) { i++; if (s[i] == 0) break; }`
unfoldable pub cspn_loop : (fuel i : ℕ) → Cells ℕ → (s charset set_len : ℕ) → Option ℕ
cspn_loop zero i m s charset set_len = none
cspn_loop (suc f) i m s charset set_len =
    let rest = cspn_loop f (i + 1) m s charset set_len in
    if strncmp m (s + i) charset set_len == 0
    then some i
    else if m (s + (i + 1)) == 0
    then some (i + 1)
    else rest

unfoldable pub strcspn : Cells ℕ → (s charset : ℕ) → Option ℕ
strcspn m s charset = elim (strlen m charset) [
  | none ↦ none
  | some set_len ↦ cspn_loop int_limit 0 m s charset set_len
]
