-- ===== src/Strings/Tests.antt =====
-- The string functions on short texts, and their theorems at those texts.
use arcane_os.Prelude.{
  ℕ, ◌+◌, ◌-◌, ◌≡◌, refl, List, [], ◌∷◌, some, arith, ◌==◌, if◌then◌else◌, Cells, write,
}
use arcane_os.Strings.{memmove, strlen, strcmp, strcspn, strncmp, len_loop, strcmp_loop, cspn_loop}
use arcane_os.Strings.Copy.{in_block, memmove-block}
use arcane_os.Strings.CString.{IsString}
use arcane_os.Strings.CString.Span.{span_to, strcspn-span_to}

-- "ab:c" at 10, ":" at 20, "ab" at 30, and zeros.
abbrev memory : Cells ℕ
memory a =
    if a == 10
    then b'a'
    else if a == 11
    then b'b'
    else if a == 12
    then b':'
    else if a == 13
    then b'c'
    else if a == 20
    then b':'
    else if a == 30
    then b'a'
    else if a == 31
    then b'b'
    else 0

abbrev path : List ℕ
path = b'a' ∷ b'b' ∷ b':' ∷ b'c' ∷ []

abbrev colon : List ℕ
colon = b':' ∷ []

abbrev ab : List ℕ
ab = b'a' ∷ b'b' ∷ []

path-IsString : IsString memory 10 0 path
path-IsString = omega arith

colon-IsString : IsString memory 20 0 colon
colon-IsString = omega arith

ab-IsString : IsString memory 30 0 ab
ab-IsString = omega arith

memmove-block_example :
    memmove memory 11 10 3 13 ≡ (if in_block 11 3 13 then memory (10 + (13 - 11)) else memory 13)
memmove-block_example = memmove-block memory 11 10 3 13

strcspn-span_to_example : strcspn memory 10 20 ≡ some (span_to colon path)
strcspn-span_to_example =
    strcspn-span_to memory 10 20 colon path path-IsString colon-IsString (λ e. cc) (omega arith)
      (omega arith)

-- Runs of the code on the same texts.
finds_colon : strcspn memory 10 20 ≡ some 2
unfolding strcspn strlen len_loop cspn_loop strncmp
finds_colon = refl

compares_texts : (strcmp memory 10 30 ≡ some 1) × (strcmp memory 30 30 ≡ some 0)
unfolding strcmp strcmp_loop
compares_texts = (refl, refl)

-- With a charset of two bytes the C library's function stops at the first byte that is one of
-- them, here at 0; this one looks for the two in a row.
abbrev two_bytes : Cells ℕ
two_bytes a = if a == 20 then b':' else if a == 21 then b'a' else if a == 22 then 0 else memory a

reads_charset_as_word : strcspn two_bytes 10 20 ≡ some 4
unfolding strcspn strlen len_loop cspn_loop strncmp
reads_charset_as_word = refl

moves_up : (memmove memory 11 10 3 12 ≡ b'b') × (memmove memory 11 10 3 13 ≡ b':')
unfolding memmove write
moves_up = (refl, refl)
