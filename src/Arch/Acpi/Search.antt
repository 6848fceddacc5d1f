-- ===== src/Arch/Acpi/Search.antt =====
-- What acpi_find_table returns.
use arcane_os.Prelude.{
  ℕ, zero, suc, ◌+◌, ◌*◌, ◌^◌, ◌≤◌, ◌<◌, ◌≡◌, ◌≢◌, ◌↔◌, inl, inr, refl, ◌∙◌, sym, ap, arith, Bool,
  true, false, Bool-cases, ◌==◌, Cells, load, u64,
}
use mathlib.Core.Path.{subst}
use arcane_os.Mm.Page.{higher_half}
use arcane_os.Strings.{Sign, minus_one, nought, one, memcmp}
use arcane_os.Strings.Compare.{Agree, Compares, memcmp-Compares}
use arcane_os.Arch.Acpi.{Acpi, header_at, entry_count, find_loop, acpi_find_table}

module _ (hhdm sign : ℕ) (a : Acpi) (m : Cells ℕ) where
  -- The header that the loop reads at entry `j` has the signature.
  abbrev HasSign : ℕ → Type 0
  HasSign j = Agree m (header_at hhdm a m j) sign 0 4

  -- Among the rounds from `i` to `n`, the header is that of the first of the signature; it is NULL
  -- if there is none.
  data FirstEntry (i n header : ℕ) : Type 0 where
    found_round :
        (k : ℕ)
        → i ≤ k
        → k < n
        → header ≡ header_at hhdm a m k
        → HasSign k
        → ((j : ℕ) → i ≤ j → j < k → ¬ HasSign j)
        → FirstEntry i n header
    no_round : header ≡ 0 → ((j : ℕ) → i ≤ j → j < n → ¬ HasSign j) → FirstEntry i n header

  differs-HasSign :
      (j : ℕ) (r : Sign) → Compares m (header_at hhdm a m j) sign 0 4 r → r ≢ nought → ¬ HasSign j
  differs-HasSign j minus_one (k, lt, before, less) ne same =
      omega (arith, same k (omega arith) (omega arith), less)
  differs-HasSign j nought all ne same = ne refl
  differs-HasSign j one (k, lt, before, less) ne same =
      omega (arith, same k (omega arith) (omega arith), less)

  FirstEntry-later :
      (i n header : ℕ) → ¬ HasSign i → FirstEntry (i + 1) n header → FirstEntry i n header
  FirstEntry-later i n header ne (found_round k le lt at has before) =
      found_round k (omega arith) lt at has (λ j lo hi. elim (Bool-cases (j == i)) [
        | inl e ↦ subst (λ x. ¬ HasSign x) (ground arith) ne
        | inr e ↦ before j (ground arith) hi
      ])
  FirstEntry-later i n header ne (no_round e all) = no_round e (λ j lo hi.
      elim (Bool-cases (j == i)) [
        | inl e ↦ subst (λ x. ¬ HasSign x) (ground arith) ne
        | inr e ↦ all j (ground arith) hi
      ])

  -- One comparison and then the other entries.
  FirstEntry-step :
      (i n rest : ℕ) (r : Sign)
      → i < n
      → Compares m (header_at hhdm a m i) sign 0 4 r
      → FirstEntry (i + 1) n rest
      → FirstEntry i n (elim r [ minus_one ↦ rest | one ↦ rest | nought ↦ header_at hhdm a m i ])
  FirstEntry-step i n rest minus_one lt says later =
      FirstEntry-later i n rest (differs-HasSign i minus_one says (λ e. cc)) later
  FirstEntry-step i n rest nought lt says later =
      found_round i (omega arith) lt refl says (λ j lo hi. absurd (omega arith))
  FirstEntry-step i n rest one lt says later =
      FirstEntry-later i n rest (differs-HasSign i one says (λ e. cc)) later

  find_loop-FirstEntry : (n i : ℕ) → FirstEntry i (i + n) (find_loop n i hhdm sign a m)
  unfolding find_loop
  find_loop-FirstEntry zero i = no_round refl (λ j lo hi. absurd (omega arith))
  find_loop-FirstEntry (suc n) i =
      let rest =
        subst (λ k. FirstEntry (i + 1) k (find_loop n (i + 1) hhdm sign a m)) (omega arith)
          (find_loop-FirstEntry n (i + 1)) in
      FirstEntry-step i (i + suc n) (find_loop n (i + 1) hhdm sign a m)
        (memcmp m (header_at hhdm a m i) sign 4) (omega arith)
        (memcmp-Compares m (header_at hhdm a m i) sign 4) rest

-- The bytes of an entry: addresses of 64 bits in an XSDT, of 32 bits in an RSDT.
abbrev pub width : (use_xsdt : Bool) → ℕ
width true = 8
width false = 4

module _ (hhdm sdt : ℕ) (use_xsdt : Bool) (m : Cells ℕ) where
  -- The length of the root table at `sdt`, in the four bytes behind its signature.
  abbrev pub sdt_length : ℕ
  sdt_length = load 4 m (sdt + 4)

  -- Entry `j`, behind the header of 36 bytes, lies wholly inside the table.
  abbrev pub InTable : ℕ → Type 0
  InTable j = 36 + width use_xsdt * (j + 1) ≤ sdt_length

  -- The address in the higher half of what the little-endian word of entry `j` names.
  abbrev pub named_at : ℕ → ℕ
  named_at j = u64 (load (width use_xsdt) m (sdt + 36 + width use_xsdt * j) + hhdm)

  -- Of the entries inside the table, `header` is what the first one names that leads to the
  -- signature; it is NULL if none of them does.
  pub data IsFirst (sign header : ℕ) : Type 0 where
    found :
        (k : ℕ)
        → InTable k
        → header ≡ named_at k
        → Agree m (named_at k) sign 0 4
        → ((j : ℕ) → j < k → ¬ Agree m (named_at j) sign 0 4)
        → IsFirst sign header
    missing :
        header ≡ 0 → ((j : ℕ) → InTable j → ¬ Agree m (named_at j) sign 0 4) → IsFirst sign header

load_four_lt : (m : Cells ℕ) (a : ℕ) → load 4 m a < 2 ^ 32
unfolding load
load_four_lt m a = omega arith

header_at-named_at :
    (hhdm sdt j : ℕ) (use_xsdt : Bool) (m : Cells ℕ)
    → header_at hhdm (record { sdt_address = sdt; use_xsdt = use_xsdt }) m j
      ≡ named_at hhdm sdt use_xsdt m j
unfolding header_at higher_half
header_at-named_at hhdm sdt j true m =
    let at : sdt + 36 + j * 8 ≡ sdt + 36 + 8 * j = omega arith in
    ap (λ a. u64 (load 8 m a + hhdm)) at
header_at-named_at hhdm sdt j false m =
    let at : sdt + 36 + j * 4 ≡ sdt + 36 + 4 * j = omega arith in
    ap (λ a. u64 (load 4 m a + hhdm)) at

-- The rounds of the loop are the entries inside the table.
entry_count-InTable :
    (hhdm sdt j : ℕ) (use_xsdt : Bool) (m : Cells ℕ)
    → 36 ≤ sdt_length hhdm sdt use_xsdt m
    → (j < entry_count (record { sdt_address = sdt; use_xsdt = use_xsdt }) m)
      ↔ InTable hhdm sdt use_xsdt m j
unfolding entry_count
entry_count-InTable hhdm sdt j true m le =
    let lt = load_four_lt m (sdt + 4) in (λ h. ground arith, λ h. ground arith)
entry_count-InTable hhdm sdt j false m le =
    let lt = load_four_lt m (sdt + 4) in (λ h. ground arith, λ h. ground arith)

-- Where the length of the root table covers its header, acpi_find_table returns the address that
-- the first entry inside the table names, of those that lead to a table of the signature, and NULL
-- if no entry inside it leads to one. An entry has 8 bytes in an XSDT and 4 in an RSDT.
pub acpi_find_table-IsFirst :
    (hhdm sdt : ℕ) (use_xsdt : Bool) (m : Cells ℕ) (sign : ℕ)
    → 36 ≤ sdt_length hhdm sdt use_xsdt m
    → IsFirst hhdm sdt use_xsdt m sign
        (acpi_find_table hhdm sign (record { sdt_address = sdt; use_xsdt = use_xsdt }) m)
unfolding acpi_find_table
acpi_find_table-IsFirst hhdm sdt use_xsdt m sign le =
    let a : Acpi = record { sdt_address = sdt; use_xsdt = use_xsdt } in
    let same = λ (j : ℕ). header_at-named_at hhdm sdt j use_xsdt m in
    let inside = λ (j : ℕ). entry_count-InTable hhdm sdt j use_xsdt m le in
    let first =
      subst (λ k. FirstEntry hhdm sign a m 0 k (find_loop (entry_count a m) 0 hhdm sign a m))
        (omega arith) (find_loop-FirstEntry hhdm sign a m (entry_count a m) 0) in
    elim first [
      | found_round k lo lt at has before ↦
          found k ((inside k).0 lt) (at ∙ same k) (subst (λ h. Agree m h sign 0 4) (same k) has)
            (λ j hi has'.
              before j (omega arith) hi (subst (λ h. Agree m h sign 0 4) (sym (same j)) has'))
      | no_round e none_of ↦ missing e (λ j within has'.
          none_of j (omega arith) ((inside j).1 within)
            (subst (λ h. Agree m h sign 0 4) (sym (same j)) has'))
    ]
