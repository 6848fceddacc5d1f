-- ===== src/Arch/Madt/Listing.antt =====
-- What the loop of `madt_init` collects from a table, and where it does not end.
use mathlib.Core.Path.{subst}
use mathlib.Core.Option.{some-injective, none-ne-some}
use arcane_os.Prelude.{
  ℕ, zero, suc, ◌+◌, ◌^◌, ◌≤◌, ◌<◌, ◌≡◌, ◌≢◌, refl, ◌∙◌, sym, ap, arith, inl, inr, Bool, true,
  false, none, some, List, [], ◌∷◌, length, get_elem?, Bool-cases, u8, u64, ltb, ◌==◌,
  if◌then◌else◌, Cells, write_self, write-ne,
}
use arcane_os.Mm.Page.{lower_half}
use arcane_os.Arch.Madt.{
  MadtState, vec_places, load, madt_entry, madt_loop, madt_init, table_limit, table_size,
  sizeof_madt,
}

-- From `offset` on the table consists of entries of the given types at the given addresses, none
-- of them of length 0, the last of which ends with the table or behind it.
pub data Table (m : Cells ℕ) (entry_table size : ℕ) : ℕ → List (ℕ × ℕ) → Type 0 where
  ends : {offset : ℕ} → size ≤ offset → Table m entry_table size offset []
  entry :
      {offset : ℕ} {es : List (ℕ × ℕ)}
      → offset < size
      → u8 (m (entry_table + (offset + 1))) ≢ 0
      → Table m entry_table size (offset + u8 (m (entry_table + (offset + 1)))) es
      → Table m entry_table size offset ((u8 (m (entry_table + offset)), entry_table + offset) ∷ es)

-- The addresses of the entries of a type.
abbrev pub of_type : ℕ → List (ℕ × ℕ) → List ℕ
of_type t [] = []
of_type t ((u, a) ∷ es) = if u == t then a ∷ of_type t es else of_type t es

-- The entries taken one after the other.
unfoldable pub take_all : Cells ℕ → List (ℕ × ℕ) → MadtState → MadtState
take_all m [] s = s
take_all m ((t, a) ∷ es) s = take_all m es (madt_entry t a m s)

madt_loop-take_all :
    (fuel entry_table size offset : ℕ) (m : Cells ℕ) (s : MadtState) (es : List (ℕ × ℕ))
    → Table m entry_table size offset es
    → size < 2 ^ 63
    → size < offset + fuel
    → 0 < fuel
    → madt_loop fuel entry_table size offset m s ≡ some (take_all m es s)
unfolding madt_loop take_all
madt_loop-take_all zero entry_table size offset m s es table lt enough some_fuel =
    absurd (omega arith)
madt_loop-take_all (suc fuel) entry_table size offset m s [] (ends le) lt enough some_fuel =
    let done : ltb offset size ≡ false = ground arith in rw (madt_loop, done) refl
madt_loop-take_all (suc fuel) entry_table size offset m s (e ∷ es) (entry inside len rest) lt enough
      some_fuel =
    let more : ltb offset size ≡ true = ground arith in
    let l = u8 (m (entry_table + (offset + 1))) in
    let step : u64 (offset + l) ≡ offset + l = omega arith in
    let s' = madt_entry (u8 (m (entry_table + offset))) (entry_table + offset) m s in
    rw (madt_loop, more, step)
      (madt_loop-take_all fuel entry_table size (offset + l) m s' es rest lt (omega arith)
        (omega arith))

-- A vector holds `xs` from place `n` on, up to its count.
pub record Lists (vec : Cells ℕ) (count n : ℕ) (xs : List ℕ) : Type 0 where
  pub counted : count ≡ n + length xs
  pub placed : (k x : ℕ) → get_elem? xs k ≡ some x → vec (n + k) ≡ x

Lists-cons :
    {vec : Cells ℕ} {count n x : ℕ} {xs : List ℕ}
    → vec n ≡ x
    → Lists vec count (n + 1) xs
    → Lists vec count n (x ∷ xs)
Lists-cons {vec} {count} {n} {x} {xs} here rest = record {
  counted = omega (arith, rest.counted);
  placed = go;
}
  where
    go : (k y : ℕ) → get_elem? (x ∷ xs) k ≡ some y → vec (n + k) ≡ y
    go zero y e = ap vec (omega arith) ∙ here ∙ some-injective _ _ e
    go (suc k) y e = let up : n + suc k ≡ n + 1 + k = omega arith in ap vec up ∙ rest.placed k y e

-- Both vectors in `after`: what they held in `s` is kept, and the new addresses follow it.
record Taken (es : List (ℕ × ℕ)) (s after : MadtState) : Type 0 where
  ioapics : Lists after.ioapic_vec after.ioapic_count s.ioapic_count (of_type 1 es)
  isos : Lists after.iso_vec after.iso_count s.iso_count (of_type 2 es)
  kept : (j : ℕ) → j < s.ioapic_count → after.ioapic_vec j ≡ s.ioapic_vec j
  kept' : (j : ℕ) → j < s.iso_count → after.iso_vec j ≡ s.iso_vec j

Taken-ioapic :
    (a : ℕ) (m : Cells ℕ) (es : List (ℕ × ℕ)) (s after : MadtState)
    → Taken es (madt_entry 1 a m s) after
    → Taken ((1, a) ∷ es) s after
unfolding madt_entry
Taken-ioapic a m es s after rest = record {
  ioapics =
      Lists-cons (rest.kept s.ioapic_count (omega arith) ∙ write_self s.ioapic_vec s.ioapic_count a)
        rest.ioapics;
  isos = rest.isos;
  kept = λ j lt. rest.kept j (omega arith) ∙ write-ne s.ioapic_vec a (omega arith);
  kept' = rest.kept';
}

Taken-iso :
    (a : ℕ) (m : Cells ℕ) (es : List (ℕ × ℕ)) (s after : MadtState)
    → Taken es (madt_entry 2 a m s) after
    → Taken ((2, a) ∷ es) s after
unfolding madt_entry
Taken-iso a m es s after rest = record {
  ioapics = rest.ioapics;
  isos =
      Lists-cons (rest.kept' s.iso_count (omega arith) ∙ write_self s.iso_vec s.iso_count a)
        rest.isos;
  kept = rest.kept;
  kept' = λ j lt. rest.kept' j (omega arith) ∙ write-ne s.iso_vec a (omega arith);
}

-- Of other entries the two vectors take nothing.
Taken-apic_addr :
    (c : Bool) (n : ℕ) (es : List (ℕ × ℕ)) (s after : MadtState)
    → Taken es (if c then record s { apic_addr = n } else s) after
    → Taken es s after
Taken-apic_addr true n es s after rest = record {
  ioapics = rest.ioapics;
  isos = rest.isos;
  kept = rest.kept;
  kept' = rest.kept';
}
Taken-apic_addr false n es s after rest = rest

Taken-other :
    (t a : ℕ) (m : Cells ℕ) (es : List (ℕ × ℕ)) (s after : MadtState)
    → (t == 1) ≡ false
    → (t == 2) ≡ false
    → Taken es (madt_entry t a m s) after
    → Taken ((t, a) ∷ es) s after
unfolding madt_entry
Taken-other t a m es s after one two rest =
    let same =
      Taken-apic_addr (t == 5) (load 8 m (a + 8)) es s after (rw (madt_entry, one, two) at rest) in
    record {
      ioapics = rw one same.ioapics;
      isos = rw two same.isos;
      kept = same.kept;
      kept' = same.kept';
    }

take_all-Taken : (m : Cells ℕ) (es : List (ℕ × ℕ)) (s : MadtState) → Taken es s (take_all m es s)
unfolding take_all
take_all-Taken m [] s = record {
  ioapics = record { counted = omega arith; placed = λ k x e. absurd (none-ne-some _ e) };
  isos = record { counted = omega arith; placed = λ k x e. absurd (none-ne-some _ e) };
  kept = λ j lt. refl;
  kept' = λ j lt. refl;
}
take_all-Taken m ((t, a) ∷ es) s =
    let after = take_all m es (madt_entry t a m s) in
    let rest = take_all-Taken m es (madt_entry t a m s) in
    elim (Bool-cases (t == 1)) [
      | inl one ↦
          let is : t ≡ 1 = ground arith in
          subst (λ u. Taken ((u, a) ∷ es) s (take_all m es (madt_entry u a m s))) (sym is)
            (Taken-ioapic a m es s (take_all m es (madt_entry 1 a m s))
              (take_all-Taken m es (madt_entry 1 a m s)))
      | inr other ↦ elim (Bool-cases (t == 2)) [
        | inl two ↦
            let is : t ≡ 2 = ground arith in
            subst (λ u. Taken ((u, a) ∷ es) s (take_all m es (madt_entry u a m s))) (sym is)
              (Taken-iso a m es s (take_all m es (madt_entry 2 a m s))
                (take_all-Taken m es (madt_entry 2 a m s)))
        | inr plain ↦ Taken-other t a m es s after other plain rest
      ]
    ]

-- Where the counts start at 0 and the table, of less than 2 ^ 63 bytes, consists of entries none
-- of which has length 0, with at most as many of either kind as a vector has places, madt_init
-- returns, and the two vectors list the addresses of the I/O APIC entries and of the override
-- entries, each in the order of the table and up to its count.
pub madt_init-Lists :
    (hhdm madt : ℕ) (m : Cells ℕ) (s : MadtState) (es : List (ℕ × ℕ))
    → lower_half hhdm madt ≢ 0
    → s.ioapic_count ≡ 0
    → s.iso_count ≡ 0
    → table_size madt m < 2 ^ 63
    → length (of_type 1 es) ≤ vec_places
    → length (of_type 2 es) ≤ vec_places
    → Table m (madt + sizeof_madt) (table_size madt m) 0 es
    → (t : MadtState) × (madt_init hhdm madt m s ≡ some t)
      × Lists t.ioapic_vec t.ioapic_count 0 (of_type 1 es)
      × Lists t.iso_vec t.iso_count 0 (of_type 2 es)
unfolding madt_init
madt_init-Lists hhdm madt m s es found no_ioapic no_iso lt few_ioapics few_isos table =
    let begun : MadtState = record s { apic_addr = load 4 m (madt + 36) } in
    let there : (lower_half hhdm madt == 0) ≡ false = ground arith in
    let all = take_all-Taken m es begun in
    (
      take_all m es begun,
      rw (madt_init, there)
          (madt_loop-take_all table_limit (madt + sizeof_madt) (table_size madt m) 0 m begun es
            table lt (omega arith) (omega arith)),
      subst
          (λ n.
            Lists (take_all m es begun).ioapic_vec (take_all m es begun).ioapic_count n
              (of_type 1 es))
          no_ioapic all.ioapics,
      subst
          (λ n.
            Lists (take_all m es begun).iso_vec (take_all m es begun).iso_count n (of_type 2 es))
          no_iso all.isos,
    )

-- At an entry of length 0 inside the table the loop does not end, whatever the fuel.
pub madt_loop-zero_length :
    (fuel entry_table size offset : ℕ) (m : Cells ℕ) (s : MadtState)
    → offset < size
    → size < 2 ^ 64
    → u8 (m (entry_table + (offset + 1))) ≡ 0
    → madt_loop fuel entry_table size offset m s ≡ none
unfolding madt_loop
madt_loop-zero_length zero entry_table size offset m s inside lt stays = refl
madt_loop-zero_length (suc fuel) entry_table size offset m s inside lt stays =
    let more : ltb offset size ≡ true = ground arith in
    let same : u64 (offset + u8 (m (entry_table + (offset + 1)))) ≡ offset = omega (arith, stays) in
    let s' = madt_entry (u8 (m (entry_table + offset))) (entry_table + offset) m s in
    rw (madt_loop, more, same)
      (madt_loop-zero_length fuel entry_table size offset m s' inside lt stays)
