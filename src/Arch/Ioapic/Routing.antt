-- ===== src/Arch/Ioapic/Routing.antt =====
-- Which I/O APIC an interrupt goes to, and what its redirection entry says.
use mathlib.Core.Option.{some-injective}
use arcane_os.Prelude.{
  ℕ, ◌+◌, ◌-◌, ◌*◌, ◌/◌, ◌%◌, ◌^◌, ◌≤◌, ◌<◌, ◌≡◌, ◌≢◌, refl, ◌∙◌, sym, ◌⊎◌, inl, inr, ◌==◌, Bool,
  true, false, Option, none, some, List, [], ◌∷◌, arith, ap, u8, u32, u64, bit_and, bit_or, shl,
  shr, ltb, if◌then◌else◌, Bool-cases, Option-cases, ltb→lt, ltb→le,
}
use arcane_os.Prelude.Bits.{bit_or_disjoint, bit_and-ones, bit_and-shl}
use arcane_os.Mm.Page.{higher_half}
use arcane_os.Arch.Ioapic.{
  Ioapic, Iso, Madt, Store, store, find_ioapic, find_iso, ioapic_map_gsi, ioapic_map_irq,
  ioapic_write, ioapic_redir_table, redirection, iso_flags, write_entry,
}

-- `io` is in the table, begins at or below `gsi`, and no other one of the table begins between.
pub data In : Ioapic → List Ioapic → Type 0 where
  here : {io : Ioapic} {ios : List Ioapic} → In io (io ∷ ios)
  there : {io x : Ioapic} {ios : List Ioapic} → In io ios → In io (x ∷ ios)

-- The table is in the order of the first interrupts.
pub data Sorted : List Ioapic → Type 0 where
  empty : Sorted []
  single : {x : Ioapic} → Sorted (x ∷ [])
  link :
      {x y : Ioapic} {ios : List Ioapic}
      → x.gsi_base ≤ y.gsi_base
      → Sorted (y ∷ ios)
      → Sorted (x ∷ y ∷ ios)

pub record Serves (ios : List Ioapic) (gsi : ℕ) (io : Ioapic) : Type 0 where
  pub listed : In io ios
  pub begins : io.gsi_base ≤ gsi
  pub nearest : (x : Ioapic) → In x ios → x.gsi_base ≤ gsi → x.gsi_base ≤ io.gsi_base

Sorted-above :
    {x y : Ioapic} {ios : List Ioapic} → Sorted (x ∷ ios) → In y (x ∷ ios) → x.gsi_base ≤ y.gsi_base
Sorted-above sorted here = omega arith
Sorted-above single (there i) = elim i [ ]
Sorted-above (link le rest) (there i) = omega (arith, Sorted-above rest i)

nearest_head :
    {io y : Ioapic} {ios : List Ioapic} {gsi : ℕ}
    → Sorted (y ∷ ios)
    → gsi < y.gsi_base
    → (x : Ioapic) → In x (io ∷ y ∷ ios)
    → x.gsi_base ≤ gsi
    → x.gsi_base ≤ io.gsi_base
nearest_head sorted lt x here le = omega arith
nearest_head sorted lt x (there i) le = absurd (omega (arith, Sorted-above sorted i))

nearest_tail :
    {io y r : Ioapic} {ios : List Ioapic} {gsi : ℕ}
    → io.gsi_base ≤ y.gsi_base
    → y.gsi_base ≤ gsi
    → Serves (y ∷ ios) gsi r
    → (x : Ioapic) → In x (io ∷ y ∷ ios)
    → x.gsi_base ≤ gsi
    → x.gsi_base ≤ r.gsi_base
nearest_tail {y} order le serves x here l = omega (arith, serves.nearest y here le)
nearest_tail order le serves x (there i) l = serves.nearest x i l

-- In a table sorted by the first interrupt, whose first I/O APIC begins at or below `gsi`, the
-- loop of `ioapic_map_gsi` ends at an I/O APIC of the table that begins at or below `gsi`, and no
-- other one that does so begins later.
pub find_ioapic-Serves :
    (io : Ioapic) (ios : List Ioapic) (gsi : ℕ)
    → Sorted (io ∷ ios)
    → io.gsi_base ≤ gsi
    → (r : Ioapic) × (find_ioapic (io ∷ ios) gsi ≡ some r) × Serves (io ∷ ios) gsi r
unfolding find_ioapic
find_ioapic-Serves io [] gsi sorted le =
    (io, refl, record { listed = here; begins = le; nearest = λ x i l. only i })
  where
    only : {x : Ioapic} → In x (io ∷ []) → x.gsi_base ≤ io.gsi_base
    only here = omega arith
    only (there i) = elim i [ ]
find_ioapic-Serves io (y ∷ ios) gsi (link order rest) le = elim (Bool-cases (ltb gsi y.gsi_base)) [
  | inl lt ↦ (
    io,
    ground arith,
    record { listed = here; begins = le; nearest = nearest_head rest (ltb→lt gsi y.gsi_base lt) },
  )
  | inr ge ↦
      let above : y.gsi_base ≤ gsi = ltb→le gsi y.gsi_base ge in
      let (r, found, serves) = find_ioapic-Serves y ios gsi rest above in
      (
        r,
        ground (arith, found),
        record {
          listed = there serves.listed;
          begins = serves.begins;
          nearest = nearest_tail order above serves;
        },
      )
]

bit_test : (k a : ℕ) → bit_and a (1 * 2 ^ k) ≡ a / 2 ^ k % 2 * 2 ^ k
bit_test k a = bit_and-shl k a 1 ∙ ap (λ n. n * 2 ^ k) (bit_and-ones 1 (a / 2 ^ k))

abbrev mask_bit : Bool → ℕ
mask_bit mask = if mask then 1 else 0

-- Polarity at bit 13 from bit 1 of the override, trigger mode at bit 15 from bit 3, mask at 16.
iso_flags_lem :
    (flags : ℕ) (mask : Bool)
    → iso_flags flags mask
      ≡ flags / 2 % 2 * 2 ^ 13 + flags / 8 % 2 * 2 ^ 15 + mask_bit mask * 2 ^ 16
unfolding iso_flags
iso_flags_lem flags mask =
    let polarity = bit_test 1 flags in
    let trigger = bit_test 3 flags in
    elim mask [
      | true ↦ ground (arith, polarity, trigger)
      | false ↦ ground (arith, polarity, trigger)
    ]

-- The two words of the entry: vector and flags below, the destination in the top byte.
redirection_words :
    (apic_id vec f : ℕ)
    → vec < 2 ^ 8
    → f < 2 ^ 4
    → (u32 (redirection apic_id vec (f * 2 ^ 13)) ≡ vec + f * 2 ^ 13)
      × (u32 (shr (redirection apic_id vec (f * 2 ^ 13)) 32) ≡ apic_id % 2 ^ 8 * 2 ^ 24)
unfolding redirection
redirection_words apic_id vec f hv hf =
    let low : bit_or vec (f * 2 ^ 13) ≡ f * 2 ^ 13 + vec = bit_or_disjoint 13 vec f (omega arith) in
    let top : u64 (shl apic_id 56) ≡ apic_id % 2 ^ 8 * 2 ^ 56 = omega arith in
    let sum : bit_or (f * 2 ^ 13 + vec) (apic_id % 2 ^ 8 * 2 ^ 56)
        ≡ apic_id % 2 ^ 8 * 2 ^ 56 + (f * 2 ^ 13 + vec) =
      bit_or_disjoint 56 (f * 2 ^ 13 + vec) (apic_id % 2 ^ 8) (omega arith) in
    (rw (low, top, sum) (omega arith), rw (low, top, sum) (omega arith))

-- The stores that program entry `gsi` of the I/O APIC at `base`: select, low word, select, high.
abbrev pub programs : (hhdm base apic_id gsi low : ℕ) → List Store
programs hhdm base apic_id gsi low =
    store (higher_half hhdm base) (0x10 + 2 * gsi)
    ∷ store (u64 (higher_half hhdm base + 0x10)) low
    ∷ store (higher_half hhdm base) (0x11 + 2 * gsi)
    ∷ store (u64 (higher_half hhdm base + 0x10)) (apic_id % 2 ^ 8 * 2 ^ 24)
    ∷ []

write_entry-programs :
    (io : Ioapic) (hhdm apic_id gsi vec f : ℕ)
    → gsi < 120
    → vec < 2 ^ 8
    → f < 2 ^ 4
    → write_entry io hhdm apic_id gsi vec (f * 2 ^ 13)
      ≡ programs hhdm io.ioapic_addr apic_id gsi (vec + f * 2 ^ 13)
unfolding write_entry ioapic_write ioapic_redir_table
write_entry-programs io hhdm apic_id gsi vec f hg hv hf =
    let (low, high) = redirection_words apic_id vec f hv hf in
    let reg : u8 (u32 (0x10 + 2 * gsi)) ≡ 0x10 + 2 * gsi = omega arith in
    let reg' : u8 (0x10 + 2 * gsi + 1) ≡ 0x11 + 2 * gsi = omega arith in rw (low, high, reg, reg')

abbrev pub override_bits : Iso → Bool → ℕ
override_bits iso mask = iso.flags / 2 % 2 + iso.flags / 8 % 2 * 4 + mask_bit mask * 8

-- The interrupt source of a legacy line: the override that names the line, or the line itself
-- with polarity and trigger mode 0.
abbrev pub source : Option Iso → (irq : ℕ) → Bool → ℕ × ℕ
source none irq mask = (irq, mask_bit mask * 8)
source (some iso) irq mask = (iso.gsi, override_bits iso mask)

map_irq-map_gsi :
    (madt : Madt) (hhdm apic_id irq vec : ℕ) (mask : Bool)
    → ioapic_map_irq madt hhdm apic_id irq vec mask
      ≡ ioapic_map_gsi madt.ioapics hhdm apic_id
          (source (find_iso madt.isos irq) irq mask).0
          vec
          ((source (find_iso madt.isos irq) irq mask).1 * 2 ^ 13)
unfolding ioapic_map_irq
map_irq-map_gsi madt hhdm apic_id irq vec mask = elim (Option-cases (find_iso madt.isos irq)) [
  | inl missing ↦
      let plain : (if mask then 2 ^ 16 else 0) ≡ mask_bit mask * 8 * 2 ^ 13 = ground arith in
      rw (ioapic_map_irq, missing) (ap (ioapic_map_gsi madt.ioapics hhdm apic_id irq vec) plain)
  | inr (iso, named) ↦
      let bits : iso_flags iso.flags mask ≡ override_bits iso mask * 2 ^ 13 =
        omega (arith, iso_flags_lem iso.flags mask) in
      rw (ioapic_map_irq, named) (ap (ioapic_map_gsi madt.ioapics hhdm apic_id iso.gsi vec) bits)
]

source_bits : (o : Option Iso) (irq : ℕ) (mask : Bool) → (source o irq mask).1 < 2 ^ 4
source_bits none irq mask = ground arith
source_bits (some iso) irq mask = ground arith

map_gsi-programs :
    (ioapics : List Ioapic) (hhdm apic_id gsi vec f : ℕ) (io : Ioapic)
    → find_ioapic ioapics gsi ≡ some io
    → gsi < 120
    → vec < 2 ^ 8
    → f < 2 ^ 4
    → ioapic_map_gsi ioapics hhdm apic_id gsi vec (f * 2 ^ 13)
      ≡ some (programs hhdm io.ioapic_addr apic_id gsi (vec + f * 2 ^ 13))
unfolding ioapic_map_gsi
map_gsi-programs ioapics hhdm apic_id gsi vec f io found hg hv hf =
    rw (ioapic_map_gsi, found) (ap some (write_entry-programs io hhdm apic_id gsi vec f hg hv hf))

first_value : List Store → ℕ
first_value [] = 0
first_value (store at value ∷ rest) = value

-- The stores name the entry.
programs-ne :
    (hhdm base apic_id n n' low : ℕ)
    → n ≢ n'
    → some (programs hhdm base apic_id n low) ≢ some (programs hhdm base apic_id n' low)
unfolding first_value
programs-ne hhdm base apic_id n n' low ne e =
    let same : 0x10 + 2 * n ≡ 0x10 + 2 * n' = ap first_value (some-injective _ _ e) in
    ne (omega (arith, same))

-- The stores for interrupt `gsi` are those of its entry at `io`, the one `gsi - gsi_base`, exactly
-- if `io` begins at interrupt 0.
entry_at-zero :
    (io : Ioapic) (hhdm apic_id gsi low n : ℕ) (made : Option (List Store))
    → made ≡ some (programs hhdm io.ioapic_addr apic_id gsi low)
    → io.gsi_base + n ≡ gsi
    → ((io.gsi_base ≡ 0) × (made ≡ some (programs hhdm io.ioapic_addr apic_id n low)))
      ⊎ ((io.gsi_base ≢ 0) × (made ≢ some (programs hhdm io.ioapic_addr apic_id n low)))
entry_at-zero io hhdm apic_id gsi low n made are at = elim (Bool-cases (io.gsi_base == 0)) [
  | inl e ↦
      let from_zero : io.gsi_base ≡ 0 = ground arith in
      let same : gsi ≡ n = omega (arith, at, from_zero) in
      inl (from_zero, are ∙ ap (λ k. some (programs hhdm io.ioapic_addr apic_id k low)) same)
  | inr e ↦
      let later : io.gsi_base ≢ 0 = ground arith in
      let apart : gsi ≢ n = omega (arith, at, later) in
      inr (
        later,
        λ wanted. programs-ne hhdm io.ioapic_addr apic_id gsi n low apart (sym are ∙ wanted),
      )
]

pub ioapic_map_irq-programs :
    (madt : Madt) (hhdm apic_id irq vec : ℕ) (mask : Bool) (io0 : Ioapic) (ios : List Ioapic)
    → madt.ioapics ≡ io0 ∷ ios
    → Sorted (io0 ∷ ios)
    → io0.gsi_base ≤ (source (find_iso madt.isos irq) irq mask).0
    → (source (find_iso madt.isos irq) irq mask).0 < 120
    → vec < 2 ^ 8
    → (io : Ioapic) × (n : ℕ) × Serves (io0 ∷ ios) (source (find_iso madt.isos irq) irq mask).0 io
      × (io.gsi_base + n ≡ (source (find_iso madt.isos irq) irq mask).0)
      × (ioapic_map_irq madt hhdm apic_id irq vec mask
          ≡ some (
              programs hhdm io.ioapic_addr apic_id
                (source (find_iso madt.isos irq) irq mask).0
                (vec + (source (find_iso madt.isos irq) irq mask).1 * 2 ^ 13)))
      × (((io.gsi_base ≡ 0)
            × (ioapic_map_irq madt hhdm apic_id irq vec mask
                ≡ some (
                    programs hhdm io.ioapic_addr apic_id n
                      (vec + (source (find_iso madt.isos irq) irq mask).1 * 2 ^ 13))))
          ⊎ ((io.gsi_base ≢ 0)
              × (ioapic_map_irq madt hhdm apic_id irq vec mask
                  ≢ some (
                      programs hhdm io.ioapic_addr apic_id n
                        (vec + (source (find_iso madt.isos irq) irq mask).1 * 2 ^ 13)))))
ioapic_map_irq-programs madt hhdm apic_id irq vec mask io0 ios listed sorted le lt hv =
    let (gsi, f) = source (find_iso madt.isos irq) irq mask in
    let (io, found, serves) = find_ioapic-Serves io0 ios gsi sorted le in
    let n = gsi - io.gsi_base in
    let at : io.gsi_base + n ≡ gsi = omega (arith, serves.begins) in
    let made =
      map_irq-map_gsi madt hhdm apic_id irq vec mask
      ∙ map_gsi-programs madt.ioapics hhdm apic_id gsi vec f io
          (ap (λ l. find_ioapic l gsi) listed ∙ found) lt hv
          (source_bits (find_iso madt.isos irq) irq mask) in
    (
      io,
      n,
      serves,
      at,
      made,
      entry_at-zero io hhdm apic_id gsi (vec + f * 2 ^ 13) n
          (ioapic_map_irq madt hhdm apic_id irq vec mask) made at,
    )
