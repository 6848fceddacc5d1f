-- ===== src/Arch/Apic/Ipi.antt =====
-- The interrupts that the local APIC sends for what `apic_ipi` writes.
use arcane_os.Prelude.{
  ℕ, ◌+◌, ◌*◌, ◌/◌, ◌%◌, ◌^◌, ◌≤◌, ◌<◌, ◌≡◌, arith, inl, inr, false, Bool-cases, ==_refl, List, [],
  ◌∷◌, bit_or, u32, u64, shl, ◌==◌, if◌then◌else◌,
}
use arcane_os.Prelude.Bits.{bit_or_disjoint, bit_or-shl, bit_or-shl_add}
use arcane_os.Arch.Apic.{Action, store32, wrmsr, Apic, apic_write, apic_ipi}

-- The commands that the device at `base` takes: a store to the low half of its command register
-- sends an interrupt to the destination in the top byte of the high half, which is `high` before,
-- and a write of the model-specific register holds both halves. A command is a destination and
-- the low half.
unfoldable pub sent : (base high : ℕ) → List Action → List (ℕ × ℕ)
sent base high [] = []
sent base high (wrmsr reg value ∷ rest) =
    let later = sent base high rest in
    if reg == 0x830 then (value / 2 ^ 32, value % 2 ^ 32) ∷ later else later
sent base high (store32 at value ∷ rest) =
    let raised = sent base value rest in
    let later = sent base high rest in
    if at == base + 0x310
    then raised
    else if at == base + 0x300
    then (high / 2 ^ 24, value) ∷ later
    else later

one_command :
    {d d' w w' : ℕ} → d ≡ d' → w ≡ w' → ◌≡◌ {A = List (ℕ × ℕ)} ((d, w) ∷ []) ((d', w') ∷ [])
one_command p q i = (p i, q i) ∷ []

-- apic_ipi sends one interrupt: with a vector below 256 and a type of bits 18 and 19, its low half
-- is their sum. Its destination is the processor's number in x2APIC mode, and the low byte of the
-- number otherwise.
pub apic_ipi-sent :
    (id vec k high : ℕ) (a : Apic)
    → id < 2 ^ 32
    → vec < 2 ^ 8
    → k < 4
    → a.apic_addr + 0x1000 ≤ 2 ^ 64
    → sent a.apic_addr high (apic_ipi id vec (k * 2 ^ 18) a)
      ≡ ((if a.x2apic_enabled then id else id % 2 ^ 8), vec + k * 2 ^ 18) ∷ []
unfolding sent apic_ipi apic_write
apic_ipi-sent id vec k high a hid hv hk fits =
    let low : bit_or vec (k * 2 ^ 18) ≡ k * 2 ^ 18 + vec = bit_or_disjoint 18 vec k (omega arith) in
    let wide : u64 (shl id 32) ≡ id * 2 ^ 32 = omega arith in
    let first : bit_or (id * 2 ^ 32) vec ≡ id * 2 ^ 32 + vec = bit_or-shl 32 id vec (omega arith) in
    let all : bit_or (id * 2 ^ 32 + vec) (k * 2 ^ 18) ≡ id * 2 ^ 32 + bit_or vec (k * 2 ^ 18) =
      bit_or-shl_add 32 id vec (k * 2 ^ 18) (omega arith) (omega arith) in
    let hi : u64 (a.apic_addr + 0x310) ≡ a.apic_addr + 0x310 = omega arith in
    let lo : u64 (a.apic_addr + 0x300) ≡ a.apic_addr + 0x300 = omega arith in
    elim (Bool-cases a.x2apic_enabled) [
      | inl x2 ↦
          let dest : (id * 2 ^ 32 + (k * 2 ^ 18 + vec)) / 2 ^ 32 ≡ id = omega arith in
          let word : (id * 2 ^ 32 + (k * 2 ^ 18 + vec)) % 2 ^ 32 ≡ vec + k * 2 ^ 18 = omega arith in
          rw (apic_ipi, x2, wide, first, all, low) (one_command dest word)
      | inr plain ↦
          let dest : u32 (u32 (shl id 24)) / 2 ^ 24 ≡ id % 2 ^ 8 = omega arith in
          let word : (k * 2 ^ 18 + vec) % 2 ^ 32 ≡ vec + k * 2 ^ 18 = omega arith in
          let other : (a.apic_addr + 0x300 == a.apic_addr + 0x310) ≡ false = ground arith in
          rw (apic_ipi, plain, hi, lo, low, ==_refl, other, ==_refl) (one_command dest word)
    ]
