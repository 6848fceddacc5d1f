-- ===== src/Arch/Msr.antt =====
-- The model-specific registers, kernel/src/arch/x86_64/cpu.c: the instructions have two halves of 32
-- bits, and are parameters.
use arcane_os.Prelude.{
  ℕ, ◌*◌, ◌/◌, ◌%◌, ◌^◌, ◌<◌, ◌≡◌, ◌∙◌, ap, arith, some, bit_or, u32, u64, shl, shr,
}
use arcane_os.Prelude.Bits.{bit_or-shl}
use arcane_os.Prelude.State.{State, pure, ◌>>=◌, ◌>>◌, >>=-run}

module _ {S : Type 0} (rdmsr : (msr : ℕ) → State S (ℕ × ℕ))
    (wrmsr : (msr low high : ℕ) → State S (Unit {0})) where
  unfoldable pub cpu_read_msr : (msr : ℕ) → State S ℕ
  cpu_read_msr msr = do
    halves ← rdmsr msr
    pure (bit_or (u64 (shl (u32 halves.1) 32)) (u32 halves.0))

  unfoldable pub cpu_write_msr : (msr value : ℕ) → State S (Unit {0})
  cpu_write_msr msr value = wrmsr msr (u32 value) (u32 (shr value 32))

  halves_join :
      (value : ℕ)
      → value < 2 ^ 64
      → bit_or (u64 (shl (u32 (u32 (shr value 32))) 32)) (u32 (u32 value)) ≡ value
  halves_join value lt =
      let high : u64 (shl (u32 (u32 (shr value 32))) 32) ≡ value / 2 ^ 32 * 2 ^ 32 = omega arith in
      let low : u32 (u32 value) ≡ value % 2 ^ 32 = omega arith in
      rw (high, low) (omega (arith, bit_or-shl 32 (value / 2 ^ 32) (value % 2 ^ 32) (omega arith)))

  -- A 64-bit value that cpu_write_msr has written to a register that keeps its halves is what
  -- cpu_read_msr reads from it.
  pub cpu_write_msr-cpu_read_msr :
      (msr value : ℕ) {s t : S}
      → value < 2 ^ 64
      → wrmsr msr (u32 value) (u32 (shr value 32)) s ≡ some (tt, t)
      → rdmsr msr t ≡ some ((u32 value, u32 (shr value 32)), t)
      → (cpu_write_msr msr value >> cpu_read_msr msr) s ≡ some (value, t)
  unfolding cpu_read_msr cpu_write_msr
  cpu_write_msr-cpu_read_msr msr value {s} {t} lt writes keeps =
      >>=-run (wrmsr msr (u32 value) (u32 (shr value 32))) (λ _. cpu_read_msr msr) writes
      ∙ >>=-run (rdmsr msr) (λ halves. pure (bit_or (u64 (shl (u32 halves.1) 32)) (u32 halves.0)))
          keeps
      ∙ ap (λ v. some (v, t)) (halves_join value lt)
