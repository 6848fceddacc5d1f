-- ===== src/Arch/Pit.antt =====
-- The timer chip, kernel/src/arch/x86_64/pit.c: its set-up as a list of writes to ports, and the
-- counter that its interrupts advance.
mod Tests
use mathlib.Core.Path.{subst}
use arcane_os.Arch.Ports.{PortWrite, out8}
use arcane_os.Prelude.{
  sym, ℕ, zero, suc, ◌+◌, ◌-◌, ◌/◌, ◌^◌, ◌≤◌, ◌<◌, ◌≡◌, refl, arith, true, Bool-cases, inl, inr,
  Option, none, some, List, [], ◌∷◌, u8, u16, u64, ltb, ◌==◌, if◌then◌else◌, Cells,
}

abbrev pub pit_freq : ℕ
pit_freq = 1193180

abbrev pub pit_channel0_port : ℕ
pit_channel0_port = 0x40

abbrev pub pit_mode_port : ℕ
pit_mode_port = 0x43

-- The writes of pit_init, before it sets pit_handler as the handler of vector 32.
unfoldable pub pit_init : List PortWrite
unfolding out8
pit_init =
    let div = u16 (pit_freq / 1000) in
    out8 pit_mode_port 0b110110
    ∷ out8 pit_channel0_port (u8 div)
    ∷ out8 pit_channel0_port (u8 (div / 2 ^ 8))
    ∷ []

-- What pit_handler does to `pit_counter`, before the end of the interrupt.
unfoldable pub pit_handler : (pit_counter : ℕ) → ℕ
pit_handler pit_counter = u64 (pit_counter + 1)

-- The loop of pit_wait, on fuel, from its look `i` at the counter on: how often it looked. The
-- counter is not volatile; this is the loop of a compiler that reads it in each round.
unfoldable pub wait_loop : (fuel i expected : ℕ) → (pit_counter : Cells ℕ) → Option ℕ
wait_loop zero i expected pit_counter = none
wait_loop (suc fuel) i expected pit_counter =
    let rest = wait_loop fuel (i + 1) expected pit_counter in
    if ltb (pit_counter i) expected then rest else some i

-- `pit_counter i` is what the look `i` finds, as interrupts come.
unfoldable pub pit_wait : (fuel ms : ℕ) → (pit_counter : Cells ℕ) → Option ℕ
unfolding wait_loop
pit_wait fuel ms pit_counter = wait_loop fuel 1 (u64 (pit_counter 0 + ms)) pit_counter

is_same : (i n : ℕ) → (i == n) ≡ true → i ≡ n
is_same i n e = ground arith

not_here : (i n expected : ℕ) (c : Cells ℕ) → i ≤ n → c i < expected → expected ≤ c n → i + 1 ≤ n
not_here i n expected c le below high = elim (Bool-cases (i == n)) [
  | inl same ↦
      absurd (omega (arith, subst (λ k. expected ≤ c k) (sym (is_same i n same)) high, below))
  | inr other ↦ ground arith
]

wait_loop-ends :
    (fuel i n expected : ℕ) (c : Cells ℕ)
    → i ≤ n
    → n < i + fuel
    → expected ≤ c n
    → (k : ℕ) × (wait_loop fuel i expected c ≡ some k)
      × (expected ≤ c k)
      × ((j : ℕ) → i ≤ j → j < k → c j < expected)
unfolding wait_loop
wait_loop-ends zero i n expected c le lt high = absurd (omega arith)
wait_loop-ends (suc fuel) i n expected c le lt high = elim (Bool-cases (ltb (c i) expected)) [
  | inl e ↦
      let below : c i < expected = ground arith in
      let (k, runs, reached, before) =
        wait_loop-ends fuel (i + 1) n expected c (not_here i n expected c le below high)
          (omega arith) high in
      (
        k,
        rw e runs,
        reached,
        λ j lo hi. elim (Bool-cases (j == i)) [
          | inl same ↦ ground arith
          | inr other ↦ before j (ground arith) hi
        ],
      )
  | inr e ↦ (i, rw e refl, ground arith, λ j lo hi. absurd (omega arith))
]

-- pit_wait returns once the counter has come to the value that it waits for: at the first look that
-- finds it, which is after at least `ms` interrupts where the counter does not wrap.
pub pit_wait-ends :
    (fuel ms n : ℕ) (c : Cells ℕ)
    → 1 ≤ n
    → n ≤ fuel
    → c 0 + ms < 2 ^ 64
    → c 0 + ms ≤ c n
    → (k : ℕ) × (pit_wait fuel ms c ≡ some k)
      × (ms ≤ c k - c 0)
      × ((j : ℕ) → 1 ≤ j → j < k → c j < c 0 + ms)
unfolding pit_wait
pit_wait-ends fuel ms n c some_look enough fits high =
    let goal : u64 (c 0 + ms) ≡ c 0 + ms = omega arith in
    let (k, runs, reached, before) =
      wait_loop-ends fuel 1 n (c 0 + ms) c some_look (omega arith) high in
    (k, rw goal runs, omega arith, before)
