-- ===== src/Sys/Processors/Starts.antt =====
-- The processors that the first one waits for, in smp_cpu_entry and the last loop of smp_late_init.
use arcane_os.Prelude.{
  ℕ, zero, suc, ◌+◌, ◌^◌, ◌≤◌, ◌<◌, ◌≡◌, refl, ◌∙◌, arith, Bool-cases, inl, inr, some, true, false,
  u64, ltb, ◌==◌, if◌then◌else◌,
}
use arcane_os.Prelude.State.{State, ◌>>=◌, ◌>>◌, gets, fail, >>=-run}
use arcane_os.Sys.Scheduler.{Queues, set_rest}
use arcane_os.Sys.Processors.{smp_cpu_entry, wait_started}

-- The lock and the counts of the processors are the same in both states.
pub record SameCounts {S : Type 0} (s t : Queues S) : Type 0 where
  pub lock : t.rest.smp_lock ≡ s.rest.smp_lock
  pub started : t.rest.smp_started_count ≡ s.rest.smp_started_count
  pub count : t.rest.smp_cpu_count ≡ s.rest.smp_cpu_count

-- What smp_cpu_entry does behind arch_start_cpu.
abbrev count_started : {S : Type 0} → State (Queues S) (Unit {0})
count_started = do
  lock ← gets (λ s. s.rest.smp_lock)
  if lock == 0 then set_rest (λ k. record k { smp_lock = 1 }) else fail
  set_rest (λ k. record k { smp_started_count = u64 (k.smp_started_count + 1) })
  set_rest (λ k. record k { smp_lock = 0 })

-- The state with one more processor counted, and the lock free.
abbrev pub counted : {S : Type 0} → Queues S → Queues S
counted s = record s {
  rest = record s.rest { smp_lock = 0; smp_started_count = u64 (s.rest.smp_started_count + 1) };
}

-- What may happen from the state `s` on while the first processor pauses `rounds` times: in a pause
-- nobody is counted, or a processor runs smp_cpu_entry, whose arch_start_cpu returns there; `missing`
-- of them do.
pub data Enter {S : Type 0} (pause : State (Queues S) (Unit {0}))
    : (s : Queues S) → (rounds missing : ℕ) → Type 0 where
  none_left : {s : Queues S} → Enter pause s 0 0
  idle :
      {s t : Queues S} {rounds missing : ℕ}
      → pause s ≡ some (tt, t)
      → SameCounts s t
      → Enter pause t rounds missing
      → Enter pause s (suc rounds) missing
  enters :
      {s t : Queues S} {rounds missing : ℕ} (arch_start_cpu : State (Queues S) (Unit {0}))
      → pause s ≡ smp_cpu_entry arch_start_cpu s
      → arch_start_cpu s ≡ some (tt, t)
      → SameCounts s t
      → Enter pause (counted t) rounds missing
      → Enter pause s (suc rounds) (suc missing)

module _ {S : Type 0} where
  -- A processor that enters with the lock free is counted, and leaves the lock free.
  smp_cpu_entry-counted :
      (arch_start_cpu : State (Queues S) (Unit {0})) (s t : Queues S)
      → arch_start_cpu s ≡ some (tt, t)
      → SameCounts s t
      → s.rest.smp_lock ≡ 0
      → smp_cpu_entry arch_start_cpu s ≡ some (tt, counted t)
  unfolding smp_cpu_entry
  smp_cpu_entry-counted arch_start_cpu s t runs same free =
      let unlocked : t.rest.smp_lock ≡ 0 = same.lock ∙ free in
      >>=-run arch_start_cpu (λ _. count_started) {s = s} {t = t} {a = tt} runs ∙ rw unlocked refl

  wait_started-reached :
      (fuel : ℕ) (pause : State (Queues S) (Unit {0})) (s : Queues S)
      → s.rest.smp_cpu_count ≤ s.rest.smp_started_count
      → 0 < fuel
      → wait_started fuel pause s ≡ some (tt, s)
  unfolding wait_started
  wait_started-reached zero pause s le lt = absurd (omega arith)
  wait_started-reached (suc fuel) pause s le lt =
      let done : ltb s.rest.smp_started_count s.rest.smp_cpu_count ≡ false = ground arith in
      rw done refl

  wait_started-pause :
      (fuel : ℕ) (pause : State (Queues S) (Unit {0})) (s t : Queues S)
      → s.rest.smp_started_count < s.rest.smp_cpu_count
      → pause s ≡ some (tt, t)
      → wait_started (suc fuel) pause s ≡ wait_started fuel pause t
  unfolding wait_started
  wait_started-pause fuel pause s t lt runs =
      let more : ltb s.rest.smp_started_count s.rest.smp_cpu_count ≡ true = ground arith in
      rw more (>>=-run pause (λ _. wait_started fuel pause) {s = s} {t = t} {a = tt} runs)

  -- The wait for the processors ends when all that the boot loader counted have entered, however many
  -- pauses there are in between: where those that are missing enter within `rounds` pauses, one more
  -- round than that is enough, the count is the boot loader's, and the lock is free.
  pub wait_started-all :
      (fuel : ℕ) (pause : State (Queues S) (Unit {0})) (s : Queues S) (rounds missing : ℕ)
      → Enter pause s rounds missing
      → s.rest.smp_lock ≡ 0
      → s.rest.smp_started_count + missing ≡ s.rest.smp_cpu_count
      → s.rest.smp_cpu_count < 2 ^ 64
      → rounds < fuel
      → (t : Queues S) × (wait_started fuel pause s ≡ some (tt, t))
        × (t.rest.smp_lock ≡ 0)
        × (t.rest.smp_started_count ≡ s.rest.smp_cpu_count)
        × (t.rest.smp_cpu_count ≡ s.rest.smp_cpu_count)
  wait_started-all fuel pause s zero zero none_left free all fits enough =
      (s, wait_started-reached fuel pause s (omega arith) enough, free, omega arith, refl)
  wait_started-all fuel pause s zero (suc missing) steps free all fits enough = elim steps [ ]
  wait_started-all zero pause s (suc r) missing (idle runs same later) free all fits enough =
      absurd (omega arith)
  wait_started-all (suc fuel) pause s (suc r) missing (idle {t = t} runs same later) free all fits
        enough =
      elim (Bool-cases (missing == 0)) [
        | inl none ↦ (
          s,
          wait_started-reached (suc fuel) pause s (ground arith) (omega arith),
          free,
          ground arith,
          refl,
        )
        | inr some_left ↦
            let (u, done, unlocked, reached, kept) =
              wait_started-all fuel pause t r missing later (same.lock ∙ free)
                (omega (arith, same.started, same.count, all)) (omega (arith, same.count, fits))
                (omega arith) in
            (
              u,
              wait_started-pause fuel pause s t (ground (arith, all)) runs ∙ done,
              unlocked,
              reached ∙ same.count,
              kept ∙ same.count,
            )
      ]
  wait_started-all zero pause s (suc r) (suc missing) (enters start at runs same later) free all
        fits enough =
      absurd (omega arith)
  wait_started-all (suc fuel) pause s (suc r) (suc missing)
        (enters {t = t} start at runs same later) free all fits enough =
      let sum : u64 (t.rest.smp_started_count + 1) ≡ s.rest.smp_started_count + 1 =
        omega (arith, same.started, fits, all) in
      let (u, done, unlocked, reached, kept) =
        wait_started-all fuel pause (counted t) r missing later refl
          (omega (arith, sum, same.count, all)) (omega (arith, same.count, fits)) (omega arith) in
      (
        u,
        wait_started-pause fuel pause s (counted t) (omega (arith, all))
              (at ∙ smp_cpu_entry-counted start s t runs same free)
            ∙ done,
        unlocked,
        reached ∙ same.count,
        kept ∙ same.count,
      )
