-- ===== src/Sync/SpinLock/Tests.antt =====
-- Processor 0 holds the lock and processor 1 spins, and the theorems of `Exclusion` there.
use arcane_os.Prelude.{ℕ, ◌≡◌, refl, write}
use arcane_os.Sync.SpinLock.{
  outside, spinning, holding, SpinLock, test_and_set, spinlock_acquire_round, call_acquire, call,
  round, unlocked, Reachable, start, more,
}
use arcane_os.Sync.SpinLock.Exclusion.{mutual_exclusion}

abbrev called : SpinLock
called = call_acquire 0 unlocked

abbrev contended : SpinLock
contended = call_acquire 1 (spinlock_acquire_round 0 called)

one_idle : (spinlock_acquire_round 0 called).phase 1 ≡ outside
unfolding spinlock_acquire_round test_and_set write
one_idle = refl

zero_spins : called.phase 0 ≡ spinning
unfolding write
zero_spins = refl

contended-Reachable : Reachable contended
contended-Reachable = more (more (more start (call 0 refl)) (round 0 zero_spins)) (call 1 one_idle)

zero_holds : contended.phase 0 ≡ holding
unfolding spinlock_acquire_round test_and_set write
zero_holds = refl

abbrev zero_processor : ℕ
zero_processor = 0

mutual_exclusion_example : zero_processor ≡ 0
mutual_exclusion_example = mutual_exclusion 0 0 contended-Reachable zero_holds zero_holds
