-- ===== src/Sync/SpinLock.antt =====
-- The spin lock, kernel/src/lib/spinlock.c, run by any number of processors in any order. A step
-- is one atomic operation on the lock; the pause between two of them changes nothing.
pub mod Exclusion
mod Tests
use arcane_os.Prelude.{ℕ, Bool, true, false, ◌≡◌, ◌==◌, if◌then◌else◌, Cells, write}

-- Where a processor is: outside, in the loop of spinlock_acquire, or between the two calls.
pub data Phase : Type 0 where
  outside : Phase
  spinning : Phase
  holding : Phase

-- `state` of the lock, with the phases of the processors.
pub record SpinLock : Type 0 where
  pub state : ℕ
  pub phase : Cells Phase

-- `__atomic_test_and_set`: whether the state was set, and the state after.
unfoldable pub test_and_set : (state : ℕ) → Bool × ℕ
test_and_set state = (if state == 0 then false else true, 1)

-- One round of the loop: the processor leaves it if the state was clear.
unfoldable pub spinlock_acquire_round : ℕ → SpinLock → SpinLock
unfolding test_and_set
spinlock_acquire_round i s = record {
  state = (test_and_set s.state).1;
  phase = write s.phase i (if (test_and_set s.state).0 then spinning else holding);
}

unfoldable pub spinlock_release : ℕ → SpinLock → SpinLock
spinlock_release i s = record { state = 0; phase = write s.phase i outside }

abbrev pub call_acquire : ℕ → SpinLock → SpinLock
call_acquire i s = record s { phase = write s.phase i spinning }

-- What a processor may do: only the holder calls spinlock_release.
pub data Step : SpinLock → SpinLock → Type 0 where
  call : {s : SpinLock} (i : ℕ) → s.phase i ≡ outside → Step s (call_acquire i s)
  round : {s : SpinLock} (i : ℕ) → s.phase i ≡ spinning → Step s (spinlock_acquire_round i s)
  release : {s : SpinLock} (i : ℕ) → s.phase i ≡ holding → Step s (spinlock_release i s)

abbrev pub unlocked : SpinLock
unlocked = record { state = 0; phase = λ i. outside }

pub data Reachable : SpinLock → Type 0 where
  start : Reachable unlocked
  more : {s t : SpinLock} → Reachable s → Step s t → Reachable t
