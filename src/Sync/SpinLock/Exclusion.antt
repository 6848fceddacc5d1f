-- ===== src/Sync/SpinLock/Exclusion.antt =====
-- At most one processor holds the lock, and a free lock is taken by the next round.
use arcane_os.Prelude.{
  ℕ, ◌≡◌, ◌≢◌, refl, Bool, true, false, arith, ◌==◌, if◌then◌else◌, write, write_self, write-ne, ap,
  ◌∙◌, sym,
}
use arcane_os.Sync.SpinLock.{
  Phase, outside, spinning, holding, SpinLock, test_and_set, spinlock_acquire_round,
  spinlock_release, call_acquire, Step, call, round, release, Reachable, start, more,
}

abbrev pub is_holding : Phase → Bool
is_holding holding = true
is_holding outside = false
is_holding spinning = false

abbrev pub holds : SpinLock → ℕ → Bool
holds s i = is_holding (s.phase i)

-- The state is 1 while a processor holds the lock, and there is only one.
record Exclusive (s : SpinLock) : Type 0 where
  set : (i : ℕ) → holds s i ≡ true → s.state ≡ 1
  single : (i j : ℕ) → holds s i ≡ true → holds s j ≡ true → i ≡ j

is_holding-if :
    (c : Bool) (p q : Phase)
    → is_holding (if c then p else q) ≡ (if c then is_holding p else is_holding q)
is_holding-if true p q = refl
is_holding-if false p q = refl

holds-call :
    (i j : ℕ) (s : SpinLock) → holds (call_acquire i s) j ≡ (if i == j then false else holds s j)
unfolding write
holds-call i j s = is_holding-if (i == j) spinning (s.phase j)

entered : (c : Bool) → is_holding (if (if c then false else true) then spinning else holding) ≡ c
entered true = refl
entered false = refl

holds-round :
    (i j : ℕ) (s : SpinLock)
    → holds (spinlock_acquire_round i s) j ≡ (if i == j then s.state == 0 else holds s j)
unfolding write spinlock_acquire_round test_and_set
holds-round i j s =
    is_holding-if (i == j) (if (if s.state == 0 then false else true) then spinning else holding)
      (s.phase j)
    ∙ ap (λ b. if i == j then b else holds s j) (entered (s.state == 0))

holds-release :
    (i j : ℕ) (s : SpinLock)
    → holds (spinlock_release i s) j ≡ (if i == j then false else holds s j)
unfolding write spinlock_release
holds-release i j s = is_holding-if (i == j) outside (s.phase j)

Step-Exclusive : {s t : SpinLock} → Step s t → Exclusive s → Exclusive t
unfolding spinlock_acquire_round test_and_set spinlock_release
Step-Exclusive (call {s} i idle) inv = record {
  set = λ j h. ground (arith, holds-call i j s, inv.set j);
  single = λ j k hj hk. ground (arith, holds-call i j s, holds-call i k s, inv.single j k);
}
Step-Exclusive (round {s} i spins) inv = record {
  set = λ j h. refl;
  single = λ j k hj hk.
      ground (arith, holds-round i j s, holds-round i k s, inv.single j k, inv.set j, inv.set k);
}
Step-Exclusive (release {s} i held) inv =
    let own : holds s i ≡ true = rw held refl in
    record {
      set = λ j h. ground (arith, holds-release i j s, inv.single j i);
      single =
          λ j k hj hk. ground (arith, holds-release i j s, holds-release i k s, inv.single j k);
    }

Reachable-Exclusive : {s : SpinLock} → Reachable s → Exclusive s
Reachable-Exclusive start = record {
  set = λ i h. absurd (ground (arith, h));
  single = λ i j h h'. absurd (ground (arith, h));
}
Reachable-Exclusive (more reached step) = Step-Exclusive step (Reachable-Exclusive reached)

-- In whatever order the processors run, two that are between spinlock_acquire and
-- spinlock_release are the same one.
pub mutual_exclusion :
    {s : SpinLock} (i j : ℕ) → Reachable s → s.phase i ≡ holding → s.phase j ≡ holding → i ≡ j
mutual_exclusion i j reached hi hj =
    (Reachable-Exclusive reached).single i j (ap is_holding hi) (ap is_holding hj)

-- After the holder's spinlock_release, the next round of any processor that spins gets the lock.
pub release-round :
    {s : SpinLock} (i j : ℕ)
    → Reachable s
    → s.phase i ≡ holding
    → s.phase j ≡ spinning
    → ((spinlock_release i s).phase j ≡ spinning)
      × ((spinlock_acquire_round j (spinlock_release i s)).phase j ≡ holding)
unfolding spinlock_acquire_round test_and_set spinlock_release
release-round {s} i j reached hi hj =
    let other : i ≢ j = λ e.
      let both : true ≡ false = ap is_holding (sym hi ∙ ap s.phase e ∙ hj) in
      absurd (ground (arith, both)) in
    (write-ne s.phase outside other ∙ hj, write_self (write s.phase i outside) j holding)
