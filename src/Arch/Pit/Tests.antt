-- ===== src/Arch/Pit/Tests.antt =====
-- A counter that advances by one between two looks, and the theorem on waiting at it.
use arcane_os.Prelude.{ℕ, ◌+◌, ◌-◌, ◌≤◌, ◌<◌, ◌≡◌, arith, some}
use arcane_os.Arch.Pit.{pit_wait, pit_wait-ends}

pit_wait-ends_example :
    (k : ℕ) × (pit_wait 20 10 (λ look. 100 + look) ≡ some k)
    × (10 ≤ (100 + k) - 100)
    × ((j : ℕ) → 1 ≤ j → j < k → 100 + j < 110)
pit_wait-ends_example =
    pit_wait-ends 20 10 12 (λ look. 100 + look) (omega arith) (omega arith) (omega arith)
      (omega arith)
