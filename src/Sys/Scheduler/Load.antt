-- ===== src/Sys/Scheduler/Load.antt =====
-- The choice of sched_pick_cpu.
use mathlib.Core.Path.{subst}
use mathlib.Core.Bool.{true≢false}
use arcane_os.Prelude.{
  ℕ, zero, suc, ◌+◌, ◌≤◌, ◌<◌, ◌≡◌, ◌≢◌, inl, inr, refl, ◌∙◌, sym, arith, true, false, Bool,
  Bool-cases, some, ltb, ◌==◌,
}
use arcane_os.Sys.Thread.{smp_get_cpu}
use arcane_os.Sys.Scheduler.{Queues, load_of, better, pick_loop, sched_pick_cpu}

below_suc : {n : ℕ} (P : ℕ → Type 0) → ((j : ℕ) → j < n → P j) → P n → (j : ℕ) → j < n + 1 → P j
below_suc {n} P below here j lt = elim (Bool-cases (j == n)) [
  | inl e ↦ subst P (ground arith) here
  | inr e ↦ below j (ground arith)
]

module _ {S : Type 0} (s : Queues S) where
  abbrev pub cpu_at : ℕ → ℕ
  cpu_at j = smp_get_cpu j s.rest

  -- Whether it is the first processor, which gets no threads.
  abbrev pub is_first : ℕ → Bool
  is_first j = s.rest.cpus.id (cpu_at j) == s.rest.smp_bsp_id

  -- One of the first `n` processors that get threads, none of which has a lower load; NULL if none
  -- of them gets threads.
  pub data IsLeast (n best : ℕ) : Type 0 where
    nobody : best ≡ 0 → ((j : ℕ) → j < n → is_first j ≡ true) → IsLeast n best
    least :
        (k : ℕ)
        → k < n
        → best ≡ cpu_at k
        → best ≢ 0
        → is_first k ≡ false
        → ((j : ℕ) → j < n → is_first j ≡ false → load_of s best ≤ load_of s (cpu_at j))
        → IsLeast n best

  better-IsLeast :
      (n best : ℕ) → cpu_at n ≢ 0 → IsLeast n best → IsLeast (n + 1) (better s best (cpu_at n))
  unfolding better
  better-IsLeast n best present (nobody none all) = elim (Bool-cases (is_first n)) [
    | inl e ↦ rw e (nobody none (below_suc (λ j. is_first j ≡ true) all e))
    | inr e ↦
        let here : (best == 0) ≡ true = ground arith in
        rw (e, here)
          (least n (omega arith) refl present e (
            below_suc (λ j. is_first j ≡ false → load_of s (cpu_at n) ≤ load_of s (cpu_at j))
              (λ j lt f. absurd (true≢false (sym (all j lt) ∙ f))) (λ f. omega arith)))
  ]
  better-IsLeast n best present (least k lt at some_cpu not_first min) =
      elim (Bool-cases (is_first n)) [
        | inl e ↦ rw e (
            least k (omega arith) at some_cpu not_first (
              below_suc (λ j. is_first j ≡ false → load_of s best ≤ load_of s (cpu_at j)) min
                (λ f. absurd (true≢false (sym e ∙ f)))))
        | inr e ↦
            let more : (best == 0) ≡ false = ground arith in
            elim (Bool-cases (ltb (load_of s (cpu_at n)) (load_of s best))) [
              | inl l ↦
                  let below : load_of s (cpu_at n) < load_of s best = ground arith in
                  rw (e, more, l)
                    (least n (omega arith) refl present e (
                      below_suc
                        (λ j. is_first j ≡ false → load_of s (cpu_at n) ≤ load_of s (cpu_at j))
                        (λ j lt' f. omega (arith, min j lt' f, below)) (λ f. omega arith)))
              | inr l ↦
                  let above : load_of s best ≤ load_of s (cpu_at n) = ground arith in
                  rw (e, more, l)
                    (least k (omega arith) at some_cpu not_first (
                      below_suc (λ j. is_first j ≡ false → load_of s best ≤ load_of s (cpu_at j))
                        min (λ f. above)))
            ]
      ]

  pick_loop-IsLeast :
      (n i best : ℕ)
      → ((j : ℕ) → j < i + n → cpu_at j ≢ 0)
      → IsLeast i best
      → (r : ℕ) × (pick_loop n i best s ≡ some r) × IsLeast (i + n) r
  unfolding pick_loop
  pick_loop-IsLeast zero i best present so_far =
      (best, refl, subst (λ k. IsLeast k best) (omega arith) so_far)
  pick_loop-IsLeast (suc n) i best present so_far =
      let here = present i (omega arith) in
      let (r, runs, done) =
        pick_loop-IsLeast n (i + 1) (better s best (cpu_at i)) (λ j lt. present j (omega arith))
          (better-IsLeast i best here so_far) in
      let some_cpu : (cpu_at i == 0) ≡ false = ground arith in
      (r, rw some_cpu runs, subst (λ k. IsLeast k r) (omega arith) done)

  -- Where no processor is missing, sched_pick_cpu returns one that gets threads and that has no
  -- higher load than any other that does; it returns NULL only if none gets threads.
  pub sched_pick_cpu-IsLeast :
      ((j : ℕ) → j < s.rest.smp_cpu_count → cpu_at j ≢ 0)
      → (r : ℕ) × (sched_pick_cpu s ≡ some r) × IsLeast s.rest.smp_cpu_count r
  unfolding sched_pick_cpu
  sched_pick_cpu-IsLeast present =
      let count = s.rest.smp_cpu_count in
      let (r, runs, done) =
        pick_loop-IsLeast count 0 0 (λ j lt. present j (omega arith))
          (nobody refl (λ j lt. absurd (omega arith))) in
      (r, runs, subst (λ k. IsLeast k r) (omega arith) done)
