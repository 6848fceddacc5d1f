-- ===== src/Sys/Scheduler/Adding.antt =====
-- A new thread: which processor gets it, and when it runs there.
use mathlib.Core.Path.{subst}
use mathlib.Core.Bool.{true≢false}
use mathlib.Core.List.{append_assoc}
use arcane_os.Prelude.{
  ℕ, ◌-◌, ◌^◌, ◌≤◌, ◌<◌, ◌≡◌, ◌≢◌, inl, inr, ◌∙◌, sym, ap, arith, false, some, List, [], ◌∷◌, ◌++◌,
  map, length, not, ◌==◌,
}
use arcane_os.Prelude.State.{State, pure, ◌>>=◌, ◌>>◌, gets, assert, >>=-run}
use arcane_os.Rings.Seg.{NotIn, Ring}
use arcane_os.Rings.KernelList.{Holds, list_insert, list_insert-Holds, sizeof_item}
use arcane_os.Sys.Thread.{Kernel}
use arcane_os.Sys.Scheduler.{Queues, load_of, sched_pick_cpu, sched_add_thread, chosen}
use arcane_os.Sys.Scheduler.Load.{nobody, least, cpu_at, is_first, sched_pick_cpu-IsLeast}
use arcane_os.Sys.Scheduler.Rounds.{IsPlace, head_of, place_of, rounds, rounds-joined}

-- The queue of a processor: the items of its list in order, split at its place.
pub record Queue {S : Type 0} (s : Queues S) (cpu : ℕ) (before waiting : List ℕ) : Type 0 where
  pub holds : Holds s (s.rest.cpus.list cpu) (before ++ waiting)
  pub few : length (before ++ waiting) < 2 ^ 64 - 1
  pub place : IsPlace cpu s before waiting

-- Whether processor `j` gets threads.
abbrev pub IsOpen : {S : Type 0} → Queues S → (j : ℕ) → Type 0
IsOpen s j = (j < s.rest.smp_cpu_count) × (is_first s j ≡ false)

module _ {S : Type 0} (alloc : ℕ → State (Kernel S) ℕ) (s : Queues S)
    (before waiting : ℕ → List ℕ) where
  -- The state behind list_insert on the list of processor `j`.
  joins :
      (thread item j : ℕ) (rest : Kernel S)
      → Queue s (cpu_at s j) (before j) (waiting j)
      → alloc sizeof_item s.rest ≡ some (item, rest)
      → rest.cpus ≡ s.rest.cpus
      → NotIn item (head_of (cpu_at s j) s ∷ (before j ++ waiting j))
      → (t u : Queues S) × (list_insert alloc (s.rest.cpus.list (cpu_at s j)) thread s
          ≡ some (item, t))
        × (t.data_of item ≡ thread)
        × (rounds (length (waiting j ++ item ∷ [])) (cpu_at s j) t
            ≡ some (map t.data_of (waiting j ++ item ∷ []), u))
  joins thread item j rest queue given same away =
      let cpu = cpu_at s j in
      let list = s.rest.cpus.list cpu in
      let (t, runs, holds, value, heads, below) =
        list_insert-Holds alloc list thread item (before j ++ waiting j) s rest queue.holds
          queue.few given away in
      let cpus : t.rest.cpus ≡ s.rest.cpus = ap (λ k. k.cpus) below ∙ same in
      let head : head_of cpu t ≡ s.head list =
        ap (λ c. t.head (c.list cpu)) cpus ∙ ap (λ h. h list) heads in
      let at : place_of cpu t ≡ place_of cpu s = ap (λ c. c.current_item cpu) cpus in
      let ring : Ring t.links (head_of cpu t) (before j ++ (waiting j ++ item ∷ [])) =
        subst (λ xs. Ring t.links (head_of cpu t) xs)
          (append_assoc (before j) (waiting j) (item ∷ []))
          (subst (λ h. Ring t.links h ((before j ++ waiting j) ++ item ∷ []))
            (ap (λ h. h list) heads ∙ sym head) holds.ring) in
      let place : IsPlace cpu t (before j) (waiting j) = elim queue.place [
        | inl (none, p) ↦ inl (none, at ∙ p ∙ sym head)
        | inr (first, later, e, p) ↦ inr (first, later, e, at ∙ p)
      ] in
      let (u, takes) = rounds-joined cpu t (before j) (waiting j) item ring place in
      (t, u, runs, value, takes)

  abbrev insert_on : (thread cpu : ℕ) → State (Queues S) (Unit {0})
  insert_on thread cpu = do
    assert (not (cpu == 0))
    list ← gets (λ s. s.rest.cpus.list cpu)
    item ← list_insert alloc list thread
    pure tt

  sched_add_thread-insert :
      (thread item r : ℕ) (t : Queues S)
      → sched_pick_cpu s ≡ some r
      → r ≢ 0
      → list_insert alloc (s.rest.cpus.list r) thread s ≡ some (item, t)
      → sched_add_thread alloc thread s ≡ some (tt, t)
  unfolding sched_add_thread
  sched_add_thread-insert thread item r t picks some_cpu runs =
      let known : (r == 0) ≡ false = ground arith in
      ap (λ o. (chosen o >>= insert_on thread) s) picks
      ∙ ap
          (λ b.
            (assert (not b)
                >> (gets (λ s. s.rest.cpus.list r) >>= λ list.
                    list_insert alloc list thread >>= λ item. pure tt))
              s)
          known
      ∙ >>=-run (list_insert alloc (s.rest.cpus.list r) thread) (λ item. pure tt) runs

  pub sched_add_thread-runs :
      (thread item k : ℕ) (rest : Kernel S)
      → ((j : ℕ) → j < s.rest.smp_cpu_count → cpu_at s j ≢ 0)
      → IsOpen s k
      → ((j : ℕ) → IsOpen s j → Queue s (cpu_at s j) (before j) (waiting j))
      → alloc sizeof_item s.rest ≡ some (item, rest)
      → rest.cpus ≡ s.rest.cpus
      → ((j : ℕ) → IsOpen s j → NotIn item (head_of (cpu_at s j) s ∷ (before j ++ waiting j)))
      → (j : ℕ) × (t u : Queues S) × IsOpen s j
        × ((i : ℕ) → IsOpen s i → load_of s (cpu_at s j) ≤ load_of s (cpu_at s i))
        × (sched_add_thread alloc thread s ≡ some (tt, t))
        × (t.data_of item ≡ thread)
        × (rounds (length (waiting j ++ item ∷ [])) (cpu_at s j) t
            ≡ some (map t.data_of (waiting j ++ item ∷ []), u))
  sched_add_thread-runs thread item k rest present open_k queue given same away =
      let (r, picks, found) = sched_pick_cpu-IsLeast s present in
      elim found [
        | nobody none all ↦ absurd (true≢false (sym (all k open_k.0) ∙ open_k.1))
        | least j lt at some_cpu not_first min ↦
            let (t, u, runs, value, takes) =
              joins thread item j rest (queue j (lt, not_first)) given same
                (away j (lt, not_first)) in
            (
              j,
              t,
              u,
              (lt, not_first),
              λ i open_i.
                  subst (λ c. load_of s c ≤ load_of s (cpu_at s i)) at (min i open_i.0 open_i.1),
              sched_add_thread-insert thread item (cpu_at s j) t (picks ∙ ap some at)
                  (subst (λ c. c ≢ 0) at some_cpu) runs,
              value,
              takes,
            )
      ]
