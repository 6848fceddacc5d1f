-- ===== src/Sys/Scheduler.antt =====
-- kernel/src/sys/scheduler.c: each processor but the first has a ring of threads and a place in it.
pub mod Adding
pub mod Load
pub mod Rounds
pub mod Preempt
pub mod Switch
pub mod Starts
use arcane_os.Prelude.{
  ℕ, zero, suc, ◌+◌, Option, none, some, ltb, not, ◌==◌, if◌then◌else◌, Cells, write,
}
use arcane_os.Prelude.State.{State, pure, ◌>>=◌, ◌>>◌, gets, modify, fail, assert, when}
use arcane_os.Rings.KernelList.{Lists, list_insert}
use arcane_os.Sys.Thread.{Context, CpuFields, Kernel, smp_get_cpu, smp_this_cpu}

-- The rings of the processors, over the rest of the kernel.
abbrev pub Queues : Type 0 → Type 0
Queues S = Lists (Kernel S)

module _ {S : Type 0} where
  abbrev pub load_of : Queues S → (cpu : ℕ) → ℕ
  load_of s cpu = s.count (s.rest.cpus.list cpu)

  -- One round of sched_pick_cpu.
  unfoldable pub better : Queues S → (best cpu : ℕ) → ℕ
  better s best cpu =
      if s.rest.cpus.id cpu == s.rest.smp_bsp_id
      then best
      else if best == 0
      then cpu
      else if ltb (load_of s cpu) (load_of s best)
      then cpu
      else best

  -- The loop, from processor `i` on with `n` left; a missing processor is a null pointer.
  unfoldable pub pick_loop : (n i best : ℕ) → Queues S → Option ℕ
  unfolding better smp_get_cpu
  pick_loop zero i best s = some best
  pick_loop (suc n) i best s =
      let cpu = smp_get_cpu i s.rest in
      let rest = pick_loop n (i + 1) (better s best cpu) s in if cpu == 0 then none else rest

  unfoldable pub sched_pick_cpu : Queues S → Option ℕ
  unfolding pick_loop
  sched_pick_cpu s = pick_loop s.rest.smp_cpu_count 0 0 s

  abbrev pub set_rest : (Kernel S → Kernel S) → State (Queues S) (Unit {0})
  set_rest f = modify (λ s. record s { rest = f s.rest })

  abbrev pub set_cpus : (CpuFields → CpuFields) → State (Queues S) (Unit {0})
  set_cpus f = set_rest (λ k. record k { cpus = f k.cpus })

  -- The choice must succeed.
  abbrev pub chosen : Option ℕ → State (Queues S) ℕ
  chosen none = fail
  chosen (some cpu) = pure cpu

  module _ (alloc : ℕ → State (Kernel S) ℕ) where
    unfoldable pub sched_cpu_add_thread : (cpu thread : ℕ) → State (Queues S) (Unit {0})
    sched_cpu_add_thread cpu thread = do
      list ← gets (λ s. s.rest.cpus.list cpu)
      item ← list_insert alloc list thread
      pure tt

    unfoldable pub sched_add_thread : (thread : ℕ) → State (Queues S) (Unit {0})
    unfolding sched_pick_cpu
    sched_add_thread thread = do
      cpu ← (λ s. chosen (sched_pick_cpu s) s)
      assert (not (cpu == 0))
      list ← gets (λ s. s.rest.cpus.list cpu)
      item ← list_insert alloc list thread
      pure tt

    -- The idle threads, from processor `i` on with `n` left.
    unfoldable pub idle_loop : (create : State (Queues S) ℕ) (n i : ℕ) → State (Queues S) (Unit {0})
    unfolding sched_cpu_add_thread smp_get_cpu
    idle_loop create zero i = pure tt
    idle_loop create (suc n) i = do
      cpu ← gets (λ s. smp_get_cpu i s.rest)
      assert (not (cpu == 0))
      first ← gets (λ s. s.rest.cpus.id cpu == s.rest.smp_bsp_id)
      when (not first) (create >>= sched_cpu_add_thread cpu)
      idle_loop create n (i + 1)

    -- `create` is `thread_create(sched_idle)`.
    unfoldable pub sched_init :
        (alloc_vec : State (Queues S) ℕ) (set_handler : (vec : ℕ) → State (Queues S) (Unit {0}))
        (create : State (Queues S) ℕ)
        → State (Queues S) (Unit {0})
    unfolding idle_loop
    sched_init alloc_vec set_handler create = do
      vec ← alloc_vec
      set_rest (λ k. record k { sched_vec = vec })
      set_handler vec
      count ← gets (λ s. s.rest.smp_cpu_count)
      idle_loop create count 0

  unfoldable pub sched_switch_thread :
      (load_pagemap : ℕ → State (Queues S) (Unit {0})) (thread : ℕ) → State (Queues S) (Unit {0})
  unfolding smp_this_cpu
  sched_switch_thread load_pagemap thread = do
    cpu ← gets (λ s. smp_this_cpu s.rest)
    current ← gets (λ s. s.rest.cpus.current_thread cpu)
    when (not (current == 0)) (
        set_rest (λ k. record k {
          threads = record k.threads {
            ctx = write k.threads.ctx current (k.frames (k.cpus.trap_frame cpu));
          };
        }))
    pagemap ← gets (λ s. s.rest.threads.pagemap thread)
    load_pagemap pagemap
    set_rest
        (λ k. record k { frames = write k.frames (k.cpus.trap_frame cpu) (k.threads.ctx thread) })
    set_cpus (λ c. record c { current_thread = write c.current_thread cpu thread })

  -- The part of sched_preempt that takes the next thread from the ring.
  unfoldable pub next_thread : (cpu : ℕ) → State (Queues S) ℕ
  next_thread cpu s =
      let head = s.head (s.rest.cpus.list cpu) in
      let current = s.rest.cpus.current_item cpu in
      let item = if current == head then s.links.next head else current in
      some (
        s.data_of item,
        record s {
          rest = record s.rest {
            cpus = record s.rest.cpus {
              current_item = write s.rest.cpus.current_item cpu (s.links.next item);
            };
          };
        },
      )

  -- `oneshot` calls the function of a timer.
  unfoldable pub sched_preempt :
      (load_pagemap : ℕ → State (Queues S) (Unit {0}))
      (oneshot : (timer ms vec : ℕ) → State (Queues S) (Unit {0}))
      (eoi : State (Queues S) (Unit {0}))
      → State (Queues S) (Unit {0})
  unfolding next_thread sched_switch_thread smp_this_cpu
  sched_preempt load_pagemap oneshot eoi = do
    cpu ← gets (λ s. smp_this_cpu s.rest)
    thread ← next_thread cpu
    sched_switch_thread load_pagemap thread
    timer ← gets (λ s. s.rest.cpus.local_timer cpu)
    vec ← gets (λ s. s.rest.sched_vec)
    oneshot timer 5 vec
    eoi
