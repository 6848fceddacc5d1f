-- ===== src/Sys/Scheduler/Preempt.antt =====
-- One preemption, sched_preempt.
use arcane_os.Prelude.{ℕ, ◌≡◌, ◌≢◌, refl, ◌∙◌, sym, write, write_self, write-ne}
use arcane_os.Prelude.State.{State, gets, ◌>>=◌, ◌>>◌, >>=-run}
use arcane_os.Sys.Thread.{smp_this_cpu}
use arcane_os.Sys.Scheduler.{Queues, next_thread, sched_switch_thread, sched_preempt}
use arcane_os.Sys.Scheduler.Rounds.{IsNext, moved, place_of, next_thread-IsNext}
use arcane_os.Sys.Scheduler.Switch.{Loads, frame_of, switched, sched_switch_thread-switched}

module _ {S : Type 0} (load_pagemap : ℕ → State (Queues S) (Unit {0})) (tables : ℕ → ℕ)
    (loads : Loads tables load_pagemap) (oneshot : (timer ms vec : ℕ) → State (Queues S) (Unit {0}))
    (eoi : State (Queues S) (Unit {0})) where
  -- What follows the switch.
  abbrev rearm : (cpu : ℕ) → State (Queues S) (Unit {0})
  rearm cpu = do
    timer ← gets (λ s. s.rest.cpus.local_timer cpu)
    vec ← gets (λ s. s.rest.sched_vec)
    oneshot timer 5 vec
    eoi

  -- Where a processor runs a thread and another one is next in its ring, sched_preempt saves the
  -- context at the trap frame to the first, puts the context of the second there, loads its tables and
  -- makes it the current one, and moves the place behind its item; then it has the processor's own
  -- timer call the scheduler's vector in 5 ms, and ends the interrupt.
  pub sched_preempt-next :
      (s : Queues S) (item old : ℕ)
      → IsNext (smp_this_cpu s.rest) s item
      → s.rest.cpus.current_thread (smp_this_cpu s.rest) ≡ old
      → old ≢ 0
      → s.data_of item ≢ old
      → (t : Queues S) × (sched_preempt load_pagemap oneshot eoi s
          ≡ (oneshot (s.rest.cpus.local_timer (smp_this_cpu s.rest)) 5 s.rest.sched_vec >> eoi) t)
        × (t.rest.threads.ctx old ≡ frame_of (smp_this_cpu s.rest) s)
        × (frame_of (smp_this_cpu s.rest) t ≡ s.rest.threads.ctx (s.data_of item))
        × (t.rest.cr3 ≡ tables (s.rest.threads.pagemap (s.data_of item)))
        × (t.rest.cpus.current_thread (smp_this_cpu s.rest) ≡ s.data_of item)
        × (place_of (smp_this_cpu s.rest) t ≡ s.links.next item)
  unfolding sched_preempt smp_this_cpu
  sched_preempt-next s item old next runs some_old other =
      let cpu = smp_this_cpu s.rest in
      let thread = s.data_of item in
      let u = moved cpu (s.links.next item) s in
      let t = switched load_pagemap tables loads cpu old thread u in
      (
        t,
        >>=-run (next_thread cpu) (λ th. sched_switch_thread load_pagemap th >> rearm cpu) {s = s}
              {t = u} {a = thread} (next_thread-IsNext cpu s item next)
            ∙ >>=-run (sched_switch_thread load_pagemap thread) (λ _. rearm cpu) {s = u} {t = t}
                {a = tt}
                (sched_switch_thread-switched load_pagemap tables loads u cpu old thread refl runs
                  some_old),
        write_self s.rest.threads.ctx old (frame_of cpu s),
        write_self s.rest.frames (s.rest.cpus.trap_frame cpu)
              (write s.rest.threads.ctx old (frame_of cpu s) thread)
            ∙ write-ne s.rest.threads.ctx (frame_of cpu s) (λ e. other (sym e)),
        refl,
        write_self s.rest.cpus.current_thread cpu thread,
        write_self s.rest.cpus.current_item cpu (s.links.next item),
      )
