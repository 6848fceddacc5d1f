-- ===== src/Sys/Scheduler/Switch.antt =====
-- Switching from a thread to another one and back, sched_switch_thread.
use arcane_os.Prelude.{
  ℕ, ◌≡◌, ◌≢◌, refl, sym, ap, arith, false, some, ◌==◌, write, write_self, write-ne, ◌∙◌,
}
use arcane_os.Prelude.State.{State, ◌>>◌, >>=-run}
use arcane_os.Sys.Thread.{Context, smp_this_cpu}
use arcane_os.Sys.Scheduler.{Queues, set_rest, set_cpus, sched_switch_thread}

-- The context at the trap frame of a processor.
abbrev pub frame_of : {S : Type 0} → (cpu : ℕ) → Queues S → Context
frame_of cpu s = s.rest.frames (s.rest.cpus.trap_frame cpu)

-- Loading the tables of a thread sets the register that holds them, and nothing else.
abbrev pub Loads :
    {S : Type 0} → (tables : ℕ → ℕ) (load_pagemap : ℕ → State (Queues S) (Unit {0})) → Type 0
Loads {S} tables load_pagemap =
    (pagemap : ℕ) (s : Queues S)
    → load_pagemap pagemap s ≡ some (tt, record s { rest = record s.rest { cr3 = tables pagemap } })

-- From `s` to `t` the processor stays the same and runs the same thread, and the context and the
-- tables of the thread `waits` are left alone.
pub record RunsOn {S : Type 0} (waits : ℕ) (s t : Queues S) : Type 0 where
  pub processor : smp_this_cpu t.rest ≡ smp_this_cpu s.rest
  pub current :
      t.rest.cpus.current_thread (smp_this_cpu s.rest)
      ≡ s.rest.cpus.current_thread (smp_this_cpu s.rest)
  pub ctx : t.rest.threads.ctx waits ≡ s.rest.threads.ctx waits
  pub pagemap : t.rest.threads.pagemap waits ≡ s.rest.threads.pagemap waits

module _ {S : Type 0} (load_pagemap : ℕ → State (Queues S) (Unit {0})) (tables : ℕ → ℕ)
    (loads : Loads tables load_pagemap) where
  -- The state that a switch from the thread `old` leaves.
  abbrev pub switched : (cpu old thread : ℕ) → Queues S → Queues S
  switched cpu old thread s =
      let contexts = write s.rest.threads.ctx old (frame_of cpu s) in
      record s {
        rest = record s.rest {
          threads = record s.rest.threads { ctx = contexts };
          cr3 = tables (s.rest.threads.pagemap thread);
          frames = write s.rest.frames (s.rest.cpus.trap_frame cpu) (contexts thread);
          cpus = record s.rest.cpus {
            current_thread = write s.rest.cpus.current_thread cpu thread;
          };
        };
      }

  abbrev enter : (cpu thread : ℕ) → State (Queues S) (Unit {0})
  enter cpu thread = do
    set_rest
        (λ k. record k { frames = write k.frames (k.cpus.trap_frame cpu) (k.threads.ctx thread) })
    set_cpus (λ c. record c { current_thread = write c.current_thread cpu thread })

  pub sched_switch_thread-switched :
      (s : Queues S) (cpu old thread : ℕ)
      → smp_this_cpu s.rest ≡ cpu
      → s.rest.cpus.current_thread cpu ≡ old
      → old ≢ 0
      → sched_switch_thread load_pagemap thread s ≡ some (tt, switched cpu old thread s)
  unfolding sched_switch_thread
  sched_switch_thread-switched s cpu old thread here runs some_old =
      let known : (old == 0) ≡ false = ground arith in
      let saved : Queues S = record s {
        rest = record s.rest {
          threads = record s.rest.threads { ctx = write s.rest.threads.ctx old (frame_of cpu s) };
        };
      } in
      rw (here, runs, known)
        (>>=-run (load_pagemap (s.rest.threads.pagemap thread)) (λ _. enter cpu thread) {s = saved}
          {t = record saved {
            rest = record saved.rest { cr3 = tables (s.rest.threads.pagemap thread) };
          }}
          {a = tt} (loads (s.rest.threads.pagemap thread) saved))

  -- A switch from a thread to another one puts that one's context at the trap frame and loads its
  -- tables; when the processor, after any work that leaves the first thread alone, switches back, the
  -- context at the trap frame is what it was, the first thread's tables are loaded and it is the
  -- current one, and the context that the second one had come to is saved.
  pub sched_switch_thread-back :
      (s : Queues S) (first second : ℕ) (work : Queues S → Queues S)
      → s.rest.cpus.current_thread (smp_this_cpu s.rest) ≡ first
      → first ≢ 0
      → second ≢ 0
      → second ≢ first
      → ((t : Queues S) → RunsOn first t (work t))
      → (t u : Queues S) × (sched_switch_thread load_pagemap second s ≡ some (tt, t))
        × (frame_of (smp_this_cpu s.rest) t ≡ s.rest.threads.ctx second)
        × (t.rest.cr3 ≡ tables (s.rest.threads.pagemap second))
        × (sched_switch_thread load_pagemap first (work t) ≡ some (tt, u))
        × (frame_of (smp_this_cpu s.rest) u ≡ frame_of (smp_this_cpu s.rest) s)
        × (u.rest.cr3 ≡ tables (s.rest.threads.pagemap first))
        × (u.rest.cpus.current_thread (smp_this_cpu s.rest) ≡ first)
        × (u.rest.threads.ctx second ≡ frame_of (smp_this_cpu s.rest) (work t))
  unfolding smp_this_cpu
  sched_switch_thread-back s first second work runs nf ns other leaves =
      let cpu = smp_this_cpu s.rest in
      let t = switched cpu first second s in
      let u = switched cpu second first (work t) in
      let kept = leaves t in
      let contexts = write s.rest.threads.ctx first (frame_of cpu s) in
      let later = write (work t).rest.threads.ctx second (frame_of cpu (work t)) in
      (
        t,
        u,
        sched_switch_thread-switched s cpu first second refl runs nf,
        write_self s.rest.frames (s.rest.cpus.trap_frame cpu) (contexts second)
            ∙ write-ne s.rest.threads.ctx (frame_of cpu s) (λ e. other (sym e)),
        refl,
        sched_switch_thread-switched (work t) cpu second first kept.processor
            (kept.current ∙ write_self s.rest.cpus.current_thread cpu second) ns,
        write_self (work t).rest.frames ((work t).rest.cpus.trap_frame cpu) (later first)
            ∙ write-ne (work t).rest.threads.ctx (frame_of cpu (work t)) other
            ∙ kept.ctx
            ∙ write_self s.rest.threads.ctx first (frame_of cpu s),
        ap tables kept.pagemap,
        write_self (work t).rest.cpus.current_thread cpu first,
        write_self (work t).rest.threads.ctx second (frame_of cpu (work t)),
      )
