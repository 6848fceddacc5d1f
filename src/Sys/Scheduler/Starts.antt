-- ===== src/Sys/Scheduler/Starts.antt =====
-- The first run of a new thread: thread_create, and sched_switch_thread to it.
use arcane_os.Prelude.{ℕ, ◌+◌, ◌≡◌, ◌≢◌, ◌∙◌, sym, ap, some, u64, write, write_self, write-ne}
use arcane_os.Prelude.State.{State, pure, ◌>>=◌, ◌>>◌, >>=-run}
use arcane_os.Mm.Page.{map_read, map_write, map_user}
use arcane_os.Sys.Thread.{
  ThreadFields, Kernel, set_threads, smp_this_cpu, sizeof_thread, start_context, thread_create,
}
use arcane_os.Sys.Scheduler.{Queues, sched_switch_thread}
use arcane_os.Sys.Scheduler.Switch.{Loads, frame_of, switched, sched_switch_thread-switched}

-- What the allocators leave alone.
pub record SameThreads {S : Type 0} (k l : Kernel S) : Type 0 where
  pub threads : l.threads ≡ k.threads
  pub ids : l.thread_global_id ≡ k.thread_global_id
  pub cpus : l.cpus ≡ k.cpus
  pub frames : l.frames ≡ k.frames
  pub processor : smp_this_cpu l ≡ smp_this_cpu k

-- The call, made in the state `k`, returns `p` and leaves threads and processors alone.
abbrev pub Gives : {S : Type 0} → State (Kernel S) ℕ → (k : Kernel S) → ℕ → (l : Kernel S) → Type 0
Gives call k p l = (call k ≡ some (p, l)) × SameThreads k l

module _ {S : Type 0} (alloc : ℕ → State (Kernel S) ℕ) (vmm_new_pagemap : State (Kernel S) ℕ)
    (vmm_alloc : (pages flags : ℕ) → State (Kernel S) ℕ) (thread pagemap stack : ℕ) where
  -- With the number of the new thread, and with its tables.
  abbrev pub named : Kernel S → Kernel S
  named k = record k {
    threads = record k.threads { id = write k.threads.id thread k.thread_global_id };
    thread_global_id = u64 (k.thread_global_id + 1);
  }

  abbrev pub use_pagemap : ThreadFields → ThreadFields
  use_pagemap t = record t { pagemap = write t.pagemap thread pagemap }

  abbrev start : (entry : ℕ) → ThreadFields → ThreadFields
  start entry t = record t { ctx = write t.ctx thread (start_context entry stack (t.ctx thread)) }

  abbrev pub with_pagemap : Kernel S → Kernel S
  with_pagemap k = record k { threads = use_pagemap k.threads }

  abbrev with_context : (entry : ℕ) → Kernel S → Kernel S
  with_context entry k = record k { threads = start entry k.threads }

  -- The threads that thread_create leaves.
  abbrev created : (entry : ℕ) → Kernel S → ThreadFields
  created entry k = start entry (use_pagemap (named k).threads)

  abbrev on_stack : (entry : ℕ) → ℕ → State (Kernel S) ℕ
  on_stack entry p = do
    set_threads (λ t. record t { ctx = write t.ctx thread (start_context entry p (t.ctx thread)) })
    pure thread

  abbrev on_pagemap : (entry : ℕ) → ℕ → State (Kernel S) ℕ
  on_pagemap entry p = do
    set_threads (λ t. record t { pagemap = write t.pagemap thread p })
    stack ← vmm_alloc 4 (map_read + map_write + map_user)
    on_stack entry stack

  thread_create-created :
      (entry : ℕ) (k k1 k2 k3 : Kernel S)
      → Gives (alloc sizeof_thread) k thread k1
      → Gives vmm_new_pagemap (named k1) pagemap k2
      → Gives (vmm_alloc 4 (map_read + map_write + map_user)) (with_pagemap k2) stack k3
      → (l : Kernel S) × (thread_create alloc vmm_new_pagemap vmm_alloc entry k ≡ some (thread, l))
        × (l.threads ≡ created entry k)
        × (l.cpus ≡ k.cpus)
        × (l.frames ≡ k.frames)
        × (smp_this_cpu l ≡ smp_this_cpu k)
  unfolding thread_create smp_this_cpu
  thread_create-created entry k k1 k2 k3 (first, same1) (second, same2) (third, same3) = (
    with_context entry k3,
    >>=-run (alloc sizeof_thread) _ first
        ∙ >>=-run vmm_new_pagemap (on_pagemap entry) {s = named k1} {t = k2} {a = pagemap} second
        ∙ >>=-run (vmm_alloc 4 (map_read + map_write + map_user)) (on_stack entry)
            {s = with_pagemap k2} {t = k3} {a = stack} third,
    ap (start entry) same3.threads
        ∙ ap (λ th. start entry (use_pagemap th)) same2.threads
        ∙ ap
            (λ i.
              start entry (use_pagemap (record k1.threads { id = write k1.threads.id thread i })))
            same1.ids
        ∙ ap
            (λ th.
              start entry (use_pagemap (record th { id = write th.id thread k.thread_global_id })))
            same1.threads,
    same3.cpus ∙ same2.cpus ∙ same1.cpus,
    same3.frames ∙ same2.frames ∙ same1.frames,
    same3.processor ∙ same2.processor ∙ same1.processor,
  )

  -- Where the three calls that it makes of its allocators return, each in the state that the one before
  -- has left, and leave threads and processors alone, thread_create gives the new
  -- thread the next number; when a processor then switches to it from another thread, it continues at
  -- `entry`, with interrupts on, in the code segment of the kernel and with the lowest address of its
  -- stack as stack pointer; its own tables are loaded, and the other thread's context is saved.
  pub thread_create-starts :
      (load_pagemap : ℕ → State (Queues S) (Unit {0})) (tables : ℕ → ℕ) (entry old : ℕ)
      (s : Queues S) (k1 k2 k3 : Kernel S)
      → Loads tables load_pagemap
      → Gives (alloc sizeof_thread) s.rest thread k1
      → Gives vmm_new_pagemap (named k1) pagemap k2
      → Gives (vmm_alloc 4 (map_read + map_write + map_user)) (with_pagemap k2) stack k3
      → s.rest.cpus.current_thread (smp_this_cpu s.rest) ≡ old
      → old ≢ 0
      → thread ≢ old
      → (l : Kernel S) × (t : Queues S) × (thread_create alloc vmm_new_pagemap vmm_alloc entry
            s.rest
          ≡ some (thread, l))
        × (l.threads.id thread ≡ s.rest.thread_global_id)
        × (sched_switch_thread load_pagemap thread (record s { rest = l }) ≡ some (tt, t))
        × ((frame_of (smp_this_cpu s.rest) t).rip ≡ entry)
        × ((frame_of (smp_this_cpu s.rest) t).rflags ≡ 0x202)
        × ((frame_of (smp_this_cpu s.rest) t).cs ≡ 0x08)
        × ((frame_of (smp_this_cpu s.rest) t).rsp ≡ stack)
        × (t.rest.cr3 ≡ tables pagemap)
        × (t.rest.threads.ctx old ≡ frame_of (smp_this_cpu s.rest) s)
  unfolding start_context
  thread_create-starts load_pagemap tables entry old s k1 k2 k3 loads first second third runs
        some_old other =
      let (l, creates, threads, cpus, frames, same) =
        thread_create-created entry s.rest k1 k2 k3 first second third in
      let cpu = smp_this_cpu s.rest in
      let u : Queues S = record s { rest = l } in
      let t = switched load_pagemap tables loads cpu old thread u in
      let frame : frame_of cpu u ≡ frame_of cpu s =
        ap (λ f. f (l.cpus.trap_frame cpu)) frames
        ∙ ap (λ c. s.rest.frames (c.trap_frame cpu)) cpus in
      let enters : frame_of cpu t ≡ start_context entry stack (s.rest.threads.ctx thread) =
        write_self l.frames (l.cpus.trap_frame cpu)
          (write l.threads.ctx old (frame_of cpu u) thread)
        ∙ write-ne l.threads.ctx (frame_of cpu u) (λ e. other (sym e))
        ∙ ap (λ th. th.ctx thread) threads
        ∙ write_self s.rest.threads.ctx thread
            (start_context entry stack (s.rest.threads.ctx thread)) in
      (
        l,
        t,
        creates,
        ap (λ th. th.id thread) threads
            ∙ write_self s.rest.threads.id thread s.rest.thread_global_id,
        sched_switch_thread-switched load_pagemap tables loads u cpu old thread same
            (ap (λ c. c.current_thread cpu) cpus ∙ runs) some_old,
        ap (λ c. c.rip) enters,
        ap (λ c. c.rflags) enters,
        ap (λ c. c.cs) enters,
        ap (λ c. c.rsp) enters,
        ap tables (
            ap (λ th. th.pagemap thread) threads
            ∙ write_self s.rest.threads.pagemap thread pagemap),
        write_self l.threads.ctx old (frame_of cpu u) ∙ frame,
      )
