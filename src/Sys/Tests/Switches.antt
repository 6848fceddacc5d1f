-- ===== src/Sys/Tests/Switches.antt =====
-- A processor that switches between two threads, and the theorems on switching at it.
use arcane_os.Prelude.{ℕ, ◌+◌, ◌≡◌, refl, inr, arith, some}
use arcane_os.Sys.Thread.{Kernel, smp_this_cpu, thread_create}
use arcane_os.Prelude.State.{State, ◌>>◌}
use arcane_os.Sys.Scheduler.{Queues, sched_preempt, sched_switch_thread}
use arcane_os.Sys.Scheduler.Rounds.{place_of}
use arcane_os.Sys.Scheduler.Starts.{Gives, named, with_pagemap, thread_create-starts}
use arcane_os.Sys.Scheduler.Switch.{frame_of, sched_switch_thread-back}
use arcane_os.Sys.Tests.{no_context, two_cpus, two_threads}
use arcane_os.Sys.Scheduler.Preempt.{sched_preempt-next}

-- The second processor runs the thread 97.
abbrev running : Queues ℕ
running = record two_threads {
  rest = record two_cpus { cpus = record two_cpus.cpus { current_thread = λ a. 97 } };
}

abbrev load_table : ℕ → State (Queues ℕ) (Unit {0})
load_table pagemap s = some (tt, record s { rest = record s.rest { cr3 = pagemap } })

abbrev clear_frames : Queues ℕ → Queues ℕ
clear_frames s = record s { rest = record s.rest { frames = λ a. no_context } }

sched_switch_thread-back_example :
    (t u : Queues ℕ) × (sched_switch_thread load_table 129 running ≡ some (tt, t))
    × (frame_of (smp_this_cpu two_cpus) t ≡ no_context)
    × (t.rest.cr3 ≡ 0)
    × (sched_switch_thread load_table 97 (clear_frames t) ≡ some (tt, u))
    × (frame_of (smp_this_cpu two_cpus) u ≡ no_context)
    × (u.rest.cr3 ≡ 0)
    × (u.rest.cpus.current_thread (smp_this_cpu two_cpus) ≡ 97)
    × (u.rest.threads.ctx 129 ≡ no_context)
unfolding smp_this_cpu
sched_switch_thread-back_example =
    sched_switch_thread-back load_table (λ pagemap. pagemap) (λ pagemap s. refl) running 97 129
      clear_frames refl (λ e. omega (arith, e)) (λ e. omega (arith, e)) (λ e. omega (arith, e))
      (λ t. record { processor = refl; current = refl; ctx = refl; pagemap = refl })

-- An allocator that counts up, and what it leaves alone.
abbrev bump : (size : ℕ) → State (Kernel ℕ) ℕ
bump size k = some (0x300 + k.rest, record k { rest = k.rest + size })

abbrev after : (n : ℕ) → Kernel ℕ → Kernel ℕ
after n k = record k { rest = n }

bump-Gives :
    (size : ℕ) (k : Kernel ℕ) → Gives (bump size) k (0x300 + k.rest) (after (k.rest + size) k)
unfolding smp_this_cpu
bump-Gives size k =
    (refl, record { threads = refl; ids = refl; cpus = refl; frames = refl; processor = refl })

abbrev first_state : Kernel ℕ
first_state = after 192 running.rest

abbrev named_state : Kernel ℕ
named_state = named bump (bump 16) (λ pages flags. bump 0x4000) 0x300 0x3C0 0x3D0 first_state

abbrev pagemap_state : Kernel ℕ
pagemap_state =
    with_pagemap bump (bump 16) (λ pages flags. bump 0x4000) 0x300 0x3C0 0x3D0
      (after 208 named_state)

thread_create-starts_example :
    (l : Kernel ℕ) × (t : Queues ℕ) × (thread_create bump
        (bump 16)
        (λ pages flags. bump 0x4000)
        0x1234
        running.rest
      ≡ some (0x300, l))
    × (l.threads.id 0x300 ≡ 2)
    × (sched_switch_thread load_table 0x300 (record running { rest = l }) ≡ some (tt, t))
    × ((frame_of (smp_this_cpu two_cpus) t).rip ≡ 0x1234)
    × ((frame_of (smp_this_cpu two_cpus) t).rflags ≡ 0x202)
    × ((frame_of (smp_this_cpu two_cpus) t).cs ≡ 0x08)
    × ((frame_of (smp_this_cpu two_cpus) t).rsp ≡ 0x3D0)
    × (t.rest.cr3 ≡ 0x3C0)
    × (t.rest.threads.ctx 97 ≡ frame_of (smp_this_cpu two_cpus) running)
unfolding smp_this_cpu
thread_create-starts_example =
    thread_create-starts bump (bump 16) (λ pages flags. bump 0x4000) 0x300 0x3C0 0x3D0 load_table
      (λ pagemap. pagemap) 0x1234 97 running first_state (after 208 named_state)
      (after 0x40D0 pagemap_state) (λ pagemap s. refl) (bump-Gives 192 running.rest)
      (bump-Gives 16 named_state) (bump-Gives 0x4000 pagemap_state) refl (λ e. omega (arith, e))
      (λ e. omega (arith, e))

-- The second thread runs, and the first one is next.
abbrev second_runs : Queues ℕ
second_runs = record two_threads {
  rest = record two_cpus { cpus = record two_cpus.cpus { current_thread = λ a. 129 } };
}

abbrev arm : (timer ms vec : ℕ) → State (Queues ℕ) (Unit {0})
arm timer ms vec s = some (tt, s)

abbrev end : State (Queues ℕ) (Unit {0})
end s = some (tt, s)

sched_preempt-next_example :
    (t : Queues ℕ) × (sched_preempt load_table arm end second_runs ≡ (arm 0 5 48 >> end) t)
    × (t.rest.threads.ctx 129 ≡ no_context)
    × (frame_of (smp_this_cpu two_cpus) t ≡ no_context)
    × (t.rest.cr3 ≡ 0)
    × (t.rest.cpus.current_thread (smp_this_cpu two_cpus) ≡ 97)
    × (place_of (smp_this_cpu two_cpus) t ≡ 128)
unfolding smp_this_cpu
sched_preempt-next_example =
    sched_preempt-next load_table (λ pagemap. pagemap) (λ pagemap s. refl) arm end second_runs 96
      129 (inr (refl, refl)) refl (λ e. omega (arith, e)) (λ e. omega (arith, e))
