-- ===== src/Sys/Tests.antt =====
-- Two processors, the second with two threads in its ring, and the theorems on the scheduler there.
mod Switches
use arcane_os.Prelude.{
  true, ℕ, ◌+◌, ◌<◌, ◌≡◌, ◌≢◌, refl, inl, arith, some, List, [], ◌∷◌, ◌≤◌, map, ◌==◌, if◌then◌else◌,
  write,
}
use arcane_os.Rings.Seg.{Seg, NotIn, Distinct, Ring}
use arcane_os.Sys.Thread.{Context, Kernel, timer_create, smp_get_cpu, smp_this_cpu, thread_create}
use arcane_os.Prelude.State.{State}
use arcane_os.Sys.Scheduler.{Queues, load_of, sched_add_thread, sched_pick_cpu, sched_switch_thread}
use arcane_os.Sys.Scheduler.Load.{IsLeast, cpu_at, sched_pick_cpu-IsLeast}
use arcane_os.Sys.Scheduler.Rounds.{rounds, place_of, Moves, rounds-Ring}
use arcane_os.Sys.Processors.{smp_cpu_entry, wait_started}
use arcane_os.Sys.Processors.Starts.{Enter, none_left, enters, counted, wait_started-all}
use arcane_os.Sys.Boot.{arch_start_cpu}
use arcane_os.Sys.Scheduler.Adding.{IsOpen, Queue, sched_add_thread-runs}
use arcane_os.Sys.Scheduler.Starts.{Gives, thread_create-starts}
use arcane_os.Sys.Scheduler.Switch.{frame_of, sched_switch_thread-back}

abbrev no_context : Context
no_context = record {
  r15 = 0;
  r14 = 0;
  r13 = 0;
  r12 = 0;
  r11 = 0;
  r10 = 0;
  r9 = 0;
  r8 = 0;
  rdi = 0;
  rsi = 0;
  rbp = 0;
  rbx = 0;
  rdx = 0;
  rcx = 0;
  rax = 0;
  int_no = 0;
  err_code = 0;
  rip = 0;
  cs = 0;
  rflags = 0;
  rsp = 0;
  ss = 0;
}

abbrev two_cpus : Kernel ℕ
two_cpus = record {
  threads = record { id = λ a. a; ctx = λ a. no_context; pagemap = λ a. 0 };
  oneshot_of = λ a. 0;
  cpus = record {
    id = λ a. if a == 0x1000 then 0 else 1;
    interrupt_status = λ a. 1;
    local_timer = λ a. 0;
    trap_frame = λ a. 0x5000;
    list = λ a. 32;
    current_item = λ a. 64;
    current_thread = λ a. 0;
    apic_timer_ticks = λ a. 0;
  };
  frames = λ a. no_context;
  thread_global_id = 2;
  sched_vec = 48;
  smp_cpu_vec = λ i. if i == 0 then 0x1000 else 0x2000;
  smp_cpu_count = 2;
  smp_bsp_id = 0;
  smp_started_count = 2;
  smp_enabled = true;
  smp_lock = 0;
  this_cpu = 1;
  cr3 = 0;
  rest = 0;
}

-- The ring of the sentinel at 64 and the items at 96 and 128.
abbrev two_threads : Queues ℕ
two_threads = record {
  links = record {
    next = λ a. if a == 64 then 96 else if a == 96 then 128 else 64;
    prev = λ a. if a == 64 then 128 else if a == 96 then 64 else 96;
  };
  data_of = λ a. a + 1;
  head = λ a. 64;
  count = λ a. 2;
  rest = two_cpus;
}

two_threads-Ring : Ring two_threads.links 64 (96 ∷ 128 ∷ [])
unfolding Seg NotIn Distinct
two_threads-Ring = record {
  around = (refl, refl, (refl, refl, (refl, refl)));
  distinct = (
    ((λ e. omega (arith, e)), ((λ e. omega (arith, e)), tt)),
    (((λ e. omega (arith, e)), tt), (tt, tt)),
  );
}

rounds-Ring_example :
    (t : Queues ℕ) × (rounds 2 0x2000 two_threads ≡ some (97 ∷ 129 ∷ [], t))
    × (place_of 0x2000 t ≡ 64)
    × Moves 0x2000 two_threads t
rounds-Ring_example = rounds-Ring 0x2000 two_threads 96 (128 ∷ []) two_threads-Ring (inl refl)

present : (j : ℕ) → j < 2 → cpu_at two_threads j ≢ 0
unfolding smp_get_cpu
present j lt = ground arith

sched_pick_cpu-IsLeast_example :
    (r : ℕ) × (sched_pick_cpu two_threads ≡ some r) × IsLeast two_threads 2 r
sched_pick_cpu-IsLeast_example = sched_pick_cpu-IsLeast two_threads present

-- One of three processors has been counted.
abbrev waiting : Queues ℕ
waiting = record two_threads { rest = record two_cpus { smp_cpu_count = 3; smp_started_count = 1 } }

abbrev next_item : ℕ → State (Kernel ℕ) ℕ
next_item size k = some (160, k)

abbrev done : State (Queues ℕ) (Unit {0})
done s = some (tt, s)

-- A processor sets itself up, with a timer that alloc gives at 160.
abbrev start_cpu : (lapic_id : ℕ) → State (Queues ℕ) (Unit {0})
start_cpu lapic_id = arch_start_cpu next_item done 7 (λ id. done) done done done lapic_id

-- In each pause the next processor enters.
abbrev next_enters : State (Queues ℕ) (Unit {0})
next_enters s = smp_cpu_entry (start_cpu s.rest.smp_started_count) s

abbrev set_up : (lapic_id : ℕ) → Queues ℕ → Queues ℕ
set_up lapic_id s = record s {
  rest = record s.rest {
    oneshot_of = write s.rest.oneshot_of 160 7;
    cpus = record s.rest.cpus {
      id = write s.rest.cpus.id 0x2000 lapic_id;
      local_timer = write s.rest.cpus.local_timer 0x2000 160;
    };
  };
}

both-Enter : Enter next_enters waiting 2 2
unfolding arch_start_cpu smp_get_cpu timer_create
both-Enter =
    enters {t = set_up 1 waiting} (start_cpu 1) refl refl
      (record { lock = refl; started = refl; count = refl })
      (enters {t = set_up 2 (counted (set_up 1 waiting))} (start_cpu 2) refl refl
        (record { lock = refl; started = refl; count = refl }) none_left)

wait_started-all_example :
    (t : Queues ℕ) × (wait_started 10 next_enters waiting ≡ some (tt, t))
    × (t.rest.smp_lock ≡ 0)
    × (t.rest.smp_started_count ≡ 3)
    × (t.rest.smp_cpu_count ≡ 3)
wait_started-all_example =
    wait_started-all 10 next_enters waiting 2 2 both-Enter refl refl (omega arith) (omega arith)

abbrev all_wait : ℕ → List ℕ
all_wait j = 96 ∷ 128 ∷ []

one-IsOpen : IsOpen two_threads 1
unfolding smp_get_cpu
one-IsOpen = (omega arith, refl)

second-Queue :
    (j : ℕ) → IsOpen two_threads j → Queue two_threads (cpu_at two_threads j) [] (all_wait j)
unfolding smp_get_cpu
second-Queue j open_j = record {
  holds = record { ring = two_threads-Ring; counted = refl };
  few = omega arith;
  place = inl (refl, refl);
}

new_item : NotIn 160 (64 ∷ 96 ∷ 128 ∷ [])
unfolding NotIn
new_item = ((λ e. omega (arith, e)), ((λ e. omega (arith, e)), ((λ e. omega (arith, e)), tt)))

sched_add_thread-runs_example :
    (j : ℕ) × (t u : Queues ℕ) × IsOpen two_threads j
    × ((i : ℕ)
        → IsOpen two_threads i
        → load_of two_threads (cpu_at two_threads j) ≤ load_of two_threads (cpu_at two_threads i))
    × (sched_add_thread next_item 200 two_threads ≡ some (tt, t))
    × (t.data_of 160 ≡ 200)
    × (rounds 3 (cpu_at two_threads j) t ≡ some (map t.data_of (96 ∷ 128 ∷ 160 ∷ []), u))
sched_add_thread-runs_example =
    sched_add_thread-runs next_item two_threads (λ j. []) all_wait 200 160 1 two_cpus present
      one-IsOpen second-Queue refl refl (λ j open_j. new_item)
