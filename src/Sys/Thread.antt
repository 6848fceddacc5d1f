-- ===== src/Sys/Thread.antt =====
-- Threads, timers and the processors that run them: kernel/src/sys/thread.c, kernel/src/sys/timer.c,
-- and what kernel/src/include/arch keeps of a context and of a processor. The fields are maps from
-- the addresses of the objects.
use arcane_os.Prelude.{Bool, ℕ, ◌+◌, u64, ltb, if◌then◌else◌, Cells, write}
use arcane_os.Prelude.State.{State, pure, ◌>>=◌, ◌>>◌, modify}
use arcane_os.Mm.Page.{map_read, map_write, map_user}

-- `context_t`
pub record Context : Type 0 where
  pub r15 : ℕ
  pub r14 : ℕ
  pub r13 : ℕ
  pub r12 : ℕ
  pub r11 : ℕ
  pub r10 : ℕ
  pub r9 : ℕ
  pub r8 : ℕ
  pub rdi : ℕ
  pub rsi : ℕ
  pub rbp : ℕ
  pub rbx : ℕ
  pub rdx : ℕ
  pub rcx : ℕ
  pub rax : ℕ
  pub int_no : ℕ
  pub err_code : ℕ
  pub rip : ℕ
  pub cs : ℕ
  pub rflags : ℕ
  pub rsp : ℕ
  pub ss : ℕ

-- `thread_t`
pub record ThreadFields : Type 0 where
  pub id : Cells ℕ
  pub ctx : Cells Context
  pub pagemap : Cells ℕ

-- `cpu_t`, with its `thread_queue`
pub record CpuFields : Type 0 where
  pub id : Cells ℕ
  pub interrupt_status : Cells ℕ
  pub local_timer : Cells ℕ
  pub trap_frame : Cells ℕ
  pub list : Cells ℕ
  pub current_item : Cells ℕ
  pub current_thread : Cells ℕ
  pub apic_timer_ticks : Cells ℕ

-- Threads, timers and processors, the contexts at the trap frames, the global variables of the
-- scheduler and of kernel/src/arch/generic/smp.c, the register that holds the tables, and the
-- state `rest` of what lies below.
pub record Kernel (S : Type 0) : Type 0 where
  pub threads : ThreadFields
  pub oneshot_of : Cells ℕ
  pub cpus : CpuFields
  pub frames : Cells Context
  pub thread_global_id : ℕ
  pub sched_vec : ℕ
  pub smp_cpu_vec : Cells ℕ
  pub smp_cpu_count : ℕ
  pub smp_bsp_id : ℕ
  pub smp_started_count : ℕ
  pub smp_enabled : Bool
  pub smp_lock : ℕ
  pub this_cpu : ℕ
  pub cr3 : ℕ
  pub rest : S

-- sizeof(thread_t) and sizeof(timer_t)
abbrev pub sizeof_thread : ℕ
sizeof_thread = 192

abbrev pub sizeof_timer : ℕ
sizeof_timer = 8

-- What thread_create writes to the context of a thread.
unfoldable pub start_context : (entry stack : ℕ) → Context → Context
start_context entry stack c = record c {
  rip = entry;
  rsp = stack;
  rflags = 0x202;
  cs = 0x08;
  ss = 0x10;
}

abbrev pub smp_max_cpu_count : ℕ
smp_max_cpu_count = 256

module _ {S : Type 0} where
  unfoldable pub smp_get_cpu : (id : ℕ) → Kernel S → ℕ
  smp_get_cpu id s = if ltb id smp_max_cpu_count then s.smp_cpu_vec id else 0

  unfoldable pub smp_this_cpu : Kernel S → ℕ
  smp_this_cpu s = s.smp_cpu_vec s.this_cpu

  abbrev pub set_threads : (ThreadFields → ThreadFields) → State (Kernel S) (Unit {0})
  set_threads f = modify (λ s. record s { threads = f s.threads })

  -- Over `alloc`, `vmm_new_pagemap()` and `vmm_alloc(kernel_pagemap, pages, flags)`.
  unfoldable pub thread_create :
      (alloc : ℕ → State (Kernel S) ℕ) (vmm_new_pagemap : State (Kernel S) ℕ)
      (vmm_alloc : (pages flags : ℕ) → State (Kernel S) ℕ) (entry : ℕ)
      → State (Kernel S) ℕ
  unfolding start_context
  thread_create alloc vmm_new_pagemap vmm_alloc entry = do
    thread ← alloc sizeof_thread
    modify (λ s. record s {
      threads = record s.threads { id = write s.threads.id thread s.thread_global_id };
      thread_global_id = u64 (s.thread_global_id + 1);
    })
    pagemap ← vmm_new_pagemap
    set_threads (λ t. record t { pagemap = write t.pagemap thread pagemap })
    stack ← vmm_alloc 4 (map_read + map_write + map_user)
    set_threads
        (λ t. record t { ctx = write t.ctx thread (start_context entry stack (t.ctx thread)) })
    pure thread

  unfoldable pub timer_create :
      (alloc : ℕ → State (Kernel S) ℕ) (fn_oneshot : ℕ) → State (Kernel S) ℕ
  timer_create alloc fn_oneshot = do
    timer ← alloc sizeof_timer
    modify (λ s. record s { oneshot_of = write s.oneshot_of timer fn_oneshot })
    pure timer
