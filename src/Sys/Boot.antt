-- ===== src/Sys/Boot.antt =====
-- The order of start-up: kernel/src/entry.c and kernel/src/arch/x86_64/arch.c. The calls of the
-- parts are parameters; the log and the endless loops are left out.
use arcane_os.Prelude.{ℕ, none, some, not, ◌==◌, write}
use arcane_os.Prelude.State.{State, ◌>>=◌, ◌>>◌, gets, assert}
use arcane_os.Arch.Apic.{Action}
use arcane_os.Arch.Apic.Setup.{Local, apic_get_id}
use arcane_os.Sys.Thread.{Kernel, smp_get_cpu, timer_create}
use arcane_os.Sys.Scheduler.{Queues, set_cpus}

-- The calls of arch_late_init.
pub record LateCalls (S : Type 0) : Type 0 where
  pub acpi_init : State S (Unit {0})
  pub madt_init : State S (Unit {0})
  pub apic_init : State S (Unit {0})
  pub ioapic_init : State S (Unit {0})
  pub pit_init : State S (Unit {0})

-- The calls of kmain, but for those of threads.
pub record BootCalls (S : Type 0) : Type 0 where
  pub framebuffer_early_init : State S (Unit {0})
  pub smp_early_init : State S (Unit {0})
  pub gdt_init : State S (Unit {0})
  pub interrupts_init : State S (Unit {0})
  pub pmm_init : State S (Unit {0})
  pub vmm_init : State S (Unit {0})
  pub slab_init : State S (Unit {0})
  pub alloc_init : State S (Unit {0})
  pub late : LateCalls S
  pub smp_late_init : State S (Unit {0})
  pub sched_init : State S (Unit {0})
  pub vfs_init : State S (Unit {0})
  pub tmpfs_init : State S (Unit {0})

unfoldable pub arch_late_init : {S : Type 0} → LateCalls S → State S (Unit {0})
arch_late_init c = do c.acpi_init; c.madt_init; c.apic_init; c.ioapic_init; c.pit_init

-- arch_early_init is gdt_init of the first processor.
unfoldable pub arch_early_init : {S : Type 0} → BootCalls S → State S (Unit {0})
arch_early_init c = c.gdt_init

-- With the addresses of thread_a and thread_b.
unfoldable pub kmain :
    {S : Type 0}
    → BootCalls S
    → (thread_create : (entry : ℕ) → State S ℕ)
    → (sched_add_thread : (thread : ℕ) → State S (Unit {0})) → (sched_start : State S (Unit {0}))
    → (thread_a thread_b : ℕ) → State S (Unit {0})
unfolding arch_early_init arch_late_init
kmain c thread_create sched_add_thread sched_start thread_a thread_b = do
  c.framebuffer_early_init
  c.smp_early_init
  arch_early_init c
  c.interrupts_init
  c.pmm_init
  c.vmm_init
  c.slab_init
  c.alloc_init
  arch_late_init c.late
  c.smp_late_init
  c.sched_init
  c.vfs_init
  c.tmpfs_init
  thread ← thread_create thread_a
  thread1 ← thread_create thread_b
  sched_add_thread thread
  sched_add_thread thread1
  sched_start

unfoldable pub arch_this_cpu :
    {S : Type 0} (act : Action → State (Local S) (Unit {0}))
    (read_msr load32 : ℕ → State (Local S) ℕ)
    → State (Local S) ℕ
arch_this_cpu act read_msr load32 = apic_get_id act read_msr load32

module _ {S : Type 0} (alloc : ℕ → State (Kernel S) ℕ)
    (apic_timer_init : State (Queues S) (Unit {0})) (oneshot : ℕ) where
  -- `timer_create(apic_timer_oneshot)`, with the function at `oneshot`
  abbrev pub create_timer : State (Queues S) ℕ
  create_timer s = elim (timer_create alloc oneshot s.rest) [
    | none ↦ none
    | some (timer, rest) ↦ some (timer, record s { rest = rest })
  ]

  unfoldable pub arch_setup_bsp : (lapic_id : ℕ) → State (Queues S) (Unit {0})
  arch_setup_bsp lapic_id = do
    cpu ← gets (λ s. smp_get_cpu lapic_id s.rest)
    assert (not (cpu == 0))
    set_cpus (λ c. record c { id = write c.id cpu lapic_id })
    apic_timer_init
    timer ← create_timer
    set_cpus (λ c. record c { local_timer = write c.local_timer cpu timer })

  unfoldable pub arch_start_cpu :
      (gdt_init : ℕ → State (Queues S) (Unit {0}))
      (interrupts_reload load_kernel_pagemap apic_init : State (Queues S) (Unit {0})) (lapic_id : ℕ)
      → State (Queues S) (Unit {0})
  arch_start_cpu gdt_init interrupts_reload load_kernel_pagemap apic_init lapic_id = do
    gdt_init lapic_id
    interrupts_reload
    load_kernel_pagemap
    cpu ← gets (λ s. smp_get_cpu lapic_id s.rest)
    assert (not (cpu == 0))
    set_cpus (λ c. record c { id = write c.id cpu lapic_id })
    apic_init
    apic_timer_init
    timer ← create_timer
    set_cpus (λ c. record c { local_timer = write c.local_timer cpu timer })
