-- ===== src/Sys/Processors.antt =====
-- The start of the processors, kernel/src/arch/generic/smp.c, and the interrupts between them.
pub mod Starts
use arcane_os.Prelude.{
  ℕ, zero, suc, ◌+◌, true, none, some, List, [], ◌∷◌, u64, ltb, ◌==◌, if◌then◌else◌, write,
}
use arcane_os.Prelude.State.{State, pure, ◌>>=◌, ◌>>◌, gets, fail}
use arcane_os.Rings.KernelList.{list_create}
use arcane_os.Arch.Apic.{Action, Apic, apic_ipi}
use arcane_os.Sys.Thread.{CpuFields, Kernel, smp_max_cpu_count}
use arcane_os.Sys.Scheduler.{Queues, set_rest, set_cpus}

abbrev pub apic_ipi_single : ℕ
apic_ipi_single = 0

abbrev pub apic_ipi_others : ℕ
apic_ipi_others = 0xC0000

unfoldable pub smp_ipi : (id vec : ℕ) → Apic → List Action
smp_ipi id vec a = apic_ipi id vec apic_ipi_single a

unfoldable pub smp_ipi_others : (vec : ℕ) → Apic → List Action
smp_ipi_others vec a = apic_ipi 0 vec apic_ipi_others a

unfoldable pub sched_start : {S : Type 0} → Kernel S → Apic → List Action
unfolding smp_ipi_others
sched_start k a = smp_ipi_others k.sched_vec a

-- sizeof(cpu_t)
abbrev pub sizeof_cpu : ℕ
sizeof_cpu = 56

-- The structure of a processor after memset, with interrupts on.
unfoldable pub fresh_cpu : (cpu : ℕ) → CpuFields → CpuFields
fresh_cpu cpu c = record {
  id = write c.id cpu 0;
  interrupt_status = write c.interrupt_status cpu 1;
  local_timer = write c.local_timer cpu 0;
  trap_frame = write c.trap_frame cpu 0;
  list = write c.list cpu 0;
  current_item = write c.current_item cpu 0;
  current_thread = write c.current_thread cpu 0;
  apic_timer_ticks = write c.apic_timer_ticks cpu 0;
}

module _ {S : Type 0} where
  -- With the boot loader's answer.
  unfoldable pub smp_early_init : (bsp_lapic_id cpu_count : ℕ) → State (Queues S) (Unit {0})
  smp_early_init bsp_lapic_id cpu_count =
      set_rest (λ k. record k { smp_bsp_id = bsp_lapic_id; smp_cpu_count = cpu_count })

  -- Up to the endless loop at its end; a lock that is held waits for another processor.
  unfoldable pub smp_cpu_entry :
      (arch_start_cpu : State (Queues S) (Unit {0})) → State (Queues S) (Unit {0})
  smp_cpu_entry arch_start_cpu = do
    arch_start_cpu
    lock ← gets (λ s. s.rest.smp_lock)
    if lock == 0 then set_rest (λ k. record k { smp_lock = 1 }) else fail
    set_rest (λ k. record k { smp_started_count = u64 (k.smp_started_count + 1) })
    set_rest (λ k. record k { smp_lock = 0 })

  -- The last loop of smp_late_init, on fuel: while it pauses the others run.
  unfoldable pub wait_started :
      (fuel : ℕ) (pause : State (Queues S) (Unit {0})) → State (Queues S) (Unit {0})
  wait_started zero pause s = none
  wait_started (suc fuel) pause s =
      let rest = (pause >> wait_started fuel pause) s in
      if ltb s.rest.smp_started_count s.rest.smp_cpu_count then rest else some (tt, s)

  -- `start` writes the address of smp_cpu_entry to a processor's structure, which starts it.
  module _ (alloc : ℕ → State (Kernel S) ℕ)
      (arch_setup_bsp start : ℕ → State (Queues S) (Unit {0})) where
    -- A call of alloc from here.
    abbrev pub alloc_cpu : State (Queues S) ℕ
    alloc_cpu s = elim (alloc sizeof_cpu s.rest) [
      | none ↦ none
      | some (cpu, rest) ↦ some (cpu, record s { rest = rest })
    ]

    -- The ring of a processor that is not the first, and its start.
    unfoldable pub give_queue : (cpu lapic_id : ℕ) → State (Queues S) (Unit {0})
    give_queue cpu lapic_id = do
      list ← list_create alloc
      set_cpus (λ c. record c { list = write c.list cpu list })
      head ← gets (λ s. s.head (s.rest.cpus.list cpu))
      set_cpus (λ c. record c { current_item = write c.current_item cpu head })
      start lapic_id

    -- One processor of the loop.
    unfoldable pub setup_cpu : (lapic_id : ℕ) → State (Queues S) (Unit {0})
    unfolding fresh_cpu give_queue
    setup_cpu lapic_id = do
      cpu ← alloc_cpu
      set_cpus (fresh_cpu cpu)
      set_rest (λ k. record k { smp_cpu_vec = write k.smp_cpu_vec lapic_id cpu })
      bsp ← gets (λ s. s.rest.smp_bsp_id)
      if lapic_id == bsp then arch_setup_bsp lapic_id else give_queue cpu lapic_id

    unfoldable pub setup_cpus : List ℕ → State (Queues S) (Unit {0})
    unfolding setup_cpu
    setup_cpus [] = pure tt
    setup_cpus (lapic_id ∷ rest) = setup_cpu lapic_id >> setup_cpus rest

    -- With the numbers of the local APICs, `smp_cpu_count` of them.
    unfoldable pub smp_late_init :
        (fuel : ℕ) (pause : State (Queues S) (Unit {0})) → List ℕ → State (Queues S) (Unit {0})
    unfolding setup_cpus wait_started
    smp_late_init fuel pause lapic_ids = do
      set_rest (λ k. record k {
        smp_cpu_vec = λ i. if ltb i smp_max_cpu_count then 0 else k.smp_cpu_vec i;
      })
      setup_cpus lapic_ids
      wait_started fuel pause
      set_rest (λ k. record k { smp_enabled = true })
