-- ===== src/Arch/Apic/Setup.antt =====
-- The functions of kernel/src/arch/x86_64/apic.c that read registers. What the devices do is a
-- parameter: a write, and the two ways to read.
use arcane_os.Prelude.{
  ℕ, ◌+◌, true, List, [], ◌∷◌, bit_or, bit_and, u32, u64, sub64, shr, not, ◌==◌, if◌then◌else◌,
}
use arcane_os.Prelude.State.{State, pure, ◌>>=◌, ◌>>◌, gets, modify, when}
use arcane_os.Mm.Page.{higher_half, map_read, map_write}
use arcane_os.Arch.Ioapic.{Ioapic}
use arcane_os.Arch.Apic.{
  Action, store32, wrmsr, Apic, apic_write, apic_msr, apic_reg_id, apic_reg_spurious_int,
  apic_reg_lvt_timer, apic_reg_init_cnt, apic_reg_curr_cnt, apic_reg_div_cfg, apic_flag_x2apic,
}

-- The two variables of the local APIC, and the state `rest` of everything else.
pub record Local (S : Type 0) : Type 0 where
  pub apic : Apic
  pub rest : S

module _ {S : Type 0} (act : Action → State (Local S) (Unit {0}))
    (read_msr load32 : ℕ → State (Local S) ℕ) where
  unfoldable pub perform : List Action → State (Local S) (Unit {0})
  perform [] = pure tt
  perform (a ∷ rest) = act a >> perform rest

  abbrev pub write_reg : (reg value : ℕ) → State (Local S) (Unit {0})
  write_reg reg value s = perform (apic_write reg value s.apic) s

  unfoldable pub apic_read : (reg : ℕ) → State (Local S) ℕ
  apic_read reg s =
      if s.apic.x2apic_enabled
      then read_msr (u32 (shr reg 4 + 0x800)) s
      else load32 (u64 (s.apic.apic_addr + reg)) s

  unfoldable pub apic_get_id : State (Local S) ℕ
  unfolding apic_read
  apic_get_id = do
    value ← apic_read apic_reg_id
    x2apic ← gets (λ s. s.apic.x2apic_enabled)
    pure (if x2apic then u32 value else shr (u32 value) 24)

  -- `set_ticks` stores the count in the structure of this processor.
  unfoldable pub apic_timer_init :
      (pit_wait set_ticks : ℕ → State (Local S) (Unit {0})) → State (Local S) (Unit {0})
  unfolding apic_read perform
  apic_timer_init pit_wait set_ticks = do
    write_reg apic_reg_div_cfg 0x3
    write_reg apic_reg_init_cnt 0xffffffff
    pit_wait 1
    write_reg apic_reg_lvt_timer 0x10000
    count ← apic_read apic_reg_curr_cnt
    set_ticks (u32 (sub64 0xffffffff count))

  -- `map` is mmu_map on the kernel's tables, and `cpuid` gives what leaf 1 leaves in ecx.
  unfoldable pub apic_init :
      (map : (virt phys flags : ℕ) → State (Local S) (Unit {0})) (cpuid : State (Local S) ℕ)
      (hhdm madt_apic_addr : ℕ)
      → State (Local S) (Unit {0})
  unfolding apic_read perform
  apic_init map cpuid hhdm madt_apic_addr = do
    modify (λ s. record s { apic = record s.apic { apic_addr = higher_half hhdm madt_apic_addr } })
    map (higher_half hhdm madt_apic_addr) madt_apic_addr (map_read + map_write)
    flags ← read_msr apic_msr
    c ← cpuid
    x2apic ← pure (not (bit_and c apic_flag_x2apic == 0))
    when x2apic (modify (λ s. record s { apic = record s.apic { x2apic_enabled = true } }))
    act (wrmsr apic_msr (bit_or (bit_or flags 0x800) (if x2apic then 0x400 else 0)))
    spurious_int ← apic_read apic_reg_spurious_int
    write_reg apic_reg_spurious_int (bit_or spurious_int 0x100)

  -- Every I/O APIC of the table is mapped.
  unfoldable pub ioapic_init :
      (map : (virt phys flags : ℕ) → State (Local S) (Unit {0})) (hhdm : ℕ)
      → List Ioapic
      → State (Local S) (Unit {0})
  ioapic_init map hhdm [] = pure tt
  ioapic_init map hhdm (ioapic ∷ rest) = do
    map (higher_half hhdm ioapic.ioapic_addr) ioapic.ioapic_addr (map_read + map_write)
    ioapic_init map hhdm rest

  unfoldable pub ioapic_read : (hhdm base reg : ℕ) → State (Local S) ℕ
  ioapic_read hhdm base reg = do
    act (store32 (higher_half hhdm base) reg)
    load32 (u64 (higher_half hhdm base + 0x10))
