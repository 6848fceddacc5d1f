-- ===== src/Arch/Apic.antt =====
-- The local APIC, the first half of kernel/src/arch/x86_64/apic.c: what the code writes to it, in
-- order, as stores to its registers or as writes of model-specific registers.
pub mod Ipi
pub mod Setup
mod Tests
use arcane_os.Prelude.{
  ℕ, ◌+◌, ◌*◌, ◌^◌, Bool, List, [], ◌∷◌, ◌++◌, bit_or, u32, u64, shl, shr, if◌then◌else◌,
}

abbrev pub apic_msr : ℕ
apic_msr = 0x1B

abbrev pub apic_reg_id : ℕ
apic_reg_id = 0x20

abbrev pub apic_reg_eoi : ℕ
apic_reg_eoi = 0xB0

abbrev pub apic_reg_spurious_int : ℕ
apic_reg_spurious_int = 0xF0

abbrev pub apic_reg_icr_lo : ℕ
apic_reg_icr_lo = 0x300

abbrev pub apic_reg_icr_hi : ℕ
apic_reg_icr_hi = 0x310

abbrev pub apic_reg_lvt_timer : ℕ
apic_reg_lvt_timer = 0x320

abbrev pub apic_reg_init_cnt : ℕ
apic_reg_init_cnt = 0x380

abbrev pub apic_reg_curr_cnt : ℕ
apic_reg_curr_cnt = 0x390

abbrev pub apic_reg_div_cfg : ℕ
apic_reg_div_cfg = 0x3E0

abbrev pub apic_flag_x2apic : ℕ
apic_flag_x2apic = 2 ^ 21

pub data Action : Type 0 where
  store32 : (at value : ℕ) → Action
  wrmsr : (reg value : ℕ) → Action

-- `apic_addr` and `x2apic_enabled`
pub record Apic : Type 0 where
  pub apic_addr : ℕ
  pub x2apic_enabled : Bool

unfoldable pub apic_write : (reg value : ℕ) → Apic → List Action
apic_write reg value a =
    if a.x2apic_enabled
    then wrmsr (u32 (shr reg 4 + 0x800)) value ∷ []
    else store32 (u64 (a.apic_addr + reg)) (u32 value) ∷ []

unfoldable pub apic_eoi : Apic → List Action
unfolding apic_write
apic_eoi a = apic_write apic_reg_eoi 0 a

unfoldable pub apic_ipi : (id vec type : ℕ) → Apic → List Action
unfolding apic_write
apic_ipi id vec type a =
    if a.x2apic_enabled
    then apic_write apic_reg_icr_lo (bit_or (bit_or (u64 (shl id 32)) vec) type) a
    else apic_write apic_reg_icr_hi (u32 (shl id 24)) a
      ++ apic_write apic_reg_icr_lo (bit_or vec type) a

-- `ticks` is the count of this processor for a millisecond.
unfoldable pub apic_timer_oneshot : (ms vec ticks : ℕ) → Apic → List Action
unfolding apic_write
apic_timer_oneshot ms vec ticks a =
    apic_write apic_reg_lvt_timer 0x10000 a
    ++ apic_write apic_reg_init_cnt 0 a
    ++ apic_write apic_reg_div_cfg 0x3 a
    ++ apic_write apic_reg_init_cnt (u64 (ms * ticks)) a
    ++ apic_write apic_reg_lvt_timer vec a
