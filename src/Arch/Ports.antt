-- ===== src/Arch/Ports.antt =====
-- The port instructions, kernel/src/arch/x86_64/ports.c, and the debug port that
-- kernel/src/arch/x86_64/serial.c prints to. What a device answers is a parameter.
pub mod Serial
use arcane_os.Prelude.{
  ℕ, zero, suc, ◌+◌, ◌%◌, ◌^◌, Option, none, some, List, [], ◌∷◌, u8, u16, u32, ◌==◌, if◌then◌else◌,
  Cells,
}
use arcane_os.Prelude.State.{State, pure, ◌>>=◌}
use arcane_os.Strings.{int_limit}

-- The instructions that write a byte, 16 bits or 32 bits to a port.
pub data PortWrite : Type 0 where
  outb outw outl : (port value : ℕ) → PortWrite

-- The instructions that read from a port.
pub data PortRead : Type 0 where
  inb inw inl : (port : ℕ) → PortRead

unfoldable pub out8 : (port value : ℕ) → PortWrite
out8 port value = outb (u16 port) (u8 value)

unfoldable pub out16 : (port value : ℕ) → PortWrite
out16 port value = outw (u16 port) (u16 value)

unfoldable pub out32 : (port value : ℕ) → PortWrite
out32 port value = outl (u16 port) (u32 value)

module _ {S : Type 0} (read : PortRead → State S ℕ) where
  unfoldable pub in8 : (port : ℕ) → State S ℕ
  in8 port = do value ← read (inb (u16 port)); pure (u8 value)

  unfoldable pub in16 : (port : ℕ) → State S ℕ
  in16 port = do value ← read (inw (u16 port)); pure (u16 value)

  unfoldable pub in32 : (port : ℕ) → State S ℕ
  in32 port = do value ← read (inl (u16 port)); pure (u32 value)

abbrev pub debug_port : ℕ
debug_port = 0xE9

-- `while (*buffer) out8(0xE9, *buffer++);`, on fuel, from byte `i` on: what is written.
unfoldable pub print_loop : (fuel i : ℕ) → Cells ℕ → (buffer : ℕ) → Option (List PortWrite)
unfolding out8
print_loop zero i m buffer = none
print_loop (suc fuel) i m buffer =
    let rest : Option (List PortWrite) = elim (print_loop fuel (i + 1) m buffer) [
      | none ↦ none
      | some writes ↦ some (out8 debug_port (m (buffer + i)) ∷ writes)
    ] in
    if m (buffer + i) == 0 then some [] else rest

-- A text of 2 ^ 31 bytes is longer than any buffer of the kernel.
unfoldable pub serial_print : Cells ℕ → (buffer : ℕ) → Option (List PortWrite)
serial_print m buffer = print_loop int_limit 0 m buffer
