-- ===== src/Arch/Ports/Serial.antt =====
-- What serial_print writes.
use arcane_os.Prelude.{
  ℕ, zero, suc, ◌+◌, ◌<◌, ◌≡◌, refl, ap, arith, false, some, List, [], ◌∷◌, map, length, ◌==◌,
  Cells,
}
use arcane_os.Strings.{int_limit}
use arcane_os.Strings.CString.{IsString}
use arcane_os.Arch.Ports.{out8, debug_port, print_loop, serial_print}

print_loop-text :
    (fuel i : ℕ) (m : Cells ℕ) (buffer : ℕ) (xs : List ℕ)
    → IsString m buffer i xs
    → length xs < fuel
    → print_loop fuel i m buffer ≡ some (map (out8 debug_port) xs)
unfolding print_loop
print_loop-text zero i m buffer xs text lt = absurd (omega arith)
print_loop-text (suc fuel) i m buffer [] text lt = rw text refl
print_loop-text (suc fuel) i m buffer (x ∷ xs) (here, ne, text) lt =
    let more : (m (buffer + i) == 0) ≡ false = ground arith in
    rw (more, print_loop-text fuel (i + 1) m buffer xs text (omega arith))
      (ap (λ b. some (out8 debug_port b ∷ map (out8 debug_port) xs)) here)

-- serial_print writes the bytes of a string shorter than 2 ^ 31, one after the other and without
-- the terminator, to the debug port.
pub serial_print-text :
    (m : Cells ℕ) (buffer : ℕ) (xs : List ℕ)
    → IsString m buffer 0 xs
    → length xs < int_limit
    → serial_print m buffer ≡ some (map (out8 debug_port) xs)
unfolding serial_print
serial_print-text m buffer xs text lt = print_loop-text int_limit 0 m buffer xs text lt
