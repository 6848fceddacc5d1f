-- ===== src/Console/Tests.antt =====
-- A message of two bytes, and the theorems on printing at it.
use arcane_os.Prelude.{
  ℕ, ◌<◌, ◌≡◌, refl, arith, some, List, [], ◌∷◌, map, length, ◌==◌, if◌then◌else◌, Cells,
}
use arcane_os.Arch.Ports.{out8, debug_port}
use arcane_os.Console.{Console, Framebuffer, buffer_size, kprintf}
use arcane_os.Console.Prints.{kprintf-text, kprintf_overrun}

abbrev hi : Cells ℕ
hi a = if a == 0 then 104 else if a == 1 then 105 else 0

abbrev screen : Framebuffer
screen = record { width = 640; height = 480; bpp = 32; lfb = 0x1000; ft_ctx = 0x2000 }

abbrev quiet : Console
quiet = record { early_fb = screen; global_fb = some screen; ports = []; terminal = [] }

kprintf-text_example :
    (t : Console) × (kprintf (λ size. (hi, 2)) quiet ≡ some (2, t))
    × (t.ports ≡ map (out8 debug_port) (104 ∷ 105 ∷ []))
    × (t.terminal ≡ record { ft_ctx = 0x2000; text = 104 ∷ 105 ∷ [] } ∷ [])
kprintf-text_example =
    kprintf-text (λ size. (hi, 2)) (104 ∷ 105 ∷ []) screen quiet
      (refl, (λ e. omega (arith, e)), (refl, (λ e. omega (arith, e)), refl)) (omega arith) refl refl

kprintf_overrun_example :
    (t : Console) × (given : List ℕ) × (kprintf (λ size. (hi, 3000)) quiet ≡ some (3000, t))
    × (t.terminal ≡ record { ft_ctx = 0x2000; text = given } ∷ [])
    × (buffer_size < length given)
kprintf_overrun_example =
    kprintf_overrun (λ size. (hi, 3000)) (104 ∷ 105 ∷ []) screen quiet
      (refl, (λ e. omega (arith, e)), (refl, (λ e. omega (arith, e)), refl)) (omega arith) refl
      (omega arith)
