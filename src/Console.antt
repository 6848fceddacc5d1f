-- ===== src/Console.antt =====
-- What the kernel prints, kernel/src/kernel/kprintf.c and kernel/src/drivers/fb.c: to the debug port
-- and to a terminal in the frame buffer. The functions of the printf and flanterm libraries are
-- parameters.
pub mod Prints
mod Tests
use arcane_os.Prelude.{
  ℕ, zero, suc, ◌+◌, ◌^◌, Option, none, some, List, [], ◌∷◌, ◌++◌, u8, u32, ◌==◌, if◌then◌else◌,
  Cells,
}
use arcane_os.Prelude.State.{State, pure, ◌>>=◌, ◌>>◌, gets, modify, fail}
use arcane_os.Arch.Ports.{PortWrite, serial_print}

-- `framebuffer_t`
pub record Framebuffer : Type 0 where
  pub width : ℕ
  pub height : ℕ
  pub bpp : ℕ
  pub lfb : ℕ
  pub ft_ctx : ℕ

-- What the boot loader says of a frame buffer, as far as the code stores it.
pub record LimineFramebuffer : Type 0 where
  pub address : ℕ
  pub width : ℕ
  pub height : ℕ
  pub bpp : ℕ

-- One call of flanterm_write: the terminal, and the bytes that it is given.
pub record Written : Type 0 where
  pub ft_ctx : ℕ
  pub text : List ℕ

-- `early_fb`, and `global_fb` as the structure that it points to, with what has been written to
-- ports and to the terminal, in order.
pub record Console : Type 0 where
  pub early_fb : Framebuffer
  pub global_fb : Option Framebuffer
  pub ports : List PortWrite
  pub terminal : List Written

-- `flanterm_fb_init` gives the terminal of a frame buffer.
unfoldable pub framebuffer_early_init :
    (flanterm_fb_init : LimineFramebuffer → ℕ) (fb : LimineFramebuffer) → State Console (Unit {0})
framebuffer_early_init flanterm_fb_init fb =
    let early : Framebuffer = record {
      width = u32 fb.width;
      height = u32 fb.height;
      bpp = u8 fb.bpp;
      lfb = fb.address;
      ft_ctx = flanterm_fb_init fb;
    } in
    modify (λ s. record s { early_fb = early; global_fb = some early })

-- The bytes of a buffer from `i` on, `n` of them.
abbrev pub bytes_from : (n i : ℕ) → Cells ℕ → (buffer : ℕ) → List ℕ
bytes_from zero i m buffer = []
bytes_from (suc n) i m buffer = m (buffer + i) ∷ bytes_from n (i + 1) m buffer

-- A pointer that is not NULL.
abbrev pub pointed : {S A : Type 0} → Option A → State S A
pointed none = fail
pointed (some a) = pure a

-- The size of the buffer of kprintf.
abbrev pub buffer_size : ℕ
buffer_size = 2048

-- `vsnprintf` gives the buffer and its result, which is an `int` of at least 0 here. The buffer
-- begins at 0, and flanterm_write reads `ret` bytes of it.
unfoldable pub kprintf : (vsnprintf : (size : ℕ) → Cells ℕ × ℕ) → State Console ℕ
kprintf vsnprintf = do
  (buffer, ret) ← pure (vsnprintf buffer_size)
  writes ← pointed (serial_print buffer 0)
  modify (λ s. record s { ports = s.ports ++ writes })
  global ← gets (λ s. s.global_fb)
  fb ← pointed global
  modify (λ s. record s {
    terminal = s.terminal ++ record { ft_ctx = fb.ft_ctx; text = bytes_from ret 0 buffer 0 } ∷ [];
  })
  pure ret
