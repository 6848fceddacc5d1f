-- ===== src/Console/Prints.antt =====
-- Where kprintf prints what.
use arcane_os.Prelude.{
  ℕ, zero, suc, ◌+◌, ◌<◌, ◌≡◌, refl, ◌∙◌, ap, arith, some, List, [], ◌∷◌, ◌++◌, map, length, Cells,
}
use arcane_os.Strings.CString.{IsString}
use arcane_os.Arch.Ports.{out8, debug_port}
use arcane_os.Arch.Ports.Serial.{serial_print-text}
use arcane_os.Console.{Console, Framebuffer, bytes_from, buffer_size, kprintf}

-- The state after both have been written to.
abbrev printed : Console → Framebuffer → (xs text : List ℕ) → Console
printed s fb xs text = record s {
  ports = s.ports ++ map (out8 debug_port) xs;
  terminal = s.terminal ++ record { ft_ctx = fb.ft_ctx; text = text } ∷ [];
}

bytes_from-text :
    (i : ℕ) (m : Cells ℕ) (buffer : ℕ) (ys : List ℕ)
    → IsString m buffer i ys
    → bytes_from (length ys) i m buffer ≡ ys
bytes_from-text i m buffer [] str = refl
bytes_from-text i m buffer (y ∷ ys) (e, ne, str) =
    rw (bytes_from-text (i + 1) m buffer ys str) (ap (λ b. b ∷ ys) e)

length-bytes_from : (n i : ℕ) (m : Cells ℕ) (buffer : ℕ) → length (bytes_from n i m buffer) ≡ n
length-bytes_from zero i m buffer = refl
length-bytes_from (suc n) i m buffer = omega (arith, length-bytes_from n (i + 1) m buffer)

module _ (vsnprintf : ℕ → Cells ℕ × ℕ) (xs : List ℕ) (fb : Framebuffer) (s : Console)
    (text : IsString (vsnprintf buffer_size).0 0 0 xs) (short : length xs < buffer_size)
    (opened : s.global_fb ≡ some fb) where
  kprintf-bytes :
      kprintf vsnprintf s
      ≡ some (
        (vsnprintf buffer_size).1,
        printed s fb xs (bytes_from (vsnprintf buffer_size).1 0 (vsnprintf buffer_size).0 0),
      )
  unfolding kprintf
  kprintf-bytes =
      let buffer = (vsnprintf buffer_size).0 in
      let prints = serial_print-text buffer 0 xs text (omega (arith, short)) in
      rw (prints, opened) refl

  -- Where vsnprintf stores a text that fits the buffer of kprintf and returns its length, kprintf
  -- returns that too, and the text goes to the debug port and, once, to the terminal.
  pub kprintf-text :
      (vsnprintf buffer_size).1 ≡ length xs
      → (t : Console) × (kprintf vsnprintf s ≡ some (length xs, t))
        × (t.ports ≡ s.ports ++ map (out8 debug_port) xs)
        × (t.terminal ≡ s.terminal ++ record { ft_ctx = fb.ft_ctx; text = xs } ∷ [])
  kprintf-text ret =
      let same : bytes_from (length xs) 0 (vsnprintf buffer_size).0 0 ≡ xs =
        bytes_from-text 0 (vsnprintf buffer_size).0 0 xs text in
      (
        printed s fb xs xs,
        kprintf-bytes
            ∙ ap (λ n. some (n, printed s fb xs (bytes_from n 0 (vsnprintf buffer_size).0 0))) ret
            ∙ ap (λ ys. some (length xs, printed s fb xs ys)) same,
        refl,
        refl,
      )

  -- Where vsnprintf cut a longer text off, and so returns more than the buffer holds, kprintf gives
  -- the terminal more bytes than the buffer has.
  pub kprintf_overrun :
      buffer_size < (vsnprintf buffer_size).1
      → (t : Console) × (given : List ℕ) × (kprintf vsnprintf s
          ≡ some ((vsnprintf buffer_size).1, t))
        × (t.terminal ≡ s.terminal ++ record { ft_ctx = fb.ft_ctx; text = given } ∷ [])
        × (buffer_size < length given)
  kprintf_overrun more =
      let n = (vsnprintf buffer_size).1 in
      let given = bytes_from n 0 (vsnprintf buffer_size).0 0 in
      (
        printed s fb xs given,
        given,
        kprintf-bytes,
        refl,
        omega (arith, more, length-bytes_from n 0 (vsnprintf buffer_size).0 0),
      )
