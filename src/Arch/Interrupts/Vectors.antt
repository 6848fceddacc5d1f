-- ===== src/Arch/Interrupts/Vectors.antt =====
-- Handlers and the allocation of vectors.
use mathlib.Core.Option.{some-injective, none-ne-some}
use arcane_os.Prelude.{
  ℕ, zero, suc, ◌+◌, ◌≤◌, ◌<◌, ◌≡◌, ◌∙◌, ap, arith, Bool, Option, none, some, List, ◌==◌, inl, inr,
  Bool-cases, if◌then◌else◌, write,
}
use arcane_os.Arch.Ioapic.{Madt, Store}
use arcane_os.Arch.Interrupts.{
  Interrupts, call, die, interrupts_set_handler, route_line, interrupts_alloc_vec,
  interrupts_handle_int, first_vector,
}

-- `n` calls of interrupts_alloc_vec and the state after them.
unfoldable pub alloc_vecs : (n : ℕ) → Interrupts → Option Interrupts
alloc_vecs zero s = some s
alloc_vecs (suc n) s = elim (interrupts_alloc_vec s) [ none ↦ none | some (v, t) ↦ alloc_vecs n t ]

alloc_vec_some :
    (s : Interrupts)
    → s.free_vector < 255
    → interrupts_alloc_vec s ≡ some (s.free_vector, record s { free_vector = s.free_vector + 1 })
unfolding interrupts_alloc_vec
alloc_vec_some s lt = ground arith

alloc_vec_none : (s : Interrupts) → 255 ≤ s.free_vector → interrupts_alloc_vec s ≡ none
unfolding interrupts_alloc_vec
alloc_vec_none s le = ground arith

alloc_vecs_lem :
    (n : ℕ) (s : Interrupts)
    → s.free_vector + n ≤ 255
    → alloc_vecs n s ≡ some (record s { free_vector = s.free_vector + n })
unfolding alloc_vecs
alloc_vecs_lem zero s le = ap (λ (v : ℕ). some (record s { free_vector = v })) (omega arith)
alloc_vecs_lem (suc n) s le =
    let next : Interrupts = record s { free_vector = s.free_vector + 1 } in
    let sum : s.free_vector + 1 + n ≡ s.free_vector + suc n = omega arith in
    rw (alloc_vecs, alloc_vec_some s (omega arith))
      (alloc_vecs_lem n next (omega arith)
        ∙ ap (λ (v : ℕ). some (record s { free_vector = v })) sum)

-- From the start value the 207 vectors from 48 to 254 are handed out, each once: after `n` calls
-- of interrupts_alloc_vec the next one gives `48 + n`, and after 207 calls it stops the kernel.
pub alloc_vec_sequence :
    (s : Interrupts)
    → s.free_vector ≡ first_vector
    → (n : ℕ) → n < 207
    → ((t u : Interrupts) × (alloc_vecs n s ≡ some t) × (interrupts_alloc_vec t ≡ some (48 + n, u)))
      × ((t : Interrupts) × (alloc_vecs 207 s ≡ some t) × (interrupts_alloc_vec t ≡ none))
alloc_vec_sequence s start n lt = (
  let t : Interrupts = record s { free_vector = s.free_vector + n } in
      let u : Interrupts = record s { free_vector = s.free_vector + n + 1 } in
      let given : s.free_vector + n ≡ 48 + n = omega arith in
      (
        t,
        u,
        alloc_vecs_lem n s (omega arith),
        alloc_vec_some t (omega arith) ∙ ap (λ (v : ℕ). some (v, u)) given,
      ),
  (
    record s { free_vector = s.free_vector + 207 },
    alloc_vecs_lem 207 s (omega arith),
    alloc_vec_none (record s { free_vector = s.free_vector + 207 }) (omega arith),
  ),
)

stored_of :
    (routed : Option (List Store)) (stored : Interrupts) {t : Interrupts} {stores : List Store}
    → (elim routed as (λ o. Option (Interrupts × List Store)) [
      | none ↦ none
      | some found ↦ some (stored, found)
    ])
      ≡ some (t, stores)
    → stored ≡ t
stored_of none stored h = absurd (none-ne-some _ h)
stored_of (some found) stored h = ap (λ (x : Interrupts × List Store). x.0) (some-injective _ _ h)

handlers_after :
    (madt : Madt) (hhdm vector handler : ℕ) (s t : Interrupts) (stores : List Store)
    → interrupts_set_handler madt hhdm vector handler s ≡ some (t, stores)
    → (w : ℕ) → write s.idt_handlers vector handler w ≡ t.idt_handlers w
unfolding interrupts_set_handler
handlers_after madt hhdm vector handler s t stores h w =
    let stored : Interrupts = record s { idt_handlers = write s.idt_handlers vector handler } in
    ap (λ (x : Interrupts). x.idt_handlers w) (stored_of (route_line madt hhdm vector) stored h)

-- The handler that was set last for a vector is the one that interrupts_handle_int calls, with
-- the context and, once the other processors run, with the trap frame set to it; a vector
-- without a handler stops the kernel, and no other vector is affected by interrupts_set_handler.
pub set_handler-handle_int :
    (madt : Madt) (hhdm vector handler : ℕ) (s t : Interrupts) (stores : List Store)
    → interrupts_set_handler madt hhdm vector handler s ≡ some (t, stores)
    → (smp : Bool) (w ctx : ℕ)
    → interrupts_handle_int smp w ctx t ≡ (
        if w == vector
        then if handler == 0 then die w else call handler ctx (if smp then some ctx else none)
        else interrupts_handle_int smp w ctx s)
unfolding interrupts_handle_int write
set_handler-handle_int madt hhdm vector handler s t stores h smp w ctx =
    let after = handlers_after madt hhdm vector handler s t stores h w in
    elim (Bool-cases (w == vector)) [
      | inl here ↦ ground (arith, after, here)
      | inr away ↦ ground (arith, after, away)
    ]
