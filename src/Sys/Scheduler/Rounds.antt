-- ===== src/Sys/Scheduler/Rounds.antt =====
-- What sched_preempt runs, one call after the other.
use mathlib.Core.Path.{subst}
use arcane_os.Prelude.{
  ℕ, zero, suc, ◌≡◌, ◌≢◌, ◌⊎◌, inl, inr, refl, ◌∙◌, sym, arith, true, false, some, List, [], ◌∷◌,
  ◌++◌, length, map, ◌==◌, write, write_self,
}
use arcane_os.Prelude.State.{State, pure, ◌>>=◌, >>=-run}
use arcane_os.Rings.Seg.{Seg, Seg-split, NotIn, NotIn-split, Distinct, Ring}
use arcane_os.Sys.Scheduler.{Queues, next_thread}

-- The threads that the next `n` preemptions of a processor take.
unfoldable pub rounds : {S : Type 0} (n cpu : ℕ) → State (Queues S) (List ℕ)
rounds zero cpu = pure []
rounds (suc n) cpu = do thread ← next_thread cpu; threads ← rounds n cpu; pure (thread ∷ threads)

module _ {S : Type 0} (cpu : ℕ) where
  abbrev pub head_of : Queues S → ℕ
  head_of s = s.head (s.rest.cpus.list cpu)

  abbrev pub place_of : Queues S → ℕ
  place_of s = s.rest.cpus.current_item cpu

  -- The state with the place of the processor moved.
  abbrev pub moved : ℕ → Queues S → Queues S
  moved item s = record s {
    rest = record s.rest {
      cpus = record s.rest.cpus { current_item = write s.rest.cpus.current_item cpu item };
    };
  }

  -- Only places differ.
  abbrev pub Moves : (s t : Queues S) → Type 0
  Moves s t = t ≡ record s {
    rest = record s.rest { cpus = record s.rest.cpus { current_item = t.rest.cpus.current_item } };
  }

  -- The place is at this item, or in front of the first one, which it is.
  abbrev pub IsNext : Queues S → ℕ → Type 0
  IsNext s x =
      ((place_of s ≡ x) × (x ≢ head_of s))
      ⊎ ((place_of s ≡ head_of s) × (s.links.next (head_of s) ≡ x))

  pub next_thread-IsNext :
      (s : Queues S) (x : ℕ)
      → IsNext s x
      → next_thread cpu s ≡ some (s.data_of x, moved (s.links.next x) s)
  unfolding next_thread
  next_thread-IsNext s x (inl (e, ne)) =
      let other : (x == head_of s) ≡ false = ground arith in rw (e, other) refl
  next_thread-IsNext s x (inr (e, f)) =
      let same : (head_of s == head_of s) ≡ true = ground arith in rw (e, same, f) refl

  rounds-from :
      (s : Queues S) (x : ℕ) (xs : List ℕ)
      → IsNext s x
      → Seg s.links x xs (head_of s)
      → NotIn (head_of s) xs
      → (t : Queues S) × (rounds (suc (length xs)) cpu s ≡ some (map s.data_of (x ∷ xs), t))
        × (place_of t ≡ head_of s)
        × Moves s t
  unfolding rounds Seg NotIn
  rounds-from s x [] next (to, back) away = (
    moved (s.links.next x) s,
    >>=-run (next_thread cpu) (λ thread. rounds 0 cpu >>= λ threads. pure (thread ∷ threads))
        (next_thread-IsNext s x next),
    write_self s.rest.cpus.current_item cpu (s.links.next x) ∙ to,
    refl,
  )
  rounds-from s x (y ∷ ys) next (to, back, seg) (hy, away) =
      let u = moved (s.links.next x) s in
      let place : place_of u ≡ y = write_self s.rest.cpus.current_item cpu (s.links.next x) ∙ to in
      let (t, runs, at, only) = rounds-from u y ys (inl (place, λ e. hy (sym e))) seg away in
      (
        t,
        >>=-run (next_thread cpu)
              (λ thread. rounds (suc (length ys)) cpu >>= λ threads. pure (thread ∷ threads))
              (next_thread-IsNext s x next)
            ∙ >>=-run (rounds (suc (length ys)) cpu) (λ threads. pure (s.data_of x ∷ threads)) runs,
        at,
        only,
      )

  -- Where the place of a processor is at the head of its ring or at the first item, as many
  -- preemptions as the ring has items take each thread once, in the order of the ring; the place is
  -- at the head again then, and only places have changed.
  pub rounds-Ring :
      (s : Queues S) (x : ℕ) (xs : List ℕ)
      → Ring s.links (head_of s) (x ∷ xs)
      → (place_of s ≡ head_of s) ⊎ (place_of s ≡ x)
      → (t : Queues S) × (rounds (length (x ∷ xs)) cpu s ≡ some (map s.data_of (x ∷ xs), t))
        × (place_of t ≡ head_of s)
        × Moves s t
  unfolding Seg NotIn Distinct
  rounds-Ring s x xs ring (inl e) =
      rounds-from s x xs (inr (e, ring.around.0)) ring.around.2 ring.distinct.0.1
  rounds-Ring s x xs ring (inr e) =
      rounds-from s x xs (inl (e, λ f. ring.distinct.0.0 (sym f))) ring.around.2 ring.distinct.0.1

  -- How far the processor is through a ring: at the head, where no item of it is behind, or at the
  -- first of the items that wait.
  abbrev pub IsPlace : Queues S → (before waiting : List ℕ) → Type 0
  IsPlace s before waiting =
      ((before ≡ []) × (place_of s ≡ head_of s))
      ⊎ ((first : ℕ) × (rest : List ℕ) × (waiting ≡ first ∷ rest) × (place_of s ≡ first))

  rounds-waiting :
      (s : Queues S) (before : List ℕ) (y : ℕ) (ys : List ℕ)
      → Ring s.links (head_of s) (before ++ y ∷ ys)
      → IsPlace s before (y ∷ ys)
      → (t : Queues S) × (rounds (length (y ∷ ys)) cpu s ≡ some (map s.data_of (y ∷ ys), t))
  unfolding Seg NotIn Distinct
  rounds-waiting s before y ys ring place =
      let (to, seg) = Seg-split s.links (head_of s) before y ys (head_of s) ring.around in
      let (_, (ne, away)) = NotIn-split (head_of s) before (y ∷ ys) ring.distinct.0 in
      let next : IsNext s y = elim place [
        | inl (none, at) ↦ inr (at, (subst (λ xs. Seg s.links (head_of s) xs y) none to).0)
        | inr (first, rest, same, at) ↦ inl (at ∙ cc, λ e. ne (sym e))
      ] in
      let (t, runs, _, _) = rounds-from s y ys next seg away in (t, runs)

  -- The items that wait, and one behind them, are taken in the order of the ring.
  pub rounds-joined :
      (s : Queues S) (before waiting : List ℕ) (item : ℕ)
      → Ring s.links (head_of s) (before ++ (waiting ++ item ∷ []))
      → IsPlace s before waiting
      → (t : Queues S) × (rounds (length (waiting ++ item ∷ [])) cpu s
          ≡ some (map s.data_of (waiting ++ item ∷ []), t))
  rounds-joined s before [] item ring (inl at_head) =
      rounds-waiting s before item [] ring (inl at_head)
  rounds-joined s before [] item ring (inr (first, rest, same, at)) = absurd (cc)
  rounds-joined s before (w ∷ ws) item ring (inl at_head) =
      rounds-waiting s before w (ws ++ item ∷ []) ring (inl at_head)
  rounds-joined s before (w ∷ ws) item ring (inr (first, rest, same, at)) =
      rounds-waiting s before w (ws ++ item ∷ []) ring (inr (w, ws ++ item ∷ [], refl, at ∙ cc))
