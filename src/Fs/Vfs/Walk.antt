-- ===== src/Fs/Vfs/Walk.antt =====
-- The walk of vfs_find along the names of a path, as the run of their look-ups.
use mathlib.Core.Bool.{false}
use arcane_os.Prelude.{
  ℕ, zero, suc, ◌+◌, ◌<◌, ◌≡◌, ◌≢◌, refl, ◌∙◌, ap, arith, some, List, [], ◌∷◌, length, ◌==◌,
  if◌then◌else◌, write, Cells, none,
}
use arcane_os.Prelude.State.{State, pure, when, ◌>>=◌, ◌>>◌, >>=-run}
use arcane_os.Strings.{int_limit, strcspn}
use arcane_os.Strings.CString.{IsString}
use arcane_os.Strings.CString.Span.{strcspn-span_to}
use arcane_os.Fs.Vfs.{Files, vfs_lookup, on_cells, set_cells, look_up, walk_path, descend}
use arcane_os.Fs.Vfs.Paths.{
  slash_byte, join, IsNames, IsPath, path_size, path_size-cons, join-ne, span_to-join,
}

starts_on : (m : Cells ℕ) (b : ℕ) (xs : List ℕ) → IsString m b 0 xs → xs ≢ [] → (m b == 0) ≡ false
starts_on m b [] str ne = absurd (ne refl)
starts_on m b (x ∷ xs) (here, nx, str) ne =
    let at : m b ≡ x = ap m (omega arith) ∙ here in
    let more : (x == 0) ≡ false = ground arith in rw at more

module _ {S : Type 0} (alloc : ℕ → State (Files S) ℕ) (free : ℕ → State (Files S) (Unit {0}))
    (call : (f node name : ℕ) → State (Files S) ℕ) (colon slash low : ℕ) where
  -- The state in which the name of `n` bytes at `off` of the path at `low` is looked up: a 0 ends it.
  abbrev pub ended_name : (s : Files S) (off n : ℕ) → Files S
  ended_name s off n = record s { cells = write s.cells (low + off + n) 0 }

  -- A run of look-ups, of the names one after the other, each at the node that the one before gave,
  -- from the state `s` and the node `node` on. Each look-up that finds a node leaves the rest of the
  -- path and "/" as they are in memory. The run is over with the last name, and the node is the one
  -- found, or with the first name for which the look-up gives NULL; then the path is freed.
  pub data Walks : (s : Files S) (off node : ℕ) → List (List ℕ) → (r : ℕ) → Files S → Type 0 where
    arrived : {s : Files S} {off node : ℕ} → Walks s off node [] node s
    onward :
        {s t u : Files S} {off node n r : ℕ} {c : List ℕ} {cs : List (List ℕ)}
        → vfs_lookup call node (low + off) (ended_name s off (length c)) ≡ some (n, t)
        → n ≢ 0
        → IsString t.cells slash 0 (slash_byte ∷ [])
        → IsPath t.cells (low + (off + (length c + 1))) cs
        → Walks t (off + (length c + 1)) n cs r u
        → Walks s off node (c ∷ cs) r u
    missing :
        {s t u : Files S} {off node : ℕ} {c : List ℕ} {cs : List (List ℕ)}
        → vfs_lookup call node (low + off) (ended_name s off (length c)) ≡ some (0, t)
        → free low t ≡ some (tt, u)
        → Walks s off node (c ∷ cs) 0 u

  -- A path in memory, and the "/" that strcspn looks for.
  abbrev pub Ready : Files S → (off : ℕ) → List (List ℕ) → Type 0
  Ready s off cs =
      IsString s.cells slash 0 (slash_byte ∷ [])
      × IsPath s.cells (low + off) cs
      × IsNames cs
      × (path_size cs < int_limit)

  spans :
      (s : Files S) (off : ℕ) (c : List ℕ) (cs : List (List ℕ))
      → Ready s off (c ∷ cs)
      → strcspn s.cells (low + off) slash ≡ some (length c)
  spans s off c cs (sep, path, (ne, plain, names), short) =
      strcspn-span_to s.cells (low + off) slash (slash_byte ∷ []) (join (c ∷ cs)) path.0 sep
        (join-ne c cs ne) (omega arith) (omega arith)
      ∙ ap some (span_to-join c cs plain)

  -- What is left of look_up behind strcspn, and behind the look-up.
  abbrev look_end : (name_lim node : ℕ) → State (Files S) (ℕ × ℕ)
  look_end name_lim node = when (node == 0) (free low) >> pure (name_lim, node)

  abbrev cut_and_look : (off node name_lim : ℕ) → State (Files S) (ℕ × ℕ)
  cut_and_look off node name_lim =
      set_cells (λ m. write m (low + off + name_lim) 0)
      >> (vfs_lookup call node (low + off) >>= λ n. look_end name_lim n)

  -- The rest of the walk behind one name.
  abbrev walk_on : (fuel off : ℕ) → ℕ × ℕ → State (Files S) ℕ
  walk_on fuel off (name_lim, node) =
      descend alloc free call colon slash node
        (walk_path alloc free call colon slash fuel low (off + (name_lim + 1)) node)

  -- Without a node the walk frees the copy of the path and returns NULL.
  walk_on-missing :
      (fuel off k : ℕ) (s t : Files S)
      → free low s ≡ some (tt, t)
      → (look_end k 0 >>= walk_on fuel off) s ≡ some (0, t)
  walk_on-missing fuel off k s t done = rw done refl

  -- With a node it goes on there.
  walk_on-found :
      (fuel off k n : ℕ) (s : Files S)
      → (n == 0) ≡ false
      → (look_end k n >>= walk_on fuel off) s
        ≡ walk_path alloc free call colon slash fuel low (off + (k + 1)) n s
  walk_on-found fuel off k zero s e = absurd (ground arith)
  walk_on-found fuel off k (suc n) s e = rw e refl

  look_up-end :
      (s t : Files S) (off node n : ℕ) (c : List ℕ)
      → strcspn s.cells (low + off) slash ≡ some (length c)
      → vfs_lookup call node (low + off) (ended_name s off (length c)) ≡ some (n, t)
      → look_up alloc free call colon slash low off node s ≡ look_end (length c) n t
  unfolding look_up
  look_up-end s t off node n c span look =
      >>=-run (on_cells (λ m. strcspn m (low + off) slash)) (cut_and_look off node) {s = s} {t = s}
        {a = length c} (rw (on_cells, span) refl)
      ∙ >>=-run (vfs_lookup call node (low + off)) (λ n. look_end (length c) n)
          {s = ended_name s off (length c)} {t = t} {a = n} look

  walk_path-step :
      (fuel : ℕ) (s t : Files S) (off node n : ℕ) (c : List ℕ) (cs : List (List ℕ))
      → Ready s off (c ∷ cs)
      → vfs_lookup call node (low + off) (ended_name s off (length c)) ≡ some (n, t)
      → walk_path alloc free call colon slash (suc fuel) low off node s
        ≡ (look_end (length c) n >>= walk_on fuel off) t
  unfolding walk_path
  walk_path-step fuel s t off node n c cs ready look =
      let (sep, path, (ne, _, _), _) = ready in
      let more = starts_on s.cells (low + off) (join (c ∷ cs)) path.0 (join-ne c cs ne) in
      ap
        (λ b.
          if b
          then some (node, s)
          else (look_up alloc free call colon slash low off node >>= walk_on fuel off) s)
        more
      ∙ ap (λ o. elim o [ none ↦ none | some (a, t) ↦ walk_on fuel off a t ])
          (look_up-end s t off node n c (spans s off c cs ready) look)

  -- The walk along the names of a path in memory does the look-ups of the run, and no others, and
  -- returns with its result and its state.
  pub walk_path-Walks :
      (fuel : ℕ) {s u : Files S} {off node r : ℕ} {cs : List (List ℕ)}
      → Walks s off node cs r u
      → Ready s off cs
      → length cs < fuel
      → walk_path alloc free call colon slash fuel low off node s ≡ some (r, u)
  unfolding walk_path
  walk_path-Walks zero run ready lt = absurd (omega arith)
  walk_path-Walks (suc fuel) arrived (_, path, _, _) lt = rw path refl
  walk_path-Walks (suc fuel) {s} {off = off} {node = node} {cs = c ∷ cs}
        (onward {t = t} {n = n} look ne sep path run) ready lt =
      let both = path_size-cons c cs in
      let (_, _, (_, _, names), short) = ready in
      let found : (n == 0) ≡ false = ground (arith, ne) in
      walk_path-step fuel s t off node n c cs ready look
      ∙ walk_on-found fuel off (length c) n t found
      ∙ walk_path-Walks fuel run (sep, path, names, omega (arith, both, short)) (omega arith)
  walk_path-Walks (suc fuel) {s} {u} {off = off} {node = node} {cs = c ∷ cs}
        (missing {t = t} look freed) ready lt =
      walk_path-step fuel s t off node 0 c cs ready look
      ∙ walk_on-missing fuel off (length c) t u freed
