-- ===== src/Fs/Tmpfs/Lookup.antt =====
-- The search of arc_lookup in a table of files.
use arcane_os.Prelude.{
  ℕ, zero, suc, ◌+◌, ◌*◌, ◌<◌, ◌≡◌, ◌≢◌, ◌⊎◌, inl, inr, refl, ◌∙◌, ap, arith, Option, none, some,
  List, [], ◌∷◌, length, Cells,
}
use arcane_os.Prelude.State.{State, ◌>>=◌}
use arcane_os.Strings.{nought, int_limit, memcmp}
use arcane_os.Strings.Compare.{stops}
use arcane_os.Strings.CString.{IsString, strcmp-Decides}
use arcane_os.Fs.Vfs.{Files}
use arcane_os.Fs.Tmpfs.{
  sizeof_entry, entry_name, name_differs, find_file, make_node, ended, arc_lookup,
}

-- A table from file `i` on: files with the magic and a name that fits its field, and then one
-- without the magic.
unfoldable pub Archive : Cells ℕ → (arc table i : ℕ) → List (List ℕ) → Type 0
Archive m arc table i [] = memcmp m (table + i * sizeof_entry) arc 3 ≢ nought
Archive m arc table i (n ∷ ns) =
    (memcmp m (table + i * sizeof_entry) arc 3 ≡ nought)
    × IsString m (table + i * sizeof_entry + entry_name) 0 n
    × (length n < 128)
    × Archive m arc table (i + 1) ns

-- The number of the first of these names that is `text`, counted from `i`.
unfoldable pub FirstNamed : (i : ℕ) → List (List ℕ) → (text : List ℕ) → Option ℕ → Type 0
FirstNamed i [] text r = r ≡ none
FirstNamed i (n ∷ ns) text r =
    ((n ≡ text) × (r ≡ some i)) ⊎ ((n ≢ text) × FirstNamed (i + 1) ns text r)

pub find_file-FirstNamed :
    (fuel i : ℕ) (m : Cells ℕ) (arc table name : ℕ) (names : List (List ℕ)) (text : List ℕ)
    → Archive m arc table i names
    → IsString m name 0 text
    → length names < fuel
    → (r : Option ℕ) × (find_file fuel i m arc table name ≡ some r) × FirstNamed i names text r
unfolding find_file Archive FirstNamed name_differs
find_file-FirstNamed zero i m arc table name names text files str lt = absurd (omega arith)
find_file-FirstNamed (suc fuel) i m arc table name [] text last str lt =
    (none, stops (memcmp m (table + i * sizeof_entry) arc 3) _ last, refl)
find_file-FirstNamed (suc fuel) i m arc table name (n ∷ ns) text (magic, named, short, files) str
      lt =
    let (d, run, says) =
      strcmp-Decides m (table + i * sizeof_entry + entry_name) name n text named str
        (omega arith) in
    let named_so : name_differs m table i name ≡ some d = run in
    let (r, rest, first) =
      find_file-FirstNamed fuel (i + 1) m arc table name ns text files str (omega arith) in
    elim says [
      | inl (e, same) ↦ (some i, rw (find_file, magic, named_so, e) refl, inl (same, refl))
      | inr (e, differ) ↦ (r, rw (find_file, magic, named_so, e) rest, inr (differ, first))
    ]

-- Without a file there is no node.
make_node-none :
    {S : Type 0} (slab_alloc : ℕ → State (Files S) ℕ) (node arc_base table : ℕ) (s : Files S)
    (r : Option ℕ)
    → make_node slab_alloc node arc_base table r s
      ≡ elim r [ none ↦ some (0, s) | some i ↦ make_node slab_alloc node arc_base table (some i) s ]
unfolding make_node
make_node-none slab_alloc node arc_base table s none = refl
make_node-none slab_alloc node arc_base table s (some i) = refl

pub arc_lookup-FirstNamed :
    {S : Type 0} (slab_alloc : ℕ → State (Files S) ℕ) (arc node name : ℕ) (s : Files S)
    (names : List (List ℕ)) (text : List ℕ)
    → Archive s.cells arc (s.nodes.metadata node) 0 names
    → IsString s.cells name 0 text
    → length names < int_limit
    → (r : Option ℕ) × FirstNamed 0 names text r
      × (arc_lookup slab_alloc arc node name s ≡ elim r [
        | none ↦ some (0, s)
        | some i ↦
            make_node slab_alloc node
              (s.mounts.metadata (s.nodes.vfs node))
              (s.nodes.metadata node)
              (some i)
              s
      ])
unfolding arc_lookup
arc_lookup-FirstNamed slab_alloc arc node name s names text files str few =
    let table = s.nodes.metadata node in
    let (r, found, first) =
      find_file-FirstNamed int_limit 0 s.cells arc table name names text files str few in
    (
      r,
      first,
      ap
            (λ o.
              (ended o >>= λ found.
              make_node slab_alloc node (s.mounts.metadata (s.nodes.vfs node)) table found)
                s)
            found
          ∙ make_node-none slab_alloc node (s.mounts.metadata (s.nodes.vfs node)) table s r,
    )
