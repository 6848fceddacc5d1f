-- ===== src/Fs/Tmpfs.antt =====
-- kernel/src/fs/tmpfs.c: the archive of the ramdisk as a file system.
pub mod Lookup
use arcane_os.Prelude.{
  load, ℕ, zero, suc, ◌+◌, ◌*◌, Option, none, some, ◌==◌, if◌then◌else◌, Cells, write, u64,
}
use arcane_os.Prelude.State.{State, pure, ◌>>=◌, ◌>>◌, gets, modify, fail}
use arcane_os.Rings.{Links, set_next, set_prev}
use arcane_os.Strings.{Sign, minus_one, nought, one, int_limit, memcmp, memcpy, strcmp}
use arcane_os.Fs.Vfs.{
  Vops, VfsFields, VnodeFields, Files, ops_of, sizeof_vnode, copy_string, set_cells, set_mounts,
  set_nodes, set_vops, vfs_register,
}

-- `arc_entry_t`, packed: the offsets of its fields, and its size.
abbrev pub entry_name : ℕ
entry_name = 4

abbrev pub entry_file_size : ℕ
entry_file_size = 132

abbrev pub entry_data_off : ℕ
entry_data_off = 140

abbrev pub sizeof_entry : ℕ
sizeof_entry = 148

-- What a file of the table says of a name: that it has it, or not.
unfoldable pub name_differs : Cells ℕ → (table i name : ℕ) → Option ℕ
name_differs m table i name = strcmp m (table + i * sizeof_entry + entry_name) name

-- The loop of arc_lookup, on fuel, with "ARC" at `arc`: the number of the first file of the name,
-- or `none` inside `some` behind the last file.
unfoldable pub find_file : (fuel i : ℕ) → Cells ℕ → (arc table name : ℕ) → Option (Option ℕ)
unfolding name_differs
find_file zero i m arc table name = none
find_file (suc fuel) i m arc table name =
    let rest = find_file fuel (i + 1) m arc table name in
    elim (memcmp m (table + i * sizeof_entry) arc 3) [
      | minus_one ↦ some none
      | one ↦ some none
      | nought ↦ elim (name_differs m table i name) [
        | none ↦ none
        | some differs ↦ if differs == 0 then some (some i) else rest
      ]
    ]

-- The fields of the node of a file.
abbrev pub fill_node : (new_node node size data_at : ℕ) → VnodeFields → VnodeFields
fill_node new_node node size data_at f = record f {
  size = write f.size new_node size;
  ops = write f.ops new_node (ops_of (f.vfs node));
  vfs = write f.vfs new_node (f.vfs node);
  parent = write f.parent new_node node;
  child = write f.child new_node 0;
  links = set_next new_node 0 (set_prev new_node 0 f.links);
  metadata = write f.metadata new_node data_at;
}

module _ {S : Type 0} where
  -- `memcpy(buf, node->metadata, count)`
  unfoldable pub arc_read : (node buf offset count : ℕ) → State (Files S) ℕ
  arc_read node buf offset count = do
    data_start ← gets (λ s. s.nodes.metadata node)
    set_cells (λ m. memcpy m buf data_start count)
    pure count

  -- The search must end.
  abbrev pub ended : {A : Type 0} → Option A → State (Files S) A
  ended none = fail
  ended (some a) = pure a

  module _ (slab_alloc : (cache : ℕ) → State (Files S) ℕ) where
    -- The node of a file, or NULL.
    unfoldable pub make_node : (node arc_base table : ℕ) → Option ℕ → State (Files S) ℕ
    make_node node arc_base table none = pure 0
    make_node node arc_base table (some i) = do
      cache ← gets (λ s. s.mounts.cache (s.nodes.vfs node))
      new_node ← slab_alloc cache
      copy_string new_node (table + i * sizeof_entry + entry_name)
      modify (λ s. record s {
        nodes =
            fill_node new_node node (load 8 s.cells (table + i * sizeof_entry + entry_file_size))
              (u64 (load 8 s.cells (table + i * sizeof_entry + entry_data_off) + arc_base)) s.nodes;
      })
      pure new_node

    unfoldable pub arc_lookup : (arc node name : ℕ) → State (Files S) ℕ
    unfolding make_node
    arc_lookup arc node name = do
      arc_base ← gets (λ s. s.mounts.metadata (s.nodes.vfs node))
      table ← gets (λ s. s.nodes.metadata node)
      found ← (λ s. ended (find_file int_limit 0 s.cells arc table name) s)
      make_node node arc_base table found

    -- arc_read and arc_lookup are at two addresses, and "arc cache" at `text`.
    unfoldable pub arc_mount :
        (create_cache : (name size : ℕ) → State (Files S) ℕ) (read lookup text start : ℕ)
        → State (Files S) ℕ
    arc_mount create_cache read lookup text start = do
      vfs_cache ← gets (λ s. s.vfs_cache)
      vfs ← slab_alloc vfs_cache
      cache ← create_cache text sizeof_vnode
      set_mounts (λ m. record m { cache = write m.cache vfs cache })
      set_vops (λ o. record o {
        read = write o.read (ops_of vfs) read;
        write_op = write o.write_op (ops_of vfs) 0;
        lookup = write o.lookup (ops_of vfs) lookup;
      })
      root ← slab_alloc cache
      set_nodes (λ n. record n {
        ops = write n.ops root (ops_of vfs);
        vfs = write n.vfs root vfs;
        parent = write n.parent root 0;
        child = write n.child root 0;
        links = set_prev root root (set_next root root n.links);
        metadata = write n.metadata root start;
      })
      set_mounts
          (λ m. record m { root = write m.root vfs root; metadata = write m.metadata vfs start })
      pure vfs

    -- With the ramdisk of the boot loader, and "tmpfs" at `tmpfs`.
    unfoldable pub tmpfs_init :
        (create_cache : (name size : ℕ) → State (Files S) ℕ) (read lookup text ramdisk tmpfs : ℕ)
        → State (Files S) (Unit {0})
    unfolding arc_mount vfs_register
    tmpfs_init create_cache read lookup text ramdisk tmpfs = do
      vfs ← arc_mount create_cache read lookup text ramdisk
      copy_string vfs tmpfs
      vfs_register vfs
