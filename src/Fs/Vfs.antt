-- ===== src/Fs/Vfs.antt =====
-- kernel/src/fs/vfs.c: the mounted file systems and the walk along a path. The bytes of names and
-- paths stand in memory, a name at the start of its object; the other fields are maps from the
-- addresses of the objects. The log is left out.
pub mod Mounts
pub mod Paths
pub mod Walk
pub mod Find
pub mod Tests
use arcane_os.Prelude.{
  ℕ, zero, suc, ◌+◌, ◌^◌, Option, none, some, ◌==◌, not, if◌then◌else◌, Cells, write,
}
use arcane_os.Prelude.State.{State, pure, ◌>>=◌, ◌>>◌, gets, modify, fail, assert, when}
use arcane_os.Rings.{Links}
use arcane_os.Strings.{strlen, strcpy, strcspn, strcmp}

-- `vops_t`, by the address of the structure
pub record Vops : Type 0 where
  pub read : Cells ℕ
  pub write_op : Cells ℕ
  pub lookup : Cells ℕ

-- `vfs_t`, but for `name` and `ops`
pub record VfsFields : Type 0 where
  pub next : Cells ℕ
  pub root : Cells ℕ
  pub cache : Cells ℕ
  pub metadata : Cells ℕ

-- `vnode_t`, but for `name`
pub record VnodeFields : Type 0 where
  pub size : Cells ℕ
  pub ops : Cells ℕ
  pub vfs : Cells ℕ
  pub parent : Cells ℕ
  pub child : Cells ℕ
  pub links : Links
  pub metadata : Cells ℕ

-- Bytes, objects, `vfs_cache` and `vfs_head`, and the state `rest` of the allocators.
pub record Files (S : Type 0) : Type 0 where
  pub cells : Cells ℕ
  pub vops : Vops
  pub mounts : VfsFields
  pub nodes : VnodeFields
  pub vfs_cache : ℕ
  pub vfs_head : ℕ
  pub rest : S

-- `&vfs->ops`
abbrev pub ops_of : ℕ → ℕ
ops_of vfs = vfs + 48

abbrev pub sizeof_vfs : ℕ
sizeof_vfs = 88

abbrev pub sizeof_vnode : ℕ
sizeof_vnode = 192

-- More mounts than there are addresses of 64 bits.
abbrev pub mount_limit : ℕ
mount_limit = 2 ^ 64

-- The longest path that the functions on strings can walk.
abbrev pub path_limit : ℕ
path_limit = 2 ^ 31

-- `while (current->next != NULL) current = current->next;`, on fuel
unfoldable pub last_mount : (fuel current : ℕ) → Cells ℕ → Option ℕ
last_mount zero current next = none
last_mount (suc fuel) current next =
    let rest = last_mount fuel (next current) next in
    if next current == 0 then some current else rest

module _ {S : Type 0} where
  -- A function on strings that must return.
  abbrev pub on_cells : {A : Type 0} → (Cells ℕ → Option A) → State (Files S) A
  on_cells f s = elim (f s.cells) [ none ↦ none | some a ↦ some (a, s) ]

  abbrev pub set_cells : (Cells ℕ → Cells ℕ) → State (Files S) (Unit {0})
  set_cells f = modify (λ s. record s { cells = f s.cells })

  -- `strcpy(dest, src)`
  abbrev pub copy_string : (dest src : ℕ) → State (Files S) (Unit {0})
  copy_string dest src = do cells ← on_cells (λ m. strcpy m dest src); set_cells (λ m. cells)

  abbrev pub set_mounts : (VfsFields → VfsFields) → State (Files S) (Unit {0})
  set_mounts f = modify (λ s. record s { mounts = f s.mounts })

  abbrev pub set_nodes : (VnodeFields → VnodeFields) → State (Files S) (Unit {0})
  set_nodes f = modify (λ s. record s { nodes = f s.nodes })

  abbrev pub set_vops : (Vops → Vops) → State (Files S) (Unit {0})
  set_vops f = modify (λ s. record s { vops = f s.vops })

  -- `slab_create_cache("vfs cache", sizeof(vfs_t), NULL, NULL)`, with the text at `name`
  unfoldable pub vfs_init :
      (create_cache : (name size : ℕ) → State (Files S) ℕ) (name : ℕ) → State (Files S) (Unit {0})
  vfs_init create_cache name = do
    cache ← create_cache name sizeof_vfs
    modify (λ s. record s { vfs_cache = cache })

  -- `current->next = vfs` behind the last mount, which must be found.
  abbrev append_mount : (vfs : ℕ) → Option ℕ → State (Files S) (Unit {0})
  append_mount vfs none = fail
  append_mount vfs (some current) = set_mounts (λ m. record m { next = write m.next current vfs })

  unfoldable pub vfs_register : (vfs : ℕ) → State (Files S) (Unit {0})
  vfs_register vfs s =
      let first : Files S = record s {
        mounts = record s.mounts { next = write s.mounts.next vfs 0 };
        vfs_head = vfs;
      } in
      let longer = append_mount vfs (last_mount mount_limit s.vfs_head s.mounts.next) s in
      if s.vfs_head == 0 then some (tt, first) else longer

  -- `node->ops->read`, `write` and `lookup` are called by their addresses, here through `call`.
  unfoldable pub vfs_read :
      (call : (f node buf offset count : ℕ) → State (Files S) ℕ) (node buf offset count : ℕ)
      → State (Files S) ℕ
  vfs_read call node buf offset count s =
      let f = s.vops.read (s.nodes.ops node) in
      if f == 0 then some (0, s) else call f node buf offset count s

  unfoldable pub vfs_write :
      (call : (f node buf offset count : ℕ) → State (Files S) ℕ) (node buf offset count : ℕ)
      → State (Files S) ℕ
  vfs_write call node buf offset count s =
      let f = s.vops.write_op (s.nodes.ops node) in
      if f == 0 then some (0, s) else call f node buf offset count s

  unfoldable pub vfs_lookup :
      (call : (f node name : ℕ) → State (Files S) ℕ) (node name : ℕ) → State (Files S) ℕ
  vfs_lookup call node name s =
      let f = s.vops.lookup (s.nodes.ops node) in if f == 0 then some (0, s) else call f node name s

  -- The mount of a name, on fuel, or NULL; a mount without a next one is NULL too, and its name is
  -- read all the same.
  unfoldable pub find_mount : (fuel vfs name : ℕ) → State (Files S) ℕ
  find_mount zero vfs name s = none
  find_mount (suc fuel) vfs name s =
      let next = s.mounts.next vfs in
      let rest = find_mount fuel next name s in
      elim (strcmp s.cells vfs name) [
        | none ↦ none
        | some differ ↦
            if vfs == 0
            then none
            else if differ == 0
            then some (vfs, s)
            else if next == s.vfs_head
            then some (0, s)
            else rest
      ]

  module _ (alloc : ℕ → State (Files S) ℕ) (free : ℕ → State (Files S) (Unit {0}))
      (call : (f node name : ℕ) → State (Files S) ℕ) (colon slash : ℕ) where
    -- One name of a path, with "/" at `slash`: its length, and the node or NULL.
    unfoldable pub look_up : (temp path_off current : ℕ) → State (Files S) (ℕ × ℕ)
    unfolding vfs_lookup
    look_up temp path_off current = do
      name_lim ← on_cells (λ m. strcspn m (temp + path_off) slash)
      set_cells (λ m. write m (temp + path_off + name_lim) 0)
      node ← vfs_lookup call current (temp + path_off)
      when (node == 0) (free temp)
      pure (name_lim, node)

    -- Without a node the walk ends.
    abbrev descend : (node : ℕ) → State (Files S) ℕ → State (Files S) ℕ
    descend zero rest = pure 0
    descend (suc n) rest = rest

    -- The loop over the names of a path, on fuel.
    unfoldable pub walk_path : (fuel temp path_off current : ℕ) → State (Files S) ℕ
    unfolding look_up
    walk_path zero temp path_off current s = none
    walk_path (suc fuel) temp path_off current s =
        let rest =
          (look_up temp path_off current >>= λ (name_lim, node).
          descend node (walk_path fuel temp (path_off + (name_lim + 1)) node))
            s in
        if s.cells (temp + path_off) == 0 then some (current, s) else rest

    -- The part of vfs_find behind the search of the mount.
    unfoldable pub walk_from : (temp mnt_lim vfs : ℕ) → State (Files S) ℕ
    walk_from temp mnt_lim vfs = do
      root ← gets (λ s. s.mounts.root vfs)
      walk_path path_limit temp (mnt_lim + 2) root

    -- With ":" at `colon`.
    unfoldable pub vfs_find : (path : ℕ) → State (Files S) ℕ
    unfolding walk_from
    vfs_find path = do
      len ← on_cells (λ m. strlen m path)
      temp ← alloc (len + 1)
      copy_string temp path
      mnt_lim ← on_cells (λ m. strcspn m temp colon)
      set_cells (λ m. write m (temp + mnt_lim) 0)
      head ← gets (λ s. s.vfs_head)
      vfs ← find_mount mount_limit head temp
      if vfs == 0 then free temp >> pure 0 else walk_from temp mnt_lim vfs
