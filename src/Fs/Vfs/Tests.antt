-- ===== src/Fs/Vfs/Tests.antt =====
-- The path "A:/b" in memory, with a mount of the name "A" that is an archive with a file "b", and
-- vfs_find at it with the look-up of archives.
use arcane_os.Prelude.{
  ℕ, ◌≡◌, refl, arith, inl, inr, some, [], ◌∷◌, ◌==◌, ◌||◌, if◌then◌else◌, Cells, write, load,
}
use arcane_os.Prelude.State.{State}
use arcane_os.Rings.Seg.{NotIn}
use arcane_os.Strings.CString.{IsString}
use arcane_os.Fs.Vfs.{Files, vfs_lookup, vfs_find}
use arcane_os.Fs.Vfs.Paths.{IsNames}
use arcane_os.Fs.Vfs.Walk.{ended_name, onward, arrived}
use arcane_os.Fs.Vfs.Find.Search.{Mounted}
use arcane_os.Fs.Vfs.Find.Text.{path_text}
use arcane_os.Fs.Vfs.Find.{named, at_mount, vfs_find-Finds}
use arcane_os.Fs.Tmpfs.{arc_lookup, find_file, name_differs, make_node, fill_node}
use arcane_os.Strings.{memcmp, cmp_loop, strcmp, strcmp_loop, strcpy, strcpy_loop}

-- "A:/b" at 100, "ARC" at 10, ":" at 20, "/" at 30, "A" at 1024, and the archive at 2000.
abbrev memory : Cells ℕ
memory a =
    if (a == 100) || ((a == 1024) || ((a == 10) || (a == 2000)))
    then 65
    else if (a == 11) || (a == 2001)
    then 82
    else if (a == 12) || (a == 2002)
    then 67
    else if (a == 101) || (a == 20)
    then 58
    else if (a == 102) || (a == 30)
    then 47
    else if (a == 103) || (a == 2004)
    then 98
    else 0

abbrev one_mount : Files ℕ
one_mount = record {
  cells = memory;
  vops = record { read = λ a. 0; write_op = λ a. 0; lookup = λ a. 1 };
  mounts = record { next = λ a. 0; root = λ a. 0x300; cache = λ a. 0; metadata = λ a. 2000 };
  nodes = record {
    size = λ a. 0;
    ops = λ a. 0x130;
    vfs = λ a. 1024;
    parent = λ a. 0;
    child = λ a. 0;
    links = record { next = λ a. 0; prev = λ a. 0 };
    metadata = λ a. 2000;
  };
  vfs_cache = 0;
  vfs_head = 1024;
  rest = 0;
}

abbrev alloc : ℕ → State (Files ℕ) ℕ
alloc size s = some (200, s)

abbrev free : ℕ → State (Files ℕ) (Unit {0})
free a s = some (tt, s)

-- The look-up of an archive, and the slab that gives its nodes.
abbrev new_node : (cache : ℕ) → State (Files ℕ) ℕ
new_node cache s = some (0x500, s)

abbrev call : (f node name : ℕ) → State (Files ℕ) ℕ
call f node name = arc_lookup new_node 10 node name

-- The path as vfs_find copies it, and the state when the node of "b" is made.
abbrev copied : Cells ℕ
copied = write (write (write (write (write memory 200 65) 201 58) 202 47) 203 98) 204 0

abbrev found_b : Files ℕ
found_b = record one_mount {
  cells = write (write (write (write copied 201 0) 204 0) 0x500 98) 0x501 0;
  nodes = fill_node 0x500 0x300 0 2000 one_mount.nodes;
}

copies : strcpy memory 200 100 ≡ some copied
unfolding strcpy strcpy_loop write
copies = refl

finds_b :
    vfs_lookup call 0x300 203 (
      ended_name alloc free call 20 30 200
        (named alloc free call 20 30 200 206 one_mount copied (65 ∷ []))
        3
        1)
    ≡ some (0x500, found_b)
unfolding vfs_lookup arc_lookup find_file name_differs memcmp cmp_loop strcmp strcmp_loop strcpy
    strcpy_loop load make_node write
finds_b = refl

vfs_find-Finds_example : vfs_find alloc free call 20 30 100 one_mount ≡ some (0x500, found_b)
unfolding NotIn write
vfs_find-Finds_example =
    vfs_find-Finds alloc free call 20 30 200 206 one_mount one_mount copied 100
      ((1024, 65 ∷ []) ∷ []) (65 ∷ []) 47 ((98 ∷ []) ∷ []) (some 1024) (some (0x500, found_b)) text
      refl text copies (inr (omega arith)) refl (refl, (λ e. omega (arith, e)), refl)
      (inl (omega arith)) (refl, (λ e. omega (arith, e)), refl) (inl (omega arith)) mounted plain
      ok_names (omega arith) (omega arith) (omega arith) (inl (refl, refl))
      (at_mount
        (onward finds_b (λ e. omega (arith, e)) (refl, (λ e. omega (arith, e)), refl) refl arrived))
  where
    text : IsString memory 100 0 (path_text (65 ∷ []) 47 ((98 ∷ []) ∷ []))
    text = (
      refl,
      (λ e. omega (arith, e)),
      (
        refl,
        (λ e. omega (arith, e)),
        (refl, (λ e. omega (arith, e)), (refl, (λ e. omega (arith, e)), refl)),
      ),
    )

    mounted : Mounted memory one_mount.mounts.next 1024 200 206 1024 ((1024, 65 ∷ []) ∷ [])
    mounted = (
      refl,
      (λ e. omega (arith, e)),
      (λ e. omega (arith, e)),
      (refl, (λ e. omega (arith, e)), refl),
      omega arith,
      inr (omega arith),
      refl,
    )

    plain : NotIn 58 (65 ∷ [])
    plain = ((λ e. omega (arith, e)), tt)

    ok_names : IsNames ((98 ∷ []) ∷ [])
    ok_names = ((λ e. cc), ((λ e. omega (arith, e)), tt), tt)
