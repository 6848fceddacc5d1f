-- ===== src/Fs/Tests.antt =====
-- A mount, and an archive with one file, and the theorems on file systems at them.
use arcane_os.Prelude.{
  ℕ, ◌≡◌, refl, inl, arith, Option, none, some, [], ◌∷◌, ◌==◌, ◌||◌, if◌then◌else◌, Cells,
}
use arcane_os.Prelude.State.{State, pure}
use arcane_os.Strings.{memcmp, cmp_loop}
use arcane_os.Rings.Seg.{NotIn, Distinct}
use arcane_os.Fs.Vfs.{Files, vfs_register}
use arcane_os.Fs.Vfs.Mounts.{Chain, vfs_register-Chain}
use arcane_os.Fs.Tmpfs.{make_node, arc_lookup}
use arcane_os.Fs.Tmpfs.Lookup.{Archive, FirstNamed, arc_lookup-FirstNamed}

-- "ARC" at 10, "a" at 20, and the file of that name at 1000.
abbrev bytes : Cells ℕ
bytes a =
    if (a == 10) || (a == 1000) || (a == 11) || (a == 1001)
    then 65
    else if (a == 12) || (a == 1002)
    then 67
    else if (a == 20) || (a == 1004)
    then 97
    else 0

-- One mount at 0x100, and the root of an archive at 0x300.
abbrev one_mount : Files ℕ
one_mount = record {
  cells = bytes;
  vops = record { read = λ a. 0; write_op = λ a. 0; lookup = λ a. 0 };
  mounts = record { next = λ a. 0; root = λ a. 0x300; cache = λ a. 0; metadata = λ a. 1000 };
  nodes = record {
    size = λ a. 0;
    ops = λ a. 0x130;
    vfs = λ a. 0x100;
    parent = λ a. 0;
    child = λ a. 0;
    links = record { next = λ a. 0; prev = λ a. 0 };
    metadata = λ a. 1000;
  };
  vfs_cache = 0;
  vfs_head = 0x100;
  rest = 0;
}

one_mount-Chain : Chain one_mount.mounts.next 0x100 (0x100 ∷ [])
unfolding Chain
one_mount-Chain = (refl, (λ e. omega (arith, e)), refl)

one_mount-Distinct : Distinct (0x100 ∷ [])
unfolding Distinct NotIn
one_mount-Distinct = (tt, tt)

apart : NotIn 0x200 (0x100 ∷ [])
unfolding NotIn
apart = ((λ e. omega (arith, e)), tt)

vfs_register-Chain_example :
    (t : Files ℕ) × (vfs_register 0x200 one_mount ≡ some (tt, t))
    × Chain t.mounts.next t.vfs_head (0x100 ∷ 0x200 ∷ [])
vfs_register-Chain_example =
    vfs_register-Chain one_mount 0x200 (0x100 ∷ []) one_mount-Chain one_mount-Distinct apart
      (λ e. omega (arith, e)) (inl refl) (omega arith)

archive : Archive bytes 10 1000 0 ((97 ∷ []) ∷ [])
unfolding Archive memcmp cmp_loop
archive = (refl, (refl, (λ e. omega (arith, e)), refl), omega arith, λ e. cc)

abbrev always : ℕ → State (Files ℕ) ℕ
always cache = pure 0x400

arc_lookup-FirstNamed_example :
    (r : Option ℕ) × FirstNamed 0 ((97 ∷ []) ∷ []) (97 ∷ []) r
    × (arc_lookup always 10 0x300 20 one_mount ≡ elim r [
      | none ↦ some (0, one_mount)
      | some i ↦ make_node always 0x300 1000 1000 (some i) one_mount
    ])
arc_lookup-FirstNamed_example =
    arc_lookup-FirstNamed always 10 0x300 20 one_mount ((97 ∷ []) ∷ []) (97 ∷ []) archive
      (refl, (λ e. omega (arith, e)), refl) (omega arith)
