-- ===== src/Rings.antt =====
-- Rings of nodes that are linked in both directions: the `next` and `prev` fields that the virtual
-- regions, the slabs of a cache and the lists of kernel/src/lib/list.c have in common. A field is
-- a map from the addresses of the nodes.
pub mod Seg
pub mod Link
pub mod KernelList
use arcane_os.Prelude.{ℕ, Cells, write}

pub record Links : Type 0 where
  pub next : Cells ℕ
  pub prev : Cells ℕ

abbrev pub set_next : (node to : ℕ) → Links → Links
set_next node to l = record l { next = write l.next node to }

abbrev pub set_prev : (node to : ℕ) → Links → Links
set_prev node to l = record l { prev = write l.prev node to }
