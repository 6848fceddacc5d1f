-- ===== src/Arch/Mmu/Tree.antt =====
-- The tree of tables that kernel/src/arch/x86_64/mmu.c keeps, as an invariant.
use arcane_os.Prelude.{
  ℕ, suc, ◌+◌, ◌*◌, ◌/◌, ◌%◌, ◌^◌, ◌≤◌, ◌<◌, ◌≡◌, ◌⊎◌, inl, inr, false, Option, none, some, arith,
  if◌then◌else◌, ◌∙◌, ap, Bool-cases,
}
use arcane_os.Mm.Page.{higher_half, get_addr_from_page, get_addr_from_page-mod}
use arcane_os.Mm.Pmm.Bitmap.{IsBytes, is_free}
use arcane_os.Arch.Mmu.{Machine, slot, exists, get_from}
use arcane_os.Arch.Mmu.Entries.{get_level-mod, page_of}

-- Bits of the address that select the entry at a level.
abbrev pub index : (level virt : ℕ) → ℕ
index level virt = virt / 2 ^ (12 + level * 9) % 512

-- The virtual address of the page with number `p`, and of its word `i`.
abbrev pub at : (hhdm p : ℕ) → ℕ
at hhdm p = hhdm + p * 4096

abbrev pub cell : (hhdm p i : ℕ) → ℕ
cell hhdm p i = slot (at hhdm p) i

-- The page of the next table, by the entry.
abbrev pub target : ℕ → Option ℕ
target e = if exists e then some (page_of e) else none

-- The tables of an address space: by level and by the indices above it, read as one number.
abbrev pub Tab : Type 0
Tab = ℕ → ℕ → Option ℕ

pub record IsTable (m : Machine) (p : ℕ) : Type 0 where
  pub taken : is_free m.pmm p ≡ false
  pub addressed : p < 2 ^ 40
  pub mapped : at m.hhdm p + 4096 ≤ 2 ^ 64

pub record IsTree (m : Machine) (root : ℕ) (tab : Tab) : Type 0 where
  pub root_at : tab 3 0 ≡ some root
  pub entry :
      (l pre p i : ℕ)
      → tab (suc l) pre ≡ some p
      → i < 512
      → tab l (pre * 512 + i) ≡ target (m.cells (cell m.hhdm p i))
  pub absent :
      (l pre i : ℕ) → l < 3 → tab (suc l) pre ≡ none → i < 512 → tab l (pre * 512 + i) ≡ none
  pub levels : (l pre p : ℕ) → tab l pre ≡ some p → l ≤ 3
  pub one :
      (l l' pre pre' p : ℕ) → tab l pre ≡ some p → tab l' pre' ≡ some p → (l ≡ l') × (pre ≡ pre')
  pub table : (l pre p : ℕ) → tab l pre ≡ some p → IsTable m p
  pub zero_taken : is_free m.pmm 0 ≡ false
  pub bytes : IsBytes m.pmm.bitmap

pub higher_half-at :
    (hhdm x : ℕ)
    → at hhdm (page_of x) + 4096 ≤ 2 ^ 64
    → higher_half hhdm (get_addr_from_page x) ≡ at hhdm (page_of x)
unfolding higher_half
higher_half-at hhdm x fits = rw (get_addr_from_page-mod x) (omega arith)

pub get_from-zero : (m : Machine) (a v : ℕ) → get_from 0 a v m ≡ m.cells (slot a (index 0 v))
unfolding get_from
get_from-zero m a v = rw (get_from, get_level-mod v 0)

-- One round of the loop from a table of the tree: on to the table that the entry names, or out.
pub record Down (m : Machine) (tab : Tab) (l pre p v q : ℕ) : Type 0 where
  pub next : tab l (pre * 512 + index (suc l) v) ≡ some q
  pub same : get_from (suc l) (at m.hhdm p) v m ≡ get_from l (at m.hhdm q) v m

module _ {m : Machine} {root : ℕ} {tab : Tab} (tree : IsTree m root tab) where
  pub descend :
      (l pre p v : ℕ)
      → tab (suc l) pre ≡ some p
      → ((q : ℕ) × Down m tab l pre p v q)
        ⊎ ((tab l (pre * 512 + index (suc l) v) ≡ none) × (get_from (suc l) (at m.hhdm p) v m ≡ 0))
  unfolding get_from
  descend l pre p v here =
      let i : ℕ = index (suc l) v in
      let e : ℕ = m.cells (cell m.hhdm p i) in
      let says : tab l (pre * 512 + i) ≡ target e = tree.entry l pre p i here (omega arith) in
      elim (Bool-cases (exists e)) [
        | inl yes_it_does ↦
            let next : tab l (pre * 512 + i) ≡ some (page_of e) = says ∙ rw yes_it_does in
            let fits = (tree.table l (pre * 512 + i) (page_of e) next).mapped in
            inl (
              page_of e,
              record {
                next = next;
                same = rw (get_level-mod v (suc l), yes_it_does, higher_half-at m.hhdm e fits);
              },
            )
        | inr no_it_does_not ↦
            inr (says ∙ rw no_it_does_not, rw (get_level-mod v (suc l), no_it_does_not))
      ]

  -- The two ways out of `descend`, told apart by the tree.
  pub get_from-some :
      (l pre p v : ℕ) {q : ℕ}
      → tab (suc l) pre ≡ some p
      → tab l (pre * 512 + index (suc l) v) ≡ some q
      → get_from (suc l) (at m.hhdm p) v m ≡ get_from l (at m.hhdm q) v m
  get_from-some l pre p v {q} here next = elim (descend l pre p v here) [
    | inl (r, d) ↦
        let e : r ≡ q = ground (arith, d.next) in d.same ∙ ap (λ x. get_from l (at m.hhdm x) v m) e
    | inr (gone, nothing) ↦ ground arith
  ]

  pub get_from-none :
      (l pre p v : ℕ)
      → tab (suc l) pre ≡ some p
      → tab l (pre * 512 + index (suc l) v) ≡ none
      → get_from (suc l) (at m.hhdm p) v m ≡ 0
  get_from-none l pre p v here gone = elim (descend l pre p v here) [
    | inl (r, d) ↦ ground (arith, d.next)
    | inr (_, nothing) ↦ nothing
  ]
