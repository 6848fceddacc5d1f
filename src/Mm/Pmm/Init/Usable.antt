-- ===== src/Mm/Pmm/Init/Usable.antt =====
-- The pages that `pmm_init` of kernel/src/mm/pmm.c leaves free, against the usable memory and the
-- place of the bitmap.
use arcane_os.Prelude.{
  ℕ, zero, suc, ◌+◌, ◌/◌, ◌≤◌, ◌<◌, ◌≡◌, refl, ◌∙◌, sym, ap, Bool, true, false, some, List, [], ◌∷◌,
  ◌==◌, ◌&&◌, ◌||◌, not, ltb, u64, sub64, Cells, arith, Bool-cases, inl, inr, ◌⊎◌, get_elem?,
}
use arcane_os.Mm.Page.{page_size}
use arcane_os.Mm.Pmm.{Pmm, pmm_bitmap_clear}
use arcane_os.Mm.Pmm.Bitmap.{IsBytes, is_free}
use arcane_os.Mm.Pmm.Init.{
  Entry, size_of, find_entry, clear_pages, start_search, clear_from, clear_entry, clear_entries,
  full_bitmap, pmm_init,
}
use arcane_os.Mm.Pmm.Init.Clear.{page_in}
use arcane_os.Mm.Pmm.Init.Covers.{
  covers, Aligned, find_entry-cases, find_entry-Fits, pmm_init-covers,
}

-- The bitmap stays where it was put.
clear_pages-base :
    (r base length j : ℕ) (s : Pmm) → (clear_pages r base length j s).bitmap_base ≡ s.bitmap_base
unfolding clear_pages pmm_bitmap_clear
clear_pages-base zero base length j s = refl
clear_pages-base (suc r) base length j s = elim (Bool-cases (ltb j length)) [
  | inl more ↦ rw more (clear_pages-base r base length _ _)
  | inr done ↦ rw done refl
]

clear_from-base :
    (base length : ℕ) (s : Pmm) → (clear_from base length s).bitmap_base ≡ s.bitmap_base
unfolding clear_from start_search
clear_from-base base length s =
    clear_pages-base (length / page_size + 1) base length 0 (start_search base s)
    ∙ elim (Bool-cases (s.last_free == 0)) [ inl e ↦ rw e refl | inr e ↦ rw e refl ]

module _ (usable : ℕ) where
  clear_entry-base :
      (size : ℕ) (own : Bool) (e : Entry) (s : Pmm)
      → (clear_entry usable size own e s).bitmap_base ≡ s.bitmap_base
  unfolding clear_entry
  clear_entry-base size true e s = elim (Bool-cases (e.kind == usable)) [
    | inl is ↦ rw is (clear_from-base (u64 (e.base + size)) (sub64 e.length size) s)
    | inr other ↦ rw other refl
  ]
  clear_entry-base size false e s = elim (Bool-cases (e.kind == usable)) [
    | inl is ↦ rw is (clear_from-base e.base e.length s)
    | inr other ↦ rw other refl
  ]

  clear_entries-base :
      (size chosen i : ℕ) (es : List Entry) (s : Pmm)
      → (clear_entries usable size chosen i es s).bitmap_base ≡ s.bitmap_base
  unfolding clear_entries
  clear_entries-base size chosen i [] s = refl
  clear_entries-base size chosen i (e ∷ es) s =
      clear_entries-base size chosen (i + 1) es (clear_entry usable size (i == chosen) e s)
      ∙ clear_entry-base size (i == chosen) e s

  -- Page `q` begins in some usable entry of the memory map.
  unfoldable pub usable_page : List Entry → ℕ → Bool
  usable_page [] q = false
  usable_page (e ∷ es) q =
      (e.kind == usable && page_in e.base (e.base + e.length) q) || usable_page es q

  abbrev pub Apart : Entry → List Entry → Type 0
  Apart e [] = Unit {0}
  Apart e (x ∷ es) =
      (e.kind ≡ usable
        → x.kind ≡ usable
        → (e.base + e.length ≤ x.base) ⊎ (x.base + x.length ≤ e.base))
      × Apart e es

  -- No two usable entries overlap, which the boot loader promises.
  abbrev pub Separate : List Entry → Type 0
  Separate [] = Unit {0}
  Separate (e ∷ es) = Apart e es × Separate es

  -- Behind the entry of the bitmap every usable entry is taken whole.
  covers-later :
      (size chosen i : ℕ) (es : List Entry) (q : ℕ)
      → chosen < i
      → covers usable size chosen i es q ≡ usable_page es q
  unfolding covers usable_page
  covers-later size chosen i [] q lt = refl
  covers-later size chosen i (e ∷ es) q lt =
      let rest = covers-later size chosen (i + 1) es q (omega arith) in
      let other : (i == chosen) ≡ false = ground arith in rw (other, rest) refl

  -- A page of a usable entry is in no usable entry apart from it.
  Apart-usable_page :
      (e : Entry) (es : List Entry) (q : ℕ)
      → e.kind ≡ usable
      → Apart e es
      → page_in e.base (e.base + e.length) q ≡ true
      → usable_page es q ≡ false
  unfolding usable_page
  Apart-usable_page e [] q is apart inside = refl
  Apart-usable_page e (x ∷ es) q is (here, apart) inside =
      let rest = Apart-usable_page e es q is apart inside in
      elim (Bool-cases (x.kind == usable)) [
        | inr other ↦ rw (other, rest) refl
        | inl also ↦ elim (here is (ground arith)) [
          | inl below ↦ ground (arith, rest)
          | inr above ↦ ground (arith, rest)
        ]
      ]

  -- The entry of the bitmap is one of the list, so a page apart from the list is not in the bitmap.
  Apart-found :
      (size i : ℕ) (e : Entry) (es : List Entry) (q : ℕ) {r : ℕ × Entry}
      → find_entry usable size i es ≡ some r
      → e.kind ≡ usable
      → Apart e es
      → page_in e.base (e.base + e.length) q ≡ true
      → page_in r.1.base (r.1.base + size) q ≡ false
  unfolding find_entry
  Apart-found size i e [] q found is apart inside = cc
  Apart-found size i e (x ∷ es) q {r} found is (here, apart) inside =
      elim (find_entry-cases usable size i x es found) [
        | inr next ↦ Apart-found size (i + 1) e es q next is apart inside
        | inl (at, same, also, room) ↦
            let base : x.base ≡ r.1.base = ap (λ y. y.base) same in
            elim (here is also) [
              | inl below ↦ ground (arith, base)
              | inr above ↦ ground (arith, base)
            ]
      ]

  -- Of the entry that holds the bitmap, the pages behind it.
  covers-own :
      (size i chosen base : ℕ) (e : Entry) (es : List Entry) (q : ℕ)
      → i ≡ chosen
      → e.base ≡ base
      → e.kind ≡ usable
      → size ≤ e.length
      → Apart e es
      → covers usable size chosen i (e ∷ es) q
        ≡ (usable_page (e ∷ es) q && not (page_in base (base + size) q))
  unfolding covers usable_page
  covers-own size i chosen base e es q at same is room apart =
      let rest = covers-later size chosen (i + 1) es q (omega arith) in
      elim (Bool-cases (page_in e.base (e.base + e.length) q)) [
        | inl inside ↦
            let alone = Apart-usable_page e es q is apart inside in ground (arith, rest, alone)
        | inr outside ↦ ground (arith, rest)
      ]

  covers-usable_page :
      (size i : ℕ) (es : List Entry) (q : ℕ) {r : ℕ × Entry}
      → find_entry usable size i es ≡ some r
      → Aligned usable es
      → Separate es
      → covers usable size r.0 i es q
        ≡ (usable_page es q && not (page_in r.1.base (r.1.base + size) q))
  unfolding find_entry covers usable_page
  covers-usable_page size i [] q found al apart = cc
  covers-usable_page size i (e ∷ es) q {r} found (_, al) (apart, separate) =
      elim (find_entry-cases usable size i e es found) [
        | inl (at, same, is, room) ↦
            let base : e.base ≡ r.1.base = ap (λ y. y.base) same in
            covers-own size i r.0 r.1.base e es q at base is room apart
        | inr next ↦
            let (le, _) = find_entry-Fits usable size (i + 1) es next al in
            let other : (i == r.0) ≡ false = ground arith in
            let rest = covers-usable_page size (i + 1) es q next al separate in
            elim (Bool-cases (e.kind == usable && page_in e.base (e.base + e.length) q)) [
              | inl inside ↦
                  let clear =
                    Apart-found size (i + 1) e es q next (ground arith) apart (ground arith) in
                  ground (arith, rest, other, clear)
              | inr outside ↦ ground (arith, rest, other)
            ]
      ]

  found-usable :
      (size i : ℕ) (es : List Entry) {r : ℕ × Entry}
      → find_entry usable size i es ≡ some r
      → (k : ℕ) × (get_elem? es k ≡ some r.1) × (r.1.kind ≡ usable) × (size ≤ r.1.length)
  unfolding find_entry
  found-usable size i [] found = cc
  found-usable size i (e ∷ es) {r} found = elim (find_entry-cases usable size i e es found) [
    | inl (at, same, is, room) ↦
        (0, ap some same, sym (ap (λ y. y.kind) same) ∙ is, omega (arith, ap (λ y. y.length) same))
    | inr next ↦ let (k, at, is, room) = found-usable size (i + 1) es next in (suc k, at, is, room)
  ]

  -- If usable entries of the memory map are aligned to pages, stay clear of the end of the address
  -- space and do not overlap, and one of them has room for the bitmap, pmm_init returns. The bitmap
  -- then lies at the base of a usable entry with room for it, and of the pages that it has bits for
  -- exactly those are free that begin in a usable entry and not in the bitmap itself.
  pub pmm_init-usable_page :
      (ram : Cells ℕ) (es : List Entry) (k : ℕ) (e : Entry)
      → IsBytes ram
      → Aligned usable es
      → Separate es
      → get_elem? es k ≡ some e
      → e.kind ≡ usable
      → size_of es ≤ e.length
      → (s : Pmm) × (pmm_init usable ram es ≡ some s)
        × ((j : ℕ) × (own : Entry) × (get_elem? es j ≡ some own)
            × (own.kind ≡ usable)
            × (size_of es ≤ own.length)
            × (s.bitmap_base ≡ own.base))
        × ((q : ℕ)
            → q / 8 < size_of es
            → is_free s q
              ≡ (usable_page es q && not (page_in s.bitmap_base (s.bitmap_base + size_of es) q)))
  unfolding full_bitmap
  pmm_init-usable_page ram es k e bytes al apart at is room =
      let (r, s, made, found, final, _, view) =
        pmm_init-covers usable ram es k e bytes al at is room in
      let (j, listed, own, fits) = found-usable (size_of es) 0 es found in
      let base : s.bitmap_base ≡ r.1.base =
        ap (λ t. t.bitmap_base) final
        ∙ clear_entries-base (size_of es) r.0 0 es (full_bitmap usable ram (size_of es) r.1.base) in
      (
        s,
        made,
        (j, r.1, listed, own, fits, base),
        λ q lt.
            view q lt
            ∙ covers-usable_page (size_of es) 0 es q found al apart
            ∙ ap (λ b. usable_page es q && not (page_in b (b + size_of es) q)) (sym base),
      )
