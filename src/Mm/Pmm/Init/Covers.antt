-- ===== src/Mm/Pmm/Init/Covers.antt =====
-- The bitmap that `pmm_init` builds, against the memory map.
use arcane_os.Prelude.{
  ℕ, zero, suc, ◌+◌, ◌-◌, ◌/◌, ◌%◌, ◌^◌, ◌≤◌, ◌<◌, ◌≡◌, refl, Bool, true, false, none, some, List,
  [], ◌∷◌, u8, u64, sub64, ltb, ◌==◌, ◌&&◌, ◌||◌, if◌then◌else◌, Cells, arith, Bool-cases, inl, inr,
  bit_and, get_elem?, not, ==_iff, ◌≢◌, Option-cases, ◌⊎◌,
}
use mathlib.Core.Path.{subst}
use arcane_os.Prelude.Bits.{all_below, all_below-true}
use arcane_os.Strings.Copy.{memset-block}
use arcane_os.Mm.Page.{page_size, align_up}
use arcane_os.Mm.Pmm.{Pmm, pmm_bitmap_get}
use arcane_os.Mm.Pmm.Bitmap.{IsBytes, is_free}
use arcane_os.Mm.Pmm.Init.{
  Entry, size_of, clear_from, find_entry, clear_entry, clear_entries, full_bitmap, pmm_init,
}
use arcane_os.Mm.Pmm.Init.Clear.{page_in, Clears, clear_from-Clears}

align_up-aligned : (x : ℕ) → align_up x page_size % page_size ≡ 0
unfolding align_up
align_up-aligned x = omega arith

size_of-aligned : (es : List Entry) → size_of es % page_size ≡ 0
unfolding size_of
size_of-aligned es = align_up-aligned _

full_bits : all_below 8 (λ j. not (u8 (bit_and 0xff (2 ^ j)) == 0)) ≡ true
unfolding all_below
full_bits = refl

full_bit : (j : ℕ) → j < 8 → (u8 (bit_and 0xff (2 ^ j)) == 0) ≡ false
full_bit j lt =
    ground (arith, all_below-true 8 (λ j. not (u8 (bit_and 0xff (2 ^ j)) == 0)) j full_bits)

module _ (usable : ℕ) where
  -- Some usable region holds page `q`: from the base of its entry on, or behind the bitmap in the
  -- entry at index `chosen`.
  unfoldable pub covers : (size chosen i : ℕ) → List Entry → ℕ → Bool
  covers size chosen i [] q = false
  covers size chosen i (e ∷ es) q =
      (e.kind == usable
        && page_in (if i == chosen then e.base + size else e.base) (e.base + e.length) q)
      || covers size chosen (i + 1) es q

  -- Usable entries are aligned to pages and stay clear of the end of the address space, and the
  -- one at index `chosen` has room for `size` bytes.
  abbrev pub Fits : (size chosen i : ℕ) → List Entry → Type 0
  Fits size chosen i [] = Unit {0}
  Fits size chosen i (e ∷ es) =
      (e.kind ≡ usable → (e.base % page_size ≡ 0) × (e.base + e.length + page_size < 2 ^ 64))
      × ((e.kind ≡ usable) → i ≡ chosen → size ≤ e.length)
      × Fits size chosen (i + 1) es

  clear_own-Clears :
      (size : ℕ) (e : Entry) (s : Pmm)
      → IsBytes s.bitmap
      → size % page_size ≡ 0
      → e.base % page_size ≡ 0
      → e.base + e.length + page_size < 2 ^ 64
      → size ≤ e.length
      → Clears
          (e.base + size)
          (e.base + e.length)
          s
          (clear_from (u64 (e.base + size)) (sub64 e.length size) s)
  clear_own-Clears size e s bytes sal al fits room =
      let start : u64 (e.base + size) ≡ e.base + size = omega arith in
      let rest : sub64 e.length size ≡ e.length - size = omega arith in
      let whole : e.base + size + (e.length - size) ≡ e.base + e.length = omega arith in
      rw (start, rest)
        (subst (λ hi. Clears (e.base + size) hi s (clear_from (e.base + size) (e.length - size) s))
          whole
          (clear_from-Clears (e.base + size) (e.length - size) s bytes (omega arith) (omega arith)))

  -- What one round of the loop does to the view.
  record Round (size : ℕ) (own : Bool) (e : Entry) (s : Pmm) : Type 0 where
    bytes : IsBytes (clear_entry usable size own e s).bitmap
    view :
        (q : ℕ)
        → is_free (clear_entry usable size own e s) q ≡ (
            (e.kind == usable
              && page_in (if own then e.base + size else e.base) (e.base + e.length) q)
            || is_free s q)

  clear_entry-Round :
      (size : ℕ) (own : Bool) (e : Entry) (s : Pmm)
      → IsBytes s.bitmap
      → size % page_size ≡ 0
      → (e.kind ≡ usable → (e.base % page_size ≡ 0) × (e.base + e.length + page_size < 2 ^ 64))
      → (e.kind ≡ usable → own ≡ true → size ≤ e.length)
      → Round size own e s
  unfolding clear_entry
  clear_entry-Round size own e s bytes sal al room = elim (Bool-cases (e.kind == usable)) [
    | inl is ↦ usable_round own (ground arith) (room (ground arith))
    | inr other ↦ record { bytes = ground (arith, bytes); view = λ q. ground arith }
  ]
    where
      usable_round :
          (own : Bool) → e.kind ≡ usable → (own ≡ true → size ≤ e.length) → Round size own e s
      usable_round true is fit =
          let c = clear_own-Clears size e s bytes sal (al is).0 (al is).1 (fit refl) in
          record { bytes = λ i. ground (arith, c.bytes i); view = λ q. ground (arith, c.view q) }
      usable_round false is fit =
          let c = clear_from-Clears e.base e.length s bytes (al is).0 (al is).1 in
          record { bytes = λ i. ground (arith, c.bytes i); view = λ q. ground (arith, c.view q) }

  record Rounds (size chosen i : ℕ) (es : List Entry) (s : Pmm) : Type 0 where
    bytes : IsBytes (clear_entries usable size chosen i es s).bitmap
    view :
        (q : ℕ)
        → is_free (clear_entries usable size chosen i es s) q
          ≡ (covers size chosen i es q || is_free s q)

  clear_entries-Rounds :
      (size chosen i : ℕ) (es : List Entry) (s : Pmm)
      → IsBytes s.bitmap
      → size % page_size ≡ 0
      → Fits size chosen i es
      → Rounds size chosen i es s
  unfolding clear_entries covers
  clear_entries-Rounds size chosen i [] s bytes sal fits = record {
    bytes = bytes;
    view = λ q. refl;
  }
  clear_entries-Rounds size chosen i (e ∷ es) s bytes sal (al, room, fits) =
      let own : Bool = i == chosen in
      let one : Round size own e s =
        clear_entry-Round size own e s bytes sal al
          (λ is mine. room is ((==_iff i chosen).0 mine)) in
      let rest =
        clear_entries-Rounds size chosen (i + 1) es (clear_entry usable size own e s) one.bytes sal
          fits in
      record { bytes = rest.bytes; view = λ q. ground (arith, rest.view q, one.view q) }

  full_bitmap-view :
      (ram : Cells ℕ) (size base q : ℕ)
      → IsBytes ram
      → (q / 8 < size → is_free (full_bitmap usable ram size base) q ≡ false)
        × IsBytes (full_bitmap usable ram size base).bitmap
  unfolding full_bitmap is_free pmm_bitmap_get
  full_bitmap-view ram size base q bytes = (
    λ lt. ground (arith, memset-block ram base 0xff size (base + q / 8), full_bit (q % 8)),
    λ b. ground (arith, memset-block ram base 0xff size (base + b), bytes (base + b)),
  )

  find_entry-ne-none :
      (size i : ℕ) (es : List Entry) (k : ℕ) (e : Entry)
      → get_elem? es k ≡ some e
      → e.kind ≡ usable
      → size ≤ e.length
      → find_entry usable size i es ≢ none
  unfolding find_entry
  find_entry-ne-none size i [] k e at is room = cc
  find_entry-ne-none size i (x ∷ es) zero e at is room = ground arith
  find_entry-ne-none size i (x ∷ es) (suc k) e at is room =
      ground (arith, find_entry-ne-none size (i + 1) es k e at is room)

  -- What the boot loader promises of usable entries: they are aligned to pages and stay clear of
  -- the end of the address space.
  abbrev pub Aligned : List Entry → Type 0
  Aligned [] = Unit {0}
  Aligned (e ∷ es) =
      (e.kind ≡ usable → (e.base % page_size ≡ 0) × (e.base + e.length + page_size < 2 ^ 64))
      × Aligned es

  Fits-later :
      (size chosen i : ℕ) (es : List Entry) → chosen < i → Aligned es → Fits size chosen i es
  Fits-later size chosen i [] lt al = tt
  Fits-later size chosen i (e ∷ es) lt (here, al) =
      (here, λ is eq. absurd (omega arith), Fits-later size chosen (i + 1) es (omega arith) al)

  pub find_entry-cases :
      (size i : ℕ) (e : Entry) (es : List Entry) {r : ℕ × Entry}
      → find_entry usable size i (e ∷ es) ≡ some r
      → ((i ≡ r.0) × (e ≡ r.1) × (e.kind ≡ usable) × (size ≤ e.length))
        ⊎ (find_entry usable size (i + 1) es ≡ some r)
  unfolding find_entry
  find_entry-cases size i e es found =
      elim (Bool-cases (e.kind == usable && not (ltb e.length size))) [
        | inl hit ↦ inl (ground arith)
        | inr miss ↦ inr (ground arith)
      ]

  pub find_entry-Fits :
      (size i : ℕ) (es : List Entry) {r : ℕ × Entry}
      → find_entry usable size i es ≡ some r
      → Aligned es
      → (i ≤ r.0) × Fits size r.0 i es
  unfolding find_entry
  find_entry-Fits size i [] found al = cc
  find_entry-Fits size i (e ∷ es) {r} found (here, al) = elim (find_entry-cases size i e es found) [
    | inl (at, _, _, room) ↦
        (omega arith, (here, λ is eq. room, Fits-later size r.0 (i + 1) es (omega arith) al))
    | inr next ↦
        let (le, fits) = find_entry-Fits size (i + 1) es next al in
        (omega arith, (here, λ is eq. absurd (omega arith), fits))
  ]

  -- If some usable entry has room for the bitmap, `pmm_init` returns, and the bits of the bitmap are
  -- those that `covers` says for the entry that the search finds.
  pub pmm_init-covers :
      (ram : Cells ℕ) (es : List Entry) (k : ℕ) (e : Entry)
      → IsBytes ram
      → Aligned es
      → get_elem? es k ≡ some e
      → e.kind ≡ usable
      → size_of es ≤ e.length
      → (r : ℕ × Entry) × (s : Pmm) × (pmm_init usable ram es ≡ some s)
        × (find_entry usable (size_of es) 0 es ≡ some r)
        × (s
            ≡ clear_entries usable
                (size_of es)
                r.0
                0
                es
                (full_bitmap usable ram (size_of es) r.1.base))
        × IsBytes s.bitmap
        × ((q : ℕ) → q / 8 < size_of es → is_free s q ≡ covers (size_of es) r.0 0 es q)
  unfolding pmm_init
  pmm_init-covers ram es k e bytes al at is room =
      elim (Option-cases (find_entry usable (size_of es) 0 es)) [
        | inl missing ↦ absurd (find_entry-ne-none (size_of es) 0 es k e at is room missing)
        | inr ((chosen, own), found) ↦
            let s : Pmm = full_bitmap usable ram (size_of es) own.base in
            let full = full_bitmap-view ram (size_of es) own.base in
            let done =
              clear_entries-Rounds (size_of es) chosen 0 es s (full 0 bytes).1 (size_of-aligned es)
                (find_entry-Fits (size_of es) 0 es found al).1 in
            (
              (chosen, own),
              clear_entries usable (size_of es) chosen 0 es s,
              rw (found, pmm_init),
              found,
              refl,
              done.bytes,
              λ q lt. ground (arith, done.view q, (full q bytes).0 lt),
            )
      ]
