-- ===== src/Mm/Pmm/Init/Clear.antt =====
-- Which pages `pmm_init` leaves free.
use arcane_os.Prelude.{
  ℕ, zero, suc, ◌+◌, ◌*◌, ◌/◌, ◌%◌, ◌^◌, ◌≤◌, ◌<◌, ◌≡◌, Bool, u64, ltb, leb, ◌&&◌, ◌||◌, arith,
  Bool-cases, inl, inr, ltb→lt, ltb→le,
}
use arcane_os.Mm.Page.{page_size}
use arcane_os.Mm.Pmm.{Pmm, pmm_bitmap_get, pmm_bitmap_clear}
use arcane_os.Mm.Pmm.Bitmap.{IsBytes, is_free, is_free-clear, clear-IsBytes}
use mathlib.Core.Path.{subst}
use arcane_os.Mm.Pmm.Init.{clear_pages, clear_from, start_search}

-- Page `q` begins at or after `lo` and before `hi`.
abbrev pub page_in : (lo hi q : ℕ) → Bool
page_in lo hi q = leb lo (q * page_size) && ltb (q * page_size) hi

pub record Clears (lo hi : ℕ) (s t : Pmm) : Type 0 where
  pub bytes : IsBytes t.bitmap
  pub view : (q : ℕ) → is_free t q ≡ (page_in lo hi q || is_free s q)

Clears-none : (lo hi : ℕ) (s : Pmm) → IsBytes s.bitmap → hi ≤ lo → Clears lo hi s s
Clears-none lo hi s bytes le = record { bytes = bytes; view = λ q. ground arith }

Clears-cons :
    (lo hi : ℕ) (s t : Pmm)
    → IsBytes s.bitmap
    → lo % page_size ≡ 0
    → lo < hi
    → Clears (lo + page_size) hi (pmm_bitmap_clear s (lo / page_size)) t
    → Clears lo hi s t
Clears-cons lo hi s t bytes al lt rest = record {
  bytes = rest.bytes;
  view = λ q. ground (arith, rest.view q, is_free-clear s (lo / page_size) q bytes);
}

clear_pages-Clears :
    (r base length j : ℕ) (s : Pmm)
    → IsBytes s.bitmap
    → base % page_size ≡ 0
    → j % page_size ≡ 0
    → base + length + page_size < 2 ^ 64
    → length < j + r * page_size
    → Clears (base + j) (base + length) s (clear_pages r base length j s)
unfolding clear_pages
clear_pages-Clears zero base length j s bytes ab aj fits enough =
    Clears-none (base + j) (base + length) s bytes (omega arith)
clear_pages-Clears (suc r) base length j s bytes ab aj fits enough =
    elim (Bool-cases (ltb j length)) [
      | inl more ↦
          let lt : j < length = ltb→lt j length more in
          let here : u64 (base + j) ≡ base + j = omega arith in
          let on : u64 (j + page_size) ≡ j + page_size = omega arith in
          let s' : Pmm = pmm_bitmap_clear s ((base + j) / page_size) in
          rw (more, here, on)
            (Clears-cons (base + j) (base + length) s _ bytes (omega arith) (omega arith) (
              subst
                (λ lo. Clears lo (base + length) s' (clear_pages r base length (j + page_size) s'))
                (omega arith)
                (clear_pages-Clears r base length (j + page_size) s'
                  (clear-IsBytes s ((base + j) / page_size) bytes) ab (omega arith) fits
                  (omega arith))))
      | inr done ↦
          rw done (Clears-none (base + j) (base + length) s bytes (omega (arith, ltb→le j length)))
    ]

start_search-bitmap : (base : ℕ) (s : Pmm) → (start_search base s).bitmap ≡ s.bitmap
unfolding start_search
start_search-bitmap base s = ground arith

is_free-bitmap : (s t : Pmm) (q : ℕ) → t.bitmap ≡ s.bitmap → is_free t q ≡ is_free s q
unfolding is_free pmm_bitmap_get
is_free-bitmap s t q e = rw e

-- The pages of one region, whatever the cursor was.
pub clear_from-Clears :
    (base length : ℕ) (s : Pmm)
    → IsBytes s.bitmap
    → base % page_size ≡ 0
    → base + length + page_size < 2 ^ 64
    → Clears base (base + length) s (clear_from base length s)
unfolding clear_from
clear_from-Clears base length s bytes ab fits = record {
  bytes = done.bytes;
  view = λ q. ground (arith, done.view q, is_free-bitmap s t q same);
}
  where
    t : Pmm
    t = start_search base s

    same : t.bitmap ≡ s.bitmap
    same = start_search-bitmap base s

    done :
        Clears (base + 0) (base + length) t (clear_pages (length / page_size + 1) base length 0 t)
    done =
        clear_pages-Clears (length / page_size + 1) base length 0 t (λ i. rw same (bytes i)) ab
          (omega arith) fits (omega arith)
