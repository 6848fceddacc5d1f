-- ===== src/Mm/Pmm/Scan.antt =====
-- The search of `pmm_alloc` and what the allocator promises, in kernel/src/mm/pmm.c.
use arcane_os.Prelude.{
  ℕ, zero, suc, ◌+◌, ◌*◌, ◌/◌, ◌^◌, ◌≤◌, ◌<◌, ◌≡◌, refl, true, false, some, arith, u64, ◌∙◌, ◌==◌,
  if◌then◌else◌, Bool-cases, inl, inr,
}
use arcane_os.Mm.Page.{page_size}
use arcane_os.Mm.Pmm.{
  Pmm, scan, take_page, page_limit, pmm_alloc, pmm_free, pmm_bitmap_get, pmm_bitmap_set,
  pmm_bitmap_clear,
}
use arcane_os.Mm.Pmm.Bitmap.{
  IsBytes, is_free, is_free-set, is_free-clear, set-IsBytes, clear-IsBytes,
}

-- `p` is the first free page from `idx` on.
pub record IsFirstFree (s : Pmm) (idx p : ℕ) : Type 0 where
  pub from : idx ≤ p
  pub free : is_free s p ≡ true
  pub taken : (q : ℕ) → idx ≤ q → q < p → is_free s q ≡ false

scan-hit : (fuel : ℕ) (s : Pmm) (idx : ℕ) → is_free s idx ≡ true → scan (suc fuel) s idx ≡ some idx
unfolding scan is_free
scan-hit fuel s idx free = rw free

scan-miss :
    (fuel : ℕ) (s : Pmm) (idx : ℕ)
    → is_free s idx ≡ false
    → idx + 1 < 2 ^ 64
    → scan (suc fuel) s idx ≡ scan fuel s (idx + 1)
unfolding scan is_free
scan-miss fuel s idx busy fits = let wrap : u64 (idx + 1) ≡ idx + 1 = omega arith in rw (busy, wrap)

IsFirstFree-miss :
    {s : Pmm} {idx p : ℕ} → is_free s idx ≡ false → IsFirstFree s (idx + 1) p → IsFirstFree s idx p
IsFirstFree-miss {idx} busy first = record {
  from = omega (arith, first.from);
  free = first.free;
  taken = λ q a b. ground (arith, first.taken q);
}

-- With a free page `f` within reach of the fuel the search ends, at the first free page.
scan-IsFirstFree :
    (fuel : ℕ) (s : Pmm) (idx f : ℕ)
    → idx ≤ f
    → f < idx + fuel
    → f < page_limit
    → is_free s f ≡ true
    → (p : ℕ) × (scan fuel s idx ≡ some p) × IsFirstFree s idx p × (p ≤ f)
scan-IsFirstFree zero s idx f le lt lim free = absurd (omega arith)
scan-IsFirstFree (suc fuel) s idx f le lt lim free = elim (Bool-cases (is_free s idx)) [
  | inl here ↦ (
    idx,
    scan-hit fuel s idx here,
    record { from = omega arith; free = here; taken = λ q a b. absurd (omega arith) },
    le,
  )
  | inr busy ↦
      let more : idx + 1 ≤ f = ground arith in
      let (p, found, first, below) =
        scan-IsFirstFree fuel s (idx + 1) f more (omega arith) lim free in
      (p, scan-miss fuel s idx busy (omega arith) ∙ found, IsFirstFree-miss busy first, below)
]

-- What `pmm_alloc` returns from `s`: the first free page at or after `last_free`, now taken and
-- remembered as the start of the next search; no other page changes.
pub record Allocates (s : Pmm) (p : ℕ) (t : Pmm) : Type 0 where
  pub returns : pmm_alloc s ≡ some (p * page_size, t)
  pub first : IsFirstFree s s.last_free p
  pub cursor : t.last_free ≡ p
  pub view : (q : ℕ) → is_free t q ≡ (if p == q then false else is_free s q)
  pub bytes : IsBytes t.bitmap

found-Allocates :
    (s : Pmm) (p : ℕ)
    → IsBytes s.bitmap
    → p < page_limit
    → scan page_limit s s.last_free ≡ some p
    → IsFirstFree s s.last_free p
    → Allocates s p (take_page s p).1
unfolding pmm_alloc pmm_bitmap_set is_free pmm_bitmap_get
found-Allocates s p bytes lim found first = record {
  returns =
      let whole : u64 (p * page_size) ≡ p * page_size = omega arith in rw (found, pmm_alloc, whole);
  first = first;
  cursor = refl;
  view = λ q. is_free-set s p q bytes;
  bytes = set-IsBytes s p bytes;
}

-- If some page `f` from `last_free` on is free, `pmm_alloc` returns: it takes the first free page
-- at or after `last_free`, which is not above `f`, and changes the state of no other page.
pub pmm_alloc-Allocates :
    (s : Pmm) (f : ℕ)
    → IsBytes s.bitmap
    → s.last_free ≤ f
    → f < page_limit
    → is_free s f ≡ true
    → (p : ℕ) × (t : Pmm) × Allocates s p t × (p ≤ f)
pmm_alloc-Allocates s f bytes le lim free =
    let (p, found, first, below) =
      scan-IsFirstFree page_limit s s.last_free f le (omega arith) lim free in
    (p, (take_page s p).1, found-Allocates s p bytes (omega arith) found first, below)

-- `pmm_free` of an address frees the page that holds it and no other, and moves no cursor.
pub pmm_free-is_free :
    (s : Pmm) (addr q : ℕ)
    → IsBytes s.bitmap
    → (is_free (pmm_free s addr) q ≡ (if addr / page_size == q then true else is_free s q))
      × ((pmm_free s addr).last_free ≡ s.last_free)
      × IsBytes (pmm_free s addr).bitmap
unfolding pmm_free pmm_bitmap_clear
pmm_free-is_free s addr q bytes =
    (is_free-clear s (addr / page_size) q bytes, refl, clear-IsBytes s (addr / page_size) bytes)

-- The view of the bitmap after a page is taken and given back.
pub pmm_free-pmm_alloc :
    {s t : Pmm} {p : ℕ} (q : ℕ)
    → Allocates s p t
    → p < page_limit
    → is_free (pmm_free t (p * page_size)) q ≡ is_free s q
pmm_free-pmm_alloc {s} {t} {p} q got lim =
    ground (arith, (pmm_free-is_free t (p * page_size) q got.bytes).0, got.view q, got.first.free)

-- The search never looks below the cursor: a page under `last_free` that is freed is not returned
-- by the next `pmm_alloc`, however little memory is left.
pub pmm_alloc_skips_below :
    (s : Pmm) {t : Pmm} (p r : ℕ)
    → Allocates (pmm_free s (p * page_size)) r t
    → IsBytes s.bitmap
    → p < s.last_free
    → (is_free (pmm_free s (p * page_size)) p ≡ true) × (p < r)
pmm_alloc_skips_below s p r got bytes low =
    let (now, same, _) = pmm_free-is_free s (p * page_size) p bytes in
    (ground (arith, now), omega (arith, got.first.from, same))

-- `n` free pages below `lim`, none before `from`.
abbrev pub Supply : ℕ → Pmm → ℕ → ℕ → Type 0
Supply lim s from zero = Unit
Supply lim s from (suc n) =
    (f : ℕ) × (from ≤ f) × (f < lim) × (is_free s f ≡ true) × Supply lim s (f + 1) n

pub Supply-mono :
    (lim : ℕ) (s t : Pmm) (a b n : ℕ)
    → b ≤ a
    → ((q : ℕ) → a ≤ q → is_free t q ≡ is_free s q)
    → Supply lim s a n
    → Supply lim t b n
Supply-mono lim s t a b zero le same u = tt
Supply-mono lim s t a b (suc n) le same (f, low, high, free, rest) = (
  f,
  omega arith,
  high,
  same f low ∙ free,
  Supply-mono lim s t (f + 1) (f + 1) n (omega arith) (λ q h. same q (omega arith)) rest,
)

-- A supply of n + 1 pages lets `pmm_alloc` succeed and leaves a supply of n.
pub Supply-pmm_alloc :
    {s : Pmm} (lim n : ℕ)
    → IsBytes s.bitmap
    → lim ≤ page_limit
    → Supply lim s s.last_free (suc n)
    → (p : ℕ) × (t : Pmm) × Allocates s p t × (p < lim) × Supply lim t t.last_free n
Supply-pmm_alloc {s} lim n bytes small (f, low, high, free, rest) =
    let (p, t, got, below) = pmm_alloc-Allocates s f bytes low (omega arith) free in
    (
      p,
      t,
      got,
      omega arith,
      Supply-mono lim s t (f + 1) t.last_free n (omega (arith, got.cursor))
          (λ q h. ground (arith, got.view q)) rest,
    )
