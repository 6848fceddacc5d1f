-- ===== src/Fs/Vfs/Find/Search.antt =====
-- The search of vfs_find for a mount.
use mathlib.Core.Bool.{false}
use arcane_os.Prelude.{
  ℕ, zero, suc, ◌+◌, ◌≤◌, ◌<◌, ◌≡◌, ◌≢◌, ◌⊎◌, refl, ◌∙◌, sym, ap, arith, inl, inr, Option, some,
  none, List, [], ◌∷◌, length, ◌==◌, if◌then◌else◌, Cells,
}
use arcane_os.Prelude.State.{State}
use arcane_os.Strings.{int_limit, strcmp}
use arcane_os.Strings.CString.{IsString, strcmp-Decides}
use arcane_os.Strings.CString.Copies.{IsString-frame}
use arcane_os.Fs.Vfs.{Files, find_mount}

-- From `x` the links lead through these mounts to NULL and never to `head`; the name of each is a
-- text outside the addresses from `low` up to `high`.
abbrev pub Mounted :
    (cells next : Cells ℕ) → (head low high : ℕ) → (x : ℕ) → List (ℕ × List ℕ) → Type 0
Mounted cells next head low high x [] = x ≡ 0
Mounted cells next head low high x ((v, n) ∷ ms) =
    (x ≡ v)
    × (v ≢ 0)
    × (next v ≢ head)
    × IsString cells v 0 n
    × (length n < int_limit)
    × ((v + length n < low) ⊎ (high ≤ v))
    × Mounted cells next head low high (next v) ms

-- `r` is the first mount of that name.
abbrev pub FirstMount : List (ℕ × List ℕ) → (name : List ℕ) → Option ℕ → Type 0
FirstMount [] name r = r ≡ none
FirstMount ((v, n) ∷ ms) name r = ((n ≡ name) × (r ≡ some v)) ⊎ ((n ≢ name) × FirstMount ms name r)

pub FirstMount-unique :
    (ms : List (ℕ × List ℕ)) (name : List ℕ) (r r' : Option ℕ)
    → FirstMount ms name r
    → FirstMount ms name r'
    → r ≡ r'
FirstMount-unique [] name r r' e e' = e ∙ sym e'
FirstMount-unique ((v, n) ∷ ms) name r r' (inl (_, e)) (inl (_, e')) = e ∙ sym e'
FirstMount-unique ((v, n) ∷ ms) name r r' (inl (same, _)) (inr (ne, _)) = absurd (ne same)
FirstMount-unique ((v, n) ∷ ms) name r r' (inr (ne, _)) (inl (same, _)) = absurd (ne same)
FirstMount-unique ((v, n) ∷ ms) name r r' (inr (_, first)) (inr (_, first')) =
    FirstMount-unique ms name r r' first first'

pub FirstMount-some :
    (m next : Cells ℕ) (head low high x : ℕ) (ms : List (ℕ × List ℕ)) (name : List ℕ) (v : ℕ)
    → Mounted m next head low high x ms
    → FirstMount ms name (some v)
    → (v == 0) ≡ false
FirstMount-some m next head low high x [] name v at e = absurd (cc)
FirstMount-some m next head low high x ((w, n) ∷ ms) name v (_, nw, _, _, _, _, _) (inl (_, e)) =
    let same : w ≡ v = cc in ground arith
FirstMount-some m next head low high x ((w, n) ∷ ms) name v (_, _, _, _, _, _, more)
      (inr (_, first)) =
    FirstMount-some m next head low high (next w) ms name v more first

pub Mounted-frame :
    (m m' next : Cells ℕ) (head low high x : ℕ) (ms : List (ℕ × List ℕ))
    → ((a : ℕ) → (a < low) ⊎ (high ≤ a) → m' a ≡ m a)
    → Mounted m next head low high x ms
    → Mounted m' next head low high x ms
Mounted-frame m m' next head low high x [] same at = at
Mounted-frame m m' next head low high x ((v, n) ∷ ms) same (at, nv, nh, str, short, inl lo, rest) =
    (
      at,
      nv,
      nh,
      IsString-frame m m' v v 0 n (λ k _ hi. same (v + k) (inl (omega arith))) str,
      short,
      inl lo,
      Mounted-frame m m' next head low high (next v) ms same rest,
    )
Mounted-frame m m' next head low high x ((v, n) ∷ ms) same (at, nv, nh, str, short, inr hi, rest) =
    (
      at,
      nv,
      nh,
      IsString-frame m m' v v 0 n (λ k _ _. same (v + k) (inr (omega arith))) str,
      short,
      inr hi,
      Mounted-frame m m' next head low high (next v) ms same rest,
    )

module _ {S : Type 0} where
  -- The result of the search: without such a mount, NULL is read.
  abbrev pub found_mount : Option ℕ → State (Files S) ℕ
  found_mount none s = none
  found_mount (some v) s = some (v, s)

  find_mount-null : (fuel name : ℕ) (s : Files S) → find_mount fuel 0 name s ≡ none
  unfolding find_mount
  find_mount-null zero name s = refl
  find_mount-null (suc fuel) name s =
      elim (strcmp s.cells 0 name)
        as (λ o.
          elim o as (λ _. Option (ℕ × Files S)) [ none ↦ none | some differ ↦ none ] ≡ none) [
            | none ↦ refl
            | some d ↦ refl
          ]

  -- What find_mount does with the result of strcmp.
  abbrev compared : Option ℕ → (v fuel name : ℕ) → State (Files S) ℕ
  compared o v fuel name s =
      let next = s.mounts.next v in
      let rest = find_mount fuel next name s in
      elim o [
        | none ↦ none
        | some differ ↦
            if v == 0
            then none
            else if differ == 0
            then some (v, s)
            else if next == s.vfs_head
            then some (0, s)
            else rest
      ]

  -- The search of vfs_find ends at the first mount of the name; without one it reads NULL.
  pub find_mount-FirstMount :
      (fuel : ℕ) (s : Files S) (low high x : ℕ) (ms : List (ℕ × List ℕ)) (name : ℕ) (text : List ℕ)
      → Mounted s.cells s.mounts.next s.vfs_head low high x ms
      → IsString s.cells name 0 text
      → length ms < fuel
      → (r : Option ℕ) × FirstMount ms text r × (find_mount fuel x name s ≡ found_mount r s)
  unfolding find_mount
  find_mount-FirstMount zero s low high x ms name text at str lt = absurd (omega arith)
  find_mount-FirstMount (suc fuel) s low high x [] name text at str lt =
      (none, refl, ap (λ y. find_mount (suc fuel) y name s) at ∙ find_mount-null (suc fuel) name s)
  find_mount-FirstMount (suc fuel) s low high x ((v, n) ∷ ms) name text
        (at, nv, nh, here, short, _, more) str lt =
      let some_mount : (v == 0) ≡ false = ground arith in
      let inside : (s.mounts.next v == s.vfs_head) ≡ false = ground arith in
      let (c, compares, says) = strcmp-Decides s.cells v name n text here str short in
      let step =
        ap (λ y. find_mount (suc fuel) y name s) at ∙ ap (λ o. compared o v fuel name s) compares in
      elim says [
        | inl (e, same) ↦ (some v, inl (same, refl), step ∙ rw (some_mount, e) refl)
        | inr (e, differ) ↦
            let (r, first, done) =
              find_mount-FirstMount fuel s low high (s.mounts.next v) ms name text more str
                (omega arith) in
            (r, inr (differ, first), step ∙ rw (some_mount, e, inside) done)
      ]
