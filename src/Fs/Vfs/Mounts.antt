-- ===== src/Fs/Vfs/Mounts.antt =====
-- The chain of mounts from vfs_head to NULL, and vfs_register on it.
use arcane_os.Prelude.{
  ℕ, zero, suc, ◌^◌, ◌<◌, ◌≡◌, ◌≢◌, ◌⊎◌, inl, inr, refl, ◌∙◌, sym, ap, arith, false, some, List, [],
  ◌∷◌, ◌++◌, length, Cells, ◌==◌, write, write_self, write-ne,
}
use arcane_os.Rings.Seg.{NotIn, Distinct}
use arcane_os.Fs.Vfs.{Files, mount_limit, last_mount, vfs_register}

-- From `head` the links lead through these mounts, none of them NULL, to NULL.
unfoldable pub Chain : (next : Cells ℕ) → (head : ℕ) → List ℕ → Type 0
Chain next head [] = head ≡ 0
Chain next head (x ∷ xs) = (head ≡ x) × (x ≢ 0) × Chain next (next x) xs

-- The mount that the loop of vfs_register stops at, with another one behind it.
append_last :
    (fuel : ℕ) (next : Cells ℕ) (new x : ℕ) (xs : List ℕ)
    → Chain next x (x ∷ xs)
    → Distinct (x ∷ xs)
    → NotIn new (x ∷ xs)
    → new ≢ 0
    → next new ≡ 0
    → length xs < fuel
    → (last : ℕ) × (last_mount fuel x next ≡ some last)
      × Chain (write next last new) x (x ∷ (xs ++ new ∷ []))
      × ((z : ℕ) → NotIn z (x ∷ xs) → z ≢ last)
unfolding Chain NotIn Distinct last_mount
append_last zero next new x xs chain distinct away ne ends lt = absurd (omega arith)
append_last (suc f) next new x [] (_, nx, end) distinct away ne ends lt = (
  x,
  ground (arith, end),
  (refl, nx, (write_self next x new, ne, write-ne next new (λ e. away.0 (sym e)) ∙ ends)),
  λ z out. out.0,
)
append_last (suc f) next new x (y ∷ ys) (_, nx, (to, ny, chain)) (first, distinct) (_, away) ne ends
      lt =
    let (last, found, longer, members) =
      append_last f next new y ys (refl, ny, chain) distinct away ne ends (omega arith) in
    let other : last ≢ x = λ e. members x first (sym e) in
    let goes_on : (next x == 0) ≡ false = ground (arith, to, ny) in
    (
      last,
      rw (goes_on, to) found,
      (refl, nx, (write-ne next new other ∙ to, ny, longer.2)),
      λ z out. members z out.1,
    )

nonempty : {x : ℕ} {xs : List ℕ} → (x ∷ xs) ≢ []
nonempty e = omega (arith, ap length e)

-- vfs_register returns and puts a mount that is not yet in the chain behind the others, where its
-- own link to the next one is NULL or the chain is empty.
pub vfs_register-Chain :
    {S : Type 0} (s : Files S) (vfs : ℕ) (mounts : List ℕ)
    → Chain s.mounts.next s.vfs_head mounts
    → Distinct mounts
    → NotIn vfs mounts
    → vfs ≢ 0
    → (s.mounts.next vfs ≡ 0) ⊎ (mounts ≡ [])
    → length mounts < 2 ^ 64
    → (t : Files S) × (vfs_register vfs s ≡ some (tt, t))
      × Chain t.mounts.next t.vfs_head (mounts ++ vfs ∷ [])
unfolding Chain vfs_register
vfs_register-Chain s vfs [] chain distinct away ne ends few = (
  record s { mounts = record s.mounts { next = write s.mounts.next vfs 0 }; vfs_head = vfs },
  rw (chain, vfs_register) refl,
  (refl, ne, write_self s.mounts.next vfs 0),
)
vfs_register-Chain s vfs (x ∷ xs) chain distinct away ne (inr e) few = absurd (nonempty e)
vfs_register-Chain s vfs (x ∷ xs) chain distinct away ne (inl ends) few =
    let (last, found, longer, _) =
      append_last mount_limit s.mounts.next vfs x xs (refl, chain.1, chain.2) distinct away ne ends
        (omega arith) in
    let some_mount : (s.vfs_head == 0) ≡ false = ground (arith, chain.0, chain.1) in
    (
      record s { mounts = record s.mounts { next = write s.mounts.next last vfs } },
      rw (vfs_register, some_mount, chain.0, found) refl,
      (chain.0, chain.1, longer.2),
    )
