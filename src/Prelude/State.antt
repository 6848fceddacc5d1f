-- ===== src/Prelude/State.antt =====
-- Code that changes a state and may fail to return, for `do` blocks.
use mathlib.Core.Option.{Option, none, some}
use mathlib.Core.Path.{◌≡◌, ap}
use mathlib.Core.Bool.{Bool, true, false}

-- `none`: a failed assertion, a null pointer, or a loop that does not end.
abbrev pub State : Type 0 → Type 0 → Type 0
State S A = S → Option (A × S)

module _ {S : Type 0} where
  abbrev pub pure : {A : Type 0} → A → State S A
  pure a s = some (a, s)

  abbrev pub fail : {A : Type 0} → State S A
  fail s = none

  infixl 5 ◌>>=◌ ◌>>◌
  abbrev pub ◌>>=◌ : {A B : Type 0} → State S A → (A → State S B) → State S B
  m >>= f = λ s. elim (m s) [ none ↦ none | some (a, t) ↦ f a t ]

  abbrev pub ◌>>◌ : {A B : Type 0} → State S A → State S B → State S B
  m >> k = m >>= λ _. k

  abbrev pub gets : {A : Type 0} → (S → A) → State S A
  gets f s = some (f s, s)

  abbrev pub modify : (S → S) → State S (Unit {0})
  modify f s = some (tt, f s)

  -- ASSERT
  abbrev pub assert : Bool → State S (Unit {0})
  assert true = pure tt
  assert false = fail

  abbrev pub when : Bool → State S (Unit {0}) → State S (Unit {0})
  when true m = m
  when false m = pure tt

  -- A call that is known to return, in front of the rest of the code.
  pub >>=-run :
      {A B : Type 0} (m : State S A) (k : A → State S B) {s t : S} {a : A}
      → m s ≡ some (a, t)
      → (m >>= k) s ≡ k a t
  >>=-run m k {s} e = ap (λ o. elim o [ none ↦ none | some (a, t) ↦ k a t ]) e
