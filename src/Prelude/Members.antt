-- ===== src/Prelude/Members.antt =====
-- Membership by recursion, and what a selection keeps of it.
use Prim.Native.Nat.{◌≤◌}
use mathlib.Core.Path.{◌≡◌, refl, subst}
use mathlib.Core.Logic.{◌⊎◌, inl, inr}
use mathlib.Core.Bool.{Bool, true, false}
use mathlib.Core.Option.{some}
use mathlib.Core.List.{List, [], ◌∷◌}
use native.Mathlib.Omega.{arith}
use evm_tx_sender.Prelude.Tests.{Bool-cases}
use evm_tx_sender.Prelude.Lists.{find?, select, count_if, length, All}

abbrev pub In : {A : Type 0} → A → List A → Type 0
In a [] = ⊥
In a (x ∷ xs) = (x ≡ a) ⊎ In a xs

module _ {A : Type 0} where
  pub All-In : (P : A → Type 0) (a : A) (xs : List A) → All P xs → In a xs → P a
  All-In P a [] h i = absurd i
  All-In P a (x ∷ xs) h (inl e) = subst P e h.0
  All-In P a (x ∷ xs) h (inr i) = All-In P a xs h.1 i

  kept :
      (p : A → Bool) (a x : A) (xs : List A)
      → (In a (select p xs) → In a xs × (p a ≡ true))
      → p x ≡ true
      → In a (x ∷ select p xs)
      → In a (x ∷ xs) × (p a ≡ true)
  kept p a x xs rest e (inl same) = (inl same, rw (← same) e)
  kept p a x xs rest e (inr i) = let (there, passes) = rest i in (inr there, passes)

  pub In-select : (p : A → Bool) (a : A) (xs : List A) → In a (select p xs) → In a xs × (p a ≡ true)
  In-select p a [] i = absurd i
  In-select p a (x ∷ xs) i = elim (Bool-cases (p x)) [
    | inl e ↦ kept p a x xs (In-select p a xs) e (rw e at i)
    | inr e ↦ let (there, passes) = In-select p a xs (rw e at i) in (inr there, passes)
  ]

  pub select-In : (p : A → Bool) (a : A) (xs : List A) → In a xs → p a ≡ true → In a (select p xs)
  select-In p a [] i h = absurd i
  select-In p a (x ∷ xs) (inl e) h = let passes : p x ≡ true = rw e h in rw passes (inl e)
  select-In p a (x ∷ xs) (inr i) h = elim (Bool-cases (p x)) [
    | inl e ↦ rw e (inr (select-In p a xs i h))
    | inr e ↦ rw e (select-In p a xs i h)
  ]

  pub count-In : (p : A → Bool) (a : A) (xs : List A) → In a xs → p a ≡ true → 1 ≤ count_if p xs
  count-In p a [] i h = absurd i
  count-In p a (x ∷ xs) (inl e) h = ground arith
  count-In p a (x ∷ xs) (inr i) h = omega (arith, count-In p a xs i h)

  -- An element is the one that a search finds, where only one passes the test.
  pub find-In :
      (p : A → Bool) (a : A) (xs : List A)
      → In a xs
      → p a ≡ true
      → count_if p xs ≤ 1
      → find? p xs ≡ some a
  find-In p a [] i h one = absurd i
  find-In p a (x ∷ xs) (inl e) h one = ground arith
  find-In p a (x ∷ xs) (inr i) h one = ground (arith, find-In p a xs i h, count-In p a xs i h)

  pub length-select : (p : A → Bool) (xs : List A) → length (select p xs) ≡ count_if p xs
  length-select p [] = refl
  length-select p (x ∷ xs) = ground (arith, length-select p xs)

  -- A selection has no more elements that pass a test, and none that it leaves out.
  pub count-select : (p q : A → Bool) (xs : List A) → count_if p (select q xs) ≤ count_if p xs
  count-select p q [] = omega arith
  count-select p q (x ∷ xs) = ground (arith, count-select p q xs)

  pub count-select_apart :
      (p q : A → Bool) (xs : List A)
      → ((x : A) → p x ≡ true → q x ≡ false)
      → count_if p (select q xs) ≡ 0
  count-select_apart p q [] apart = refl
  count-select_apart p q (x ∷ xs) apart = ground (arith, apart x, count-select_apart p q xs apart)
