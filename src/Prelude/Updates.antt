-- ===== src/Prelude/Updates.antt =====
-- What an update of the elements that pass a test does to a search and to a count.
use Prim.Native.Nat.{◌+◌, ◌≤◌}
use mathlib.Core.Path.{◌≡◌, refl}
use mathlib.Core.Logic.{inl, inr}
use mathlib.Core.Bool.{Bool, true, false}
use mathlib.Core.Option.{some}
use mathlib.Core.List.{List, [], ◌∷◌}
use native.Mathlib.Omega.{arith}
use evm_tx_sender.Prelude.Tests.{if◌then◌else◌, Bool-cases}
use evm_tx_sender.Prelude.Lists.{find?, update, count_if}

module _ {A : Type 0} (p : A → Bool) (f : A → A) where
  pub find-update :
      (xs : List A) (x : A)
      → ((y : A) → p (f y) ≡ p y)
      → find? p xs ≡ some x
      → find? p (update p f xs) ≡ some (f x)
  find-update [] x keeps found = cc
  find-update (y ∷ ys) x keeps found = elim (Bool-cases (p y)) [
    | inl e ↦ ground (arith, keeps y)
    | inr e ↦ ground (arith, find-update ys x keeps)
  ]

  -- An update of a test that no element passes.
  pub update_none : (xs : List A) → count_if p xs ≡ 0 → update p f xs ≡ xs
  update_none [] h = refl
  update_none (y ∷ ys) h = ground (arith, update_none ys)

  -- Where only one element passes, an update moves it alone from a count to another.
  pub count-update :
      (q : A → Bool) (xs : List A) (x : A)
      → count_if p xs ≤ 1
      → find? p xs ≡ some x
      → count_if q (update p f xs) + (if q x then 1 else 0)
        ≡ count_if q xs + (if q (f x) then 1 else 0)
  count-update q [] x one found = cc
  count-update q (y ∷ ys) x one found = elim (Bool-cases (p y)) [
    | inl e ↦ ground (arith, update_none ys)
    | inr e ↦ ground (arith, count-update q ys x)
  ]

  -- The elements of a test that the update keeps apart are found as before.
  pub find-update_apart :
      (q : A → Bool) (xs : List A)
      → ((y : A) → q (f y) ≡ q y)
      → ((y : A) → p y ≡ true → q y ≡ false)
      → find? q (update p f xs) ≡ find? q xs
  find-update_apart q [] keeps apart = refl
  find-update_apart q (y ∷ ys) keeps apart =
      ground (arith, keeps y, apart y, find-update_apart q ys keeps apart)

  -- A test that the update does not change counts as before.
  pub count-update_kept :
      (q : A → Bool) (xs : List A)
      → ((y : A) → q (f y) ≡ q y)
      → count_if q (update p f xs) ≡ count_if q xs
  count-update_kept q [] keeps = refl
  count-update_kept q (y ∷ ys) keeps = ground (arith, keeps y, count-update_kept q ys keeps)
