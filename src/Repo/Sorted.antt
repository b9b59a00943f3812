-- ===== src/Repo/Sorted.antt =====
-- `ORDER BY` a key that no two rows share: the result ascends, and sorting commutes with selecting.
use evm_tx_sender.Prelude.{
  ℕ, zero, suc, ◌≤◌, ◌<◌, ◌≡◌, ◌≢◌, refl, ap, ◌∙◌, subst, Bool, true, some, ◌&&◌, List, [], ◌∷◌,
  take, drop, get_last?, select, ltb, leb, lt→ltb, ge→ltb, All, Bool-cases, inl, inr, arith,
  if◌then◌else◌, some_inj,
}
use evm_tx_sender.Repo.{insert_by, sort_by}

module _ {A : Type 0} where
  pub select-and :
      (p q : A → Bool) (xs : List A) → select (λ x. p x && q x) xs ≡ select q (select p xs)
  select-and p q [] = refl
  select-and p q (x ∷ xs) = elim (Bool-cases (p x)) [
    | inl e ↦ elim (Bool-cases (q x)) [
      | inl k ↦ rw (e, k) (ap (λ r. x ∷ r) (select-and p q xs))
      | inr k ↦ rw (e, k) (select-and p q xs)
    ]
    | inr e ↦ rw e (select-and p q xs)
  ]

  pub select_ext :
      (p q : A → Bool) (xs : List A) → ((x : A) → p x ≡ q x) → select p xs ≡ select q xs
  select_ext p q [] h = refl
  select_ext p q (x ∷ xs) h = rw (h x, select_ext p q xs h) refl

  pub All-select : (P : A → Type 0) (p : A → Bool) (xs : List A) → All P xs → All P (select p xs)
  All-select P p [] h = tt
  All-select P p (x ∷ xs) h = elim (Bool-cases (p x)) [
    | inl e ↦ rw e (h.0, All-select P p xs h.1)
    | inr e ↦ rw e (All-select P p xs h.1)
  ]

  pub All-passes : (p : A → Bool) (xs : List A) → All (λ x. p x ≡ true) (select p xs)
  All-passes p [] = tt
  All-passes p (x ∷ xs) = elim (Bool-cases (p x)) [
    | inl e ↦ rw e (e, All-passes p xs)
    | inr e ↦ rw e (All-passes p xs)
  ]

  pub All-map : (P Q : A → Type 0) (xs : List A) → ((x : A) → P x → Q x) → All P xs → All Q xs
  All-map P Q [] f h = tt
  All-map P Q (x ∷ xs) f h = (f x h.0, All-map P Q xs f h.1)

  pub select_everything : (p : A → Bool) (xs : List A) → All (λ x. p x ≡ true) xs → select p xs ≡ xs
  select_everything p [] h = refl
  select_everything p (x ∷ xs) h = rw h.0 (ap (λ r. x ∷ r) (select_everything p xs h.1))

module _ {A : Type 0} (key : A → ℕ) where
  -- No two elements share a key.
  abbrev pub IsDistinct : List A → Type 0
  IsDistinct [] = Unit
  IsDistinct (x ∷ xs) = All (λ y. key x ≢ key y) xs × IsDistinct xs

  abbrev pub IsAscending : List A → Type 0
  IsAscending [] = Unit
  IsAscending (x ∷ xs) = All (λ y. key x < key y) xs × IsAscending xs

  All-insert_by :
      (P : A → Type 0) (x : A) (ys : List A) → P x → All P ys → All P (insert_by key x ys)
  unfolding insert_by
  All-insert_by P x [] px h = (px, tt)
  All-insert_by P x (y ∷ ys) px h = elim (Bool-cases (leb (key x) (key y))) [
    | inl e ↦ rw e (px, h)
    | inr e ↦ rw e (h.0, All-insert_by P x ys px h.1)
  ]

  pub All-sort_by : (P : A → Type 0) (xs : List A) → All P xs → All P (sort_by key xs)
  unfolding sort_by
  All-sort_by P [] h = tt
  All-sort_by P (x ∷ xs) h = All-insert_by P x (sort_by key xs) h.0 (All-sort_by P xs h.1)

  insert_by-IsAscending :
      (x : A) (ys : List A)
      → All (λ y. key x ≢ key y) ys
      → IsAscending ys
      → IsAscending (insert_by key x ys)
  unfolding insert_by
  insert_by-IsAscending x [] d h = (tt, tt)
  insert_by-IsAscending x (y ∷ ys) d h = elim (Bool-cases (leb (key x) (key y))) [
    | inl e ↦
        let first : key x < key y = ground (arith, d.0) in
        rw e (
          (first, All-map (λ z. key y < key z) (λ z. key x < key z) ys (λ z k. omega arith) h.0),
          h,
        )
    | inr e ↦ rw e (
      All-insert_by (λ z. key y < key z) x ys (ground arith) h.0,
      insert_by-IsAscending x ys d.1 h.1,
    )
  ]

  pub sort_by-IsAscending : (xs : List A) → IsDistinct xs → IsAscending (sort_by key xs)
  unfolding sort_by
  sort_by-IsAscending [] d = tt
  sort_by-IsAscending (x ∷ xs) d =
      insert_by-IsAscending x (sort_by key xs) (All-sort_by (λ y. key x ≢ key y) xs d.0)
        (sort_by-IsAscending xs d.1)

  pub select-IsAscending : (p : A → Bool) (xs : List A) → IsAscending xs → IsAscending (select p xs)
  select-IsAscending p [] h = tt
  select-IsAscending p (x ∷ xs) h = elim (Bool-cases (p x)) [
    | inl e ↦ rw e (All-select (λ y. key x < key y) p xs h.0, select-IsAscending p xs h.1)
    | inr e ↦ rw e (select-IsAscending p xs h.1)
  ]

  insert_first : (x : A) (ys : List A) → All (λ y. key x ≤ key y) ys → insert_by key x ys ≡ x ∷ ys
  unfolding insert_by
  insert_first x [] h = refl
  insert_first x (y ∷ ys) h = ground arith

  pub All-last :
      (P : A → Type 0) (n : ℕ) (xs : List A) (last : A)
      → All P xs
      → get_last? (take n xs) ≡ some last
      → P last
  All-last P zero xs last h e = cc
  All-last P (suc n) [] last h e = cc
  All-last P (suc zero) (x ∷ xs) last h e = subst P (some_inj x last e) h.0
  All-last P (suc (suc n)) (x ∷ []) last h e = subst P (some_inj x last e) h.0
  All-last P (suc (suc n)) (x ∷ y ∷ ys) last h e = All-last P (suc n) (y ∷ ys) last h.1 e

  only :
      (x : A) (xs : List A) (last : A)
      → IsAscending (x ∷ xs)
      → some x ≡ some last
      → select (λ z. ltb (key last) (key z)) (x ∷ xs) ≡ xs
  only x xs last h e =
      subst (λ l. select (λ z. ltb (key l) (key z)) (x ∷ xs) ≡ xs) (some_inj x last e)
        (rw (ge→ltb (key x) (key x) (omega arith)) (
          select_everything (λ z. ltb (key x) (key z)) xs
            (All-map (λ z. key x < key z) (λ z. ltb (key x) (key z) ≡ true) xs
              (λ z k. lt→ltb (key x) (key z) k) h.0)))

  -- What a selection makes of an insertion.
  select-insert_by :
      (p : A → Bool) (x : A) (ys : List A)
      → IsAscending ys
      → select p (insert_by key x ys) ≡ (if p x then insert_by key x (select p ys) else select p ys)
  unfolding insert_by
  select-insert_by p x [] h = refl
  select-insert_by p x (y ∷ ys) h = elim (Bool-cases (leb (key x) (key y))) [
    | inl e ↦
        let above : All (λ z. key x ≤ key z) (y ∷ ys) = (
          ground arith,
          All-map (λ z. key y < key z) (λ z. key x ≤ key z) ys (λ z k. ground arith) h.0,
        ) in
        rw
          (e, insert_first x (select p (y ∷ ys)) (All-select (λ z. key x ≤ key z) p (y ∷ ys) above))
          refl
    | inr e ↦ elim (Bool-cases (p y)) [
      | inl k ↦
          rw (e, k, select-insert_by p x ys h.1)
            (elim (Bool-cases (p x)) [ inl j ↦ rw (j, e) refl | inr j ↦ rw j refl ])
      | inr k ↦ rw (e, k) (select-insert_by p x ys h.1)
    ]
  ]

  pub select-sort_by :
      (p : A → Bool) (xs : List A)
      → IsDistinct xs
      → select p (sort_by key xs) ≡ sort_by key (select p xs)
  unfolding sort_by
  select-sort_by p [] d = refl
  select-sort_by p (x ∷ xs) d =
      select-insert_by p x (sort_by key xs) (sort_by-IsAscending xs d.1)
      ∙ rw (select-sort_by p xs d.1)
          (elim (Bool-cases (p x)) [ inl e ↦ rw e refl | inr e ↦ rw e refl ])

  pub select-IsDistinct : (p : A → Bool) (xs : List A) → IsDistinct xs → IsDistinct (select p xs)
  select-IsDistinct p [] d = tt
  select-IsDistinct p (x ∷ xs) d = elim (Bool-cases (p x)) [
    | inl e ↦ rw e (All-select (λ y. key x ≢ key y) p xs d.0, select-IsDistinct p xs d.1)
    | inr e ↦ rw e (select-IsDistinct p xs d.1)
  ]

  -- Of an ascending list, what lies behind the last element of a prefix is the rest.
  pub select-drop :
      (n : ℕ) (xs : List A) (last : A)
      → IsAscending xs
      → get_last? (take n xs) ≡ some last
      → select (λ x. ltb (key last) (key x)) xs ≡ drop n xs
  select-drop zero xs last h e = cc
  select-drop (suc n) [] last h e = cc
  select-drop (suc zero) (x ∷ xs) last h e = only x xs last h e
  select-drop (suc (suc n)) (x ∷ []) last h e = only x [] last h e
  select-drop (suc (suc n)) (x ∷ y ∷ ys) last h e =
      let above : key x < key last = All-last (λ z. key x < key z) (suc n) (y ∷ ys) last h.0 e in
      rw (ge→ltb (key last) (key x) (omega arith)) (select-drop (suc n) (y ∷ ys) last h.1 e)
