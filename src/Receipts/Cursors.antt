-- ===== src/Receipts/Cursors.antt =====
-- A cursor that moves to the last row of a page leaves fewer rows behind it.
use evm_tx_sender.Prelude.{
  ℕ, zero, suc, ◌≤◌, ◌<◌, ◌≡◌, ◌⊎◌, inl, inr, refl, Bool, true, false, some_inj, Option, none, some,
  List, [], ◌∷◌, ◌&&◌, take, get_last?, count_if, ltb, leb, In, In-select, Bool-cases, arith,
}
use evm_tx_sender.Domain.{Transaction, TxStatus}
use evm_tx_sender.Repo.{Db, page, insert_by, sort_by, is_after, in_status_on}

module _ {A : Type 0} where
  pub In-take : (n : ℕ) (a : A) (xs : List A) → In a (take n xs) → In a xs
  In-take zero a xs i = absurd i
  In-take (suc n) a [] i = absurd i
  In-take (suc n) a (x ∷ xs) (inl e) = inl e
  In-take (suc n) a (x ∷ xs) (inr i) = inr (In-take n a xs i)

  pub In-insert_by :
      (key : A → ℕ) (a x : A) (xs : List A) → In a (insert_by key x xs) → (x ≡ a) ⊎ In a xs
  unfolding insert_by
  In-insert_by key a x [] i = i
  In-insert_by key a x (y ∷ ys) i = elim (Bool-cases (leb (key x) (key y))) [
    | inl e ↦ rw e at i
    | inr e ↦ behind ys (y ≡ a) (In-insert_by key a x ys) (rw e at i)
  ]
    where
      behind :
          (ys : List A) (first : Type 0)
          → (In a (insert_by key x ys) → (x ≡ a) ⊎ In a ys)
          → first ⊎ In a (insert_by key x ys)
          → (x ≡ a) ⊎ (first ⊎ In a ys)
      behind ys first rest (inl k) = inr (inl k)
      behind ys first rest (inr k) = elim (rest k) [ inl e ↦ inl e | inr j ↦ inr (inr j) ]

  pub In-sort_by : (key : A → ℕ) (a : A) (xs : List A) → In a (sort_by key xs) → In a xs
  unfolding sort_by
  In-sort_by key a [] i = absurd i
  In-sort_by key a (x ∷ xs) i = elim (In-insert_by key a x (sort_by key xs) i) [
    | inl e ↦ inl e
    | inr k ↦ inr (In-sort_by key a xs k)
  ]

  pub get_last?-In : (xs : List A) (a : A) → get_last? xs ≡ some a → In a xs
  get_last?-In [] a e = cc
  get_last?-In (x ∷ []) a e = inl (some_inj x a e)
  get_last?-In (x ∷ y ∷ xs) a e = inr (get_last?-In (y ∷ xs) a e)

  pub count-le :
      (p q : A → Bool) (xs : List A)
      → ((x : A) → p x ≡ true → q x ≡ true)
      → count_if p xs ≤ count_if q xs
  count-le p q [] h = omega arith
  count-le p q (x ∷ xs) h = elim (Bool-cases (p x)) [
    | inl e ↦ let k = h x e in rw (e, k) (omega (arith, count-le p q xs h))
    | inr e ↦ rw e (omega (arith, count-le p q xs h))
  ]

  -- Fewer pass a sharper test, if one element tells the tests apart.
  pub count-lt :
      (p q : A → Bool) (a : A) (xs : List A)
      → ((x : A) → p x ≡ true → q x ≡ true)
      → In a xs
      → p a ≡ false
      → q a ≡ true
      → count_if p xs < count_if q xs
  count-lt p q a [] h i fails holds = absurd i
  count-lt p q a (x ∷ xs) h (inl e) fails holds =
      let p0 : p x ≡ false = rw e fails in
      let q0 : q x ≡ true = rw e holds in rw (p0, q0) (omega (arith, count-le p q xs h))
  count-lt p q a (x ∷ xs) h (inr i) fails holds = elim (Bool-cases (p x)) [
    | inl e ↦ let k = h x e in rw (e, k) (omega (arith, count-lt p q a xs h i fails holds))
    | inr e ↦ rw e (omega (arith, count-lt p q a xs h i fails holds))
  ]

pub and_right : (a b : Bool) → (a && b) ≡ true → b ≡ true
and_right true b h = h
and_right false b h = cc

-- The last row of a page is a row behind the cursor.
pub last_of_page :
    (status : TxStatus) (chain_id limit : ℕ) (cursor : Option ℕ) (db : Db) (last : Transaction)
    → get_last? (page status chain_id limit cursor db) ≡ some last
    → In last db.transactions × (is_after cursor last.id ≡ true)
unfolding page
last_of_page status chain_id limit cursor db last e =
    let (there, passes) =
      In-select (in_status_on status chain_id cursor) last db.transactions
        (In-sort_by (λ t. t.id) last _ (In-take limit last _ (get_last?-In _ last e))) in
    (there, and_right _ _ (and_right _ _ passes))

pub later :
    (cursor : Option ℕ) (id x : ℕ)
    → is_after cursor id ≡ true
    → ltb id x ≡ true
    → is_after cursor x ≡ true
later none id x h k = refl
later (some c) id x h k = ground arith

-- A cursor that moves to the last row of its page leaves fewer rows behind it.
pub cursor_advances :
    (status : TxStatus) (chain_id limit : ℕ) (cursor : Option ℕ) (db : Db) (last : Transaction)
    → get_last? (page status chain_id limit cursor db) ≡ some last
    → count_if (λ t. is_after (some last.id) t.id) db.transactions
      < count_if (λ t. is_after cursor t.id) db.transactions
cursor_advances status chain_id limit cursor db last e =
    let (there, after) = last_of_page status chain_id limit cursor db last e in
    count-lt (λ t. is_after (some last.id) t.id) (λ t. is_after cursor t.id) last db.transactions
      (λ t k. later cursor last.id t.id after k) there (ground arith) after
