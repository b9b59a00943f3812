-- ===== src/Repo/Listing.antt =====
-- Paging through `ListTransactions` by the cursor `after`, as a caller of the API does it: the last
-- row of a page is the cursor of the next one, until a page is empty.
use evm_tx_sender.Prelude.{
  ℕ, zero, suc, ◌≤◌, ◌<◌, ◌≡◌, ◌≢◌, refl, sym, ap, ◌∙◌, Bool, true, false, ◌&&◌, Option, none, some,
  ℤ, pos, negsuc, List, [], ◌∷◌, ◌++◌, length, take, drop, take-append-drop, get_last?, select,
  count_if, ltb, All, Option-cases, inl, inr, arith,
}
use evm_tx_sender.Domain.{Transaction}
use evm_tx_sender.Repo.{
  Db, has_id, sort_by, is_after, TxFilter, matches_columns, matches_filter, page_limit,
  list_transactions,
}
use evm_tx_sender.Repo.Sorted.{
  IsDistinct, select-and, select_ext, select-sort_by, select-drop, sort_by-IsAscending,
  select-IsDistinct, All-passes, All-map, All-sort_by, All-last,
}

abbrev pub after_row : Transaction → TxFilter → TxFilter
after_row last filter = record filter { after = some last.id }

abbrev pub follow {ℓ} : {A : Type ℓ} → List A → Option A → (A → List A) → List A
follow page none next = page
follow page (some last) next = page ++ next last

unfoldable pub walk : ℕ → TxFilter → Db → List Transaction
walk zero filter db = []
walk (suc fuel) filter db =
    let page = list_transactions filter db in
    follow page (get_last? page) λ last. walk fuel (after_row last filter) db

-- All rows that a filter lets through, in the order of their ids.
abbrev pub listed : TxFilter → Db → List Transaction
listed filter db = sort_by (λ t. t.id) (select (matches_filter filter) db.transactions)

page_limit_pos : (limit : ℤ) → 1 ≤ page_limit limit
unfolding page_limit
page_limit_pos (pos n) = ground arith
page_limit_pos (negsuc n) = omega arith

count_zero :
    (id : ℕ) (rows : List Transaction) → count_if (has_id id) rows ≡ 0 → All (λ t. id ≢ t.id) rows
count_zero id [] h = tt
count_zero id (t ∷ rows) h = (ground arith, count_zero id rows (ground arith))

ids-IsDistinct :
    (rows : List Transaction)
    → ((id : ℕ) → count_if (has_id id) rows ≤ 1)
    → IsDistinct (λ t. t.id) rows
ids-IsDistinct [] h = tt
ids-IsDistinct (t ∷ rows) h =
    (count_zero t.id rows (ground (arith, h t.id)), ids-IsDistinct rows (λ id. omega (arith, h id)))

later_rows :
    (cursor : Option ℕ) (id x : ℕ) (b : Bool)
    → is_after cursor id ≡ true
    → (b && ltb id x) ≡ ((b && is_after cursor x) && ltb id x)
later_rows none id x true h = refl
later_rows none id x false h = refl
later_rows (some c) id x true h = ground arith
later_rows (some c) id x false h = refl

same_columns :
    (filter : TxFilter) (last t : Transaction)
    → matches_columns (after_row last filter) t ≡ matches_columns filter t
unfolding matches_columns
same_columns filter last t = refl

-- The filter of the next page lets through what lies behind the last row.
next_filter :
    (filter : TxFilter) (last t : Transaction)
    → is_after filter.after last.id ≡ true
    → matches_filter (after_row last filter) t ≡ (matches_filter filter t && ltb last.id t.id)
next_filter filter last t h =
    rw (same_columns filter last t)
      (later_rows filter.after last.id t.id (matches_columns filter t) h)

and_right : (a b : Bool) → (a && b) ≡ true → b ≡ true
and_right true b h = h
and_right false b h = cc

-- Behind the last row of a page the rest is listed.
rest_listed :
    (filter : TxFilter) (db : Db) (last : Transaction)
    → IsDistinct (λ t. t.id) db.transactions
    → get_last? (list_transactions filter db) ≡ some last
    → listed (after_row last filter) db ≡ drop (page_limit filter.limit) (listed filter db)
unfolding list_transactions
rest_listed filter db last distinct e =
    let matching = select (matches_filter filter) db.transactions in
    let keeps = select-IsDistinct (λ t. t.id) (matches_filter filter) db.transactions distinct in
    let passes : is_after filter.after last.id ≡ true =
      All-last (λ (t : Transaction). t.id) (λ t. is_after filter.after t.id ≡ true)
        (page_limit filter.limit) (listed filter db) last
        (All-sort_by (λ t. t.id) (λ t. is_after filter.after t.id ≡ true) matching
          (All-map (λ t. matches_filter filter t ≡ true) (λ t. is_after filter.after t.id ≡ true)
            matching (λ t h. and_right _ _ h) (All-passes (matches_filter filter) db.transactions)))
        e in
    ap (sort_by (λ t. t.id)) (
      select_ext _ (λ t. matches_filter filter t && ltb last.id t.id) db.transactions
        (λ t. next_filter filter last t passes)
      ∙ select-and (matches_filter filter) (λ t. ltb last.id t.id) db.transactions)
    ∙ (sym (select-sort_by (λ t. t.id) (λ t. ltb last.id t.id) matching keeps)
        ∙ select-drop (λ t. t.id) (page_limit filter.limit) (listed filter db) last
            (sort_by-IsAscending (λ t. t.id) matching keeps) e)

nothing_left :
    {A : Type 0} (n : ℕ) (xs : List A) → 1 ≤ n → get_last? (take n xs) ≡ none → take n xs ≡ xs
nothing_left zero xs h e = absurd (omega arith)
nothing_left (suc n) [] h e = refl
nothing_left (suc zero) (x ∷ xs) h e = cc
nothing_left (suc (suc n)) (x ∷ []) h e = refl
nothing_left (suc (suc n)) (x ∷ y ∷ ys) h e =
    ap (λ r. x ∷ r) (nothing_left (suc n) (y ∷ ys) (omega arith) e)

length-drop-le : {A : Type 0} (n : ℕ) (xs : List A) → length (drop n xs) ≤ length xs
length-drop-le zero xs = omega arith
length-drop-le (suc n) [] = omega arith
length-drop-le (suc n) (x ∷ xs) = omega (arith, length-drop-le n xs)

length-drop-lt :
    {A : Type 0} (n : ℕ) (xs : List A) (last : A)
    → get_last? (take n xs) ≡ some last
    → length (drop n xs) < length xs
length-drop-lt zero xs last e = cc
length-drop-lt (suc n) [] last e = cc
length-drop-lt (suc n) (x ∷ xs) last e = omega (arith, length-drop-le n xs)

-- On tables with unique ids, paging through `ListTransactions` with any filter and any limit, from
-- any cursor on, meets every matching row exactly once and in the order of the ids, and reaches an
-- empty page: within one page more than there are matching rows.
pub walk_lists :
    (fuel : ℕ) (filter : TxFilter) (db : Db)
    → ((id : ℕ) → count_if (has_id id) db.transactions ≤ 1)
    → length (listed filter db) < fuel
    → walk fuel filter db ≡ listed filter db
unfolding walk list_transactions
walk_lists zero filter db unique enough = elim enough [ ]
walk_lists (suc fuel) filter db unique enough =
    let n = page_limit filter.limit in
    elim (Option-cases (get_last? (take n (listed filter db)))) [
      | inl e ↦ rw e (nothing_left n (listed filter db) (page_limit_pos filter.limit) e)
      | inr (last, e) ↦
          let rest = rest_listed filter db last (ids-IsDistinct db.transactions unique) e in
          let shorter = length-drop-lt n (listed filter db) last e in
          let next = walk_lists fuel (after_row last filter) db unique (rw rest (omega arith)) in
          rw (e, next, rest) (take-append-drop n (listed filter db))
    ]
