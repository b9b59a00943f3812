-- ===== src/Api/Pages.antt =====
-- What a caller of `List` sees who follows the cursor as its documentation says.
use evm_tx_sender.Prelude.{
  ℕ, zero, suc, ◌≤◌, ◌<◌, ◌≡◌, refl, sym, ap, ◌∙◌, Option, none, some, Result, ok, err, List, [],
  ◌∷◌, map, map-append, ok_inj, some_inj, Option-cases, Bool, true, false, if◌then◌else◌, get_last?,
  count_if, length, inl, inr, is_empty,
}
use evm_tx_sender.Domain.{Transaction, AppError}
use evm_tx_sender.Repo.{Db, TxFilter, has_id, list_transactions}
use evm_tx_sender.Repo.Listing.{follow, walk, listed, walk_lists, after_row}
use evm_tx_sender.Api.{
  TxResponse, to_response, ListQuery, filter_of, list, filter_for, on_chain_id, parse_uint,
}

-- A transaction in a list, without its attempts.
abbrev pub plain : Transaction → TxResponse
plain t = to_response t []

abbrev pub after_response : TxResponse → ListQuery → ListQuery
after_response last q = record q { after = some last.id }

abbrev pub rows_or_none : Result AppError (List TxResponse) → List TxResponse
rows_or_none (ok rows) = rows
rows_or_none (err e) = []

-- The caller's loop: the id of the last transaction of a page is the cursor of the next one.
unfoldable pub browse : ℕ → ListQuery → Db → List TxResponse
browse zero q db = []
browse (suc fuel) q db =
    let page = rows_or_none (list none q db) in
    follow page (get_last? page) λ last. browse fuel (after_response last q) db

moved :
    (q : ListQuery) (id : ℕ) (absent : Bool) (parsed : Option ℕ) (filter : TxFilter)
    → (if absent then ok (filter_for q none) else on_chain_id q parsed) ≡ ok filter
    → (if absent
        then ok (filter_for (record q { after = some id }) none)
        else on_chain_id (record q { after = some id }) parsed)
      ≡ ok (record filter { after = some id })
moved q id true parsed filter h =
    ap (λ (f : TxFilter). ok (record f { after = some id })) (ok_inj (filter_for q none) filter h)
moved q id false none filter h = cc
moved q id false (some c) filter h =
    ap (λ (f : TxFilter). ok (record f { after = some id }))
      (ok_inj (filter_for q (some c)) filter h)

filter_of-after :
    (q : ListQuery) (last : Transaction) (filter : TxFilter)
    → filter_of q ≡ ok filter
    → filter_of (after_response (plain last) q) ≡ ok (after_row last filter)
unfolding filter_of to_response
filter_of-after q last filter h =
    moved q last.id (is_empty q.chain_id) (parse_uint q.chain_id) filter h

get_last?-map :
    {A B : Type 0} (f : A → B) (xs : List A) (last : A)
    → get_last? xs ≡ some last
    → get_last? (map f xs) ≡ some (f last)
get_last?-map f [] last e = cc
get_last?-map f (x ∷ []) last e = ap (λ y. some (f y)) (some_inj x last e)
get_last?-map f (x ∷ y ∷ xs) last e = get_last?-map f (y ∷ xs) last e

get_last?-none :
    {A B : Type 0} (f : A → B) (xs : List A) → get_last? xs ≡ none → get_last? (map f xs) ≡ none
get_last?-none f [] e = refl
get_last?-none f (x ∷ []) e = cc
get_last?-none f (x ∷ y ∷ xs) e = get_last?-none f (y ∷ xs) e

list_page :
    (q : ListQuery) (filter : TxFilter) (db : Db)
    → filter_of q ≡ ok filter
    → rows_or_none (list none q db) ≡ map plain (list_transactions filter db)
unfolding list
list_page q filter db h = rw h refl

-- A page of responses is one of rows.
browse-walk :
    (fuel : ℕ) (q : ListQuery) (filter : TxFilter) (db : Db)
    → filter_of q ≡ ok filter
    → browse fuel q db ≡ map plain (walk fuel filter db)
unfolding browse walk
browse-walk zero q filter db h = refl
browse-walk (suc fuel) q filter db h =
    rw (list_page q filter db h) (elim (Option-cases (get_last? (list_transactions filter db))) [
      | inl e ↦ rw (e, get_last?-none plain (list_transactions filter db) e) refl
      | inr (last, e) ↦
          rw (e, get_last?-map plain (list_transactions filter db) last e)
            (rw
              (browse-walk fuel (after_response (plain last) q) (after_row last filter) db
                (filter_of-after q last filter h))
              (sym (
                map-append plain (list_transactions filter db)
                  (walk fuel (after_row last filter) db))))
    ])

-- A caller of `List` who passes the id of the last transaction of each page as the cursor of the
-- next meets, if no call fails and the query is accepted, every matching transaction exactly once
-- and in the order of the ids, and comes to an empty page.
pub browse_lists :
    (fuel : ℕ) (q : ListQuery) (filter : TxFilter) (db : Db)
    → filter_of q ≡ ok filter
    → ((id : ℕ) → count_if (has_id id) db.transactions ≤ 1)
    → length (listed filter db) < fuel
    → browse fuel q db ≡ map plain (listed filter db)
browse_lists fuel q filter db h unique enough =
    browse-walk fuel q filter db h ∙ ap (map plain) (walk_lists fuel filter db unique enough)
