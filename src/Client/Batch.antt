-- ===== src/Client/Batch.antt =====
-- A batch of receipts names only hashes that were asked for.
use evm_tx_sender.Prelude.{
  ℕ, Text, Option, none, some, Result, ok, err, Ensures, List, [], ◌∷◌, In, inl, inr, refl, All,
  Bool-cases,
}
use evm_tx_sender.Receipts.{Receipt}
use evm_tx_sender.Client.{
  Endpoint, get_client, on_client, on_batch, has_key, put, collect_receipts,
  batch_transaction_receipts,
}

widen :
    (h : ℕ) (hs : List ℕ) (receipts : List (ℕ × Receipt))
    → All (λ (k : ℕ × Receipt). In k.0 hs) receipts
    → All (λ (k : ℕ × Receipt). In k.0 (h ∷ hs)) receipts
widen h hs [] a = tt
widen h hs (k ∷ ks) a = (inr a.0, widen h hs ks a.1)

put_asked :
    (h : ℕ) (hs : List ℕ) (receipt : Receipt) (receipts : List (ℕ × Receipt))
    → All (λ (k : ℕ × Receipt). In k.0 hs) receipts
    → All (λ (k : ℕ × Receipt). In k.0 (h ∷ hs)) (put h receipt receipts)
put_asked h hs receipt receipts a = elim (Bool-cases (has_key h receipts)) [
  | inl known ↦ rw known (widen h hs receipts a)
  | inr new ↦ rw new (inl refl, widen h hs receipts a)
]

collect_asked :
    (hs : List ℕ) (answers : List (Result Text (Option Receipt)))
    → All (λ (k : ℕ × Receipt). In k.0 hs) (collect_receipts hs answers)
unfolding collect_receipts
collect_asked [] answers = tt
collect_asked (h ∷ hs) [] = tt
collect_asked (h ∷ hs) (ok (some receipt) ∷ answers) =
    put_asked h hs receipt (collect_receipts hs answers) (collect_asked hs answers)
collect_asked (h ∷ hs) (ok none ∷ answers) = widen h hs _ (collect_asked hs answers)
collect_asked (h ∷ hs) (err e ∷ answers) = widen h hs _ (collect_asked hs answers)

-- Whatever the endpoints answer, `BatchTransactionReceipts` gives receipts only for hashes that it
-- was asked for, as the poller relies on.
pub batch_answers_asked :
    (answer : ℕ → List ℕ → Result Text (List (Result Text (Option Receipt)))) (hashes : List ℕ)
    (eps : List Endpoint)
    → Ensures
        (All (λ (k : ℕ × Receipt). In k.0 hashes))
        (batch_transaction_receipts answer hashes eps).0
unfolding batch_transaction_receipts
batch_answers_asked answer [] eps = tt
batch_answers_asked answer (h ∷ hs) eps = go (get_client eps)
  where
    batch :
        (client : ℕ) (r : Result Text (List (Result Text (Option Receipt))))
        → Ensures (All (λ (k : ℕ × Receipt). In k.0 (h ∷ hs))) (on_batch client (h ∷ hs) r eps).0
    batch client (err e) = tt
    batch client (ok answers) = collect_asked (h ∷ hs) answers

    go :
        (o : Option ℕ)
        → Ensures
            (All (λ (k : ℕ × Receipt). In k.0 (h ∷ hs)))
            (on_client o eps λ client. on_batch client (h ∷ hs) (answer client (h ∷ hs)) eps).0
    go none = tt
    go (some client) = batch client (answer client (h ∷ hs))
