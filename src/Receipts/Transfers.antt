-- ===== src/Receipts/Transfers.antt =====
-- `verifyERC20Transfer` against what a Transfer event is.
use evm_tx_sender.Prelude.{
  ℕ, ◌≡◌, ◌↔◌, inl, inr, refl, true, false, Bool, List, [], ◌∷◌, In, Bool-cases, ==_iff, ==_refl,
  ◌==◌, ◌&&◌, arith,
}
use evm_tx_sender.Domain.{Transaction}
use evm_tx_sender.Receipts.{
  ReceiptPoller, Receipt, EventLog, topics_match, find_transfer, verify_erc20_transfer,
}

-- A Transfer event of a contract, from the sender of a transaction to its recipient.
pub record IsTransfer (rp : ReceiptPoller) (contract : ℕ) (tx : Transaction) (log : EventLog)
    : Type 0 where
  pub of_contract : log.address ≡ contract
  pub more : List ℕ
  pub has_topics : log.topics ≡ rp.transfer_event_sig ∷ tx.sender ∷ tx.transfer_recipient ∷ more

both : (a b : Bool) → (a && b) ≡ true → (a ≡ true) × (b ≡ true)
both true b h = (refl, h)
both false b h = cc

topics_read :
    (sig sender recipient : ℕ) (topics : List ℕ)
    → topics_match sig sender recipient topics ≡ true
    → (more : List ℕ) × (topics ≡ sig ∷ sender ∷ recipient ∷ more)
topics_read sig sender recipient [] h = cc
topics_read sig sender recipient (a ∷ []) h = cc
topics_read sig sender recipient (a ∷ b ∷ []) h = cc
topics_read sig sender recipient (a ∷ b ∷ c ∷ more) h =
    let (e0, rest) = both (a == sig) (b == sender && c == recipient) h in
    let (e1, e2) = both (b == sender) (c == recipient) rest in
    let p0 : a ≡ sig = (==_iff a sig).0 e0 in
    let p1 : b ≡ sender = (==_iff b sender).0 e1 in
    let p2 : c ≡ recipient = (==_iff c recipient).0 e2 in (more, rw (p0, p1, p2) refl)

topics_written :
    (sig sender recipient : ℕ) (more : List ℕ)
    → topics_match sig sender recipient (sig ∷ sender ∷ recipient ∷ more) ≡ true
topics_written sig sender recipient more = ground arith

module _ (rp : ReceiptPoller) (contract : ℕ) (tx : Transaction) where
  abbrev passes : EventLog → Bool
  passes log =
      log.address == contract
      && topics_match rp.transfer_event_sig tx.sender tx.transfer_recipient log.topics

  passes_iff : (log : EventLog) → (passes log ≡ true) ↔ IsTransfer rp contract tx log
  passes_iff log = (there, back)
    where
      there : passes log ≡ true → IsTransfer rp contract tx log
      there h =
          let (e, k) = both (log.address == contract) _ h in
          let (more, topics) = topics_read _ _ _ log.topics k in
          record {
            of_contract = (==_iff log.address contract).0 e;
            more = more;
            has_topics = topics;
          }

      back : IsTransfer rp contract tx log → passes log ≡ true
      back t =
          let e = t.of_contract in
          let topics = t.has_topics in
          rw (e, topics, ==_refl contract)
            (topics_written rp.transfer_event_sig tx.sender tx.transfer_recipient t.more)

  finds :
      (log : EventLog) (logs : List EventLog)
      → In log logs
      → passes log ≡ true
      → find_transfer rp contract tx logs ≡ true
  unfolding find_transfer
  finds log [] i t = absurd i
  finds log (l ∷ logs) (inl e) t = let p : passes l ≡ true = rw e t in rw p refl
  finds log (l ∷ logs) (inr i) t = elim (Bool-cases (passes l)) [
    | inl p ↦ rw p refl
    | inr p ↦ rw p (finds log logs i t)
  ]

  found :
      (logs : List EventLog)
      → find_transfer rp contract tx logs ≡ true
      → (log : EventLog) × In log logs × (passes log ≡ true)
  unfolding find_transfer
  found [] h = cc
  found (log ∷ logs) h = elim (Bool-cases (passes log)) [
    | inl p ↦ (log, inl refl, p)
    | inr p ↦ let (l, i, q) = found logs (rw p at h) in (l, inr i, q)
  ]

  -- `verifyERC20Transfer` says yes exactly if the receipt has a log of the token contract whose
  -- topics are the signature of `Transfer`, the sender and the recipient of the transaction, and
  -- perhaps more topics behind them.
  pub verify_erc20_transfer_iff :
      (receipt : Receipt)
      → (verify_erc20_transfer rp contract receipt tx ≡ true)
        ↔ ((log : EventLog) × In log receipt.logs × IsTransfer rp contract tx log)
  unfolding verify_erc20_transfer
  verify_erc20_transfer_iff receipt = (
    λ h. let (log, i, p) = found receipt.logs h in (log, i, (passes_iff log).0 p),
    λ k. finds k.0 receipt.logs k.1 ((passes_iff k.0).1 k.2),
  )
