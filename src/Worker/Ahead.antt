-- ===== src/Worker/Ahead.antt =====
-- Every hash handed to a node stands in a stored attempt: the attempt is written ahead.
use evm_tx_sender.Prelude.{
  ℕ, zero, suc, Text, ◌≡◌, Bool, true, List, [], ◌∷◌, ◌++◌, Option, none, some, Result, ok, err,
  Ensures, All, All-append, replicate, ◌==◌, ==_refl,
}
use evm_tx_sender.Domain.{TxAttempt, TxStateLog}
use evm_tx_sender.Repo.{Db, any, call}
use evm_tx_sender.Worker.{World, run, log_transition}
use evm_tx_sender.Worker.Frame.{log-SameButLog, any-append, any-append_old}

abbrev pub has_hash : ℕ → TxAttempt → Bool
has_hash tx_hash a = a.tx_hash == tx_hash

abbrev pub IsRecorded : List TxAttempt → ℕ → Type 0
IsRecorded attempts tx_hash = any (has_hash tx_hash) attempts ≡ true

abbrev pub WrittenAhead : World → Type 0
WrittenAhead w = All (IsRecorded w.db.attempts) w.sent

pub WrittenAhead-same :
    (w w' : World)
    → w'.db.attempts ≡ w.db.attempts
    → w'.sent ≡ w.sent
    → WrittenAhead w
    → WrittenAhead w'
WrittenAhead-same w w' e f h = rw (e, f) h

pub WrittenAhead-log :
    (link : Option Text) (entry : TxStateLog) (w : World)
    → WrittenAhead w
    → WrittenAhead (log_transition link entry w)
WrittenAhead-log link entry w h =
    let same = log-SameButLog link entry w in
    WrittenAhead-same w (log_transition link entry w) same.same_attempts same.same_sent h

-- A write that leaves the attempts alone.
pub WrittenAhead-run :
    (link : Option Text) (write : Db → Result Text Db) (w : World)
    → Ensures (λ db'. db'.attempts ≡ w.db.attempts) (write w.db)
    → WrittenAhead w
    → WrittenAhead (run link write w)
unfolding run
WrittenAhead-run (some e) write w keeps h = h
WrittenAhead-run none write w keeps h = go (write w.db) keeps
  where
    go :
        (r : Result Text Db)
        → Ensures (λ db'. db'.attempts ≡ w.db.attempts) r
        → WrittenAhead (record w { db = (call none w.db r).0 })
    go (err e) k = h
    go (ok db') k = rw k h

older-IsRecorded :
    (attempts : List TxAttempt) (a : TxAttempt) (hashes : List ℕ)
    → All (IsRecorded attempts) hashes
    → All (IsRecorded (attempts ++ a ∷ [])) hashes
older-IsRecorded attempts a [] h = tt
older-IsRecorded attempts a (x ∷ xs) h =
    (any-append_old (has_hash x) attempts (a ∷ []) h.0, older-IsRecorded attempts a xs h.1)

tries-IsRecorded :
    (attempts : List TxAttempt) (a : TxAttempt) (tries : ℕ)
    → All (IsRecorded (attempts ++ a ∷ [])) (replicate tries a.tx_hash)
tries-IsRecorded attempts a zero = tt
tries-IsRecorded attempts a (suc tries) = (
  any-append (has_hash a.tx_hash) a attempts (==_refl a.tx_hash),
  tries-IsRecorded attempts a tries,
)

-- Storing an attempt and then handing its hash over any number of times.
pub WrittenAhead-send :
    (a : TxAttempt) (tries : ℕ) (w w' : World)
    → w'.db.attempts ≡ w.db.attempts ++ a ∷ []
    → w'.sent ≡ w.sent ++ replicate tries a.tx_hash
    → WrittenAhead w
    → WrittenAhead w'
WrittenAhead-send a tries w w' e f h =
    rw (e, f)
      (All-append (IsRecorded (w.db.attempts ++ a ∷ [])) w.sent _
        (older-IsRecorded w.db.attempts a w.sent h) (tries-IsRecorded w.db.attempts a tries))
