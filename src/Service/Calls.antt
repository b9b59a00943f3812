-- ===== src/Service/Calls.antt =====
-- A worker changes the tables by the writes of repo.go only: the calls that all of them make.
use evm_tx_sender.Prelude.{Text, ◌≡◌, refl, Option, none, some, Result, ok, err}
use evm_tx_sender.Domain.{TxStateLog}
use evm_tx_sender.Repo.{Db, call, log_state_transition}
use evm_tx_sender.Repo.Nonces.History.{Write, Writes, nothing, followed, log, IsSafe, AreSafe}
use evm_tx_sender.Worker.{World, run, log_transition}

abbrev pub SafeWrite : Db → Db → Type 0
SafeWrite db db' = (w : Write db db') × IsSafe w

abbrev pub SafeWrites : Db → Db → Type 0
SafeWrites db db' = (ws : Writes db db') × AreSafe ws

abbrev pub no_writes : {db : Db} → SafeWrites db db
no_writes = (nothing, tt)

pub SafeWrites-trans : {a b c : Db} → SafeWrites a b → SafeWrites b c → SafeWrites a c
SafeWrites-trans first (nothing, safe) = first
SafeWrites-trans first (followed rest w, safe) =
    let (all, all_safe) = SafeWrites-trans first (rest, safe.0) in
    (followed all w, (all_safe, safe.1))

pub one_write : {a b : Db} → SafeWrite a b → SafeWrites a b
one_write (w, safe) = (followed nothing w, (tt, safe))

-- One call of a method that writes: it fails, is refused, or writes.
pub call-Writes :
    (link : Option Text) (db : Db) (r : Result Text Db)
    → ((db' : Db) → r ≡ ok db' → SafeWrite db db')
    → SafeWrites db (call link db r).0
call-Writes (some e) db r write = no_writes
call-Writes none db (ok db') write = one_write (write db' refl)
call-Writes none db (err e) write = no_writes

pub run-Writes :
    (link : Option Text) (write : Db → Result Text Db) (w : World)
    → ((db' : Db) → write w.db ≡ ok db' → SafeWrite w.db db')
    → SafeWrites w.db (run link write w).db
unfolding run
run-Writes link write w is_write = call-Writes link w.db (write w.db) is_write

pub log-Writes :
    (link : Option Text) (entry : TxStateLog) (w : World)
    → SafeWrites w.db (log_transition link entry w).db
unfolding log_transition
log-Writes link entry w =
    run-Writes link (log_state_transition entry) w (λ db' e. (log entry e, tt))
