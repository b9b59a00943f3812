-- ===== src/Lib.antt =====
-- A verification library for evm-tx-sender, a service that queues token and coin transfers, gives
-- them nonces, signs and broadcasts them to EVM chains, and follows them until they are confirmed.
--
-- The parts, and how they interact: the API stores a queued transaction; one pipeline for each
-- sender and chain claims the oldest, assigns the next nonce from a cursor, estimates fees, signs,
-- stores an attempt and broadcasts it; a receipt poller for each chain moves submitted transactions
-- on by their receipts, and included ones by their depth; a stuck detector for each chain replaces
-- attempts at higher fees. All share the tables of one database; the API also wakes the pipeline.
--
-- - Prelude: shared names, lists and tests over the native numbers, results, byte texts.
-- - Domain: internal/domain (transaction.go, errors.go, config.go, gas.go, interfaces.go), and
--   Domain.Amount for ParseAmountToSmallestUnit of transfer.go.
-- - Gas: internal/infrastructure/ethereum/gas.go (Estimate, BumpGas).
-- - Repo: internal/infrastructure/postgres/repo.go over migrations/001_init.sql; each method is a
--   function of the four tables (Repo.Writes, Repo.Reads), and each SET clause one of a row
--   (Repo.Rows). Repo.Scan is what stands in the columns and how a row is scanned. Repo.Nonces,
--   Repo.Queue, Repo.Sorted and Repo.Listing hold the proofs.
-- - Worker: what the workers share: the tables with the list of hashes handed to nodes, the answers
--   of the surroundings for one pass, and buildAndSign.
-- - Pipeline: a turn of Run and processTx of internal/pipeline/pipeline.go, a function for each
--   early return.
-- - Stuck: check and bumpGas of internal/pipeline/stuck.go. Stuck.Steps is the step relation that
--   the code refines.
-- - Receipts: pollSubmitted and pollIncluded of internal/pipeline/receipt.go with their helpers.
-- - Client: the endpoints of internal/infrastructure/ethereum/client.go; Client.Calls has NewClient,
--   the calls that pass an answer on, and a round of the health check.
-- - Manager: InitNonces of internal/pipeline/manager.go; Manager.Launch has Start, NotifyPipeline and
--   PipelineStatus.
-- - Transfer: Create of internal/api/transfer.go behind the JSON decoding.
-- - Api: Get and List of internal/api/transaction.go, and Health of health.go.
-- - Config: internal/config/config.go, and signer.go of internal/infrastructure/ethereum.
-- - Service: run of cmd/tx-sender/main.go up to the listener (Service.Boot), and the whole program from a
--   first start on as sequences of requests, turns, polls and checks (Service.Runs).
-- - Examples: the theorems at concrete inputs.
--
-- State is passed explicitly. Every call that leaves the program can fail: the errors of the
-- database calls and of the node are arguments (Env, PollAnswers), one for each call in the order
-- of the source text, and the theorems hold for all of them. The signer, the decoding of raw
-- transactions, JSON, Keccak, the ABI packing, the parsing of addresses and the float64
-- multiplication of the gas limit are arguments too, and so is, for Config and Service, what viper,
-- time.ParseDuration, go-ethereum's key functions and the dialling answer. Texts are lists of bytes;
-- addresses, hashes and ULIDs are numbers; times are nanoseconds.
--
-- Bounds and fuel: the conversions to uint64, uint8 and int32 are written out as remainders. The
-- loops over pages run on fuel, one more than there are rows, which is never used up since a cursor
-- that moves leaves fewer rows behind it. The loop of a caller that pages through List runs on fuel
-- too, more than there are matching rows. All other loops are structural.
--
-- The order of passes: a pass of a worker is one step of Service.Runs; passes do not interleave
-- there, and there is no second start, since the nodes may then report a pending nonce that a failed
-- row still holds, to which InitNonces sets the cursor. Repo.Nonces.History takes the writes of
-- repo.go one at a time, in any interleaving. The notification that Create sends behind an insert
-- changes no table; Service.Notified adds it.
--
-- Not modelled: the router, the logging and recovery middleware and the JSON encoding, the listener
-- and the shutdown, the goroutines and tickers that call the modelled functions, sleeps and log
-- lines, the connection pool, the migration runner, and SQL transactions beyond their atomicity. A
-- negative fee bound, count or duration of the configuration is outside the model.
--
-- The database: a call that fails has executed nothing; a reply that is lost behind an executed
-- statement is not represented. The normal form that JSONB keeps of a text is an argument. The times
-- that CreateTransaction gets are cut to the microseconds of a TIMESTAMPTZ; the times of the updates,
-- of the attempts and of the log are taken as the columns keep them.
pub mod Prelude
pub mod Domain
pub mod Gas
pub mod Repo
pub mod Worker
pub mod Pipeline
pub mod Stuck
pub mod Receipts
pub mod Examples
pub mod Client
pub mod Manager
pub mod Transfer
pub mod Api
pub mod Config
pub mod Service
