-- ===== src/Manager/Launch.antt =====
-- `Start`, `NotifyPipeline` and `PipelineStatus` of internal/pipeline/manager.go with `Notify` of
-- pipeline.go. A map of the program is walked in the order of a list here. What runs in the
-- goroutines that `Start` launches are the turns, polls and checks of the other modules.
use evm_tx_sender.Prelude.{
  ℕ, ◌*◌, ◌^◌, Text, Bool, true, false, Option, Result, ok, err, List, [], ◌∷◌, ◌++◌, text_eq,
  to_lower, ltb, if◌then◌else◌,
}
use evm_tx_sender.Domain.{ChainConfig, address_text}
use evm_tx_sender.Domain.Amount.Print.{print_nat}
use evm_tx_sender.Repo.{Db, count_queued_transactions}
use evm_tx_sender.Worker.{guarded}
use evm_tx_sender.Receipts.{chunk_size}

-- A pipeline that runs; `notify` is its channel, which holds one message at most.
pub record Running : Type 0 where
  pub sender : ℕ
  pub chain : ChainConfig
  pub notify : Bool

-- The fields that `NewReceiptPoller` and `NewStuckDetector` are given here.
pub record Poller : Type 0 where
  pub chain_id : ℕ
  pub confirmation_blocks : ℕ
  pub receipt_chunk_size : ℕ
  pub interval : ℕ

pub record Detector : Type 0 where
  pub chain : ChainConfig
  pub interval : ℕ

pub record Launched : Type 0 where
  pub pipelines : List Running
  pub pollers : List Poller
  pub detectors : List Detector

-- The key of a pair in the map of the pipelines, for a sender spelled like that.
unfoldable pub key : Text → ℕ → Text
key sender chain_id = sender ++ b'-' ∷ print_nat chain_id

unfoldable pub pipelines_of : ChainConfig → List ℕ → List Running
pipelines_of chain [] = []
pipelines_of chain (addr ∷ addrs) =
    record { sender = addr; chain = chain; notify = false } ∷ pipelines_of chain addrs

-- The first loop: a chain without a client is left out.
unfoldable pub start_pipelines : (ℕ → Bool) → List ℕ → List ChainConfig → List Running
unfolding pipelines_of
start_pipelines has_client addrs [] = []
start_pipelines has_client addrs (chain ∷ chains) =
    (if has_client chain.chain_id then pipelines_of chain addrs else [])
    ++ start_pipelines has_client addrs chains

-- At least two seconds.
unfoldable pub poll_interval : ℕ → ℕ
poll_interval block_time = if ltb block_time (2 * 10 ^ 9) then 2 * 10 ^ 9 else block_time

abbrev pub poller_of : ChainConfig → Poller
poller_of chain = record {
  chain_id = chain.chain_id;
  confirmation_blocks = chain.confirmation_blocks;
  receipt_chunk_size = chunk_size chain.receipt_chunk_size;
  interval = poll_interval chain.block_time;
}

abbrev pub detector_of : ChainConfig → Detector
detector_of chain = record { chain = chain; interval = chain.gas_bump_interval }

-- The chains of the second loop.
unfoldable pub with_client : (ℕ → Bool) → List ChainConfig → List ChainConfig
with_client has_client [] = []
with_client has_client (chain ∷ chains) =
    if has_client chain.chain_id
    then chain ∷ with_client has_client chains
    else with_client has_client chains

abbrev pollers_of : List ChainConfig → List Poller
pollers_of [] = []
pollers_of (chain ∷ chains) = poller_of chain ∷ pollers_of chains

abbrev detectors_of : List ChainConfig → List Detector
detectors_of [] = []
detectors_of (chain ∷ chains) = detector_of chain ∷ detectors_of chains

-- `Start`
unfoldable pub start : (ℕ → Bool) → List ℕ → List ChainConfig → Launched
unfolding start_pipelines with_client
start has_client addrs chains = record {
  pipelines = start_pipelines has_client addrs chains;
  pollers = pollers_of (with_client has_client chains);
  detectors = detectors_of (with_client has_client chains);
}

-- The key under which a pipeline stands in the map.
abbrev pub key_of : Running → Text
key_of p = key (address_text p.sender) p.chain.chain_id

-- `Notify`: a full channel stays as it is.
unfoldable pub notify_one : Running → Running
notify_one p = record p { notify = true }

abbrev pub wake : Text → List Running → List Running
wake k [] = []
wake k (p ∷ ps) = (if text_eq (key_of p) k then notify_one p else p) ∷ wake k ps

-- `NotifyPipeline`, of a sender spelled like that.
unfoldable pub notify_pipeline : Text → ℕ → List Running → List Running
unfolding key notify_one
notify_pipeline sender chain_id ps = wake (key (to_lower sender) chain_id) ps

abbrev pub depth_or_zero : Result Text ℕ → ℕ
depth_or_zero (ok n) = n
depth_or_zero (err e) = 0

-- `PipelineStatus`: the queue depths by key. A count that fails counts for zero.
unfoldable pub pipeline_status : (ℕ → Option Text) → List Running → Db → List (Text × ℕ)
unfolding key
pipeline_status link [] db = []
pipeline_status link (p ∷ ps) db =
    (
      key_of p,
      depth_or_zero
          (guarded (link p.sender) (ok (count_queued_transactions p.sender p.chain.chain_id db))),
    )
    ∷ pipeline_status link ps db
