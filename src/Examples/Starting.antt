-- ===== src/Examples/Starting.antt =====
-- A configuration with one chain and one key, and the start from it.
use evm_tx_sender.Prelude.{
  Text, ◌≡◌, refl, true, Option, none, some, ok, Ensures, List, [], ◌∷◌, codes, text_eq, In, inl,
  inr, pos, ◌+◌, ◌/◌, if◌then◌else◌, arith,
}
use evm_tx_sender.Domain.{TxStatus}
use evm_tx_sender.Domain.Amount.{set_string}
use evm_tx_sender.Domain.Amount.Print.{print_nat}
use evm_tx_sender.Transfer.{check_amount}
use evm_tx_sender.Worker.{EthTx, build_tx}
use evm_tx_sender.Config.{
  Viper, Crypto, Loaded, split_equals, strip_prefix, chain_of, load_keys, local_sign, load,
}
use evm_tx_sender.Config.Cleared.{load_keys_clears}
use evm_tx_sender.Config.Signers.{IsBySender, local_sign-IsBySender}
use evm_tx_sender.Config.Sound.{IsRunnable, load-IsRunnable, misspelt_limit}
use evm_tx_sender.Service.Boot.{BootAnswers, boot}
use evm_tx_sender.Service.Ready.{IsReady, boot-IsReady}
use evm_tx_sender.Examples.{tables, payment, fees}

abbrev one_text : Text → Option Text
one_text k =
    if text_eq k (codes "database.url")
    then some (codes "db")
    else if text_eq k (codes "chains.1.native-max-transfer")
    then some (codes "1e18")
    else none

abbrev viper : Viper
viper = record {
  get_string = one_text;
  get_int = λ k. none;
  get_bool = λ k. none;
  get_multiplier = λ k. none;
  default_multiplier = λ n. n + n / 5;
  get_string_map = λ k. if text_eq k (codes "chains") then codes "1" ∷ [] else [];
  get_string_slice = λ k. codes "http://node" ∷ [];
  parse_duration = λ s. none;
  is_hex_address = λ s. true;
  hex_to_address = λ s. 4;
}

abbrev crypto : Crypto
crypto = record {
  is_hex_address = λ s. true;
  hex_to_address = λ s. 9;
  hex_to_ecdsa = λ s. some 7;
  pubkey_to_address = λ key. 9;
  sign_tx = λ tx chain_id key. ok (record { hash = 55; marshalled = ok (codes "raw") });
}

abbrev environ : List Text
environ = codes "HOME=/" ∷ codes "TX_SENDER_KEYS_0x9=0x7" ∷ []

load-IsRunnable_example : Ensures (IsRunnable viper crypto) (load viper crypto true environ)
load-IsRunnable_example = load-IsRunnable viper crypto true environ

abbrev nothing_loaded : Loaded
nothing_loaded = record { keys = []; cleared = [] }

load_keys_clears_example :
    Ensures
      (λ l. In (codes "TX_SENDER_KEYS_0x9") l.cleared)
      (load_keys crypto environ nothing_loaded)
unfolding split_equals strip_prefix
load_keys_clears_example =
    load_keys_clears crypto environ (codes "TX_SENDER_KEYS_0x9=0x7") (codes "0x9") nothing_loaded
      (inr (inl refl)) refl

abbrev payment_tx : EthTx
payment_tx = build_tx 1 (payment 1 TxStatus.pending (some 3)) 3 fees

local_sign-IsBySender_example :
    Ensures
      (λ l. Ensures (IsBySender crypto 9 payment_tx 1) (local_sign crypto l.keys 9 payment_tx 1))
      (load_keys crypto environ nothing_loaded)
local_sign-IsBySender_example = local_sign-IsBySender crypto environ 9 payment_tx 1

misspelt_limit_example :
    check_amount (ok (pos 5)) (chain_of viper 1 (codes "http://node" ∷ []) []).native_max_transfer
    ≡ ok (pos 5)
unfolding print_nat set_string
misspelt_limit_example =
    misspelt_limit viper 1 (codes "http://node" ∷ []) [] (codes "1e18") 5 refl refl (omega arith)
      (omega arith)

abbrev boot_answers : BootAnswers
boot_answers = record {
  readable = true;
  environ = environ;
  parse_link = none;
  connect_link = none;
  ping_link = none;
  migrate_link = none;
  dial = λ url. some 1;
  header = λ chain_id client. ok (some 100);
  reset_link = none;
  now = 5;
  pair_answers =
      λ sender chain_id. record { pending_nonce_at = ok 2; read_link = none; write_link = none };
}

boot-IsReady_example :
    Ensures IsReady (boot viper crypto boot_answers (tables TxStatus.queued none)).0
boot-IsReady_example = boot-IsReady viper crypto boot_answers (tables TxStatus.queued none)
