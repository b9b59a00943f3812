-- ===== src/Worker/Signing.antt =====
-- The unsigned transaction that `buildAndSign` and `bumpGas` build, and the signer, which is an
-- argument: signing and the binary encoding are go-ethereum's.
use evm_tx_sender.Prelude.{ℕ, ℤ, Text, Option, Result, ok, err, ◌==◌, if◌then◌else◌}
use evm_tx_sender.Domain.{Transaction, GasParams}

pub record DynamicFeeTx : Type 0 where
  pub chain_id : ℕ
  pub nonce : ℕ
  pub gas_tip_cap : Option ℕ
  pub gas_fee_cap : Option ℕ
  pub gas : ℕ
  pub to : ℕ
  pub value : ℤ
  pub payload : Text

pub record LegacyTx : Type 0 where
  pub nonce : ℕ
  pub gas_price : Option ℕ
  pub gas : ℕ
  pub to : ℕ
  pub value : ℤ
  pub payload : Text

pub data EthTx : Type 0 where
  dynamic_fee : DynamicFeeTx → EthTx
  legacy : LegacyTx → EthTx

unfoldable pub build_tx : ℕ → Transaction → ℕ → GasParams → EthTx
build_tx chain_id tx nonce gas =
    if gas.tx_type == 2
    then dynamic_fee (record {
      chain_id = chain_id;
      nonce = nonce;
      gas_tip_cap = gas.max_priority_fee_per_gas;
      gas_fee_cap = gas.max_fee_per_gas;
      gas = gas.gas_limit;
      to = tx.to_address;
      value = tx.value;
      payload = tx.payload;
    })
    else legacy (record {
      nonce = nonce;
      gas_price = gas.gas_price;
      gas = gas.gas_limit;
      to = tx.to_address;
      value = tx.value;
      payload = tx.payload;
    })

-- A signed transaction: its hash, and what `MarshalBinary` gives for it.
pub record Signed : Type 0 where
  pub hash : ℕ
  pub marshalled : Result Text Text

-- `Sign(ctx, sender, tx, chainID)`
abbrev pub Signer : Type 0
Signer = ℕ → EthTx → ℕ → Result Text Signed

-- The hash and the raw bytes.
abbrev pub raw_of : ℕ → Result Text Text → Result Text (ℕ × Text)
raw_of hash (err e) = err e
raw_of hash (ok raw) = ok (hash, raw)

abbrev pub marshal : Result Text Signed → Result Text (ℕ × Text)
marshal (err e) = err e
marshal (ok signed) = raw_of signed.hash signed.marshalled

-- `buildAndSign`
unfoldable pub build_and_sign :
    Signer → ℕ → ℕ → Transaction → ℕ → GasParams → Result Text (ℕ × Text)
unfolding build_tx
build_and_sign sign sender chain_id tx nonce gas =
    marshal (sign sender (build_tx chain_id tx nonce gas) chain_id)
