-- ===== src/Config/Keys.antt =====
-- `loadKeys` over the environment, and `LocalSigner` with the keys that it returns. Private keys
-- and signatures are go-ethereum's: what it answers is a parameter.
use evm_tx_sender.Prelude.{
  ℕ, Text, Bool, true, false, not, Option, none, some, Result, ok, err, List, [], ◌∷◌, codes,
  select, ◌==◌, if◌then◌else◌,
}
use evm_tx_sender.Worker.{Signer, EthTx, Signed}
use evm_tx_sender.Config.Chains.{
  ConfigError, invalid_key_address, invalid_private_key, address_mismatch, entry_without_value,
}

pub record Crypto : Type 0 where
  pub is_hex_address : Text → Bool
  pub hex_to_address : Text → ℕ
  pub hex_to_ecdsa : Text → Option ℕ
  pub pubkey_to_address : ℕ → ℕ
  pub sign_tx : EthTx → ℕ → ℕ → Result Text Signed

-- `strings.SplitN(s, "=", 2)`
unfoldable pub split_equals : Text → Text × Option Text
split_equals [] = ([], none)
split_equals (c ∷ s) =
    let (before, behind) = split_equals s in
    if c == b'=' then ([], some s) else (c ∷ before, behind)

-- What stands behind a prefix, if a text has it.
unfoldable pub strip_prefix : Text → Text → Option Text
strip_prefix [] s = some s
strip_prefix (c ∷ p) [] = none
strip_prefix (c ∷ p) (d ∷ s) = let rest = strip_prefix p s in if c == d then rest else none

-- `strings.TrimPrefix`
abbrev pub stripped : Text → Option Text → Text
stripped s none = s
stripped s (some rest) = rest

abbrev pub trim_prefix : Text → Text → Text
trim_prefix p s = stripped s (strip_prefix p s)

abbrev pub key_prefix : Text
key_prefix = codes "TX_SENDER_KEYS_"

-- The keys by address, and the variables cleared so far.
pub record Loaded : Type 0 where
  pub keys : List (ℕ × ℕ)
  pub cleared : List Text

-- The assignment `keys[addr] = key`.
abbrev pub set_key : ℕ → ℕ → List (ℕ × ℕ) → List (ℕ × ℕ)
set_key addr key keys = (addr, key) ∷ select (λ (e : ℕ × ℕ). not (e.0 == addr)) keys

-- The map lookup `keys[addr]`.
unfoldable pub find_key : ℕ → List (ℕ × ℕ) → Option ℕ
find_key addr [] = none
find_key addr ((a, k) ∷ keys) = if a == addr then some k else find_key addr keys

abbrev pub and_next :
    Result ConfigError Loaded → (Loaded → Result ConfigError Loaded) → Result ConfigError Loaded
and_next (err e) next = err e
and_next (ok l) next = next l

abbrev pub no_key : Text
no_key = codes "no key for address"

module _ (c : Crypto) where
  -- Behind the key: the derived address has to be that of the name.
  abbrev pub on_key : Text → ℕ → Option ℕ → Loaded → Result ConfigError Loaded
  on_key name expected none l = err (invalid_private_key name)
  on_key name expected (some key) l =
      if c.pubkey_to_address key == expected
      then ok (record {
        keys = set_key (c.pubkey_to_address key) key l.keys;
        cleared = name ∷ l.cleared;
      })
      else err (address_mismatch name)

  abbrev pub on_value : Text → Text → Option Text → Loaded → Result ConfigError Loaded
  on_value name addr none l = err (entry_without_value name)
  on_value name addr (some value) l =
      on_key name (c.hex_to_address addr) (c.hex_to_ecdsa (trim_prefix (codes "0x") value)) l

  abbrev pub on_name : Text → Option Text → Option Text → Loaded → Result ConfigError Loaded
  on_name name value none l = ok l
  on_name name value (some addr) l =
      if c.is_hex_address addr then on_value name addr value l else err (invalid_key_address addr)

  -- One round of the loop. An entry without `=`, which the operating system never gives, would end
  -- the program with an index out of range if it had the prefix.
  unfoldable pub load_key : Text → Loaded → Result ConfigError Loaded
  unfolding split_equals strip_prefix
  load_key entry l =
      let parts = split_equals entry in on_name parts.0 parts.1 (strip_prefix key_prefix parts.0) l

  -- `loadKeys`
  unfoldable pub load_keys : List Text → Loaded → Result ConfigError Loaded
  unfolding load_key
  load_keys [] l = ok l
  load_keys (entry ∷ environ) l = and_next (load_key entry l) λ l'. load_keys environ l'

  abbrev pub sign_with : Option ℕ → EthTx → ℕ → Result Text Signed
  sign_with none tx chain_id = err no_key
  sign_with (some key) tx chain_id = c.sign_tx tx chain_id key

  -- `LocalSigner.Sign`
  unfoldable pub local_sign : List (ℕ × ℕ) → Signer
  unfolding find_key
  local_sign keys sender tx chain_id = sign_with (find_key sender keys) tx chain_id

abbrev pub is_known : Option ℕ → Bool
is_known none = false
is_known (some key) = true

-- `HasAddress`
unfoldable pub has_address : List (ℕ × ℕ) → ℕ → Bool
unfolding find_key
has_address keys addr = is_known (find_key addr keys)

-- `Addresses`
unfoldable pub addresses_of : List (ℕ × ℕ) → List ℕ
addresses_of [] = []
addresses_of ((a, k) ∷ keys) = a ∷ addresses_of keys
