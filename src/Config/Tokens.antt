-- ===== src/Config/Tokens.antt =====
-- Which tokens `parseTokens` lets through.
use evm_tx_sender.Prelude.{
  Text, ◌≡◌, refl, true, false, not, ◌||◌, Option, none, some, Ensures, List, [], ◌∷◌, All,
  Bool-cases, inl, inr, to_upper, text_eq, is_empty, arith, if◌then◌else◌,
}
use evm_tx_sender.Domain.{TokenConfig, lookup_token}
use evm_tx_sender.Config.{
  Viper, ConfigError, token_address, token_of, refused, add_token, parse_tokens,
}

module _ (v : Viper) (native : Text) where
  -- An entry of the whitelist: its key is its symbol, which is not that of the coin, and its contract
  -- is a text that spells an address.
  pub record IsListed (entry : Text × TokenConfig) : Type 0 where
    pub own_symbol : entry.1.symbol ≡ entry.0
    pub no_coin : text_eq entry.0 (to_upper native) ≡ false
    pub spelled :
        (s : Text) × (v.is_hex_address s ≡ true) × (entry.1.contract_address ≡ v.hex_to_address s)

  -- The symbol of the coin names no token.
  pub coin_is_no_token :
      (whitelist : List (Text × TokenConfig))
      → All IsListed whitelist
      → lookup_token (to_upper native) whitelist ≡ none
  coin_is_no_token [] h = refl
  coin_is_no_token ((symbol, token) ∷ whitelist) h =
      rw (h.0.no_coin) (coin_is_no_token whitelist h.1)

  module _ (prefix : Text) where
    accepted-IsListed :
        (symbol : Text)
        → refused v native prefix symbol ≡ none
        → IsListed (symbol, token_of v prefix symbol)
    accepted-IsListed symbol h = elim (Bool-cases (text_eq symbol (to_upper native))) [
      | inl e ↦ absurd (some_none (rw e at h))
      | inr e ↦ record {
        own_symbol = refl;
        no_coin = e;
        spelled = (token_address v prefix symbol, valid (rw e at h), refl);
      }
    ]
      where
        some_none : {e : ConfigError} → some e ≡ none → ⊥
        some_none k = cc

        valid :
            (if is_empty (token_address v prefix symbol)
                  || not (v.is_hex_address (token_address v prefix symbol))
                then some (ConfigError.invalid_token_address symbol)
                else none)
              ≡ none
            → v.is_hex_address (token_address v prefix symbol) ≡ true
        valid k = ground arith

    pub parse_tokens-IsListed :
        (names : List Text) (whitelist : List (Text × TokenConfig))
        → All IsListed whitelist
        → Ensures (All IsListed) (parse_tokens v native prefix names whitelist)
    unfolding parse_tokens
    parse_tokens-IsListed [] whitelist h = h
    parse_tokens-IsListed (name ∷ names) whitelist h =
        go (refused v native prefix (to_upper name)) (accepted-IsListed (to_upper name)) (λ k.
          parse_tokens-IsListed names
            ((to_upper name, token_of v prefix (to_upper name)) ∷ whitelist) k)
      where
        go :
            (o : Option ConfigError)
            → (o ≡ none → IsListed (to_upper name, token_of v prefix (to_upper name)))
            → (All IsListed ((to_upper name, token_of v prefix (to_upper name)) ∷ whitelist)
                → Ensures (All IsListed) (
                    parse_tokens v native prefix names
                      ((to_upper name, token_of v prefix (to_upper name)) ∷ whitelist)))
            → Ensures (All IsListed) (
                add_token v o
                  (to_upper name)
                  (token_of v prefix (to_upper name))
                  whitelist
                  λ added. parse_tokens v native prefix names added)
        go (some e) listed rest = tt
        go none listed rest = rest (listed refl, h)
