-- ===== src/Config/Cleared.antt =====
-- `loadKeys` takes every key out of the environment.
use evm_tx_sender.Prelude.{
  Text, ◌≡◌, refl, sym, inl, inr, Option, none, some, Result, ok, err, Ensures, Ensures-map, List,
  [], ◌∷◌, In, Bool-cases, ◌==◌, subst,
}
use evm_tx_sender.Config.{
  ConfigError, Crypto, Loaded, split_equals, strip_prefix, key_prefix, trim_prefix, on_key,
  on_value, on_name, load_key, and_next, load_keys,
}

-- A name once cleared stays cleared, and the name of a key is cleared.
abbrev Clears : Text → Option Text → Text → Loaded → Loaded → Type 0
Clears name none n l l' = In n l.cleared → In n l'.cleared
Clears name (some addr) n l l' = (In n l.cleared → In n l'.cleared) × In name l'.cleared

module _ (c : Crypto) where
  on_name-Clears :
      (name : Text) (value addr : Option Text) (n : Text) (l : Loaded)
      → Ensures (Clears name addr n l) (on_name c name value addr l)
  on_name-Clears name value none n l = λ i. i
  on_name-Clears name value (some addr) n l = elim (Bool-cases (c.is_hex_address addr)) [
    | inl e ↦ rw e (behind value)
    | inr e ↦ rw e tt
  ]
    where
      derived :
          (expected : _) (key : Option _)
          → Ensures (Clears name (some addr) n l) (on_key c name expected key l)
      derived expected none = tt
      derived expected (some key) = elim (Bool-cases (c.pubkey_to_address key == expected)) [
        | inl e ↦ rw e (λ i. inr i, inl refl)
        | inr e ↦ rw e tt
      ]

      behind : (o : Option Text) → Ensures (Clears name (some addr) n l) (on_value c name addr o l)
      behind none = tt
      behind (some v) = derived (c.hex_to_address addr) (c.hex_to_ecdsa (trim_prefix _ v))

  -- One round keeps what was cleared, and clears the name of its entry if that has the prefix.
  load_key-Clears :
      (entry n : Text) (l : Loaded)
      → Ensures
          (Clears (split_equals entry).0 (strip_prefix key_prefix (split_equals entry).0) n l)
          (load_key c entry l)
  unfolding load_key
  load_key-Clears entry n l =
      on_name-Clears (split_equals entry).0 (split_equals entry).1
        (strip_prefix key_prefix (split_equals entry).0) n l

  keeps :
      (name n : Text) (addr : Option Text) (l l' : Loaded)
      → Clears name addr n l l'
      → In n l.cleared
      → In n l'.cleared
  keeps name n none l l' h = h
  keeps name n (some addr) l l' h = h.0

  named :
      (name n addr : Text) (o : Option Text) (l l' : Loaded)
      → o ≡ some addr
      → Clears name o n l l'
      → In name l'.cleared
  named name n addr none l l' e h = cc
  named name n addr (some a) l l' e h = h.1

  chained :
      (P : Loaded → Type 0) (environ : List Text) (r : Result ConfigError Loaded)
      → Ensures P r
      → ((l : Loaded) → P l → Ensures P (load_keys c environ l))
      → Ensures P (and_next r (λ l. load_keys c environ l))
  chained P environ (err e) h rest = tt
  chained P environ (ok l) h rest = rest l h

  after_any :
      (Q : Loaded → Type 0) (environ : List Text) (r : Result ConfigError Loaded)
      → ((l : Loaded) → Ensures Q (load_keys c environ l))
      → Ensures Q (and_next r (λ l. load_keys c environ l))
  after_any Q environ (err e) rest = tt
  after_any Q environ (ok l) rest = rest l

  still_cleared :
      (environ : List Text) (n : Text) (l : Loaded)
      → In n l.cleared
      → Ensures (λ l'. In n l'.cleared) (load_keys c environ l)
  unfolding load_keys
  still_cleared [] n l i = i
  still_cleared (entry ∷ environ) n l i =
      chained (λ l'. In n l'.cleared) environ (load_key c entry l)
        (Ensures-map (load_key c entry l) (λ l' h. keeps (split_equals entry).0 n _ l l' h i)
          (load_key-Clears entry n l))
        (λ l' j. still_cleared environ n l' j)

  -- If `loadKeys` succeeds, every variable of the environment whose name has the prefix of the keys
  -- has been cleared: no private key stays in the environment of the process.
  pub load_keys_clears :
      (environ : List Text) (entry addr : Text) (l : Loaded)
      → In entry environ
      → strip_prefix key_prefix (split_equals entry).0 ≡ some addr
      → Ensures (λ l'. In (split_equals entry).0 l'.cleared) (load_keys c environ l)
  unfolding load_keys
  load_keys_clears [] entry addr l i h = absurd i
  load_keys_clears (first ∷ environ) entry addr l (inl same) h =
      chained (λ l'. In (split_equals entry).0 l'.cleared) environ (load_key c first l)
        (Ensures-map (load_key c first l)
          (λ l' k.
            subst (λ e. In (split_equals e).0 l'.cleared) same
              (named (split_equals first).0 (split_equals entry).0 addr _ l l'
                (subst (λ e. strip_prefix key_prefix (split_equals e).0 ≡ some addr) (sym same) h)
                k))
          (load_key-Clears first (split_equals entry).0 l))
        (λ l' j. still_cleared environ (split_equals entry).0 l' j)
  load_keys_clears (first ∷ environ) entry addr l (inr i) h =
      after_any (λ l'. In (split_equals entry).0 l'.cleared) environ (load_key c first l)
        (λ l'. load_keys_clears environ entry addr l' i h)
