-- ===== src/Config/Signers.antt =====
-- The keys that are loaded sign for their addresses only.
use evm_tx_sender.Prelude.{
  ℕ, Text, ◌≡◌, ◌↔◌, ◌⊎◌, refl, sym, ap, ◌∙◌, subst, inl, inr, Bool, true, false, not, count_if,
  count-select, count-select_apart, ◌≤◌, Option, none, some, Result, ok, err, Ensures, Ensures-map,
  List, [], ◌∷◌, All, In, Bool-cases, some_inj, arith, ◌==◌, ==_iff,
}
use evm_tx_sender.Repo.Sorted.{All-select}
use evm_tx_sender.Worker.{EthTx, Signed}
use evm_tx_sender.Config.{
  ConfigError, Crypto, Loaded, split_equals, strip_prefix, key_prefix, trim_prefix, on_key,
  on_value, on_name, load_key, and_next, load_keys, find_key, set_key, sign_with, local_sign,
  is_known, has_address, addresses_of,
}

abbrev pub is_key_of : ℕ → ℕ × ℕ → Bool
is_key_of addr e = e.0 == addr

set_key-distinct :
    (addr key a : ℕ) (keys : List (ℕ × ℕ))
    → count_if (is_key_of a) keys ≤ 1
    → count_if (is_key_of a) (set_key addr key keys) ≤ 1
set_key-distinct addr key a keys h = elim (Bool-cases (addr == a)) [
  | inl e ↦
      let same : addr ≡ a = (==_iff addr a).0 e in
      ground (
        arith,
        count-select_apart (is_key_of a) (λ (k : ℕ × ℕ). not (k.0 == addr)) keys
            (λ k j. rw same (ap not j)),
      )
  | inr e ↦ ground (arith, count-select (is_key_of a) (λ (k : ℕ × ℕ). not (k.0 == addr)) keys)
]

module _ (c : Crypto) where
  -- Each key derives to the address under which it stands.
  abbrev pub IsDerived : ℕ × ℕ → Type 0
  IsDerived (a, k) = c.pubkey_to_address k ≡ a

  -- And no two keys stand under one address.
  pub record KeysAreDerived (l : Loaded) : Type 0 where
    pub derived : All IsDerived l.keys
    pub distinct : (addr : ℕ) → count_if (is_key_of addr) l.keys ≤ 1

  set_key-KeysAreDerived :
      (addr key : ℕ) (l l' : Loaded)
      → l'.keys ≡ set_key addr key l.keys
      → c.pubkey_to_address key ≡ addr
      → KeysAreDerived l
      → KeysAreDerived l'
  set_key-KeysAreDerived addr key l l' e d h = record {
    derived =
        subst (All IsDerived) (sym e)
          (d, All-select IsDerived (λ (k : ℕ × ℕ). not (k.0 == addr)) l.keys h.derived);
    distinct = λ a.
        subst (λ keys. count_if (is_key_of a) keys ≤ 1) (sym e)
          (set_key-distinct addr key a l.keys (h.distinct a));
  }

  pub no_keys-KeysAreDerived : KeysAreDerived (record { keys = []; cleared = [] })
  no_keys-KeysAreDerived = record { derived = tt; distinct = λ addr. omega arith }

  on_name-KeysAreDerived :
      (name : Text) (value addr : Option Text) (l : Loaded)
      → KeysAreDerived l
      → Ensures KeysAreDerived (on_name c name value addr l)
  on_name-KeysAreDerived name value none l h = h
  on_name-KeysAreDerived name value (some addr) l h = elim (Bool-cases (c.is_hex_address addr)) [
    | inl e ↦ rw e (behind value)
    | inr e ↦ rw e tt
  ]
    where
      derived :
          (expected : ℕ) (key : Option ℕ) → Ensures KeysAreDerived (on_key c name expected key l)
      derived expected none = tt
      derived expected (some key) = elim (Bool-cases (c.pubkey_to_address key == expected)) [
        | inl e ↦ rw e (set_key-KeysAreDerived (c.pubkey_to_address key) key l _ refl refl h)
        | inr e ↦ rw e tt
      ]

      behind : (o : Option Text) → Ensures KeysAreDerived (on_value c name addr o l)
      behind none = tt
      behind (some v) = derived (c.hex_to_address addr) (c.hex_to_ecdsa (trim_prefix _ v))

  pub load_keys-KeysAreDerived :
      (environ : List Text) (l : Loaded)
      → KeysAreDerived l
      → Ensures KeysAreDerived (load_keys c environ l)
  unfolding load_keys
  load_keys-KeysAreDerived [] l h = h
  load_keys-KeysAreDerived (entry ∷ environ) l h =
      go (load_key c entry l)
        (unfold load_key in
          on_name-KeysAreDerived (split_equals entry).0 (split_equals entry).1
            (strip_prefix key_prefix (split_equals entry).0) l h)
        (λ l' k. load_keys-KeysAreDerived environ l' k)
    where
      go :
          (r : Result ConfigError Loaded)
          → Ensures KeysAreDerived r
          → ((l' : Loaded) → KeysAreDerived l' → Ensures KeysAreDerived (load_keys c environ l'))
          → Ensures KeysAreDerived (and_next r (λ l'. load_keys c environ l'))
      go (err e) k rest = tt
      go (ok l') k rest = rest l' k

  find_key-IsDerived :
      (addr key : ℕ) (keys : List (ℕ × ℕ))
      → All IsDerived keys
      → find_key addr keys ≡ some key
      → c.pubkey_to_address key ≡ addr
  unfolding find_key
  find_key-IsDerived addr key [] h e = cc
  find_key-IsDerived addr key ((a, k) ∷ keys) h e = elim (Bool-cases (a == addr)) [
    | inl same ↦
        let found : some k ≡ some key = rw same at e in
        sym (ap c.pubkey_to_address (some_inj k key found)) ∙ (h.0 ∙ (==_iff a addr).0 same)
    | inr other ↦ find_key-IsDerived addr key keys h.1 (rw other at e)
  ]

clash : false ≡ true → ⊥
clash k = cc

known-In :
    (addr : ℕ) (keys : List (ℕ × ℕ)) → has_address keys addr ≡ true → In addr (addresses_of keys)
unfolding has_address addresses_of
known-In addr [] h = cc
known-In addr ((a, k) ∷ keys) h = elim (Bool-cases (a == addr)) [
  | inl e ↦ inl ((==_iff a addr).0 e)
  | inr e ↦ inr (known-In addr keys (rw e at h))
]

In-known :
    (addr : ℕ) (keys : List (ℕ × ℕ)) → In addr (addresses_of keys) → has_address keys addr ≡ true
unfolding has_address addresses_of
In-known addr [] i = absurd i
In-known addr ((a, k) ∷ keys) i = elim (Bool-cases (a == addr)) [
  | inl e ↦ rw e refl
  | inr e ↦ rw e (other e (In-known addr keys) i)
]
  where
    other :
        (a == addr) ≡ false
        → (In addr (addresses_of keys) → has_address keys addr ≡ true)
        → (a ≡ addr) ⊎ In addr (addresses_of keys)
        → is_known (find_key addr keys) ≡ true
    other e rest (inl same) = absurd (clash (sym e ∙ (==_iff a addr).1 same))
    other e rest (inr j) = rest j

-- `HasAddress` says yes exactly to what `Addresses` lists.
pub has_address_iff :
    (keys : List (ℕ × ℕ)) (addr : ℕ) → (has_address keys addr ≡ true) ↔ In addr (addresses_of keys)
has_address_iff keys addr = (known-In addr keys, In-known addr keys)

-- What a signature of a sender comes from: a key from which the sender's address derives.
abbrev pub IsBySender : Crypto → ℕ → EthTx → ℕ → Signed → Type 0
IsBySender c sender tx chain_id signed =
    (key : ℕ) × (c.pubkey_to_address key ≡ sender) × (c.sign_tx tx chain_id key ≡ ok signed)

signed_with :
    (c : Crypto) (sender : ℕ) (tx : EthTx) (chain_id : ℕ) (key : ℕ) (r : Result Text Signed)
    → c.pubkey_to_address key ≡ sender
    → c.sign_tx tx chain_id key ≡ r
    → Ensures (IsBySender c sender tx chain_id) r
signed_with c sender tx chain_id key (ok signed) d e = (key, d, e)
signed_with c sender tx chain_id key (err m) d e = tt

-- A transaction that the signer signs for a sender, with the keys that `loadKeys` read from any
-- environment, is signed with a key from which the sender's address derives.
pub local_sign-IsBySender :
    (c : Crypto) (environ : List Text) (sender : ℕ) (tx : EthTx) (chain_id : ℕ)
    → Ensures
        (λ l. Ensures (IsBySender c sender tx chain_id) (local_sign c l.keys sender tx chain_id))
        (load_keys c environ (record { keys = []; cleared = [] }))
unfolding local_sign
local_sign-IsBySender c environ sender tx chain_id =
    Ensures-map (load_keys c environ (record { keys = []; cleared = [] }))
      (λ l h. with_key l h (find_key sender l.keys) refl)
      (load_keys-KeysAreDerived c environ (record { keys = []; cleared = [] })
        (no_keys-KeysAreDerived c))
  where
    with_key :
        (l : Loaded)
        → KeysAreDerived c l
        → (o : Option ℕ) → find_key sender l.keys ≡ o
        → Ensures (IsBySender c sender tx chain_id) (sign_with c o tx chain_id)
    with_key l h none e = tt
    with_key l h (some key) e =
        signed_with c sender tx chain_id key _ (find_key-IsDerived c sender key l.keys h.derived e)
          refl
