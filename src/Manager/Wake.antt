-- ===== src/Manager/Wake.antt =====
-- Which pipelines run, and which of them a notification wakes.
use evm_tx_sender.Prelude.{
  ℕ, ◌^◌, ◌<◌, ◌≡◌, refl, sym, ap, ◌∙◌, Bool, true, ◌&&◌, some, List, [], ◌∷◌, text_eq, text_eq→eq,
  text_eq_refl, All, Bool-cases, inl, inr, arith, ◌==◌, if◌then◌else◌, pos,
}
use evm_tx_sender.Domain.{address_text}
use evm_tx_sender.Domain.Spelling.{
  address_text_inj, length-address_text, to_lower-address_text, append_inj,
}
use evm_tx_sender.Domain.Amount.Print.{print_nat, print_int, set_string-print_int}
use evm_tx_sender.Domain.Amount.{set_string}
use evm_tx_sender.Manager.Launch.{Running, key, key_of, notify_one, wake, notify_pipeline}

print_nat_inj : (m n : ℕ) → print_nat m ≡ print_nat n → m ≡ n
unfolding print_int
print_nat_inj m n e =
    let same : some (pos m) ≡ some (pos n) =
      sym (set_string-print_int (pos m)) ∙ (ap set_string e ∙ set_string-print_int (pos n)) in
    cc

key_inj :
    (a b c d : ℕ)
    → a < 16 ^ 40
    → b < 16 ^ 40
    → key (address_text a) c ≡ key (address_text b) d
    → (a ≡ b) × (c ≡ d)
unfolding key
key_inj a b c d ha hb e =
    let parts =
      append_inj (address_text a) (address_text b) _ _
        (length-address_text a ∙ sym (length-address_text b)) e in
    let rest : print_nat c ≡ print_nat d = cc (parts.1) in
    (address_text_inj a b ha hb parts.0, print_nat_inj c d rest)

-- Whether a pipeline is that of a pair.
abbrev pub is_of : ℕ → ℕ → Running → Bool
is_of sender chain_id p = p.sender == sender && p.chain.chain_id == chain_id

-- Which pipelines a notification of a pair leaves.
abbrev pub woken : ℕ → ℕ → List Running → List Running
woken sender chain_id [] = []
woken sender chain_id (p ∷ ps) =
    (if is_of sender chain_id p then record p { notify = true } else p) ∷ woken sender chain_id ps

abbrev pub IsAddress : Running → Type 0
IsAddress p = p.sender < 16 ^ 40

same_key :
    (sender chain_id : ℕ) (p : Running)
    → sender < 16 ^ 40
    → IsAddress p
    → text_eq (key_of p) (key (address_text sender) chain_id) ≡ is_of sender chain_id p
same_key sender chain_id p hs hp = elim (Bool-cases (is_of sender chain_id p)) [
  | inl e ↦
      let s : p.sender ≡ sender = ground arith in
      let c : p.chain.chain_id ≡ chain_id = ground arith in
      rw (e, s, c) (text_eq_refl (key (address_text sender) chain_id))
  | inr e ↦ elim (Bool-cases (text_eq (key_of p) (key (address_text sender) chain_id))) [
    | inl k ↦
        let eqs = key_inj p.sender sender p.chain.chain_id chain_id hp hs (text_eq→eq _ _ k) in
        absurd (ground (arith, eqs.0, eqs.1))
    | inr k ↦ rw (e, k) refl
  ]
]

-- `NotifyPipeline` of a pair, with the sender spelled as the tables do, wakes the pipelines of
-- that pair and leaves every other as it was.
pub notify_pipeline-woken :
    (sender chain_id : ℕ) (ps : List Running)
    → sender < 16 ^ 40
    → All IsAddress ps
    → notify_pipeline (address_text sender) chain_id ps ≡ woken sender chain_id ps
unfolding notify_pipeline notify_one
notify_pipeline-woken sender chain_id ps hs h = rw (to_lower-address_text sender) (each ps h)
  where
    each :
        (qs : List Running)
        → All IsAddress qs
        → wake (key (address_text sender) chain_id) qs ≡ woken sender chain_id qs
    each [] h = refl
    each (p ∷ qs) h = rw (same_key sender chain_id p hs h.0, each qs h.1) refl
