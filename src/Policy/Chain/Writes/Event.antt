-- ===== src/Policy/Chain/Writes/Event.antt =====
-- The log of a receipt that gives the address of a policy.
use climate_chain.Shared.{
  String, ◌≡◌, refl, ap, ◌∙◌, inl, inr, Option, some, List, [], ◌∷◌, str_eq, eq_iff, Option-cases,
  Bool-cases,
}
use climate_chain.EvmAddress.{normalize_evm_address}
use climate_chain.Shared.Text.{to_lower}
use mathlib.Core.List.{Memᴰ}
use climate_chain.Js.{ok, ok_inj, throw-ne-ok}
use climate_chain.Policy.Chain.Writes.{Receipt, ParsedLog, created_address, extract_policy_address}

-- The first `PolicyCreated` log gives the address.
created_address-some :
    {Log : Type 0} (parse_log : Log → Option ParsedLog) (logs : List Log) (address : String)
    → created_address parse_log logs ≡ some address
    → (log : Log) × (event : ParsedLog) × Memᴰ log logs
      × (parse_log log ≡ some event)
      × (event.name ≡ "PolicyCreated")
      × (address ≡ to_lower event.policy_address)
unfolding created_address normalize_evm_address
created_address-some parse_log [] address found = cc
created_address-some parse_log (log ∷ logs) address found = elim (Option-cases (parse_log log)) [
  | inl unknown ↦
      let (l, event, here, parsed, named, same) =
        created_address-some parse_log logs address (rw (unknown, created_address) at found) in
      (l, event, Memᴰ.tail here, parsed, named, same)
  | inr (event, known) ↦ elim (Bool-cases (str_eq event.name "PolicyCreated")) [
    | inl named ↦
        let same : some (to_lower event.policy_address) ≡ some address =
          rw (known, named, created_address) at found in
        (log, event, Memᴰ.head refl, known, (eq_iff event.name "PolicyCreated").0 named, cc)
    | inr other ↦
        let (l, event', here, parsed, named, same) =
          created_address-some parse_log logs address
            (rw (known, other, created_address) at found) in
        (l, event', Memᴰ.tail here, parsed, named, same)
  ]
]

pub extract_policy_address_ok :
    {Log : Type 0} (parse_log : Log → Option ParsedLog) (receipt : Receipt Log) (address : String)
    → extract_policy_address parse_log receipt ≡ ok address
    → (log : Log) × (event : ParsedLog) × Memᴰ log receipt.logs
      × (parse_log log ≡ some event)
      × (event.name ≡ "PolicyCreated")
      × (address ≡ to_lower event.policy_address)
unfolding extract_policy_address
extract_policy_address_ok parse_log receipt address done =
    elim (Option-cases (created_address parse_log receipt.logs)) [
      | inl missing ↦ elim (throw-ne-ok (rw (missing, extract_policy_address) at done)) [ ]
      | inr (a, found) ↦
          let same : a ≡ address = ok_inj (rw (found, extract_policy_address) at done) in
          created_address-some parse_log receipt.logs address (found ∙ ap some same)
    ]
