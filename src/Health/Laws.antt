-- ===== src/Health/Laws.antt =====
-- When the chain is reported up.
use mathlib.Core.Path.{subst}
use climate_chain.Shared.{
  ℕ, String, ◌≡◌, refl, sym, ap, ◌∙◌, ◌↔◌, inl, inr, true, false, Option, none, some, arith, str_eq,
  eq_iff, eq_refl, truthy, Bool-cases, ◌⊎◌, [], ◌∷◌,
}
use climate_chain.Shared.Text.{show}
use climate_chain.Config.Types.{RootConfig}
use climate_chain.ChainProvider.{is_enabled, has_signer}
use climate_chain.Js.{Value, num, str, bool, Result, ok, throw}
use climate_chain.Registry.Load.{Registry}
use climate_chain.Bootstrap.{ChainVerification, Bootstrap}
use climate_chain.Bootstrap.Drift.{detect_deployment_drift}
use climate_chain.Health.{
  Details, up, down, Probe, both, optional, chain_details, conclude, compare_chain, check_verified,
  chain_health,
}

down-ne-up : {d d' : Details} → down d ≡ up d' → ⊥
down-ne-up h = grind arith

up_inj : {d d' : Details} → up d ≡ up d' → d ≡ d'
up_inj h = grind arith

module _ (config : RootConfig) (keccak256 : String → String) (string_of : Value → String)
    (registry : Registry) (probe : Probe) where
  -- A deployed profile shows the chain id alone; the others show the verification, the head and whether a
  -- signer is configured.
  abbrev pub IsShown : ChainVerification → ℕ → Details → Type 0
  IsShown v block_number details =
      ((config.app.is_deployed_profile ≡ true) × (details ≡ ("chainId", str v.chain_id) ∷ []))
      ⊎ ((config.app.is_deployed_profile ≡ false)
          × (details
              ≡ ("chainId", str v.chain_id)
                ∷ ("blockNumber", num block_number)
                ∷ ("providerAddress", str v.provider_address)
                ∷ ("oracleAddress", optional v.oracle_address)
                ∷ ("signerAddress", optional v.signer_address)
                ∷ ("signerConfigured", bool (has_signer config.blockchain))
                ∷ ("coverageReserveWei", str (show v.coverage_reserve_wei))
                ∷ ("verifiedAt", str v.verified_at)
                ∷ []))

  chain_details_iff :
      (v : ChainVerification) (block_number : ℕ) (details : Details)
      → (details ≡ chain_details config v block_number) ↔ IsShown v block_number details
  unfolding chain_details
  chain_details_iff v block_number details = elim (Bool-cases config.app.is_deployed_profile) [
    | inl deployed ↦ (
      λ shown. inl (deployed, rw (deployed, chain_details) at shown),
      λ shown. elim shown [
        | inl (on, same) ↦ rw (deployed, chain_details) same
        | inr (off, same) ↦ let absurd : true ≡ false = sym deployed ∙ off in cc
      ],
    )
    | inr local ↦ (
      λ shown. inr (local, rw (local, chain_details) at shown),
      λ shown. elim shown [
        | inl (on, same) ↦ let absurd : true ≡ false = sym on ∙ local in cc
        | inr (off, same) ↦ rw (local, chain_details) same
      ],
    )
  ]

  -- The node answers both reads, reports the verified chain id, and no drift is found.
  pub record IsUp (v : ChainVerification) (b : Bootstrap) (details : Details) : Type 0 where
    pub block_number : ℕ
    pub same_chain : probe.chain_id ≡ ok v.chain_id
    pub head : probe.block_number ≡ ok block_number
    pub no_drift :
        truthy (detect_deployment_drift keccak256 string_of registry probe.now_ms probe.code b).0
        ≡ false
    pub shown : IsShown v block_number details

  conclude_iff :
      (v : ChainVerification) (block_number : ℕ) (found : Option String × Bootstrap)
      (details : Details)
      → ((conclude config keccak256 string_of registry v block_number found).0 ≡ up details)
        ↔ ((truthy found.0 ≡ false) × (details ≡ chain_details config v block_number))
  unfolding conclude
  conclude_iff v block_number (drift, b) details = elim (Bool-cases (truthy drift)) [
    | inl found ↦ (
      λ done. elim (down-ne-up (rw (found) at done)) [ ],
      λ (none_found, shown). let absurd : true ≡ false = sym found ∙ none_found in cc,
    )
    | inr clear ↦ (
      λ done. (clear, sym (up_inj (rw (clear) at done))),
      λ (none_found, shown). rw (clear, shown) refl,
    )
  ]

  compare_read :
      (v : ChainVerification) (b : Bootstrap) (details : Details) (chain_id : Result String)
      (block_number : Result ℕ)
      → probe.chain_id ≡ chain_id
      → probe.block_number ≡ block_number
      → (compare_chain config keccak256 string_of registry probe v
          (both probe.pick chain_id block_number)
          b).0
        ≡ up details
      → IsUp v b details
  unfolding compare_chain
  compare_read v b details (ok chain_id) (ok block_number) c h done =
      elim (Bool-cases (str_eq chain_id v.chain_id)) [
        | inl same ↦
            let (clear, shown) =
              (conclude_iff v block_number
                  (detect_deployment_drift keccak256 string_of registry probe.now_ms probe.code b)
                  details).0
                (rw (same) at done) in
            record {
              block_number = block_number;
              same_chain = c ∙ ap ok ((eq_iff chain_id v.chain_id).0 same);
              head = h;
              no_drift = clear;
              shown = (chain_details_iff v block_number details).0 shown;
            }
        | inr other ↦ elim (down-ne-up (rw (other) at done)) [ ]
      ]
  compare_read v b details (throw e) (ok block_number) c h done = elim (down-ne-up done) [ ]
  compare_read v b details (ok chain_id) (throw e) c h done = elim (down-ne-up done) [ ]
  compare_read v b details (throw e) (throw e') c h done = elim (down-ne-up done) [ ]

  IsUp-compare_chain :
      (v : ChainVerification) (b : Bootstrap) (details : Details)
      → IsUp v b details
      → (compare_chain config keccak256 string_of registry probe v
          (both probe.pick probe.chain_id probe.block_number)
          b).0
        ≡ up details
  unfolding compare_chain
  IsUp-compare_chain v b details u =
      rw (u.same_chain, u.head, eq_refl v.chain_id)
        ((conclude_iff v u.block_number
            (detect_deployment_drift keccak256 string_of registry probe.now_ms probe.code b)
            details).1
          (u.no_drift, (chain_details_iff v u.block_number details).1 u.shown))

  check_verified_iff :
      (b : Bootstrap) (details : Details) (o : Option ChainVerification)
      → ((check_verified config keccak256 string_of registry probe o b).0 ≡ up details)
        ↔ ((v : ChainVerification) × (o ≡ some v) × IsUp v b details)
  unfolding check_verified
  check_verified_iff b details none = (
    λ done. elim (down-ne-up done) [ ],
    λ (v, present, u). let absurd : none ≡ some v = present in cc,
  )
  check_verified_iff b details (some w) = (
    λ done. (w, refl, compare_read w b details _ _ refl refl done),
    λ (v, present, u).
        let this : v ≡ w = grind arith in
        subst
          (λ x.
            (compare_chain config keccak256 string_of registry probe x
              (both probe.pick probe.chain_id probe.block_number) b).0
            ≡ up details)
          this (IsUp-compare_chain v b details u),
  )

  -- The readiness probe reports the chain up, with some details, exactly where a node is configured,
  -- boot has recorded a verification, the node answers for its head and with the verified chain id, the
  -- drift check finds nothing, and the details are the chain id alone in a deployed profile, or the
  -- verification, the head and whether a signer is configured in another.
  pub chain_health_iff :
      (b : Bootstrap) (details : Details)
      → ((chain_health config keccak256 string_of registry probe b).0 ≡ up details) ↔ (
          (is_enabled config.blockchain ≡ true)
          × ((v : ChainVerification) × (b.verification ≡ some v) × IsUp v b details))
  unfolding chain_health
  chain_health_iff b details = elim (Bool-cases (is_enabled config.blockchain)) [
    | inl enabled ↦ (
      λ done. (enabled, (check_verified_iff b details b.verification).0 (rw (enabled) at done)),
      λ (on, rest). rw (enabled) ((check_verified_iff b details b.verification).1 rest),
    )
    | inr off ↦ (
      λ done. elim (down-ne-up (rw (off) at done)) [ ],
      λ (on, rest). let absurd : true ≡ false = sym on ∙ off in cc,
    )
  ]
