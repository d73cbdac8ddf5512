-- ===== src/Bootstrap/Drift/Intact.antt =====
-- What a drift check that finds nothing has read.
use mathlib.Core.Path.{subst}
use climate_chain.Shared.{
  String, ◌≡◌, refl, sym, ◌⊎◌, inl, inr, true, arith, Option, str_eq, eq_iff, false, not, ◌&&◌,
  none, some, List, [], ◌∷◌, All, Bool-cases,
}
use climate_chain.Js.{Value, is_truthy, Result, ok, bind_ok, ok_inj}
use climate_chain.Registry.Json.{is_text}
use climate_chain.Registry.Load.{Manifest, Registry}
use climate_chain.Registry.Accessors.{get_manifest}
use climate_chain.Bootstrap.{
  ChainVerification, is_empty_code, recorded_hash, resolve_oracle_manifest_key,
}
use climate_chain.Bootstrap.Drift.{Target, targets, target_reason, drift_reason, check_drift}

pub some-ne-none : {A : Type 0} {a : A} → some a ≡ none → ⊥
some-ne-none h = cc

module _ (keccak256 : String → String) (registry : Registry) where
  -- The address holds code, and not other code than the manifest records under the key.
  pub record Holds (code : String → Result String) (address key : String) : Type 0 where
    pub found : String
    pub manifest : Manifest
    pub answered : code address ≡ ok found
    pub holds_code : is_empty_code found ≡ false
    pub loaded : get_manifest registry ≡ ok manifest
    pub matching :
        (is_truthy (recorded_hash manifest key) ≡ false)
        ⊎ (is_text (recorded_hash manifest key) (keccak256 found) ≡ true)

  HoldsTarget : (String → Result String) → Target → Type 0
  HoldsTarget code t = Holds code t.address t.key

  -- The oracle of the verification, where it has one, holds its code under the key that the manifest has for
  -- it.
  abbrev pub OracleHolds : (String → Result String) → Option String → Type 0
  OracleHolds code none = Unit
  OracleHolds code (some address) =
      (address ≡ "")
      ⊎ ((key : String) × (resolve_oracle_manifest_key registry ≡ ok key) × Holds code address key)

  -- The provider of the verification, and its oracle, where it has one, still hold their code.
  abbrev pub IsIntact : ChainVerification → (String → Result String) → Type 0
  IsIntact v code =
      Holds code v.provider_address "insuranceProvider" × OracleHolds code v.oracle_address

  module _ (string_of : Value → String) where
    drift_reason-none :
        (code : String → Result String) (ts : List Target)
        → drift_reason keccak256 string_of registry code ts ≡ ok none
        → All (HoldsTarget code) ts
    unfolding drift_reason target_reason HoldsTarget
    drift_reason-none code [] done = tt
    drift_reason-none code (t ∷ ts) done =
        let (found, answered, more) = bind_ok (code t.address) _ none done in
        elim (Bool-cases (is_empty_code found)) [
          | inl empty ↦ elim (some-ne-none (ok_inj (rw (empty) at more))) [ ]
          | inr holds ↦
              let (manifest, loaded, rest) =
                bind_ok (get_manifest registry) _ none (rw (holds) at more) in
              let other =
                is_truthy (recorded_hash manifest t.key)
                && not (is_text (recorded_hash manifest t.key) (keccak256 found)) in
              elim (Bool-cases other) [
                | inl differs ↦ elim (some-ne-none (ok_inj (rw (differs) at rest))) [ ]
                | inr same ↦ (
                  record {
                    found = found;
                    manifest = manifest;
                    answered = answered;
                    holds_code = holds;
                    loaded = loaded;
                    matching = ground arith;
                  },
                  drift_reason-none code ts (rw (same) at rest),
                )
              ]
        ]

    targets-IsIntact :
        (v : ChainVerification) (code : String → Result String) (oracle : Option String)
        (listed : List Target)
        → v.oracle_address ≡ oracle
        → targets registry v ≡ ok listed
        → All (HoldsTarget code) listed
        → Holds code v.provider_address "insuranceProvider" × OracleHolds code oracle
    unfolding targets HoldsTarget
    targets-IsIntact v code none listed at named all =
        let all' = subst (All (HoldsTarget code)) (sym (ok_inj (rw (at, targets) at named))) all in
        (all'.0, tt)
    targets-IsIntact v code (some address) listed at named all =
        elim (Bool-cases (str_eq address "")) [
          | inl empty ↦
              let all' =
                subst (All (HoldsTarget code)) (sym (ok_inj (rw (at, empty, targets) at named)))
                  all in
              (all'.0, inl ((eq_iff address "").0 empty))
          | inr filled ↦
              let (key, resolved, same) =
                bind_ok (resolve_oracle_manifest_key registry) _ listed
                  (rw (at, filled, targets) at named) in
              let all' = subst (All (HoldsTarget code)) (sym (ok_inj same)) all in
              (all'.0, inr (key, resolved, all'.1.0))
        ]

    pub check_drift-none :
        (v : ChainVerification) (code : String → Result String)
        → check_drift keccak256 string_of registry v code ≡ ok none
        → IsIntact v code
    unfolding check_drift
    check_drift-none v code done =
        let (listed, named, more) = bind_ok (targets registry v) _ none done in
        targets-IsIntact v code v.oracle_address listed refl named
          (drift_reason-none code listed more)
