-- ===== src/Bootstrap/Identity.antt =====
-- What the check of one contract's code guarantees.
use climate_chain.Shared.{
  ℕ, ◌-◌, ◌/◌, String, ◌≡◌, refl, sym, ◌↔◌, ◌⊎◌, inl, inr, true, false, arith, length, Bool-cases,
}
use climate_chain.Shared.Text.{codes}
use climate_chain.Config.Types.{RootConfig}
use climate_chain.Js.{Value, is_truthy, ok, ◌>>=◌, bind_ok, ok_inj, throw-ne-ok}
use climate_chain.Registry.Json.{is_text}
use climate_chain.Registry.Load.{Manifest, Registry}
use climate_chain.Registry.Accessors.{get_manifest}
use climate_chain.Bootstrap.{
  Node, is_empty_code, recorded_hash, check_identity, assert_bytecode_identity,
  assert_contract_deployed,
}

module _ (config : RootConfig) (keccak256 : String → String) where
  -- The code has the recorded hash, or none is recorded and the profile is not a deployed one.
  abbrev pub Identified : Value → String → Type 0
  Identified expected code =
      ((is_truthy expected ≡ true) × (is_text expected (keccak256 code) ≡ true))
      ⊎ ((is_truthy expected ≡ false) × (config.app.is_deployed_profile ≡ false))

  -- The address holds code that the manifest identifies under the key, of that size.
  pub record IsContractAt (registry : Registry) (node : Node) (address key : String) (size : ℕ)
      : Type 0 where
    pub code : String
    pub manifest : Manifest
    pub answered : node.code address ≡ ok code
    pub holds_code : is_empty_code code ≡ false
    pub loaded : get_manifest registry ≡ ok manifest
    pub identified : Identified (recorded_hash manifest key) code
    pub measured : size ≡ (length (codes code) - 2) / 2

  module _ (string_of : Value → String) where
    check_identity_iff :
        (expected : Value) (address label key code : String)
        → (check_identity config keccak256 string_of expected address label key code ≡ ok tt)
          ↔ Identified expected code
    unfolding check_identity
    check_identity_iff expected address label key code = (λ h. ground arith, λ h. ground arith)

    -- The check of a contract passes, with a size, exactly where the node answers with some code for
    -- the address, of that size, whose hash the loaded manifest records under the key, or where no hash is
    -- recorded and the profile is not a deployed one.
    pub assert_contract_deployed_iff :
        (registry : Registry) (node : Node) (address label key : String) (size : ℕ)
        → (assert_contract_deployed config keccak256 string_of registry node address label key
            ≡ ok size)
          ↔ IsContractAt registry node address key size
    unfolding assert_contract_deployed assert_bytecode_identity
    assert_contract_deployed_iff registry node address label key size = (
      λ done.
          let (code, answered, more) = bind_ok (node.code address) _ size done in
          elim (Bool-cases (is_empty_code code)) [
            | inl empty ↦ elim (throw-ne-ok (rw (empty) at more)) [ ]
            | inr holds ↦
                let passed : (assert_bytecode_identity config keccak256 string_of registry address
                        label key code
                      >>= λ u. ok ((length (codes code) - 2) / 2))
                    ≡ ok size =
                  rw (holds) at more in
                let (u, identified, same) =
                  bind_ok
                    (assert_bytecode_identity config keccak256 string_of registry address label key
                      code)
                    _ size passed in
                let (manifest, loaded, checked) = bind_ok (get_manifest registry) _ u identified in
                record {
                  code = code;
                  manifest = manifest;
                  answered = answered;
                  holds_code = holds;
                  loaded = loaded;
                  identified =
                      (check_identity_iff (recorded_hash manifest key) address label key code).0
                        checked;
                  measured = sym (ok_inj same);
                }
          ],
      λ found.
          rw
            (
              found.answered,
              found.holds_code,
              found.loaded,
              (check_identity_iff (recorded_hash found.manifest key) address label key found.code).1
                  found.identified,
              found.measured,
            )
            refl,
    )
