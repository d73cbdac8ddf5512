-- ===== src/Config/Laws.antt =====
-- What a configuration that the factory returns can be relied on for.
use climate_chain.Shared.{
  ℕ, ◌≤◌, String, ◌≡◌, refl, ◌≢◌, ◌↔◌, ◌⊎◌, inl, inr, true, false, Option, [], arith, eq_iff,
  Bool-cases, includes, or_else, truthy,
}
use climate_chain.Js.{Result, ok, throw, ◌>>◌}
use climate_chain.Config.Types
use climate_chain.Config.{
  Env, optional_string, assert_deployed_profile_invariants, root_config, configuration,
}

-- A deployed profile runs with a secret of its own, a node, an origin list, a signer and at least two
-- confirmations.
pub record IsDeployable (config : Types.RootConfig) : Type 0 where
  pub secret : config.auth.jwt_secret ≢ Types.local_jwt_secret
  pub node : truthy config.blockchain.rpc_url ≡ true
  pub origins : config.app.cors_origins ≢ []
  pub signer : truthy config.blockchain.private_key ≡ true
  pub confirmed : Types.min_deployed_confirmations ≤ config.blockchain.confirmations

assert_deployed_profile_invariants_iff :
    (config : Types.RootConfig)
    → config.app.is_deployed_profile ≡ true
    → (assert_deployed_profile_invariants config ≡ ok tt) ↔ IsDeployable config
unfolding assert_deployed_profile_invariants
assert_deployed_profile_invariants_iff config deployed = (
  λ passed. record {
    secret = ground (arith, eq_iff config.auth.jwt_secret Types.local_jwt_secret);
    node = ground arith;
    origins = ground arith;
    signer = ground arith;
    confirmed = ground arith;
  },
  λ d. ground (
    arith,
    d.secret,
    d.node,
    d.origins,
    d.signer,
    d.confirmed,
    eq_iff config.auth.jwt_secret Types.local_jwt_secret,
  ),
)

local_profile_passes :
    (config : Types.RootConfig)
    → config.app.is_deployed_profile ≡ false
    → assert_deployed_profile_invariants config ≡ ok tt
unfolding assert_deployed_profile_invariants
local_profile_passes config local = rw local

then_ok_iff :
    (m : Result (Unit {0})) (config : Types.RootConfig)
    → ((m >> ok config) ≡ ok config) ↔ (m ≡ ok tt)
then_ok_iff (ok tt) config = ((λ h. refl), (λ h. refl))
then_ok_iff (throw e) config = ((λ h. cc), (λ h. cc))

module _ (number : String → Option ℕ) (resolve_dir : String → String) where
  -- The factory returns a configuration for a deployed profile exactly when the configuration is
  -- deployable; for any other profile it always returns one.
  pub configuration_iff :
      (env : Env)
      → (((configuration number resolve_dir env ≡ ok (root_config number resolve_dir env)) ↔ (
          (includes Types.deployed_profiles
              (or_else (optional_string (env "NODE_ENV")) "development")
            ≡ false)
          ⊎ IsDeployable (root_config number resolve_dir env))))
  unfolding configuration root_config
  configuration_iff env =
      let config : Types.RootConfig = root_config number resolve_dir env in
      let through = then_ok_iff (assert_deployed_profile_invariants config) config in
      elim (Bool-cases config.app.is_deployed_profile) [
        | inl deployed ↦
            let checked = assert_deployed_profile_invariants_iff config deployed in
            (
              λ h. inr (checked.0 (through.0 h)),
              λ either.
                  through.1
                    (elim either [ inl local ↦ cc (deployed, local) | inr d ↦ checked.1 d ]),
            )
        | inr local ↦ ((λ h. inl local), (λ either. through.1 (local_profile_passes config local)))
      ]
