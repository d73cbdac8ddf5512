-- ===== src/Config.antt =====
-- backend/src/config: the defaults, the shape of the configuration and the factory that reads it from
-- the environment. `number` is `Number(…)` limited to the finite naturals, which is what the
-- environment's schema lets through; `resolve_dir` is `path.resolve(process.cwd(), …)`.
pub mod Types
pub mod Laws
use climate_chain.Shared.{
  ℕ, zero, suc, ◌+◌, ◌-◌, ◌*◌, ◌/◌, ◌%◌, ◌^◌, ◌≤◌, ◌<◌, min, String, ◌≡◌, refl, sym, ap, ◌∙◌, ◌≢◌,
  ◌↔◌, ◌⊎◌, inl, inr, Bool, true, false, not, ◌&&◌, ◌||◌, Option, none, some, List, [], ◌∷◌, map,
  arith, str_eq, eq_iff, eq_refl, ltb, leb, ◌==◌, if◌then◌else◌, Bool-cases, Option-cases, includes,
  or_else, truthy, length, take, drop, All, All-append, get_elem?, replicate, All-map, All-zip,
  length-append, take-append-drop, length-take, length-drop, leb→le,
}
use Prim.Native.String.{◌++◌}
use climate_chain.Shared.Text.{trim, to_lower, split, show}
use climate_chain.Js.{Value, error_object, end, Result, ok, throw, ◌>>=◌, ◌>>◌}
use climate_chain.Config.Types

-- The environment variables that are set.
abbrev pub Env : Type 0
Env = String → Option String

unfoldable pub optional_string : Option String → Option String
optional_string none = none
optional_string (some value) =
    let trimmed = trim value in if str_eq trimmed "" then none else some trimmed

filter_nonempty : List String → List String
filter_nonempty [] = []
filter_nonempty (entry ∷ entries) =
    let rest = filter_nonempty entries in if str_eq entry "" then rest else entry ∷ rest

-- A comma-separated list, without its empty entries.
unfoldable pub optional_list : Option String → List String
unfolding filter_nonempty
optional_list value = filter_nonempty (map trim (split b',' (or_else (optional_string value) "")))

unfoldable pub optional_boolean : Option String → Bool → Bool
optional_boolean value fallback = elim (optional_string value) [
  | none ↦ fallback
  | some flag ↦ str_eq (to_lower flag) "true" || str_eq (to_lower flag) "1"
]

guard_error : Bool → String → Result (Unit {0})
guard_error true message = ok tt
guard_error false message = throw (error_object message end)

-- Deployed profiles may not run on development credentials.
unfoldable pub assert_deployed_profile_invariants : Types.RootConfig → Result (Unit {0})
unfolding guard_error
assert_deployed_profile_invariants config = if not config.app.is_deployed_profile then ok tt else do
  guard_error (not (str_eq config.auth.jwt_secret Types.local_jwt_secret)) (
      "JWT_SECRET resolves to the insecure local development placeholder for profile \""
      ++ config.app.node_env ++ "\". Set a real JWT_SECRET.")
  guard_error (truthy config.blockchain.rpc_url) (
      "RPC_URL is not configured for profile \"" ++ config.app.node_env
      ++ "\". Deployed profiles must target a real JSON-RPC endpoint.")
  guard_error (not (length config.app.cors_origins == 0)) (
      "CORS_ORIGINS is not configured for profile \"" ++ config.app.node_env
      ++ "\". Deployed profiles must declare an explicit origin allowlist instead of reflecting any origin.")
  guard_error (truthy config.blockchain.private_key) (
      "PRIVATE_KEY is not configured for profile \"" ++ config.app.node_env
      ++ "\". Policy creation is signed by this service, so an unsigned deployed instance would pass readiness and fail every write.")
  guard_error (leb Types.min_deployed_confirmations config.blockchain.confirmations) (
      "CHAIN_CONFIRMATIONS is "
      ++ show config.blockchain.confirmations
      ++ " for profile \""
      ++ config.app.node_env
      ++ "\", below the minimum of "
      ++ show Types.min_deployed_confirmations
      ++ ". A public chain can reorganize its head, and one confirmation would report policies that later cease to exist.")

module _ (number : String → Option ℕ) (resolve_dir : String → String) where
  unfoldable pub optional_number : Option String → Option ℕ
  optional_number value = elim (optional_string value) [
    | none ↦ none
    | some normalized ↦ number normalized
  ]

  abbrev string_or : Env → String → String → String
  string_or env name fallback = or_else (optional_string (env name)) fallback

  abbrev number_or : Env → String → ℕ → ℕ
  number_or env name fallback = or_else (optional_number (env name)) fallback

  -- The literal that the factory builds.
  unfoldable pub root_config : Env → Types.RootConfig
  root_config env =
      let node_env : String = string_or env "NODE_ENV" "development" in
      let is_deployed_profile : Bool = includes Types.deployed_profiles node_env in
      record {
        app = record {
          node_env = node_env;
          port = number_or env "PORT" 3000;
          is_deployed_profile = is_deployed_profile;
          cors_origins = optional_list (env "CORS_ORIGINS");
          swagger_enabled = optional_boolean (env "SWAGGER_ENABLED") (not is_deployed_profile);
          max_request_body_size = string_or env "MAX_REQUEST_BODY_SIZE" "64kb";
          trust_proxy = optional_string (env "TRUST_PROXY");
        };
        blockchain = record {
          network = string_or env "BLOCKCHAIN_NETWORK" "hardhat";
          chain_id = optional_number (env "CHAIN_ID");
          rpc_url = optional_string (env "RPC_URL");
          private_key = optional_string (env "PRIVATE_KEY");
          factory_address = optional_string (env "FACTORY_ADDRESS");
          shared_abi_dir = resolve_dir (string_or env "SHARED_ABI_DIR" "../shared/abi");
          deployments_dir =
              resolve_dir (string_or env "CONTRACTS_DEPLOYMENTS_DIR" "../contracts/deployments");
          confirmations = number_or env "CHAIN_CONFIRMATIONS" 1;
          rpc_timeout_ms = number_or env "CHAIN_RPC_TIMEOUT_MS" 10000;
          tx_timeout_ms = number_or env "CHAIN_TX_TIMEOUT_MS" 120000;
          retry_attempts = number_or env "CHAIN_RETRY_ATTEMPTS" 3;
          retry_base_delay_ms = number_or env "CHAIN_RETRY_BASE_DELAY_MS" 250;
          max_page_size = number_or env "CHAIN_MAX_PAGE_SIZE" 50;
          read_rate_limit_ttl_seconds = number_or env "CHAIN_READ_RATE_LIMIT_TTL_SECONDS" 60;
          read_rate_limit_max = number_or env "CHAIN_READ_RATE_LIMIT_MAX" 60;
        };
        ml_service = record {
          base_url = string_or env "ML_SERVICE_BASE_URL" "http://localhost:8000";
          timeout_ms = number_or env "ML_SERVICE_TIMEOUT_MS" 5000;
        };
        auth = record {
          jwt_secret = string_or env "JWT_SECRET" Types.local_jwt_secret;
          jwt_expires_in = string_or env "JWT_EXPIRES_IN" "1d";
          admin_api_key = optional_string (env "ADMIN_API_KEY");
          rate_limit_ttl_seconds = number_or env "AUTH_RATE_LIMIT_TTL_SECONDS" 60;
          rate_limit_max = number_or env "AUTH_RATE_LIMIT_MAX" 10;
        };
        logging = record {
          level = string_or env "LOG_LEVEL" "info";
          pretty = not is_deployed_profile;
        };
        persistence = record { database_url = optional_string (env "DATABASE_URL") };
      }

  pub configuration : Env → Result Types.RootConfig
  configuration env = do assert_deployed_profile_invariants (root_config env); ok (root_config env)
