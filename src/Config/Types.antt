-- ===== src/Config/Types.antt =====
-- backend/src/config/config.types.ts, and the constants of config.defaults.ts that are compared with.
use climate_chain.Shared.{ℕ, String, Bool, Option, List, [], ◌∷◌}

pub record AppRuntimeConfig : Type 0 where
  pub node_env : String
  pub port : ℕ
  pub is_deployed_profile : Bool
  pub cors_origins : List String
  pub swagger_enabled : Bool
  pub max_request_body_size : String
  pub trust_proxy : Option String

pub record BlockchainConfig : Type 0 where
  pub network : String
  pub chain_id : Option ℕ
  pub rpc_url : Option String
  pub private_key : Option String
  pub factory_address : Option String
  pub shared_abi_dir : String
  pub deployments_dir : String
  pub confirmations : ℕ
  pub rpc_timeout_ms : ℕ
  pub tx_timeout_ms : ℕ
  pub retry_attempts : ℕ
  pub retry_base_delay_ms : ℕ
  pub max_page_size : ℕ
  pub read_rate_limit_ttl_seconds : ℕ
  pub read_rate_limit_max : ℕ

pub record MlServiceConfig : Type 0 where
  pub base_url : String
  pub timeout_ms : ℕ

pub record AuthConfig : Type 0 where
  pub jwt_secret : String
  pub jwt_expires_in : String
  pub admin_api_key : Option String
  pub rate_limit_ttl_seconds : ℕ
  pub rate_limit_max : ℕ

pub record LoggingConfig : Type 0 where
  pub level : String
  pub pretty : Bool

pub record PersistenceConfig : Type 0 where
  pub database_url : Option String

pub record RootConfig : Type 0 where
  pub app : AppRuntimeConfig
  pub blockchain : BlockchainConfig
  pub ml_service : MlServiceConfig
  pub auth : AuthConfig
  pub logging : LoggingConfig
  pub persistence : PersistenceConfig

abbrev pub local_jwt_secret : String
local_jwt_secret = "local-development-insecure-jwt-secret-change-me"

abbrev pub min_deployed_confirmations : ℕ
min_deployed_confirmations = 2

abbrev pub deployed_profiles : List String
deployed_profiles = "staging" ∷ "testnet" ∷ "production" ∷ []
