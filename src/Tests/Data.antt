-- ===== src/Tests/Data.antt =====
-- The data that several tests share.
use climate_chain.Shared.{ℕ, String, Option, none, some, [], ◌∷◌}
use climate_chain.Js.{Value, str, undefined, http, error_object, field, end, ExceptionClass, ok}
use climate_chain.Config.Types.{BlockchainConfig}
use climate_chain.ErrorMapper.{ParsedError}
use climate_chain.Idempotency.{SubmissionHandle, in_flight, submitted, Invocation, Server}
use climate_chain.RegionCode.{Bytes32}

abbrev pub test_config : BlockchainConfig
test_config = record {
  network = "localhost";
  chain_id = some 31337;
  rpc_url = some "http://127.0.0.1:8545";
  private_key = some "0x01";
  factory_address = none;
  shared_abi_dir = "abi";
  deployments_dir = "deployments";
  confirmations = 1;
  rpc_timeout_ms = 5000;
  tx_timeout_ms = 60000;
  retry_attempts = 3;
  retry_base_delay_ms = 200;
  max_page_size = 50;
  read_rate_limit_ttl_seconds = 60;
  read_rate_limit_max = 100;
}

abbrev pub timeout_error : Value
timeout_error = error_object "timed out" (field "code" (str "TIMEOUT") end)

abbrev pub odd_error : Value
odd_error = error_object "odd" end

abbrev pub lost_response : Value
lost_response = http ExceptionClass.unavailable (str "lost") undefined

abbrev pub no_errors : ℕ → String → Option ParsedError
no_errors iface payload = none

abbrev pub no_text : Value → String
no_text v = ""

abbrev pub test_handle : SubmissionHandle
test_handle = record { transaction_hash = "0xabc"; chain_id = some "31337"; nonce = some 7 }

abbrev pub test_invocation : Invocation
test_invocation = record {
  id = 0;
  key = "k";
  scoped = "admin:k";
  request_hash = "h";
  handed_over = none;
}

-- One operation runs.
abbrev pub waiting : {T : Type 0} → Server T
waiting = record {
  entries = ("admin:k", in_flight "h" 5) ∷ [];
  running = test_invocation ∷ [];
  next_id = 1;
}

-- An operation handed its transaction over and failed.
abbrev pub unresolved : Server ℕ
unresolved = record {
  entries = ("admin:k", submitted "h" 9 test_handle) ∷ [];
  running = [];
  next_id = 1;
}

abbrev pub fixed_codec : Bytes32
fixed_codec = record { encode = λ s. ok s; decode = λ s. ok s }
