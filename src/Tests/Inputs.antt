-- ===== src/Tests/Inputs.antt =====
-- The validators, the configuration and the error mapper on concrete inputs.
use climate_chain.Shared.{
  inl, ℕ, ◌*◌, ◌≤◌, ◌<◌, ◌^◌, String, ◌≡◌, ◌↔◌, ◌⊎◌, refl, true, false, Option, none, some, [], ◌∷◌,
  ◌++◌, arith, length, or_else, includes, str_eq,
}
use climate_chain.Shared.Text.{codes, to_lower}
use climate_chain.Js.{Value, str, Result, ok, ok_inj}
use climate_chain.Shared.{◌==◌, if◌then◌else◌}
use climate_chain.ErrorMapper.{read_error_code}
use climate_chain.Js.{ok_inj}
use Prim.Native.Char.{Char, code}
use climate_chain.Shared.Dict.{get}
use climate_chain.Retry.{is_transient_rpc_error}
use climate_chain.EthAmount.{parse_eth_to_wei, split_dot}
use climate_chain.EthAmount.Digits.{value_from, all_digits, all_zeros}
use climate_chain.EthAmount.Exact.{parse_eth_to_wei_exact, rejoin}
use climate_chain.Policy.Constants.{min_premium_bps, basis_points_denominator}
use climate_chain.Policy.Validators.{is_at_least_min_premium, is_within_start_window}
use climate_chain.Policy.Validators.Laws.{
  ContractWindow, is_at_least_min_premium_iff, is_within_start_window-ContractWindow,
}
use climate_chain.EvmAddress.{normalize_evm_address, matches_evm_address, parse_evm_address}
use climate_chain.EvmAddress.Laws.{HasNoCapital, parse_evm_address_canonical}
use climate_chain.RegionCode.{Bytes32}
use climate_chain.RegionCode.Laws.{without_nuls}
use climate_chain.Config.{Env, configuration, root_config, optional_string}
use climate_chain.Config.Types.{deployed_profiles}
use climate_chain.Config.Laws.{IsDeployable, configuration_iff}
use climate_chain.ErrorMapper.{read_error_code, to_http_exception}
use climate_chain.ErrorMapper.Laws.{Unrecognised, to_http_exception_idem}
use climate_chain.Tests.Data.{no_errors, no_text, odd_error}

one_eth : parse_eth_to_wei "1.0" ≡ ok 1000000000000000000
unfolding parse_eth_to_wei all_digits all_zeros
one_eth = refl

small_premium : parse_eth_to_wei "0.01" ≡ ok 10000000000000000
unfolding parse_eth_to_wei all_digits all_zeros
small_premium = refl

parse_eth_to_wei_exact_example :
    let (whole, fraction) = split_dot (codes "1.0") in
    (codes "1.0" ≡ rejoin whole fraction)
    × (1000000000000000000 * 10 ^ length (or_else fraction [])
        ≡ value_from 0 (whole ++ or_else fraction []) * 10 ^ 18)
    × (0 < 1000000000000000000)
    × (1000000000000000000 < 10 ^ 48)
parse_eth_to_wei_exact_example = parse_eth_to_wei_exact "1.0" 1000000000000000000 one_eth

is_at_least_min_premium_iff_example :
    (is_at_least_min_premium (str "0.01") (str "1.0") ≡ true)
    ↔ (1000000000000000000 * min_premium_bps ≤ 10000000000000000 * basis_points_denominator)
is_at_least_min_premium_iff_example =
    is_at_least_min_premium_iff "0.01" "1.0" 10000000000000000 1000000000000000000 small_premium
      one_eth

is_within_start_window-ContractWindow_example : ContractWindow 1060 1300
unfolding is_within_start_window
is_within_start_window-ContractWindow_example =
    is_within_start_window-ContractWindow 1000000 1300 1060 refl (omega arith) (omega arith)

abbrev shouted : String
shouted = "0xABCDEFABCDEFABCDEFABCDEFABCDEFABCDEFABCD"

abbrev folded : String
folded = "0xabcdefabcdefabcdefabcdefabcdefabcdefabcd"

parse_evm_address_canonical_example :
    (folded ≡ to_lower shouted)
    × HasNoCapital folded
    × (matches_evm_address folded ≡ true)
    × (parse_evm_address folded ≡ ok folded)
unfolding parse_evm_address normalize_evm_address to_lower
parse_evm_address_canonical_example = parse_evm_address_canonical shouted folded refl

-- Puts a letter before the text; only such texts decode to more than nothing.
abbrev letter : Char
letter = Prim.Native.Char.char 120 tt

encode_text : String → Result String
encode_text s = ok (String.◌∷◌ letter s)

decode_text : String → Result String
decode_text String.[] = ok ""
decode_text (String.◌∷◌ c s) = if code c == 120 then ok (without_nuls s) else ok ""

abbrev marked_codec : Bytes32
marked_codec = record { encode = encode_text; decode = decode_text }

-- A staging environment with its secrets.
staging : Env
staging name =
    if str_eq name "NODE_ENV"
    then some "staging"
    else if str_eq name "JWT_SECRET"
    then some "a-secret-of-thirty-two-characters"
    else if str_eq name "RPC_URL"
    then some "https://rpc.example"
    else if str_eq name "PRIVATE_KEY"
    then some "0x01"
    else if str_eq name "CORS_ORIGINS"
    then some "https://app.example"
    else if str_eq name "CHAIN_CONFIRMATIONS"
    then some "3"
    else none

read_number : String → Option ℕ
read_number s = if str_eq s "3" then some 3 else none

same_dir : String → String
same_dir s = s

configuration_iff_example :
    (configuration read_number same_dir staging ≡ ok (root_config read_number same_dir staging)) ↔ (
      (includes deployed_profiles (or_else (optional_string (staging "NODE_ENV")) "development")
        ≡ false)
      ⊎ IsDeployable (root_config read_number same_dir staging))
configuration_iff_example = configuration_iff read_number same_dir staging

pub undecoded_odd : Unrecognised no_errors no_text odd_error (0 ∷ [])
unfolding is_transient_rpc_error read_error_code get
undecoded_odd = record { undecoded = inl (inl refl, inl refl); permanent = refl; uncoded = refl }

abbrev pub other_error : Value
other_error = str "something else"

pub undecoded_other : Unrecognised no_errors no_text other_error (0 ∷ [])
unfolding is_transient_rpc_error read_error_code get
undecoded_other = record { undecoded = inl (inl refl, inl refl); permanent = refl; uncoded = refl }

to_http_exception_idem_example :
    to_http_exception no_errors no_text
      (to_http_exception no_errors no_text odd_error (0 ∷ []) "read")
      []
      "again"
    ≡ to_http_exception no_errors no_text odd_error (0 ∷ []) "read"
to_http_exception_idem_example =
    to_http_exception_idem no_errors no_text odd_error (0 ∷ []) [] "read" "again"
