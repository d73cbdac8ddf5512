-- ===== src/Scripts/ContractSize.antt =====
-- contracts/scripts/report-contract-size.ts: the sizes of the contracts against the limit of EIP-170 and
-- against a baseline. Sizes are in whole bytes. `Number`, `JSON.parse` and the file system are parameters.
pub mod Sizes
pub mod Laws
use climate_chain.Shared.{
  ℕ, ◌-◌, ◌/◌, ◌==◌, ◌+◌, Bool, true, false, not, ◌&&◌, ◌||◌, Option, none, some, String, List, [],
  ◌∷◌, ◌++◌, map, str_eq, ltb, includes, is_some, or_else, length, if◌then◌else◌,
}
use climate_chain.Shared.Dict.{Dict, get, set}
use climate_chain.Shared.Text.{codes, join, show}
use climate_chain.Js.{
  pos, negsuc, Number, not_finite, fraction, whole, Value, as_string, prop, Result, ok, throw,
  ◌>>=◌, ◌>>◌,
}
use climate_chain.Registry.Json.{error, member}
use climate_chain.Scripts.StaticAnalysis.Scan.{after_prefix}

pub record ContractSizeEntry : Type 0 where
  pub contract_name : String
  pub deployed_bytecode_bytes : ℕ

abbrev pub target_contracts : List String
target_contracts = "InsuranceProvider" ∷ "InsurancePolicy" ∷ "MockWeatherOracle" ∷ []

abbrev pub max_eip170_bytes : ℕ
max_eip170_bytes = 24576

-- `Number.isFinite`, `Number.isInteger` and `n < 0` on a whole number; the magnitude of one that is not
-- negative.
abbrev pub is_finite : Number → Bool
is_finite not_finite = false
is_finite n = true

abbrev pub is_integer : Number → Bool
is_integer (whole z) = true
is_integer n = false

abbrev pub is_negative : Number → Bool
is_negative (whole (negsuc n)) = true
is_negative n = false

abbrev pub magnitude : Number → ℕ
magnitude (whole (pos n)) = n
magnitude n = 0

-- The sign of a fraction is not asked for, since a fraction is refused already.
abbrev pub checked_tolerance : Number → Result ℕ
checked_tolerance parsed =
    if not (is_finite parsed) || not (is_integer parsed) || is_negative parsed
    then throw (
        error (
          "SIZE_GROWTH_TOLERANCE_BYTES must be a non-negative integer (for example: 0, 128, 512)."
          ∷ []))
    else ok (magnitude parsed)

-- `number_of` is `Number(text)`.
unfoldable pub parse_growth_tolerance_bytes : (String → Number) → Option String → Result ℕ
parse_growth_tolerance_bytes number_of raw = checked_tolerance (number_of (or_else raw "512"))

unfoldable pub deployed_bytecode_size_in_bytes : String → ℕ
unfolding after_prefix
deployed_bytecode_size_in_bytes bytecode =
    if str_eq bytecode "" || str_eq bytecode "0x"
    then 0
    else length (codes (or_else (after_prefix "0x" bytecode) bytecode)) / 2

-- One artifact file: artifacts that are not of a tracked contract are passed over.
unfoldable pub select_artifact : Dict ContractSizeEntry → Value → Result (Dict ContractSizeEntry)
select_artifact selected artifact = do
  field ← member artifact "contractName"
  let name = or_else (as_string field) ""
  ok (
      if str_eq name "" || not (includes target_contracts name)
      then selected
      else set name
          (record {
            contract_name = name;
            deployed_bytecode_bytes =
                deployed_bytecode_size_in_bytes
                  (or_else (as_string (prop "deployedBytecode" artifact)) "0x");
          })
          selected)

-- The loop over the files, each with what reading and parsing it gives.
unfoldable pub select_artifacts :
    Dict ContractSizeEntry → List (Result Value) → Result (Dict ContractSizeEntry)
unfolding select_artifact
select_artifacts selected [] = ok selected
select_artifacts selected (read ∷ files) = do
  artifact ← read
  selected' ← select_artifact selected artifact
  select_artifacts selected' files

unfoldable pub missing_from : List String → Dict ContractSizeEntry → List String
missing_from [] selected = []
missing_from (name ∷ names) selected =
    let rest = missing_from names selected in
    if is_some (get name selected) then rest else name ∷ rest

abbrev pub entries_of : Dict ContractSizeEntry → List ContractSizeEntry
entries_of [] = []
entries_of ((name, e) ∷ m) = e ∷ entries_of m

-- The sorted sizes, where no tracked contract is missing; `sort` with the order of `localeCompare` is `sorted`.
unfoldable pub sizes_unless_missing :
    (List ContractSizeEntry → List ContractSizeEntry)
    → Dict ContractSizeEntry
    → List String
    → Result (List ContractSizeEntry)
sizes_unless_missing sorted selected [] = ok (sorted (entries_of selected))
sizes_unless_missing sorted selected (name ∷ names) =
    throw (error ("Could not find artifacts for: " ∷ join ", " (name ∷ names) ∷ []))

-- A directory that cannot be read is `throw`.
unfoldable pub get_current_sizes :
    (List ContractSizeEntry → List ContractSizeEntry)
    → Result (List (Result Value))
    → Result (List ContractSizeEntry)
unfolding select_artifacts missing_from sizes_unless_missing
get_current_sizes sorted (throw e) =
    throw (
      error
        ("Artifacts directory was not found. Run 'npm run compile' before size reporting." ∷ []))
get_current_sizes sorted (ok files) = do
  selected ← select_artifacts [] files
  sizes_unless_missing sorted selected (missing_from target_contracts selected)

unfoldable pub assert_eip170_limit : List ContractSizeEntry → Result (Unit {0})
assert_eip170_limit [] = ok tt
assert_eip170_limit (e ∷ es) =
    let rest = assert_eip170_limit es in
    if ltb max_eip170_bytes e.deployed_bytecode_bytes
    then throw (
        error (
          e.contract_name
          ∷ " exceeds EIP-170 size limit ("
          ∷ show e.deployed_bytecode_bytes
          ∷ " > "
          ∷ show max_eip170_bytes
          ∷ ")."
          ∷ []))
    else rest

-- `baseline.find((item) => item.contractName === name)`
abbrev pub find_baseline : String → List ContractSizeEntry → Option ContractSizeEntry
find_baseline name [] = none
find_baseline name (e ∷ es) =
    let rest = find_baseline name es in if str_eq e.contract_name name then some e else rest

-- One round of the loop and the rounds after it. A contract that shrank has a negative growth, which is below
-- any tolerance, as 0 is.
check_growth :
    ℕ → ContractSizeEntry → Option ContractSizeEntry → Result (Unit {0}) → Result (Unit {0})
check_growth tolerance e none rest = rest
check_growth tolerance e (some b) rest =
    let growth = e.deployed_bytecode_bytes - b.deployed_bytecode_bytes in
    if ltb tolerance growth
    then throw (
        error (
          e.contract_name
          ∷ " grew by "
          ∷ show growth
          ∷ " bytes, above tolerance of "
          ∷ show tolerance
          ∷ " bytes."
          ∷ []))
    else rest

unfoldable pub assert_growth_within_tolerance :
    ℕ → List ContractSizeEntry → List ContractSizeEntry → Result (Unit {0})
unfolding check_growth
assert_growth_within_tolerance tolerance [] baseline = ok tt
assert_growth_within_tolerance tolerance (e ∷ es) baseline =
    let rest = assert_growth_within_tolerance tolerance es baseline in
    check_growth tolerance e (find_baseline e.contract_name baseline) rest

-- The names of the current contracts that the baseline lacks.
abbrev pub untracked : List ContractSizeEntry → List ContractSizeEntry → List String
untracked [] baseline = []
untracked (e ∷ es) baseline =
    let rest = untracked es baseline in
    if is_some (find_baseline e.contract_name baseline) then rest else e.contract_name ∷ rest

abbrev reject_untracked : List String → Result (Unit {0})
reject_untracked [] = ok tt
reject_untracked (m ∷ ms) = throw (
    error (
      "Baseline is missing tracked contracts: "
      ∷ join ", " (m ∷ ms)
      ∷ ". Run 'npm run size:baseline:update' after reviewing expected changes."
      ∷ []))

unfoldable pub assert_baseline_has_tracked_contracts :
    List ContractSizeEntry → List ContractSizeEntry → Result (Unit {0})
assert_baseline_has_tracked_contracts current baseline =
    reject_untracked (untracked current baseline)

-- What `main` does once the sizes are known: the baseline that it writes, if any. `baseline` is absent
-- where the file cannot be read or has no `contracts`, and `update` is `UPDATE_SIZE_BASELINE === "true"`.
compare_sizes :
    ℕ
    → Bool
    → Option (List ContractSizeEntry)
    → List ContractSizeEntry
    → Result (Option (List ContractSizeEntry))
compare_sizes tolerance update none current = ok (some current)
compare_sizes tolerance update (some baseline) current = if update then ok (some current) else do
  tracked ← assert_baseline_has_tracked_contracts current baseline
  within ← assert_growth_within_tolerance tolerance current baseline
  ok none

-- `main`. The tolerance is parsed when the module is loaded, before anything else.
unfoldable pub main :
    (String → Number)
    → (List ContractSizeEntry → List ContractSizeEntry)
    → Option String
    → Bool
    → Option (List ContractSizeEntry)
    → Result (List (Result Value))
    → Result (Option (List ContractSizeEntry))
unfolding compare_sizes
main number_of sorted raw_tolerance update baseline artifacts = do
  tolerance ← parse_growth_tolerance_bytes number_of raw_tolerance
  current ← get_current_sizes sorted artifacts
  limited ← assert_eip170_limit current
  compare_sizes tolerance update baseline current
