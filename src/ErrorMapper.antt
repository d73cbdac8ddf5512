-- ===== src/ErrorMapper.antt =====
-- backend/src/modules/blockchain/chain-error.mapper.ts: chain failures as HTTP exceptions.
-- `Interface.parseError` is ethers' and is a parameter: it gives the name of the custom error, the
-- names of its inputs ("" for an unnamed one) and the arguments as `String(…)` shows them. So is
-- `String(…)` of a thrown value that is no `Error`. Names that `Object.prototype` has are no keys of
-- the tables here.
pub mod Tables
pub mod Failures
pub mod Reverts
pub mod Laws
use Prim.Native.String.{◌++◌, count}
use climate_chain.Shared.{
  ℕ, zero, suc, ◌+◌, String, Option, none, some, List, [], ◌∷◌, map, ltb, or_else, str_eq,
  if◌then◌else◌,
}
use climate_chain.Shared.Dict.{Dict, get, set}
use climate_chain.Shared.Text.{show, join}
use climate_chain.Js.{
  Value, undefined, str, error_object, http, end, prop, as_string, ExceptionClass,
}
use climate_chain.Retry.{is_transient_rpc_error}
use climate_chain.ErrorMapper.Tables.{RevertStatus, RevertMapping}
use climate_chain.ErrorMapper.Failures.{revert_mappings, submission_failures}

unfoldable pub read_error_code : Value → Option String
read_error_code thrown = as_string (prop "code" thrown)

-- A decoded revert, before it becomes an HTTP exception.
pub record DecodedRevert : Type 0 where
  pub name : String
  pub args : Dict String
  pub mapping : Option RevertMapping

-- What `Interface.parseError` gives.
pub record ParsedError : Type 0 where
  pub name : String
  pub inputs : List String
  pub args : List String

-- `typeof v === "string" && v.length > 2`
unfoldable pub hex_payload : Value → Option String
hex_payload v = elim (as_string v) [
  | none ↦ none
  | some s ↦ if ltb 2 (count s) then some s else none
]

-- The payload itself, or the one that some providers nest a level deeper.
unfoldable pub read_revert_data : Value → Option String
unfolding hex_payload
read_revert_data thrown = elim (hex_payload (prop "data" thrown)) [
  | some data_hex ↦ some data_hex
  | none ↦ hex_payload (prop "data" (prop "error" (prop "info" thrown)))
]

name_args : ℕ → List String → List String → Dict String → Dict String
name_args index [] args acc = acc
name_args index (input ∷ inputs) [] acc = acc
name_args index (input ∷ inputs) (arg ∷ args) acc =
    name_args (index + 1) inputs args
      (set (if str_eq input "" then "arg" ++ show index else input) arg acc)

pub decoded : ParsedError → DecodedRevert
decoded parsed = record {
  name = parsed.name;
  args = name_args 0 parsed.inputs parsed.args [];
  mapping = get parsed.name revert_mappings;
}

abbrev show_arg : String × String → String
show_arg (key, value) = key ++ "=" ++ value

pub build_message : DecodedRevert → String
build_message d =
    let base : String = elim d.mapping [
      | some mapping ↦ mapping.message
      | none ↦ "Contract reverted: " ++ d.name
    ] in
    elim d.args [
      | [] ↦ base
      | entry ∷ entries ↦
          base ++ " (" ++ d.name ++ ": " ++ join ", " (map show_arg (entry ∷ entries)) ++ ")"
    ]

abbrev pub class_of : RevertStatus → ExceptionClass
class_of RevertStatus.bad_request = ExceptionClass.bad_request
class_of RevertStatus.conflict = ExceptionClass.conflict
class_of RevertStatus.not_found = ExceptionClass.not_found
class_of RevertStatus.unavailable = ExceptionClass.unavailable

unfoldable pub to_exception : RevertStatus → String → Value
to_exception status message = http (class_of status) (str message) undefined

-- `decoded.mapping?.status ?? "bad-request"`
abbrev pub status_or_bad_request : Option RevertMapping → RevertStatus
status_or_bad_request none = RevertStatus.bad_request
status_or_bad_request (some mapping) = mapping.status

abbrev as_cause : (Value → String) → Value → Value
as_cause string_of (error_object message fs) = error_object message fs
as_cause string_of (http cls response cause) = http cls response cause
as_cause string_of thrown = error_object (string_of thrown) end

module _ {Interface : Type 0} (parse_error : Interface → String → Option ParsedError)
    (string_of : Value → String) where
  -- The first interface that knows the payload decodes it.
  pub first_parsed : String → List Interface → Option DecodedRevert
  first_parsed payload [] = none
  first_parsed payload (iface ∷ interfaces) = elim (parse_error iface payload) [
    | none ↦ first_parsed payload interfaces
    | some parsed ↦ some (decoded parsed)
  ]

  unfoldable pub decode_revert : Value → List Interface → Option DecodedRevert
  decode_revert thrown interfaces = elim (read_revert_data thrown) [
    | none ↦ none
    | some payload ↦ first_parsed payload interfaces
  ]

  pub unreachable_node : String → Value
  unreachable_node context =
      http ExceptionClass.unavailable
        (str (
          "The blockchain node is unreachable or not responding (" ++ context ++ "). "
          ++ "The request can be retried."))
        undefined

  pub unexpected_failure : Value → String → Value
  unexpected_failure thrown context =
      http ExceptionClass.internal
        (str ("Unexpected failure while communicating with the blockchain (" ++ context ++ ")"))
        (as_cause string_of thrown)

  pub submission_or_unexpected : Value → String → Value
  submission_or_unexpected thrown context =
      elim (get (or_else (read_error_code thrown) "") submission_failures) [
        | some failure ↦ to_exception failure.status failure.message
        | none ↦ unexpected_failure thrown context
      ]

  not_http_exception : Value → List Interface → String → Value
  not_http_exception thrown interfaces context = elim (decode_revert thrown interfaces) [
    | some d ↦ to_exception (status_or_bad_request d.mapping) (build_message d)
    | none ↦
        if is_transient_rpc_error thrown
        then unreachable_node context
        else submission_or_unexpected thrown context
  ]

  unfoldable pub to_http_exception : Value → List Interface → String → Value
  unfolding not_http_exception
  to_http_exception (http cls response cause) interfaces context = http cls response cause
  to_http_exception thrown interfaces context = not_http_exception thrown interfaces context
