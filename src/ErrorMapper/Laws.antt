-- ===== src/ErrorMapper/Laws.antt =====
-- What `toHttpException` promises to the caller of the API.
use climate_chain.Shared.{String, ◌≡◌, refl, false, Option, none, some, List, or_else, arith}
use climate_chain.Shared.Dict.{get}
use climate_chain.Js.{Value, http, undefined, ExceptionClass}
use climate_chain.Retry.{is_transient_rpc_error}
use climate_chain.ErrorMapper.Failures.{submission_failures}
use climate_chain.ErrorMapper.{
  ParsedError, read_error_code, to_exception, unreachable_node, unexpected_failure,
  submission_or_unexpected, not_http_exception, to_http_exception,
}
use climate_chain.ErrorMapper.Reverts.{IsUndecoded, decode_revert_iff}

abbrev pub exception_class : Value → Option ExceptionClass
exception_class (http cls response cause) = some cls
exception_class v = none

abbrev pub response_of : Value → Value
response_of (http cls response cause) = response
response_of v = undefined

-- An instance of `HttpException`.
abbrev pub IsHttp : Value → Type 0
IsHttp (http cls response cause) = Unit
IsHttp v = ⊥

module _ {Interface : Type 0} (parse_error : Interface → String → Option ParsedError)
    (string_of : Value → String) where
  -- No interface decodes the value, it is not transient, and its code is no submission failure.
  pub record Unrecognised (thrown : Value) (interfaces : List Interface) : Type 0 where
    pub undecoded : IsUndecoded parse_error string_of thrown interfaces
    pub permanent : is_transient_rpc_error thrown ≡ false
    pub uncoded : get (or_else (read_error_code thrown) "") submission_failures ≡ none

  unexpected_response :
      (thrown : Value) (interfaces : List Interface) (context : String)
      → exception_class thrown ≡ none
      → Unrecognised thrown interfaces
      → to_http_exception parse_error string_of thrown interfaces context
        ≡ unexpected_failure parse_error string_of thrown context
  unfolding to_http_exception not_http_exception submission_or_unexpected
  unexpected_response (http cls response cause) interfaces context h u = cc
  unexpected_response thrown interfaces context h u = ground (
    arith,
    (decode_revert_iff parse_error string_of thrown interfaces).1 u.undecoded,
    u.permanent,
    u.uncoded,
  )

  pub unexpected_http :
      (thrown : Value) (interfaces : List Interface) (context : String)
      → exception_class thrown ≡ none
      → Unrecognised thrown interfaces
      → (response : Value) × (cause : Value) × (response
          ≡ response_of (unexpected_failure parse_error string_of undefined context))
        × (to_http_exception parse_error string_of thrown interfaces context
            ≡ http ExceptionClass.internal response cause)
  unfolding unexpected_failure
  unexpected_http thrown interfaces context h u =
      (_, _, refl, unexpected_response thrown interfaces context h u)

  -- The body of such a 500 is the same for any two values, so nothing of the node's own message
  -- reaches the caller.
  pub Unrecognised-response_eq :
      (one other : Value) (interfaces : List Interface) (context : String)
      → exception_class one ≡ none
      → exception_class other ≡ none
      → Unrecognised one interfaces
      → Unrecognised other interfaces
      → response_of (to_http_exception parse_error string_of one interfaces context)
        ≡ response_of (to_http_exception parse_error string_of other interfaces context)
  unfolding unexpected_failure
  Unrecognised-response_eq one other interfaces context p q u v = rw (
    unexpected_response one interfaces context p u,
    unexpected_response other interfaces context q v,
  )

  not_http_exception-IsHttp :
      (thrown : Value) (interfaces : List Interface) (context : String)
      → IsHttp (not_http_exception parse_error string_of thrown interfaces context)
  unfolding not_http_exception submission_or_unexpected to_exception unreachable_node
      unexpected_failure
  not_http_exception-IsHttp thrown interfaces context = ground arith

  pub to_http_exception-IsHttp :
      (thrown : Value) (interfaces : List Interface) (context : String)
      → IsHttp (to_http_exception parse_error string_of thrown interfaces context)
  unfolding to_http_exception
  to_http_exception-IsHttp (http cls response cause) interfaces context = tt
  to_http_exception-IsHttp thrown interfaces context =
      not_http_exception-IsHttp thrown interfaces context

  http_unchanged :
      (v : Value) (interfaces : List Interface) (context : String)
      → IsHttp v
      → to_http_exception parse_error string_of v interfaces context ≡ v
  unfolding to_http_exception
  http_unchanged (http cls response cause) interfaces context h = refl
  http_unchanged v interfaces context h = absurd h

  -- Mapping a mapped failure again, under any interfaces and context, changes nothing: the handlers
  -- may nest.
  pub to_http_exception_idem :
      (thrown : Value) (interfaces others : List Interface) (context outer : String)
      → to_http_exception parse_error string_of
          (to_http_exception parse_error string_of thrown interfaces context)
          others
          outer
        ≡ to_http_exception parse_error string_of thrown interfaces context
  to_http_exception_idem thrown interfaces others context outer =
      http_unchanged _ others outer (to_http_exception-IsHttp thrown interfaces context)
