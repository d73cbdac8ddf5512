-- ===== src/Tests/Failures.antt =====
-- Answers to thrown values.
use climate_chain.Shared.{ℕ, ◌≤◌, ◌≡◌, refl, ◌⊎◌, none, some, [], ◌∷◌}
use climate_chain.Js.{Value, num, http, error_object, field, end, ExceptionClass, undefined}
use climate_chain.ErrorMapper.{to_http_exception}
use climate_chain.Filter.{Nest, Request, catch_exception}
use climate_chain.Filter.Laws.{
  OffersStatus, OffersNoError, IgnoresCause, generic_body, catch_exception_other,
  Unrecognised-same_answer,
}
use climate_chain.Tests.Inputs.{other_error, undecoded_odd, undecoded_other}
use climate_chain.Tests.Data.{no_errors, no_text, odd_error}

abbrev class_status : ExceptionClass → ℕ
class_status ExceptionClass.internal = 500
class_status cls = 400

abbrev status_of : Value → ℕ
status_of (http cls response cause) = class_status cls
status_of v = 400

abbrev payload_of : Value → Value
payload_of (http cls response cause) = response
payload_of v = undefined

abbrev test_nest : Nest
test_nest = record {
  status = status_of;
  payload = payload_of;
  name = λ v. "Error";
  message = λ v. "";
}

abbrev test_request : Request
test_request = record { method = "GET"; original_url = none; url = "/policies"; id = some "7" }

abbrev too_large : Value
too_large = error_object "request entity too large" (field "status" (num 413) end)

catch_exception_other_example :
    let reply = catch_exception test_nest no_text test_request "now" too_large in
    (OffersStatus too_large reply.status × (400 ≤ reply.status) × (reply.status ≤ 599))
    ⊎ (OffersNoError too_large
        × (reply.status ≡ 500)
        × (reply.body ≡ generic_body test_nest no_text test_request "now"))
catch_exception_other_example =
    catch_exception_other test_nest no_text test_request "now" too_large refl

test_nest-IgnoresCause : IgnoresCause test_nest
test_nest-IgnoresCause = record {
  status = λ cls response c d. refl;
  payload = λ cls response c d. refl;
  name = λ cls response c d. refl;
  message = λ cls response c d. refl;
}

Unrecognised-same_answer_example :
    let a =
      catch_exception test_nest no_text test_request "now"
        (to_http_exception no_errors no_text odd_error (0 ∷ []) "listPolicies") in
    let b =
      catch_exception test_nest no_text test_request "now"
        (to_http_exception no_errors no_text other_error (0 ∷ []) "listPolicies") in
    (a.status ≡ b.status) × (a.body ≡ b.body)
Unrecognised-same_answer_example =
    Unrecognised-same_answer test_nest no_text test_request "now" no_errors (0 ∷ []) "listPolicies"
      odd_error other_error test_nest-IgnoresCause refl refl undecoded_odd undecoded_other
