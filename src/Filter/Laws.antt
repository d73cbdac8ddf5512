-- ===== src/Filter/Laws.antt =====
-- What the answers to thrown values have in common.
use climate_chain.Shared.{
  ℕ, ◌≤◌, ◌<◌, false, String, ◌≡◌, refl, sym, ◌⊎◌, inl, inr, ◌&&◌, Option, none, some, List, arith,
  leb, or_else, Bool-cases, Option-cases,
}
use mathlib.Core.Path.{subst}
use climate_chain.Js.{Value, undefined, null, bool, num, as_number, prop, str, http, ExceptionClass}
use climate_chain.ErrorMapper.{ParsedError, to_http_exception}
use climate_chain.ErrorMapper.Laws.{Unrecognised, exception_class, unexpected_http}
use climate_chain.Filter.{
  Nest, Request, Body, canonical, NormalizedError, first_number, in_error_range, is_object_like,
  extract_http_status, extract_structured_payload, normalize, normalize_http, normalize_other,
  reply_with, catch_exception,
}

-- The thrown value has the number as its `status`, or, without one, as its `statusCode`.
abbrev pub OffersStatus : Value → ℕ → Type 0
OffersStatus v n =
    (as_number (prop "status" v) ≡ some n)
    ⊎ ((as_number (prop "status" v) ≡ none) × (as_number (prop "statusCode" v) ≡ some n))

-- It has neither, or the number is no status of an error.
abbrev pub OffersNoError : Value → Type 0
OffersNoError v =
    ((as_number (prop "status" v) ≡ none) × (as_number (prop "statusCode" v) ≡ none))
    ⊎ ((n : ℕ) × OffersStatus v n × ((n < 400) ⊎ (599 < n)))

Offers : Value → Option ℕ → Type 0
Offers v none = OffersNoError v
Offers v (some n) = OffersStatus v n × (400 ≤ n) × (n ≤ 599)

in_error_range-Offers : (v : Value) (n : ℕ) → OffersStatus v n → Offers v (in_error_range (some n))
unfolding Offers
in_error_range-Offers v n offered = elim (Bool-cases (leb 400 n && leb n 599)) [
  | inl inside ↦ rw (inside) (offered, ground arith, ground arith)
  | inr outside ↦ rw (outside) (inr (n, offered, ground arith))
]

numbers-Offers :
    (v : Value) (first second : Option ℕ)
    → as_number (prop "status" v) ≡ first
    → as_number (prop "statusCode" v) ≡ second
    → Offers v (in_error_range (first_number first second))
unfolding Offers
numbers-Offers v (some n) second a b = in_error_range-Offers v n (inl a)
numbers-Offers v none (some n) a b = in_error_range-Offers v n (inr (a, b))
numbers-Offers v none none a b = inl (a, b)

-- What is no object has no properties.
not_object-Offers : (v : Value) → is_object_like v ≡ false → Offers v none
unfolding Offers
not_object-Offers undefined plain = inl (refl, refl)
not_object-Offers null plain = inl (refl, refl)
not_object-Offers (bool b) plain = inl (refl, refl)
not_object-Offers (num n) plain = inl (refl, refl)
not_object-Offers (str s) plain = inl (refl, refl)
not_object-Offers v plain = cc

extract_http_status-Offers : (v : Value) → Offers v (extract_http_status v)
unfolding extract_http_status
extract_http_status-Offers v = elim (Bool-cases (is_object_like v)) [
  | inl object ↦ rw (object) (numbers-Offers v _ _ refl refl)
  | inr plain ↦ rw (plain) (not_object-Offers v plain)
]

-- The body that says nothing of the failure.
abbrev pub generic : NormalizedError
generic = record {
  status_code = 500;
  error = "Internal Server Error";
  message = str "An unexpected error occurred";
}

-- Nest computes nothing of an exception from its cause.
pub record IgnoresCause (nest : Nest) : Type 0 where
  pub status :
      (cls : ExceptionClass) (response c d : Value)
      → nest.status (http cls response c) ≡ nest.status (http cls response d)
  pub payload :
      (cls : ExceptionClass) (response c d : Value)
      → nest.payload (http cls response c) ≡ nest.payload (http cls response d)
  pub name :
      (cls : ExceptionClass) (response c d : Value)
      → nest.name (http cls response c) ≡ nest.name (http cls response d)
  pub message :
      (cls : ExceptionClass) (response c d : Value)
      → nest.message (http cls response c) ≡ nest.message (http cls response d)

module _ (nest : Nest) (string_of : Value → String) (request : Request) (timestamp : String) where
  abbrev pub generic_body : Body
  generic_body = canonical (record {
    normalized = generic;
    method = request.method;
    path = or_else request.original_url request.url;
    timestamp = timestamp;
    request_id = request.id;
  })

  reply_other :
      (thrown : Value)
      → exception_class thrown ≡ none
      → (extract_structured_payload nest thrown ≡ none)
        × (normalize nest string_of thrown
            ≡ normalize_other nest string_of thrown (extract_http_status thrown))
  unfolding extract_structured_payload normalize
  reply_other (http cls response cause) h = cc
  reply_other thrown h = (refl, refl)

  -- A thrown value that is no HttpException is answered in one of two ways. Where it has a number from 400
  -- to 599 as its `status`, or, without a number there, as its `statusCode`, that is the status. Where it has
  -- no such number, it is a 500, whose body is the same for all of them.
  pub catch_exception_other :
      (thrown : Value)
      → exception_class thrown ≡ none
      → let reply = catch_exception nest string_of request timestamp thrown in
        (OffersStatus thrown reply.status × (400 ≤ reply.status) × (reply.status ≤ 599))
        ⊎ (OffersNoError thrown × (reply.status ≡ 500) × (reply.body ≡ generic_body))
  unfolding catch_exception reply_with normalize_other Offers
  catch_exception_other thrown h =
      let (plain, other) = reply_other thrown h in
      elim (Option-cases (extract_http_status thrown)) [
        | inl missing ↦
            let offered : OffersNoError thrown =
              subst (Offers thrown) missing (extract_http_status-Offers thrown) in
            inr (offered, rw (plain, other, missing) refl, rw (plain, other, missing) refl)
        | inr (status, carried) ↦
            let same : (catch_exception nest string_of request timestamp thrown).status ≡ status =
              rw (plain, other, carried) refl in
            let offered : OffersStatus thrown status × (400 ≤ status) × (status ≤ 599) =
              subst (Offers thrown) carried (extract_http_status-Offers thrown) in
            inl (subst (λ n. OffersStatus thrown n × (400 ≤ n) × (n ≤ 599)) (sym same) offered)
      ]

  normalize_http_eq :
      (payload one other : Value)
      → nest.status one ≡ nest.status other
      → nest.name one ≡ nest.name other
      → nest.message one ≡ nest.message other
      → normalize_http nest string_of one payload ≡ normalize_http nest string_of other payload
  unfolding normalize_http
  normalize_http_eq payload one other same_status same_name same_message =
      ground (arith, same_status, same_name, same_message)

  reply_with_eq :
      (payload : Option Value) (one other : Value)
      → nest.status one ≡ nest.status other
      → normalize nest string_of one ≡ normalize nest string_of other
      → ((reply_with nest string_of request timestamp one payload).status
          ≡ (reply_with nest string_of request timestamp other payload).status)
        × ((reply_with nest string_of request timestamp one payload).body
            ≡ (reply_with nest string_of request timestamp other payload).body)
  unfolding reply_with
  reply_with_eq (some payload) one other same normal = (same, refl)
  reply_with_eq none one other same normal = (rw (normal) refl, rw (normal) refl)

  cause_irrelevant :
      IgnoresCause nest
      → (cls : ExceptionClass) (response c d : Value)
      → ((catch_exception nest string_of request timestamp (http cls response c)).status
          ≡ (catch_exception nest string_of request timestamp (http cls response d)).status)
        × ((catch_exception nest string_of request timestamp (http cls response c)).body
            ≡ (catch_exception nest string_of request timestamp (http cls response d)).body)
  unfolding catch_exception extract_structured_payload normalize
  cause_irrelevant ignores cls response c d =
      let normal : normalize nest string_of (http cls response c)
          ≡ normalize nest string_of (http cls response d) =
        rw (ignores.payload cls response c d) (
          normalize_http_eq _ _ _ (ignores.status cls response c d) (ignores.name cls response c d)
            (ignores.message cls response c d)) in
      rw (ignores.payload cls response c d)
        (reply_with_eq _ _ _ (ignores.status cls response c d) normal)

  -- Where Nest computes nothing of an exception from its cause: two failures of the chain that the
  -- mapper does not recognise, mapped and then answered by the filter, get the same status and the same
  -- body, so nothing of the node's message reaches the caller of the API.
  pub Unrecognised-same_answer :
      {Interface : Type 0} (parse_error : Interface → String → Option ParsedError)
      (interfaces : List Interface) (context : String) (one other : Value)
      → IgnoresCause nest
      → exception_class one ≡ none
      → exception_class other ≡ none
      → Unrecognised parse_error string_of one interfaces
      → Unrecognised parse_error string_of other interfaces
      → let a =
          catch_exception nest string_of request timestamp
            (to_http_exception parse_error string_of one interfaces context) in
        let b =
          catch_exception nest string_of request timestamp
            (to_http_exception parse_error string_of other interfaces context) in
        (a.status ≡ b.status) × (a.body ≡ b.body)
  Unrecognised-same_answer parse_error interfaces context one other ignores p q u w =
      let (r, c, text, mapped) = unexpected_http parse_error string_of one interfaces context p u in
      let (r', c', text', mapped') =
        unexpected_http parse_error string_of other interfaces context q w in
      rw (mapped, mapped', text, text') (cause_irrelevant ignores ExceptionClass.internal _ c c')
