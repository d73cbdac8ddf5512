-- ===== src/Filter.antt =====
-- backend/src/common/filters/all-exceptions.filter.ts: the answer to a thrown value. What Nest's
-- `HttpException` computes is the parameter `Nest`; its payload is taken to be a text or an object.
pub mod Laws
use climate_chain.Shared.{
  ℕ, ◌==◌, String, Bool, true, false, not, ◌&&◌, Option, none, some, List, [], ◌∷◌, str_eq, ltb,
  leb, or_else, if◌then◌else◌,
}
use climate_chain.Shared.Text.{join, show}
use climate_chain.Js.{
  Value, undefined, null, bool, num, str, arr, obj, error_object, http, Fields, field, end, prop,
  as_string, as_number,
}

-- `getStatus()`, `getResponse()`, `name` and `message` of an `HttpException`.
pub record Nest : Type 0 where
  pub status : Value → ℕ
  pub payload : Value → Value
  pub name : Value → String
  pub message : Value → String

pub record Request : Type 0 where
  pub method : String
  pub original_url : Option String
  pub url : String
  pub id : Option String

pub record NormalizedError : Type 0 where
  pub status_code : ℕ
  pub error : String
  pub message : Value

-- `ApiErrorResponse`
pub record ApiErrorResponse : Type 0 where
  pub normalized : NormalizedError
  pub method : String
  pub path : String
  pub timestamp : String
  pub request_id : Option String

pub data Body : Type 0 where
  structured : Value → Body
  canonical : ApiErrorResponse → Body

-- A line of the log; an error's trace is that of the value.
pub data Line : Type 0 where
  warning : String → Line
  failure : String → Value → Line

pub record Reply : Type 0 where
  pub status : ℕ
  pub body : Body
  pub line : Line

abbrev http_status_labels : List (ℕ × String)
http_status_labels =
    (400, "Bad Request")
    ∷ (401, "Unauthorized")
    ∷ (403, "Forbidden")
    ∷ (404, "Not Found")
    ∷ (406, "Not Acceptable")
    ∷ (408, "Request Timeout")
    ∷ (413, "Payload Too Large")
    ∷ (415, "Unsupported Media Type")
    ∷ (429, "Too Many Requests")
    ∷ (500, "Internal Server Error")
    ∷ (503, "Service Unavailable")
    ∷ []

label_of : List (ℕ × String) → ℕ → String
label_of [] status = "Error"
label_of ((code, label) ∷ labels) status = if code == status then label else label_of labels status

abbrev has_field : String → Fields → Bool
has_field k end = false
has_field k (field j v fs) = if str_eq j k then true else has_field k fs

-- The payload of an `HttpException` that is an object without a `message`.
unfoldable pub structured_payload : Value → Option Value
structured_payload (obj fields) = if has_field "message" fields then none else some (obj fields)
structured_payload (arr items) = some (arr items)
structured_payload v = none

unfoldable pub extract_structured_payload : Nest → Value → Option Value
unfolding structured_payload
extract_structured_payload nest (http cls response cause) =
    structured_payload (nest.payload (http cls response cause))
extract_structured_payload nest v = none

abbrev first_number : Option ℕ → Option ℕ → Option ℕ
first_number (some n) other = some n
first_number none other = other

-- `typeof v === "object" && v !== null`
abbrev is_object_like : Value → Bool
is_object_like undefined = false
is_object_like null = false
is_object_like (bool b) = false
is_object_like (num n) = false
is_object_like (str s) = false
is_object_like v = true

abbrev in_error_range : Option ℕ → Option ℕ
in_error_range none = none
in_error_range (some status) = if leb 400 status && leb status 599 then some status else none

unfoldable pub extract_http_status : Value → Option ℕ
extract_http_status v =
    if is_object_like v
    then in_error_range
        (first_number (as_number (prop "status" v)) (as_number (prop "statusCode" v)))
    else none

-- `v ?? other`
abbrev nullish_or : Value → Value → Value
nullish_or undefined other = other
nullish_or null other = other
nullish_or v other = v

module _ (nest : Nest) (string_of : Value → String) where
  -- `exception instanceof Error ? exception.message : String(exception)`
  message_or_text : Value → String
  message_or_text (error_object message fields) = message
  message_or_text v = string_of v

  -- An exception whose payload is a text, or an object.
  normalize_http : Value → Value → NormalizedError
  normalize_http thrown (str message) = record {
    status_code = nest.status thrown;
    error = nest.name thrown;
    message = str message;
  }
  normalize_http thrown payload = record {
    status_code = nest.status thrown;
    error = or_else (as_string (prop "error" payload)) (nest.name thrown);
    message = nullish_or (prop "message" payload) (str (nest.message thrown));
  }

  normalize_other : Value → Option ℕ → NormalizedError
  unfolding label_of
  normalize_other thrown (some status) = record {
    status_code = status;
    error = label_of http_status_labels status;
    message = str (message_or_text thrown);
  }
  normalize_other thrown none = record {
    status_code = 500;
    error = "Internal Server Error";
    message = str "An unexpected error occurred";
  }

  unfoldable pub normalize : Value → NormalizedError
  unfolding normalize_http normalize_other extract_http_status message_or_text
  normalize (http cls response cause) =
      normalize_http (http cls response cause) (nest.payload (http cls response cause))
  normalize v = normalize_other v (extract_http_status v)

  -- Severity follows the status; a deliberate server failure is logged by its cause.
  log_line : String → ℕ → Value → Line
  log_line context status (http cls response (error_object message fields)) =
      if ltb status 500 then warning context else failure context (error_object message fields)
  log_line context status (http cls response (http cls' response' cause)) =
      if ltb status 500 then warning context else failure context (http cls' response' cause)
  log_line context status (http cls response cause) = warning context
  log_line context status v = if ltb status 500 then warning context else failure context v

  context_of : Request → ℕ → String
  context_of request status =
      join "" (
        request.method ∷ " " ∷ or_else request.original_url request.url ∷ " -> " ∷ show status ∷ [])

  reply_with : Request → String → Value → Option Value → Reply
  unfolding normalize log_line context_of
  reply_with request timestamp thrown (some payload) = record {
    status = nest.status thrown;
    body = structured payload;
    line = warning (context_of request (nest.status thrown));
  }
  reply_with request timestamp thrown none =
      let normalized = normalize thrown in
      record {
        status = normalized.status_code;
        body = canonical (record {
          normalized = normalized;
          method = request.method;
          path = or_else request.original_url request.url;
          timestamp = timestamp;
          request_id = request.id;
        });
        line = log_line (context_of request normalized.status_code) normalized.status_code thrown;
      }

  -- `catch`
  unfoldable pub catch_exception : Request → (timestamp : String) → Value → Reply
  unfolding reply_with extract_structured_payload
  catch_exception request timestamp thrown =
      reply_with request timestamp thrown (extract_structured_payload nest thrown)
