-- ===== src/Api.antt =====
-- web/src/api.ts: the errors of the service, requests, and the calls on pastes.
--
-- `fetch` is a parameter: what it answers to a path and a request, `none` where its promise rejects. It
-- stands for the browser's, with the origin, the resolution of the path against it, the constant headers
-- and the abort signal. A response's `json` is `none` where its text is no JSON.
pub mod Requests
pub mod Pastes
use xbin.Common.{
  ℕ, String, Bool, true, false, not, ◌&&◌, ◌||◌, Option, none, some, List, [], ◌∷◌, ◌==◌,
  if◌then◌else◌, str_eq, starts_with, ◌>>=◌,
}
use xbin.Json.{Value, undefined, Fields, property, as_string}
use xbin.Wire.Parts.{as_record}

-- APIErrorCode
pub data ErrorCode : Type 0 where
  invalid_request payload_too_large rate_limited not_found service_unavailable internal_error :
      ErrorCode

-- normalizeErrorCode
pub normalize_error_code : String → ErrorCode
normalize_error_code s =
    if str_eq s "invalid_request"
    then invalid_request
    else if str_eq s "payload_too_large"
    then payload_too_large
    else if str_eq s "rate_limited"
    then rate_limited
    else if str_eq s "not_found"
    then not_found
    else if str_eq s "service_unavailable"
    then service_unavailable
    else if str_eq s "internal_error"
    then internal_error
    else service_unavailable

-- APIError and LiveAPIErrorBody, by the type of the code.
pub record ErrorBody (Code : Type 0) : Type 0 where
  pub code : Code
  pub message : String
  pub request_id : Option String

-- The properties of PasteAPIError and LiveAPIError; the code "network_error" is `none`.
pub record ApiError (Code : Type 0) : Type 0 where
  pub status : ℕ
  pub code : Option Code
  pub message : String
  pub request_id : Option String

pub record Response : Type 0 where
  pub ok : Bool
  pub status : ℕ
  pub json : Option Value

-- What a call is made with, `undefined` as the body if there is none.
pub record Init : Type 0 where
  pub method : String
  pub body : Value
  pub client_id : Option String

-- How a call's promise ends: with a value, with the API's error, or, where the text of a response that is
-- ok is no JSON, with the parser's error.
pub data Result (Code A : Type 0) : Type 0 where
  returned : A → Result Code A
  failed : ApiError Code → Result Code A
  unreadable : Result Code A

abbrev pub unavailable : String
unavailable = "The service is temporarily unavailable."

-- The constructors of PasteAPIError and LiveAPIError; `none` is "network_error".
unfoldable pub new_error : {Code : Type 0} → ℕ → Option (ErrorBody Code) → ApiError Code
new_error status none = record {
  status = status;
  code = none;
  message = unavailable;
  request_id = none;
}
new_error status (some error) = record {
  status = status;
  code = some error.code;
  message = error.message;
  request_id = error.request_id;
}

unfoldable pub network_error : {Code A : Type 0} → Result Code A
unfolding new_error
network_error = failed (new_error 0 none)

-- What decodeError finds in a body.
unfoldable pub error_in : {Code : Type 0} → (String → Code) → Value → Option (ErrorBody Code)
error_in normalize value = do
  body ← as_record value
  error ← as_record (property "error" body)
  code ← as_string (property "code" error)
  message ← as_string (property "message" error)
  some (record {
    code = normalize code;
    message = message;
    request_id = as_string (property "request_id" error);
  })

-- decodeError
unfoldable pub decode_error :
    {Code : Type 0} → (String → Code) → Code → Option Value → ErrorBody Code
unfolding error_in
decode_error normalize unknown json = elim (json >>= error_in normalize) [
  | none ↦ record { code = unknown; message = unavailable; request_id = none }
  | some body ↦ body
]

-- `throw` after a response, else its JSON.
unfoldable pub read : {Code : Type 0} → (String → Code) → Code → Response → Result Code Value
unfolding new_error decode_error
read normalize unknown response =
    if not response.ok
    then failed (new_error response.status (some (decode_error normalize unknown response.json)))
    else if response.status == 204
    then returned undefined
    else elim response.json [ none ↦ unreadable | some value ↦ returned value ]

-- request, for a prefix that the paths must have: another path makes apiURL throw, which is caught.
unfoldable pub request :
    {Code : Type 0}
    → (String → Code)
    → Code
    → String
    → (String → Init → Option Response)
    → String
    → Init
    → Result Code Value
unfolding network_error read
request normalize unknown root fetch path init =
    if starts_with path root
    then elim (fetch path init) [
      | none ↦ network_error
      | some response ↦ read normalize unknown response
    ]
    else network_error

-- `if (!isX(response)) throw ... "network_error"`, and what is made of the response.
unfoldable pub expect : {Code A : Type 0} → (Value → Option A) → Result Code Value → Result Code A
unfolding network_error
expect decode (returned value) = elim (decode value) [ none ↦ network_error | some a ↦ returned a ]
expect decode (failed error) = failed error
expect decode unreadable = unreadable
