-- ===== src/Api/Requests.antt =====
-- How a request ends, against what `fetch` answered.
use xbin.Common.{
  is_some, ◌>>=◌, String, ◌≡◌, refl, ap, sym, ◌∙◌, Bool, true, false, Option, none, some, inl, inr,
  ◌⊎◌, arith, starts_with, if◌then◌else◌, ◌≢◌, eq_iff,
}
use xbin.Json.{Value, undefined, Fields, property, as_string}
use xbin.Wire.Parts.{as_record}
use xbin.Api.{
  ErrorCode, invalid_request, payload_too_large, rate_limited, not_found, service_unavailable,
  internal_error, normalize_error_code, ApiError, Response, Init, Result, returned, failed,
  unreadable, unavailable, new_error, network_error, decode_error, error_in, read, request, expect,
}

-- A response that is ok and holds the value: its JSON, or `undefined` if it has no content.
pub record Holds (r : Response) (v : Value) : Type 0 where
  pub held_ok : r.ok ≡ true
  pub held_value : (r.json ≡ some v) ⊎ ((r.status ≡ 204) × (v ≡ undefined))

-- The code and the message that a body says of an error, if it says both, and the id of the request.
abbrev pub error_part : Option Value → Option Fields
error_part json = do body ← as_record (← json); as_record (property "error" body)

abbrev pub said : Option Value → Option (String × String)
said json = do
  part ← error_part json
  code ← as_string (property "code" part)
  message ← as_string (property "message" part)
  some (code, message)

abbrev pub said_request : Option Value → Option String
said_request json = do as_string (property "request_id" (← error_part json))

abbrev code_of : {Code : Type 0} → (String → Code) → Code → Option (String × String) → Code
code_of normalize unknown none = unknown
code_of normalize unknown (some (code, message)) = normalize code

abbrev message_of : Option (String × String) → String
message_of none = unavailable
message_of (some (code, message)) = message

-- A response that is not ok, and the error made of it: its status is the response's, its code and message are those
-- that the body says, or else those of a service that is unavailable.
pub record Refused {Code : Type 0} (normalize : String → Code) (unknown : Code) (r : Response)
    (e : ApiError Code) : Type 0 where
  pub refused_ok : r.ok ≡ false
  pub refused_status : e.status ≡ r.status
  pub refused_code : e.code ≡ some (code_of normalize unknown (said r.json))
  pub refused_message : e.message ≡ message_of (said r.json)
  pub refused_request : e.request_id ≡ (if is_some (said r.json) then said_request r.json else none)

module _ {Code : Type 0} (normalize : String → Code) (unknown : Code) where
  read-Holds : (r : Response) {v : Value} → read normalize unknown r ≡ returned v → Holds r v
  unfolding read
  read-Holds r h = ground arith

  decode_error-said :
      (json : Option Value)
      → ((decode_error normalize unknown json).code ≡ code_of normalize unknown (said json))
        × ((decode_error normalize unknown json).message ≡ message_of (said json))
        × ((decode_error normalize unknown json).request_id
            ≡ (if is_some (said json) then said_request json else none))
  unfolding decode_error error_in
  decode_error-said json = (ground arith, ground arith, ground arith)

  read-Refused :
      (r : Response) {e : ApiError Code}
      → read normalize unknown r ≡ failed e
      → Refused normalize unknown r e
  unfolding read new_error
  read-Refused r h =
      let (code, message, request) = decode_error-said r.json in
      record {
        refused_ok = ground arith;
        refused_status = ground arith;
        refused_code = ground (arith, code);
        refused_message = ground (arith, message);
        refused_request = ground (arith, request);
      }

  -- A request got an answer, or ends as the network's error.
  sent :
      (b : Bool) (o : Option Response) (f : Response → Result Code Value) {x : Result Code Value}
      → (if b then elim o [ none ↦ network_error | some r ↦ f r ] else network_error) ≡ x
      → ((x ≡ network_error) × ((b ≡ false) ⊎ (o ≡ none)))
        ⊎ ((r : Response) × (o ≡ some r) × (f r ≡ x))
  sent true none f h = inl (sym h, inr refl)
  sent true (some r) f h = inr (r, refl, h)
  sent false o f h = inl (sym h, inl refl)

  module _ (root : String) (fetch : String → Init → Option Response) (path : String)
      (init : Init) where
    -- A value is returned only from a response that is ok and holds it.
    pub request-Holds :
        {v : Value}
        → request normalize unknown root fetch path init ≡ returned v
        → (r : Response) × (fetch path init ≡ some r) × Holds r v
    unfolding request network_error
    request-Holds h =
        elim (sent (starts_with path root) (fetch path init) (read normalize unknown) h) [
          | inl (e, why) ↦ absurd (cc e)
          | inr (r, e, e') ↦ (r, e, read-Holds r e')
        ]

    -- An error either is the network's, with no status, because the path is not the API's or the promise of
    -- `fetch` rejects, or comes from a response that is not ok.
    pub request-Refused :
        {e : ApiError Code}
        → request normalize unknown root fetch path init ≡ failed e
        → ((e ≡ new_error 0 none) × ((starts_with path root ≡ false) ⊎ (fetch path init ≡ none)))
          ⊎ ((r : Response) × (fetch path init ≡ some r) × Refused normalize unknown r e)
    unfolding request network_error
    request-Refused h =
        elim (sent (starts_with path root) (fetch path init) (read normalize unknown) h) [
          | inl (e, why) ↦ inl (cc e, why)
          | inr (r, e, e') ↦ inr (r, e, read-Refused r e')
        ]

pub expect-returned :
    {Code A : Type 0} (f : Value → Option A) (r : Result Code Value) {a : A}
    → expect f r ≡ returned a
    → (v : Value) × (r ≡ returned v) × (f v ≡ some a)
unfolding expect network_error
expect-returned f (returned v) h = (v, refl, ground arith)
expect-returned f (failed e) h = absurd (cc h)
expect-returned f unreadable h = absurd (cc h)

pub expect-failed :
    {Code A : Type 0} (f : Value → Option A) (r : Result Code Value) {e : ApiError Code}
    → expect f r ≡ failed e
    → ((e ≡ new_error 0 none) × (v : Value) × (r ≡ returned v) × (f v ≡ none)) ⊎ (r ≡ failed e)
unfolding expect network_error
expect-failed f (returned v) h = inl (ground arith, v, refl, ground arith)
expect-failed f (failed e) h = inr (cc h)
expect-failed f unreadable h = absurd (cc h)

-- The name of a code in the service's JSON.
abbrev pub code_name : ErrorCode → String
code_name invalid_request = "invalid_request"
code_name payload_too_large = "payload_too_large"
code_name rate_limited = "rate_limited"
code_name not_found = "not_found"
code_name service_unavailable = "service_unavailable"
code_name internal_error = "internal_error"

code_name-read : (c : ErrorCode) → normalize_error_code (code_name c) ≡ c
unfolding normalize_error_code
code_name-read invalid_request = refl
code_name-read payload_too_large = refl
code_name-read rate_limited = refl
code_name-read not_found = refl
code_name-read service_unavailable = refl
code_name-read internal_error = refl

normalize-falls_back :
    (s : String)
    → (code_name (normalize_error_code s) ≡ s) ⊎ (normalize_error_code s ≡ service_unavailable)
unfolding normalize_error_code
normalize-falls_back s = ground (
  arith,
  eq_iff s "invalid_request",
  eq_iff s "payload_too_large",
  eq_iff s "rate_limited",
  eq_iff s "not_found",
  eq_iff s "internal_error",
)

-- A name of a code is read as that code, and any other text as the code service_unavailable.
pub normalize_error_code-code_name :
    (s : String) (c : ErrorCode)
    → (s ≡ code_name c → normalize_error_code s ≡ c)
      × (((d : ErrorCode) → s ≢ code_name d) → normalize_error_code s ≡ service_unavailable)
normalize_error_code-code_name s c = (
  λ e. ap normalize_error_code e ∙ code_name-read c,
  λ h. elim (normalize-falls_back s) [
    | inl e ↦ absurd (h (normalize_error_code s) (sym e))
    | inr e ↦ e
  ],
)
