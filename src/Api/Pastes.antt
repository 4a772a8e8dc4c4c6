-- ===== src/Api/Pastes.antt =====
-- web/src/api.ts: creating, reading and consuming a paste.
pub mod Reading
mod Tests
use Prim.Native.String.{◌++◌}
use xbin.Common.{
  ℕ, String, Bool, true, false, not, ◌||◌, Option, none, some, List, [], ◌∷◌, if◌then◌else◌, str_eq,
  ◌>>=◌, ◌>>◌, require, ◌==◌,
}
use xbin.Json.{
  Value, undefined, boolean, number, natural, string, object, Fields, end, field, property,
  as_string, as_boolean,
}
use xbin.Wire.Parts.{as_record}
use xbin.Api.{
  ErrorCode, service_unavailable, normalize_error_code, Response, Init, Result, returned, failed,
  unreadable, network_error, request, expect,
}

pub data Expiry : Type 0 where
  one_hour one_day three_days : Expiry

abbrev pub expiry_name : Expiry → String
expiry_name one_hour = "1h"
expiry_name one_day = "24h"
expiry_name three_days = "72h"

-- PlaintextPasteRequest
pub record PlaintextRequest : Type 0 where
  pub title : String
  pub language : String
  pub content : String
  pub expiry : Expiry
  pub burn_after_read : Bool

-- CiphertextEnvelope, but for its constants `version` and `algorithm`
pub record Envelope : Type 0 where
  pub iv : String
  pub ciphertext : String

-- EncryptedPasteRequest
pub record EncryptedRequest : Type 0 where
  pub envelope : Envelope
  pub expiry : Expiry
  pub burn_after_read : Bool

-- CreatedPaste
pub record CreatedPaste : Type 0 where
  pub slug : String
  pub url : String
  pub expires_at : String

-- PlaintextPayload, but for its constant `version`
pub record Payload : Type 0 where
  pub title : String
  pub language : String
  pub content : String

-- RetrievedPaste and RetrievedEncryptedPaste, by what they carry
pub record Retrieved (Content : Type 0) : Type 0 where
  pub slug : String
  pub content : Content
  pub expires_at : String
  pub created_at : String

-- What getPaste returns: BurnMetadata with its `isEncrypted`, or a paste.
pub data Paste : Type 0 where
  burn : Bool → Paste
  encrypted : Retrieved Envelope → Paste
  plaintext : Retrieved Payload → Paste

-- isCreatedPaste, with what is made of the response
pub created_paste : Value → Option CreatedPaste
created_paste value = do
  fields ← as_record value
  slug ← as_string (property "slug" fields)
  url ← as_string (property "url" fields)
  expires_at ← as_string (property "expires_at" fields)
  some (record { slug = slug; url = url; expires_at = expires_at })

abbrev pub is_boolean : Bool → Value → Bool
is_boolean true (boolean true) = true
is_boolean false (boolean false) = true
is_boolean _ _ = false

abbrev pub is_one : Value → Bool
is_one (number (natural n)) = n == 1
is_one _ = false

abbrev pub is_text : String → Value → Bool
is_text t (string s) = str_eq s t
is_text t _ = false

-- isBurnMetadata, with `is_encrypted`
pub burn_metadata : Value → Option Bool
burn_metadata value = do
  fields ← as_record value
  require (is_boolean true (property "burn_after_read" fields))
  as_boolean (property "is_encrypted" fields)

-- The properties that isRetrievedPaste and isRetrievedEncryptedPaste ask of the response alike.
pub retrieved : {Content : Type 0} → Bool → Bool → Fields → Content → Option (Retrieved Content)
retrieved is_encrypted allow_burn fields content = do
  slug ← as_string (property "slug" fields)
  require (is_boolean is_encrypted (property "is_encrypted" fields))
  burns ← as_boolean (property "burn_after_read" fields)
  require (allow_burn || not burns)
  expires_at ← as_string (property "expires_at" fields)
  created_at ← as_string (property "created_at" fields)
  some (record { slug = slug; content = content; expires_at = expires_at; created_at = created_at })

pub payload_in : Fields → Option Payload
payload_in fields = do
  payload ← as_record (property "payload" fields)
  require (is_one (property "version" payload))
  title ← as_string (property "title" payload)
  language ← as_string (property "language" payload)
  content ← as_string (property "content" payload)
  some (record { title = title; language = language; content = content })

pub envelope_in : Fields → Option Envelope
envelope_in fields = do
  envelope ← as_record (property "envelope" fields)
  require (is_one (property "version" envelope))
  require (is_text "A256GCM" (property "algorithm" envelope))
  iv ← as_string (property "iv" envelope)
  ciphertext ← as_string (property "ciphertext" envelope)
  some (record { iv = iv; ciphertext = ciphertext })

-- isRetrievedPaste
pub retrieved_paste : Bool → Value → Option (Retrieved Payload)
unfolding retrieved payload_in
retrieved_paste allow_burn value = do
  fields ← as_record value
  payload ← payload_in fields
  retrieved false allow_burn fields payload

-- isRetrievedEncryptedPaste
pub retrieved_encrypted_paste : Bool → Value → Option (Retrieved Envelope)
unfolding retrieved envelope_in
retrieved_encrypted_paste allow_burn value = do
  fields ← as_record value
  envelope ← envelope_in fields
  retrieved true allow_burn fields envelope

-- The tests of getPaste, in their order.
pub read_paste : Value → Option Paste
unfolding burn_metadata retrieved_encrypted_paste retrieved_paste
read_paste value = elim (burn_metadata value) [
  | some is_encrypted ↦ some (burn is_encrypted)
  | none ↦ elim (retrieved_encrypted_paste false value) [
    | some paste ↦ some (encrypted paste)
    | none ↦ do some (plaintext (← retrieved_paste false value))
  ]
]

-- The tests of consumePaste.
pub read_consumed : Value → Option Paste
unfolding retrieved_encrypted_paste retrieved_paste
read_consumed value = elim (retrieved_encrypted_paste true value) [
  | some paste ↦ some (encrypted paste)
  | none ↦ do some (plaintext (← retrieved_paste true value))
]

-- `api.request` of a PasteAPI
pub api_request : (String → Init → Option Response) → String → Init → Result ErrorCode Value
unfolding request
api_request = request normalize_error_code service_unavailable "/api/"

-- `encode` is `encodeURIComponent`.
module _ (fetch : String → Init → Option Response) (encode : String → String) where
  -- createPlaintextPaste
  pub create_plaintext_paste : PlaintextRequest → Result ErrorCode CreatedPaste
  unfolding api_request expect created_paste
  create_plaintext_paste r =
      let payload = object (
        field "version" (number (natural 1)) (
          field "title" (string r.title)
            (field "language" (string r.language) (field "content" (string r.content) end)))) in
      let body = object (
        field "mode" (string "plaintext") (
          field "payload" payload (
            field "expiry" (string (expiry_name r.expiry))
              (field "burn_after_read" (boolean r.burn_after_read) end)))) in
      expect created_paste (
        api_request fetch "/api/v1/pastes"
          (record { method = "POST"; body = body; client_id = none }))

  -- createEncryptedPaste
  pub create_encrypted_paste : EncryptedRequest → Result ErrorCode CreatedPaste
  unfolding api_request expect created_paste
  create_encrypted_paste r =
      let payload = object (
        field "version" (number (natural 1)) (
          field "algorithm" (string "A256GCM") (
            field "iv" (string r.envelope.iv)
              (field "ciphertext" (string r.envelope.ciphertext) end)))) in
      let body = object (
        field "mode" (string "encrypted") (
          field "payload" payload (
            field "expiry" (string (expiry_name r.expiry))
              (field "burn_after_read" (boolean r.burn_after_read) end)))) in
      expect created_paste (
        api_request fetch "/api/v1/pastes"
          (record { method = "POST"; body = body; client_id = none }))

  -- getPaste
  pub get_paste : String → Result ErrorCode Paste
  unfolding api_request expect read_paste
  get_paste slug = expect read_paste (
      api_request fetch ("/api/v1/pastes/" ++ encode slug)
        (record { method = "GET"; body = undefined; client_id = none }))

  -- consumePaste
  pub consume_paste : String → Result ErrorCode Paste
  unfolding api_request expect read_consumed
  consume_paste slug = expect read_consumed (
      api_request fetch (("/api/v1/pastes/" ++ encode slug) ++ "/consume")
        (record { method = "POST"; body = undefined; client_id = none }))
