-- ===== src/Api/Pastes/Tests.antt =====
-- Pastes read from a service that answers the same to every call.
use Prim.Native.String.{◌++◌}
use xbin.Common.{String, ◌≡◌, refl, ◌≢◌, Bool, true, false, Option, none, some, ◌⊎◌}
use xbin.Json.{Value, undefined, boolean, string, number, natural, object, end, field}
use xbin.Api.{
  ErrorCode, not_found, service_unavailable, rate_limited, normalize_error_code, ApiError, Response,
  Init, returned, failed, new_error, network_error, read, request, expect, decode_error, error_in,
}
use xbin.Api.Requests.{Holds, Refused, code_name, normalize_error_code-code_name}
use xbin.Api.Pastes.{
  Paste, plaintext, burn, burn_metadata, retrieved, payload_in, envelope_in, retrieved_paste,
  retrieved_encrypted_paste, read_paste, read_consumed, api_request, get_paste, consume_paste,
}
use xbin.Api.Pastes.Reading.{Says, get_paste-Says, get_paste-Refused}

abbrev note : Bool → Value
note burns = object (
    field "slug" (string "calm-otter") (
      field "payload"
        (object (
          field "version" (number (natural 1)) (
            field "title" (string "t")
              (field "language" (string "go") (field "content" (string "x") end)))))
        (field "is_encrypted" (boolean false) (
          field "burn_after_read" (boolean burns)
            (field "expires_at" (string "later") (field "created_at" (string "now") end))))))

abbrev note_read : Paste
note_read = plaintext (record {
  slug = "calm-otter";
  content = record { title = "t"; language = "go"; content = "x" };
  expires_at = "later";
  created_at = "now";
})

abbrev serves : Value → String → Init → Option Response
serves v path init = some (record { ok = true; status = 200; json = some v })

abbrev missing : String → Init → Option Response
missing path init = some (record {
  ok = false;
  status = 404;
  json = some (
      object (
        field "error"
          (object (field "code" (string "not_found") (field "message" (string "gone") end))) end));
})

abbrev same : String → String
same s = s

note_got : get_paste (serves (note false)) same "calm-otter" ≡ returned note_read
unfolding get_paste api_request request read expect read_paste burn_metadata
    retrieved_encrypted_paste retrieved_paste retrieved payload_in envelope_in network_error
note_got = refl

-- A paste that is burned after reading is no content for getPaste, and is for consumePaste.
burning_spared : get_paste (serves (note true)) same "calm-otter" ≡ returned (burn false)
unfolding get_paste api_request request read expect read_paste burn_metadata
burning_spared = refl

burning_consumed : consume_paste (serves (note true)) same "calm-otter" ≡ returned note_read
unfolding consume_paste api_request request read expect read_consumed retrieved_encrypted_paste
    retrieved_paste retrieved payload_in envelope_in
burning_consumed = refl

get_paste-Says_example :
    (r : Response) × (v : Value) × (serves
        (note false)
        ("/api/v1/pastes/" ++ same "calm-otter")
        (record { method = "GET"; body = undefined; client_id = none })
      ≡ some r)
    × Holds r v
    × Says v note_read
get_paste-Says_example = get_paste-Says (serves (note false)) same "calm-otter" note_got

abbrev gone : ApiError ErrorCode
gone = record { status = 404; code = some not_found; message = "gone"; request_id = none }

missing_got : get_paste missing same "calm-otter" ≡ failed gone
unfolding get_paste api_request request read expect new_error decode_error error_in
    normalize_error_code
missing_got = refl

get_paste-Refused_example :
    (let answer =
        missing
          ("/api/v1/pastes/" ++ same "calm-otter")
          (record { method = "GET"; body = undefined; client_id = none }) in
      ((gone ≡ new_error 0 none)
        × ((answer ≡ none)
            ⊎ ((r : Response) × (v : Value) × (answer ≡ some r)
                × Holds r v
                × (read_paste v ≡ none))))
      ⊎ ((r : Response) × (answer ≡ some r)
          × Refused normalize_error_code service_unavailable r gone))
get_paste-Refused_example = get_paste-Refused missing same "calm-otter" missing_got

rate_limited_read :
    ("rate_limited" ≡ code_name rate_limited → normalize_error_code "rate_limited" ≡ rate_limited)
    × (((d : ErrorCode) → "rate_limited" ≢ code_name d)
        → normalize_error_code "rate_limited" ≡ service_unavailable)
rate_limited_read = normalize_error_code-code_name "rate_limited" rate_limited
