-- ===== src/LiveApi/Calls/Probe.antt =====
-- What the probe before a reconnection makes of the service's answer: probeLiveRoomReconnect of web/src/live-api.ts
-- against a table of the answers.
use Prim.Native.String.{◌++◌}
use text.Mathlib.TextLemmas.{append_assoc}
use text.Mathlib.TextPositions.{starts_with-append, starts_with_of_prefix}
use xbin.Common.{
  String, ◌≡◌, refl, sym, ap, ◌∙◌, Option, none, some, true, false, ◌||◌, if◌then◌else◌, str_eq,
  eq_iff, starts_with, Bool-cases, Option-cases, inl, inr, subst, ◌==◌, arith, ℕ,
}
use xbin.Json.{Value, undefined}
use xbin.Wire.Parts.{truthy}
use xbin.Api.{
  Response, Init, network_error, new_error, decode_error, error_in, read, request, expect,
}
use xbin.Api.Requests.{said}
use xbin.LiveApi.{
  service_unavailable, normalize_live_error_code, ProbeResult, authorized, authentication_required,
  room_unavailable, retry,
}
use xbin.LiveApi.Decode.{room_snapshot}
use xbin.LiveApi.Calls.{
  live_request, probe_result, probed, get_live_room, probe_live_room_reconnect,
}

-- The code in the body of a response that is not ok.
abbrev pub verdict : Option (String × String) → ProbeResult
verdict none = retry
verdict (some (code, message)) =
    if str_eq code "password_required"
    then authentication_required
    else if str_eq code "not_found" || str_eq code "room_expired"
    then room_unavailable
    else retry

-- A response that is ok, by its status and its JSON.
abbrev pub welcome : ℕ → Option Value → ProbeResult
welcome status none = retry
welcome status (some v) =
    if status == 204 then retry else elim (room_snapshot v) [ none ↦ retry | some s ↦ authorized ]

-- What the probe should say of an answer of the service, which is `none` if there was none.
abbrev pub told : Option Response → ProbeResult
told none = retry
told (some r) = if r.ok then welcome r.status r.json else verdict (said r.json)

-- The codes that the probe does not look for.
other-verdict :
    (code : String)
    → str_eq code "password_required" ≡ false
    → str_eq code "not_found" ≡ false
    → str_eq code "room_expired" ≡ false
    → probe_result (some (normalize_live_error_code code)) ≡ retry
unfolding probe_result normalize_live_error_code
other-verdict code e e' e'' = ground arith

probe_result-verdict :
    (code message : String)
    → probe_result (some (normalize_live_error_code code)) ≡ verdict (some (code, message))
unfolding probe_result normalize_live_error_code
probe_result-verdict code message =
    let P = λ (c : String).
      probe_result (some (normalize_live_error_code c)) ≡ verdict (some (c, message)) in
    let at =
      λ (c : String) (e : str_eq code c ≡ true) (p : P c). subst P (sym ((eq_iff code c).0 e)) p in
    elim (Bool-cases (str_eq code "password_required")) [
      | inl e ↦ at "password_required" e refl
      | inr e ↦ elim (Bool-cases (str_eq code "not_found")) [
        | inl e' ↦ at "not_found" e' refl
        | inr e' ↦ elim (Bool-cases (str_eq code "room_expired")) [
          | inl e'' ↦ at "room_expired" e'' refl
          | inr e'' ↦ ground (arith, other-verdict code e e' e'')
        ]
      ]
    ]

refused-verdict :
    (json : Option Value)
    → probe_result (some (decode_error normalize_live_error_code service_unavailable json).code)
      ≡ verdict (said json)
unfolding decode_error error_in probe_result
refused-verdict json = elim (Option-cases (said json)) [
  | inl e ↦ ground arith
  | inr ((code, message), e) ↦ ground (arith, probe_result-verdict code message)
]

undefined-none : room_snapshot undefined ≡ none
unfolding room_snapshot
undefined-none = refl

answer-told :
    (r : Response)
    → probed (expect room_snapshot (read normalize_live_error_code service_unavailable r))
      ≡ told (some r)
unfolding probed expect read network_error new_error probe_result
answer-told r = ground (arith, refused-verdict r.json, undefined-none)

answered-told :
    (o : Option Response)
    → probed (
        expect room_snapshot (elim o [
          | none ↦ network_error
          | some r ↦ read normalize_live_error_code service_unavailable r
        ]))
      ≡ told o
unfolding probed expect network_error new_error probe_result
answered-told none = refl
answered-told (some r) = answer-told r

module _ (fetch : String → Init → Option Response) (encode : String → String) where
  live_path : (slug : String) → starts_with ("/api/v1/live/" ++ encode slug) "/api/v1/live/" ≡ true
  live_path slug = starts_with-append "/api/v1/live/" (encode slug)

  api_path : (slug : String) → starts_with ("/api/v1/live/" ++ encode slug) "/api/" ≡ true
  api_path slug =
      starts_with_of_prefix "/api/" ("/api/v1/live/" ++ encode slug)
        ("v1/live/" ++ encode slug, sym (append_assoc "/api/" "v1/live/" (encode slug)))

  sent :
      (slug : String) (init : Init)
      → live_request fetch ("/api/v1/live/" ++ encode slug) init
        ≡ elim (fetch ("/api/v1/live/" ++ encode slug) init) [
          | none ↦ network_error
          | some r ↦ read normalize_live_error_code service_unavailable r
        ]
  unfolding live_request request
  sent slug init = ground (arith, live_path slug, api_path slug)

  -- The probe of a room says what the service's answer to the request for its snapshot tells, in all cases: the
  -- reader is authorized if the response is ok, not empty, and its JSON is a valid snapshot; must give a password if it
  -- is not ok and its body says password_required; finds the room unavailable if the body says not_found or
  -- room_expired; and is to retry otherwise, where there is no answer, the JSON of an ok response is not readable or
  -- no snapshot, or the body says no error or any other.
  pub probe-told :
      (slug : String) (client_id : Option String)
      → probe_live_room_reconnect fetch encode slug client_id
        ≡ told (
            fetch
              ("/api/v1/live/" ++ encode slug)
              (record { method = "GET"; body = undefined; client_id = truthy client_id }))
  unfolding probe_live_room_reconnect get_live_room
  probe-told slug client_id =
      let init : Init = record { method = "GET"; body = undefined; client_id = truthy client_id } in
      ap (λ x. probed (expect room_snapshot x)) (sent slug init)
      ∙ answered-told (fetch ("/api/v1/live/" ++ encode slug) init)
