-- ===== src/LiveApi/Calls.antt =====
-- web/src/live-api.ts: the calls themselves.
pub mod Probe
mod Tests
use Prim.Native.String.{◌++◌}
use xbin.Common.{
  ℕ, String, Bool, true, false, ◌||◌, Option, none, some, List, [], ◌∷◌, map, if◌then◌else◌, str_eq,
  starts_with,
}
use xbin.Json.{Value, undefined, string, array, object, Fields, end, field, values}
use xbin.Wire.Parts.{truthy}
use xbin.Api.{
  Response, Init, ApiError, Result, returned, failed, unreadable, network_error, new_error, read,
  request, expect,
}
use xbin.LiveApi.{
  LiveErrorCode, service_unavailable, not_found, password_required, room_expired,
  normalize_live_error_code, RoomSnapshot, ServiceConfig, CreatedRoom, NewDocument, CreateRequest,
  ProbeResult, authorized, authentication_required, room_unavailable, retry,
}
use xbin.LiveApi.Decode.{created_room, service_config, room_snapshot}

-- `request`, where liveAPIURL throws on other paths, which is caught; apiURL accepts all that it passes.
pub live_request : (String → Init → Option Response) → String → Init → Result LiveErrorCode Value
unfolding network_error request
live_request fetch path init =
    if str_eq path "/api/v1/live" || starts_with path "/api/v1/live/"
    then request normalize_live_error_code service_unavailable "/api/" fetch path init
    else network_error

document_json : NewDocument → Value
document_json d = object (
    field "name" (string d.name)
      (field "language" (string d.language) (field "content" (string d.content) end)))

-- `...(request.password ? { password: request.password } : {})`
with_password : Option String → Fields → Fields
with_password none fields = fields
with_password (some p) fields = if str_eq p "" then fields else field "password" (string p) fields

-- switch (error.code) in probeLiveRoomReconnect
pub probe_result : Option LiveErrorCode → ProbeResult
probe_result (some password_required) = authentication_required
probe_result (some not_found) = room_unavailable
probe_result (some room_expired) = room_unavailable
probe_result _ = retry

-- The `try` of probeLiveRoomReconnect: an error that is no LiveAPIError is `unreadable`.
pub probed : Result LiveErrorCode RoomSnapshot → ProbeResult
unfolding probe_result
probed (returned snapshot) = authorized
probed (failed error) = probe_result error.code
probed unreadable = retry

module _ (fetch : String → Init → Option Response) (encode : String → String) where
  -- createLiveRoom
  pub create_live_room : CreateRequest → Result LiveErrorCode CreatedRoom
  unfolding live_request expect created_room document_json with_password
  create_live_room r =
      let body =
        with_password r.password
          (field "documents" (array (values (map document_json r.documents))) end) in
      expect created_room (
        live_request fetch "/api/v1/live"
          (record { method = "POST"; body = object body; client_id = none }))

  -- getLiveRoom
  pub get_live_room : String → Option String → Result LiveErrorCode RoomSnapshot
  unfolding live_request expect room_snapshot
  get_live_room slug client_id = expect room_snapshot (
      live_request fetch ("/api/v1/live/" ++ encode slug)
        (record { method = "GET"; body = undefined; client_id = truthy client_id }))

  -- probeLiveRoomReconnect
  pub probe_live_room_reconnect : String → Option String → ProbeResult
  unfolding get_live_room probed
  probe_live_room_reconnect slug client_id = probed (get_live_room slug client_id)

  -- getLiveServiceConfig
  pub get_live_service_config : Result LiveErrorCode ServiceConfig
  unfolding live_request expect service_config
  get_live_service_config = expect service_config (
      live_request fetch "/api/v1/live/config"
        (record { method = "GET"; body = undefined; client_id = none }))

  -- unlockLiveRoom
  pub unlock_live_room : String → String → Result LiveErrorCode RoomSnapshot
  unfolding live_request expect room_snapshot
  unlock_live_room slug password = expect room_snapshot (
      live_request fetch (("/api/v1/live/" ++ encode slug) ++ "/unlock") (record {
        method = "POST";
        body = object (field "password" (string password) end);
        client_id = none;
      }))
