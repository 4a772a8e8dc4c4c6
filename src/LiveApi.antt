-- ===== src/LiveApi.antt =====
-- web/src/live-api.ts: the calls on live rooms. `fetch` and `encode` are as for api.ts.
pub mod Decode
pub mod Calls
pub mod Sorted
pub mod Snapshots
use xbin.Common.{
  ℕ, String, Bool, true, false, Option, none, some, List, [], ◌∷◌, if◌then◌else◌, str_eq,
}

-- LiveAPIErrorCode
pub data LiveErrorCode : Type 0 where
  invalid_request payload_too_large rate_limited not_found service_unavailable internal_error :
      LiveErrorCode
  password_required invalid_password room_limit_reached room_expired : LiveErrorCode
  message_too_large connection_limit_reached : LiveErrorCode

-- normalizeLiveErrorCode
pub normalize_live_error_code : String → LiveErrorCode
normalize_live_error_code s =
    if str_eq s "invalid_request"
    then invalid_request
    else if str_eq s "payload_too_large"
    then payload_too_large
    else if str_eq s "rate_limited"
    then rate_limited
    else if str_eq s "not_found"
    then not_found
    else if str_eq s "service_unavailable"
    then service_unavailable
    else if str_eq s "internal_error"
    then internal_error
    else if str_eq s "password_required"
    then password_required
    else if str_eq s "invalid_password"
    then invalid_password
    else if str_eq s "room_limit_reached"
    then room_limit_reached
    else if str_eq s "room_expired"
    then room_expired
    else if str_eq s "message_too_large"
    then message_too_large
    else if str_eq s "connection_limit_reached"
    then connection_limit_reached
    else service_unavailable

-- LiveRoomDocument, with the property of the response that is copied along with the others.
pub record Document : Type 0 where
  pub id : String
  pub name : String
  pub language : String
  pub content : String
  pub revision : ℕ
  pub position : ℕ
  pub snapshot_revision : ℕ

-- LiveServiceConfig
pub record ServiceConfig : Type 0 where
  pub max_bytes : ℕ
  pub max_tabs : ℕ
  pub max_writers : ℕ
  pub max_viewers : ℕ
  pub max_participants : ℕ
  pub room_lifetime_seconds : ℕ

-- LiveRoomSnapshot
pub record RoomSnapshot : Type 0 where
  pub slug : String
  pub expires_at : String
  pub password_required : Bool
  pub metadata_revision : ℕ
  pub limits : ServiceConfig
  pub documents : List Document
  pub accepted_operation_ids : List String

-- CreatedLiveRoom
pub record CreatedRoom : Type 0 where
  pub slug : String
  pub url : String
  pub expires_at : String
  pub password_required : Bool

-- A document of LiveRoomCreateRequest
pub record NewDocument : Type 0 where
  pub name : String
  pub language : String
  pub content : String

-- LiveRoomCreateRequest
pub record CreateRequest : Type 0 where
  pub password : Option String
  pub documents : List NewDocument

-- LiveReconnectProbeResult
pub data ProbeResult : Type 0 where
  authorized authentication_required room_unavailable retry : ProbeResult
