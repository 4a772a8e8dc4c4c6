-- ===== src/LiveApi/Calls/Tests.antt =====
-- Rooms read from a service that answers the same to every call.
use xbin.Common.{ℕ, String, ◌≡◌, refl, true, false, Option, none, some, [], ◌∷◌}
use Prim.Native.String.{◌++◌}
use xbin.Json.{
  undefined, Value, boolean, string, number, natural, array, values, object, end, field,
}
use xbin.Api.{Response, Init, request, read, expect, new_error, decode_error, error_in}
use xbin.LiveApi.{RoomSnapshot, Document, room_unavailable, normalize_live_error_code}
use xbin.LiveApi.Decode.{
  positive_integer, limits_in, document_in, operation_ids, place, by_position, room_snapshot,
}
use xbin.LiveApi.Snapshots.{IsSnapshot, room_snapshot-IsSnapshot}
use xbin.LiveApi.Calls.{
  live_request, probe_result, probed, get_live_room, probe_live_room_reconnect,
}
use xbin.LiveApi.Calls.Probe.{told, probe-told}

abbrev n : ℕ → Value
n k = number (natural k)

abbrev tab : String → ℕ → Value
tab id position = object (
    field "id" (string id) (
      field "name" (string "a.go") (
        field "language" (string "go") (
          field "content" (string "") (
            field "revision" (n 0)
              (field "position" (n position) (field "snapshot_revision" (n 0) end)))))))

abbrev room : Value
room = object (
    field "slug" (string "calm-otter") (
      field "expires_at" (string "later") (
        field "password_required" (boolean false) (
          field "metadata_revision" (n 3) (
            field "metadata_snapshot_revision" (n 3) (
              field "max_bytes" (n 100) (
                field "max_document_bytes" (n 100) (
                  field "max_tabs" (n 5) (
                    field "max_writers" (n 2) (
                      field "max_viewers" (n 0) (
                        field "max_participants" (n 2) (
                          field "room_lifetime_seconds" (n 60) (
                            field "documents" (array (values (tab "two" 1 ∷ tab "one" 0 ∷ [])))
                              end)))))))))))))

abbrev document : String → ℕ → Document
document id position = record {
  id = id;
  name = "a.go";
  language = "go";
  content = "";
  revision = 0;
  position = position;
  snapshot_revision = 0;
}

abbrev room_read : RoomSnapshot
room_read = record {
  slug = "calm-otter";
  expires_at = "later";
  password_required = false;
  metadata_revision = 3;
  limits = record {
    max_bytes = 100;
    max_tabs = 5;
    max_writers = 2;
    max_viewers = 0;
    max_participants = 2;
    room_lifetime_seconds = 60;
  };
  documents = document "one" 0 ∷ document "two" 1 ∷ [];
  accepted_operation_ids = [];
}

room_decodes : room_snapshot room ≡ some room_read
unfolding room_snapshot limits_in positive_integer document_in operation_ids by_position place
room_decodes = refl

room_snapshot-IsSnapshot_example : IsSnapshot room room_read
room_snapshot-IsSnapshot_example = room_snapshot-IsSnapshot room room_read room_decodes

abbrev serves : Value → String → Init → Option Response
serves v path init = some (record { ok = true; status = 200; json = some v })

abbrev over : String → Init → Option Response
over path init = some (record {
  ok = false;
  status = 410;
  json = some (
      object (
        field "error"
          (object (field "code" (string "room_expired") (field "message" (string "over") end)))
          end));
})

abbrev same : String → String
same s = s

over_probed : probe_live_room_reconnect over same "calm-otter" none ≡ room_unavailable
unfolding probe_live_room_reconnect probed probe_result get_live_room live_request request read
    expect new_error decode_error error_in normalize_live_error_code
over_probed = refl

probe-told_example :
    probe_live_room_reconnect (serves room) same "calm-otter" none
    ≡ told (
        serves room
          ("/api/v1/live/" ++ same "calm-otter")
          (record { method = "GET"; body = undefined; client_id = none }))
probe-told_example = probe-told (serves room) same "calm-otter" none
