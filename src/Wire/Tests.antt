-- ===== src/Wire/Tests.antt =====
-- The decoder on concrete messages, over a clock that knows one date.
use xbin.Common.{
  ◌≡◌, refl, String, true, ◌||◌, Option, none, some, [], arith, if◌then◌else◌, str_eq, eq_iff,
}
use xbin.Json.{Value, string, array, object, nil, field, end}
use xbin.Wire.Types.{Participant, creator, connected, presence_joined, document_deleted}
use xbin.Wire.Decode.{decode_event, decode_status, decode_document_deleted}
use xbin.Wire.Encode.{encode_event, integer}
use xbin.Wire.Valid.{IsEvent, IsParticipant}
use xbin.Wire.RoundTrip.{decode-encode_event}
use xbin.Wire.Accepted.{decode_event-IsEvent, decode-encode_of_decode}

abbrev date : String
date = "2026-01-01T00:00:00.000Z"

-- A platform that reads this date in two forms.
abbrev iso : String → Option String
iso t = if str_eq t "2026-01-01" || str_eq t date then some date else none

iso_idempotent : (s t : String) → iso s ≡ some t → iso t ≡ some t
iso_idempotent s t h =
    ground (arith, eq_iff t "2026-01-01", eq_iff t date, eq_iff s "2026-01-01", eq_iff s date)

abbrev ada : Participant
ada = record {
  id = "p";
  nickname = "Ada";
  access_class = creator;
  can_edit = true;
  connection_count = 1;
  color = "red";
  current_tab = "a";
  joined_at = date;
  last_seen_at = date;
  cursor = none;
  cursors = [];
  status = connected;
}

abbrev deletion : Value
deletion = object (
    field "type" (string "document_deleted") (
      field "metadata_revision" (integer 7) (
        field "document_id" (string "a")
          (field "client_id" (string "c") (field "operation_id" (string "o") end)))))

decodes_deletion : decode_event iso deletion ≡ some (document_deleted "o" "c" "a" 7)
unfolding decode_event decode_document_deleted
decodes_deletion = refl

-- A status that the client does not know is refused.
refuses_status :
    decode_event iso (object (field "type" (string "status") (field "status" (string "lost") end)))
    ≡ none
unfolding decode_event decode_status
refuses_status = refl

-- An array is a record without a type.
refuses_array : decode_event iso (array nil) ≡ none
unfolding decode_event
refuses_array = refl

ada-IsParticipant : IsParticipant iso ada
ada-IsParticipant = record {
  count = omega arith;
  fits = refl;
  joined_at = record { fixed = refl; some_text = λ e. ground (arith, eq_iff date "") };
  last_seen_at = record { fixed = refl; some_text = λ e. ground (arith, eq_iff date "") };
  cursor = tt;
  cursors = tt;
}

decode-encode_event_example :
    decode_event iso (encode_event (presence_joined ada)) ≡ some (presence_joined ada)
decode-encode_event_example = decode-encode_event iso (presence_joined ada) ada-IsParticipant

decode_event-IsEvent_example : IsEvent iso (document_deleted "o" "c" "a" 7)
decode_event-IsEvent_example =
    decode_event-IsEvent iso iso_idempotent deletion (document_deleted "o" "c" "a" 7)
      decodes_deletion

decoded_again :
    decode_event iso (encode_event (document_deleted "o" "c" "a" 7))
    ≡ some (document_deleted "o" "c" "a" 7)
decoded_again =
    decode-encode_of_decode iso iso_idempotent deletion (document_deleted "o" "c" "a" 7)
      decodes_deletion
