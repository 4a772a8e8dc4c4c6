-- ===== src/LiveRoom/Commands/Tests.antt =====
-- A tab that is deleted, over a socket that is open.
use xbin.Common.{◌≡◌, refl, String, true, false, none, ◌&&◌, ◌⊎◌}
use xbin.Json.{Value, Fields, field, string, end}
use xbin.Operations
use xbin.Connection
use xbin.LiveRoom.Commands.{send_metadata}
use xbin.LiveRoom.Commands.Sending.{may_send, IsSent, IsUnsent, send_metadata-outcome}
use xbin.LiveRoom.Samples.{typing}

abbrev no_text : Value → String
no_text v = "{}"

abbrev of_b : Fields
of_b = field "document_id" (string "b") end

not_known : Operations.find "meta-1" typing.room.tracker ≡ none
unfolding Operations.find
not_known = refl

send_metadata-outcome_example :
    (((may_send true "client" "meta-1" no_text "document_delete" of_b typing
          && (Connection.send true typing.socket).0)
        ≡ true)
      × IsSent true "client" "meta-1" no_text "document_delete" of_b typing
          (send_metadata true "client" "meta-1" no_text "document_delete" of_b typing))
    ⊎ (((may_send true "client" "meta-1" no_text "document_delete" of_b typing
            && (Connection.send true typing.socket).0)
          ≡ false)
        × IsUnsent true "client" "meta-1" no_text "document_delete" of_b typing
            (send_metadata true "client" "meta-1" no_text "document_delete" of_b typing))
send_metadata-outcome_example =
    send_metadata-outcome true "client" "meta-1" no_text "document_delete" of_b typing refl
      not_known
