-- ===== src/LiveRoom/Tests.antt =====
-- A room with an editor whose change sets replace the text, run on events in and out of order.
use xbin.Common.{
  ℕ, zero, suc, ◌+◌, ◌≡◌, refl, String, true, some, [], ◌∷◌, arith, inl, ◌==◌, if◌then◌else◌,
  if-both, false, str_eq, length, ◌⊎◌, ap, sym,
}
use mathlib.Core.Option.{some-injective}
use xbin.Json.{Value, string}
use xbin.Operations
use xbin.Connection
use xbin.Connection.{connected}
use xbin.LiveRoom.{lookup, has_document}
use xbin.LiveRoom.Documents.{DocumentEvent, apply_document_event}
use xbin.LiveRoom.Documents.Converges.{text_after, InStep, Runs, starts, receives, runs-InStep}
use xbin.LiveRoom.Metadata.{
  TabChange, created, updated, reordered, MetadataEvent, apply_metadata_event,
}
use xbin.LiveRoom.Outbound.{flush_changes}
use xbin.LiveRoom.Outbound.Once.{may_flush, flush_changes-once}
use xbin.LiveRoom.Metadata.Abstract.{tab_of, tabs, change_tabs, IsNumbered, IsDistinct}
use xbin.LiveRoom.Metadata.Placing.{IsOrder}
use xbin.LiveRoom.Metadata.Refines.{IsChange}
use xbin.LiveRoom.Metadata.Converges as Tabs
use xbin.LiveRoom.Samples.{Plain, plain, notes, code_tab, room, typing}

-- The authority's history of the document "a": revision `n` writes n.
abbrev written_text : ℕ → String
written_text n = if n == 1 then "one" else if n == 2 then "two" else "more"

abbrev written : ℕ → Value
written n = string (written_text n)

abbrev event : ℕ → DocumentEvent
event n = record {
  operation_id = "op";
  client_id = "other";
  document_id = "a";
  revision = n;
  changes = written n;
}

always : (k : ℕ) → (t : String) × (text_after plain "client" "a" 0 "" written k ≡ some t)
unfolding text_after
always zero = ("", refl)
always (suc k) = let (t, e) = always k in (written_text (0 + suc k), ground (arith, e))

in_step : InStep plain "client" "a" 0 "" written room
unfolding lookup text_after
in_step = record {
  editor = record { content = ""; version = 0; pending = [] };
  synced_text = "";
  after = 0;
  has_editor = refl;
  has_text = refl;
  at_version = refl;
  shows_text = refl;
}

-- The second event comes first and is a gap; the first is applied, then the second, then the first again.
abbrev out_of_order :
    Runs plain "client" "a" 0 "" written room
      (apply_document_event plain "client"
        (event 1)
        (apply_document_event plain "client"
          (event 2)
          (apply_document_event plain "client"
            (event 1)
            (apply_document_event plain "client" (event 2) room).1).1).1).1
out_of_order =
    receives (event 1) (λ _. refl)
      (receives (event 2) (λ _. refl)
        (receives (event 1) (λ _. refl) (receives (event 2) (λ _. refl) starts)))

runs-InStep_example :
    InStep plain "client" "a" 0 "" written
      (apply_document_event plain "client"
        (event 1)
        (apply_document_event plain "client"
          (event 2)
          (apply_document_event plain "client"
            (event 1)
            (apply_document_event plain "client" (event 2) room).1).1).1).1
runs-InStep_example =
    runs-InStep plain "client" "a" 0 "" written
      (λ u e e' h. ap (λ (x : Plain). x.version) (sym (some-injective _ _ h))) always in_step
      out_of_order

-- The tabs: the second change comes first and is a gap, the first comes twice.
abbrev history : ℕ → TabChange
history n =
    if n == 5
    then created (record notes { id = "c"; name = "draft" })
    else if n == 6
    then reordered ("c" ∷ "a" ∷ "b" ∷ [])
    else updated "a" "notes" "plaintext"

abbrev tab_event : ℕ → MetadataEvent
tab_event n = record { operation_id = "op"; revision = n; change = history n }

history-IsChange : (n : ℕ) → IsChange (history n)
unfolding IsChange IsOrder
history-IsChange n =
    if-both IsChange tt
      (if-both IsChange {x = reordered ("c" ∷ "a" ∷ "b" ∷ [])} {y = updated "a" "notes" "plaintext"}
        (refl, (refl, (refl, tt))) tt (n == 6))
      (n == 5)

room_tabs : tabs room.documents ≡ tab_of notes ∷ tab_of code_tab ∷ []
unfolding tabs
room_tabs = refl

room-IsView : Tabs.IsView plain "client" 4 (tab_of notes ∷ tab_of code_tab ∷ []) history room
unfolding Tabs.tabs_after tabs IsNumbered IsDistinct has_document
room-IsView = record {
  after = 0;
  at_revision = refl;
  are_tabs = refl;
  are_tidy = record { numbered = (refl, (refl, tt)); distinct = (refl, (refl, tt)) };
  has_active = inl refl;
}

abbrev seen :
    Tabs.Runs plain "client" 4
      (tab_of notes ∷ tab_of code_tab ∷ [])
      history
      room
      (apply_metadata_event plain "client"
        (tab_event 6)
        (apply_metadata_event plain "client"
          (tab_event 5)
          (apply_metadata_event plain "client" (tab_event 6) room).1).1).1
seen =
    Tabs.receives (tab_event 6) refl
      (Tabs.receives (tab_event 5) refl (Tabs.receives (tab_event 6) refl Tabs.starts))

runs-IsView_example :
    Tabs.IsView plain "client" 4
      (tab_of notes ∷ tab_of code_tab ∷ [])
      history
      (apply_metadata_event plain "client"
        (tab_event 6)
        (apply_metadata_event plain "client"
          (tab_event 5)
          (apply_metadata_event plain "client" (tab_event 6) room).1).1).1
unfolding change_tabs
runs-IsView_example =
    Tabs.runs-IsView plain "client" 4 (tab_of notes ∷ tab_of code_tab ∷ []) history history-IsChange
      refl room-IsView seen

abbrev drawn : ℕ → String
drawn n = if n == 7 then "op-seven" else "op-other"

drawn-nonempty : (n : ℕ) → str_eq (drawn n) "" ≡ false
drawn-nonempty n =
    if-both (λ s. str_eq s "" ≡ false) {x = "op-seven"} {y = "op-other"} refl refl (n == 7)

flush_changes-once_example :
    (flush_changes plain "client" drawn true (flush_changes plain "client" drawn true typing)
      ≡ flush_changes plain "client" drawn true typing)
    × ((flush_changes plain "client" drawn true typing ≡ typing) ⊎ (may_flush room ≡ true))
flush_changes-once_example = flush_changes-once plain "client" drawn true drawn-nonempty typing

both_sent : length (flush_changes plain "client" drawn true typing).sent ≡ 2
unfolding flush_changes Operations.find Operations.put Connection.send
both_sent = refl
