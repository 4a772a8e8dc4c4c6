-- ===== src/Layout/Preferences/Tests.antt =====
-- A layout that is saved and read again.
use xbin.Common.{◌≡◌, refl, true, false, none, ◌&&◌, some, if◌then◌else◌, str_eq}
use xbin.Json.{Value}
use xbin.Layout.{grid}
use xbin.Storage.{Storage, Texts}
use xbin.Layout.Preferences.{
  Clock, lasts, LayoutPreference, default_preference, read_live_layout_preference,
  save_live_layout_preference, read-save_live_layout_preference,
}

abbrev plain_texts : Texts Value
plain_texts = record { parse = λ v. some v; stringify = λ v. v; is_empty = λ v. false }

abbrev empty : Storage Value
empty = record { entries = λ k. none; can_read = true; can_write = true }

abbrev four_panes : LayoutPreference
four_panes = record { follow_creator = false; preset = grid }

abbrev clock : Clock
clock = record { now = 5; time_of = λ e. some 9 }

read-save_live_layout_preference_example :
    read_live_layout_preference plain_texts clock "room" "2026"
      (save_live_layout_preference plain_texts "room" "2026" four_panes empty)
    ≡ (if true
        then (if true && (str_eq "2026" "2026" && lasts clock "2026")
            then four_panes
            else default_preference)
        else read_live_layout_preference plain_texts clock "room" "2026" empty)
read-save_live_layout_preference_example =
    read-save_live_layout_preference plain_texts clock "room" "2026" "2026" four_panes empty
      (λ e p. refl)
