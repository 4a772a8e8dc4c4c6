-- ===== src/Layout.antt =====
-- web/src/live-layout.ts: the workspace presets of a live room.
pub mod Preferences
use xbin.Common.{String, ◌≡◌, refl, Option, none, some, if◌then◌else◌, str_eq}
use xbin.Json.{Value, undefined, null, string}

-- LiveLayoutPreset
pub data LayoutPreset : Type 0 where
  single columns rows three grid : LayoutPreset

abbrev pub preset_name : LayoutPreset → String
preset_name single = "single"
preset_name columns = "columns"
preset_name rows = "rows"
preset_name three = "three"
preset_name grid = "grid"

unfoldable pub preset_of : String → Option LayoutPreset
preset_of s =
    if str_eq s "single"
    then some single
    else if str_eq s "columns"
    then some columns
    else if str_eq s "rows"
    then some rows
    else if str_eq s "three"
    then some three
    else if str_eq s "grid"
    then some grid
    else none

-- isLiveLayoutPreset, with the preset that it finds
abbrev pub layout_preset : Value → Option LayoutPreset
layout_preset (string s) = preset_of s
layout_preset _ = none

-- `value ?? "single"`
abbrev pub or_single : Value → Value
or_single undefined = string "single"
or_single null = string "single"
or_single v = v

pub preset_of-name : (p : LayoutPreset) → preset_of (preset_name p) ≡ some p
unfolding preset_of
preset_of-name single = refl
preset_of-name _ = refl
