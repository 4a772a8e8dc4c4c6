-- ===== src/Layout/Preferences.antt =====
-- web/src/live-layout.ts: the layout that a browser remembers for a room.
mod Tests
use xbin.Common.{
  ℕ, ◌+◌, ltb, leb, ◌≡◌, refl, String, Bool, true, false, ◌&&◌, Option, none, some, if◌then◌else◌,
  Bool-cases, inl, inr, str_eq, eq_refl, str_append, arith,
}
use xbin.Json.{
  Value, object, string, boolean, Fields, end, field, property, has_property, as_boolean,
}
use xbin.Layout.{LayoutPreset, single, preset_name, preset_of, layout_preset, preset_of-name}
use xbin.Storage.{Storage, Texts, get_item, set_item}

-- LayoutPreference
pub record LayoutPreference : Type 0 where
  pub follow_creator : Bool
  pub preset : LayoutPreset

-- What is returned where nothing usable is stored.
pub default_preference : LayoutPreference
default_preference = record { follow_creator = true; preset = single }

pub storage_key : String → String
storage_key slug = str_append "0xbin.live.layout.v1:" slug

-- `typeof value.followCreator === "boolean"` and `isLiveLayoutPreset(value.preset)`
pub preference_of : Option Bool → Option LayoutPreset → LayoutPreference
unfolding default_preference
preference_of (some f) (some p) = record { follow_creator = f; preset = p }
preference_of _ _ = default_preference

pub is_text : String → Value → Bool
is_text text (string s) = str_eq s text
is_text text _ = false

-- The platform's clock and its date parser, `none` for NaN.
pub record Clock : Type 0 where
  pub now : ℕ
  pub time_of : String → Option ℕ

-- `Date.parse(expiresAt) > Date.now()`
pub is_ahead : Clock → String → Bool
is_ahead c expires_at = elim (c.time_of expires_at) [ none ↦ false | some time ↦ ltb c.now time ]

-- What readLiveLayoutPreference makes of a value; of a missing property the tests that follow are false too.
pub preference_in : Clock → String → Value → LayoutPreference
unfolding is_text is_ahead preference_of
preference_in clock expires_at (object f) =
    if is_text expires_at (property "expiresAt" f) && is_ahead clock expires_at
    then preference_of (as_boolean (property "followCreator" f))
        (layout_preset (property "preset" f))
    else default_preference
preference_in clock expires_at _ = default_preference

-- `{ ...preference, expiresAt }`
pub preference_value : String → LayoutPreference → Value
preference_value expires_at p = object (
    field "followCreator" (boolean p.follow_creator)
      (field "preset" (string (preset_name p.preset)) (field "expiresAt" (string expires_at) end)))

module _ {Text : Type 0} (t : Texts Text) where
  -- readLiveLayoutPreference
  pub read_live_layout_preference : Clock → String → String → Storage Text → LayoutPreference
  unfolding preference_in
  read_live_layout_preference clock slug expires_at s = elim (get_item (storage_key slug) s) [
    | none ↦ default_preference
    | some none ↦ default_preference
    | some (some raw) ↦ elim (t.parse raw) [
      | none ↦ default_preference
      | some v ↦ preference_in clock expires_at v
    ]
  ]

  -- saveLiveLayoutPreference
  pub save_live_layout_preference : String → String → LayoutPreference → Storage Text → Storage Text
  save_live_layout_preference slug expires_at p s =
      elim (set_item (storage_key slug) (t.stringify (preference_value expires_at p)) s) [
        | none ↦ s
        | some s' ↦ s'
      ]

-- JSON.parse gives back a preference that JSON.stringify wrote.
abbrev pub KeepsPreferences : {Text : Type 0} → Texts Text → Type 0
KeepsPreferences t =
    (expires_at : String) (p : LayoutPreference)
    → t.parse (t.stringify (preference_value expires_at p)) ≡ some (preference_value expires_at p)

-- The expiry is a date that the platform reads, after the present time.
abbrev pub lasts : Clock → String → Bool
lasts c e = elim (c.time_of e) [ none ↦ false | some time ↦ leb (c.now + 1) time ]

preference_in-value :
    (c : Clock) (e e' : String) (p : LayoutPreference)
    → preference_in c e (preference_value e' p)
      ≡ (if str_eq e' e && lasts c e then p else default_preference)
unfolding preference_in preference_value preference_of is_text is_ahead
preference_in-value c e e' p = rw (preset_of-name p.preset) (ground arith)

-- A layout that was saved for a room is read again as long as the room is the same, by its expiry, and that is
-- after the present time; for another expiry, after it, at an expiry that is no date, or if the storage cannot be read,
-- the answer is the default. If the storage cannot be written, what was there is read. JSON.parse gives back what
-- JSON.stringify wrote.
pub read-save_live_layout_preference :
    {Text : Type 0} (t : Texts Text) (c : Clock) (slug e e' : String) (p : LayoutPreference)
    (s : Storage Text)
    → KeepsPreferences t
    → read_live_layout_preference t c slug e (save_live_layout_preference t slug e' p s) ≡ (
        if s.can_write
        then (if s.can_read && (str_eq e' e && lasts c e) then p else default_preference)
        else read_live_layout_preference t c slug e s)
unfolding read_live_layout_preference save_live_layout_preference get_item set_item
read-save_live_layout_preference t c slug e e' p s k =
    ground (arith, k e' p, preference_in-value c e e' p, eq_refl (storage_key slug))
