-- ===== src/Identity/Tests.antt =====
-- A browser whose storage works, two of its tabs, and a storage that refuses to be written.
use xbin.Common.{
  ◌≡◌, refl, true, false, none, some, List, [], ◌∷◌, ◌&&◌, if◌then◌else◌, str_eq, codes,
  utf16_length, utf8_length,
}
use xbin.Json.{Value, string}
use xbin.Storage.{Storage, Texts, get_item}
use xbin.Identity.{
  Identity, valid_opaque_identifier, valid_nickname, identity_value, read_item, read_identity,
  live_identity_storage_key, resolve_in, resolve_live_browser_identity, save_live_browser_nickname,
}
use xbin.Identity.Reading.{IsValid, KeepsIdentities, identity_of-identity_value}
use xbin.Identity.Stable.{Action, resolving, naming, act_all}
use xbin.Identity.Lasting.{resolve_in-lasts, resolve_in-save}
use xbin.Identity.Sound.{resolve_live_browser_identity-IsValid}

-- A text is the value that it stands for.
abbrev plain_texts : Texts Value
plain_texts = record { parse = λ v. some v; stringify = λ v. v; is_empty = λ v. false }

plain_texts-KeepsIdentities : KeepsIdentities plain_texts
plain_texts-KeepsIdentities = record { parsed = λ i. refl; is_text = λ i. refl }

abbrev empty : Storage Value
empty = record { entries = λ k. none; can_read = true; can_write = true }

abbrev full_of_junk : Storage Value
full_of_junk = record { entries = λ k. some (string "junk"); can_read = true; can_write = false }

abbrev between : List Action
between =
    resolving "other" "browser-c" "browser-d" true
    ∷ naming "room" "browser-a" "ada"
    ∷ resolving "room" "browser-e" "browser-f" false
    ∷ []

is_valid : valid_opaque_identifier "browser-a" ≡ true
unfolding valid_opaque_identifier utf16_length codes
is_valid = refl

is_valid_too : valid_opaque_identifier "browser-c" ≡ true
unfolding valid_opaque_identifier utf16_length codes
is_valid_too = refl

is_valid_last : valid_opaque_identifier "browser-e" ≡ true
unfolding valid_opaque_identifier utf16_length codes
is_valid_last = refl

-- Names that are blank at an end, empty or hold a control character are refused.
names :
    (valid_nickname "ada l" ≡ true)
    × (valid_nickname " ada" ≡ false)
    × (valid_nickname "" ≡ false)
    × (valid_nickname "a\tb" ≡ false)
unfolding valid_nickname utf16_length utf8_length codes
names = (refl, refl, refl, refl)

resolve_in-lasts_example :
    (resolve_in plain_texts "room" "browser-b" "browser-g" true (
      act_all plain_texts between
        (resolve_in plain_texts "room" "browser-a" "browser-h" true empty).1)).0.credential
    ≡ (resolve_in plain_texts "room" "browser-a" "browser-h" true empty).0.credential
resolve_in-lasts_example =
    resolve_in-lasts plain_texts plain_texts-KeepsIdentities "room" "browser-a" "browser-h"
      "browser-b" "browser-g" between empty is_valid (is_valid_too, (is_valid_last, tt)) refl refl

abbrev ada : Identity
ada = record { credential = "browser-a"; nickname = none }

abbrev known : Storage Value
known = record { entries = λ k. some (identity_value ada); can_read = true; can_write = true }

ada-known : read_identity plain_texts (live_identity_storage_key "room") known ≡ some (some ada)
unfolding read_identity read_item get_item
ada-known = rw (identity_of-identity_value ada (record { credential = is_valid; nickname = tt }))

resolve_in-save_example :
    (resolve_in plain_texts "room" "browser-b" "browser-c" true
      (save_live_browser_nickname plain_texts "room" "browser-a" "ada" known)).0
    ≡ (if valid_nickname "ada" && str_eq ada.credential "browser-a"
        then record ada { nickname = some "ada" }
        else ada)
resolve_in-save_example =
    resolve_in-save plain_texts plain_texts-KeepsIdentities "room" "browser-a" "ada" "browser-b"
      "browser-c" ada known refl ada-known

resolve_live_browser_identity-IsValid_example :
    IsValid
      (resolve_live_browser_identity plain_texts "room" "browser-a" "browser-c" true
        (some full_of_junk)).0
resolve_live_browser_identity-IsValid_example =
    resolve_live_browser_identity-IsValid plain_texts "room" "browser-a" "browser-c" true
      (some full_of_junk) is_valid is_valid_too
