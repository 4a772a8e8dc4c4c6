-- ===== src/Identity.antt =====
-- web/src/live-identity.ts: the identity that a browser keeps for a room.
--
-- createCredential is called at most twice in a call: `created` is what it gives for the identity that is
-- stored, `fallback` what it gives in the `catch`. `runs` is false where the lock's request fails before its callback runs;
-- a callback runs to its end before another one of the same lock starts.
pub mod Reading
pub mod Stable
pub mod Lasting
pub mod Sound
mod Tests
use xbin.Common.{
  ℕ, String, Bool, true, false, not, ◌&&◌, ◌||◌, Option, none, some, List, [], ◌∷◌, leb, ltb, ◌==◌,
  if◌then◌else◌, str_eq, all, codes, utf16_length, utf8_length, str_append,
}
use xbin.Json.{Value, object, string, number, natural, Fields, end, field, property}
use xbin.RoomUi.Names.{trim}
use xbin.Crypto.{is_base64url}
use xbin.Storage.{Storage, Texts, get_item, set_item}

-- LiveBrowserIdentity; its `version` is 1
pub record Identity : Type 0 where
  pub credential : String
  pub nickname : Option String

-- liveIdentityStorageKey
unfoldable pub live_identity_storage_key : String → String
live_identity_storage_key slug = str_append "0xbin.live.identity.v1:" slug

-- validOpaqueIdentifier, for a text
pub valid_opaque_identifier : String → Bool
unfolding is_base64url
valid_opaque_identifier s =
    ltb 0 (utf16_length s) && leb (utf16_length s) 128 && all is_base64url (codes s)

pub same_codes : List ℕ → List ℕ → Bool
same_codes [] [] = true
same_codes (c ∷ cs) (d ∷ ds) = c == d && same_codes cs ds
same_codes _ _ = false

-- `[\u0000-\u001f\u007f]`
pub is_control : ℕ → Bool
is_control c = leb c 31 || c == 127

-- validNickname, for a text
pub valid_nickname : String → Bool
unfolding same_codes is_control trim
valid_nickname s =
    ltb 0 (utf16_length s)
    && same_codes (codes s) (trim (codes s))
    && leb (utf8_length s) 32
    && all (λ c. not (is_control c)) (codes s)

-- `value.version === 1`
pub is_version : Value → Bool
is_version (number (natural n)) = n == 1
is_version _ = false

-- `value.credential`, if it is a valid one
pub read_credential : Value → Option String
read_credential (string s) = if valid_opaque_identifier s then some s else none
read_credential _ = none

-- `nickname`
pub read_nickname : Value → Option String
read_nickname (string s) = if valid_nickname s then some s else none
read_nickname _ = none

-- What readIdentity makes of a value.
pub identity_of : Value → Option Identity
unfolding is_version
identity_of (object f) =
    if is_version (property "version" f)
    then elim (read_credential (property "credential" f)) [
      | none ↦ none
      | some c ↦ some (record { credential = c; nickname = read_nickname (property "nickname" f) })
    ]
    else none
identity_of _ = none

pub nickname_field : Option String → Fields
nickname_field none = end
nickname_field (some n) = field "nickname" (string n) end

-- The object that is stored.
pub identity_value : Identity → Value
unfolding nickname_field
identity_value i = object (
    field "version" (number (natural 1))
      (field "credential" (string i.credential) (nickname_field i.nickname)))

pub fallback_identity : String → Identity
fallback_identity credential = record { credential = credential; nickname = none }

-- `readIdentity(storage, key) ?? created`
pub or_created : Identity → Option (Option Identity) → Option Identity
or_created created none = none
or_created created (some none) = some created
or_created created (some (some i)) = some i

module _ {Text : Type 0} (t : Texts Text) where
  -- What readIdentity makes of an item.
  pub read_item : Option Text → Option Identity
  read_item none = none
  read_item (some raw) =
      if t.is_empty raw then none else elim (t.parse raw) [ none ↦ none | some v ↦ identity_of v ]

  -- readIdentity; the outer `none` is an exception of `getItem`
  pub read_identity : String → Storage Text → Option (Option Identity)
  read_identity key s = elim (get_item key s) [ none ↦ none | some item ↦ some (read_item item) ]

  -- A new identity is stored and read back.
  pub store_created : String → Identity → Storage Text → Option Identity × Storage Text
  unfolding or_created
  store_created key created s = elim (set_item key (t.stringify (identity_value created)) s) [
    | none ↦ (none, s)
    | some s' ↦ (or_created created (read_identity key s'), s')
  ]

  -- `resolveStored`; `none` is an exception
  pub resolve_stored : String → String → Storage Text → Option Identity × Storage Text
  unfolding store_created
  resolve_stored key created s = elim (read_identity key s) [
    | none ↦ (none, s)
    | some none ↦ store_created key (fallback_identity created) s
    | some (some i) ↦ (some i, s)
  ]

  -- The `try` of resolveLiveBrowserIdentity.
  pub resolve_in : String → String → String → Bool → Storage Text → Identity × Storage Text
  unfolding resolve_stored
  resolve_in slug created fallback runs s =
      if runs
      then (let (resolved, s') = resolve_stored (live_identity_storage_key slug) created s in
          elim resolved [ none ↦ (fallback_identity fallback, s') | some i ↦ (i, s') ])
      else (fallback_identity fallback, s)

  -- resolveLiveBrowserIdentity; a browser may have no storage
  pub resolve_live_browser_identity :
      String → String → String → Bool → Option (Storage Text) → Identity × Option (Storage Text)
  unfolding resolve_in
  resolve_live_browser_identity slug created fallback runs none = (fallback_identity fallback, none)
  resolve_live_browser_identity slug created fallback runs (some s) =
      let (i, s') = resolve_in slug created fallback runs s in (i, some s')

  -- saveLiveBrowserNickname, where there is a storage
  pub save_live_browser_nickname : String → String → String → Storage Text → Storage Text
  save_live_browser_nickname slug credential nickname s =
      if not (valid_nickname nickname)
      then s
      else elim (read_identity (live_identity_storage_key slug) s) [
        | none ↦ s
        | some none ↦ s
        | some (some i) ↦
            if not (str_eq i.credential credential)
            then s
            else elim (set_item (live_identity_storage_key slug)
                (t.stringify (identity_value (record i { nickname = some nickname }))) s) [
                  | none ↦ s
                  | some s' ↦ s'
                ]
      ]
