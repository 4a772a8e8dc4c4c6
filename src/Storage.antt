-- ===== src/Storage.antt =====
-- localStorage, as web/src/live-identity.ts and web/src/live-layout.ts use it.
--
-- The texts in it are a type that is a parameter: of a text the code knows whether it is empty, and what
-- JSON.parse reads in it. An operation that the browser refuses is an exception, for which `none` stands.
use xbin.Common.{String, Bool, Option, none, some, if◌then◌else◌, str_eq}
use xbin.Json.{Value}

pub record Storage (Text : Type 0) : Type 0 where
  pub entries : String → Option Text
  pub can_read : Bool
  pub can_write : Bool

-- JSON.parse, JSON.stringify and the emptiness of a text.
pub record Texts (Text : Type 0) : Type 0 where
  pub parse : Text → Option Value
  pub stringify : Value → Text
  pub is_empty : Text → Bool

module _ {Text : Type 0} where
  unfoldable pub get_item : String → Storage Text → Option (Option Text)
  get_item k s = if s.can_read then some (s.entries k) else none

  unfoldable pub set_item : String → Text → Storage Text → Option (Storage Text)
  set_item k text s =
      if s.can_write
      then some (record s { entries = λ j. if str_eq k j then some text else s.entries j })
      else none
