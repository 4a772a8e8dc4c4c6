-- ===== src/Identity/Reading.antt =====
-- web/src/live-identity.ts: what readIdentity finds after a write.
use xbin.Common.{
  ◌≡◌, refl, String, true, false, Option, none, some, if-split, Option-cases, inl, inr, str_eq,
  eq_refl, arith,
}
use xbin.Json.{Value, object, string, property}
use xbin.Storage.{Storage, Texts, get_item, set_item}
use xbin.Identity.{
  Identity, valid_opaque_identifier, valid_nickname, is_version, read_credential, read_nickname,
  identity_of, nickname_field, identity_value, read_item, read_identity,
}

-- The nickname, if there is one, is valid.
abbrev pub HasValidName : Option String → Type 0
HasValidName none = Unit {0}
HasValidName (some n) = valid_nickname n ≡ true

-- What an identity's reader relies on.
pub record IsValid (i : Identity) : Type 0 where
  pub credential : valid_opaque_identifier i.credential ≡ true
  pub nickname : HasValidName i.nickname

read_credential-valid :
    (v : Value) (c : String) → read_credential v ≡ some c → valid_opaque_identifier c ≡ true
unfolding read_credential
read_credential-valid (string s) c e = ground arith
read_credential-valid _ c e = absurd (cc e)

read_nickname-valid : (v : Value) → HasValidName (read_nickname v)
unfolding read_nickname
read_nickname-valid (string s) =
    if-split HasValidName {x = some s} {y = none} (valid_nickname s) (λ h. h) (λ h. tt)
read_nickname-valid _ = tt

pub identity_of-IsValid : (v : Value) (i : Identity) → identity_of v ≡ some i → IsValid i
unfolding identity_of
identity_of-IsValid (object f) i e =
    let c : read_credential (property "credential" f) ≡ some i.credential = ground arith in
    let n : i.nickname ≡ read_nickname (property "nickname" f) = ground arith in
    record {
      credential = read_credential-valid (property "credential" f) i.credential c;
      nickname = rw n (read_nickname-valid (property "nickname" f));
    }
identity_of-IsValid _ i e = absurd (cc e)

read_nickname-nickname_field :
    (n : Option String)
    → HasValidName n
    → read_nickname (property "nickname" (nickname_field n)) ≡ n
unfolding read_nickname nickname_field
read_nickname-nickname_field none v = refl
read_nickname-nickname_field (some n) v = rw v

pub identity_of-identity_value :
    (i : Identity) → IsValid i → identity_of (identity_value i) ≡ some i
unfolding identity_of identity_value is_version read_credential
identity_of-identity_value i v =
    rw (v.credential, read_nickname-nickname_field i.nickname v.nickname)

-- JSON.parse gives back an identity that JSON.stringify wrote, whose text is not empty.
pub record KeepsIdentities {Text : Type 0} (t : Texts Text) : Type 0 where
  pub parsed : (i : Identity) → t.parse (t.stringify (identity_value i)) ≡ some (identity_value i)
  pub is_text : (i : Identity) → t.is_empty (t.stringify (identity_value i)) ≡ false

module _ {Text : Type 0} (t : Texts Text) where
  read_item-IsValid : (item : Option Text) (i : Identity) → read_item t item ≡ some i → IsValid i
  unfolding read_item
  read_item-IsValid none i e = absurd (cc e)
  read_item-IsValid (some raw) i e = elim (Option-cases (t.parse raw)) [
    | inl none_read ↦ absurd (ground arith)
    | inr (v, parsed) ↦ identity_of-IsValid v i (ground arith)
  ]

  pub read_identity-IsValid :
      (key : String) (s : Storage Text) (i : Identity)
      → read_identity t key s ≡ some (some i)
      → IsValid i
  unfolding read_identity get_item
  read_identity-IsValid key s i e = read_item-IsValid (s.entries key) i (ground arith)

  pub read_identity-set_item :
      (key : String) (i : Identity) (s s' : Storage Text)
      → KeepsIdentities t
      → IsValid i
      → s.can_read ≡ true
      → set_item key (t.stringify (identity_value i)) s ≡ some s'
      → read_identity t key s' ≡ some (some i)
  unfolding read_identity read_item get_item set_item
  read_identity-set_item key i s s' k v r e =
      ground (arith, k.parsed i, k.is_text i, eq_refl key, identity_of-identity_value i v)

  pub read_identity-set_item_other :
      (key other : String) (text : Text) (s s' : Storage Text)
      → str_eq other key ≡ false
      → set_item other text s ≡ some s'
      → read_identity t key s' ≡ read_identity t key s
  unfolding read_identity get_item set_item
  read_identity-set_item_other key other text s s' n e = ground arith
