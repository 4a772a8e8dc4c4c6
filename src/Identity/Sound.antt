-- ===== src/Identity/Sound.antt =====
-- web/src/live-identity.ts: the identity of a call is valid, whatever the storage holds or refuses.
use xbin.Common.{
  ◌≡◌, refl, subst, String, Bool, true, false, Option, none, some, Option-cases, inl, inr, arith,
}
use xbin.Storage.{Storage, Texts, set_item}
use xbin.Identity.{
  Identity, live_identity_storage_key, valid_opaque_identifier, identity_value, or_created,
  fallback_identity, read_identity, store_created, resolve_stored, resolve_in,
  resolve_live_browser_identity,
}
use xbin.Identity.Reading.{IsValid, read_identity-IsValid}
use xbin.Identity.Stable.{fallback_identity-IsValid}

or_created-IsValid :
    (created : Identity) (r : Option (Option Identity)) (i : Identity)
    → IsValid created
    → ((j : Identity) → r ≡ some (some j) → IsValid j)
    → or_created created r ≡ some i
    → IsValid i
unfolding or_created
or_created-IsValid created none i v h e = absurd (cc e)
or_created-IsValid created (some none) i v h e =
    let same : created ≡ i = ground arith in subst IsValid (same) v
or_created-IsValid created (some (some j)) i v h e =
    let same : j ≡ i = ground arith in subst IsValid (same) (h j refl)

module _ {Text : Type 0} (t : Texts Text) where
  resolved-IsValid :
      (key created : String) (s : Storage Text) (i : Identity)
      → valid_opaque_identifier created ≡ true
      → (resolve_stored t key created s).0 ≡ some i
      → IsValid i
  unfolding resolve_stored store_created
  resolved-IsValid key created s i v e = elim (Option-cases (read_identity t key s)) [
    | inl thrown ↦ absurd (ground arith)
    | inr (found, at) ↦ elim (Option-cases found) [
      | inr (j, there) ↦ read_identity-IsValid t key s i (ground arith)
      | inl missing ↦
          elim (Option-cases
            (set_item key (t.stringify (identity_value (fallback_identity created))) s)) [
              | inl refused ↦ absurd (ground arith)
              | inr (s', set) ↦
                  or_created-IsValid (fallback_identity created) (read_identity t key s') i
                    (fallback_identity-IsValid created v)
                    (λ j back. read_identity-IsValid t key s' j back) (ground arith)
            ]
    ]
  ]

  resolve_in-IsValid :
      (slug created fallback : String) (runs : Bool) (s : Storage Text)
      → valid_opaque_identifier created ≡ true
      → valid_opaque_identifier fallback ≡ true
      → IsValid (resolve_in t slug created fallback runs s).0
  unfolding resolve_in
  resolve_in-IsValid slug created fallback false s v u = fallback_identity-IsValid fallback u
  resolve_in-IsValid slug created fallback true s v u =
      let key = live_identity_storage_key slug in
      elim (Option-cases (resolve_stored t key created s).0) [
        | inl thrown ↦ rw (thrown, resolve_in) (fallback_identity-IsValid fallback u)
        | inr (i, resolved) ↦
            rw (resolved, resolve_in) (resolved-IsValid key created s i v resolved)
      ]

  -- Whatever the storage holds, whichever of its operations the browser refuses, whether the lock runs the callback
  -- and also where there is no storage, resolveLiveBrowserIdentity gives an identity with a valid credential and
  -- a valid nickname, if it has one; the credentials that are drawn are valid.
  pub resolve_live_browser_identity-IsValid :
      (slug created fallback : String) (runs : Bool) (s : Option (Storage Text))
      → valid_opaque_identifier created ≡ true
      → valid_opaque_identifier fallback ≡ true
      → IsValid (resolve_live_browser_identity t slug created fallback runs s).0
  unfolding resolve_live_browser_identity
  resolve_live_browser_identity-IsValid slug created fallback runs none v u =
      fallback_identity-IsValid fallback u
  resolve_live_browser_identity-IsValid slug created fallback runs (some s) v u =
      resolve_in-IsValid slug created fallback runs s v u
