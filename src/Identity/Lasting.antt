-- ===== src/Identity/Lasting.antt =====
-- web/src/live-identity.ts: the first identity of a room is the one that every later call gives.
use xbin.Common.{
  ◌≡◌, ◌≢◌, refl, ap, ◌∙◌, String, true, none, some, List, ◌&&◌, if◌then◌else◌, Bool-cases,
  Option-cases, inl, inr, str_eq, arith,
}
use xbin.Storage.{Storage, Texts, get_item, set_item}
use xbin.Identity.{
  Identity, live_identity_storage_key, valid_opaque_identifier, valid_nickname, identity_value,
  fallback_identity, read_identity, store_created, resolve_stored, resolve_in,
  save_live_browser_nickname,
}
use xbin.Identity.Reading.{KeepsIdentities, read_identity-IsValid, read_identity-set_item}
use xbin.Identity.Stable.{
  Action, AllDrawValid, Holds, act_all, act_all-Holds, readable, fallback_identity-IsValid,
}

module _ {Text : Type 0} (t : Texts Text) where
  not_refused : (key : String) (s : Storage Text) → s.can_read ≡ true → read_identity t key s ≢ none
  unfolding read_identity get_item
  not_refused key s r e = ground arith

  written :
      (key : String) (text : Text) (s : Storage Text)
      → s.can_write ≡ true
      → (s' : Storage Text) × (set_item key text s ≡ some s')
  unfolding set_item
  written key text s w = elim (Option-cases (set_item key text s)) [
    | inl e ↦ absurd (ground arith)
    | inr r ↦ r
  ]

  pub resolve_in-found :
      (slug created fallback : String) (i : Identity) (s : Storage Text)
      → read_identity t (live_identity_storage_key slug) s ≡ some (some i)
      → resolve_in t slug created fallback true s ≡ (i, s)
  unfolding resolve_in resolve_stored
  resolve_in-found slug created fallback i s e = ground arith

module _ {Text : Type 0} (t : Texts Text) (k : KeepsIdentities t) where
  resolve_in-created :
      (slug created fallback : String) (s : Storage Text)
      → valid_opaque_identifier created ≡ true
      → s.can_read ≡ true
      → s.can_write ≡ true
      → read_identity t (live_identity_storage_key slug) s ≡ some none
      → (s' : Storage Text) × (resolve_in t slug created fallback true s
          ≡ (fallback_identity created, s'))
        × (read_identity t (live_identity_storage_key slug) s'
            ≡ some (some (fallback_identity created)))
  unfolding resolve_in resolve_stored store_created
  resolve_in-created slug created fallback s v r w e =
      let key = live_identity_storage_key slug in
      let i = fallback_identity created in
      let (s', set) = written t key (t.stringify (identity_value i)) s w in
      let back =
        read_identity-set_item t key i s s' k (fallback_identity-IsValid created v) r set in
      (s', ground arith, back)

  first-Holds :
      (slug created fallback : String) (s : Storage Text)
      → valid_opaque_identifier created ≡ true
      → s.can_read ≡ true
      → s.can_write ≡ true
      → Holds t
          (live_identity_storage_key slug)
          (resolve_in t slug created fallback true s).0.credential
          (resolve_in t slug created fallback true s).1
  first-Holds slug created fallback s v r w =
      let key = live_identity_storage_key slug in
      elim (Option-cases (read_identity t key s)) [
        | inl e ↦ absurd (not_refused t key s r e)
        | inr (found, e) ↦ elim (Option-cases found) [
          | inl missing ↦
              let (s', resolved, back) =
                resolve_in-created slug created fallback s v r w (e ∙ ap some missing) in
              rw resolved
                (record { identity = fallback_identity created; is_read = back; has = refl })
          | inr (i, there) ↦
              rw (resolve_in-found t slug created fallback i s (e ∙ ap some there))
                (record { identity = i; is_read = e ∙ ap some there; has = refl })
        ]
      ]

  later-same :
      (slug created fallback c : String) (s : Storage Text)
      → Holds t (live_identity_storage_key slug) c s
      → (resolve_in t slug created fallback true s).0.credential ≡ c
  later-same slug created fallback c s h =
      rw (resolve_in-found t slug created fallback h.identity s h.is_read) h.has

  -- If a browser's storage works and its lock runs the callback, then the identity that resolveLiveBrowserIdentity
  -- gives for a room keeps its credential: whatever the browser's tabs resolve and save in between, for this
  -- room and others, also where their locks fail, a later call gives the same credential. JSON.parse gives
  -- back what JSON.stringify wrote, and the credentials that are drawn are valid.
  pub resolve_in-lasts :
      (slug created fallback created' fallback' : String) (actions : List Action) (s : Storage Text)
      → valid_opaque_identifier created ≡ true
      → AllDrawValid actions
      → s.can_read ≡ true
      → s.can_write ≡ true
      → (resolve_in t slug created' fallback' true
          (act_all t actions (resolve_in t slug created fallback true s).1)).0.credential
        ≡ (resolve_in t slug created fallback true s).0.credential
  resolve_in-lasts slug created fallback created' fallback' actions s v vs r w =
      let first = resolve_in t slug created fallback true s in
      later-same slug created' fallback' first.0.credential (act_all t actions first.1) (
        act_all-Holds t k (live_identity_storage_key slug) first.0.credential actions first.1 vs
          (first-Holds slug created fallback s v r w))

  -- A valid nickname that is saved with the credential of the stored identity is the one that the next call
  -- gives, with the same credential, if the storage works; one that is not valid, or comes with another
  -- credential, changes nothing.
  pub resolve_in-save :
      (slug credential nickname created fallback : String) (i : Identity) (s : Storage Text)
      → s.can_write ≡ true
      → read_identity t (live_identity_storage_key slug) s ≡ some (some i)
      → (resolve_in t slug created fallback true
          (save_live_browser_nickname t slug credential nickname s)).0
        ≡ (if valid_nickname nickname && str_eq i.credential credential
            then record i { nickname = some nickname }
            else i)
  unfolding save_live_browser_nickname
  resolve_in-save slug credential nickname created fallback i s w e =
      let key = live_identity_storage_key slug in
      elim (Bool-cases (valid_nickname nickname && str_eq i.credential credential)) [
        | inr kept ↦
            let same : save_live_browser_nickname t slug credential nickname s ≡ s = ground arith in
            rw (kept, same)
              (ap (λ (p : Identity × Storage Text). p.0)
                (resolve_in-found t slug created fallback i s e))
        | inl both ↦
            let valid : valid_nickname nickname ≡ true = ground arith in
            let named : Identity = record i { nickname = some nickname } in
            let (s', set) = written t key (t.stringify (identity_value named)) s w in
            let saved : save_live_browser_nickname t slug credential nickname s ≡ s' =
              ground arith in
            let back =
              read_identity-set_item t key named s s' k
                (record {
                  credential = (read_identity-IsValid t key s i e).credential;
                  nickname = valid;
                })
                (readable t k key i s e) set in
            rw (both, saved)
              (ap (λ (p : Identity × Storage Text). p.0)
                (resolve_in-found t slug created fallback named s' back))
      ]
