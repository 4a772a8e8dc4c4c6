-- ===== src/Identity/Stable.antt =====
-- web/src/live-identity.ts: a room's identity lasts, whatever the browser's tabs do in between.
use xbin.Common.{
  ◌≡◌, ap, ◌∙◌, String, Bool, true, false, none, some, List, [], ◌∷◌, Bool-cases, Option-cases, inl,
  inr, str_eq, eq_iff, arith,
}
use xbin.Storage.{Storage, Texts, get_item, set_item}
use xbin.Identity.{
  Identity, live_identity_storage_key, valid_opaque_identifier, valid_nickname, identity_value,
  fallback_identity, read_identity, store_created, resolve_stored, resolve_in,
  save_live_browser_nickname,
}
use xbin.Identity.Reading.{
  IsValid, KeepsIdentities, read_identity-IsValid, read_identity-set_item,
  read_identity-set_item_other,
}

-- What the tabs of a browser do with the storage: an identity is resolved, or a nickname is saved.
pub data Action : Type 0 where
  resolving : (slug created fallback : String) (runs : Bool) → Action
  naming : (slug credential nickname : String) → Action

-- Every credential that an action draws is a valid one.
abbrev pub AllDrawValid : List Action → Type 0
AllDrawValid [] = Unit {0}
AllDrawValid (resolving slug created fallback runs ∷ actions) =
    (valid_opaque_identifier created ≡ true) × AllDrawValid actions
AllDrawValid (naming slug credential nickname ∷ actions) = AllDrawValid actions

-- The key's identity has the credential.
pub record Holds {Text : Type 0} (t : Texts Text) (key credential : String) (s : Storage Text)
    : Type 0 where
  pub identity : Identity
  pub is_read : read_identity t key s ≡ some (some identity)
  pub has : identity.credential ≡ credential

module _ {Text : Type 0} (t : Texts Text) where
  pub act : Action → Storage Text → Storage Text
  act (resolving slug created fallback runs) s = (resolve_in t slug created fallback runs s).1
  act (naming slug credential nickname) s = save_live_browser_nickname t slug credential nickname s

  pub act_all : List Action → Storage Text → Storage Text
  unfolding act
  act_all [] s = s
  act_all (a ∷ actions) s = act_all actions (act a s)

pub fallback_identity-IsValid :
    (c : String) → valid_opaque_identifier c ≡ true → IsValid (fallback_identity c)
unfolding fallback_identity
fallback_identity-IsValid c v = record { credential = v; nickname = tt }

module _ {Text : Type 0} (t : Texts Text) (k : KeepsIdentities t) where
  pub readable :
      (key : String) (i : Identity) (s : Storage Text)
      → read_identity t key s ≡ some (some i)
      → s.can_read ≡ true
  unfolding read_identity get_item
  readable key i s e = ground arith

  set_item-Holds :
      (key other c : String) (i : Identity) (s s' : Storage Text)
      → IsValid i
      → (str_eq other key ≡ true → i.credential ≡ c)
      → set_item other (t.stringify (identity_value i)) s ≡ some s'
      → Holds t key c s
      → Holds t key c s'
  set_item-Holds key other c i s s' v same e h = elim (Bool-cases (str_eq other key)) [
    | inl at_key ↦ record {
      identity = i;
      is_read =
          read_identity-set_item t key i s s' k v (readable key h.identity s h.is_read)
            (ground (arith, eq_iff other key));
      has = same at_key;
    }
    | inr elsewhere ↦ record {
      identity = h.identity;
      is_read =
          read_identity-set_item_other t key other (t.stringify (identity_value i)) s s' elsewhere e
          ∙ h.is_read;
      has = h.has;
    }
  ]

  other_key :
      (key other c : String) (s : Storage Text)
      → read_identity t other s ≡ some none
      → Holds t key c s
      → str_eq other key ≡ false
  other_key key other c s e h = elim (Bool-cases (str_eq other key)) [
    | inl same ↦
        let at_key : other ≡ key = (eq_iff other key).0 same in absurd (cc (at_key, h.is_read))
    | inr n ↦ n
  ]

  same_credential :
      (key other c : String) (i : Identity) (s : Storage Text)
      → str_eq other key ≡ true
      → read_identity t other s ≡ some (some i)
      → Holds t key c s
      → i.credential ≡ c
  same_credential key other c i s same e h =
      let at_key : other ≡ key = (eq_iff other key).0 same in cc (at_key, e, h.is_read, h.has)

  store_created-Holds :
      (key other c created : String) (s : Storage Text)
      → valid_opaque_identifier created ≡ true
      → str_eq other key ≡ false
      → Holds t key c s
      → Holds t key c (store_created t other (fallback_identity created) s).1
  unfolding store_created
  store_created-Holds key other c created s v n h =
      elim (Option-cases
        (set_item other (t.stringify (identity_value (fallback_identity created))) s)) [
          | inl refused ↦ rw (refused, store_created) h
          | inr (s', e) ↦
              rw (e, store_created)
                (set_item-Holds key other c (fallback_identity created) s s'
                  (fallback_identity-IsValid created v) (λ same. absurd (cc (same, n))) e h)
        ]

  resolve_stored-Holds :
      (key other c created : String) (s : Storage Text)
      → valid_opaque_identifier created ≡ true
      → Holds t key c s
      → Holds t key c (resolve_stored t other created s).1
  unfolding resolve_stored
  resolve_stored-Holds key other c created s v h = elim (Option-cases (read_identity t other s)) [
    | inl e ↦ rw (e, resolve_stored) h
    | inr (found, e) ↦ elim (Option-cases found) [
      | inr (i, there) ↦ rw (e, there, resolve_stored) h
      | inl missing ↦
          rw (e, missing, resolve_stored)
            (store_created-Holds key other c created s v
              (other_key key other c s (e ∙ ap some missing) h) h)
    ]
  ]

  pub resolve_in-Holds :
      (key c slug created fallback : String) (runs : Bool) (s : Storage Text)
      → valid_opaque_identifier created ≡ true
      → Holds t key c s
      → Holds t key c (resolve_in t slug created fallback runs s).1
  unfolding resolve_in
  resolve_in-Holds key c slug created fallback runs s v h =
      let kept = resolve_stored-Holds key (live_identity_storage_key slug) c created s v h in
      elim (Bool-cases runs) [
        | inl e ↦
            rw e
              (elim (Option-cases (resolve_stored t (live_identity_storage_key slug) created s).0) [
                | inl none_found ↦ rw none_found kept
                | inr (i, found) ↦ rw found kept
              ])
        | inr e ↦ rw e h
      ]

  named-Holds :
      (key c slug credential nickname : String) (i : Identity) (s : Storage Text)
      → valid_nickname nickname ≡ true
      → read_identity t (live_identity_storage_key slug) s ≡ some (some i)
      → Holds t key c s
      → Holds t key c (save_live_browser_nickname t slug credential nickname s)
  unfolding save_live_browser_nickname
  named-Holds key c slug credential nickname i s good e h =
      let other = live_identity_storage_key slug in
      let named : Identity = record i { nickname = some nickname } in
      elim (Bool-cases (str_eq i.credential credential)) [
        | inr stranger ↦ rw (good, e, stranger, save_live_browser_nickname) h
        | inl own ↦ elim (Option-cases (set_item other (t.stringify (identity_value named)) s)) [
          | inl refused ↦ rw (good, e, own, refused, save_live_browser_nickname) h
          | inr (s', set) ↦
              rw (good, e, own, set, save_live_browser_nickname)
                (set_item-Holds key other c named s s'
                  (record {
                    credential = (read_identity-IsValid t other s i e).credential;
                    nickname = good;
                  })
                  (λ same. same_credential key other c i s same e h) set h)
        ]
      ]

  pub save-Holds :
      (key c slug credential nickname : String) (s : Storage Text)
      → Holds t key c s
      → Holds t key c (save_live_browser_nickname t slug credential nickname s)
  unfolding save_live_browser_nickname
  save-Holds key c slug credential nickname s h =
      let other = live_identity_storage_key slug in
      elim (Bool-cases (valid_nickname nickname)) [
        | inr bad ↦ rw (bad, save_live_browser_nickname) h
        | inl good ↦ elim (Option-cases (read_identity t other s)) [
          | inl e ↦ rw (good, e, save_live_browser_nickname) h
          | inr (found, e) ↦ elim (Option-cases found) [
            | inl missing ↦ rw (good, e, missing, save_live_browser_nickname) h
            | inr (i, there) ↦
                named-Holds key c slug credential nickname i s good (e ∙ ap some there) h
          ]
        ]
      ]

  pub act_all-Holds :
      (key c : String) (actions : List Action) (s : Storage Text)
      → AllDrawValid actions
      → Holds t key c s
      → Holds t key c (act_all t actions s)
  unfolding act_all act
  act_all-Holds key c [] s v h = h
  act_all-Holds key c (resolving slug created fallback runs ∷ actions) s v h =
      act_all-Holds key c actions (resolve_in t slug created fallback runs s).1 v.1
        (resolve_in-Holds key c slug created fallback runs s v.0 h)
  act_all-Holds key c (naming slug credential nickname ∷ actions) s v h =
      act_all-Holds key c actions (save_live_browser_nickname t slug credential nickname s) v
        (save-Holds key c slug credential nickname s h)
