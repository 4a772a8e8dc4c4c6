-- ===== src/LiveRoom/Reconcile/Turning.antt =====
-- One turn of the loop over the editors of reconcileSnapshot in web/src/live-room.tsx: what it does to the editor of a
-- document, and that it leaves the others.
use xbin.Common.{
  ℕ, zero, suc, ◌+◌, ◌-◌, ◌≡◌, refl, sym, ap, ◌∙◌, String, true, false, not, none, some, List, [],
  ◌∷◌, leb, subst, inl, inr, Option-cases, Option-split, if-both, str_eq, eq_iff, length, arith,
}
use mathlib.Core.Option.{some-injective}
use xbin.Wire.Types.{RoomDocument}
use xbin.Operations.{Operation}
use xbin.LiveRoom.{
  Editing, Update, Room, Applied, applied, gap, thrown, lookup, delete, or_else, settle_operation,
  set_connection_state, make_live_editor_state,
}
use xbin.LiveRoom.Maps.{lookup-insert, lookup-insert_other}
use xbin.LiveRoom.Reconcile.{
  latest_document, accepted_operation, diff_documents, padding_updates, live_snapshot_updates,
  rebase_after_accepted_snapshot, update_all, receive_all, pending_of, drop_editor, remove_editor,
  place_editor, is_first_pending, replace_editor, advance_editor, reconcile_editor,
}

lookup-delete_other :
    {A : Type 0} (k j : String) (m : List (String × A))
    → str_eq k j ≡ false
    → lookup j (delete k m) ≡ lookup j m
unfolding lookup delete
lookup-delete_other k j [] h = refl
lookup-delete_other k j ((i, b) ∷ m) h = ground (arith, eq_iff i k, lookup-delete_other k j m h)

-- The maps hold the same of a document.
pub record Same {Editor : Type 0} (id : String) (r s : Room Editor) : Type 0 where
  pub same_held : lookup id s.editors ≡ lookup id r.editors
  pub same_synced : lookup id s.synced ≡ lookup id r.synced

pub Same-self : {Editor : Type 0} (id : String) (r : Room Editor) → Same id r r
Same-self id r = record { same_held = refl; same_synced = refl }

module _ {Editor Changes : Type 0} (o : Editing Editor Changes) (client_id : String) where
  -- The editor of a document is at its revision, and the synchronized text is its content.
  pub record Renewed (d : RoomDocument) (id : String) (r : Room Editor) : Type 0 where
    pub editor : Editor
    pub has_editor : lookup id r.editors ≡ some editor
    pub at_version : o.synced_version editor ≡ d.revision
    pub has_text : lookup id r.synced ≡ some d.content

  -- Other documents.
  module _ (id k : String) (other : str_eq k id ≡ false) where
    place_editor-Same :
        (content : String) (e : Editor) (r : Room Editor)
        → Same id r (place_editor o client_id k content e r)
    unfolding place_editor
    place_editor-Same content e r = record {
      same_held = lookup-insert_other k id e r.editors other;
      same_synced = lookup-insert_other k id content r.synced other;
    }

    settled-Same :
        (op : String) (content : String) (e : Editor) (r : Room Editor)
        → Same id r (settle_operation op (place_editor o client_id k content e r))
    unfolding settle_operation
    settled-Same op content e r =
        let h = place_editor-Same content e r in
        record { same_held = h.same_held; same_synced = h.same_synced }

    drop_editor-Same : (r : Room Editor) → Same id r (drop_editor o client_id k r)
    unfolding drop_editor
    drop_editor-Same r = record {
      same_held = lookup-delete_other k id r.editors other;
      same_synced = lookup-delete_other k id r.synced other;
    }

    remove_editor-Same :
        (e : Editor) (r : Room Editor) → Same id r (remove_editor o client_id k e r)
    unfolding remove_editor drop_editor set_connection_state
    remove_editor-Same e r =
        let h = lookup-delete_other k id r.editors other in
        let h' = lookup-delete_other k id r.synced other in
        record { same_held = ground (arith, h); same_synced = ground (arith, h') }

    replace_editor-Same :
        (d : RoomDocument) (e : Editor) (op : Operation) (r : Room Editor)
        → Same id r (replace_editor o client_id d k e op r).1
    unfolding replace_editor
    replace_editor-Same d e op r =
        let P = λ (p : Applied × Room Editor). Same id r p.1 in
        let made = make_live_editor_state o d client_id in
        let replay = λ (us : List (Update Changes)).
          elim (update_all o client_id us made) as (λ _. Applied × Room Editor) [
            | none ↦ (thrown, r)
            | some current ↦
                (applied, settle_operation op.id (place_editor o client_id k d.content current r))
          ] in
        let rebased =
          rebase_after_accepted_snapshot o client_id (or_else (lookup k r.synced) (o.text e))
            d.content (pending_of o client_id e) in
        if-both P {x = (gap, r)} {y = elim rebased [ none ↦ (gap, r) | some us ↦ replay us ]}
          (Same-self id r)
          (Option-split P {n = (gap, r)} {f = replay} rebased (λ n. Same-self id r)
            (λ us n.
              Option-split P {n = (thrown, r)}
                {f = λ (current : Editor). (
                  applied,
                  settle_operation op.id (place_editor o client_id k d.content current r),
                )}
                (update_all o client_id us made) (λ n. Same-self id r)
                (λ current n. settled-Same op.id d.content current r)))
          (not (is_first_pending o client_id e op))

    advance_editor-Same :
        (d : RoomDocument) (e : Editor) (r : Room Editor)
        → Same id r (advance_editor o client_id d k e r).1
    unfolding advance_editor
    advance_editor-Same d e r =
        Option-split (λ (p : Applied × Room Editor). Same id r p.1) _ (λ n. Same-self id r)
          (λ current n. place_editor-Same d.content current r)

    pub reconcile_editor-Same :
        (accepted : List String) (next : List RoomDocument) (e : Editor) (r : Room Editor)
        → Same id r (reconcile_editor o client_id accepted next k e r).1
    unfolding reconcile_editor
    reconcile_editor-Same accepted next e r =
        let P = λ (p : Applied × Room Editor). Same id r p.1 in
        Option-split P (latest_document k next) (λ n. remove_editor-Same e r)
          (λ d found.
            if-both P {x = (applied, r)}
              {y = elim (accepted_operation accepted k r.tracker) [
                | some op ↦ replace_editor o client_id d k e op r
                | none ↦ advance_editor o client_id d k e r
              ]}
              (Same-self id r)
              (Option-split P (accepted_operation accepted k r.tracker)
                (λ n. advance_editor-Same d e r) (λ op n. replace_editor-Same d e op r))
              _)

  -- The document's own editor. The laws of CodeMirror: an editor is made at its start version, a transaction of its own
  -- leaves the version, and one update that is received is one version.
  pub record IsVersioned : Type 0 where
    pub created : (content : String) (n : ℕ) → o.synced_version (o.create content n client_id) ≡ n
    pub updated :
        (c : Changes) (e e' : Editor)
        → o.update c e ≡ some e'
        → o.synced_version e' ≡ o.synced_version e
    pub received :
        (u : Update Changes) (e e' : Editor)
        → o.receive u e ≡ some e'
        → o.synced_version e' ≡ suc (o.synced_version e)

  module _ (law : IsVersioned) where
    update_all-version :
        (us : List (Update Changes)) (e e' : Editor)
        → update_all o client_id us e ≡ some e'
        → o.synced_version e' ≡ o.synced_version e
    unfolding update_all
    update_all-version [] e e' h = ap o.synced_version (some-injective _ _ (sym h))
    update_all-version (u ∷ us) e e' h = elim (Option-cases (o.update u.changes e)) [
      | inl n ↦ absurd (ground arith)
      | inr (f, n) ↦ update_all-version us f e' (ground arith) ∙ law.updated u.changes e f n
    ]

    receive_all-version :
        (us : List (Update Changes)) (e e' : Editor)
        → receive_all o client_id us e ≡ some e'
        → o.synced_version e' ≡ length us + o.synced_version e
    unfolding receive_all
    receive_all-version [] e e' h =
        let same = ap o.synced_version (some-injective _ _ (sym h)) in omega (arith, same)
    receive_all-version (u ∷ us) e e' h = elim (Option-cases (o.receive u e)) [
      | inl n ↦ absurd (ground arith)
      | inr (f, n) ↦
          let rest = receive_all-version us f e' (ground arith) in
          omega (arith, rest, law.received u e f n)
    ]

    length-padding_updates :
        (left index : ℕ) (c : Changes) → length (padding_updates o client_id left index c) ≡ left
    unfolding padding_updates
    length-padding_updates zero index c = refl
    length-padding_updates (suc left) index c = ap suc (length-padding_updates left (suc index) c)

    length-live_snapshot_updates :
        (c : Changes) (revision current : ℕ)
        → leb revision current ≡ false
        → length (live_snapshot_updates o client_id c revision current) + current ≡ revision
    unfolding live_snapshot_updates
    length-live_snapshot_updates c revision current h =
        ground (arith, length-padding_updates (revision - current - 1) 1 c)

    module _ (d : RoomDocument) (id : String) where
      place_editor-Renewed :
          (e : Editor) (r : Room Editor)
          → o.synced_version e ≡ d.revision
          → Renewed d id (place_editor o client_id id d.content e r)
      unfolding place_editor
      place_editor-Renewed e r h = record {
        editor = e;
        has_editor = lookup-insert id e r.editors;
        at_version = h;
        has_text = lookup-insert id d.content r.synced;
      }

      settled-Renewed :
          (op : String) (r : Room Editor) → Renewed d id r → Renewed d id (settle_operation op r)
      unfolding settle_operation
      settled-Renewed op r h = record {
        editor = h.editor;
        has_editor = h.has_editor;
        at_version = h.at_version;
        has_text = h.has_text;
      }

      replace_editor-Renewed :
          (e : Editor) (op : Operation) (r : Room Editor)
          → (replace_editor o client_id d id e op r).0 ≡ applied
          → Renewed d id (replace_editor o client_id d id e op r).1
      unfolding replace_editor make_live_editor_state
      replace_editor-Renewed e op r =
          let P = λ (p : Applied × Room Editor). p.0 ≡ applied → Renewed d id p.1 in
          let made = o.create d.content d.revision client_id in
          let replay = λ (us : List (Update Changes)).
            elim (update_all o client_id us made) as (λ _. Applied × Room Editor) [
              | none ↦ (thrown, r)
              | some current ↦ (
                applied,
                settle_operation op.id (place_editor o client_id id d.content current r),
              )
            ] in
          let rebased =
            rebase_after_accepted_snapshot o client_id (or_else (lookup id r.synced) (o.text e))
              d.content (pending_of o client_id e) in
          if-both P {x = (gap, r)} {y = elim rebased [ none ↦ (gap, r) | some us ↦ replay us ]}
            (λ a. absurd (cc a))
            (Option-split P {n = (gap, r)} {f = replay} rebased (λ n a. absurd (cc a))
              (λ us n.
                Option-split P {n = (thrown, r)}
                  {f = λ (current : Editor). (
                    applied,
                    settle_operation op.id (place_editor o client_id id d.content current r),
                  )}
                  (update_all o client_id us made) (λ n a. absurd (cc a))
                  (λ current n a.
                    settled-Renewed op.id (place_editor o client_id id d.content current r) (
                      place_editor-Renewed current r (
                        update_all-version us made current n ∙ law.created d.content d.revision)))))
            (not (is_first_pending o client_id e op))

      advance_editor-Renewed :
          (e : Editor) (r : Room Editor)
          → leb d.revision (o.synced_version e) ≡ false
          → (advance_editor o client_id d id e r).0 ≡ applied
          → Renewed d id (advance_editor o client_id d id e r).1
      unfolding advance_editor
      advance_editor-Renewed e r behind =
          let changes =
            diff_documents o client_id (or_else (lookup id r.synced) (o.text e)) d.content in
          let us = live_snapshot_updates o client_id changes d.revision (o.synced_version e) in
          Option-split (λ (p : Applied × Room Editor). p.0 ≡ applied → Renewed d id p.1)
            {n = (thrown, r)}
            {f = λ (current : Editor). (applied, place_editor o client_id id d.content current r)}
            (receive_all o client_id us e) (λ n a. absurd (cc a))
            (λ current n a. place_editor-Renewed current r (
              receive_all-version us e current n
              ∙ length-live_snapshot_updates changes d.revision (o.synced_version e) behind))

      module _ (accepted : List String) (next : List RoomDocument)
          (found : latest_document id next ≡ some d) (e : Editor) (r : Room Editor) where
        pub reconcile_editor-current :
            leb d.revision (o.synced_version e) ≡ true
            → reconcile_editor o client_id accepted next id e r ≡ (applied, r)
        unfolding reconcile_editor
        reconcile_editor-current h = ground (arith, found)

        reconcile_editor-behind :
            leb d.revision (o.synced_version e) ≡ false
            → reconcile_editor o client_id accepted next id e r
              ≡ elim (accepted_operation accepted id r.tracker) [
                | some op ↦ replace_editor o client_id d id e op r
                | none ↦ advance_editor o client_id d id e r
              ]
        unfolding reconcile_editor
        reconcile_editor-behind h = ground (arith, found)

        pub reconcile_editor-Renewed :
            leb d.revision (o.synced_version e) ≡ false
            → (reconcile_editor o client_id accepted next id e r).0 ≡ applied
            → Renewed d id (reconcile_editor o client_id accepted next id e r).1
        reconcile_editor-Renewed behind =
            let P = λ (p : Applied × Room Editor). p.0 ≡ applied → Renewed d id p.1 in
            subst P (sym (reconcile_editor-behind behind)) (
              Option-split P (accepted_operation accepted id r.tracker)
                (λ n. advance_editor-Renewed e r behind) (λ op n. replace_editor-Renewed e op r))
