-- ===== src/RoomUi/Cursors/Labels.antt =====
-- The labels of the cursors do not change before the time that nextLiveRemoteCursorLabelExpiry gives.
use xbin.Common.{
  ℕ, ◌≤◌, ◌<◌, ◌≡◌, refl, ap, ◌∙◌, sym, String, Bool, true, false, Option, none, some, List, [],
  ◌∷◌, ◌++◌, map, if◌then◌else◌, any, keep, arith, if-split,
}
use xbin.Wire.Types.{Cursor, ConnectionCursor, Participant}
use xbin.RoomUi.Cursors.{
  RemoteCursor, is_shown, cursors_from, has_from, is_skipped, is_in, active_at, advance,
  remote_cursor, cursors_shown, live_remote_cursors, earlier, loop, next_label_expiry,
}

-- The time is before the next expiry, if there is one.
abbrev pub Before : ℕ → Option ℕ → Type 0
Before later none = Unit
Before later (some t) = later < t

advance-Before :
    (now later : ℕ) (next seen : Option ℕ)
    → Before later (advance now next seen)
    → Before later next
unfolding advance
advance-Before now later next none h = h
advance-Before now later none (some seen) h = tt
advance-Before now later (some t) (some seen) h = ground arith

advance-steady :
    (now later : ℕ) (next seen : Option ℕ)
    → now ≤ later
    → Before later (advance now next seen)
    → active_at later seen ≡ active_at now seen
unfolding advance
advance-steady now later next none t h = refl
advance-steady now later none (some seen) t h = ground arith
advance-steady now later (some n) (some seen) t h = ground arith

none_kept :
    (document : String) (cs : List ConnectionCursor)
    → any (is_in document) cs ≡ false
    → keep (is_in document) cs ≡ []
none_kept document [] e = refl
none_kept document (c ∷ cs) e = ground (arith, none_kept document cs)

none_from :
    (document id tab : String) (cs : List ConnectionCursor) (o : Option Cursor)
    → has_from document tab cs o ≡ false
    → keep (is_in document) (cursors_from document id tab cs o) ≡ []
unfolding has_from cursors_from
none_from document id tab (c ∷ cs) o e = none_kept document (c ∷ cs) e
none_from document id tab [] none e = refl
none_from document id tab [] (some c) e = ground arith

-- A shown participant that is skipped has no cursor in the document.
no_cursor :
    (local document : String) (active : Bool) (p : Participant)
    → is_shown local p ≡ true
    → is_skipped local document p ≡ true
    → cursors_shown document active p ≡ []
unfolding is_skipped cursors_shown
no_cursor local document active p shown e =
    ap (map (remote_cursor active p))
      (none_from document p.id p.current_tab p.cursors p.cursor (ground arith))

same_shown :
    (b : Bool) {x x' y y' : List RemoteCursor}
    → (b ≡ true → x ≡ x')
    → y ≡ y'
    → (if b then x ++ y else y) ≡ (if b then x' ++ y' else y')
same_shown true e e' = λ i. e refl i ++ e' i
same_shown false e e' = e'

module _ (parse : String → Option ℕ) (local document : String) (now later : ℕ) where
  earlier-Before :
      (next : Option ℕ) (p : Participant)
      → Before later (earlier parse local document now next p)
      → Before later next
  unfolding earlier
  earlier-Before next p =
      if-split (λ o. Before later o → Before later next) {x = next}
        {y = advance now next (parse p.last_seen_at)} (is_skipped local document p) (λ e h. h)
        (λ e h. advance-Before now later next (parse p.last_seen_at) h)

  loop-Before :
      (ps : List Participant) (next : Option ℕ)
      → Before later (loop parse local document now next ps)
      → Before later next
  unfolding loop
  loop-Before [] next h = h
  loop-Before (p ∷ ps) next h = earlier-Before next p (loop-Before ps _ h)

  -- What a participant shows is the same at both times.
  Steady : Participant → Type 0
  Steady p =
      is_shown local p ≡ true
      → cursors_shown document (active_at later (parse p.last_seen_at)) p
        ≡ cursors_shown document (active_at now (parse p.last_seen_at)) p

  earlier-Steady :
      (next : Option ℕ) (p : Participant)
      → now ≤ later
      → Before later (earlier parse local document now next p)
      → Steady p
  unfolding earlier Steady
  earlier-Steady next p t =
      if-split (λ o. Before later o → Steady p) {x = next}
        {y = advance now next (parse p.last_seen_at)} (is_skipped local document p)
        (λ e h shown.
          no_cursor local document _ p shown e ∙ sym (no_cursor local document _ p shown e))
        (λ e h shown.
          ap (λ b. cursors_shown document b p)
            (advance-steady now later next (parse p.last_seen_at) t h))

  shown_steady :
      (ps : List Participant) (next : Option ℕ)
      → now ≤ later
      → Before later (loop parse local document now next ps)
      → live_remote_cursors parse ps local document later
        ≡ live_remote_cursors parse ps local document now
  unfolding live_remote_cursors loop Steady
  shown_steady [] next t h = refl
  shown_steady (p ∷ ps) next t h =
      let rest = shown_steady ps _ t h in
      let first = earlier-Steady next p t (loop-Before ps _ h) in
      same_shown (is_shown local p) first rest

  -- The cursors shown, with their labels, do not change from the time of a call up to the expiry that
  -- nextLiveRemoteCursorLabelExpiry gives for that time, or ever if it gives none.
  pub labels_steady :
      (ps : List Participant)
      → now ≤ later
      → Before later (next_label_expiry parse ps local document now)
      → live_remote_cursors parse ps local document later
        ≡ live_remote_cursors parse ps local document now
  unfolding next_label_expiry
  labels_steady ps t h = shown_steady ps none t h
