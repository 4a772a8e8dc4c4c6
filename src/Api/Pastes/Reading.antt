-- ===== src/Api/Pastes/Reading.antt =====
-- What the calls on pastes return, against what the service answered.
use Prim.Native.String.{◌++◌}
use text.Mathlib.TextLemmas.{append_assoc}
use text.Mathlib.TextPositions.{starts_with_of_prefix}
use xbin.Common.{
  sym, ◌∙◌, starts_with, String, ◌≡◌, ap, Bool, true, false, bind_some, require-true, ◌||◌, not,
  Option, none, some, inl, inr, ◌⊎◌, ◌>>=◌, arith,
}
use xbin.Json.{Value, undefined, Fields, property, as_string, as_boolean}
use xbin.Wire.Parts.{as_record}
use xbin.Api.{
  ErrorCode, service_unavailable, normalize_error_code, ApiError, Response, Init, returned, failed,
  new_error, request,
}
use xbin.Api.Requests.{
  Holds, Refused, request-Holds, request-Refused, expect-returned, expect-failed,
}
use xbin.Api.Pastes.{
  Paste, burn, encrypted, plaintext, Retrieved, Payload, Envelope, burn_metadata, retrieved,
  is_boolean, payload_in, envelope_in, retrieved_paste, retrieved_encrypted_paste, read_paste,
  api_request, get_paste,
}

-- The Boolean property `key` of a response.
abbrev pub flag : String → Value → Option Bool
flag key value = as_record value >>= λ fields. as_boolean (property key fields)

-- The response tells what kind of paste it is.
abbrev pub Says : Value → Paste → Type 0
Says v (burn b) = (flag "burn_after_read" v ≡ some true) × (flag "is_encrypted" v ≡ some b)
Says v (encrypted p) = (flag "burn_after_read" v ≡ some false) × (flag "is_encrypted" v ≡ some true)
Says v (plaintext p) =
    (flag "burn_after_read" v ≡ some false) × (flag "is_encrypted" v ≡ some false)

burn_metadata-Says : (v : Value) (b : Bool) → burn_metadata v ≡ some b → Says v (burn b)
unfolding burn_metadata
burn_metadata-Says v b h = ground arith

retrieved-flags :
    {Content : Type 0} (is_encrypted allow : Bool) (fs : Fields) (c : Content)
    {p : Retrieved Content}
    → retrieved is_encrypted allow fs c ≡ some p
    → (as_boolean (property "is_encrypted" fs) ≡ some is_encrypted)
      × ((as_boolean (property "burn_after_read" fs) ≡ some false) ⊎ (allow ≡ true))
unfolding retrieved
retrieved-flags is_encrypted allow fs c h =
    bind_some (as_string (property "slug" fs)) _
      (λ slug e h.
        let (kind, h1) = require-true (is_boolean is_encrypted (property "is_encrypted" fs)) _ h in
        bind_some (as_boolean (property "burn_after_read" fs)) _
          (λ burns e' h2.
            let (fits, h3) = require-true (allow || not burns) _ h2 in (ground arith, ground arith))
          h1)
      h

paste-flags :
    (allow : Bool) (v : Value) {p : Retrieved Payload}
    → retrieved_paste allow v ≡ some p
    → (flag "is_encrypted" v ≡ some false)
      × ((flag "burn_after_read" v ≡ some false) ⊎ (allow ≡ true))
unfolding retrieved_paste
paste-flags allow v h =
    bind_some (as_record v) _
      (λ fs e h.
        bind_some (payload_in fs) _
          (λ c e' h. let f = retrieved-flags false allow fs c h in ground (arith, f)) h)
      h

encrypted-flags :
    (allow : Bool) (v : Value) {p : Retrieved Envelope}
    → retrieved_encrypted_paste allow v ≡ some p
    → (flag "is_encrypted" v ≡ some true)
      × ((flag "burn_after_read" v ≡ some false) ⊎ (allow ≡ true))
unfolding retrieved_encrypted_paste
encrypted-flags allow v h =
    bind_some (as_record v) _
      (λ fs e h.
        bind_some (envelope_in fs) _
          (λ c e' h. let f = retrieved-flags true allow fs c h in ground (arith, f)) h)
      h

-- Which test a paste comes from.
Found : Option Bool → Option (Retrieved Envelope) → Option (Retrieved Payload) → Paste → Type 0
Found b e q (burn x) = b ≡ some x
Found b e q (encrypted x) = e ≡ some x
Found b e q (plaintext x) = q ≡ some x

paste-Found :
    (b : Option Bool) (e : Option (Retrieved Envelope)) (q : Option (Retrieved Payload)) (p : Paste)
    → elim b [
      | some x ↦ some (burn x)
      | none ↦ elim e [ some x ↦ some (encrypted x) | none ↦ do some (plaintext (← q)) ]
    ]
      ≡ some p
    → Found b e q p
unfolding Found
paste-Found (some x) e q (burn y) h = ap some (cc h)
paste-Found (some x) e q (encrypted y) h = absurd (cc h)
paste-Found (some x) e q (plaintext y) h = absurd (cc h)
paste-Found none (some x) q (burn y) h = absurd (cc h)
paste-Found none (some x) q (encrypted y) h = ap some (cc h)
paste-Found none (some x) q (plaintext y) h = absurd (cc h)
paste-Found none none (some x) (burn y) h = absurd (cc h)
paste-Found none none (some x) (encrypted y) h = absurd (cc h)
paste-Found none none (some x) (plaintext y) h = ap some (cc h)
paste-Found none none none p h = absurd (cc h)

read_paste-Says : (v : Value) (p : Paste) → read_paste v ≡ some p → Says v p
unfolding read_paste Found
read_paste-Says v (burn b) h = burn_metadata-Says v b (paste-Found _ _ _ (burn b) h)
read_paste-Says v (encrypted p) h =
    let (kind, burns) = encrypted-flags false v (paste-Found _ _ _ (encrypted p) h) in
    (ground arith, kind)
read_paste-Says v (plaintext p) h =
    let (kind, burns) = paste-flags false v (paste-Found _ _ _ (plaintext p) h) in
    (ground arith, kind)

module _ (fetch : String → Init → Option Response) (encode : String → String) where
  -- When `getPaste` returns, the service answered with a JSON value that says what it is: content is
  -- returned only if the value says that the paste is not burned after reading, as plaintext or as an
  -- envelope as the value says whether it is encrypted, and otherwise what the value says of a paste that is.
  pub get_paste-Says :
      (slug : String) {p : Paste}
      → get_paste fetch encode slug ≡ returned p
      → (r : Response) × (v : Value) × (fetch
            ("/api/v1/pastes/" ++ encode slug)
            (record { method = "GET"; body = undefined; client_id = none })
          ≡ some r)
        × Holds r v
        × Says v p
  unfolding get_paste api_request
  get_paste-Says slug {p} h =
      let (v, e, e') = expect-returned read_paste _ h in
      let (r, e'', held) =
        request-Holds normalize_error_code service_unavailable "/api/" fetch _ _ e in
      (r, v, e'', held, read_paste-Says v p e')

  api_path : (slug : String) → starts_with ("/api/v1/pastes/" ++ encode slug) "/api/" ≡ true
  api_path slug =
      starts_with_of_prefix "/api/" ("/api/v1/pastes/" ++ encode slug)
        ("v1/pastes/" ++ encode slug, sym (append_assoc "/api/" "v1/pastes/" (encode slug)))

  -- When `getPaste` fails with an error, there are three causes: the promise of `fetch` rejects, or the response is ok
  -- and holds a value that is no paste, and then the error is the network's with the status 0; or the response is not
  -- ok, and then the error has its status and the code and the message that its body says, or, if the body does
  -- not say both, the code service_unavailable with the message of that.
  pub get_paste-Refused :
      (slug : String) {e : ApiError ErrorCode}
      → get_paste fetch encode slug ≡ failed e
      → (let answer =
            fetch
              ("/api/v1/pastes/" ++ encode slug)
              (record { method = "GET"; body = undefined; client_id = none }) in
          ((e ≡ new_error 0 none)
            × ((answer ≡ none)
                ⊎ ((r : Response) × (v : Value) × (answer ≡ some r)
                    × Holds r v
                    × (read_paste v ≡ none))))
          ⊎ ((r : Response) × (answer ≡ some r)
              × Refused normalize_error_code service_unavailable r e))
  unfolding get_paste api_request
  get_paste-Refused slug {e} h =
      let call =
        request normalize_error_code service_unavailable "/api/" fetch
          ("/api/v1/pastes/" ++ encode slug)
          (record { method = "GET"; body = undefined; client_id = none }) in
      elim (expect-failed read_paste call h) [
        | inl (network, v, got, e') ↦
            let (r, e'', held) =
              request-Holds normalize_error_code service_unavailable "/api/" fetch _ _ got in
            inl (network, inr (r, v, e'', held, e'))
        | inr e' ↦
            elim (request-Refused normalize_error_code service_unavailable "/api/" fetch _ _ e') [
              | inl (network, inl bad) ↦ absurd (cc (sym bad ∙ api_path slug))
              | inl (network, inr gone) ↦ inl (network, inl gone)
              | inr refused ↦ inr refused
            ]
      ]
