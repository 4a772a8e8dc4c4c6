-- ===== src/Crypto.antt =====
-- web/src/crypto.ts: pastes that are encrypted in the browser. Bytes are numbers below 256, and the texts of
-- base64 are lists of character codes. AES-GCM, the encoding of JSON as bytes and the URL class are the
-- platform's and parameters; btoa and atob are written out as their standard has them.
pub mod Base64
pub mod Payloads
mod Tests
use xbin.Common.{
  ℕ, zero, suc, ◌+◌, ◌-◌, ◌*◌, ◌/◌, ◌%◌, String, Bool, true, false, not, ◌&&◌, ◌||◌, Option, none,
  some, List, [], ◌∷◌, ◌++◌, ltb, leb, ◌==◌, if◌then◌else◌, str_eq, length, replicate, all, map,
  keep, ◌>>=◌, ◌>>◌, require,
}
use xbin.Json.{Value, object, string, number, natural, Fields, property, as_string}

-- The character of a six-bit number in the standard alphabet.
pub digit : ℕ → ℕ
digit n =
    if ltb n 26
    then 65 + n
    else if ltb n 52
    then 71 + n
    else if ltb n 62
    then n - 4
    else if n == 62
    then 43
    else 47

pub digit_value : ℕ → Option ℕ
digit_value c =
    if leb 65 c && leb c 90
    then some (c - 65)
    else if leb 97 c && leb c 122
    then some (c - 71)
    else if leb 48 c && leb c 57
    then some (c + 4)
    else if c == 43
    then some 62
    else if c == 47
    then some 63
    else none

-- btoa, on characters below 256
pub btoa : List ℕ → List ℕ
unfolding digit
btoa [] = []
btoa (a ∷ []) = digit (a / 4) ∷ digit (a % 4 * 16) ∷ 61 ∷ 61 ∷ []
btoa (a ∷ b ∷ []) = digit (a / 4) ∷ digit (a % 4 * 16 + b / 16) ∷ digit (b % 16 * 4) ∷ 61 ∷ []
btoa (a ∷ b ∷ c ∷ rest) =
    digit (a / 4)
    ∷ digit (a % 4 * 16 + b / 16)
    ∷ digit (b % 16 * 4 + c / 64)
    ∷ digit (c % 64)
    ∷ btoa rest

-- One or two "=" at the end are dropped.
pub strip_padding : List ℕ → List ℕ
strip_padding [] = []
strip_padding (x ∷ []) = if x == 61 then [] else x ∷ []
strip_padding (x ∷ y ∷ []) = if x == 61 && y == 61 then [] else x ∷ (if y == 61 then [] else y ∷ [])
strip_padding (x ∷ y ∷ z ∷ rest) = x ∷ strip_padding (y ∷ z ∷ rest)

-- Four characters are three bytes; what two or three more have beyond whole bytes is dropped.
pub decode_digits : List ℕ → Option (List ℕ)
unfolding digit_value
decode_digits [] = some []
decode_digits (p ∷ []) = none
decode_digits (p ∷ q ∷ []) = do u ← digit_value p; v ← digit_value q; some ((u * 4 + v / 16) ∷ [])
decode_digits (p ∷ q ∷ r ∷ []) = do
  u ← digit_value p
  v ← digit_value q
  w ← digit_value r
  some ((u * 4 + v / 16) ∷ (v % 16 * 16 + w / 4) ∷ [])
decode_digits (p ∷ q ∷ r ∷ s ∷ rest) = do
  u ← digit_value p
  v ← digit_value q
  w ← digit_value r
  x ← digit_value s
  bytes ← decode_digits rest
  some ((u * 4 + v / 16) ∷ (v % 16 * 16 + w / 4) ∷ (w % 4 * 64 + x) ∷ bytes)

-- atob, on a text without white space
pub atob : List ℕ → Option (List ℕ)
unfolding strip_padding decode_digits
atob text = decode_digits (if length text % 4 == 0 then strip_padding text else text)

-- `replaceAll(old, new)` of one character
abbrev pub replace_all : ℕ → ℕ → List ℕ → List ℕ
replace_all old new text = map (λ c. if c == old then new else c) text

-- encodeBase64url
pub encode_base64url : List ℕ → List ℕ
unfolding btoa
encode_base64url bytes =
    keep (λ c. not (c == 61)) (replace_all 47 95 (replace_all 43 45 (btoa bytes)))

-- `[A-Za-z0-9_-]`
unfoldable pub is_base64url : ℕ → Bool
is_base64url c =
    (leb 65 c && leb c 90)
    || (leb 97 c && leb c 122)
    || (leb 48 c && leb c 57)
    || c == 95
    || c == 45

-- `padEnd(Math.ceil(length / 4) * 4, "=")`, on a text of that length
pub pad_end : ℕ → List ℕ → List ℕ
pad_end size text = text ++ replicate ((size + 3) / 4 * 4 - size) 61

-- decodeBase64url; `none` is a DecryptionError.
pub decode_base64url : List ℕ → Option (List ℕ)
unfolding is_base64url pad_end atob
decode_base64url text =
    if not (all is_base64url text) || length text % 4 == 1
    then none
    else atob (pad_end (length text) (replace_all 95 47 (replace_all 45 43 text)))

-- What the platform does: AES-GCM with a key, an initialization vector and a text, JSON as UTF-8 bytes, and
-- the hash of a URL with its "#". `none` stands for an exception.
pub record Platform : Type 0 where
  pub encrypt : (key iv plaintext : List ℕ) → List ℕ
  pub decrypt : (key iv ciphertext : List ℕ) → Option (List ℕ)
  pub to_bytes : Value → List ℕ
  pub from_bytes : List ℕ → Option Value
  pub trim : List ℕ → List ℕ
  pub url_hash : List ℕ → Option (List ℕ)

-- The properties of an envelope that are read; `none` is what is no text.
pub record CiphertextEnvelope : Type 0 where
  pub version : Value
  pub algorithm : Value
  pub iv : Option (List ℕ)
  pub ciphertext : Option (List ℕ)

pub record EncryptedPaste : Type 0 where
  pub envelope : CiphertextEnvelope
  pub key : List ℕ

pub is_version_one : Value → Bool
is_version_one (number (natural n)) = n == 1
is_version_one _ = false

pub is_named : String → Value → Bool
is_named s (string t) = str_eq t s
is_named s _ = false

-- assertPlaintextPayload
pub assert_plaintext_payload : Value → Option (Unit {0})
unfolding is_version_one
assert_plaintext_payload (object fields) = do
  require (is_version_one (property "version" fields))
  title ← as_string (property "title" fields)
  language ← as_string (property "language" fields)
  content ← as_string (property "content" fields)
  require (not (str_eq content ""))
assert_plaintext_payload _ = none

-- assertEnvelope
pub assert_envelope : CiphertextEnvelope → Option (Unit {0})
unfolding is_version_one is_named
assert_envelope e = do
  require (is_version_one e.version)
  require (is_named "A256GCM" e.algorithm)
  iv ← e.iv
  ciphertext ← e.ciphertext
  iv_bytes ← decode_base64url iv
  require (length iv_bytes == 12)
  cipher_bytes ← decode_base64url ciphertext
  require (not (ltb (length cipher_bytes) 16))

module _ (p : Platform) where
  -- encryptPayload, with the key and the vector that the platform draws
  pub encrypt_payload : (key iv : List ℕ) → Value → Option EncryptedPaste
  unfolding assert_plaintext_payload
  encrypt_payload key iv payload = do
    assert_plaintext_payload payload
    some (record {
      envelope = record {
        version = number (natural 1);
        algorithm = string "A256GCM";
        iv = some (encode_base64url iv);
        ciphertext = some (encode_base64url (p.encrypt key iv (p.to_bytes payload)));
      };
      key = encode_base64url key;
    })

  -- decryptPayload
  pub decrypt_payload : CiphertextEnvelope → List ℕ → Option Value
  unfolding assert_envelope assert_plaintext_payload
  decrypt_payload e encoded_key = do
    assert_envelope e
    key ← decode_base64url encoded_key
    require (length key == 32)
    iv ← e.iv
    ciphertext ← e.ciphertext
    iv_bytes ← decode_base64url iv
    cipher_bytes ← decode_base64url ciphertext
    plaintext ← p.decrypt key iv_bytes cipher_bytes
    payload ← p.from_bytes plaintext
    assert_plaintext_payload payload
    some payload
