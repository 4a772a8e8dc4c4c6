-- ===== src/Crypto/Tests.antt =====
-- Base64 of short texts, and a platform that seals a text by a tag of sixteen zeros.
use xbin.Common.{
  ℕ, zero, suc, ◌%◌, ◌≡◌, refl, ap, ◌∙◌, some, none, List, [], ◌∷◌, ◌++◌, drop, length-append,
  replicate, map, All, All-append, arith,
}
use xbin.Json.{Value, object, string, number, natural, end, field}
use xbin.Crypto.{
  Platform, EncryptedPaste, encode_base64url, decode_base64url, assert_plaintext_payload,
  encrypt_payload, decrypt_payload, is_version_one,
}
use xbin.Crypto.Base64.{IsByte, decode-encode_base64url}
use xbin.Crypto.Payloads.{IsDrawn, Promises, decrypt_payload-encrypt_payload}

-- "hi?>"
abbrev text : List ℕ
text = 104 ∷ 105 ∷ 63 ∷ 62 ∷ []

-- "aGk_Pg"
encoded : encode_base64url text ≡ 97 ∷ 71 ∷ 107 ∷ 95 ∷ 80 ∷ 103 ∷ []
unfolding encode_base64url
encoded = refl

text_bytes : All IsByte text
text_bytes = (omega arith, (omega arith, (omega arith, (omega arith, tt))))

decoded_bytes : decode_base64url (encode_base64url text) ≡ some text
decoded_bytes = decode-encode_base64url text text_bytes

-- A platform for one payload: the plaintext stands for it, and the tag is zeros.
abbrev payload : Value
payload = object (
    field "version" (number (natural 1)) (
      field "title" (string "note")
        (field "language" (string "plaintext") (field "content" (string "hello") end))))

abbrev bytes_of : List ℕ → List ℕ
bytes_of ns = map (λ n. n % 256) ns

abbrev open_platform : Platform
open_platform = record {
  encrypt = λ key iv plaintext. replicate 16 0 ++ bytes_of plaintext;
  decrypt = λ key iv ciphertext. some (drop 16 ciphertext);
  to_bytes = λ v. text;
  from_bytes = λ b. some payload;
  trim = λ t. t;
  url_hash = λ t. none;
}

bytes_of-IsByte : (ns : List ℕ) → All IsByte (bytes_of ns)
bytes_of-IsByte [] = tt
bytes_of-IsByte (n ∷ ns) = (omega arith, bytes_of-IsByte ns)

bytes_of-bytes : (ns : List ℕ) → All IsByte ns → bytes_of ns ≡ ns
bytes_of-bytes [] h = refl
bytes_of-bytes (n ∷ ns) (p, h) =
    let e : n % 256 ≡ n = omega (arith, p) in
    ap (λ m. m ∷ bytes_of ns) e ∙ ap (n ∷◌) (bytes_of-bytes ns h)

zeros : (k n : ℕ) → n ≡ 0 → All IsByte (replicate k n)
zeros zero n e = tt
zeros (suc k) n e = (omega (arith, e), zeros k n e)

open_platform-Promises : Promises open_platform
open_platform-Promises = record {
  is_ciphertext = λ key iv t.
      All-append IsByte (replicate 16 0) (bytes_of t) (zeros 16 0 refl) (bytes_of-IsByte t);
  has_tag = λ key iv t. omega (arith, length-append (replicate 16 0) (bytes_of t));
  decrypts = λ key iv t drawn h. ap some (bytes_of-bytes t h);
  writes_bytes = λ v. text_bytes;
}

drawn : IsDrawn (replicate 32 0) (replicate 12 0)
drawn = record {
  key_bytes = zeros 32 0 refl;
  key_length = refl;
  iv_bytes = zeros 12 0 refl;
  iv_length = refl;
}

decrypt_payload-encrypt_payload_example :
    (e : EncryptedPaste) × (encrypt_payload open_platform (replicate 32 0) (replicate 12 0) payload
      ≡ some e)
    × (decrypt_payload open_platform e.envelope e.key ≡ some payload)
unfolding assert_plaintext_payload is_version_one
decrypt_payload-encrypt_payload_example =
    decrypt_payload-encrypt_payload open_platform open_platform-Promises (replicate 32 0)
      (replicate 12 0) drawn payload refl refl
