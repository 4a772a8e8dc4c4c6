-- ===== src/Crypto/Payloads.antt =====
-- What is encrypted is decrypted again, with its own key, and nothing comes out that is no payload.
use xbin.Common.{ℕ, ◌≤◌, ◌≡◌, some, List, length, All, arith}
use xbin.Json.{Value, string, number, natural}
use xbin.Crypto.{
  Platform, CiphertextEnvelope, EncryptedPaste, encode_base64url, decode_base64url, is_version_one,
  is_named, assert_plaintext_payload, assert_envelope, encrypt_payload, decrypt_payload,
}
use xbin.Crypto.Base64.{IsByte, decode-encode_base64url}

-- A key of 256 bits and a vector of 96.
pub record IsDrawn (key iv : List ℕ) : Type 0 where
  pub key_bytes : All IsByte key
  pub key_length : length key ≡ 32
  pub iv_bytes : All IsByte iv
  pub iv_length : length iv ≡ 12

-- What AES-GCM and the encoding of texts promise: a ciphertext is bytes, has a tag of 16, and decrypts with
-- the same key and vector; texts are encoded as bytes.
pub record Promises (p : Platform) : Type 0 where
  pub is_ciphertext : (key iv text : List ℕ) → All IsByte (p.encrypt key iv text)
  pub has_tag : (key iv text : List ℕ) → 16 ≤ length (p.encrypt key iv text)
  pub decrypts :
      (key iv text : List ℕ)
      → IsDrawn key iv
      → All IsByte text
      → p.decrypt key iv (p.encrypt key iv text) ≡ some text
  pub writes_bytes : (v : Value) → All IsByte (p.to_bytes v)

module _ (p : Platform) (promises : Promises p) (key iv : List ℕ) (drawn : IsDrawn key iv)
    (payload : Value) (reads_back : p.from_bytes (p.to_bytes payload) ≡ some payload) where
  abbrev ciphertext : List ℕ
  ciphertext = p.encrypt key iv (p.to_bytes payload)

  abbrev sealed : CiphertextEnvelope
  sealed = record {
    version = number (natural 1);
    algorithm = string "A256GCM";
    iv = some (encode_base64url iv);
    ciphertext = some (encode_base64url ciphertext);
  }

  iv_back : decode_base64url (encode_base64url iv) ≡ some iv
  iv_back = decode-encode_base64url iv drawn.iv_bytes

  ciphertext_back : decode_base64url (encode_base64url ciphertext) ≡ some ciphertext
  ciphertext_back =
      decode-encode_base64url ciphertext (promises.is_ciphertext key iv (p.to_bytes payload))

  assert_envelope-sealed : assert_envelope sealed ≡ some tt
  unfolding assert_envelope is_version_one is_named
  assert_envelope-sealed = ground (
    arith,
    iv_back,
    ciphertext_back,
    drawn.iv_length,
    promises.has_tag key iv (p.to_bytes payload),
  )

  decrypt_payload-sealed :
      assert_plaintext_payload payload ≡ some tt
      → decrypt_payload p sealed (encode_base64url key) ≡ some payload
  unfolding decrypt_payload
  decrypt_payload-sealed h = ground (
    arith,
    assert_envelope-sealed,
    iv_back,
    ciphertext_back,
    h,
    drawn.key_length,
    decode-encode_base64url key drawn.key_bytes,
    promises.decrypts key iv (p.to_bytes payload) drawn (promises.writes_bytes payload),
    reads_back,
  )

  -- A payload whose JSON the platform reads back is encrypted, and the envelope decrypts to it with the key that came with it.
  pub decrypt_payload-encrypt_payload :
      assert_plaintext_payload payload ≡ some tt
      → (e : EncryptedPaste) × (encrypt_payload p key iv payload ≡ some e)
        × (decrypt_payload p e.envelope e.key ≡ some payload)
  unfolding encrypt_payload
  decrypt_payload-encrypt_payload h = (
    record { envelope = sealed; key = encode_base64url key },
    ground (arith, h),
    decrypt_payload-sealed h,
  )
