-- ===== src/Crypto/Base64.antt =====
-- Decoding the base64url form of bytes gives the bytes back.
use xbin.Common.{
  ℕ, zero, suc, ◌+◌, ◌-◌, ◌*◌, ◌/◌, ◌%◌, ◌≤◌, ◌<◌, ◌≡◌, refl, sym, ap, ◌∙◌, Bool, true, false, not,
  some, List, [], ◌∷◌, ◌++◌, ◌==◌, if◌then◌else◌, length, length-append, replicate, all, map, keep,
  All, arith,
}
use xbin.Crypto.{
  digit, digit_value, btoa, strip_padding, decode_digits, atob, replace_all, encode_base64url,
  is_base64url, pad_end, decode_base64url,
}

-- A number below 256.
abbrev pub IsByte : ℕ → Type 0
IsByte n = n < 256

digit_value-digit : (n : ℕ) → n < 64 → digit_value (digit n) ≡ some n
unfolding digit digit_value
digit_value-digit n h = ground arith

-- A digit is no "=", and comes back from the alphabet of URLs.
abbrev to_url : ℕ → ℕ
to_url c = let d = if c == 43 then 45 else c in if d == 47 then 95 else d

abbrev from_url : ℕ → ℕ
from_url c = let d = if c == 45 then 43 else c in if d == 95 then 47 else d

record IsDigit (c : ℕ) : Type 0 where
  pub not_padding : (c == 61) ≡ false
  pub url_not_padding : (to_url c == 61) ≡ false
  pub in_url : is_base64url (to_url c) ≡ true
  pub and_back : from_url (to_url c) ≡ c

digit-IsDigit : (n : ℕ) → n < 64 → IsDigit (digit n)
unfolding digit is_base64url
digit-IsDigit n h = record {
  not_padding = ground arith;
  url_not_padding = ground arith;
  in_url = ground arith;
  and_back = ground arith;
}

-- The digits without the padding.
bare : List ℕ → List ℕ
bare [] = []
bare (a ∷ []) = digit (a / 4) ∷ digit (a % 4 * 16) ∷ []
bare (a ∷ b ∷ []) = digit (a / 4) ∷ digit (a % 4 * 16 + b / 16) ∷ digit (b % 16 * 4) ∷ []
bare (a ∷ b ∷ c ∷ rest) =
    digit (a / 4)
    ∷ digit (a % 4 * 16 + b / 16)
    ∷ digit (b % 16 * 4 + c / 64)
    ∷ digit (c % 64)
    ∷ bare rest

bare-IsDigit : (bytes : List ℕ) → All IsByte bytes → All IsDigit (bare bytes)
unfolding bare
bare-IsDigit [] h = tt
bare-IsDigit (a ∷ []) (p, _) =
    (digit-IsDigit (a / 4) (omega (arith, p)), (digit-IsDigit (a % 4 * 16) (omega arith), tt))
bare-IsDigit (a ∷ b ∷ []) (p, (q, _)) = (
  digit-IsDigit (a / 4) (omega (arith, p)),
  (
    digit-IsDigit (a % 4 * 16 + b / 16) (omega (arith, q)),
    (digit-IsDigit (b % 16 * 4) (omega arith), tt),
  ),
)
bare-IsDigit (a ∷ b ∷ c ∷ rest) (p, (q, (r, h))) = (
  digit-IsDigit (a / 4) (omega (arith, p)),
  (
    digit-IsDigit (a % 4 * 16 + b / 16) (omega (arith, q)),
    (
      digit-IsDigit (b % 16 * 4 + c / 64) (omega (arith, r)),
      (digit-IsDigit (c % 64) (omega arith), bare-IsDigit rest h),
    ),
  ),
)

-- Three bytes come back from four digits, and one or two from what is left.
first_byte : (a b : ℕ) → b < 256 → a / 4 * 4 + (a % 4 * 16 + b / 16) / 16 ≡ a
first_byte a b h = omega (arith, h)

second_byte :
    (a b c : ℕ)
    → b < 256
    → c < 256
    → (a % 4 * 16 + b / 16) % 16 * 16 + (b % 16 * 4 + c / 64) / 4 ≡ b
second_byte a b c h k = omega (arith, h, k)

third_byte : (b c : ℕ) → c < 256 → (b % 16 * 4 + c / 64) % 4 * 64 + c % 64 ≡ c
third_byte b c h = omega (arith, h)

decode_digits-bare : (bytes : List ℕ) → All IsByte bytes → decode_digits (bare bytes) ≡ some bytes
unfolding decode_digits bare
decode_digits-bare [] h = refl
decode_digits-bare (a ∷ []) (p, _) =
    let u = digit_value-digit (a / 4) (omega (arith, p)) in
    let v = digit_value-digit (a % 4 * 16) (omega arith) in
    let e : a / 4 * 4 + a % 4 * 16 / 16 ≡ a = omega arith in simp (u, v, e)
decode_digits-bare (a ∷ b ∷ []) (p, (q, _)) =
    let u = digit_value-digit (a / 4) (omega (arith, p)) in
    let v = digit_value-digit (a % 4 * 16 + b / 16) (omega (arith, q)) in
    let w = digit_value-digit (b % 16 * 4) (omega arith) in
    let d = first_byte a b q in
    let e : (a % 4 * 16 + b / 16) % 16 * 16 + b % 16 * 4 / 4 ≡ b = omega (arith, q) in
    simp (u, v, w, d, e)
decode_digits-bare (a ∷ b ∷ c ∷ rest) (p, (q, (r, h))) =
    let u = digit_value-digit (a / 4) (omega (arith, p)) in
    let v = digit_value-digit (a % 4 * 16 + b / 16) (omega (arith, q)) in
    let w = digit_value-digit (b % 16 * 4 + c / 64) (omega (arith, r)) in
    let x = digit_value-digit (c % 64) (omega arith) in
    let later = decode_digits-bare rest h in
    let d = first_byte a b q in
    let e = second_byte a b c q r in let f = third_byte b c r in simp (u, v, w, x, later, d, e, f)

-- btoa pads the digits to a multiple of four, with at most two "=".
record Padded (bytes : List ℕ) : Type 0 where
  pub padding : ℕ
  pub is_padded : btoa bytes ≡ bare bytes ++ replicate padding 61
  pub at_most_two : padding ≤ 2
  pub fills : padding ≡ (length (bare bytes) + 3) / 4 * 4 - length (bare bytes)
  pub not_one : (length (bare bytes) % 4 == 1) ≡ false
  pub whole : (length (bare bytes) + padding) % 4 ≡ 0

padded : (bytes : List ℕ) → Padded bytes
unfolding btoa bare
padded [] = record {
  padding = 0;
  is_padded = refl;
  at_most_two = omega arith;
  fills = omega arith;
  not_one = refl;
  whole = refl;
}
padded (a ∷ []) = record {
  padding = 2;
  is_padded = refl;
  at_most_two = omega arith;
  fills = omega arith;
  not_one = refl;
  whole = refl;
}
padded (a ∷ b ∷ []) = record {
  padding = 1;
  is_padded = refl;
  at_most_two = omega arith;
  fills = omega arith;
  not_one = refl;
  whole = refl;
}
padded (a ∷ b ∷ c ∷ rest) =
    let h = padded rest in
    let p = digit (a / 4) in
    let q = digit (a % 4 * 16 + b / 16) in
    let r = digit (b % 16 * 4 + c / 64) in
    let s = digit (c % 64) in
    record {
      padding = h.padding;
      is_padded = ap (λ l. p ∷ q ∷ r ∷ s ∷ l) h.is_padded;
      at_most_two = h.at_most_two;
      fills = omega (arith, h.fills);
      not_one = ground (arith, h.not_one);
      whole = omega (arith, h.whole);
    }

to_url-map : (xs : List ℕ) → replace_all 47 95 (replace_all 43 45 xs) ≡ map to_url xs
to_url-map [] = refl
to_url-map (x ∷ xs) = ap (to_url x ∷◌) (to_url-map xs)

from_url-map : (xs : List ℕ) → replace_all 95 47 (replace_all 45 43 xs) ≡ map from_url xs
from_url-map [] = refl
from_url-map (x ∷ xs) = ap (from_url x ∷◌) (from_url-map xs)

abbrev not_padding : ℕ → Bool
not_padding c = not (c == 61)

keep-padding : (k : ℕ) → keep not_padding (map to_url (replicate k 61)) ≡ []
keep-padding zero = refl
keep-padding (suc k) = keep-padding k

keep-padded :
    (xs : List ℕ) (k : ℕ)
    → All IsDigit xs
    → keep not_padding (map to_url (xs ++ replicate k 61)) ≡ map to_url xs
keep-padded [] k h = keep-padding k
keep-padded (x ∷ xs) k (p, h) = ground (arith, p.url_not_padding, keep-padded xs k h)

-- The padding that btoa writes is what encodeBase64url drops.
encode_base64url-bare :
    (bytes : List ℕ) → All IsByte bytes → encode_base64url bytes ≡ map to_url (bare bytes)
unfolding encode_base64url
encode_base64url-bare bytes h =
    let p = padded bytes in
    ap (keep not_padding) (to_url-map (btoa bytes))
    ∙ ap (λ l. keep not_padding (map to_url l)) p.is_padded
    ∙ keep-padded (bare bytes) p.padding (bare-IsDigit bytes h)

all-url : (xs : List ℕ) → All IsDigit xs → all is_base64url (map to_url xs) ≡ true
all-url [] h = refl
all-url (x ∷ xs) (p, h) = ground (arith, p.in_url, all-url xs h)

back : (xs : List ℕ) → All IsDigit xs → map from_url (map to_url xs) ≡ xs
back [] h = refl
back (x ∷ xs) (p, h) = ap (λ y. y ∷ map from_url (map to_url xs)) p.and_back ∙ ap (x ∷◌) (back xs h)

length-to_url : (xs : List ℕ) → length (map to_url xs) ≡ length xs
length-to_url [] = refl
length-to_url (x ∷ xs) = ap suc (length-to_url xs)

-- atob drops the padding again.
strip_padding-padded :
    (xs : List ℕ) (k : ℕ) → All IsDigit xs → k ≤ 2 → strip_padding (xs ++ replicate k 61) ≡ xs
unfolding strip_padding
strip_padding-padded [] zero h l = refl
strip_padding-padded [] (suc zero) h l = refl
strip_padding-padded [] (suc (suc zero)) h l = refl
strip_padding-padded [] (suc (suc (suc k))) h l = absurd (omega (arith, l))
strip_padding-padded (x ∷ []) zero (p, h) l = ground (arith, p.not_padding)
strip_padding-padded (x ∷ []) (suc zero) (p, h) l = ground (arith, p.not_padding)
strip_padding-padded (x ∷ []) (suc (suc zero)) (p, h) l = refl
strip_padding-padded (x ∷ []) (suc (suc (suc k))) (p, h) l = absurd (omega (arith, l))
strip_padding-padded (x ∷ y ∷ []) zero (p, (q, h)) l = ground (arith, p.not_padding, q.not_padding)
strip_padding-padded (x ∷ y ∷ []) (suc k) (p, (q, h)) l =
    ap (x ∷◌) (strip_padding-padded (y ∷ []) (suc k) (q, h) l)
strip_padding-padded (x ∷ y ∷ z ∷ xs) k (p, h) l =
    ap (x ∷◌) (strip_padding-padded (y ∷ z ∷ xs) k h l)

length-replicate : (k x : ℕ) → length (replicate k x) ≡ k
length-replicate zero x = refl
length-replicate (suc k) x = ap suc (length-replicate k x)

atob-padded :
    (bytes : List ℕ)
    → All IsByte bytes
    → atob (bare bytes ++ replicate (padded bytes).padding 61) ≡ some bytes
unfolding atob
atob-padded bytes h =
    let p = padded bytes in
    let size : length (bare bytes ++ replicate p.padding 61) % 4 ≡ 0 =
      ap (λ n. n % 4)
        (length-append (bare bytes) (replicate p.padding 61)
          ∙ ap (length (bare bytes) +◌) (length-replicate p.padding 61))
      ∙ p.whole in
    let stripped =
      strip_padding-padded (bare bytes) p.padding (bare-IsDigit bytes h) p.at_most_two in
    let decoded = ap decode_digits stripped ∙ decode_digits-bare bytes h in
    ground (arith, size, decoded)

decode_base64url-accepts :
    (text : List ℕ)
    → all is_base64url text ≡ true
    → (length text % 4 == 1) ≡ false
    → decode_base64url text ≡ atob (pad_end (length text) (map from_url text))
unfolding decode_base64url
decode_base64url-accepts text h k =
    ground (arith, h, k, ap (λ t. atob (pad_end (length text) t)) (from_url-map text))

pub decode-encode_base64url :
    (bytes : List ℕ) → All IsByte bytes → decode_base64url (encode_base64url bytes) ≡ some bytes
unfolding pad_end
decode-encode_base64url bytes h =
    let p = padded bytes in
    let digits = bare-IsDigit bytes h in
    let text = map to_url (bare bytes) in
    let size = length-to_url (bare bytes) in
    ap decode_base64url (encode_base64url-bare bytes h)
    ∙ decode_base64url-accepts text (all-url (bare bytes) digits)
        (ap (λ n. n % 4 == 1) size ∙ p.not_one)
    ∙ ap (λ n. atob (map from_url text ++ replicate ((n + 3) / 4 * 4 - n) 61)) size
    ∙ ap (λ t. atob (t ++ replicate ((length (bare bytes) + 3) / 4 * 4 - length (bare bytes)) 61))
        (back (bare bytes) digits)
    ∙ ap (λ k. atob (bare bytes ++ replicate k 61)) (sym p.fills)
    ∙ atob-padded bytes h
