-- ===== src/Common/Texts.antt =====
-- Texts: their code points, and their length in the UTF-16 units that JavaScript counts.
use Prim.Native.Nat.{ℕ, zero, suc, ◌+◌, ◌-◌, ◌/◌, ◌%◌}
use Prim.Native.Char.{code}
use Prim.Native.String.{String, ◌++◌ as str_append}
use mathlib.Core.List.{List, [], ◌∷◌}
use xbin.Common.Tests.{leb, ltb, ◌==◌, if◌then◌else◌}

unfoldable pub codes : String → List ℕ
codes String.[] = []
codes (String.◌∷◌ c s) = code c ∷ codes s

unfoldable pub utf16_length : String → ℕ
utf16_length String.[] = 0
utf16_length (String.◌∷◌ c s) = (if leb 65536 (code c) then 2 else 1) + utf16_length s

-- The UTF-16 units themselves, which `charCodeAt` gives.
unfoldable pub utf16_units : String → List ℕ
utf16_units String.[] = []
utf16_units (String.◌∷◌ c s) =
    let rest = utf16_units s in
    if leb 65536 (code c)
    then (55296 + (code c - 65536) / 1024) ∷ (56320 + (code c - 65536) % 1024) ∷ rest
    else code c ∷ rest

-- `new TextEncoder().encode(text).length`
unfoldable pub utf8_length : String → ℕ
utf8_length String.[] = 0
utf8_length (String.◌∷◌ c s) =
    (if ltb (code c) 128
      then 1
      else if ltb (code c) 2048
      then 2
      else if ltb (code c) 65536
      then 3
      else 4)
    + utf8_length s

-- `${n}`, for numbers below 10 ^ fuel
abbrev pub digit_text : ℕ → String
digit_text n =
    if n == 0
    then "0"
    else if n == 1
    then "1"
    else if n == 2
    then "2"
    else if n == 3
    then "3"
    else if n == 4
    then "4"
    else if n == 5
    then "5"
    else if n == 6
    then "6"
    else if n == 7
    then "7"
    else if n == 8
    then "8"
    else "9"

unfoldable pub decimal : ℕ → ℕ → String
decimal zero n = ""
decimal (suc fuel) n =
    let rest = decimal fuel (n / 10) in
    if ltb n 10 then digit_text n else str_append rest (digit_text (n % 10))
