-- ===== src/Base/Hexadecimal.antt =====
-- `hex(n)` and the lower case of hexadecimal digits.
use Prim.Native.Nat.{ℕ, zero, suc, ◌+◌, ◌-◌, ◌/◌, ◌%◌}
use Prim.Native.Char.{code}
use Prim.Native.String
use Prim.Native.String.{String}
use mathlib.Core.Path.{◌≡◌, refl}
use mathlib.Core.List.{List, [], ◌∷◌}
use zkdeal_cloud_deployer_in.Base.Tests.{if◌then◌else◌, ltb}
use zkdeal_cloud_deployer_in.Base.Lists.{length}
use zkdeal_cloud_deployer_in.Base.Text.{codes, hex_digit, is_upper}

abbrev letters : List String
letters =
    "0" ∷ "1" ∷ "2" ∷ "3" ∷ "4" ∷ "5" ∷ "6" ∷ "7" ∷ "8" ∷ "9" ∷ "a" ∷ "b" ∷ "c" ∷ "d" ∷ "e" ∷ "f"
    ∷ []

abbrev letter_from : List String → ℕ → String
letter_from [] n = ""
letter_from (text ∷ rest) zero = text
letter_from (text ∷ rest) (suc n) = letter_from rest n

abbrev hex_text : ℕ → String
hex_text n = letter_from letters n

-- A number below `fuel` has fewer digits than `fuel`.
hex_onto : ℕ → ℕ → String → String
hex_onto zero n acc = acc
hex_onto (suc fuel) n acc =
    let longer = hex_onto fuel (n / 16) (String.◌++◌ (hex_text (n % 16)) acc) in
    if ltb n 16 then String.◌++◌ (hex_text n) acc else longer

-- `hex(n)`
unfoldable pub hex : ℕ → String
unfolding hex_onto
hex n = String.◌++◌ "0x" (hex_onto (n + 1) n "")

-- `text.lower()` of a text whose letters are hexadecimal digits
unfoldable pub lower_hex : String → String
unfolding is_upper
lower_hex String.[] = ""
lower_hex (String.◌∷◌ c s) =
    if is_upper (code c)
    then String.◌++◌ (hex_text (hex_digit (code c))) (lower_hex s)
    else String.◌∷◌ c (lower_hex s)

-- `text[-count:]` on code points
abbrev pub skip : ℕ → List ℕ → List ℕ
skip zero cs = cs
skip (suc n) [] = []
skip (suc n) (c ∷ cs) = skip n cs

abbrev pub last_codes : ℕ → String → List ℕ
last_codes n text = skip (length (codes text) - n) (codes text)

hex_test : hex 3054 ≡ "0xbee"
unfolding hex
hex_test = refl

lower_hex_test : lower_hex "0xBEe1" ≡ "0xbee1"
unfolding lower_hex
lower_hex_test = refl
