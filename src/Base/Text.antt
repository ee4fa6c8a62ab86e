-- ===== src/Base/Text.antt =====
-- Regular expressions of the programs as tests on the code points of a text. Python's `fullmatch`
-- wants the whole text, so each test reads every character.
use Prim.Native.Nat.{ℕ, ◌+◌, ◌*◌, ◌-◌, ◌^◌}
use mathlib.Core.Path.{◌≡◌, refl}
use Prim.Native.Char.{code}
use Prim.Native.String.{String}
use mathlib.Core.Bool.{Bool, true, false, ◌&&◌, ◌||◌}
use mathlib.Core.Option.{Option, none, some}
use mathlib.Core.List.{List, [], ◌∷◌}
use zkdeal_cloud_deployer_in.Base.Tests.{if◌then◌else◌, leb, nat_eq, within}
use zkdeal_cloud_deployer_in.Base.Lists.{all_of, length}

abbrev pub codes : String → List ℕ
codes String.[] = []
codes (String.◌∷◌ c s) = code c ∷ codes s

-- `[a-z]`, `[A-Z]`, `[0-9]`
unfoldable pub is_lower : ℕ → Bool
is_lower c = within b'a' c b'z'

unfoldable pub is_upper : ℕ → Bool
is_upper c = within b'A' c b'Z'

unfoldable pub is_digit : ℕ → Bool
is_digit c = within b'0' c b'9'

-- `[0-9a-f]` and `[0-9A-Fa-f]`
unfoldable pub is_lower_hex : ℕ → Bool
unfolding is_digit
is_lower_hex c = is_digit c || within b'a' c b'f'

unfoldable pub is_hex : ℕ → Bool
unfolding is_lower_hex
is_hex c = is_lower_hex c || within b'A' c b'F'

-- `[a-z0-9]`
unfoldable pub is_lower_digit : ℕ → Bool
unfolding is_lower is_digit
is_lower_digit c = is_lower c || is_digit c

-- `[._:-]`
unfoldable pub is_id_mark : ℕ → Bool
is_id_mark c = nat_eq c b'.' || nat_eq c b'_' || nat_eq c b':' || nat_eq c b'-'

-- A first character of one class and `fewest` to `most` further ones of another.
unfoldable pub head_tail : (ℕ → Bool) → (ℕ → Bool) → ℕ → ℕ → List ℕ → Bool
head_tail first rest fewest most [] = false
head_tail first rest fewest most (c ∷ cs) =
    first c && all_of rest cs && within fewest (length cs) most

-- `SAFE_ID`, `^[a-z0-9][a-z0-9._:-]{7,199}$`
unfoldable pub is_safe_id : String → Bool
unfolding head_tail is_lower_digit is_id_mark
is_safe_id text =
    head_tail is_lower_digit (λ c. is_lower_digit c || is_id_mark c) 7 199 (codes text)

-- `^[0-9a-f]{64}$`, which the programs name `HEX64` and `SHA256`
unfoldable pub is_hex64 : String → Bool
unfolding is_lower_hex
is_hex64 text = all_of is_lower_hex (codes text) && nat_eq (length (codes text)) 64

-- The value of one hexadecimal digit.
abbrev pub hex_digit : ℕ → ℕ
hex_digit c = if leb c b'9' then c - 48 else if leb c b'F' then c - 55 else c - 87

-- `int(text, 16)` of a text of hexadecimal digits
abbrev pub hex_value_from : ℕ → List ℕ → ℕ
hex_value_from acc [] = acc
hex_value_from acc (c ∷ cs) = hex_value_from (acc * 16 + hex_digit c) cs

-- `text.split("/", 1)`, if there is a slash
unfoldable pub split_slash : List ℕ → Option (List ℕ × List ℕ)
split_slash [] = none
split_slash (c ∷ cs) =
    let later : Option (List ℕ × List ℕ) = elim (split_slash cs) [
      | none ↦ none
      | some (high, low) ↦ some (c ∷ high, low)
    ] in
    if nat_eq c b'/' then some ([], cs) else later

-- `[0-9A-Fa-f]+`
unfoldable pub hex_word : List ℕ → Bool
unfolding is_hex
hex_word [] = false
hex_word (c ∷ cs) = is_hex c && all_of is_hex cs

-- The integer of a PostgreSQL LSN, `^[0-9A-Fa-f]+/[0-9A-Fa-f]+$`
unfoldable pub parse_lsn : String → Option ℕ
unfolding split_slash hex_word
parse_lsn text = elim (split_slash (codes text)) [
  | none ↦ none
  | some (high, low) ↦
      if hex_word high && hex_word low
      then some (hex_value_from 0 high * 2 ^ 32 + hex_value_from 0 low)
      else none
]

parse_lsn_test : parse_lsn "1/A0" ≡ some (2 ^ 32 + 160)
unfolding parse_lsn
parse_lsn_test = refl

-- Whether two texts of code points are equal.
abbrev pub same_codes : List ℕ → List ℕ → Bool
same_codes [] [] = true
same_codes (x ∷ xs) (y ∷ ys) = nat_eq x y && same_codes xs ys
same_codes xs ys = false

-- `value.startswith(prefix)`, on code points
abbrev pub begins : List ℕ → List ℕ → Bool
begins [] cs = true
begins (p ∷ ps) [] = false
begins (p ∷ ps) (c ∷ cs) = nat_eq p c && begins ps cs

-- `text in value`
abbrev pub occurs : List ℕ → List ℕ → Bool
occurs ps [] = begins ps []
occurs ps (c ∷ cs) = begins ps (c ∷ cs) || occurs ps cs
