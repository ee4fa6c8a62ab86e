-- ===== src/Base/Decimal.antt =====
-- `str(n)` of a natural number.
use Prim.Native.Nat.{ℕ, zero, suc, ◌+◌, ◌/◌, ◌%◌}
use Prim.Native.String
use Prim.Native.String.{String}
use mathlib.Core.Path.{◌≡◌, refl}
use mathlib.Core.List.{List, [], ◌∷◌}
use zkdeal_cloud_deployer_in.Base.Tests.{if◌then◌else◌, ltb}

abbrev digit_text : ℕ → String
digit_text zero = "0"
digit_text (suc zero) = "1"
digit_text (suc (suc zero)) = "2"
digit_text (suc (suc (suc zero))) = "3"
digit_text (suc (suc (suc (suc zero)))) = "4"
digit_text (suc (suc (suc (suc (suc zero))))) = "5"
digit_text (suc (suc (suc (suc (suc (suc zero)))))) = "6"
digit_text (suc (suc (suc (suc (suc (suc (suc zero))))))) = "7"
digit_text (suc (suc (suc (suc (suc (suc (suc (suc zero)))))))) = "8"
digit_text _ = "9"

-- A number below `fuel` has fewer digits than `fuel`.
digits_onto : ℕ → ℕ → String → String
digits_onto zero n acc = acc
digits_onto (suc fuel) n acc =
    let longer = digits_onto fuel (n / 10) (String.◌++◌ (digit_text (n % 10)) acc) in
    if ltb n 10 then String.◌++◌ (digit_text n) acc else longer

unfoldable pub decimal : ℕ → String
unfolding digits_onto
decimal n = digits_onto (n + 1) n ""

-- The pieces of an f-string, put together.
abbrev pub concat : List String → String
concat [] = ""
concat (text ∷ rest) = String.◌++◌ text (concat rest)

decimal_test : decimal 2045 ≡ "2045"
unfolding decimal
decimal_test = refl
