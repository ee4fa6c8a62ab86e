-- ===== src/Base/Json.antt =====
-- JSON values as Python sees them after `json.loads`. An object is a list of fields, and reading a
-- field that is absent gives Python's `None`, as `dict.get` does. A number with a fraction or an
-- exponent keeps the text that `str` prints for it, which tells Python's floats apart.
use Prim.Native.Nat.{ℕ, zero}
use Prim.Native.String.{String}
use mathlib.Core.Bool.{Bool, true, false, ◌&&◌, ◌||◌}
use mathlib.Core.Option.{Option, none, some}
use mathlib.Core.List.{List, [], ◌∷◌, map}
use text.Mathlib.Text.{◌==◌}
use zkdeal_cloud_deployer_in.Base.Tests.{if◌then◌else◌, nat_eq}
use zkdeal_cloud_deployer_in.Base.Lists.{all_of, subset}
use zkdeal_cloud_deployer_in.Base.Decimal.{decimal}

-- `negsuc n` is -(n + 1).
pub data ℤ : Type 0 where
  pos : ℕ → ℤ
  negsuc : ℕ → ℤ

mutual
  pub data Json : Type 0 where
    null : Json
    bool : Bool → Json
    int : ℤ → Json
    float : String → Json
    str : String → Json
    arr : Items → Json
    obj : Fields → Json

  pub data Items : Type 0 where
    nil : Items
    item : Json → Items → Items

  pub data Fields : Type 0 where
    end : Fields
    field : String → Json → Fields → Fields

abbrev pub num : ℕ → Json
num n = int (pos n)

-- `value.get(key)`
abbrev pub get : Fields → String → Json
get end key = null
get (field name value rest) key = if name == key then value else get rest key

-- The value of a field that is there.
abbrev pub lookup : Fields → String → Option Json
lookup end key = none
lookup (field name value rest) key = if name == key then some value else lookup rest key

-- `value[key] = new`
abbrev pub put : Fields → String → Json → Fields
put end key new = field key new end
put (field name value rest) key new =
    if name == key then field name new rest else field name value (put rest key new)

abbrev pub names : Fields → List String
names end = []
names (field name value rest) = name ∷ names rest

-- `set(value) == expected`
abbrev pub has_exactly : Fields → List String → Bool
has_exactly value expected = subset (names value) expected && subset expected (names value)

-- The dictionary literals of the source.
abbrev pub dict : List (String × Json) → Fields
dict [] = end
dict ((name, value) ∷ rest) = field name value (dict rest)

-- `{**value, **more}`, `value.update(more)` for names that `value` lacks
abbrev pub extend : Fields → Fields → Fields
extend end more = more
extend (field name value rest) more = field name value (extend rest more)

-- `value is True` and `value is False`
abbrev pub is_true : Json → Bool
is_true (bool b) = b
is_true _ = false

abbrev pub is_false : Json → Bool
is_false (bool b) = if b then false else true
is_false _ = false

-- `value == True` and `value == 1`, which Python cannot tell apart
abbrev pub eq_one : Json → Bool
eq_one (bool b) = b
eq_one (int (pos n)) = nat_eq n 1
eq_one (float text) = text == "1.0"
eq_one _ = false

-- `value == 0`
abbrev pub eq_zero : Json → Bool
eq_zero (bool b) = if b then false else true
eq_zero (int (pos n)) = nat_eq n 0
eq_zero (float text) = text == "0.0" || text == "-0.0"
eq_zero _ = false

-- `value == text`
abbrev pub eq_str : Json → String → Bool
eq_str (str s) text = s == text
eq_str _ text = false

-- `bool(value)`
abbrev pub truthy : Json → Bool
truthy null = false
truthy (bool b) = b
truthy (int (pos zero)) = false
truthy (int other) = true
truthy (float text) = if text == "0.0" || text == "-0.0" then false else true
truthy (str text) = if text == "" then false else true
truthy (arr nil) = false
truthy (arr (item value rest)) = true
truthy (obj end) = false
truthy (obj (field name value rest)) = true

-- `value == expected` for an object of texts with different names
abbrev pub eq_texts : Json → List (String × String) → Bool
eq_texts (obj fields) expected =
    subset (names fields) (map (λ e. e.0) expected)
    && all_of (λ e. eq_str (get fields e.0) e.1) expected
eq_texts other expected = false

-- `isinstance(value, dict)`
abbrev pub is_dict : Json → Bool
is_dict (obj _) = true
is_dict _ = false

-- A value for which `isinstance(value, int)` holds, as a number: Python counts booleans.
abbrev pub as_int : Json → Option ℤ
as_int (bool b) = some (if b then pos 1 else pos 0)
as_int (int z) = some z
as_int _ = none

-- `str(value)`, except of a list or an object, whose text begins with a bracket.
unfoldable pub scalar_text : Json → Option String
scalar_text null = some "None"
scalar_text (bool b) = some (if b then "True" else "False")
scalar_text (int (pos n)) = some (decimal n)
scalar_text (int (negsuc n)) = none
scalar_text (float text) = some text
scalar_text (str text) = some text
scalar_text _ = none
