-- ===== src/Profile/Model.antt =====
-- scripts/common.py: the errors and warnings of `validate_profile`, and how it reads a profile. The
-- profile has passed the schema of config/schema by then, so that the fields which are read without a
-- default are there and have their types.
use zkdeal_cloud_deployer_in.Base.{
  Bool, List, String, [], false, if◌then◌else◌, map, nat_eq, true, within, ℕ, ◌*◌, ◌++◌, ◌+◌, ◌-◌,
  ◌^◌, ◌∷◌,
}
use zkdeal_cloud_deployer_in.Base.Text.{codes, same_codes}
use zkdeal_cloud_deployer_in.Base.Json.{
  Fields, Items, Json, arr, bool, end, field, float, get, int, item, nil, null, obj, pos, str,
}

-- One constructor for each message.
pub data Problem : Type 0 where
  schema_problem : String → Problem
  known_private_key tls_required proxies_required wildcard_cors : Problem
  standalone_queue filesystem_fencing : Problem
  filesystem_replicas unfenced_replicas : String → Problem
  single_instance_size single_region_size : Problem
  standby_storage standby_fencing standby_size standby_recovery : Problem
  production_mode production_backend dotenv_secrets secret_missing tag_overrides : Problem
  one_rpc_url placeholder_rpc_url zero_address unobserved no_standby retention multi_region :
      Problem
  no_signer_roles : Problem
  role_disabled role_address role_not_isolated : String → Problem
  shared_endpoint : Problem
  manifest_problem : Problem
  malformed_digest missing_digest : String → Problem
  artifact_missing : String → Problem

-- `CheckResult`
pub record CheckResult : Type 0 where
  pub errors : List Problem
  pub warnings : List Problem

-- `if test: errors.append(…)`
unfoldable pub flag : Bool → Problem → List Problem
flag true problem = problem ∷ []
flag false problem = []

-- `profile[name]` of a section
abbrev pub fields_of : Json → Fields
fields_of (obj fields) = fields
fields_of other = end

abbrev pub section : Fields → String → Fields
section value name = fields_of (get value name)

-- The digits of an exponent after its sign, read on from `n`.
unfoldable exponent : ℕ → List ℕ → ℕ
exponent n [] = n
exponent n (c ∷ rest) = exponent (if within b'0' c b'9' then n * 10 + (c - b'0') else n) rest

-- The text of a float from its point on: `whole` reads the digits so far, `count` of them after the point.
-- `.0` ends the text of a whole number, unless an exponent follows, which a whole number has with a `+`.
unfoldable fraction : ℕ → ℕ → ℕ → List ℕ → ℕ
unfolding exponent
fraction before whole count [] = before
fraction before whole count (c ∷ rest) =
    if within b'0' c b'9'
    then fraction before (whole * 10 + (c - b'0')) (count + 1) rest
    else if nat_eq c b'e'
    then whole * 10 ^ (exponent 0 rest - count)
    else before

unfoldable whole_float : ℕ → List ℕ → ℕ
unfolding fraction
whole_float n [] = n
whole_float n (c ∷ rest) =
    if within b'0' c b'9'
    then whole_float (n * 10 + (c - b'0')) rest
    else fraction n n 0 (if nat_eq c b'.' then rest else c ∷ rest)

-- A number as Python compares it with another: the schema's `integer` admits integers and floats that are
-- whole, such as `3.0` or `1e+16`, and its bounds none that is negative. 0 if the field is absent.
unfoldable pub number : Json → ℕ
unfolding whole_float
number (int (pos n)) = n
number (float text) = whole_float 0 (codes text)
number other = 0

-- The texts of a list.
abbrev pub texts_of : Items → List String
texts_of nil = []
texts_of (item (str s) rest) = s ∷ texts_of rest
texts_of (item other rest) = texts_of rest

abbrev pub texts : Json → List String
texts (arr items) = texts_of items
texts other = []

-- The texts among the values of an object.
abbrev pub value_texts : Fields → List String
value_texts end = []
value_texts (field name (str s) rest) = s ∷ value_texts rest
value_texts (field name other rest) = value_texts rest

unfoldable mutual
  -- `walk_strings`
  pub walk : Json → List String
  walk (str s) = s ∷ []
  walk (obj fields) = walk_fields fields
  walk (arr items) = walk_items items
  walk null = []
  walk (bool b) = []
  walk (int z) = []
  walk (float t) = []

  pub walk_fields : Fields → List String
  walk_fields end = []
  walk_fields (field name value rest) = walk value ++ walk_fields rest

  pub walk_items : Items → List String
  walk_items nil = []
  walk_items (item value rest) = walk value ++ walk_items rest

-- `value.lower()` as code points, for ASCII letters
abbrev pub lowered : String → List ℕ
lowered s = map (λ c. if within b'A' c b'Z' then c + 32 else c) (codes s)

-- `value.lower() == text`
abbrev pub lower_is : String → String → Bool
lower_is text s = same_codes (lowered s) (codes text)

abbrev pub zero_address_text : String
zero_address_text = "0x0000000000000000000000000000000000000000"

abbrev pub known_keys : List String
known_keys =
    "0xac0974bec39a17e36ba4a6b4d238ff944bacb478cbed5efcae784d7bf4f2ff80"
    ∷ "0x59c6995e998f97a5a0044966f0945389dc9e86dae88c7a8412f4603b6b78690d" ∷ []
