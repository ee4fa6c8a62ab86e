-- ===== src/Promotion/Settings.antt =====
-- scripts/promotion_controller.py: `secret`, `integer`, `checked_url` and `Config.from_environment`. The
-- environment, the files, `int` of a text and `urlparse` are given by what they answer.
pub mod FromEnvironment
pub mod Sound
use zkdeal_cloud_deployer_in.Base.{
  Bool, List, Option, String, [], false, if◌then◌else◌, ltb, nat_eq, none, not, some, true, within,
  ℕ, ◌&&◌, ◌==◌, ◌||◌, ◌∷◌,
}
use zkdeal_cloud_deployer_in.Base.Lists.{any_of, length}
use zkdeal_cloud_deployer_in.Base.Text.{codes, same_codes}
use zkdeal_cloud_deployer_in.Base.Json.{negsuc, pos, ℤ}
use zkdeal_cloud_deployer_in.Base.Decimal.{concat}
use Prim.Native.Char.{Char, code}

-- What is read of `urlparse(value)`. The port may be malformed, which raises a `ValueError`.
pub record Url : Type 0 where
  pub scheme : String
  pub hostname : Option String
  pub port : Option (Option ℕ)
  pub has_credentials : Bool
  pub has_fragment : Bool

-- A file is absent unless it is a regular one and no symbolic link.
pub record Environment : Type 0 where
  pub variable : String → Option String
  pub file : String → Option String
  pub int_of : String → Option ℤ
  pub urlparse : String → Option Url

-- `ControllerError` with the name of the setting, or `ValueError`
pub data SettingFault : Type 0 where
  invalid_setting : String → SettingFault
  malformed_value : SettingFault

pub data Read (A : Type 0) : Type 0 where
  good : A → Read A
  bad : SettingFault → Read A

infixl 5 ◌>>=◌ ◌>>◌
unfoldable pub ◌>>=◌ : {A B : Type 0} → Read A → (A → Read B) → Read B
good a >>= f = f a
bad e >>= f = bad e

abbrev pub ◌>>◌ : {A B : Type 0} → Read A → Read B → Read B
m >> k = m >>= λ _. k

-- `if not test: raise ControllerError(…)`
unfoldable pub demand : Bool → String → Read (Unit {0})
demand test name = if test then good tt else bad (invalid_setting name)

unfoldable pub present : {A : Type 0} → Option A → SettingFault → Read A
present none fault = bad fault
present (some a) fault = good a

-- `value.strip()`, of ASCII white space
abbrev pub is_space : ℕ → Bool
is_space c = within 9 c 13 || within 28 c 32

abbrev pub strip_left : String → String
strip_left String.[] = ""
strip_left (String.◌∷◌ c s) =
    let rest = strip_left s in if is_space (code c) then rest else String.◌∷◌ c s

-- `value.rstrip(…)` of the characters of a class
abbrev pub strip_right : (ℕ → Bool) → String → String
strip_right test String.[] = ""
strip_right test (String.◌∷◌ c s) =
    let rest = strip_right test s in if rest == "" && test (code c) then "" else String.◌∷◌ c rest

abbrev pub strip : String → String
strip s = strip_right is_space (strip_left s)

abbrev add_first : Char → List String → List String
add_first c [] = []
add_first c (s ∷ rest) = String.◌∷◌ c s ∷ rest

-- `value.split(",")`
abbrev pub split_commas : String → List String
split_commas String.[] = "" ∷ []
split_commas (String.◌∷◌ c s) =
    let rest = split_commas s in if nat_eq (code c) b',' then "" ∷ rest else add_first c rest

-- `[item.strip() for item in … if item.strip()]`
abbrev pub stripped_items : List String → List String
stripped_items [] = []
stripped_items (s ∷ rest) =
    let others = stripped_items rest in if strip s == "" then others else strip s ∷ others

abbrev pub text_or_empty : Option String → String
text_or_empty none = ""
text_or_empty (some s) = s

-- `not value`
abbrev pub is_absent : Option String → Bool
is_absent none = true
is_absent (some s) = s == ""

-- `value.endswith(ending)`
abbrev pub ends_with : List ℕ → List ℕ → Bool
ends_with ending [] = same_codes ending []
ends_with ending (c ∷ cs) = same_codes ending (c ∷ cs) || ends_with ending cs

-- A host name inside the cluster.
abbrev pub is_internal : Option String → Bool
is_internal none = false
is_internal (some host) =
    not (host == "")
    && (not (any_of (λ c. nat_eq c b'.') (codes host))
        || (ends_with (codes ".svc") (codes host)
            || ends_with (codes ".svc.cluster.local") (codes host)))

abbrev pub allowed_scheme : Bool → Bool → Url → Bool
allowed_scheme allow_http allow_cluster_http url =
    (url.scheme == "https" || (allow_http && url.scheme == "http"))
    || (allow_cluster_http && (url.scheme == "http" && is_internal url.hostname))

module _ (env : Environment) where
  -- The file of a secret, if one is named.
  unfoldable pub secret_text : Bool → Option String → Option String → String → Read (Option String)
  secret_text true direct file_name name = good direct
  secret_text false direct file_name name = do
    content ← present (env.file (text_or_empty file_name)) (invalid_setting name)
    good (some (strip content))

  unfoldable pub long_enough : Option String → String → Read String
  long_enough none name = bad (invalid_setting name)
  long_enough (some s) name =
      if ltb (length (codes s)) 16 then bad (invalid_setting name) else good s

  unfoldable pub secret : String → Read String
  secret name = do
    let direct = env.variable name
    let file_name = env.variable (concat (name ∷ "_FILE" ∷ []))
    demand (is_absent direct || is_absent file_name) name
    content ← secret_text (is_absent file_name) direct file_name name
    long_enough content name

  abbrev pub integer_value : Option String → ℕ → Option ℤ
  integer_value none default = some (pos default)
  integer_value (some raw) default = env.int_of raw

  unfoldable pub in_range : ℤ → ℕ → ℕ → String → Read ℕ
  in_range (negsuc n) minimum maximum name = bad (invalid_setting name)
  in_range (pos n) minimum maximum name =
      if within minimum n maximum then good n else bad (invalid_setting name)

  unfoldable pub integer : String → ℕ → ℕ → ℕ → Read ℕ
  integer name default minimum maximum = do
    value ← present (integer_value (env.variable name) default) (invalid_setting name)
    in_range value minimum maximum name

  unfoldable pub checked_url : String → String → Bool → Bool → Read String
  checked_url value name allow_http allow_cluster_http = do
    url ← present (env.urlparse value) malformed_value
    demand (allowed_scheme allow_http allow_cluster_http url) name
    demand (not (is_absent url.hostname || (url.has_credentials || url.has_fragment))) name
    good (strip_right (λ c. nat_eq c b'/') value)

  unfoldable pub checked_urls : List String → Bool → Read (List String)
  checked_urls [] allow_http = good []
  checked_urls (value ∷ rest) allow_http = do
    url ← checked_url value "ACTIVE_HEALTH_URLS" allow_http false
    others ← checked_urls rest allow_http
    good (url ∷ others)
