-- ===== src/Faults/Startup.antt =====
-- fault-control/fault_control.py: the files and addresses that the service reads when it starts. What
-- `urlsplit` and `urlunsplit` answer is given, and so are the files.
pub mod Targets
pub mod Profiles
pub mod Loading
pub mod Isolated
pub mod Building
pub mod Confined
use zkdeal_cloud_deployer_in.Base.Outcome.{check, ok, some_or, ◌>>=◌, ◌>>◌}
use zkdeal_cloud_deployer_in.Faults.Model.{Content, Result, configuration_error, unexpected}
use zkdeal_cloud_deployer_in.Base.{
  Bool, List, Option, String, [], false, if◌then◌else◌, leb, nat_eq, none, not, some, ℕ, ◌&&◌, ◌++◌,
  ◌==◌, ◌||◌, ◌∷◌,
}
use zkdeal_cloud_deployer_in.Base.Lists.{any_of, contains, length}
use zkdeal_cloud_deployer_in.Base.Text.{
  begins, codes, is_hex64, is_lower_digit, is_upper, same_codes,
}
use zkdeal_cloud_deployer_in.Base.Json.{Fields, Json}
use zkdeal_cloud_deployer_in.Faults.Documents.{as_text, prefixed_word}
use zkdeal_cloud_deployer_in.Faults.Topology.{is_given}
use zkdeal_cloud_deployer_in.Promotion.Settings.{is_space, strip}

-- A regular file that is no symbolic link: whether group or others may use it, its size, the digest of its
-- bytes, their text if they are UTF-8, and what they are as a document.
pub record File : Type 0 where
  pub exposed : Bool
  pub size : ℕ
  pub digest : String
  pub text : Option String
  pub content : Content

pub record SplitUrl : Type 0 where
  pub scheme : String
  pub netloc : String
  pub path : String
  pub query : String
  pub fragment : String
  pub hostname : Option String
  pub username : Option String
  pub password : Option String

-- `urlsplit` answers nothing where it raises a `ValueError`.
pub record Disk : Type 0 where
  pub regular : String → Option File
  pub urlsplit : String → Option SplitUrl
  pub urlunsplit : String → String → String
  pub sha256 : String → String
  pub canonical_size : Fields → ℕ

abbrev pub demand : Bool → Result (Unit {0})
demand test = check test configuration_error

-- `EPHEMERAL_TOKEN`, `^eph_[A-Za-z0-9_-]{28,120}$`
unfoldable pub is_ephemeral : String → Bool
unfolding prefixed_word is_lower_digit is_upper
is_ephemeral token =
    prefixed_word "eph_" (λ c. is_lower_digit c || is_upper c || any_of (nat_eq c) (codes "_-")) 28
      120 token

-- Whether a path has the part `..`
unfoldable pub climbs_from : List ℕ → List ℕ → Bool
climbs_from part [] = same_codes part (codes "..")
climbs_from part (c ∷ cs) =
    if nat_eq c b'/'
    then same_codes part (codes "..") || climbs_from [] cs
    else climbs_from (part ++ (c ∷ [])) cs

module _ (disk : Disk) where
  -- `read_secret` with `require_ephemeral`
  unfoldable pub read_secret : String → String → Result String
  unfolding is_ephemeral is_hex64
  read_secret path expected_hash = do
    file ← some_or (disk.regular path) configuration_error
    demand (not file.exposed)
    demand (leb file.size 4096)
    text ← some_or file.text configuration_error
    let token = strip text
    demand (leb 24 (length (codes token)) && not (any_of is_space (codes token)))
    demand (is_ephemeral token)
    demand (is_hex64 expected_hash && disk.sha256 token == expected_hash)
    ok token

  abbrev pub is_fixed : List String → SplitUrl → Bool
  is_fixed allowed_hosts url =
      contains ("http" ∷ "https" ∷ []) url.scheme
      && is_given url.hostname
      && not (is_given url.username)
      && not (is_given url.password)
      && url.query == ""
      && url.fragment == ""
      && contains ("" ∷ "/" ∷ []) url.path
      && host_in url.hostname
    where
      host_in : Option String → Bool
      host_in none = false
      host_in (some host) = contains allowed_hosts host

  -- `normalized_url`
  unfoldable pub normalized_url : Json → List String → Result String
  unfolding as_text
  normalized_url value allowed_hosts = do
    text ← as_text value configuration_error
    demand (leb (length (codes text)) 512)
    url ← some_or (disk.urlsplit text) configuration_error
    demand (is_fixed allowed_hosts url)
    ok (disk.urlunsplit url.scheme url.netloc)

  -- `safe_path`; a `ValueError` of `urlsplit` is not caught.
  unfoldable pub safe_path : Json → Result String
  unfolding as_text climbs_from
  safe_path value = do
    text ← as_text value configuration_error
    demand (
        leb (length (codes text)) 256
        && begins (codes "/") (codes text)
        && not (any_of (nat_eq b'\\') (codes text)))
    url ← some_or (disk.urlsplit text) unexpected
    demand (
        url.scheme == ""
        && url.netloc == ""
        && url.query == ""
        && url.fragment == ""
        && not (climbs_from [] (codes url.path)))
    ok url.path
