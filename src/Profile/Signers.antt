-- ===== src/Profile/Signers.antt =====
-- scripts/common.py, `validate_profile`: the isolation of the production signer roles.
use zkdeal_cloud_deployer_in.Base.{
  Bool, List, Option, String, [], false, if◌then◌else◌, nat_eq, none, not, some, true, ◌&&◌, ◌++◌,
  ◌∷◌,
}
use zkdeal_cloud_deployer_in.Base.Lists.{contains, length, subset}
use zkdeal_cloud_deployer_in.Base.Text.{begins, codes}
use zkdeal_cloud_deployer_in.Base.Json.{Fields, Json, get, obj, str, truthy}
use zkdeal_cloud_deployer_in.Profile.Model.{
  Problem, flag, no_signer_roles, role_address, role_disabled, role_not_isolated, section,
  shared_endpoint, texts,
}

-- `PRODUCTION_SIGNER_BOUNDARIES`
abbrev pub boundaries : List (String × List String)
boundaries =
    ("liveness", "coordinator-active" ∷ [])
    ∷ ("operationsSettlement", "coordinator-active" ∷ [])
    ∷ ("payout", "provider-payout" ∷ [])
    ∷ ("finalityOracle", "finality-oracle" ∷ [])
    ∷ ("sponsorRelayer", "sponsorship" ∷ [])
    ∷ ("withdrawalRelayer", "auto-claimer" ∷ [])
    ∷ []

-- The address of a role, if it is one over HTTPS.
abbrev pub https_address : Json → Option String
https_address (str s) = if begins (codes "https://") (codes s) then some s else none
https_address other = none

-- `set(allowed) == required`
abbrev pub same_set : List String → List String → Bool
same_set left right = subset left right && subset right left

-- What one role adds to the errors, and its address if it has one.
abbrev pub address_problems : String → Option String → List Problem
address_problems name none = role_address name ∷ []
address_problems name (some s) = []

abbrev pub add_address : Option String → List String → List String
add_address none rest = rest
add_address (some s) rest = s ∷ rest

abbrev pub enabled_role : Json → Bool
enabled_role (obj fields) = truthy (get fields "enabled")
enabled_role other = false

unfoldable pub role_problems : Bool → String → List String → Fields → List Problem
role_problems false name required role = role_disabled name ∷ []
role_problems true name required role =
    address_problems name (https_address (get role "address"))
    ++ flag (not (same_set (texts (get role "allowedServices")) required)) (role_not_isolated name)

unfoldable pub role_address_of : Bool → Fields → Option String
role_address_of false role = none
role_address_of true role = https_address (get role "address")

-- The loop over the boundaries: its errors, and the addresses that it collects.
unfoldable pub boundary_problems : Fields → List (String × List String) → List Problem
unfolding role_problems
boundary_problems roles [] = []
boundary_problems roles ((name, required) ∷ rest) =
    role_problems (enabled_role (get roles name)) name required (section roles name)
    ++ boundary_problems roles rest

unfoldable pub addresses : Fields → List (String × List String) → List String
unfolding role_address_of
addresses roles [] = []
addresses roles ((name, required) ∷ rest) =
    add_address (role_address_of (enabled_role (get roles name)) (section roles name))
      (addresses roles rest)

-- `set(values)`: each value once, where it stands last
abbrev pub as_set : List String → List String
as_set [] = []
as_set (s ∷ rest) = let others = as_set rest in if contains rest s then others else s ∷ others

unfoldable pub signer_problems : Json → List Problem
unfolding boundary_problems addresses
signer_problems (obj roles) =
    boundary_problems roles boundaries
    ++ flag
        (not (
          nat_eq (length (addresses roles boundaries))
            (length (as_set (addresses roles boundaries)))))
        shared_endpoint
signer_problems other = no_signer_roles ∷ []
