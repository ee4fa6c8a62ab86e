-- ===== src/Faults/Topology.antt =====
-- fault-control/fault_control.py, `Topology`: the fixed targets of one candidate.
use zkdeal_cloud_deployer_in.Base.{
  Bool, List, Option, String, [], false, if◌then◌else◌, none, not, some, ℕ, ◌==◌, ◌∷◌,
}
use zkdeal_cloud_deployer_in.Base.Json.{Fields}

pub record LoadEndpoint : Type 0 where
  pub base_url : String
  pub path : String
  pub method : String
  pub body : Option Fields
  pub token : Option String

pub record Topology : Type 0 where
  pub classification : String
  pub candidate_id : String
  pub plan_sha256 : String
  pub hosted_token : String
  pub auth_token_sha256 : String
  pub allowed_hosts : List String
  pub rpc_a : String
  pub rpc_b : String
  pub docker_socket : Option String
  pub restart_targets : List (String × String)
  pub partition_network : Option String
  pub partition_targets : List String
  pub load_profiles : List (String × List LoadEndpoint)
  pub request_timeout_seconds : ℕ
  pub topology_sha256 : String

-- `Topology.binding`
abbrev pub binding : Topology → List (String × String)
binding topology =
    ("candidateId", topology.candidate_id)
    ∷ ("planSha256", topology.plan_sha256)
    ∷ ("hostedIntegrationToken", topology.hosted_token)
    ∷ []

-- `bool(value)` of a text that may be missing
abbrev pub is_given : Option String → Bool
is_given none = false
is_given (some text) = not (text == "")

-- `restart_targets.get(alias)`
unfoldable pub container_of : String → List (String × String) → Option String
container_of alias [] = none
container_of alias ((name, container) ∷ rest) =
    if name == alias then some container else container_of alias rest
