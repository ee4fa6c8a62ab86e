-- ===== src/Faults/Drills/Reviewed.antt =====
-- fault-control/fault_control.py: what the drills of `Controller` may ask, and of whom.
use zkdeal_cloud_deployer_in.Faults.Model.{
  DockerRequest, Event, Surroundings, World, created, docker_asked, looked_at_clock, sent,
}
use zkdeal_cloud_deployer_in.Base.{
  Bool, List, Option, String, [], false, none, some, ℕ, ◌∷◌, ◌≡◌, ◌⊎◌,
}
use zkdeal_cloud_deployer_in.Base.Json.{Fields, bool, dict, str}
use zkdeal_cloud_deployer_in.Base.Decimal.{concat}
use zkdeal_cloud_deployer_in.Faults.Topology.{Topology, container_of}
use zkdeal_cloud_deployer_in.Faults.Docker.{container_path, network_path, query, spec_of}
use zkdeal_cloud_deployer_in.Faults.Drills.{container}

-- One of the two providers.
abbrev pub IsProvider : Topology → String → Type 0
IsProvider topology base_url = (base_url ≡ topology.rpc_a) ⊎ (base_url ≡ topology.rpc_b)

-- A container that the topology gives a logical name.
abbrev pub IsTarget : Topology → String → Type 0
IsTarget topology container =
    (alias : String) × (container_of alias topology.restart_targets ≡ some container)

abbrev pub IsEndpoint : String → Type 0
IsEndpoint endpoint = (endpoint ≡ "disconnect") ⊎ (endpoint ≡ "connect")

-- The requests to the daemon that are reviewed: a verb of the closed list on a container of the
-- topology, or the partition's network and one container.
pub data Reviewed (env : Surroundings) (topology : Topology) : DockerRequest → Type 0 where
  on_target :
      (container action : String) (spec : List ℕ × Bool)
      → IsTarget topology container
      → spec_of action ≡ some spec
      → Reviewed env topology (record {
        path =
            container_path env container action (query env spec.1 topology.request_timeout_seconds);
        body = none;
      })
  on_network :
      (network endpoint container : String)
      → topology.partition_network ≡ some network
      → IsEndpoint endpoint
      → IsTarget topology container
      → Reviewed env topology (record {
        path = network_path env network endpoint;
        body = some (dict (("Container", str container) ∷ ("Force", bool false) ∷ []));
      })

-- A POST to the root of a provider, without a token.
pub data Contained (env : Surroundings) (topology : Topology) : Event → Type 0 where
  to_provider :
      (base_url : String) (body : Option Fields)
      → IsProvider topology base_url
      → Contained env topology (
          sent (record {
            url = concat (base_url ∷ "/" ∷ []);
            method = "POST";
            body = body;
            token = none;
          }))
  to_docker :
      (request : DockerRequest)
      → Reviewed env topology request
      → Contained env topology (docker_asked request)
  own_record : (name : String) → Contained env topology (created name)
  own_clock : Contained env topology looked_at_clock

-- What may be asked keeps `P`.
abbrev pub Indifferent : Surroundings → Topology → (World → Type 0) → Type 0
Indifferent env topology P =
    (event : Event)
    → Contained env topology event
    → (w : World) → P w
    → P (record w { history = event ∷ w.history })
