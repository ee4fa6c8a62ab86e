-- ===== src/Faults/Startup/Confined.antt =====
-- fault-control/fault_control.py: the containers that a controller reaches which `build_controller` made.
use zkdeal_cloud_deployer_in.Faults.Model.{
  DockerRequest, History, HttpRequest, Surroundings, World, created, docker_asked, looked_at_clock,
  sent,
}
use zkdeal_cloud_deployer_in.Base.{Option, String, [], false, none, some, true, ◌∷◌, ◌≡◌}
use zkdeal_cloud_deployer_in.Base.Json.{Fields, bool, dict, str}
use zkdeal_cloud_deployer_in.Base.Outcome.{ok}
use zkdeal_cloud_deployer_in.Faults.Documents.{is_container_name}
use zkdeal_cloud_deployer_in.Faults.Topology.{Topology}
use zkdeal_cloud_deployer_in.Faults.Docker.{container_path, network_path}
use zkdeal_cloud_deployer_in.Faults.Drills.Reviewed.{
  Reviewed, on_network, on_target, own_clock, own_record, to_docker, to_provider,
}
use zkdeal_cloud_deployer_in.Faults.Controller.{Controller, execute_fault}
use zkdeal_cloud_deployer_in.Faults.Controller.Containment.{
  Since, execute_fault-Since, grown, nothing,
}
use zkdeal_cloud_deployer_in.Faults.Startup.Targets.{is_within}
use zkdeal_cloud_deployer_in.Faults.Startup.Isolated.{Isolated}
use zkdeal_cloud_deployer_in.Faults.Startup.Building.{build_controller, build_controller-Isolated}
use zkdeal_cloud_deployer_in.Faults.Startup.{Disk}

-- A request about one container with the prefix, and perhaps a network with it.
pub data Confined (env : Surroundings) (prefix : String) : DockerRequest → Type 0 where
  verb_on :
      (container action arguments : String)
      → is_within prefix container ≡ true
      → Confined env prefix
          (record { path = container_path env container action arguments; body = none })
  network_with :
      (network endpoint container : String)
      → is_within prefix network ≡ true
      → is_within prefix container ≡ true
      → Confined env prefix (record {
        path = network_path env network endpoint;
        body = some (dict (("Container", str container) ∷ ("Force", bool false) ∷ []));
      })

-- The histories that grow out of one by confined requests to the daemon and by other events.
pub data DockerConfined (env : Surroundings) (prefix : String) (before : History)
    : History → Type 0 where
  unchanged : DockerConfined env prefix before before
  asked_docker :
      (request : DockerRequest) (history : History)
      → Confined env prefix request
      → DockerConfined env prefix before history
      → DockerConfined env prefix before (docker_asked request ∷ history)
  sent_request :
      (request : HttpRequest) (history : History)
      → DockerConfined env prefix before history
      → DockerConfined env prefix before (sent request ∷ history)
  wrote_record :
      (name : String) (history : History)
      → DockerConfined env prefix before history
      → DockerConfined env prefix before (created name ∷ history)
  read_clock :
      (history : History)
      → DockerConfined env prefix before history
      → DockerConfined env prefix before (looked_at_clock ∷ history)

module _ (env : Surroundings) (topology : Topology) (isolated : Isolated topology) where
  Reviewed-Confined :
      (request : DockerRequest)
      → Reviewed env topology request
      → Confined env isolated.reach.prefix request
  Reviewed-Confined _ (on_target container action spec (alias, found) known) =
      verb_on container action _ (isolated.reach.target_within alias container found)
  Reviewed-Confined _ (on_network network endpoint container known one (alias, found)) =
      network_with network endpoint container (isolated.reach.network_within network known)
        (isolated.reach.target_within alias container found)

  Since-DockerConfined :
      (before after : History)
      → Since env topology before after
      → DockerConfined env isolated.reach.prefix before after
  Since-DockerConfined before _ nothing = unchanged
  Since-DockerConfined before _ (grown _ history (to_provider base_url body provider) since) =
      sent_request _ history (Since-DockerConfined before history since)
  Since-DockerConfined before _ (grown _ history (to_docker request reviewed) since) =
      asked_docker request history (Reviewed-Confined request reviewed)
        (Since-DockerConfined before history since)
  Since-DockerConfined before _ (grown _ history (own_record name) since) =
      wrote_record name history (Since-DockerConfined before history since)
  Since-DockerConfined before _ (grown _ history own_clock since) =
      read_clock history (Since-DockerConfined before history since)

-- For a controller that was built from an environment there is one prefix, the name of a container, such
-- that whatever any fault request says, in any surroundings and world, every request to the Docker daemon
-- that it adds to the history is about one container with that prefix, and about no network without it.
pub build_controller-DockerConfined :
    (disk : Disk) (digest : Fields → String) (variable : String → Option String)
    (controller : Controller)
    → build_controller disk digest variable ≡ ok controller
    → (prefix : String) × (is_container_name prefix ≡ true)
      × ((env : Surroundings) (body : Fields) (key correlation_id : String) (w : World)
          → DockerConfined env prefix w.history
              (execute_fault env controller body key correlation_id w).1.history)
build_controller-DockerConfined disk digest variable controller built =
    let isolated = (build_controller-Isolated disk digest variable controller built).0 in
    (
      isolated.reach.prefix,
      isolated.reach.prefix_named,
      λ env body key correlation_id w.
          Since-DockerConfined env controller.topology isolated w.history _
            (execute_fault-Since env controller body key correlation_id w),
    )
