-- ===== src/Faults/Docker.antt =====
-- fault-control/fault_control.py: the requests to the Docker daemon, each on one container or network.
pub mod Grace
use zkdeal_cloud_deployer_in.Faults.Model.{
  Action, DockerReply, DockerRequest, Result, Surroundings, answered, control_error, docker_asked,
  invalid_request, socket_error,
}
use zkdeal_cloud_deployer_in.Base.Machine.{lift, or_raise, pure, require, ◌>>=◌, ◌>>◌}
use zkdeal_cloud_deployer_in.Base.{
  Bool, List, Option, String, [], false, if◌then◌else◌, leb, max, min, nat_eq, none, some, true, ℕ,
  ◌&&◌, ◌*◌, ◌-◌, ◌/◌, ◌==◌, ◌||◌, ◌∷◌,
}
use zkdeal_cloud_deployer_in.Base.Lists.{any_of}
use zkdeal_cloud_deployer_in.Base.Json.{Fields, bool, dict, str}
use zkdeal_cloud_deployer_in.Base.Decimal.{concat, decimal}
use zkdeal_cloud_deployer_in.Base.Outcome.{check, err, ok}

-- Where Python's `timeout - 5` is negative, the other side of `max` is taken, as with 0 here.
unfoldable pub stop_grace_seconds : ℕ → ℕ
stop_grace_seconds timeout = max 1 (min (timeout - 5) (timeout / 2))

-- `DOCKER_CONTAINER_ACTIONS.get(action)`: the statuses that are accepted, and whether there is a grace.
unfoldable pub spec_of : String → Option (List ℕ × Bool)
spec_of action =
    if action == "restart"
    then some (204 ∷ [], true)
    else if action == "stop"
    then some (204 ∷ 304 ∷ [], true)
    else if action == "start"
    then some (204 ∷ 304 ∷ [], false)
    else if action == "pause"
    then some (204 ∷ [], false)
    else if action == "unpause"
    then some (204 ∷ [], false)
    else none

unfoldable pub docker_result : List ℕ → String → DockerReply → Result (Unit {0})
docker_result accepted code socket_error = err (control_error 502 code)
docker_result accepted code (answered status size) =
    check (any_of (nat_eq status) accepted && leb size (1024 * 1024)) (control_error 502 code)

module _ (env : Surroundings) where
  unfoldable pub request_docker : DockerRequest → Action DockerReply
  request_docker request w =
      (ok (env.docker w.history request), record w { history = docker_asked request ∷ w.history })

  abbrev pub ask_docker : String → Option Fields → Action DockerReply
  ask_docker path body = request_docker (record { path = path; body = body })

  unfoldable pub query : Bool → ℕ → String
  unfolding stop_grace_seconds decimal
  query false timeout = ""
  query true timeout = concat ("?t=" ∷ decimal (stop_grace_seconds timeout) ∷ [])

  abbrev pub container_path : String → String → String → String
  container_path container action arguments =
      concat ("/containers/" ∷ env.quote container ∷ "/" ∷ action ∷ arguments ∷ [])

  -- `docker_restart`
  unfoldable pub docker_restart : String → ℕ → Action (Unit {0})
  unfolding query docker_result
  docker_restart container timeout = do
    answer ← ask_docker (container_path container "restart" (query true timeout)) none
    lift (docker_result (204 ∷ []) "RESTART_FAILED" answer)

  -- `docker_container_action`
  unfoldable pub docker_container_action : String → String → ℕ → Action (Unit {0})
  unfolding spec_of query docker_result
  docker_container_action container action timeout = do
    spec ← or_raise (spec_of action) (control_error 500 "INTERNAL_ERROR")
    answer ← ask_docker (container_path container action (query spec.1 timeout)) none
    lift (docker_result spec.0 "CONTAINER_ACTION_FAILED" answer)

  abbrev pub network_path : String → String → String
  network_path network endpoint = concat ("/networks/" ∷ env.quote network ∷ "/" ∷ endpoint ∷ [])

  -- `for container in containers`
  unfoldable pub each_container : String → String → List String → Action (Unit {0})
  unfolding docker_result
  each_container network endpoint [] = pure tt
  each_container network endpoint (container ∷ rest) = do
    answer ←
        ask_docker (network_path network endpoint)
          (some (dict (("Container", str container) ∷ ("Force", bool false) ∷ [])))
    lift (docker_result (200 ∷ 201 ∷ []) "NETWORK_ACTION_FAILED" answer)
    each_container network endpoint rest

  -- `docker_network_action`
  unfoldable pub docker_network_action : String → List String → String → Action (Unit {0})
  docker_network_action network containers phase = do
    require (phase == "start" || phase == "restore") invalid_request
    each_container network (if phase == "start" then "disconnect" else "connect") containers
