-- ===== src/Faults/Requests.antt =====
-- fault-control/fault_control.py, `Controller._fault_callback`: what a fault request may say. A `Drill`
-- stands for the callback that it returns.
pub mod Reading
pub mod Reviewed
use zkdeal_cloud_deployer_in.Base.Outcome.{check, err, ok, some_or, ◌>>=◌, ◌>>◌}
use zkdeal_cloud_deployer_in.Faults.Model.{Result, control_error, invalid_request}
use zkdeal_cloud_deployer_in.Base.{List, String, [], if◌then◌else◌, ℕ, ◌&&◌, ◌==◌, ◌∷◌}
use zkdeal_cloud_deployer_in.Base.Json.{Fields, Json, eq_one, get, null, str}
use zkdeal_cloud_deployer_in.Faults.Documents.{as_fields, as_text, bounded_int, exact_keys, text_in}
use zkdeal_cloud_deployer_in.Faults.Topology.{container_of}
use zkdeal_cloud_deployer_in.Base.Lists.{contains}

pub data Drill : Type 0 where
  reorg_prepare : ℕ → Drill
  reorg_replace : ℕ → String → Drill
  disagreement_start : Drill
  disagreement_restore : String → Drill
  on_container : String → String → String → Drill
  rollback : Json → Drill
  partition : String → Drill

-- `ALLOWED_RESTART_TARGETS`
abbrev pub allowed_restart_targets : List String
allowed_restart_targets =
    "coordinator-active" ∷ "coordinator-standby" ∷ "indexer" ∷ "reconciler" ∷ "publisher"
    ∷ "headless-node" ∷ "prover" ∷ "prover-agent" ∷ "postgres-primary" ∷ "postgres-standby"
    ∷ "minio" ∷ "front-door" ∷ "rpc-a" ∷ "rpc-b" ∷ []

-- `ALLOWED_PAUSE_TARGETS`
abbrev pub allowed_pause_targets : List String
allowed_pause_targets =
    "coordinator-active" ∷ "indexer" ∷ "reconciler" ∷ "publisher" ∷ "headless-node" ∷ "prover"
    ∷ "prover-agent" ∷ []

-- `capabilities()["faultActions"]`
abbrev pub fault_actions : List String
fault_actions =
    "l1-reorg" ∷ "rpc-disagreement" ∷ "rpc-provider-control" ∷ "coordinator-terminate"
    ∷ "service-pause" ∷ "headless-restart" ∷ "prover-restart" ∷ "indexer-rollback"
    ∷ "object-store-restart" ∷ "database-restart" ∷ "network-partition" ∷ "sse-disconnect" ∷ []

-- `restart_map`
abbrev pub restart_map : List (String × String)
restart_map =
    ("headless-restart", "headless-node")
    ∷ ("prover-restart", "prover")
    ∷ ("object-store-restart", "minio")
    ∷ ("database-restart", "postgres-primary")
    ∷ ("sse-disconnect", "front-door")
    ∷ []

-- `if value not in {…}: raise ControlError(…)`
abbrev pub one_of : Json → List String → Result String
one_of value allowed = text_in invalid_request value allowed

-- A phase that takes no earlier operation, and one that takes the id of one.
unfoldable pub phase_drill : String → String → Json → Drill → (String → Drill) → Result Drill
phase_drill phase first null begin later = if phase == first then ok begin else err invalid_request
phase_drill phase first (str prepared) begin later =
    if phase == first then err invalid_request else ok (later prepared)
phase_drill phase first other begin later = err invalid_request

module _ (parameters : Fields) where
  unfoldable pub reorg_drill : Result Drill
  unfolding text_in bounded_int phase_drill
  reorg_drill = do
    exact_keys parameters ("phase" ∷ "depth" ∷ "preparedOperationId" ∷ [])
    phase ← one_of (get parameters "phase") ("prepare" ∷ "replace" ∷ [])
    depth ← bounded_int (get parameters "depth") 1 64
    phase_drill phase "prepare" (get parameters "preparedOperationId") (reorg_prepare depth)
        (reorg_replace depth)

  unfoldable pub disagreement_drill : Result Drill
  unfolding text_in phase_drill
  disagreement_drill = do
    exact_keys parameters ("phase" ∷ "preparedOperationId" ∷ [])
    phase ← one_of (get parameters "phase") ("start" ∷ "restore" ∷ [])
    phase_drill phase "start" (get parameters "preparedOperationId") disagreement_start
        disagreement_restore

  -- A container and a verb, both from closed lists.
  unfoldable pub container_drill : String → String → List String → List String → Result Drill
  unfolding text_in
  container_drill action name targets phases = do
    exact_keys parameters (name ∷ "phase" ∷ [])
    target ← one_of (get parameters name) targets
    phase ← one_of (get parameters "phase") phases
    ok (on_container target phase action)

  unfoldable pub rollback_drill : Result Drill
  rollback_drill = do
    exact_keys parameters ("preparedOperationId" ∷ [])
    ok (rollback (get parameters "preparedOperationId"))

  unfoldable pub partition_drill : Result Drill
  unfolding text_in
  partition_drill = do
    exact_keys parameters ("phase" ∷ [])
    phase ← one_of (get parameters "phase") ("start" ∷ "restore" ∷ [])
    ok (partition phase)

  unfoldable pub restart_drill : String → Result Drill
  unfolding some_or container_of
  restart_drill action = do
    exact_keys parameters []
    target ← some_or (container_of action restart_map) (control_error 503 "CONTROL_DISABLED")
    ok (on_container target "restart" action)

  unfoldable pub terminate_drill : String → Result Drill
  terminate_drill action = do
    exact_keys parameters []
    ok (on_container "coordinator-active" "stop" action)

  -- `_fault_callback`
  unfoldable pub fault_drill : String → Result Drill
  unfolding reorg_drill disagreement_drill container_drill rollback_drill partition_drill
      restart_drill terminate_drill
  fault_drill action =
      if action == "l1-reorg"
      then reorg_drill
      else if action == "rpc-disagreement"
      then disagreement_drill
      else if action == "rpc-provider-control"
      then container_drill action "provider" ("rpc-a" ∷ "rpc-b" ∷ []) ("stop" ∷ "start" ∷ [])
      else if action == "service-pause"
      then container_drill action "target" allowed_pause_targets ("pause" ∷ "unpause" ∷ [])
      else if action == "coordinator-terminate"
      then terminate_drill action
      else if action == "indexer-rollback"
      then rollback_drill
      else if action == "network-partition"
      then partition_drill
      else restart_drill action

-- The checks that `execute` makes of a fault request, and its drill.
unfoldable pub checked_drill : Fields → Result (String × Drill)
unfolding fault_drill as_text as_fields
checked_drill body = do
  exact_keys body ("schemaVersion" ∷ "binding" ∷ "action" ∷ "parameters" ∷ [])
  action ← as_text (get body "action") invalid_request
  check (eq_one (get body "schemaVersion") && contains fault_actions action) invalid_request
  parameters ← as_fields (get body "parameters") invalid_request
  drill ← fault_drill parameters action
  ok (action, drill)
