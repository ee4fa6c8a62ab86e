-- ===== src/Faults/Drills.antt =====
-- fault-control/fault_control.py: what each drill of `Controller` does once its intent is written.
pub mod Disagreement
pub mod Reorg
pub mod Runs
pub mod Outcomes
pub mod Parted
pub mod Branches
pub mod Reviewed
pub mod Targets
use zkdeal_cloud_deployer_in.Faults.Model.{
  Action, Fault, Result, Surroundings, control_error, invalid_request, unexpected,
}
use zkdeal_cloud_deployer_in.Base.Machine.{lift, or_raise, pure, require, ◌>>=◌, ◌>>◌}
use zkdeal_cloud_deployer_in.Base.{
  Bool, List, Option, String, [], false, if◌then◌else◌, leb, ltb, nat_eq, none, some, true, ℕ, ◌&&◌,
  ◌==◌, ◌∷◌,
}
use zkdeal_cloud_deployer_in.Base.Lists.{all_of, length}
use zkdeal_cloud_deployer_in.Base.Text.{codes, hex_value_from, is_hex}
use zkdeal_cloud_deployer_in.Base.Json.{
  Fields, Items, Json, arr, bool, dict, eq_str, float, get, int, is_true, item, names, nil, pos,
  put, str,
}
use zkdeal_cloud_deployer_in.Base.Decimal.{concat, decimal}
use zkdeal_cloud_deployer_in.Base.Hexadecimal.{last_codes}
use zkdeal_cloud_deployer_in.Base.Outcome.{err, ok}
use zkdeal_cloud_deployer_in.Faults.Documents.{as_fields, is_operation_id}
use zkdeal_cloud_deployer_in.Faults.Journal.{Results, closure, closure_name, read_record}
use zkdeal_cloud_deployer_in.Faults.Topology.{Topology, container_of, is_given}
use zkdeal_cloud_deployer_in.Faults.Rpc.{block_hash, rpc_failed, rpc_json}
use zkdeal_cloud_deployer_in.Faults.Docker.{
  docker_container_action, docker_network_action, docker_restart,
}

-- `int(operation_id[-6:], 16)`; an operation id ends in the hexadecimal digits of a digest.
unfoldable pub salt : String → Result ℕ
unfolding is_hex
salt operation_id =
    let digits = last_codes 6 operation_id in
    if all_of is_hex digits && ltb 0 (length digits)
    then ok (hex_value_from 0 digits)
    else err unexpected

-- `isinstance(snapshot, str) and len(snapshot) <= 128`
unfoldable pub is_snapshot : Json → Bool
is_snapshot (str text) = leb (length (codes text)) 128
is_snapshot other = false

-- `value == number`, with Python's numbers that equal it
unfoldable pub eq_number : Json → ℕ → Bool
unfolding decimal
eq_number (int (pos n)) number = nat_eq n number
eq_number (bool b) number = nat_eq (if b then 1 else 0) number
eq_number (float text) number = text == concat (decimal number ∷ ".0" ∷ [])
eq_number other number = false

abbrev pub precondition_failed : Fault
precondition_failed = control_error 409 "PRECONDITION_FAILED"

abbrev pub control_disabled : Fault
control_disabled = control_error 503 "CONTROL_DISABLED"

-- `str(prepared)` where it may be an operation id: the texts of other values begin with no `fc-`.
abbrev pub prepared_text : Json → String
prepared_text (str text) = text
prepared_text other = ""

-- `[value, *later]`, where a value that is missing raises a `KeyError`
unfoldable pub or_missing : Option String → Result (List String) → Result (List String)
or_missing none later = err unexpected
or_missing (some name) (ok names) = ok (name ∷ names)
or_missing (some name) (err fault) = err fault

abbrev pub texts : List String → Items
texts [] = nil
texts (text ∷ rest) = item (str text) (texts rest)

module _ (env : Surroundings) (binding_digest : String) (topology : Topology) where
  -- `Controller._prior_closure`
  unfoldable pub prior_closure : String → String → Action Fields
  prior_closure operation_id expected_action = do
    require (is_operation_id operation_id) invalid_request
    closure ← read_record (closure_name operation_id)
    require
        (eq_str (get closure "action") expected_action
          && eq_str (get closure "bindingDigest") binding_digest)
        (control_error 409 "CANDIDATE_BINDING_MISMATCH")
    pure closure

  -- `rpc_json(base, "evm_revert", [snapshot], …) is not True`
  unfoldable pub revert : String → Json → ℕ → Action (Unit {0})
  revert base_url snapshot request_id = do
    reverted ← rpc_json env base_url "evm_revert" (item snapshot nil) request_id
    require (is_true reverted) rpc_failed

  -- The hash of the latest block, on which both providers have to agree.
  unfoldable pub agreed_hash : ℕ → ℕ → Fault → Action String
  agreed_hash id_a id_b fault = do
    a ← block_hash env topology.rpc_a id_a
    b ← block_hash env topology.rpc_b id_b
    require (a == b) fault
    pure a

  module _ (operation_id : String) where
    -- `Controller._restart`
    unfoldable pub restart : String → Action Results
    restart target = do
      require (is_given topology.docker_socket) control_disabled
      container ← or_raise (container_of target topology.restart_targets) unexpected
      docker_restart env container topology.request_timeout_seconds
      pure (
        dict (
            ("restarted", bool true)
            ∷ ("target", str target)
            ∷ ("candidateId", str topology.candidate_id)
            ∷ (
              "restartReceipt",
              str (
                  env.digest
                    (dict (("operationId", str operation_id) ∷ ("target", str target) ∷ []))),
            )
            ∷ []),
        dict [],
      )

    -- `Controller._container`
    unfoldable pub container : String → String → String → Action Results
    container target docker_action fault_action = do
      require (is_given topology.docker_socket) control_disabled
      name ← or_raise (container_of target topology.restart_targets) control_disabled
      docker_container_action env name docker_action topology.request_timeout_seconds
      pure (
        dict (
            ("action", str fault_action)
            ∷ ("applied", bool true)
            ∷ ("logicalTarget", str target)
            ∷ ("dockerAction", str docker_action)
            ∷ ("containerId", str name)
            ∷ ("candidateId", str topology.candidate_id)
            ∷ (
              "platformReceipt",
              str (
                  env.digest (
                    dict (
                      ("operationId", str operation_id)
                      ∷ ("action", str fault_action)
                      ∷ ("dockerAction", str docker_action)
                      ∷ ("logicalTarget", str target)
                      ∷ ("containerId", str name)
                      ∷ []))),
            )
            ∷ []),
        dict [],
      )

    -- `Controller._indexer_rollback`
    unfoldable pub indexer_rollback : Json → Action Results
    indexer_rollback prepared = do
      closure ← prior_closure (prepared_text prepared) "fault:l1-reorg"
      public ← lift (as_fields (get closure "publicResult") precondition_failed)
      require (eq_str (get public "phase") "REPLACED") precondition_failed
      results ← container "indexer" "restart" "indexer-rollback"
      pure (
        put (put results.0 "rollbackApplied" (bool true)) "rollbackDepth"
            (get public "rollbackDepth"),
        results.1,
      )

    -- `[restart_targets[alias] for alias in partition_targets]`
    unfoldable pub containers_of : List String → Result (List String)
    unfolding container_of or_missing
    containers_of [] = ok []
    containers_of (alias ∷ rest) =
        or_missing (container_of alias topology.restart_targets) (containers_of rest)

    -- `Controller._network_partition`
    unfoldable pub network_partition : String → Action Results
    unfolding containers_of
    network_partition phase = do
      require
          (is_given topology.docker_socket
            && is_given topology.partition_network
            && ltb 0 (length topology.partition_targets))
          control_disabled
      containers ← lift (containers_of topology.partition_targets)
      network ← or_raise topology.partition_network control_disabled
      docker_network_action env network containers phase
      pure (
        dict (
            ("action", str "network-partition")
            ∷ ("phase", str (if phase == "start" then "PARTITIONED" else "RESTORED"))
            ∷ ("logicalTargets", arr (texts topology.partition_targets))
            ∷ ("candidateId", str topology.candidate_id)
            ∷ (
              "platformReceipt",
              str (
                  env.digest (
                    dict (
                      ("operationId", str operation_id)
                      ∷ ("phase", str phase)
                      ∷ ("logicalTargets", arr (texts topology.partition_targets))
                      ∷ []))),
            )
            ∷ []),
        dict [],
      )
