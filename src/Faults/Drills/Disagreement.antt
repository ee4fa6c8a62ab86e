-- ===== src/Faults/Drills/Disagreement.antt =====
-- fault-control/fault_control.py, `Controller._rpc_disagreement`: each provider mines a block of its own,
-- and later both go back and mine the same one.
use zkdeal_cloud_deployer_in.Faults.Drills.{precondition_failed, prior_closure, revert, salt}
use zkdeal_cloud_deployer_in.Faults.Model.{Action, Surroundings, control_error}
use zkdeal_cloud_deployer_in.Base.Machine.{lift, pure, require, ◌>>=◌, ◌>>◌}
use zkdeal_cloud_deployer_in.Base.{String, [], none, not, ◌+◌, ◌==◌, ◌∷◌}
use zkdeal_cloud_deployer_in.Base.Json.{dict, get, nil, str}
use zkdeal_cloud_deployer_in.Faults.Documents.{as_fields}
use zkdeal_cloud_deployer_in.Faults.Journal.{Results, closure}
use zkdeal_cloud_deployer_in.Faults.Topology.{Topology}
use zkdeal_cloud_deployer_in.Faults.Rpc.{block_hash, mine, rpc_failed, rpc_json}

module _ (env : Surroundings) (binding_digest : String) (topology : Topology)
    (operation_id : String) where
  -- `Controller._rpc_disagreement` for `start`
  unfoldable pub start_disagreement : Action Results
  start_disagreement = do
    snapshot_a ← rpc_json env topology.rpc_a "evm_snapshot" nil 300
    snapshot_b ← rpc_json env topology.rpc_b "evm_snapshot" nil 301
    before_a ← block_hash env topology.rpc_a 302
    before_b ← block_hash env topology.rpc_b 303
    require (before_a == before_b) precondition_failed
    number ← lift (salt operation_id)
    mine env topology.rpc_a 1 (3000 + number) 310 none
    mine env topology.rpc_b 1 (9000 + number) 320 none
    disagree_a ← block_hash env topology.rpc_a 330
    disagree_b ← block_hash env topology.rpc_b 331
    require (not (disagree_a == disagree_b)) rpc_failed
    pure (
      dict (
          ("phase", str "DISAGREEING")
          ∷ ("agreedBeforeA", str before_a)
          ∷ ("agreedBeforeB", str before_b)
          ∷ ("disagreeA", str disagree_a)
          ∷ ("disagreeB", str disagree_b)
          ∷ ("candidateId", str topology.candidate_id)
          ∷ []),
      dict (("snapshotA", snapshot_a) ∷ ("snapshotB", snapshot_b) ∷ []),
    )

  -- `Controller._rpc_disagreement` for `restore`
  unfoldable pub restore_disagreement : String → Action Results
  restore_disagreement prepared = do
    closure ← prior_closure env binding_digest topology prepared "fault:rpc-disagreement"
    private ←
        lift (as_fields (get closure "privateResult") (control_error 409 "INCOMPLETE_OPERATION"))
    revert env binding_digest topology topology.rpc_a (get private "snapshotA") 340
    revert env binding_digest topology topology.rpc_b (get private "snapshotB") 341
    number ← lift (salt operation_id)
    mine env topology.rpc_a 1 (15000 + number) 350 none
    mine env topology.rpc_b 1 (15000 + number) 360 none
    restored_a ← block_hash env topology.rpc_a 370
    restored_b ← block_hash env topology.rpc_b 371
    require (restored_a == restored_b) rpc_failed
    pure (
      dict (
          ("phase", str "RESTORED")
          ∷ ("restoredA", str restored_a)
          ∷ ("restoredB", str restored_b)
          ∷ ("candidateId", str topology.candidate_id)
          ∷ []),
      dict [],
    )
