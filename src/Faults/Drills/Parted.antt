-- ===== src/Faults/Drills/Parted.antt =====
-- fault-control/fault_control.py, `Controller._rpc_disagreement`: what its start did that returned.
use zkdeal_cloud_deployer_in.Faults.Model.{Surroundings, World}
use zkdeal_cloud_deployer_in.Base.Machine.Ran.{Ran}
use zkdeal_cloud_deployer_in.Base.{String, false, none, ℕ, ◌+◌, ◌==◌, ◌≡◌}
use zkdeal_cloud_deployer_in.Base.Json.{Json, get, nil, str}
use zkdeal_cloud_deployer_in.Base.Outcome.{ok}
use zkdeal_cloud_deployer_in.Faults.Journal.{Results}
use zkdeal_cloud_deployer_in.Faults.Topology.{Topology}
use zkdeal_cloud_deployer_in.Faults.Drills.{salt}
use zkdeal_cloud_deployer_in.Faults.Rpc.{block_hash, mine, rpc_json}

module _ (env : Surroundings) (binding_digest : String) (topology : Topology)
    (operation_id : String) where
  -- A disagreement that was started from the world `w` to the world `after`, step by step.
  pub record Disagreeing (w after : World) (results : Results) : Type 0 where
    pub snapshot_a : Json
    pub snapshot_b : Json
    pub after_a : World
    pub after_b : World
    pub took_a : Ran (rpc_json env topology.rpc_a "evm_snapshot" nil 300) w snapshot_a after_a
    pub took_b : Ran (rpc_json env topology.rpc_b "evm_snapshot" nil 301) after_a snapshot_b after_b
    -- what the providers answer first
    pub agreed : String
    pub asked_a : World
    pub asked_b : World
    pub before_a : Ran (block_hash env topology.rpc_a 302) after_b agreed asked_a
    pub before_b : Ran (block_hash env topology.rpc_b 303) asked_a agreed asked_b
    -- each mines a block with a fee of its own
    pub number : ℕ
    pub salted : salt operation_id ≡ ok number
    pub one_mined : World
    pub both_mined : World
    pub mined_a : Ran (mine env topology.rpc_a 1 (3000 + number) 310 none) asked_b tt one_mined
    pub mined_b : Ran (mine env topology.rpc_b 1 (9000 + number) 320 none) one_mined tt both_mined
    -- what they answer then
    pub hash_a : String
    pub hash_b : String
    pub asked : World
    pub answered_a : Ran (block_hash env topology.rpc_a 330) both_mined hash_a asked
    pub answered_b : Ran (block_hash env topology.rpc_b 331) asked hash_b after
    pub differ : (hash_a == hash_b) ≡ false
    -- what is reported, and kept for the way back
    pub phase : get results.0 "phase" ≡ str "DISAGREEING"
    pub reported_before_a : get results.0 "agreedBeforeA" ≡ str agreed
    pub reported_before_b : get results.0 "agreedBeforeB" ≡ str agreed
    pub reported_a : get results.0 "disagreeA" ≡ str hash_a
    pub reported_b : get results.0 "disagreeB" ≡ str hash_b
    pub kept_a : get results.1 "snapshotA" ≡ snapshot_a
    pub kept_b : get results.1 "snapshotB" ≡ snapshot_b
