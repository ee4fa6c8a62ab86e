-- ===== src/Faults/Drills/Outcomes.antt =====
-- fault-control/fault_control.py, `Controller._reorg`: what the replacement of a branch did that returned.
use zkdeal_cloud_deployer_in.Faults.Model.{Surroundings, World, document, find}
use zkdeal_cloud_deployer_in.Base.Machine.Ran.{Ran}
use zkdeal_cloud_deployer_in.Base.{String, false, some, true, ℕ, ◌+◌, ◌==◌, ◌≡◌}
use zkdeal_cloud_deployer_in.Base.Json.{Fields, get, num, obj, str}
use zkdeal_cloud_deployer_in.Base.Outcome.{ok}
use zkdeal_cloud_deployer_in.Faults.Journal.{Results, closure_name}
use zkdeal_cloud_deployer_in.Faults.Topology.{Topology}
use zkdeal_cloud_deployer_in.Faults.Drills.{eq_number, revert, salt}
use zkdeal_cloud_deployer_in.Faults.Drills.Reorg.{mine_both, previous_hash}
use zkdeal_cloud_deployer_in.Faults.Rpc.{Block, block, block_hash}

module _ (env : Surroundings) (binding_digest : String) (topology : Topology)
    (operation_id : String) where
  -- A reorg that was made from the world `w` to the world `after`, step by step.
  pub record Replaced (depth : ℕ) (prepared : String) (w after : World) (results : Results)
      : Type 0 where
    -- what the prepared operation left
    pub closed : Fields
    pub private : Fields
    pub found : find (closure_name prepared) w.files ≡ some (document closed)
    pub private_result : get closed "privateResult" ≡ obj private
    pub same_depth : eq_number (get private "depth") depth ≡ true
    pub previous : String
    pub prepared_hash : previous_hash env binding_digest topology operation_id private ≡ ok previous
    -- what is done to the providers
    pub latest : Block
    pub number : ℕ
    pub salted : salt operation_id ≡ ok number
    pub back_a : World
    pub back_b : World
    pub seen : World
    pub mined : World
    pub asked : World
    pub reverted_a :
        Ran
          (revert env binding_digest topology topology.rpc_a (get private "snapshotA") 110)
          w
          tt
          back_a
    pub reverted_b :
        Ran
          (revert env binding_digest topology topology.rpc_b (get private "snapshotB") 111)
          back_a
          tt
          back_b
    pub latest_a : Ran (block env topology.rpc_a 112) back_b latest seen
    pub mined_both :
        Ran
          (mine_both env binding_digest topology operation_id depth
            (2000000 + number)
            (latest.timestamp + 1)
            120
            160)
          seen
          tt
          mined
    -- what they answer then
    pub canonical : String
    pub answered_a : Ran (block_hash env topology.rpc_a 200) mined canonical asked
    pub answered_b : Ran (block_hash env topology.rpc_b 201) asked canonical after
    pub changed : (canonical == previous) ≡ false
    -- what is reported
    pub phase : get results.0 "phase" ≡ str "REPLACED"
    pub rollback_depth : get results.0 "rollbackDepth" ≡ num depth
    pub reported : get results.0 "canonicalBlockHash" ≡ str canonical
    pub reported_previous : get results.0 "previousBlockHash" ≡ str previous
