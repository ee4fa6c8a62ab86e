-- ===== src/Faults/Drills/Reorg.antt =====
-- fault-control/fault_control.py, `Controller._reorg`: both providers mine the same branch, and later
-- both go back and mine the same other one.
use zkdeal_cloud_deployer_in.Faults.Model.{Action, Result, Surroundings, control_error, unexpected}
use zkdeal_cloud_deployer_in.Base.Machine.{lift, pure, require, ◌>>=◌, ◌>>◌}
use zkdeal_cloud_deployer_in.Base.{String, [], none, not, some, ℕ, ◌&&◌, ◌+◌, ◌==◌, ◌∷◌}
use zkdeal_cloud_deployer_in.Base.Json.{Fields, dict, get, lookup, nil, num, scalar_text, str}
use zkdeal_cloud_deployer_in.Base.Outcome.{err, some_or}
use zkdeal_cloud_deployer_in.Faults.Documents.{as_fields}
use zkdeal_cloud_deployer_in.Faults.Journal.{Results, closure}
use zkdeal_cloud_deployer_in.Faults.Topology.{Topology}
use zkdeal_cloud_deployer_in.Faults.Rpc.{block, block_hash, mine, rpc_failed, rpc_json}
use zkdeal_cloud_deployer_in.Faults.Drills.{
  agreed_hash, eq_number, is_snapshot, precondition_failed, prior_closure, revert, salt,
}

module _ (env : Surroundings) (binding_digest : String) (topology : Topology)
    (operation_id : String) where
  -- The branch of the two providers, with one base fee and pinned times.
  unfoldable pub mine_both : ℕ → ℕ → ℕ → ℕ → ℕ → Action (Unit {0})
  mine_both depth base_fee timestamp id_a id_b = do
    mine env topology.rpc_a depth base_fee id_a (some timestamp)
    mine env topology.rpc_b depth base_fee id_b (some timestamp)

  -- `phase == "prepare"`
  unfoldable pub prepare_reorg : ℕ → Action Results
  prepare_reorg depth = do
    snapshot_a ← rpc_json env topology.rpc_a "evm_snapshot" nil 10
    snapshot_b ← rpc_json env topology.rpc_b "evm_snapshot" nil 11
    require (is_snapshot snapshot_a && is_snapshot snapshot_b) rpc_failed
    before_a ← block env topology.rpc_a 12
    before_b ← block env topology.rpc_b 13
    require (before_a.hash == before_b.hash) precondition_failed
    number ← lift (salt operation_id)
    mine_both depth (1000 + number) (before_a.timestamp + 1) 20 60
    previous ← agreed_hash env binding_digest topology 100 101 rpc_failed
    pure (
      dict (
          ("phase", str "PREPARED")
          ∷ ("depth", num depth)
          ∷ ("previousBlockHash", str previous)
          ∷ ("candidateId", str topology.candidate_id)
          ∷ []),
      dict (
          ("snapshotA", snapshot_a)
          ∷ ("snapshotB", snapshot_b)
          ∷ ("previousBlockHash", str previous)
          ∷ ("depth", num depth)
          ∷ []),
    )

  -- `str(private["previousBlockHash"])`, of the scalars that a closure of the service can hold there
  unfoldable pub previous_hash : Fields → Result String
  unfolding scalar_text
  previous_hash private = elim (lookup private "previousBlockHash") [
    | none ↦ err unexpected
    | some value ↦ some_or (scalar_text value) unexpected
  ]

  -- `phase == "replace"`
  unfoldable pub replace_reorg : ℕ → String → Action Results
  unfolding previous_hash
  replace_reorg depth prepared = do
    closure ← prior_closure env binding_digest topology prepared "fault:l1-reorg"
    private ←
        lift (as_fields (get closure "privateResult") (control_error 409 "IDEMPOTENCY_CONFLICT"))
    require (eq_number (get private "depth") depth) (control_error 409 "IDEMPOTENCY_CONFLICT")
    revert env binding_digest topology topology.rpc_a (get private "snapshotA") 110
    revert env binding_digest topology topology.rpc_b (get private "snapshotB") 111
    number ← lift (salt operation_id)
    latest ← block env topology.rpc_a 112
    mine_both depth (2000000 + number) (latest.timestamp + 1) 120 160
    canonical_a ← block_hash env topology.rpc_a 200
    previous ← lift (previous_hash private)
    canonical_b ← block_hash env topology.rpc_b 201
    require (canonical_a == canonical_b) rpc_failed
    require (not (canonical_a == previous)) rpc_failed
    pure (
      dict (
          ("phase", str "REPLACED")
          ∷ ("rollbackDepth", num depth)
          ∷ ("previousBlockHash", str previous)
          ∷ ("canonicalBlockHash", str canonical_a)
          ∷ ("candidateId", str topology.candidate_id)
          ∷ []),
      dict [],
    )
