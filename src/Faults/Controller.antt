-- ===== src/Faults/Controller.antt =====
-- fault-control/fault_control.py, class `Controller`: who may ask, for which candidate, and how a fault
-- request is run. The load route is left out.
pub mod Containment
pub mod Once
use Prim.Native.String.{len, slice}
use zkdeal_cloud_deployer_in.Faults.Drills.Disagreement.{restore_disagreement, start_disagreement}
use zkdeal_cloud_deployer_in.Faults.Model.{Action, Surroundings, control_error, invalid_request}
use zkdeal_cloud_deployer_in.Base.Machine.{lift, pure, require, ◌>>=◌, ◌>>◌}
use zkdeal_cloud_deployer_in.Faults.Requests.{
  Drill, checked_drill, disagreement_restore, disagreement_start, on_container, partition,
  reorg_prepare, reorg_replace, rollback,
}
use zkdeal_cloud_deployer_in.Base.{
  Bool, Option, String, [], if◌then◌else◌, none, not, some, ◌&&◌, ◌==◌, ◌∷◌,
}
use zkdeal_cloud_deployer_in.Base.Json.{Fields, end, eq_texts, field, get, put}
use zkdeal_cloud_deployer_in.Faults.Documents.{is_correlation_id, is_mark_word}
use zkdeal_cloud_deployer_in.Base.Decimal.{concat}
use zkdeal_cloud_deployer_in.Faults.Journal.{Callback, execute}
use zkdeal_cloud_deployer_in.Faults.Topology.{Topology, binding}
use zkdeal_cloud_deployer_in.Faults.Drills.{container, indexer_rollback, network_partition}
use zkdeal_cloud_deployer_in.Faults.Drills.Reorg.{prepare_reorg, replace_reorg}

-- `Controller` with the journal's digest of its binding
pub record Controller : Type 0 where
  pub topology : Topology
  pub scoped_token : String
  pub binding_digest : String
  pub receipt_binding : Fields

-- `authorization[7:]` behind `Bearer `
abbrev pub supplied_token : Option String → String
supplied_token none = ""
supplied_token (some authorization) =
    if slice authorization 0 7 == "Bearer " then slice authorization 7 (len authorization) else ""

-- `{**value, **more}`
abbrev pub updated : Fields → Fields → Fields
updated value end = value
updated value (field name new rest) = updated (put value name new) rest

module _ (env : Surroundings) (controller : Controller) where
  -- `authenticate`
  unfoldable pub authenticate : Option String → Action (Unit {0})
  authenticate authorization =
      let supplied = supplied_token authorization in
      require (not (supplied == "") && env.sha256 controller.scoped_token == env.sha256 supplied)
        (control_error 401 "UNAUTHORIZED")

  -- `validate_binding`
  unfoldable pub validate_binding : Fields → Action (Unit {0})
  validate_binding body =
      require (eq_texts (get body "binding") (binding controller.topology))
        (control_error 409 "CANDIDATE_BINDING_MISMATCH")

  -- A drill's effect.
  unfoldable pub run_drill : Drill → Callback
  run_drill (reorg_prepare depth) operation_id =
      prepare_reorg env controller.binding_digest controller.topology operation_id depth
  run_drill (reorg_replace depth prepared) operation_id =
      replace_reorg env controller.binding_digest controller.topology operation_id depth prepared
  run_drill disagreement_start operation_id =
      start_disagreement env controller.binding_digest controller.topology operation_id
  run_drill (disagreement_restore prepared) operation_id =
      restore_disagreement env controller.binding_digest controller.topology operation_id prepared
  run_drill (on_container target verb action) operation_id =
      container env controller.binding_digest controller.topology operation_id target verb action
  run_drill (rollback prepared) operation_id =
      indexer_rollback env controller.binding_digest controller.topology operation_id prepared
  run_drill (partition phase) operation_id =
      network_partition env controller.binding_digest controller.topology operation_id phase

  -- `receipt`
  abbrev pub receipt : Fields → Fields
  receipt result = updated result controller.receipt_binding

  -- `execute` for the route `fault`
  unfoldable pub execute_fault : Fields → String → String → Action (Fields × Bool)
  unfolding is_mark_word checked_drill
  execute_fault body key correlation_id = do
    require (is_correlation_id correlation_id) invalid_request
    validate_binding body
    chosen ← lift (checked_drill body)
    result ←
        execute env controller.binding_digest (concat ("fault:" ∷ chosen.0 ∷ [])) body key
          correlation_id (run_drill chosen.1)
    pure (receipt result.0, result.1)
