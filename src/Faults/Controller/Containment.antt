-- ===== src/Faults/Controller/Containment.antt =====
-- fault-control/fault_control.py, `Controller.execute`: whom a fault request reaches.
use zkdeal_cloud_deployer_in.Faults.Drills.Reviewed.{Contained, Indifferent, own_clock, own_record}
use zkdeal_cloud_deployer_in.Faults.Model.{Event, History, Surroundings, World, created}
use zkdeal_cloud_deployer_in.Base.Machine.Keeps.{
  Keeps, Keeps-bind, Keeps-lift, Keeps-pure, Keeps-require, Keeps-then,
}
use zkdeal_cloud_deployer_in.Base.{String, ◌∷◌}
use zkdeal_cloud_deployer_in.Base.Json.{Fields}
use zkdeal_cloud_deployer_in.Faults.Topology.{Topology}
use zkdeal_cloud_deployer_in.Faults.Requests.{
  Drill, disagreement_restore, disagreement_start, on_container, partition, reorg_prepare,
  reorg_replace, rollback,
}
use zkdeal_cloud_deployer_in.Faults.Drills.Targets.{
  container-Keeps, indexer_rollback-Keeps, network_partition-Keeps, prepare_reorg-Keeps,
  replace_reorg-Keeps, restore_disagreement-Keeps, start_disagreement-Keeps,
}
use zkdeal_cloud_deployer_in.Faults.Journal.Keeps.{KeepsNew, execute-Keeps}
use zkdeal_cloud_deployer_in.Faults.Controller.{
  Controller, execute_fault, run_drill, validate_binding,
}

-- The histories that grow out of one by contained events.
pub data Since (env : Surroundings) (topology : Topology) (before : History)
    : History → Type 0 where
  nothing : Since env topology before before
  grown :
      (event : Event) (history : History)
      → Contained env topology event
      → Since env topology before history
      → Since env topology before (event ∷ history)

module _ (env : Surroundings) (controller : Controller) where
  module _ {P : World → Type 0} (step : Indifferent env controller.topology P) where
    pub run_drill-Keeps :
        (drill : Drill) (operation_id : String)
        → Keeps P (run_drill env controller drill operation_id)
    unfolding run_drill
    run_drill-Keeps (reorg_prepare depth) id =
        prepare_reorg-Keeps env controller.topology step controller.binding_digest id depth
    run_drill-Keeps (reorg_replace depth prepared) id =
        replace_reorg-Keeps env controller.topology step controller.binding_digest id depth prepared
    run_drill-Keeps disagreement_start id =
        start_disagreement-Keeps env controller.topology step controller.binding_digest id
    run_drill-Keeps (disagreement_restore prepared) id =
        restore_disagreement-Keeps env controller.topology step controller.binding_digest id
          prepared
    run_drill-Keeps (on_container target verb action) id =
        container-Keeps env controller.topology step controller.binding_digest id target verb action
    run_drill-Keeps (rollback prepared) id =
        indexer_rollback-Keeps env controller.topology step controller.binding_digest id prepared
    run_drill-Keeps (partition phase) id =
        network_partition-Keeps env controller.topology step controller.binding_digest id phase

  pub execute_fault-Keeps :
      {P : World → Type 0}
      → Indifferent env controller.topology P
      → KeepsNew P
      → (body : Fields) (key correlation_id : String)
      → Keeps P (execute_fault env controller body key correlation_id)
  unfolding execute_fault validate_binding
  execute_fault-Keeps step new body key correlation_id = Keeps-then _ _ (Keeps-require _ _) (
      Keeps-then _ _ (Keeps-require _ _) (
        Keeps-bind _ _ (Keeps-lift _) (λ chosen.
          Keeps-bind _ _
            (execute-Keeps env (λ w p. step _ own_clock w p) new controller.binding_digest
              (run_drill env controller chosen.1) (run_drill-Keeps step chosen.1) _ body key
              correlation_id)
            (λ result. Keeps-pure _))))

  -- Whatever a fault request says, all that it adds to the history is: POSTs to the root of one of the two
  -- providers without a token, a reviewed verb on a container that the topology names, the partition's
  -- network with such a container, records of the journal, and looks at the clock.
  pub execute_fault-Since :
      (body : Fields) (key correlation_id : String) (w : World)
      → Since env controller.topology w.history
          (execute_fault env controller body key correlation_id w).1.history
  execute_fault-Since body key correlation_id w =
      (execute_fault-Keeps {P = λ v. Since env controller.topology w.history v.history}
          (λ event contained v p. grown event v.history contained p)
          (λ name content v fresh p. grown (created name) v.history (own_record name) p) body key
          correlation_id).at
        w nothing
