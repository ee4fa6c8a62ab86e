-- ===== src/Faults/Requests/Reviewed.antt =====
-- fault-control/fault_control.py, `Controller._fault_callback`: the drills that a request can become.
use zkdeal_cloud_deployer_in.Base.{
  Bool-cases, List, String, [], ap, eq_iff, if◌then◌else◌, inl, inr, some, subst, sym, true, ℕ,
  ◌==◌, ◌∙◌, ◌∷◌, ◌≡◌, ◌≤◌,
}
use zkdeal_cloud_deployer_in.Base.Outcome.{bind_first, ok, ok_injective, some_or-some}
use zkdeal_cloud_deployer_in.Base.Lists.{contains}
use zkdeal_cloud_deployer_in.Base.Json.{Fields, get, null, num, str}
use zkdeal_cloud_deployer_in.Faults.Topology.{container_of}
use zkdeal_cloud_deployer_in.Faults.Requests.{
  Drill, allowed_pause_targets, container_drill, disagreement_drill, disagreement_restore,
  disagreement_start, fault_drill, on_container, partition, partition_drill, reorg_drill,
  reorg_prepare, reorg_replace, restart_drill, restart_map, rollback, rollback_drill,
  terminate_drill,
}
use zkdeal_cloud_deployer_in.Faults.Model.{Result}
use zkdeal_cloud_deployer_in.Faults.Requests.Reading.{
  bounded_int-number, one_of-text, phase_drill-cases, second_of,
}

-- The drill of an action and its parameters, by the lists of what each action may name.
pub data ReviewedFor (parameters : Fields) : String → Drill → Type 0 where
  prepares :
      (depth : ℕ)
      → get parameters "phase" ≡ str "prepare"
      → get parameters "depth" ≡ num depth
      → get parameters "preparedOperationId" ≡ null
      → 1 ≤ depth
      → depth ≤ 64
      → ReviewedFor parameters "l1-reorg" (reorg_prepare depth)
  replaces :
      (depth : ℕ) (prepared : String)
      → get parameters "phase" ≡ str "replace"
      → get parameters "depth" ≡ num depth
      → get parameters "preparedOperationId" ≡ str prepared
      → 1 ≤ depth
      → depth ≤ 64
      → ReviewedFor parameters "l1-reorg" (reorg_replace depth prepared)
  starts :
      get parameters "phase" ≡ str "start"
      → get parameters "preparedOperationId" ≡ null
      → ReviewedFor parameters "rpc-disagreement" disagreement_start
  restores :
      (prepared : String)
      → get parameters "phase" ≡ str "restore"
      → get parameters "preparedOperationId" ≡ str prepared
      → ReviewedFor parameters "rpc-disagreement" (disagreement_restore prepared)
  controls_provider :
      (provider verb : String)
      → get parameters "provider" ≡ str provider
      → get parameters "phase" ≡ str verb
      → contains ("rpc-a" ∷ "rpc-b" ∷ []) provider ≡ true
      → contains ("stop" ∷ "start" ∷ []) verb ≡ true
      → ReviewedFor parameters "rpc-provider-control"
          (on_container provider verb "rpc-provider-control")
  pauses :
      (target verb : String)
      → get parameters "target" ≡ str target
      → get parameters "phase" ≡ str verb
      → contains allowed_pause_targets target ≡ true
      → contains ("pause" ∷ "unpause" ∷ []) verb ≡ true
      → ReviewedFor parameters "service-pause" (on_container target verb "service-pause")
  terminates :
      ReviewedFor parameters "coordinator-terminate"
        (on_container "coordinator-active" "stop" "coordinator-terminate")
  rolls_back :
      ReviewedFor parameters "indexer-rollback" (rollback (get parameters "preparedOperationId"))
  partitions :
      (phase : String)
      → get parameters "phase" ≡ str phase
      → contains ("start" ∷ "restore" ∷ []) phase ≡ true
      → ReviewedFor parameters "network-partition" (partition phase)
  restarts :
      (action target : String)
      → container_of action restart_map ≡ some target
      → ReviewedFor parameters action (on_container target "restart" action)

-- A test on the action decides which drill is meant.
at_action :
    {action name : String} {a b : Result Drill} (Q : String → Result Drill → Type 0)
    → (action ≡ name → Q action a)
    → Q action b
    → Q action (if action == name then a else b)
at_action {action} {name} {a} {b} Q then_so otherwise = elim (Bool-cases (action == name)) [
  | inl same ↦ rw (same) (then_so ((eq_iff action name).0 same))
  | inr other ↦ rw (other) otherwise
]

module _ (parameters : Fields) (drill : Drill) where
  reorg_drill-ReviewedFor :
      reorg_drill parameters ≡ ok drill → ReviewedFor parameters "l1-reorg" drill
  unfolding reorg_drill
  reorg_drill-ReviewedFor h =
      let (u, keys, h1) = bind_first _ _ drill h in
      let (phase, named, h2) = bind_first _ _ drill h1 in
      let (depth, bounded, h3) = bind_first _ _ drill h2 in
      let (says, listed) = one_of-text _ _ phase named in
      let (number, at_least, at_most) = bounded_int-number _ 1 64 depth bounded in
      phase_drill-cases phase "prepare" (get parameters "preparedOperationId") (reorg_prepare depth)
        (reorg_replace depth) drill (ReviewedFor parameters "l1-reorg")
        (λ first absent. prepares depth (says ∙ ap str first) number absent at_least at_most)
        (λ text other given.
          replaces depth text (says ∙ ap str (second_of _ _ phase listed other)) number given
            at_least at_most)
        h3

  disagreement_drill-ReviewedFor :
      disagreement_drill parameters ≡ ok drill → ReviewedFor parameters "rpc-disagreement" drill
  unfolding disagreement_drill
  disagreement_drill-ReviewedFor h =
      let (u, keys, h1) = bind_first _ _ drill h in
      let (phase, named, h2) = bind_first _ _ drill h1 in
      let (says, listed) = one_of-text _ _ phase named in
      phase_drill-cases phase "start" (get parameters "preparedOperationId") disagreement_start
        disagreement_restore drill (ReviewedFor parameters "rpc-disagreement")
        (λ first absent. starts (says ∙ ap str first) absent)
        (λ text other given. restores text (says ∙ ap str (second_of _ _ phase listed other)) given)
        h2

  container_drill-cases :
      (action name : String) (targets phases : List String) (R : Drill → Type 0)
      → ((target verb : String)
          → get parameters name ≡ str target
          → get parameters "phase" ≡ str verb
          → contains targets target ≡ true
          → contains phases verb ≡ true
          → R (on_container target verb action))
      → container_drill parameters action name targets phases ≡ ok drill
      → R drill
  unfolding container_drill
  container_drill-cases action name targets phases R reviewed h =
      let (u, keys, h1) = bind_first _ _ drill h in
      let (target, is_target, h2) = bind_first _ _ drill h1 in
      let (verb, is_verb, h3) = bind_first _ _ drill h2 in
      let (says_target, listed_target) = one_of-text _ _ target is_target in
      let (says_verb, listed_verb) = one_of-text _ _ verb is_verb in
      subst R (ok_injective h3)
        (reviewed target verb says_target says_verb listed_target listed_verb)

  rollback_drill-ReviewedFor :
      rollback_drill parameters ≡ ok drill → ReviewedFor parameters "indexer-rollback" drill
  unfolding rollback_drill
  rollback_drill-ReviewedFor h =
      let (u, keys, h1) = bind_first _ _ drill h in
      subst (ReviewedFor parameters "indexer-rollback") (ok_injective h1) rolls_back

  partition_drill-ReviewedFor :
      partition_drill parameters ≡ ok drill → ReviewedFor parameters "network-partition" drill
  unfolding partition_drill
  partition_drill-ReviewedFor h =
      let (u, keys, h1) = bind_first _ _ drill h in
      let (phase, named, h2) = bind_first _ _ drill h1 in
      let (says, listed) = one_of-text _ _ phase named in
      subst (ReviewedFor parameters "network-partition") (ok_injective h2)
        (partitions phase says listed)

  restart_drill-ReviewedFor :
      (action : String)
      → restart_drill parameters action ≡ ok drill
      → ReviewedFor parameters action drill
  unfolding restart_drill
  restart_drill-ReviewedFor action h =
      let (u, keys, h1) = bind_first _ _ drill h in
      let (target, found, h2) = bind_first _ _ drill h1 in
      subst (ReviewedFor parameters action) (ok_injective h2)
        (restarts action target (some_or-some _ _ target found))

  terminate_drill-ReviewedFor :
      (action : String)
      → action ≡ "coordinator-terminate"
      → terminate_drill parameters action ≡ ok drill
      → ReviewedFor parameters action drill
  unfolding terminate_drill
  terminate_drill-ReviewedFor action is h =
      let (u, keys, h1) = bind_first _ _ drill h in
      subst (ReviewedFor parameters action) (ok_injective h1) (
        subst (λ a. ReviewedFor parameters a (on_container "coordinator-active" "stop" a)) (sym is)
          terminates)

  named_as :
      {action name : String} {r : Result Drill}
      → (r ≡ ok drill → ReviewedFor parameters name drill)
      → action ≡ name
      → r ≡ ok drill
      → ReviewedFor parameters action drill
  named_as reviewed is h = subst (λ a. ReviewedFor parameters a drill) (sym is) (reviewed h)

  -- The drill that a fault request becomes is the one of its action and parameters: a reorg of the depth
  -- asked for, from 1 to 64, and a disagreement name an earlier operation in their second phase only; a
  -- provider, rpc-a or rpc-b, is stopped or started; a pausable service is paused or unpaused; the active
  -- coordinator is stopped; a rollback takes what is named as the earlier operation; a partition has one of
  -- its two phases; and every other action restarts the container that the restart map has for it.
  pub fault_drill-ReviewedFor :
      (action : String)
      → fault_drill parameters action ≡ ok drill
      → ReviewedFor parameters action drill
  unfolding fault_drill
  fault_drill-ReviewedFor action =
      let Q : String → Result Drill → Type 0 =
        λ a r. r ≡ ok drill → ReviewedFor parameters a drill in
      at_action Q (named_as reorg_drill-ReviewedFor) (
        at_action Q (named_as disagreement_drill-ReviewedFor) (
          at_action Q
            (λ is.
              container_drill-cases action "provider" _ _ (ReviewedFor parameters action)
                (λ target verb t v lt lv.
                  subst (λ a. ReviewedFor parameters a (on_container target verb a)) (sym is)
                    (controls_provider target verb t v lt lv)))
            (at_action Q
              (λ is.
                container_drill-cases action "target" _ _ (ReviewedFor parameters action)
                  (λ target verb t v lt lv.
                    subst (λ a. ReviewedFor parameters a (on_container target verb a)) (sym is)
                      (pauses target verb t v lt lv)))
              (at_action Q (terminate_drill-ReviewedFor action) (
                at_action Q (named_as rollback_drill-ReviewedFor) (
                  at_action Q (named_as partition_drill-ReviewedFor)
                    (restart_drill-ReviewedFor action)))))))
